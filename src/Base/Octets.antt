-- ===== src/Base/Octets.antt =====
-- Bytes, big-endian numbers and exact reads, as `byteorder`, `Cursor` and slices give them.
use nsq_async_rs.Base.Tests.{ltb, ◌==◌, if◌then◌else◌}
use nsq_async_rs.Base.Lists.{
  length, take, drop, length-append, take-length_append, drop-length_append,
}
use Prim.Native.Nat.{ℕ, ◌+◌, ◌*◌, ◌/◌, ◌%◌, ◌^◌, ◌<◌}
use mathlib.Core.Path.{◌≡◌, refl}
use mathlib.Core.Bool.{Bool, true, false, ◌&&◌}
use mathlib.Core.List.{List, [], ◌∷◌, ◌++◌}
use mathlib.Core.Option.{Option, none, some}
use native.Mathlib.Omega.{arith}

-- A `Vec<u8>`, a `&[u8]`, or a `String` by its UTF-8 bytes.
abbrev pub Bytes : Type 0
Bytes = List ℕ

abbrev pub IsByte : ℕ → Type 0
IsByte b = b < 256

-- `as u32`
abbrev pub as_u32 : ℕ → ℕ
as_u32 n = n % 2 ^ 32

-- The value of a big-endian byte string.
pub be_value : ℕ → Bytes → ℕ
be_value acc [] = acc
be_value acc (b ∷ bs) = be_value (acc * 256 + b) bs

unfoldable pub from_be : Bytes → ℕ
unfolding be_value
from_be bs = be_value 0 bs

-- `write_u16`, `write_u32`, `write_u64` of `byteorder::BigEndian`.
unfoldable pub be16 : ℕ → Bytes
be16 n = (n / 256 % 256) ∷ (n % 256) ∷ []

unfoldable pub be32 : ℕ → Bytes
be32 n = (n / 16777216 % 256) ∷ (n / 65536 % 256) ∷ (n / 256 % 256) ∷ (n % 256) ∷ []

unfoldable pub be64 : ℕ → Bytes
unfolding be32
be64 n = be32 (n / 4294967296 % 4294967296) ++ be32 (n % 4294967296)

pub length-be32 : (n : ℕ) → length (be32 n) ≡ 4
unfolding be32
length-be32 n = refl

pub from_be-be16 : (n : ℕ) → n < 2 ^ 16 → from_be (be16 n) ≡ n
unfolding from_be be16
from_be-be16 n h = omega arith

pub from_be-be32 : (n : ℕ) → n < 2 ^ 32 → from_be (be32 n) ≡ n
unfolding from_be be32
from_be-be32 n h = omega arith

pub from_be-be64 : (n : ℕ) → n < 2 ^ 64 → from_be (be64 n) ≡ n
unfolding from_be be64
from_be-be64 n h = omega arith

-- Equality of byte strings, the source's `==` on slices and `String`s.
unfoldable pub bytes_eq : Bytes → Bytes → Bool
bytes_eq [] [] = true
bytes_eq (a ∷ as') (b ∷ bs) = a == b && bytes_eq as' bs
bytes_eq _ _ = false

pub bytes_eq_refl : (xs : Bytes) → bytes_eq xs xs ≡ true
unfolding bytes_eq
bytes_eq_refl [] = refl
bytes_eq_refl (x ∷ xs) = ground (arith, bytes_eq_refl xs)

pub bytes_eq_sound : (xs ys : Bytes) → bytes_eq xs ys ≡ true → xs ≡ ys
unfolding bytes_eq
bytes_eq_sound [] [] h = refl
bytes_eq_sound (x ∷ xs) (y ∷ ys) h = ground (arith, bytes_eq_sound xs ys)
bytes_eq_sound [] (y ∷ ys) h = ground arith
bytes_eq_sound (x ∷ xs) [] h = ground arith

-- `read_exact` of a reader over a byte string: the bytes read and those that follow.
unfoldable pub split_exact : ℕ → Bytes → Option (Bytes × Bytes)
split_exact n bs = if ltb (length bs) n then none else some (take n bs, drop n bs)

pub split_exact-append : (xs ys : Bytes) → split_exact (length xs) (xs ++ ys) ≡ some (xs, ys)
unfolding split_exact
split_exact-append xs ys =
    ground (arith, length-append xs ys, take-length_append xs ys, drop-length_append xs ys)
