-- ===== src/Base/Text.antt =====
-- Texts of the source as their UTF-8 bytes.
use Prim.Native.Char.{code}
use Prim.Native.String.{String}
use nsq_async_rs.Base.Tests.{ltb, leb, ◌==◌, if◌then◌else◌}
use nsq_async_rs.Base.Lists.{All, take}
use nsq_async_rs.Base.Octets.{Bytes}
use Prim.Native.Nat.{ℕ, zero, suc, ◌+◌, ◌/◌, ◌%◌, ◌<◌}
use mathlib.Core.Path.{◌≡◌, refl}
use mathlib.Core.Bool.{Bool, true, false, ◌&&◌}
use mathlib.Core.List.{[], ◌∷◌, ◌++◌}
use native.Mathlib.Omega.{arith}

-- The UTF-8 bytes of a scalar value.
utf8 : ℕ → Bytes
utf8 c =
    if ltb c 0x80
    then c ∷ []
    else if ltb c 0x800
    then (0xc0 + c / 0x40) ∷ (0x80 + c % 0x40) ∷ []
    else if ltb c 0x10000
    then (0xe0 + c / 0x1000) ∷ (0x80 + c / 0x40 % 0x40) ∷ (0x80 + c % 0x40) ∷ []
    else (0xf0 + c / 0x40000)
      ∷ (0x80 + c / 0x1000 % 0x40)
      ∷ (0x80 + c / 0x40 % 0x40)
      ∷ (0x80 + c % 0x40)
      ∷ []

-- `"...".as_bytes()` and `b"..."`.
unfoldable pub bytes : String → Bytes
unfolding utf8
bytes String.[] = []
bytes (String.◌∷◌ c s) = utf8 (code c) ++ bytes s

bytes_example : bytes "V2消" ≡ 0x56 ∷ 0x32 ∷ 0xe6 ∷ 0xb6 ∷ 0x88 ∷ []
unfolding bytes
bytes_example = refl

-- `String::from_utf8_lossy`, as the standard library scans it: at each position the bytes of one
-- character, or the longest start of one, which is replaced by U+FFFD.
abbrev in_range : ℕ → ℕ → ℕ → Bool
in_range lo hi b = leb lo b && leb b hi

abbrev is_cont : ℕ → Bool
is_cont b = in_range 0x80 0xbf b

-- The second byte that may follow the first of three, and of four.
second_of_three : ℕ → ℕ → Bool
second_of_three b =
    if b == 0xe0 then in_range 0xa0 0xbf else if b == 0xed then in_range 0x80 0x9f else is_cont

second_of_four : ℕ → ℕ → Bool
second_of_four b =
    if b == 0xf0 then in_range 0x90 0xbf else if b == 0xf4 then in_range 0x80 0x8f else is_cont

-- How many bytes behind the first belong to it, of `k` that are wanted, and whether all are there.
continuations : ℕ → Bytes → ℕ × Bool
continuations zero bs = (0, true)
continuations (suc k) [] = (0, false)
continuations (suc k) (b ∷ bs) =
    let (n, whole) = continuations k bs in if is_cont b then (suc n, whole) else (0, false)

behind_second : (ℕ → Bool) → ℕ → Bytes → ℕ × Bool
behind_second test k [] = (0, false)
behind_second test k (b ∷ bs) =
    let (n, whole) = continuations k bs in if test b then (suc n, whole) else (0, false)

scan : ℕ → Bytes → ℕ × Bool
unfolding second_of_three second_of_four continuations behind_second
scan b bs =
    if ltb b 0x80
    then (0, true)
    else if in_range 0xc2 0xdf b
    then continuations 1 bs
    else if in_range 0xe0 0xef b
    then behind_second (second_of_three b) 1 bs
    else if in_range 0xf0 0xf4 b
    then behind_second (second_of_four b) 2 bs
    else (0, false)

-- `skip` counts the bytes that are dealt with already.
lossy : ℕ → Bytes → Bytes
unfolding scan
lossy skip [] = []
lossy (suc skip) (b ∷ bs) = lossy skip bs
lossy zero (b ∷ bs) =
    let (n, whole) = scan b bs in
    (if whole then b ∷ take n bs else 0xef ∷ 0xbf ∷ 0xbd ∷ []) ++ lossy n bs

unfoldable pub from_utf8_lossy : Bytes → Bytes
unfolding lossy
from_utf8_lossy bs = lossy 0 bs

lossy_example :
    from_utf8_lossy (0x61 ∷ 0xe6 ∷ 0xb6 ∷ 0x88 ∷ 0xe6 ∷ 0xb6 ∷ 0x62 ∷ [])
    ≡ 0x61 ∷ 0xe6 ∷ 0xb6 ∷ 0x88 ∷ 0xef ∷ 0xbf ∷ 0xbd ∷ 0x62 ∷ []
unfolding from_utf8_lossy
lossy_example = refl

abbrev pub IsAscii : Bytes → Type 0
IsAscii = All (λ b. b < 0x80)

lossy_ascii : (bs : Bytes) → IsAscii bs → lossy 0 bs ≡ bs
unfolding lossy
lossy_ascii [] h = refl
lossy_ascii (b ∷ bs) h = ground (arith, lossy_ascii bs h.1)

-- ASCII text, such as the ids that nsqd gives, is taken as it is.
pub from_utf8_lossy_ascii : (bs : Bytes) → IsAscii bs → from_utf8_lossy bs ≡ bs
unfolding from_utf8_lossy
from_utf8_lossy_ascii bs h = lossy_ascii bs h
