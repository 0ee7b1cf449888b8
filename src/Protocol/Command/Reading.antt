-- ===== src/Protocol/Command/Reading.antt =====
-- Lemmas on the reader of the command stream: lines and words, sized bodies, blocks of them.
use nsq_async_rs.Base.{
  ℕ, ◌+◌, ◌^◌, ◌<◌, ◌≡◌, refl, sym, ap, ◌∙◌, ◌≢◌, some, List, [], ◌∷◌, ◌++◌, append_assoc,
  append-nil, arith, length, length-append, All, All-append,
}
use nsq_async_rs.Base.Octets.{
  Bytes, as_u32, be32, length-be32, from_be, from_be-be32, split_exact, split_exact-append,
}
use nsq_async_rs.Base.Decimal.{
  show_dec, show_dec-IsDigit, show_dec_pos, read_loop, read_loop-show_dec, IsDigit,
}
use nsq_async_rs.Protocol.Command.{sized, sized_all, total_size}
use nsq_async_rs.Protocol.Command.Request.{
  take_line, words, take_words, take_sized, take_all_sized, take_block, read_number,
}

-- No byte of a field is `c`.
abbrev pub Avoids : ℕ → Bytes → Type 0
Avoids c = All (λ b. b ≢ c)

-- A field of a command line: no space and no newline.
pub record IsField (bs : Bytes) : Type 0 where
  pub no_space : Avoids 32 bs
  pub no_newline : Avoids 10 bs

take_line-append :
    (line rest : Bytes) → Avoids 10 line → take_line (line ++ (10 ∷ rest)) ≡ some (line, rest)
unfolding take_line
take_line-append [] rest h = refl
take_line-append (b ∷ line) rest h = ground (arith, take_line-append line rest h.1)

pub words-append : (w line : Bytes) → Avoids 32 w → words (w ++ (32 ∷ line)) ≡ w ∷ words line
unfolding words
words-append [] line h = refl
words-append (b ∷ w) line h = ground (arith, words-append w line h.1)

pub words_one : (w : Bytes) → Avoids 32 w → words w ≡ w ∷ []
unfolding words
words_one [] h = refl
words_one (b ∷ w) h = ground (arith, words_one w h.1)

pub take_words_line :
    (line rest : Bytes)
    → Avoids 10 line
    → take_words (line ++ (10 ∷ rest)) ≡ some (words line, rest)
unfolding take_words
take_words_line line rest h = rw (take_line-append line rest h)

-- A line of one, two and three fields, in the nesting that `to_bytes` leaves them in.
pub take_words_one :
    (v rest : Bytes) → IsField v → take_words (v ++ (10 ∷ rest)) ≡ some (v ∷ [], rest)
take_words_one v rest hv =
    take_words_line v rest hv.no_newline ∙ ap (λ ws. some (ws, rest)) (words_one v hv.no_space)

pub take_words_two :
    (v a rest : Bytes)
    → IsField v
    → IsField a
    → take_words (v ++ (32 ∷ (a ++ (10 ∷ rest)))) ≡ some (v ∷ a ∷ [], rest)
take_words_two v a rest hv ha =
    ap take_words (sym (append_assoc v (32 ∷ a) (10 ∷ rest)))
    ∙ take_words_line (v ++ (32 ∷ a)) rest
        (All-append _ v (32 ∷ a) hv.no_newline (omega arith, ha.no_newline))
    ∙ ap (λ ws. some (ws, rest))
        (words-append v a hv.no_space ∙ ap (◌∷◌ v) (words_one a ha.no_space))

pub take_words_three :
    (v a b rest : Bytes)
    → IsField v
    → IsField a
    → IsField b
    → take_words (v ++ (32 ∷ (a ++ (32 ∷ (b ++ (10 ∷ rest)))))) ≡ some (v ∷ a ∷ b ∷ [], rest)
take_words_three v a b rest hv ha hb =
    ap take_words regroup
    ∙ take_words_line (v ++ (32 ∷ (a ++ (32 ∷ b)))) rest no_newline
    ∙ ap (λ ws. some (ws, rest)) split
  where
    regroup :
        v ++ (32 ∷ (a ++ (32 ∷ (b ++ (10 ∷ rest))))) ≡ (v ++ (32 ∷ (a ++ (32 ∷ b)))) ++ (10 ∷ rest)
    regroup = simp append_assoc

    no_newline : Avoids 10 (v ++ (32 ∷ (a ++ (32 ∷ b))))
    no_newline =
        All-append _ v _ hv.no_newline
          (omega arith, All-append _ a (32 ∷ b) ha.no_newline (omega arith, hb.no_newline))

    split : words (v ++ (32 ∷ (a ++ (32 ∷ b)))) ≡ v ∷ a ∷ b ∷ []
    split =
        words-append v _ hv.no_space
        ∙ ap (◌∷◌ v) (words-append a b ha.no_space ∙ ap (◌∷◌ a) (words_one b hb.no_space))

split_exact-be32 : (n : ℕ) (rest : Bytes) → split_exact 4 (be32 n ++ rest) ≡ some (be32 n, rest)
split_exact-be32 n rest =
    ap (λ k. split_exact k (be32 n ++ rest)) (sym (length-be32 n))
    ∙ split_exact-append (be32 n) rest

from_be-length : (n : ℕ) → n < 2 ^ 32 → from_be (be32 (as_u32 n)) ≡ n
from_be-length n h = from_be-be32 (as_u32 n) (omega arith) ∙ omega arith

pub take_sized-sized :
    (body rest : Bytes) → length body < 2 ^ 32 → take_sized (sized body ++ rest) ≡ some (body, rest)
unfolding take_sized sized
take_sized-sized body rest h =
    rw
      (
        append_assoc (be32 (as_u32 (length body))) body rest,
        split_exact-be32 (as_u32 (length body)) (body ++ rest),
        from_be-length (length body) h,
      )
      (split_exact-append body rest)

abbrev pub FitsU32 : Bytes → Type 0
FitsU32 body = length body < 2 ^ 32

pub take_all_sized-sized_all :
    (bodies : List Bytes) (rest : Bytes)
    → All FitsU32 bodies
    → take_all_sized (length bodies) (sized_all bodies ++ rest) ≡ some (bodies, rest)
unfolding take_all_sized sized_all
take_all_sized-sized_all [] rest h = refl
take_all_sized-sized_all (body ∷ bodies) rest h = rw (
  append_assoc (sized body) (sized_all bodies) rest,
  take_sized-sized body (sized_all bodies ++ rest) h.0,
  take_all_sized-sized_all bodies rest h.1,
)

length-sized : (body : Bytes) → length (sized body) ≡ 4 + length body
unfolding sized be32
length-sized body = omega arith

-- The accumulated size is what the bodies take on the wire.
pub total_size-sized_all :
    (n : ℕ) (bodies : List Bytes) → total_size n bodies ≡ n + length (sized_all bodies)
unfolding total_size sized_all
total_size-sized_all n [] = omega arith
total_size-sized_all n (body ∷ bodies) = omega (
  arith,
  total_size-sized_all (n + (4 + length body)) bodies,
  length-append (sized body) (sized_all bodies),
  length-sized body,
)

-- The block of MPUB behind its size: the number of bodies, then each with its size.
take_block-sized :
    (bodies : List Bytes) (rest : Bytes)
    → All FitsU32 bodies
    → length bodies < 2 ^ 32
    → length (be32 (as_u32 (length bodies)) ++ sized_all bodies) < 2 ^ 32
    → take_block (sized (be32 (as_u32 (length bodies)) ++ sized_all bodies) ++ rest)
      ≡ some (bodies, rest)
unfolding take_block
take_block-sized bodies rest fit count total = rw (
  take_sized-sized (be32 (as_u32 (length bodies)) ++ sized_all bodies) rest total,
  split_exact-be32 (as_u32 (length bodies)) (sized_all bodies),
  from_be-length (length bodies) count,
  ap (take_all_sized (length bodies)) (sym (append-nil (sized_all bodies)))
      ∙ take_all_sized-sized_all bodies [] fit,
)

pub take_block_lem :
    (bodies : List Bytes) (rest : Bytes)
    → All FitsU32 bodies
    → length bodies < 2 ^ 32
    → total_size 4 bodies < 2 ^ 32
    → take_block (
        be32 (as_u32 (total_size 4 bodies))
        ++ (be32 (as_u32 (length bodies)) ++ (sized_all bodies ++ rest)))
      ≡ some (bodies, rest)
take_block_lem bodies rest fit count total =
    ap take_block regroup ∙ take_block-sized bodies rest fit count (omega (arith, whole))
  where
    whole : length (be32 (as_u32 (length bodies)) ++ sized_all bodies) ≡ total_size 4 bodies
    whole = omega (
      arith,
      length-append (be32 (as_u32 (length bodies))) (sized_all bodies),
      length-be32 (as_u32 (length bodies)),
      total_size-sized_all 4 bodies,
    )

    regroup :
        be32 (as_u32 (total_size 4 bodies))
          ++ (be32 (as_u32 (length bodies)) ++ (sized_all bodies ++ rest))
        ≡ sized (be32 (as_u32 (length bodies)) ++ sized_all bodies) ++ rest
    regroup = unfold sized in rw whole (simp append_assoc)

IsDigit-IsField : (ds : Bytes) → All IsDigit ds → IsField ds
IsDigit-IsField ds h = record {
  no_space = avoid 32 ds (omega arith) h;
  no_newline = avoid 10 ds (omega arith) h;
}
  where
    avoid : (c : ℕ) (xs : Bytes) → c < 48 → All IsDigit xs → Avoids c xs
    avoid c [] lt d = tt
    avoid c (x ∷ xs) lt d = (omega arith, avoid c xs lt d.1)

pub show_dec-IsField : (n : ℕ) → IsField (show_dec n)
show_dec-IsField n = IsDigit-IsField (show_dec n) (show_dec-IsDigit n)

show_dec-ne-nil : (n : ℕ) → show_dec n ≢ []
show_dec-ne-nil n e = absurd (omega (arith, show_dec_pos n, ap length e))

pub read_number-show_dec : (n : ℕ) → read_number (show_dec n) ≡ some n
read_number-show_dec n = go (show_dec n) (show_dec-ne-nil n) ∙ read_loop-show_dec n
  where
    go : (ds : Bytes) → ds ≢ [] → read_number ds ≡ read_loop 0 ds
    go [] h = absurd (h refl)
    go (d ∷ ds) h = unfold read_number in refl
