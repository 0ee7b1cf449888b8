-- ===== src/Protocol/Words.antt =====
-- `Protocol::write_command` and `Protocol::encode_command` of src/protocol.rs.
pub mod Bare
use nsq_async_rs.Base.{
  ℕ, suc, ◌+◌, ◌-◌, ◌^◌, ◌<◌, ltb, if◌then◌else◌, Option, none, some, List, [], ◌∷◌, ◌++◌, length,
  drop, ◌≡◌, refl, ◌∙◌, ap, arith, append_assoc, append-nil, All, All-append,
}
use nsq_async_rs.Base.Octets.{Bytes, as_u32, be32}
use nsq_async_rs.Protocol.Command.{sized}
use nsq_async_rs.Protocol.Command.Request.{words, take_words, take_sized}
use nsq_async_rs.Protocol.Command.Reading.{
  IsField, Avoids, words-append, words_one, take_words_line, take_sized-sized,
}

-- The loop over `params.iter().enumerate()`: a space before each but the first.
unfoldable pub params_from : ℕ → List Bytes → Bytes
params_from i [] = []
params_from i (p ∷ ps) = (if ltb 0 i then 32 ∷ [] else []) ++ (p ++ params_from (i + 1) ps)

unfoldable pub write_command : Bytes → List Bytes → Bytes
unfolding params_from
write_command cmd [] = cmd ++ (10 ∷ [])
write_command cmd (p ∷ ps) = cmd ++ (32 ∷ (params_from 0 (p ∷ ps) ++ (10 ∷ [])))

unfoldable pub spaced : List Bytes → Bytes
spaced [] = []
spaced (p ∷ ps) = 32 ∷ (p ++ spaced ps)

unfoldable pub body_or_none : Option Bytes → Bytes
body_or_none none = []
body_or_none (some b) = b

-- The buffer of `encode_command` before its first four bytes are written over.
unfoldable pub placeholder : Bytes → Option Bytes → List Bytes → Bytes
unfolding spaced body_or_none
placeholder name body params = 0 ∷ 0 ∷ 0 ∷ 0 ∷ (name ++ (spaced params ++ (10 ∷ body_or_none body)))

unfoldable pub encode_command : Bytes → Option Bytes → List Bytes → Bytes
unfolding placeholder
encode_command name body params =
    let cmd = placeholder name body params in be32 (as_u32 (length cmd - 4)) ++ drop 4 cmd

params_from-spaced : (i : ℕ) (ps : List Bytes) → params_from (suc i) ps ≡ spaced ps
unfolding params_from spaced
params_from-spaced i [] = refl
params_from-spaced i (p ∷ ps) = ground (arith, params_from-spaced (suc i) ps)

params_from_one : (ps : List Bytes) → params_from (0 + 1) ps ≡ spaced ps
params_from_one ps = params_from-spaced 0 ps

write_command-spaced :
    (cmd : Bytes) (ps : List Bytes) → write_command cmd ps ≡ (cmd ++ spaced ps) ++ (10 ∷ [])
unfolding write_command spaced
write_command-spaced cmd [] = simp append-nil
write_command-spaced cmd (p ∷ ps) = simp (append_assoc, params_from_one)

spaced-Avoids :
    (cmd : Bytes) (ps : List Bytes) → IsField cmd → All IsField ps → Avoids 10 (cmd ++ spaced ps)
unfolding spaced
spaced-Avoids cmd [] hc hs = All-append _ cmd [] hc.no_newline tt
spaced-Avoids cmd (p ∷ ps) hc hs =
    All-append _ cmd _ hc.no_newline (omega arith, spaced-Avoids p ps hs.0 hs.1)

words-spaced :
    (cmd : Bytes) (ps : List Bytes)
    → IsField cmd
    → All IsField ps
    → words (cmd ++ spaced ps) ≡ cmd ∷ ps
unfolding spaced
words-spaced cmd [] hc hs = rw append-nil (words_one cmd hc.no_space)
words-spaced cmd (p ∷ ps) hc hs =
    words-append cmd (p ++ spaced ps) hc.no_space ∙ ap (◌∷◌ cmd) (words-spaced p ps hs.0 hs.1)

-- A command that `write_command` writes from a name and any number of parameters, none of them with a
-- space or a newline, is read back as that name and those parameters, up to the end of its line.
pub take_words-write_command :
    (cmd : Bytes) (params : List Bytes) (rest : Bytes)
    → IsField cmd
    → All IsField params
    → take_words (write_command cmd params ++ rest) ≡ some (cmd ∷ params, rest)
take_words-write_command cmd params rest hc hs =
    ap (λ w. take_words (w ++ rest)) (write_command-spaced cmd params)
    ∙ ap take_words (append_assoc (cmd ++ spaced params) (10 ∷ []) rest)
    ∙ take_words_line (cmd ++ spaced params) rest (spaced-Avoids cmd params hc hs)
    ∙ ap (λ ws. some (ws, rest)) (words-spaced cmd params hc hs)

-- What `encode_command` writes is one sized block: its first four bytes are the size of the line of
-- the name and the parameters with the body behind it, as long as that fits 32 bits.
pub take_sized-encode_command :
    (name : Bytes) (body : Option Bytes) (params : List Bytes) (rest : Bytes)
    → length (name ++ (spaced params ++ (10 ∷ body_or_none body))) < 2 ^ 32
    → take_sized (encode_command name body params ++ rest)
      ≡ some (name ++ (spaced params ++ (10 ∷ body_or_none body)), rest)
take_sized-encode_command name body params rest h =
    ap (λ w. take_sized (w ++ rest)) as_sized ∙ take_sized-sized line rest h
  where
    line : Bytes
    line = name ++ (spaced params ++ (10 ∷ body_or_none body))

    as_sized : encode_command name body params ≡ sized line
    as_sized =
        unfold encode_command sized in
        ap (λ n. be32 (as_u32 n) ++ line)
          (let e : suc (suc (suc (suc (length line)))) - 4 ≡ length line = omega arith in e)
