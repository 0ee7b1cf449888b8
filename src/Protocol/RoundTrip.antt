-- ===== src/Protocol/RoundTrip.antt =====
-- `Command::to_bytes` against the reader of the command stream.
use nsq_async_rs.Base.{
  ℕ, ◌^◌, ◌<◌, ◌≡◌, refl, ◌∙◌, Option, none, some, List, [], ◌∷◌, ◌++◌, ◌⊎◌, inl, append_assoc,
  append-nil, arith, length, All, ◌≢◌,
}
use nsq_async_rs.Base.Octets.{Bytes, be32, as_u32}
use nsq_async_rs.Base.Text.{bytes}
use nsq_async_rs.Base.Decimal.{show_dec}
use nsq_async_rs.Error.{ok}
use nsq_async_rs.Protocol.Command.{
  IdentifyConfig, Command, total_size, sized, sized_all, auth_body, to_bytes,
}
use nsq_async_rs.Protocol.Command.Request.{Request, take_words, read_args, read_request}
use nsq_async_rs.Protocol.Command.Reading.{
  IsField, FitsU32, take_words_one, take_words_two, take_words_three, take_sized-sized,
  take_block_lem, show_dec-IsField, read_number-show_dec,
}

abbrev secret_bytes : Option Bytes → Bytes
secret_bytes none = []
secret_bytes (some s) = s

-- What a command asks for; the JSON of IDENTIFY is what `to_json` gives.
abbrev pub Asks : (IdentifyConfig → Bytes ⊎ Bytes) → Command → Request → Type 0
Asks to_json (Command.identify c) r =
    (json : Bytes) × (to_json c ≡ inl json) × (r ≡ Request.identify json)
Asks to_json (Command.subscribe t c) r = r ≡ Request.sub t c
Asks to_json (Command.publish t b) r = r ≡ Request.publish t b
Asks to_json (Command.delayed_publish t b d) r = r ≡ Request.delayed t b d
Asks to_json (Command.mpublish t bs) r = r ≡ Request.multi t bs
Asks to_json (Command.ready n) r = r ≡ Request.ready n
Asks to_json (Command.finish id) r = r ≡ Request.finish id
Asks to_json (Command.requeue id d) r = r ≡ Request.requeue id d
Asks to_json (Command.touch id) r = r ≡ Request.touch id
Asks to_json Command.nop r = r ≡ Request.nop
Asks to_json Command.cls r = r ≡ Request.close
Asks to_json (Command.auth s) r = r ≡ Request.auth (secret_bytes s)

-- Names without spaces and newlines, and bodies whose sizes fit 32 bits.
abbrev pub IsSendable : (IdentifyConfig → Bytes ⊎ Bytes) → Command → Type 0
IsSendable to_json (Command.identify c) = (json : Bytes) × (to_json c ≡ inl json) × FitsU32 json
IsSendable to_json (Command.subscribe t c) = IsField t × IsField c
IsSendable to_json (Command.publish t b) = IsField t × FitsU32 b
IsSendable to_json (Command.delayed_publish t b d) = IsField t × FitsU32 b
IsSendable to_json (Command.mpublish t bs) =
    IsField t × All FitsU32 bs × (length bs < 2 ^ 32) × (total_size 4 bs < 2 ^ 32)
IsSendable to_json (Command.ready n) = Unit
IsSendable to_json (Command.finish id) = IsField id
IsSendable to_json (Command.requeue id d) = IsField id
IsSendable to_json (Command.touch id) = IsField id
IsSendable to_json Command.nop = Unit
IsSendable to_json Command.cls = Unit
IsSendable to_json (Command.auth s) = FitsU32 (secret_bytes s)

read_request_args :
    {args : List Bytes} {rest : Bytes} (input : Bytes)
    → take_words input ≡ some (args, rest)
    → read_request input ≡ read_args args rest
unfolding read_request
read_request_args input e = rw e

verb_IsField : {v : Bytes} → All (λ b. b ≢ 32) v → All (λ b. b ≢ 10) v → IsField v
verb_IsField s n = record { no_space = s; no_newline = n }

-- One request on the wire.
abbrev Reads : Bytes → Request → Bytes → Type 0
Reads input r rest = read_request input ≡ some (r, rest)

module _ (rest : Bytes) where
  Reads-sub :
      (t c : Bytes)
      → IsField t × IsField c
      → Reads (bytes "SUB" ++ (32 ∷ (t ++ (32 ∷ (c ++ (10 ∷ rest)))))) (Request.sub t c) rest
  unfolding bytes
  Reads-sub t c (ht, hc) =
      read_request_args _
        (take_words_three (bytes "SUB") t c rest (verb_IsField (omega arith) (omega arith)) ht hc)
      ∙ unfold read_args in refl

  Reads-requeue :
      (id : Bytes) (n : ℕ)
      → IsField id
      → Reads
          (bytes "REQ" ++ (32 ∷ (id ++ (32 ∷ (show_dec n ++ (10 ∷ rest))))))
          (Request.requeue id n)
          rest
  unfolding bytes
  Reads-requeue id n h =
      read_request_args _ (
        take_words_three (bytes "REQ") id (show_dec n) rest
          (verb_IsField (omega arith) (omega arith)) h (show_dec-IsField n))
      ∙ unfold read_args in rw (read_number-show_dec n)

  Reads-delayed :
      (t b : Bytes) (n : ℕ)
      → IsField t × FitsU32 b
      → Reads
          (bytes "DPUB" ++ (32 ∷ (t ++ (32 ∷ (show_dec n ++ (10 ∷ (sized b ++ rest)))))))
          (Request.delayed t b n)
          rest
  unfolding bytes
  Reads-delayed t b n (ht, hb) =
      read_request_args _ (
        take_words_three (bytes "DPUB") t (show_dec n) (sized b ++ rest)
          (verb_IsField (omega arith) (omega arith)) ht (show_dec-IsField n))
      ∙ unfold read_args in rw (read_number-show_dec n, take_sized-sized b rest hb)

  Reads-publish :
      (t b : Bytes)
      → IsField t × FitsU32 b
      → Reads (bytes "PUB" ++ (32 ∷ (t ++ (10 ∷ (sized b ++ rest))))) (Request.publish t b) rest
  unfolding bytes
  Reads-publish t b (ht, hb) =
      read_request_args _ (
        take_words_two (bytes "PUB") t (sized b ++ rest) (verb_IsField (omega arith) (omega arith))
          ht)
      ∙ unfold read_args in rw (take_sized-sized b rest hb)

  Reads-multi :
      (t : Bytes) (bs : List Bytes)
      → IsField t × All FitsU32 bs × (length bs < 2 ^ 32) × (total_size 4 bs < 2 ^ 32)
      → Reads
          (bytes "MPUB"
            ++ (32
                ∷ (t
                    ++ (10
                        ∷ (be32 (as_u32 (total_size 4 bs))
                            ++ (be32 (as_u32 (length bs)) ++ (sized_all bs ++ rest)))))))
          (Request.multi t bs)
          rest
  unfolding bytes
  Reads-multi t bs (ht, fit, count, total) =
      read_request_args _
        (take_words_two (bytes "MPUB") t _ (verb_IsField (omega arith) (omega arith)) ht)
      ∙ unfold read_args in rw (take_block_lem bs rest fit count total)

  Reads-ready :
      (n : ℕ) → Reads (bytes "RDY" ++ (32 ∷ (show_dec n ++ (10 ∷ rest)))) (Request.ready n) rest
  unfolding bytes
  Reads-ready n =
      read_request_args _ (
        take_words_two (bytes "RDY") (show_dec n) rest (verb_IsField (omega arith) (omega arith))
          (show_dec-IsField n))
      ∙ unfold read_args in rw (read_number-show_dec n)

  Reads-finish :
      (id : Bytes)
      → IsField id
      → Reads (bytes "FIN" ++ (32 ∷ (id ++ (10 ∷ rest)))) (Request.finish id) rest
  unfolding bytes
  Reads-finish id h =
      read_request_args _
        (take_words_two (bytes "FIN") id rest (verb_IsField (omega arith) (omega arith)) h)
      ∙ unfold read_args in refl

  Reads-touch :
      (id : Bytes)
      → IsField id
      → Reads (bytes "TOUCH" ++ (32 ∷ (id ++ (10 ∷ rest)))) (Request.touch id) rest
  unfolding bytes
  Reads-touch id h =
      read_request_args _
        (take_words_two (bytes "TOUCH") id rest (verb_IsField (omega arith) (omega arith)) h)
      ∙ unfold read_args in refl

  Reads-nop : Reads (bytes "NOP" ++ (10 ∷ rest)) Request.nop rest
  unfolding bytes
  Reads-nop =
      read_request_args _
        (take_words_one (bytes "NOP") rest (verb_IsField (omega arith) (omega arith)))
      ∙ unfold read_args in refl

  Reads-close : Reads (bytes "CLS" ++ (10 ∷ rest)) Request.close rest
  unfolding bytes
  Reads-close =
      read_request_args _
        (take_words_one (bytes "CLS") rest (verb_IsField (omega arith) (omega arith)))
      ∙ unfold read_args in refl

  Reads-auth :
      (s : Bytes)
      → FitsU32 s
      → Reads (bytes "AUTH" ++ (10 ∷ (sized s ++ rest))) (Request.auth s) rest
  unfolding bytes
  Reads-auth s h =
      read_request_args _
        (take_words_one (bytes "AUTH") (sized s ++ rest) (verb_IsField (omega arith) (omega arith)))
      ∙ unfold read_args in rw (take_sized-sized s rest h)

  Reads-identify :
      (s : Bytes)
      → FitsU32 s
      → Reads (bytes "IDENTIFY" ++ (10 ∷ (sized s ++ rest))) (Request.identify s) rest
  unfolding bytes
  Reads-identify s h =
      read_request_args _ (
        take_words_one (bytes "IDENTIFY") (sized s ++ rest)
          (verb_IsField (omega arith) (omega arith)))
      ∙ unfold read_args in rw (take_sized-sized s rest h)

auth_body-sized : (s : Option Bytes) → auth_body s ≡ sized (secret_bytes s)
unfolding auth_body sized
auth_body-sized none = simp append-nil
auth_body-sized (some s) = refl

-- A command that is sent as `wire`: what it asks for is what the reader reads, and no more bytes.
abbrev pub IsFramed : (IdentifyConfig → Bytes ⊎ Bytes) → Command → Bytes → Type 0
IsFramed to_json c rest =
    (wire : Bytes) × (r : Request) × (to_bytes to_json c ≡ ok wire)
    × Asks to_json c r
    × (read_request (wire ++ rest) ≡ some (r, rest))

-- Every sendable command is encoded without an error, and a reader of the command stream gets back
-- from the encoding, whatever bytes follow it, the request that the command stands for, with its
-- names, numbers and bodies, and leaves just the bytes that follow.
pub to_bytes-IsFramed :
    (to_json : IdentifyConfig → Bytes ⊎ Bytes) (c : Command) (rest : Bytes)
    → IsSendable to_json c
    → IsFramed to_json c rest
unfolding to_bytes bytes be32
to_bytes-IsFramed to_json (Command.identify c) rest (json, e, h) = (
  bytes "IDENTIFY\n" ++ sized json,
  Request.identify json,
  rw e,
  (json, e, refl),
  Reads-identify rest json h,
)
to_bytes-IsFramed to_json (Command.subscribe t c) rest h =
    (_, Request.sub t c, refl, refl, simp append_assoc (Reads-sub rest t c h))
to_bytes-IsFramed to_json (Command.publish t b) rest h =
    (_, Request.publish t b, refl, refl, simp append_assoc (Reads-publish rest t b h))
to_bytes-IsFramed to_json (Command.delayed_publish t b d) rest h =
    (_, Request.delayed t b d, refl, refl, simp append_assoc (Reads-delayed rest t b d h))
to_bytes-IsFramed to_json (Command.mpublish t bs) rest h =
    (_, Request.multi t bs, refl, refl, simp append_assoc (Reads-multi rest t bs h))
to_bytes-IsFramed to_json (Command.ready n) rest h =
    (_, Request.ready n, refl, refl, simp append_assoc (Reads-ready rest n))
to_bytes-IsFramed to_json (Command.finish id) rest h =
    (_, Request.finish id, refl, refl, simp append_assoc (Reads-finish rest id h))
to_bytes-IsFramed to_json (Command.requeue id d) rest h =
    (_, Request.requeue id d, refl, refl, simp append_assoc (Reads-requeue rest id d h))
to_bytes-IsFramed to_json (Command.touch id) rest h =
    (_, Request.touch id, refl, refl, simp append_assoc (Reads-touch rest id h))
to_bytes-IsFramed to_json Command.nop rest h = (_, Request.nop, refl, refl, Reads-nop rest)
to_bytes-IsFramed to_json Command.cls rest h = (_, Request.close, refl, refl, Reads-close rest)
to_bytes-IsFramed to_json (Command.auth s) rest h = (
  _,
  Request.auth (secret_bytes s),
  refl,
  refl,
  rw (auth_body-sized s) (Reads-auth rest (secret_bytes s) h),
)
