-- ===== src/Protocol/Command/Request.antt =====
-- The other side of the wire: a reader of the V2 command stream, written from the protocol and not
-- from `to_bytes`. A request ends where its last field ends, and the next one follows it.
use nsq_async_rs.Base.{ℕ, zero, suc, ◌==◌, if◌then◌else◌, Option, none, some, List, [], ◌∷◌}
use nsq_async_rs.Base.Octets.{Bytes, bytes_eq, from_be, split_exact}
use nsq_async_rs.Base.Text.{bytes}
use nsq_async_rs.Base.Decimal.{read_loop}

pub data Request : Type 0 where
  identify : Bytes → Request
  sub : Bytes → Bytes → Request
  publish : Bytes → Bytes → Request
  delayed : Bytes → Bytes → ℕ → Request
  multi : Bytes → List Bytes → Request
  ready : ℕ → Request
  finish : Bytes → Request
  requeue : Bytes → ℕ → Request
  touch : Bytes → Request
  nop : Request
  close : Request
  auth : Bytes → Request

infixl 5 ◌>>=◌
abbrev pub ◌>>=◌ {ℓ κ} : {A : Type ℓ} {B : Type κ} → Option A → (A → Option B) → Option B
none >>= f = none
some a >>= f = f a

-- A line up to its newline, and what follows.
abbrev cons_line : ℕ → Bytes × Bytes → Option (Bytes × Bytes)
cons_line b (line, rest) = some (b ∷ line, rest)

unfoldable pub take_line : Bytes → Option (Bytes × Bytes)
take_line [] = none
take_line (b ∷ bs) =
    let more = take_line bs >>= cons_line b in if b == 10 then some ([], bs) else more

-- The words of a line, between single spaces.
abbrev onto_word : ℕ → List Bytes → List Bytes
onto_word b [] = (b ∷ []) ∷ []
onto_word b (w ∷ ws) = (b ∷ w) ∷ ws

unfoldable pub words : Bytes → List Bytes
words [] = [] ∷ []
words (b ∷ bs) = let more = words bs in if b == 32 then [] ∷ more else onto_word b more

unfoldable pub take_words : Bytes → Option (List Bytes × Bytes)
unfolding words take_line
take_words input = do (line, rest) ← take_line input; some (words line, rest)

-- A 32-bit size and as many bytes.
unfoldable pub take_sized : Bytes → Option (Bytes × Bytes)
take_sized input = do (size, rest) ← split_exact 4 input; split_exact (from_be size) rest

unfoldable pub take_all_sized : ℕ → Bytes → Option (List Bytes × Bytes)
unfolding take_sized
take_all_sized zero input = some ([], input)
take_all_sized (suc n) input = do
  (body, rest) ← take_sized input
  (bodies, rest') ← take_all_sized n rest
  some (body ∷ bodies, rest')

-- The bodies of MPUB fill their block exactly.
no_more : List Bytes × Bytes → Option (List Bytes)
no_more (bodies, []) = some bodies
no_more (bodies, _ ∷ _) = none

unfoldable pub take_block : Bytes → Option (List Bytes × Bytes)
unfolding take_sized take_all_sized no_more
take_block input = do
  (block, rest) ← take_sized input
  (count, packed) ← split_exact 4 block
  read ← take_all_sized (from_be count) packed
  bodies ← no_more read
  some (bodies, rest)

unfoldable pub read_number : Bytes → Option ℕ
unfolding read_loop
read_number [] = none
read_number (d ∷ ds) = read_loop 0 (d ∷ ds)

unfoldable pub read_args : List Bytes → Bytes → Option (Request × Bytes)
unfolding bytes bytes_eq
read_args (verb ∷ []) rest =
    if bytes_eq verb (bytes "IDENTIFY")
    then (do (json, rest') ← take_sized rest; some (identify json, rest'))
    else if bytes_eq verb (bytes "AUTH")
    then (do (secret, rest') ← take_sized rest; some (auth secret, rest'))
    else if bytes_eq verb (bytes "NOP")
    then some (nop, rest)
    else if bytes_eq verb (bytes "CLS")
    then some (close, rest)
    else none
read_args (verb ∷ arg ∷ []) rest =
    if bytes_eq verb (bytes "PUB")
    then (do (body, rest') ← take_sized rest; some (publish arg body, rest'))
    else if bytes_eq verb (bytes "MPUB")
    then (do (bodies, rest') ← take_block rest; some (multi arg bodies, rest'))
    else if bytes_eq verb (bytes "RDY")
    then (do n ← read_number arg; some (ready n, rest))
    else if bytes_eq verb (bytes "FIN")
    then some (finish arg, rest)
    else if bytes_eq verb (bytes "TOUCH")
    then some (touch arg, rest)
    else none
read_args (verb ∷ arg ∷ arg' ∷ []) rest =
    if bytes_eq verb (bytes "SUB")
    then some (sub arg arg', rest)
    else if bytes_eq verb (bytes "DPUB")
    then (do
      n ← read_number arg'
      (body, rest') ← take_sized rest
      some (delayed arg body n, rest'))
    else if bytes_eq verb (bytes "REQ")
    then (do n ← read_number arg'; some (requeue arg n, rest))
    else none
read_args _ rest = none

unfoldable pub read_request : Bytes → Option (Request × Bytes)
unfolding take_words read_args
read_request input = do (args, rest) ← take_words input; read_args args rest
