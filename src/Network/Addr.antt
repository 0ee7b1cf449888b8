-- ===== src/Network/Addr.antt =====
-- No method of a `Connection` changes its address.
use nsq_async_rs.Base.{
  ℕ, if◌then◌else◌, Bool, true, false, ◌⊎◌, Option, none, some, ◌≡◌, refl, ◌∙◌, arith,
}
use nsq_async_rs.Base.Octets.{Bytes}
use nsq_async_rs.Base.Text.{bytes}
use nsq_async_rs.Error.{Error, Outcome, ok, err, panic, hang}
use nsq_async_rs.Protocol.Command.{IdentifyConfig, Command}
use nsq_async_rs.Connection.{
  Connection, Act, pure, fail, continue, ◌>>=◌, ◌>>◌, read_exact, write_all, write_bytes,
  read_typed, read_sized, read_frame, reply_typed, reply_sized, read_reply, send_command,
  authenticate, introduce, initialize, ping,
}

pub record KeepsAddr {ℓ} {A : Type ℓ} (m : Act A) : Type 0 where
  pub keeps : (c : Connection) → (m c).1.addr ≡ c.addr

module _ {ℓ κ} {A : Type ℓ} {B : Type κ} where
  continue-KeepsAddr :
      (f : A → Act B)
      → ((a : A) → KeepsAddr (f a))
      → (r : Outcome A) (c : Connection) → (continue r f c).1.addr ≡ c.addr
  continue-KeepsAddr f h (ok a) c = (h a).keeps c
  continue-KeepsAddr f h (err e) c = refl
  continue-KeepsAddr f h panic c = refl
  continue-KeepsAddr f h hang c = refl

  bind-KeepsAddr :
      {m : Act A} {f : A → Act B} → KeepsAddr m → ((a : A) → KeepsAddr (f a)) → KeepsAddr (m >>= f)
  bind-KeepsAddr {m} {f} h hs = record {
    keeps = λ c. continue-KeepsAddr f hs (m c).0 (m c).1 ∙ h.keeps c;
  }

fail-KeepsAddr {ℓ} : {A : Type ℓ} (r : Outcome A) → KeepsAddr (fail r)
fail-KeepsAddr r = record { keeps = λ c. refl }

pure-KeepsAddr {ℓ} : {A : Type ℓ} (a : A) → KeepsAddr (pure a)
pure-KeepsAddr a = record { keeps = λ c. refl }

if-KeepsAddr {ℓ} :
    {A : Type ℓ} (b : Bool) {m n : Act A}
    → KeepsAddr m
    → KeepsAddr n
    → KeepsAddr (if b then m else n)
if-KeepsAddr true h h' = h
if-KeepsAddr false h h' = h'

read_exact-KeepsAddr : (limited : Bool) (n : ℕ) → KeepsAddr (read_exact limited n)
unfolding read_exact
read_exact-KeepsAddr limited n = record { keeps = λ c. ground arith }

write_all-KeepsAddr : (limited : Bool) (bs : Bytes) → KeepsAddr (write_all limited bs)
unfolding write_all
write_all-KeepsAddr limited bs = record { keeps = λ c. ground arith }

pub write_bytes-KeepsAddr : (bs : Bytes) → KeepsAddr (write_bytes bs)
unfolding write_bytes
write_bytes-KeepsAddr bs = write_all-KeepsAddr true bs

ruleset keep_rules = (
  bind-KeepsAddr, fail-KeepsAddr, pure-KeepsAddr, if-KeepsAddr, read_exact-KeepsAddr,
  write_all-KeepsAddr, write_bytes-KeepsAddr,
)

read_typed-KeepsAddr : (cell size : ℕ) (t : Bytes) → KeepsAddr (read_typed cell size t)
unfolding read_typed
read_typed-KeepsAddr cell size t = search keep_rules

read_sized-KeepsAddr : (cell size : ℕ) → KeepsAddr (read_sized cell size)
unfolding read_sized
read_sized-KeepsAddr cell size = search (keep_rules, read_typed-KeepsAddr)

pub read_frame-KeepsAddr : (cell : ℕ) → KeepsAddr (read_frame cell)
unfolding read_frame
read_frame-KeepsAddr cell = search (keep_rules, read_sized-KeepsAddr)

module _ (refuse : Option ℕ → Error) where
  reply_typed-KeepsAddr : (size t : ℕ) → KeepsAddr (reply_typed refuse size t)
  unfolding reply_typed
  reply_typed-KeepsAddr size t = search keep_rules

  reply_sized-KeepsAddr : (size : ℕ) → KeepsAddr (reply_sized refuse size)
  unfolding reply_sized
  reply_sized-KeepsAddr size = search (keep_rules, reply_typed-KeepsAddr)

  read_reply-KeepsAddr : KeepsAddr (read_reply refuse)
  unfolding read_reply
  read_reply-KeepsAddr = search (keep_rules, reply_sized-KeepsAddr)

module _ (to_json : IdentifyConfig → Bytes ⊎ Bytes) where
  pub send_command-KeepsAddr : (cmd : Command) → KeepsAddr (send_command to_json cmd)
  unfolding send_command
  send_command-KeepsAddr cmd = search keep_rules

  authenticate-KeepsAddr : (secret : Option Bytes) → KeepsAddr (authenticate to_json secret)
  unfolding authenticate
  authenticate-KeepsAddr none = search keep_rules
  authenticate-KeepsAddr (some s) = search (keep_rules, read_reply-KeepsAddr)

  introduce-KeepsAddr : (config : IdentifyConfig) → KeepsAddr (introduce to_json config)
  unfolding introduce
  introduce-KeepsAddr config = search (keep_rules, read_reply-KeepsAddr)

  hello-KeepsAddr :
      (config : IdentifyConfig) (secret : Option Bytes)
      → KeepsAddr (
          write_all false (bytes "  V2")
          >> (introduce to_json config >> authenticate to_json secret))
  hello-KeepsAddr config secret = search (keep_rules, introduce-KeepsAddr, authenticate-KeepsAddr)

  pub initialize-KeepsAddr : KeepsAddr (initialize to_json)
  unfolding initialize
  initialize-KeepsAddr = record {
    keeps = λ c. (hello-KeepsAddr c.identify_config c.auth_secret).keeps c;
  }

  pub ping-KeepsAddr : (limit : Option ℕ) → KeepsAddr (ping to_json limit)
  unfolding ping
  ping-KeepsAddr limit = record { keeps = (send_command-KeepsAddr Command.nop).keeps }
