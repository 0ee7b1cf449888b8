-- ===== src/Connection/Stream.antt =====
-- The two halves of a connection of src/connection.rs: reading bytes and frames, and writing.
use nsq_async_rs.Base.{
  ℕ, zero, suc, ◌-◌, ltb, leb, if◌then◌else◌, Bool, true, false, Option, none, some, [], ◌++◌, take,
}
use nsq_async_rs.Base.Octets.{Bytes, from_be, split_exact}
use nsq_async_rs.Base.Int.{to_i32}
use nsq_async_rs.Base.Text.{bytes}
use nsq_async_rs.Error.{
  IoError, unexpected_eof, invalid_frame_size, invalid_frame_type, Error, timed_out, Outcome, ok,
  err, panic, hang,
}
use nsq_async_rs.Protocol.Command.{IdentifyConfig}
use nsq_async_rs.Protocol.Frame.{Frame, decode_frame}

-- What reading comes to when the bytes that came in are used up.
pub data ReadEnd : Type 0 where
  ends : ReadEnd
  stalls : ReadEnd
  fails : IoError → ReadEnd

-- What writing comes to when no more writes go through.
pub data WriteEnd : Type 0 where
  stuck : WriteEnd
  breaks : IoError → WriteEnd

-- `sent` are the bytes written so far. When `write_room` is used up, a write still puts out its first
-- `write_cut` bytes. Durations are in milliseconds.
pub record Connection : Type 0 where
  pub addr : Bytes
  pub identify_config : IdentifyConfig
  pub auth_secret : Option Bytes
  pub read_timeout : ℕ
  pub write_timeout : ℕ
  pub input : Bytes
  pub read_end : ReadEnd
  pub sent : Bytes
  pub write_room : ℕ
  pub write_cut : ℕ
  pub write_end : WriteEnd
  pub shutdown_result : Option IoError

-- A method may change the connection and also fail.
abbrev pub Act {ℓ} : Type ℓ → Type ℓ
Act A = Connection → Outcome A × Connection

abbrev pub pure {ℓ} : {A : Type ℓ} → A → Act A
pure a c = (ok a, c)

abbrev pub fail {ℓ} : {A : Type ℓ} → Outcome A → Act A
fail r c = (r, c)

abbrev pub continue {ℓ κ} : {A : Type ℓ} {B : Type κ} → Outcome A → (A → Act B) → Act B
continue (ok a) f c = f a c
continue (err e) f c = (err e, c)
continue panic f c = (panic, c)
continue hang f c = (hang, c)

infixl 5 ◌>>=◌ ◌>>◌
abbrev pub ◌>>=◌ {ℓ κ} : {A : Type ℓ} {B : Type κ} → Act A → (A → Act B) → Act B
◌>>=◌ m f c = let (r, c') = m c in continue r f c'

abbrev pub ◌>>◌ {ℓ κ} : {A : Type ℓ} {B : Type κ} → Act A → Act B → Act B
m >> n = m >>= λ _. n

-- The error of tokio's `read_exact` at the end of the stream.
unfoldable pub early_eof : Error
unfolding bytes
early_eof = Error.io (record { kind = unexpected_eof; message = bytes "early eof" })

-- `limited` tells whether the read stands under `timeout`; a stall without it never ends.
unfoldable pub starved : Bool → ReadEnd → Outcome Bytes
unfolding early_eof
starved limited ends = err early_eof
starved limited (fails e) = err (Error.io e)
starved true stalls = err timed_out
starved false stalls = hang

-- `read_exact` of `n` bytes. What it has read of too few bytes is lost.
unfoldable pub read_exact : Bool → ℕ → Act Bytes
unfolding starved split_exact
read_exact limited n c = elim (split_exact n c.input) [
  | some (bs, rest) ↦ (ok bs, record c { input = rest })
  | none ↦ (starved limited c.read_end, record c { input = [] })
]

unfoldable pub blocked : Bool → WriteEnd → Outcome (Unit {0})
blocked limited (breaks e) = err (Error.io e)
blocked true stuck = err timed_out
blocked false stuck = hang

-- `write_all` and `flush`.
unfoldable pub write_all : Bool → Bytes → Act (Unit {0})
unfolding blocked
write_all limited bs c = elim c.write_room [
  | zero ↦ (blocked limited c.write_end, record c { sent = c.sent ++ take c.write_cut bs })
  | suc n ↦ (ok tt, record c { sent = c.sent ++ bs; write_room = n })
]

-- `write_bytes`, under the timeout for writes.
unfoldable pub write_bytes : Bytes → Act (Unit {0})
write_bytes bs = write_all true bs

-- `size - 4` on a `u32`, which panics below 0.
unfoldable pub sub_four : ℕ → Outcome ℕ
sub_four n = if ltb n 4 then panic else ok (n - 4)

-- `read_frame`; the data are read only for the types 0 to 2. (As a signed number a type is in this
-- range just if it is as an unsigned one.)
unfoldable pub read_typed : ℕ → ℕ → Bytes → Act Frame
read_typed cell size type_buf =
    if leb (from_be type_buf) 2
    then (do payload ← read_exact true (size - 4); fail (decode_frame cell (type_buf ++ payload)))
    else fail (err (Error.protocol (invalid_frame_type (to_i32 (from_be type_buf)))))

unfoldable pub read_sized : ℕ → ℕ → Act Frame
read_sized cell size =
    if ltb size 4
    then fail (err (Error.protocol invalid_frame_size))
    else (do type_buf ← read_exact true 4; read_typed cell size type_buf)

unfoldable pub read_frame : ℕ → Act Frame
read_frame cell = do size_buf ← read_exact true 4; read_sized cell (from_be size_buf)
