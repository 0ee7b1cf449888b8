-- ===== src/Consumer/Names.antt =====
-- `is_valid_topic_name` and `is_valid_channel_name` of src/consumer.rs. A character outside ASCII has
-- only bytes from 128 on, which no test accepts, so that testing bytes is testing characters.
use nsq_async_rs.Base.{
  ℕ, ◌≤◌, ◌<◌, ltb, leb, ◌==◌, Bool, true, ◌&&◌, ◌||◌, not, ◌⊎◌, [], ◌∷◌, length, ◌≡◌, ◌≢◌, arith,
  ◌++◌, some,
}
use nsq_async_rs.Base.Octets.{Bytes}
use nsq_async_rs.Error.{ok}
use nsq_async_rs.Protocol.Command.{IdentifyConfig, Command, to_bytes}
use nsq_async_rs.Protocol.Command.Reading.{IsField, Avoids}
use nsq_async_rs.Protocol.Command.Request.{Request, read_request}
use nsq_async_rs.Protocol.RoundTrip.{to_bytes-IsFramed}

abbrev is_ascii_alphanumeric : ℕ → Bool
is_ascii_alphanumeric c =
    (leb b'0' c && leb c b'9') || (leb b'A' c && leb c b'Z') || (leb b'a' c && leb c b'z')

unfoldable pub topic_char : ℕ → Bool
topic_char c = is_ascii_alphanumeric c || c == b'_' || c == b'-' || c == b'.'

unfoldable pub channel_char : ℕ → Bool
channel_char c =
    is_ascii_alphanumeric c || c == b'_' || c == b'-' || c == b'.' || c == b'#' || c == b'*'

all_chars : (ℕ → Bool) → Bytes → Bool
all_chars test [] = true
all_chars test (c ∷ cs) = test c && all_chars test cs

fits : Bytes → Bool
fits s = not (length s == 0 || ltb 64 (length s))

unfoldable pub is_valid_topic_name : Bytes → Bool
unfolding fits all_chars topic_char
is_valid_topic_name s = fits s && all_chars topic_char s

unfoldable pub is_valid_channel_name : Bytes → Bool
unfolding fits all_chars channel_char
is_valid_channel_name s = fits s && all_chars channel_char s

-- No character that a name may have is a space or a newline.
topic_char_plain : (c : ℕ) → topic_char c ≡ true → (c ≢ 32) × (c ≢ 10)
unfolding topic_char
topic_char_plain c h = (λ e. ground arith, λ e. ground arith)

channel_char_plain : (c : ℕ) → channel_char c ≡ true → (c ≢ 32) × (c ≢ 10)
unfolding channel_char
channel_char_plain c h = (λ e. ground arith, λ e. ground arith)

module _ (test : ℕ → Bool) (plain : (c : ℕ) → test c ≡ true → (c ≢ 32) × (c ≢ 10)) where
  all_chars-Avoids : (s : Bytes) → all_chars test s ≡ true → Avoids 32 s × Avoids 10 s
  unfolding all_chars
  all_chars-Avoids [] h = (tt, tt)
  all_chars-Avoids (c ∷ cs) h =
      let (a, b) = plain c (ground arith) in
      let (as', bs) = all_chars-Avoids cs (ground arith) in ((a, as'), (b, bs))

  all_chars-IsField : (s : Bytes) → (fits s && all_chars test s) ≡ true → IsField s
  all_chars-IsField s h =
      let (a, b) = all_chars-Avoids s (ground arith) in record { no_space = a; no_newline = b }

-- A consumer's SUB is well framed: where the topic and the channel pass the checks of `Consumer::new`,
-- the command is encoded, and a reader of the stream gets exactly this topic and this channel.
pub valid_names-framed :
    (to_json : IdentifyConfig → Bytes ⊎ Bytes) (topic channel rest : Bytes)
    → is_valid_topic_name topic ≡ true
    → is_valid_channel_name channel ≡ true
    → (wire : Bytes) × (to_bytes to_json (Command.subscribe topic channel) ≡ ok wire)
      × (read_request (wire ++ rest) ≡ some (Request.sub topic channel, rest))
      × (0 < length topic)
      × (length topic ≤ 64)
      × (0 < length channel)
      × (length channel ≤ 64)
unfolding is_valid_topic_name is_valid_channel_name
valid_names-framed to_json topic channel rest ht hc =
    let (wire, r, e, a, read) = to_bytes-IsFramed to_json (Command.subscribe topic channel) rest (
      all_chars-IsField topic_char topic_char_plain topic ht,
      all_chars-IsField channel_char channel_char_plain channel hc,
    ) in
    (wire, e, cc, ground arith, ground arith, ground arith, ground arith)
