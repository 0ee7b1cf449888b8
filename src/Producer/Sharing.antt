-- ===== src/Producer/Sharing.antt =====
-- Publications that share one `NsqProducer` of src/producer.rs and run at once: between the locks that a
-- try takes, any others may run. A retry is a further try.
pub mod Cached
pub mod Answers
use nsq_async_rs.Base.{ℕ, ◌==◌, if◌then◌else◌, Bool, true, false, List, [], ◌∷◌}
use nsq_async_rs.Base.Octets.{Bytes}
use nsq_async_rs.Error.{Error, permanent, transient, Outcome, ok, err, panic, hang}
use nsq_async_rs.Connection.{Connection, write_bytes, read_frame}
use nsq_async_rs.Responder.{update}
use nsq_async_rs.Network.Backoff.{Attempt}
use nsq_async_rs.Network.{Env}
use nsq_async_rs.Producer.{Producer, set_conn, get_publish_connection, judge}

-- How far a try has come: it has the connection at an address, it has also written its request there, or
-- it is over.
pub data Stage : Type 0 where
  starts : Stage
  connected : ℕ → Stage
  wrote : ℕ → Stage
  ended : Attempt (Unit {0}) → Stage

-- `cell` is the address of a `responded` flag for a message that is read.
pub record Try : Type 0 where
  pub cell : ℕ
  pub topic : Bytes
  pub wire : Bytes
  pub stage : Stage

-- The tries are numbered. `held`: a try that never comes back keeps the lock of the map of connections.
pub record Shop : Type 0 where
  pub producer : Producer
  pub held : Bool
  pub tries : ℕ → Try

abbrev pub then_write : Outcome ℕ → Stage
then_write (ok a) = connected a
then_write (err e) = ended (Attempt.fails (permanent e))
then_write panic = ended Attempt.panic
then_write hang = ended Attempt.hang

abbrev pub hangs : Outcome ℕ → Bool
hangs hang = true
hangs _ = false

abbrev pub then_read : ℕ → Outcome (Unit {0}) → Stage
then_read a (ok u) = wrote a
then_read a (err e) = ended (Attempt.fails (transient e))
then_read a panic = ended Attempt.panic
then_read a hang = ended Attempt.hang

abbrev pub to_stage : Stage → Try → Try
to_stage st t = record t { stage = st }

abbrev pub in_stage : ℕ → Stage → Shop → Shop
in_stage k st s = record s { tries = update s.tries k (to_stage st (s.tries k)) }

module _ (env : Env) where
  -- Under the lock of the map: the connection for the topic.
  unfoldable pub connects : ℕ → Shop → Shop
  unfolding get_publish_connection
  connects k s =
      let (r, p) = get_publish_connection env (s.tries k).topic s.producer in
      if s.held then s else in_stage k (then_write r) (record s { producer = p; held = hangs r })

  -- Under the lock of the connection's write half: the request.
  unfoldable pub writes : ℕ → ℕ → Shop → Shop
  writes k a s =
      let (r, c) = write_bytes (s.tries k).wire (s.producer.net.live a) in
      in_stage k (then_read a r) (record s { producer = set_conn a c s.producer })

  -- Under the lock of its read half: the answer.
  unfoldable pub reads : ℕ → ℕ → Shop → Shop
  unfolding judge
  reads k a s =
      let (r, c) = read_frame (s.tries k).cell (s.producer.net.live a) in
      in_stage k (ended (judge env r)) (record s { producer = set_conn a c s.producer })

  abbrev pub from_stage : ℕ → Stage → Shop → Shop
  from_stage k starts s = connects k s
  from_stage k (connected a) s = writes k a s
  from_stage k (wrote a) s = reads k a s
  from_stage k (ended r) s = s

  -- The k-th try goes on.
  unfoldable pub advance : ℕ → Shop → Shop
  unfolding connects writes reads
  advance k s = from_stage k (s.tries k).stage s

  unfoldable pub run : List ℕ → Shop → Shop
  unfolding advance
  run [] s = s
  run (k ∷ ks) s = run ks (advance k s)
