-- ===== src/Producer/Sharing/Cached.antt =====
-- The cache of connections under any schedule of tries.
use nsq_async_rs.Base.{ℕ, ==_iff, Bool-cases, inl, inr, false, List, [], ◌∷◌, ◌≡◌, refl, ap}
use nsq_async_rs.Connection.{Connection}
use nsq_async_rs.Network.Backoff.{Promise}
use nsq_async_rs.Network.Addr.{write_bytes-KeepsAddr, read_frame-KeepsAddr}
use nsq_async_rs.Network.{Env, Net}
use nsq_async_rs.Producer.{Producer, ProducerConfig, new, set_conn}
use nsq_async_rs.Producer.Cache.Entries.{IsCache, IsTimed, set_conn-IsCache}
use nsq_async_rs.Producer.Cache.{get_publish-IsCache}
use nsq_async_rs.Producer.Sharing.{
  Stage, starts, connected, wrote, ended, Try, Shop, to_stage, in_stage, connects, from_stage,
  advance, run,
}

module _ (env : Env) (promise : Promise env.retry) where
  connects-IsCache : (k : ℕ) (s : Shop) → IsCache s.producer → IsCache (connects env k s).producer
  unfolding connects
  connects-IsCache k s h = elim (Bool-cases s.held) [
    | inl busy ↦ rw busy h
    | inr free ↦ rw free (get_publish-IsCache env promise (s.tries k).topic s.producer h)
  ]

  advance-IsCache : (k : ℕ) (s : Shop) → IsCache s.producer → IsCache (advance env k s).producer
  unfolding advance
  advance-IsCache k s h = go (s.tries k).stage
    where
      go : (st : Stage) → IsCache (from_stage env k st s).producer
      go starts = connects-IsCache k s h
      go (connected a) =
          set_conn-IsCache a _ s.producer
            ((write_bytes-KeepsAddr (s.tries k).wire).keeps (s.producer.net.live a)) h
      go (wrote a) =
          set_conn-IsCache a _ s.producer
            ((read_frame-KeepsAddr (s.tries k).cell).keeps (s.producer.net.live a)) h
      go (ended r) = h

  run-IsCache : (ks : List ℕ) (s : Shop) → IsCache s.producer → IsCache (run env ks s).producer
  unfolding run
  run-IsCache [] s h = h
  run-IsCache (k ∷ ks) s h = run-IsCache ks (advance env k s) (advance-IsCache k s h)

-- The cache is right also for publications that run at once. If the configured backoff has a
-- `max_elapsed_time` and `retry` does what the backoff crate promises, then in whatever order the tries
-- go on, a new producer has at most one cached connection for an address, and each is one that was
-- made to the address that it is kept under.
pub schedule-IsCache :
    (env : Env) (config : ProducerConfig) (net : Net) (tries : ℕ → Try) (ks : List ℕ)
    → Promise env.retry
    → IsTimed config
    → IsCache
        (run env ks (record { producer = new config net; held = false; tries = tries })).producer
schedule-IsCache env config net tries ks promise timed =
    run-IsCache env promise ks _ (record { timed = timed; distinct = tt; entries = tt })

module _ (env : Env) (k : ℕ) where
  pub advance_at :
      (st : Stage) (s : Shop) → (s.tries k).stage ≡ st → advance env k s ≡ from_stage env k st s
  unfolding advance
  advance_at st s e = ap (λ x. from_stage env k x s) e

  pub tries_at : (st : Stage) (s : Shop) → (in_stage k st s).tries k ≡ to_stage st (s.tries k)
  tries_at st s = rw ((==_iff k k).1 refl) refl

  pub live_at : (a : ℕ) (c : Connection) (p : Producer) → (set_conn a c p).net.live a ≡ c
  live_at a c p = rw ((==_iff a a).1 refl) refl
