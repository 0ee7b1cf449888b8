-- ===== src/Producer/Cache/Entries.antt =====
-- The entries of the cache of src/producer.rs, while connections are made and tried.
use nsq_async_rs.Base.{
  ℕ, ◌<◌, ◌==◌, if◌then◌else◌, inl, inr, Option, none, some, Option-cases, ⊎-cases, List, [], ◌∷◌,
  All, ◌≡◌, refl, sym, ap, ◌∙◌, arith,
}
use nsq_async_rs.Base.Octets.{Bytes}
use nsq_async_rs.Base.Assoc.{
  lookup, remove, insert, Distinct, remove-Lacks, remove-Distinct, remove-All,
}
use nsq_async_rs.Error.{Outcome, ok, err, panic, hang}
use nsq_async_rs.Protocol.Command.{IdentifyConfig}
use nsq_async_rs.Connection.{Connection, ping, initialize}
use nsq_async_rs.Network.{
  Env, Net, put_live, share, handed_out, set_up, around, connect_with_retry, dial,
}
use nsq_async_rs.Network
use nsq_async_rs.Network.Addr.{initialize-KeepsAddr, ping-KeepsAddr}
use nsq_async_rs.Network.Backoff.{Promise, Retries_keep}
use nsq_async_rs.Producer.{
  Producer, ProducerConfig, set_conn, keep, create, reuse, try_cached, get_or_create_connection,
}

-- A cached connection is one that was made, and it is to the address that it is cached under.
abbrev pub IsEntry : Net → Bytes × ℕ → Type 0
IsEntry n e = (e.1 < n.next) × ((n.live e.1).addr ≡ e.0)

-- The time for retries is limited.
abbrev pub IsTimed : ProducerConfig → Type 0
IsTimed config = (limit : ℕ) × (config.backoff_config.max_elapsed_time ≡ some limit)

pub record IsCache (p : Producer) : Type 0 where
  pub distinct : Distinct p.connections
  pub entries : All (IsEntry p.net) p.connections
  pub timed : IsTimed p.config

All-map {ℓ κ} :
    {A : Type ℓ} {P Q : A → Type κ} → ((x : A) → P x → Q x) → (xs : List A) → All P xs → All Q xs
All-map f [] h = tt
All-map f (x ∷ xs) h = (f x h.0, All-map f xs h.1)

-- Another connection in the place of one, to the same address.
pub set_conn-IsCache :
    (a : ℕ) (c : Connection) (p : Producer)
    → c.addr ≡ (p.net.live a).addr
    → IsCache p
    → IsCache (set_conn a c p)
set_conn-IsCache a c p e h = record {
  timed = h.timed;
  distinct = h.distinct;
  entries = All-map (λ x i. (i.0, same x i)) p.connections h.entries;
}
  where
    same : (x : Bytes × ℕ) → IsEntry p.net x → (if a == x.1 then c else p.net.live x.1).addr ≡ x.0
    same x i = ground arith

-- Dialling leaves the connections that there are.
abbrev Stored : Net → Net → Type 0
Stored n n' = (n'.live ≡ n.live) × (n'.next ≡ n.next)

dial-Stored : (env : Env) (addr : Bytes) (n : Net) → Stored n (dial env addr n).1
unfolding dial
dial-Stored env addr n = elim (⊎-cases (env.tcp addr n.dials)) [
  | inl (c, e) ↦ rw (e, dial) (refl, refl)
  | inr (x, e) ↦ rw (e, dial) (refl, refl)
]

handed_out_addr :
    (x : Outcome (Unit {0}) × Connection) (c : Connection) → handed_out x ≡ ok c → x.1 ≡ c
handed_out_addr (ok u, d) c h = cc
handed_out_addr (err e, d) c h = cc
handed_out_addr (panic, d) c h = cc
handed_out_addr (hang, d) c h = cc

set_up_addr :
    (env : Env) (addr : Bytes) (config : Option IdentifyConfig) (secret : Option Bytes) (rt wt : ℕ)
    (r : Outcome Connection) (c : Connection)
    → set_up env addr config secret rt wt r ≡ ok c
    → c.addr ≡ addr
unfolding around
set_up_addr env addr config secret rt wt (ok stream) c h =
    let made = around env addr config secret rt wt stream in
    sym (ap (λ d. d.addr) (handed_out_addr (initialize env.to_json made) c h))
    ∙ (initialize-KeepsAddr env.to_json).keeps made
set_up_addr env addr config secret rt wt (err e) c h = cc
set_up_addr env addr config secret rt wt panic c h = cc
set_up_addr env addr config secret rt wt hang c h = cc

module _ (env : Env) (promise : Promise env.retry) where
  connect-Stored :
      (addr : Bytes) (limit : ℕ) (n : Net) → Stored n (connect_with_retry env addr limit n).1
  unfolding connect_with_retry
  connect-Stored addr limit n =
      Retries_keep (dial env addr) (Stored n)
        (λ m h. ((dial-Stored env addr m).0 ∙ h.0, (dial-Stored env addr m).1 ∙ h.1))
        (promise Net Connection
          (record {
            initial_interval = 100;
            max_interval = 1000;
            multiplier = 2000;
            max_elapsed_time = some limit;
          })
          limit (dial env addr) n refl)
        (refl, refl)

  -- A connection that `Connection::new` gives is to the address that it was asked for.
  new_addr :
      (addr : Bytes) (config : Option IdentifyConfig) (secret : Option Bytes) (rt wt : ℕ) (n : Net)
      → Stored n (Network.new env addr config secret rt wt n).1
        × ((c : Connection) → (Network.new env addr config secret rt wt n).0 ≡ ok c → c.addr ≡ addr)
  unfolding Network.new
  new_addr addr config secret rt wt n = (
    connect-Stored addr 5000 n,
    λ c h. set_up_addr env addr config secret rt wt (connect_with_retry env addr 5000 n).0 c h,
  )

  entries-Stored :
      (n n' : Net) (m : List (Bytes × ℕ)) → Stored n n' → All (IsEntry n) m → All (IsEntry n') m
  entries-Stored n n' m st = All-map (λ x h. (rw st.1 h.0, ap (λ l. (l x.1).addr) st.0 ∙ h.1)) m

  -- What is cached is the connection that was made, under its address.
  keep-IsCache :
      (addr : Bytes) (x : Outcome Connection × Net) (p : Producer)
      → Stored p.net x.1
      → ((c : Connection) → x.0 ≡ ok c → c.addr ≡ addr)
      → IsCache p
      → IsCache (keep env addr x p).1
  unfolding insert
  keep-IsCache addr (ok c, n) p st made h = record {
    timed = h.timed;
    distinct = (remove-Lacks addr p.connections, remove-Distinct addr p.connections h.distinct);
    entries = (
      (omega arith, ground (arith, made c refl)),
      All-map (λ x i. ((ground (arith, i.0), later x i))) (remove addr p.connections)
          (remove-All _ addr p.connections (entries-Stored p.net n p.connections st h.entries)),
    );
  }
    where
      later : (x : Bytes × ℕ) → IsEntry n x → (if n.next == x.1 then c else n.live x.1).addr ≡ x.0
      later x i = ground arith
  keep-IsCache addr (err e, n) p st made h = record {
    timed = h.timed;
    distinct = h.distinct;
    entries = entries-Stored p.net n p.connections st h.entries;
  }
  keep-IsCache addr (panic, n) p st made h = record {
    timed = h.timed;
    distinct = h.distinct;
    entries = entries-Stored p.net n p.connections st h.entries;
  }
  keep-IsCache addr (hang, n) p st made h = record {
    timed = h.timed;
    distinct = h.distinct;
    entries = entries-Stored p.net n p.connections st h.entries;
  }

  create-IsCache : (addr : Bytes) (p : Producer) → IsCache p → IsCache (create env addr p).1
  unfolding create
  create-IsCache addr p h =
      let t = p.config.connection_timeout in
      let made = new_addr addr p.config.identify_config p.config.auth_secret t t p.net in
      keep-IsCache addr
        (Network.new env addr p.config.identify_config p.config.auth_secret t t p.net) p made.0
        made.1 h

  reuse-IsCache :
      (addr : Bytes) (a : ℕ) (r : Outcome (Unit {0})) (p : Producer)
      → IsCache p
      → IsCache (reuse env addr a r p).1
  reuse-IsCache addr a (ok u) p h = h
  reuse-IsCache addr a (err e) p h =
      create-IsCache addr (record p { connections = remove addr p.connections })
        (record {
          timed = h.timed;
          distinct = remove-Distinct addr p.connections h.distinct;
          entries = remove-All _ addr p.connections h.entries;
        })
  reuse-IsCache addr a panic p h = h
  reuse-IsCache addr a hang p h = h

  try_cached-IsCache :
      (addr : Bytes) (a : ℕ) (p : Producer) → IsCache p → IsCache (try_cached env addr a p).1
  unfolding try_cached
  try_cached-IsCache addr a p h =
      let x = ping env.to_json none (p.net.live a) in
      reuse-IsCache addr a x.0 (set_conn a x.1 p)
        (set_conn-IsCache a x.1 p ((ping-KeepsAddr env.to_json none).keeps (p.net.live a)) h)

  pub get_or_create-IsCache :
      (addr : Bytes) (p : Producer) → IsCache p → IsCache (get_or_create_connection env addr p).1
  unfolding get_or_create_connection
  get_or_create-IsCache addr p h = elim (Option-cases (lookup addr p.connections)) [
    | inl e ↦ rw (e, get_or_create_connection) (create-IsCache addr p h)
    | inr (a, e) ↦ rw (e, get_or_create_connection) (try_cached-IsCache addr a p h)
  ]
