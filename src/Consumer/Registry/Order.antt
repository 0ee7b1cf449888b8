-- ===== src/Consumer/Registry/Order.antt =====
-- A consumer does not depend on the order of its map of connections.
use nsq_async_rs.Base.{
  ℕ, ◌≤◌, if◌then◌else◌, Bool, true, false, inl, inr, none, some, Option-cases, List, [], ◌∷◌,
  length, ◌≡◌, refl, sym, ap, ◌∙◌, arith,
}
use mathlib.Core.Path.{subst}
use mathlib.Core.List.{Permᴰ}
use nsq_async_rs.Base.Octets.{Bytes}
use nsq_async_rs.Base.Int.{pos}
use nsq_async_rs.Base.Assoc.{lookup, remove, insert}
use nsq_async_rs.Base.Order.{lookup-Permᴰ, remove-Permᴰ, length-Permᴰ}
use nsq_async_rs.Error.{Outcome, ok, err, panic, hang}
use nsq_async_rs.Connection.{Connection, close}
use nsq_async_rs.Lookup.{lookup_nodes}
use nsq_async_rs.Network.{Env, Net, put_live}
use nsq_async_rs.Network
use nsq_async_rs.Consumer.Task.{fetch_sub}
use nsq_async_rs.Consumer.Registry.{
  Consumer, ConsumerConfig, stats, enter, connect_to_nsqd, disconnect_from_nsqd, start, stop,
  close_each, connect_each, found, connect_to_nsqlookupd, poll, new,
}
use nsq_async_rs.Consumer.Registry.Counting.{
  Operation, connects, disconnects, looks_up, polls, starts, stops, perform, run, IsCounted,
  connect-IsCounted, perform-IsCounted, new-IsCounted, run-IsCounted,
}
use nsq_async_rs.Consumer.Registry.Draining.{Reordered, close_each-close_all, close_all-Permᴰ}

enter-Reordered :
    (addr : Bytes) (x : Outcome Connection × Net) (c : Consumer) (es : List (Bytes × ℕ))
    → Permᴰ c.connections es
    → Reordered (enter addr x c).1 (enter addr x (record c { connections = es })).1
unfolding insert
enter-Reordered addr (ok conn, n) c es p =
    ((addr, n.next) ∷ remove addr es, Permᴰ.cons refl (remove-Permᴰ addr c.connections es p), refl)
enter-Reordered addr (err e, n) c es p = (es, p, refl)
enter-Reordered addr (panic, n) c es p = (es, p, refl)
enter-Reordered addr (hang, n) c es p = (es, p, refl)

if-Reordered :
    (b : Bool) (c d c' d' : Consumer)
    → Reordered c c'
    → Reordered d d'
    → Reordered (if b then c else d) (if b then c' else d')
if-Reordered true c d c' d' h i = h
if-Reordered false c d c' d' h i = i

-- A function of a consumer that looks at its map no more than this.
abbrev Follows : (Consumer → Consumer) → Consumer → Type 0
Follows f c =
    (es : List (Bytes × ℕ))
    → Permᴰ c.connections es
    → Reordered (f c) (f (record c { connections = es }))

along :
    (f : Consumer → Consumer) (c c' : Consumer)
    → Follows f c
    → Reordered c c'
    → Reordered (f c) (f c')
along f c c' h (es, p, e) = subst (λ x. Reordered (f c) (f x)) (sym e) (h es p)

module _ (env : Env) (addr : Bytes) where
  connect_new :
      (c : Consumer)
      → lookup addr c.connections ≡ none
      → (connect_to_nsqd env addr c).1
        ≡ (enter addr
            (Network.new env addr none none c.config.read_timeout c.config.write_timeout c.net)
            c).1
  unfolding connect_to_nsqd
  connect_new c e = rw (e, connect_to_nsqd) refl

  connect_known :
      (a : ℕ) (c : Consumer)
      → lookup addr c.connections ≡ some a
      → (connect_to_nsqd env addr c).1 ≡ c
  unfolding connect_to_nsqd
  connect_known a c e = rw (e, connect_to_nsqd) refl

  connect-Follows : (c : Consumer) → IsCounted c → Follows (λ x. (connect_to_nsqd env addr x).1) c
  connect-Follows c h es p =
      let c' : Consumer = record c { connections = es } in
      let same : lookup addr es ≡ lookup addr c.connections =
        sym (lookup-Permᴰ addr c.connections es p h.distinct) in
      elim (Option-cases (lookup addr c.connections)) [
        | inl e ↦
            rw (connect_new c e) (rw (connect_new c' (same ∙ e)) (enter-Reordered addr _ c es p))
        | inr (a, e) ↦ rw (connect_known a c e) (rw (connect_known a c' (same ∙ e)) (es, p, refl))
      ]

module _ (addr : Bytes) where
  disconnect_unknown :
      (c : Consumer) → lookup addr c.connections ≡ none → (disconnect_from_nsqd addr c).1 ≡ c
  unfolding disconnect_from_nsqd
  disconnect_unknown c e = rw (e, disconnect_from_nsqd) refl

  disconnect_known :
      (a : ℕ) (c : Consumer)
      → lookup addr c.connections ≡ some a
      → (disconnect_from_nsqd addr c).1 ≡ record c {
        connections = remove addr c.connections;
        connection_count = fetch_sub c.connection_count;
        net = put_live a (close (c.net.live a)).1 c.net;
      }
  unfolding disconnect_from_nsqd
  disconnect_known a c e = rw (e, disconnect_from_nsqd) refl

  disconnect-Follows :
      (c : Consumer) → IsCounted c → Follows (λ x. (disconnect_from_nsqd addr x).1) c
  disconnect-Follows c h es p =
      let c' : Consumer = record c { connections = es } in
      let same : lookup addr es ≡ lookup addr c.connections =
        sym (lookup-Permᴰ addr c.connections es p h.distinct) in
      elim (Option-cases (lookup addr c.connections)) [
        | inl e ↦ rw (disconnect_unknown c e) (rw (disconnect_unknown c' (same ∙ e)) (es, p, refl))
        | inr (a, e) ↦ rw (disconnect_known a c e) (
            rw (disconnect_known a c' (same ∙ e))
              (remove addr es, remove-Permᴰ addr c.connections es p, refl))
      ]

module _ (env : Env) where
  connect_each-Follows :
      (nodes : List Bytes) (c : Consumer) → IsCounted c → Follows (connect_each env nodes) c
  unfolding connect_each
  connect_each-Follows [] c h es p = (es, p, refl)
  connect_each-Follows (node ∷ nodes) c h es p =
      let d : Consumer = (connect_to_nsqd env node c).1 in
      along (connect_each env nodes) d _
        (connect_each-Follows nodes d (connect-IsCounted env node c h))
        (connect-Follows env node c h es p)

  found-Follows :
      (r : Outcome (List Bytes)) (c : Consumer) → IsCounted c → Follows (λ x. (found env r x).1) c
  found-Follows (ok nodes) c h es p = connect_each-Follows nodes c h es p
  found-Follows (err e) c h es p = (es, p, refl)
  found-Follows panic c h es p = (es, p, refl)
  found-Follows hang c h es p = (es, p, refl)

  stop-Follows : (k : ℕ) (c : Consumer) → length c.connections ≤ k → Follows (λ x. (stop k x).1) c
  unfolding stop
  stop-Follows k c h es p =
      let same : close_each k es c.net ≡ close_each k c.connections c.net =
        close_each-close_all k es c.net (omega (arith, length-Permᴰ c.connections es p, h))
        ∙ sym (close_all-Permᴰ c.connections es c.net p)
        ∙ sym (close_each-close_all k c.connections c.net h) in
      (
        [],
        Permᴰ.nil,
        ap
            (λ n. record c {
              is_running = false;
              connections = [];
              connection_count = pos 0;
              net = n;
            })
            same,
      )

  -- The deadline of a `stop` comes after it has closed every connection.
  abbrev pub InTime : Operation → Consumer → Type 0
  InTime (stops k) c = length c.connections ≤ k
  InTime _ c = Unit {0}

  abbrev pub AllInTime : List Operation → Consumer → Type 0
  AllInTime [] c = Unit {0}
  AllInTime (o ∷ os) c = InTime o c × AllInTime os (perform env o c)

  perform-Follows :
      (o : Operation) (c : Consumer) → IsCounted c → InTime o c → Follows (perform env o) c
  unfolding perform connect_to_nsqlookupd poll start
  perform-Follows (connects addr) c h t es p = connect-Follows env addr c h es p
  perform-Follows (disconnects addr) c h t es p = disconnect-Follows addr c h es p
  perform-Follows (looks_up http url) c h t es p =
      found-Follows (lookup_nodes http url c.topic) c h es p
  perform-Follows (polls http url) c h t es p =
      if-Reordered c.is_running _ _ _ _ (found-Follows (lookup_nodes http url c.topic) c h es p)
        (es, p, refl)
  perform-Follows starts c h t es p = (es, p, refl)
  perform-Follows (stops k) c h t es p = stop-Follows k c t es p

  run-Reordered :
      (os : List Operation) (c c' : Consumer)
      → IsCounted c
      → AllInTime os c
      → Reordered c c'
      → Reordered (run env os c) (run env os c')
  unfolding run
  run-Reordered [] c c' h t r = r
  run-Reordered (o ∷ os) c c' h t r =
      run-Reordered os (perform env o c) (perform env o c') (perform-IsCounted env o c h) t.1
        (along (perform env o) c c' (perform-Follows o c h t.0) r)

-- A consumer does not depend on the order in which its `HashMap` has its connections: put them into any
-- other order after any history, and what follows leads to the same statistics, connections, dials and
-- tasks, and to the same entries of the map. This holds where each `stop` closes all of its connections
-- before its deadline.
pub order_unobserved :
    (env : Env) (topic channel : Bytes) (config : ConsumerConfig) (net : Net) (c : Consumer)
    (os os' : List Operation) (es : List (Bytes × ℕ))
    → new topic channel config net ≡ ok c
    → Permᴰ (run env os c).connections es
    → AllInTime env os' (run env os c)
    → let d = run env os' (run env os c) in
      let d' = run env os' (record (run env os c) { connections = es }) in
      (stats d' ≡ stats d)
      × (d'.net ≡ d.net)
      × (d'.tasks ≡ d.tasks)
      × Permᴰ d.connections d'.connections
unfolding stats
order_unobserved env topic channel config net c os os' es made p t =
    let m = run env os c in
    let (es', q, e) =
      run-Reordered env os' m (record m { connections = es })
        (run-IsCounted env os c (new-IsCounted topic channel config net c made)) t (es, p, refl) in
    (
      ap stats e,
      ap (λ x. x.net) e,
      ap (λ x. x.tasks) e,
      subst (Permᴰ (run env os' m).connections) (sym (ap (λ x. x.connections) e)) q,
    )
