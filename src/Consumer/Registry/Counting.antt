-- ===== src/Consumer/Registry/Counting.antt =====
-- The map of connections and its count.
use nsq_async_rs.Base.{
  ℕ, suc, ◌%◌, ◌^◌, if◌then◌else◌, inl, inr, Bool, true, false, none, Option-cases, List, [], ◌∷◌,
  length, ◌≡◌, refl, sym, ap, ◌∙◌, arith,
}
use mathlib.Core.Path.{subst}
use nsq_async_rs.Base.Octets.{Bytes}
use nsq_async_rs.Base.Int.{pos, to_i32}
use nsq_async_rs.Base.Assoc.{
  lookup, remove, insert, Distinct, remove-Lacks, remove-Distinct, length-remove, remove_of_Lacks,
  lookup-none-Lacks,
}
use nsq_async_rs.Error.{Outcome, ok, err, panic, hang}
use nsq_async_rs.Connection.{Connection}
use nsq_async_rs.Lookup.{Node, lookup_nodes}
use nsq_async_rs.Network.{Env, Net}
use nsq_async_rs.Network
use nsq_async_rs.Consumer.Task.{fetch_sub}
use nsq_async_rs.Consumer.Registry.{
  Consumer, ConsumerConfig, stats, increment, enter, connect_to_nsqd, disconnect_from_nsqd, start,
  stop, connect_each, found, connect_to_nsqlookupd, poll, new,
}

-- One entry for an address, and a count that is the number of entries as an `i32`.
pub record IsCounted (c : Consumer) : Type 0 where
  pub distinct : Distinct c.connections
  pub counted : c.connection_count ≡ to_i32 (length c.connections % 2 ^ 32)

increment-to_i32 : (n : ℕ) → increment (to_i32 (n % 2 ^ 32)) ≡ to_i32 (suc n % 2 ^ 32)
increment-to_i32 n = ground arith

fetch_sub-to_i32 : (n : ℕ) → fetch_sub (to_i32 (suc n % 2 ^ 32)) ≡ to_i32 (n % 2 ^ 32)
fetch_sub-to_i32 n = ground arith

enter-IsCounted :
    (addr : Bytes) (x : Outcome Connection × Net) (c : Consumer)
    → lookup addr c.connections ≡ none
    → IsCounted c
    → IsCounted (enter addr x c).1
unfolding insert
enter-IsCounted addr (ok conn, n) c e h = record {
  distinct = (remove-Lacks addr c.connections, remove-Distinct addr c.connections h.distinct);
  counted =
      ap increment h.counted
      ∙ increment-to_i32 (length c.connections)
      ∙ ap (λ m. to_i32 (suc (length m) % 2 ^ 32))
          (sym (remove_of_Lacks addr c.connections (lookup-none-Lacks addr c.connections e)));
}
enter-IsCounted addr (err x, n) c e h = record { distinct = h.distinct; counted = h.counted }
enter-IsCounted addr (panic, n) c e h = record { distinct = h.distinct; counted = h.counted }
enter-IsCounted addr (hang, n) c e h = record { distinct = h.distinct; counted = h.counted }

pub connect-IsCounted :
    (env : Env) (addr : Bytes) (c : Consumer)
    → IsCounted c
    → IsCounted (connect_to_nsqd env addr c).1
unfolding connect_to_nsqd
connect-IsCounted env addr c h = elim (Option-cases (lookup addr c.connections)) [
  | inl e ↦
      rw (e, connect_to_nsqd)
        (enter-IsCounted addr
          (Network.new env addr none none c.config.read_timeout c.config.write_timeout c.net) c e h)
  | inr (a, e) ↦ rw (e, connect_to_nsqd) h
]

disconnect-IsCounted :
    (addr : Bytes) (c : Consumer) → IsCounted c → IsCounted (disconnect_from_nsqd addr c).1
unfolding disconnect_from_nsqd
disconnect-IsCounted addr c h = elim (Option-cases (lookup addr c.connections)) [
  | inl e ↦ rw (e, disconnect_from_nsqd) h
  | inr (a, e) ↦
      rw (e, disconnect_from_nsqd)
        (record {
          distinct = remove-Distinct addr c.connections h.distinct;
          counted =
              ap fetch_sub (
                h.counted
                ∙ ap (λ n. to_i32 (n % 2 ^ 32)) (length-remove addr a c.connections h.distinct e))
              ∙ fetch_sub-to_i32 (length (remove addr c.connections));
        })
]

connect_each-IsCounted :
    (env : Env) (nodes : List Bytes) (c : Consumer)
    → IsCounted c
    → IsCounted (connect_each env nodes c)
unfolding connect_each
connect_each-IsCounted env [] c h = h
connect_each-IsCounted env (n ∷ ns) c h =
    connect_each-IsCounted env ns (connect_to_nsqd env n c).1 (connect-IsCounted env n c h)

found-IsCounted :
    (env : Env) (r : Outcome (List Bytes)) (c : Consumer)
    → IsCounted c
    → IsCounted (found env r c).1
found-IsCounted env (ok nodes) c h = connect_each-IsCounted env nodes c h
found-IsCounted env (err e) c h = h
found-IsCounted env panic c h = h
found-IsCounted env hang c h = h

-- What a program does with a consumer, and the rounds of its polling task.
pub data Operation : Type 0 where
  connects : Bytes → Operation
  disconnects : Bytes → Operation
  looks_up : (Bytes → Outcome (List Node)) → Bytes → Operation
  polls : (Bytes → Outcome (List Node)) → Bytes → Operation
  starts : Operation
  stops : ℕ → Operation

unfoldable pub perform : Env → Operation → Consumer → Consumer
unfolding connect_to_nsqd disconnect_from_nsqd connect_to_nsqlookupd poll start stop
perform env (connects addr) c = (connect_to_nsqd env addr c).1
perform env (disconnects addr) c = (disconnect_from_nsqd addr c).1
perform env (looks_up http url) c = (connect_to_nsqlookupd env http url c).1
perform env (polls http url) c = poll env http url c
perform env starts c = (start c).1
perform env (stops k) c = (stop k c).1

unfoldable pub run : Env → List Operation → Consumer → Consumer
unfolding perform
run env [] c = c
run env (o ∷ os) c = run env os (perform env o c)

if-IsCounted :
    (b : Bool) (c d : Consumer) → IsCounted c → IsCounted d → IsCounted (if b then c else d)
if-IsCounted true c d h h' = h
if-IsCounted false c d h h' = h'

pub perform-IsCounted :
    (env : Env) (o : Operation) (c : Consumer) → IsCounted c → IsCounted (perform env o c)
unfolding perform connect_to_nsqlookupd poll start stop
perform-IsCounted env (connects addr) c h = connect-IsCounted env addr c h
perform-IsCounted env (disconnects addr) c h = disconnect-IsCounted addr c h
perform-IsCounted env (looks_up http url) c h =
    found-IsCounted env (lookup_nodes http url c.topic) c h
perform-IsCounted env (polls http url) c h =
    if-IsCounted c.is_running _ c (found-IsCounted env (lookup_nodes http url c.topic) c h) h
perform-IsCounted env starts c h = record { distinct = h.distinct; counted = h.counted }
perform-IsCounted env (stops k) c h = record { distinct = tt; counted = refl }

pub run-IsCounted :
    (env : Env) (os : List Operation) (c : Consumer) → IsCounted c → IsCounted (run env os c)
unfolding run
run-IsCounted env [] c h = h
run-IsCounted env (o ∷ os) c h =
    run-IsCounted env os (perform env o c) (perform-IsCounted env o c h)

new_empty :
    (topic channel : Bytes) (config : ConsumerConfig) (net : Net) (c : Consumer)
    → new topic channel config net ≡ ok c
    → (c.connections ≡ []) × (c.connection_count ≡ pos 0)
unfolding new
new_empty topic channel config net c h = ground arith

pub new-IsCounted :
    (topic channel : Bytes) (config : ConsumerConfig) (net : Net) (c : Consumer)
    → new topic channel config net ≡ ok c
    → IsCounted c
new-IsCounted topic channel config net c h =
    let (e, e') = new_empty topic channel config net c h in
    record {
      distinct = subst Distinct (sym e) tt;
      counted = e' ∙ ap (λ m. to_i32 (length m % 2 ^ 32)) (sym e);
    }

-- However a consumer is used after it was made: it keeps one connection for an address, and the
-- number of connections in its statistics is the number that it keeps, as an `i32`.
pub run-new-IsCounted :
    (env : Env) (topic channel : Bytes) (config : ConsumerConfig) (net : Net) (c : Consumer)
    (os : List Operation)
    → new topic channel config net ≡ ok c
    → IsCounted (run env os c)
      × ((stats (run env os c)).connections ≡ to_i32 (length (run env os c).connections % 2 ^ 32))
unfolding stats
run-new-IsCounted env topic channel config net c os made =
    let h = run-IsCounted env os c (new-IsCounted topic channel config net c made) in (h, h.counted)
