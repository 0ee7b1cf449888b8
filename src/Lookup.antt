-- ===== src/Lookup.antt =====
-- src/lookup.rs: the nodes that nsqlookupd knows for a topic.
use nsq_async_rs.Base.{ℕ, if◌then◌else◌, List, ◌++◌, map}
use nsq_async_rs.Base.Octets.{Bytes, bytes_eq}
use nsq_async_rs.Base.Text.{bytes}
use nsq_async_rs.Base.Decimal.{show_dec}
use nsq_async_rs.Error.{Outcome, ok, err, panic, hang}

-- `Producer` of the answer; `tcp_port` is a `u16`.
pub record Node : Type 0 where
  pub broadcast_address : Bytes
  pub tcp_port : ℕ

unfoldable pub node_addr : Node → Bytes
unfolding bytes show_dec bytes_eq
node_addr p =
    (if bytes_eq p.broadcast_address (bytes "nsqd") then bytes "127.0.0.1" else p.broadcast_address)
    ++ (bytes ":" ++ show_dec p.tcp_port)

unfoldable pub addrs_of : Outcome (List Node) → Outcome (List Bytes)
unfolding node_addr
addrs_of (ok ps) = ok (map node_addr ps)
addrs_of (err e) = err e
addrs_of panic = panic
addrs_of hang = hang

-- `http` is `reqwest::get` with `json`: the producers that are listed at a URL, or an error.
unfoldable pub lookup_nodes : (Bytes → Outcome (List Node)) → Bytes → Bytes → Outcome (List Bytes)
unfolding bytes addrs_of
lookup_nodes http lookupd_url topic =
    addrs_of (http (lookupd_url ++ (bytes "/lookup?topic=" ++ topic)))
