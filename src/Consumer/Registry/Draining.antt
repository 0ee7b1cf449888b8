-- ===== src/Consumer/Registry/Draining.antt =====
-- The order in which `stop` drains the map of connections, and consumers that differ in such an order.
use nsq_async_rs.Base.{
  ℕ, zero, suc, ◌≤◌, ◌==◌, ==_iff, Bool-cases, inl, inr, List, [], ◌∷◌, length, ◌≡◌, refl, sym, ap,
  ◌∙◌, arith,
}
use mathlib.Core.Path.{fun_ext}
use mathlib.Core.List.{Permᴰ}
use nsq_async_rs.Base.Octets.{Bytes}
use nsq_async_rs.Connection.{close}
use nsq_async_rs.Network.{Net, put_live}
use nsq_async_rs.Consumer.Registry.{Consumer, close_each}

-- A consumer that differs in the order of its map alone.
abbrev pub Reordered : Consumer → Consumer → Type 0
Reordered c c' =
    (es : List (Bytes × ℕ)) × Permᴰ c.connections es × (c' ≡ record c { connections = es })

abbrev close_at : ℕ → Net → Net
close_at a n = put_live a (close (n.live a)).1 n

close_at_comm : (a b : ℕ) (n : Net) → close_at a (close_at b n) ≡ close_at b (close_at a n)
close_at_comm a b n = ap (λ l. record n { live = l }) (fun_ext live_at)
  where
    live_at : (q : ℕ) → (close_at a (close_at b n)).live q ≡ (close_at b (close_at a n)).live q
    live_at q = elim (Bool-cases (a == b)) [
      | inl same ↦
          ap (λ c. (close_at c (close_at b n)).live q) ((==_iff a b).0 same)
          ∙ ap (λ c. (close_at b (close_at c n)).live q) (sym ((==_iff a b).0 same))
      | inr other ↦ ground (arith, other)
    ]

abbrev close_all : List (Bytes × ℕ) → Net → Net
close_all [] n = n
close_all (e ∷ es) n = close_all es (close_at e.1 n)

pub close_each-close_all :
    (k : ℕ) (es : List (Bytes × ℕ)) (n : Net) → length es ≤ k → close_each k es n ≡ close_all es n
unfolding close_each
close_each-close_all zero [] n h = refl
close_each-close_all zero (e ∷ es) n h = ground (arith, h)
close_each-close_all (suc k) [] n h = refl
close_each-close_all (suc k) (e ∷ es) n h =
    close_each-close_all k es (close_at e.1 n) (omega (arith, h))

pub close_all-Permᴰ :
    (es es' : List (Bytes × ℕ)) (n : Net) → Permᴰ es es' → close_all es n ≡ close_all es' n
close_all-Permᴰ es es' n Permᴰ.nil = refl
close_all-Permᴰ es es' n (Permᴰ.cons {a = a} {l₂ = l₂} e p) =
    close_all-Permᴰ _ _ (close_at a.1 n) p ∙ ap (λ x. close_all l₂ (close_at x.1 n)) e
close_all-Permᴰ es es' n (Permᴰ.swap {a = a} {b = b} {a' = a'} {l = l} e e') =
    ap (close_all l) (close_at_comm b.1 a.1 n)
    ∙ ap (λ x. close_all l (close_at a.1 (close_at x.1 n))) e'
    ∙ ap (λ x. close_all l (close_at x.1 (close_at a'.1 n))) e
close_all-Permᴰ es es' n (Permᴰ.trans p q) = close_all-Permᴰ _ _ n p ∙ close_all-Permᴰ _ _ n q
