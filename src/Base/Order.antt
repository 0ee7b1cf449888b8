-- ===== src/Base/Order.antt =====
-- The order of the entries of a `HashMap`, on which nothing that is asked of it depends.
use Prim.Native.Nat.{suc}
use mathlib.Core.Path.{◌≡◌, refl, ap, sym, ◌∙◌, subst}
use mathlib.Core.Logic.{inl, inr}
use mathlib.Core.Bool.{true, false}
use mathlib.Core.List.{List, ◌∷◌, Permᴰ}
use mathlib.Core.List.Permᴰ
use mathlib.Core.Option.{some}
use nsq_async_rs.Base.Tests.{Bool-cases, if◌then◌else◌}
use nsq_async_rs.Base.Lists.{length, All}
use nsq_async_rs.Base.Octets.{Bytes, bytes_eq, bytes_eq_refl, bytes_eq_sound}
use nsq_async_rs.Base.Assoc.{lookup, remove, Lacks, Distinct}

apart : (j k : Bytes) → bytes_eq j k ≡ false → bytes_eq k j ≡ false
apart j k h = elim (Bool-cases (bytes_eq k j)) [
  | inl same ↦
      let e : bytes_eq j k ≡ true =
        subst (λ i. bytes_eq j i ≡ true) (sym (bytes_eq_sound k j same)) (bytes_eq_refl j) in
      cc
  | inr other ↦ other
]

pub length-Permᴰ : {A : Type 0} (m m' : List A) → Permᴰ m m' → length m ≡ length m'
length-Permᴰ m m' Permᴰ.nil = refl
length-Permᴰ m m' (Permᴰ.cons e p) = ap suc (length-Permᴰ _ _ p)
length-Permᴰ m m' (Permᴰ.swap e e') = refl
length-Permᴰ m m' (Permᴰ.trans p q) = length-Permᴰ _ _ p ∙ length-Permᴰ _ _ q

module _ {V : Type 0} where
  All-Permᴰ : (P : Bytes × V → Type 0) (m m' : List (Bytes × V)) → Permᴰ m m' → All P m → All P m'
  All-Permᴰ P m m' Permᴰ.nil h = h
  All-Permᴰ P m m' (Permᴰ.cons e p) h = (subst P e h.0, All-Permᴰ P _ _ p h.1)
  All-Permᴰ P m m' (Permᴰ.swap e e') h = (subst P e' h.1.0, (subst P e h.0, h.1.1))
  All-Permᴰ P m m' (Permᴰ.trans p q) h = All-Permᴰ P _ _ q (All-Permᴰ P _ _ p h)

  swap-Distinct :
      (a b : Bytes × V) (m : List (Bytes × V)) → Distinct (a ∷ b ∷ m) → Distinct (b ∷ a ∷ m)
  swap-Distinct a b m ((h, f), (g, d)) = ((apart b.0 a.0 h, g), (f, d))

  Distinct-Permᴰ : (m m' : List (Bytes × V)) → Permᴰ m m' → Distinct m → Distinct m'
  Distinct-Permᴰ m m' Permᴰ.nil h = h
  Distinct-Permᴰ m m' (Permᴰ.cons {b = b} {l₂ = l₂} e p) h =
      (subst (λ x. Lacks x.0 l₂) e (All-Permᴰ _ _ _ p h.0), Distinct-Permᴰ _ _ p h.1)
  Distinct-Permᴰ m m' (Permᴰ.swap {a = a} {b = b} {a' = a'} {l = l} e e') h =
      subst (λ x. Distinct (a' ∷ x ∷ l)) e
        (subst (λ y. Distinct (y ∷ a ∷ l)) e' (swap-Distinct a b l h))
  Distinct-Permᴰ m m' (Permᴰ.trans p q) h = Distinct-Permᴰ _ _ q (Distinct-Permᴰ _ _ p h)

  lookup-swap :
      (k : Bytes) (a b : Bytes × V) (m : List (Bytes × V))
      → bytes_eq b.0 a.0 ≡ false
      → lookup k (a ∷ b ∷ m) ≡ lookup k (b ∷ a ∷ m)
  unfolding lookup
  lookup-swap k a b m h = elim (Bool-cases (bytes_eq a.0 k)) [
    | inl same ↦
        let e : bytes_eq b.0 k ≡ false =
          subst (λ i. bytes_eq b.0 i ≡ false) (bytes_eq_sound a.0 k same) h in
        rw same (rw e refl)
    | inr other ↦ rw other refl
  ]

  pub lookup-Permᴰ :
      (k : Bytes) (m m' : List (Bytes × V)) → Permᴰ m m' → Distinct m → lookup k m ≡ lookup k m'
  unfolding lookup
  lookup-Permᴰ k m m' Permᴰ.nil h = refl
  lookup-Permᴰ k m m' (Permᴰ.cons {a = a} {l₂ = l₂} e p) h =
      ap (λ r. if bytes_eq a.0 k then some a.1 else r) (lookup-Permᴰ k _ _ p h.1)
      ∙ ap (λ x. lookup k (x ∷ l₂)) e
  lookup-Permᴰ k m m' (Permᴰ.swap {a = a} {b = b} {a' = a'} {l = l} e e') h =
      lookup-swap k a b l h.0.0
      ∙ ap (λ x. lookup k (x ∷ a ∷ l)) e'
      ∙ ap (λ x. lookup k (a' ∷ x ∷ l)) e
  lookup-Permᴰ k m m' (Permᴰ.trans p q) h =
      lookup-Permᴰ k _ _ p h ∙ lookup-Permᴰ k _ _ q (Distinct-Permᴰ _ _ p h)

  remove-cons :
      (k : Bytes) (a : Bytes × V) (m m' : List (Bytes × V))
      → Permᴰ (remove k m) (remove k m')
      → Permᴰ (remove k (a ∷ m)) (remove k (a ∷ m'))
  unfolding remove
  remove-cons k a m m' p = elim (Bool-cases (bytes_eq a.0 k)) [
    | inl same ↦ rw same p
    | inr other ↦ rw other (Permᴰ.cons refl p)
  ]

  remove-swap :
      (k : Bytes) (a b : Bytes × V) (m : List (Bytes × V))
      → Permᴰ (remove k (a ∷ b ∷ m)) (remove k (b ∷ a ∷ m))
  unfolding remove
  remove-swap k a b m = elim (Bool-cases (bytes_eq a.0 k)) [
    | inl same ↦ rw same (Permᴰ.refl _)
    | inr other ↦ elim (Bool-cases (bytes_eq b.0 k)) [
      | inl same ↦ rw other (rw same (Permᴰ.refl _))
      | inr other' ↦ rw other (rw other' (Permᴰ.swap refl refl))
    ]
  ]

  pub remove-Permᴰ :
      (k : Bytes) (m m' : List (Bytes × V)) → Permᴰ m m' → Permᴰ (remove k m) (remove k m')
  unfolding remove
  remove-Permᴰ k m m' Permᴰ.nil = Permᴰ.nil
  remove-Permᴰ k m m' (Permᴰ.cons {a = a} {l₁ = l₁} {l₂ = l₂} e p) =
      subst (λ x. Permᴰ (remove k (a ∷ l₁)) (remove k (x ∷ l₂))) e
        (remove-cons k a l₁ l₂ (remove-Permᴰ k _ _ p))
  remove-Permᴰ k m m' (Permᴰ.swap {a = a} {b = b} {a' = a'} {l = l} e e') =
      subst (λ x. Permᴰ (remove k (a ∷ b ∷ l)) (remove k (a' ∷ x ∷ l))) e
        (subst (λ y. Permᴰ (remove k (a ∷ b ∷ l)) (remove k (y ∷ a ∷ l))) e' (remove-swap k a b l))
  remove-Permᴰ k m m' (Permᴰ.trans p q) = Permᴰ.trans (remove-Permᴰ k _ _ p) (remove-Permᴰ k _ _ q)
