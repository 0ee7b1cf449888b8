-- ===== src/Base/Assoc.antt =====
-- A `HashMap` with texts as keys, as an association list: a key has one entry.
use Prim.Native.Nat.{suc}
use mathlib.Core.Path.{◌≡◌, refl, ap, sym, subst}
use mathlib.Core.Logic.{inl, inr}
use mathlib.Core.Bool.{true, false}
use mathlib.Core.List.{List, [], ◌∷◌}
use mathlib.Core.Option.{Option, none, some}
use native.Mathlib.Omega.{arith}
use nsq_async_rs.Base.Tests.{Bool-cases, if◌then◌else◌}
use nsq_async_rs.Base.Lists.{length, All}
use nsq_async_rs.Base.Octets.{Bytes, bytes_eq, bytes_eq_refl, bytes_eq_sound}

module _ {V : Type 0} where
  unfoldable pub lookup : Bytes → List (Bytes × V) → Option V
  lookup k [] = none
  lookup k ((j, v) ∷ m) = if bytes_eq j k then some v else lookup k m

  unfoldable pub remove : Bytes → List (Bytes × V) → List (Bytes × V)
  remove k [] = []
  remove k ((j, v) ∷ m) = if bytes_eq j k then remove k m else (j, v) ∷ remove k m

  unfoldable pub insert : Bytes → V → List (Bytes × V) → List (Bytes × V)
  unfolding remove
  insert k v m = (k, v) ∷ remove k m

  -- No entry has the key.
  abbrev pub Lacks : Bytes → List (Bytes × V) → Type 0
  Lacks k = All (λ e. bytes_eq e.0 k ≡ false)

  -- No two entries have one key.
  abbrev pub Distinct : List (Bytes × V) → Type 0
  Distinct [] = Unit {0}
  Distinct ((k, v) ∷ m) = Lacks k m × Distinct m

  remove-Lacks_other : (k j : Bytes) (m : List (Bytes × V)) → Lacks k m → Lacks k (remove j m)
  unfolding remove
  remove-Lacks_other k j [] h = tt
  remove-Lacks_other k j ((i, v) ∷ m) h = ground (arith, remove-Lacks_other k j m h.1)

  pub remove-Lacks : (k : Bytes) (m : List (Bytes × V)) → Lacks k (remove k m)
  unfolding remove
  remove-Lacks k [] = tt
  remove-Lacks k ((j, v) ∷ m) = ground (arith, remove-Lacks k m)

  pub remove-Distinct : (k : Bytes) (m : List (Bytes × V)) → Distinct m → Distinct (remove k m)
  unfolding remove
  remove-Distinct k [] h = tt
  remove-Distinct k ((j, v) ∷ m) h =
      ground (arith, remove-Distinct k m h.1, remove-Lacks_other j k m h.0)

  pub remove-All {ℓ} :
      (P : Bytes × V → Type ℓ) (k : Bytes) (m : List (Bytes × V)) → All P m → All P (remove k m)
  unfolding remove
  remove-All P k [] h = tt
  remove-All P k ((j, v) ∷ m) h = elim (Bool-cases (bytes_eq j k)) [
    | inl e ↦ rw e (remove-All P k m h.1)
    | inr e ↦ rw e (h.0, remove-All P k m h.1)
  ]

  pub remove_of_Lacks : (k : Bytes) (m : List (Bytes × V)) → Lacks k m → remove k m ≡ m
  unfolding remove
  remove_of_Lacks k [] h = refl
  remove_of_Lacks k ((j, v) ∷ m) h = ground (arith, remove_of_Lacks k m h.1)

  pub lookup-none-Lacks : (k : Bytes) (m : List (Bytes × V)) → lookup k m ≡ none → Lacks k m
  unfolding lookup
  lookup-none-Lacks k [] h = tt
  lookup-none-Lacks k ((j, v) ∷ m) h = ground (arith, lookup-none-Lacks k m)

  pub lookup_of_Lacks : (k : Bytes) (m : List (Bytes × V)) → Lacks k m → lookup k m ≡ none
  unfolding lookup
  lookup_of_Lacks k [] h = refl
  lookup_of_Lacks k ((j, v) ∷ m) h = ground (arith, lookup_of_Lacks k m h.1)

  -- A key that is there takes one entry with it.
  pub length-remove :
      (k : Bytes) (v : V) (m : List (Bytes × V))
      → Distinct m
      → lookup k m ≡ some v
      → length m ≡ suc (length (remove k m))
  unfolding lookup remove
  length-remove k v [] d h = ground arith
  length-remove k v ((j, w) ∷ m) d h = elim (Bool-cases (bytes_eq j k)) [
    | inl e ↦ rw e (ap (λ n. suc (length n)) (same e))
    | inr e ↦ rw e (ap suc (length-remove k v m d.1 (ground arith)))
  ]
    where
      same : bytes_eq j k ≡ true → m ≡ remove k m
      same e = sym (remove_of_Lacks k m (subst (λ i. Lacks i m) (bytes_eq_sound j k e) d.0))

  pub lookup-insert : (k : Bytes) (v : V) (m : List (Bytes × V)) → lookup k (insert k v m) ≡ some v
  unfolding lookup insert
  lookup-insert k v m = ground (arith, bytes_eq_refl k)

  pub lookup-All {ℓ} :
      (P : Bytes × V → Type ℓ) (k : Bytes) (v : V) (m : List (Bytes × V))
      → All P m
      → lookup k m ≡ some v
      → P (k, v)
  unfolding lookup
  lookup-All P k v [] h e = ground arith
  lookup-All P k v ((j, w) ∷ m) h e = elim (Bool-cases (bytes_eq j k)) [
    | inl same ↦
        subst (λ u. P (k, u)) (value same) (subst (λ i. P (i, w)) (bytes_eq_sound j k same) h.0)
    | inr other ↦ lookup-All P k v m h.1 (ground arith)
  ]
    where
      value : bytes_eq j k ≡ true → w ≡ v
      value same = ground arith
