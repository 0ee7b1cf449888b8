-- ===== src/Consumer/Retry/Reads.antt =====
-- After which failures of a read the task of `connect_to_nsqd` of src/consumer.rs connects again.
use nsq_async_rs.Base.{
  ℕ, Bool, true, false, ◌||◌, Bool-cases, Option-cases, ◌⊎◌, inl, inr, [], ◌∷◌, ◌++◌, ◌≡◌, refl,
  sym, ap, ◌∙◌, arith,
}
use mathlib.Core.Path.{subst}
use nsq_async_rs.Base.Octets.{Bytes, bytes_eq, bytes_eq_sound, bytes_eq_refl, split_exact}
use nsq_async_rs.Base.Text.{bytes}
use nsq_async_rs.Error.{
  IoKind, IoError, broken_pipe, connection_reset, connection_aborted, unexpected_eof, other_kind,
  Error, timed_out, Outcome, err, display,
}
use nsq_async_rs.Connection.{
  Connection, ReadEnd, ends, stalls, fails, read_exact, starved, early_eof,
}
use nsq_async_rs.Consumer.Session.{starts_with, contains}
use nsq_async_rs.Consumer.Retry.{lost, retries, is_connection_error}

-- The text has the other one somewhere.
abbrev pub Occurs : Bytes → Bytes → Type 0
Occurs needle text = (pre : Bytes) × (post : Bytes) × (text ≡ pre ++ (needle ++ post))

-- An I/O error that means a lost connection: by its kind, or by its text.
abbrev pub IsLost : IoError → Type 0
IsLost e =
    (e.kind ≡ broken_pipe)
    ⊎ (e.kind ≡ connection_reset)
    ⊎ (e.kind ≡ connection_aborted)
    ⊎ (e.kind ≡ unexpected_eof)
    ⊎ Occurs (bytes "early eof") (display (Error.io e))

starts_with_sound :
    (needle text : Bytes)
    → starts_with needle text ≡ true
    → (post : Bytes) × (text ≡ needle ++ post)
unfolding starts_with
starts_with_sound [] text h = (text, refl)
starts_with_sound (c ∷ cs) [] h = ground arith
starts_with_sound (c ∷ cs) (d ∷ ds) h = elim (Bool-cases (bytes_eq (c ∷ []) (d ∷ []))) [
  | inl e ↦
      let same : c ∷ [] ≡ d ∷ [] = bytes_eq_sound (c ∷ []) (d ∷ []) e in
      let (post, rest) = starts_with_sound cs ds (ground (arith, e, h)) in (post, cc)
  | inr e ↦ ground (arith, e, h)
]

starts_with-append : (needle post : Bytes) → starts_with needle (needle ++ post) ≡ true
unfolding starts_with
starts_with-append [] post = refl
starts_with-append (c ∷ cs) post = rw (bytes_eq_refl (c ∷ [])) (starts_with-append cs post)

contains-Occurs : (text needle : Bytes) → contains text needle ≡ true → Occurs needle text
unfolding contains
contains-Occurs [] needle h = let (post, e) = starts_with_sound needle [] h in ([], post, e)
contains-Occurs (c ∷ cs) needle h = elim (Bool-cases (starts_with needle (c ∷ cs))) [
  | inl here ↦ let (post, e) = starts_with_sound needle (c ∷ cs) here in ([], post, e)
  | inr later ↦
      let (pre, post, e) = contains-Occurs cs needle (ground (arith, later, h)) in
      (c ∷ pre, post, ap (c ∷◌) e)
]

contains-first :
    (text needle : Bytes) → starts_with needle text ≡ true → contains text needle ≡ true
unfolding contains
contains-first [] needle h = h
contains-first (c ∷ cs) needle h = rw h refl

or_true : (b : Bool) → (b || true) ≡ true
or_true true = refl
or_true false = refl

contains-later :
    (c : ℕ) (text needle : Bytes) → contains text needle ≡ true → contains (c ∷ text) needle ≡ true
unfolding contains
contains-later c text needle h = ap (starts_with needle (c ∷ text) ||◌) h ∙ or_true _

Occurs-contains : (pre needle post : Bytes) → contains (pre ++ (needle ++ post)) needle ≡ true
Occurs-contains [] needle post =
    contains-first (needle ++ post) needle (starts_with-append needle post)
Occurs-contains (c ∷ pre) needle post =
    contains-later c (pre ++ (needle ++ post)) needle (Occurs-contains pre needle post)

lost-kinds :
    (k : IoKind)
    → lost k ≡ true
    → (k ≡ broken_pipe) ⊎ (k ≡ connection_reset) ⊎ (k ≡ connection_aborted) ⊎ (k ≡ unexpected_eof)
lost-kinds broken_pipe h = inl refl
lost-kinds connection_reset h = inr (inl refl)
lost-kinds connection_aborted h = inr (inr (inl refl))
lost-kinds unexpected_eof h = inr (inr (inr refl))
lost-kinds other_kind h = ground arith

or_false : (b : Bool) → (b || false) ≡ b
or_false true = refl
or_false false = refl

retries-is_connection_error :
    (e : IoError) → retries (Error.io e) ≡ is_connection_error (Error.io e)
unfolding retries
retries-is_connection_error e = or_false (is_connection_error (Error.io e))

-- What the task does after an I/O error.
retries-io :
    (e : IoError)
    → retries (Error.io e) ≡ (lost e.kind || contains (display (Error.io e)) (bytes "early eof"))
unfolding is_connection_error
retries-io e = retries-is_connection_error e

lost-retries : (e : IoError) → lost e.kind ≡ true → retries (Error.io e) ≡ true
lost-retries e h = retries-io e ∙ ap (◌|| contains (display (Error.io e)) (bytes "early eof")) h

retries-IsLost : (e : IoError) → retries (Error.io e) ≡ true → IsLost e
retries-IsLost e h = elim (Bool-cases (lost e.kind)) [
  | inl gone ↦ elim (lost-kinds e.kind gone) [
    | inl k ↦ inl k
    | inr (inl k) ↦ inr (inl k)
    | inr (inr (inl k)) ↦ inr (inr (inl k))
    | inr (inr (inr k)) ↦ inr (inr (inr (inl k)))
  ]
  | inr not_so ↦ inr (
      inr (
        inr (
          inr (
            contains-Occurs (display (Error.io e)) (bytes "early eof") (
              ap (◌|| contains (display (Error.io e)) (bytes "early eof")) (sym not_so)
              ∙ (sym (retries-io e) ∙ h))))))
]

IsLost-retries : (e : IoError) → IsLost e → retries (Error.io e) ≡ true
IsLost-retries e (inl k) = lost-retries e (ap lost k)
IsLost-retries e (inr (inl k)) = lost-retries e (ap lost k)
IsLost-retries e (inr (inr (inl k))) = lost-retries e (ap lost k)
IsLost-retries e (inr (inr (inr (inl k)))) = lost-retries e (ap lost k)
IsLost-retries e (inr (inr (inr (inr (pre, post, text))))) =
    retries-io e
    ∙ ap (lost e.kind ||◌) (
        ap (λ t. contains t (bytes "early eof")) text
        ∙ Occurs-contains pre (bytes "early eof") post)
    ∙ or_true (lost e.kind)

-- Whether the task connects again after an error, by the end that the stream has come to.
abbrev pub Retried : Error → ReadEnd → Type 0
Retried e ends = retries e ≡ true
Retried e stalls = retries e ≡ false
Retried e (fails x) = (IsLost x × (retries e ≡ true)) ⊎ ((IsLost x → ⊥) × (retries e ≡ false))

retries-early_eof : retries early_eof ≡ true
unfolding retries early_eof
retries-early_eof = refl

retries-timed_out : retries timed_out ≡ false
unfolding retries is_connection_error display contains bytes bytes_eq
retries-timed_out = refl

io-Retried : (x : IoError) → Retried (Error.io x) (fails x)
io-Retried x = elim (Bool-cases (retries (Error.io x))) [
  | inl again ↦ inl (retries-IsLost x again, again)
  | inr not_so ↦ inr (λ h. true_ne_false (sym (IsLost-retries x h) ∙ not_so), not_so)
]
  where
    true_ne_false : ◌≡◌ {A = Bool} true false → ⊥
    true_ne_false e = ground arith

same_error : (x y : Error) → ◌≡◌ {A = Outcome Bytes} (err x) (err y) → x ≡ y
same_error x y h = cc

starved-Retried : (r : ReadEnd) (e : Error) → starved true r ≡ err e → Retried e r
unfolding starved
starved-Retried ends e h = ap retries (sym (same_error early_eof e h)) ∙ retries-early_eof
starved-Retried stalls e h = ap retries (sym (same_error timed_out e h)) ∙ retries-timed_out
starved-Retried (fails x) e h =
    subst (λ y. Retried y (fails x)) (same_error (Error.io x) e h) (io-Retried x)

-- When a read under the timeout fails: if the stream has ended, the consumer connects again; if the read
-- has run into its timeout, it does not, and the task ends; and if the system has reported an error, it
-- connects again exactly if the error is a broken pipe, a reset or aborted connection or an unexpected
-- end of file, or its text has "early eof" in it.
pub read_exact-retries :
    (n : ℕ) (c : Connection) (e : Error) → (read_exact true n c).0 ≡ err e → Retried e c.read_end
unfolding read_exact
read_exact-retries n c e h = elim (Option-cases (split_exact n c.input)) [
  | inl short ↦ starved-Retried c.read_end e (ground (arith, short, h))
  | inr (p, found) ↦ ground (arith, found, h)
]
