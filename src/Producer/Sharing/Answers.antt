-- ===== src/Producer/Sharing/Answers.antt =====
-- Publications that share one connection: who gets which answer.
use nsq_async_rs.Base.{
  ℕ, suc, ◌+◌, ◌^◌, ◌≤◌, ◌<◌, ◌==◌, ==_iff, Bool, Bool-cases, inl, inr, true, false, List, [], ◌∷◌,
  ◌||◌, ◌++◌, append_assoc, append-nil, length, map, All, ◌≡◌, refl, sym, ap, ◌∙◌, arith,
}
use mathlib.Core.Path.{subst}
use nsq_async_rs.Base.Octets.{Bytes}
use nsq_async_rs.Error.{ok}
use nsq_async_rs.Connection.{Connection, write_bytes, read_frame}
use nsq_async_rs.Connection.Frames.{with_input, frame_on}
use nsq_async_rs.Connection.Setup.{after_write}
use nsq_async_rs.Commands.Answers.{answer_frame, read_answer}
use nsq_async_rs.Network.{Env}
use nsq_async_rs.Producer.{set_conn, judge}
use nsq_async_rs.Producer.Verdict.{verdict, judged, write_bytes_room}
use nsq_async_rs.Producer.Sharing.{
  Stage, starts, connected, wrote, ended, Try, Shop, then_read, connects, writes, reads, from_stage,
  advance, run,
}
use nsq_async_rs.Producer.Sharing.Cached.{tries_at, live_at, advance_at}

-- Answers of nsqd by their types, and their bytes on the stream.
abbrev pub stream : List (ℕ × (ℕ × Bytes)) → Bytes → Bytes
stream [] rest = rest
stream ((k, (t, d)) ∷ es) rest = frame_on t d (stream es rest)

abbrev pub wires : List (ℕ × Bytes) → Bytes
wires [] = []
wires ((k, w) ∷ es) = w ++ wires es

module _ {A : Type 0} where
  abbrev Other : ℕ → List (ℕ × A) → Type 0
  Other k = All (λ e. (e.0 == k) ≡ false)

  -- No number stands twice.
  abbrev pub Apart : List (ℕ × A) → Type 0
  Apart [] = Unit {0}
  Apart ((k, x) ∷ es) = Other k es × Apart es

  abbrev pub among : ℕ → List (ℕ × A) → Bool
  among k [] = false
  among k (e ∷ es) = (e.0 == k) || among k es

  abbrev pub order : List (ℕ × A) → List ℕ
  order = map (λ e. e.0)

abbrev pub IsAnswer : ℕ × (ℕ × Bytes) → Type 0
IsAnswer (k, (t, d)) = (t ≤ 1) × (4 + length d < 2 ^ 32)

flip : (j k : ℕ) → (j == k) ≡ false → (k == j) ≡ false
flip j k e = ground arith

module _ (env : Env) where
  connects_other : (j k : ℕ) (s : Shop) → (k == j) ≡ false → (connects env k s).tries j ≡ s.tries j
  unfolding connects
  connects_other j k s e = elim (Bool-cases s.held) [
    | inl busy ↦ rw busy refl
    | inr free ↦ rw free (rw e refl)
  ]

  from_stage_other :
      (st : Stage) (j k : ℕ) (s : Shop)
      → (k == j) ≡ false
      → (from_stage env k st s).tries j ≡ s.tries j
  unfolding writes reads
  from_stage_other starts j k s e = connects_other j k s e
  from_stage_other (connected a) j k s e = rw e refl
  from_stage_other (wrote a) j k s e = rw e refl
  from_stage_other (ended r) j k s e = refl

  run-Other :
      {A : Type 0} (es : List (ℕ × A)) (j : ℕ) (s : Shop)
      → Other j es
      → (run env (order es) s).tries j ≡ s.tries j
  unfolding run advance
  run-Other [] j s h = refl
  run-Other ((k, x) ∷ es) j s h =
      run-Other es j (advance env k s) h.1 ∙ from_stage_other (s.tries k).stage j k s h.0

  run-append : (ks js : List ℕ) (s : Shop) → run env (ks ++ js) s ≡ run env js (run env ks s)
  unfolding run
  run-append [] js s = refl
  run-append (k ∷ ks) js s = run-append ks js (advance env k s)

  module _ (a : ℕ) where
    abbrev pub Ready : Shop → List (ℕ × Bytes) → Type 0
    Ready s = All (λ e. ((s.tries e.0).stage ≡ connected a) × ((s.tries e.0).wire ≡ e.1))

    abbrev Wrote : {A : Type 0} → Shop → List (ℕ × A) → Type 0
    Wrote s = All (λ e. (s.tries e.0).stage ≡ wrote a)

    abbrev Given : Shop → List (ℕ × (ℕ × Bytes)) → Type 0
    Given s = All (λ e. (s.tries e.0).stage ≡ ended (verdict e.1.0 e.1.1))

    -- What the others see of it when one moves.
    others :
        {A : Type 0} (P : ℕ × A → Try → Type 0) (k : ℕ) (s : Shop) (es : List (ℕ × A))
        → Other k es
        → All (λ e. P e (s.tries e.0)) es
        → All (λ e. P e ((advance env k s).tries e.0)) es
    unfolding advance
    others P k s [] o h = tt
    others P k s (e ∷ es) o h = (
      subst (P e) (sym (from_stage_other (s.tries k).stage e.0 k s (flip e.0 k o.0))) h.0,
      others P k s es o.1 h.1,
    )

    -- The connection behind the requests.
    abbrev behind : List (ℕ × Bytes) → ℕ → Connection → Connection
    behind es room c = record c { sent = c.sent ++ wires es; write_room = room }

    written_once :
        (k room : ℕ) (w : Bytes) (s : Shop) (c : Connection)
        → (s.tries k).stage ≡ connected a
        → (s.tries k).wire ≡ w
        → s.producer.net.live a ≡ c
        → c.write_room ≡ suc room
        → (((advance env k s).tries k).stage ≡ wrote a)
          × ((advance env k s).producer.net.live a ≡ after_write w room c)
    unfolding writes
    written_once k room w s c e ew conn r =
        let x = write_bytes (s.tries k).wire (s.producer.net.live a) in
        let done : x ≡ (ok tt, after_write w room c) =
          ap (λ b. write_bytes b (s.producer.net.live a)) ew
          ∙ ap (write_bytes w) conn
          ∙ write_bytes_room w c room r in
        let s' = record s { producer = set_conn a x.1 s.producer } in
        rw (advance_at env k (connected a) s e) (
          ap (λ t. t.stage) (tries_at env k (then_read a x.0) s') ∙ ap (λ y. then_read a y.0) done,
          live_at env k a x.1 s.producer ∙ ap (λ y. y.1) done,
        )

    read_once :
        (k t : ℕ) (d rest : Bytes) (s : Shop) (c : Connection)
        → (s.tries k).stage ≡ wrote a
        → s.producer.net.live a ≡ with_input (frame_on t d rest) c
        → IsAnswer (k, (t, d))
        → (((advance env k s).tries k).stage ≡ ended (verdict t d))
          × ((advance env k s).producer.net.live a ≡ with_input rest c)
    unfolding reads
    read_once k t d rest s c e conn h =
        let x = read_frame (s.tries k).cell (s.producer.net.live a) in
        let done : x ≡ (ok (answer_frame t d), with_input rest c) =
          ap (read_frame (s.tries k).cell) conn ∙ read_answer (s.tries k).cell t d rest c h.0 h.1 in
        let s' = record s { producer = set_conn a x.1 s.producer } in
        rw (advance_at env k (wrote a) s e) (
          ap (λ u. u.stage) (tries_at env k (ended (judge env x.0)) s')
              ∙ ap (λ y. ended (judge env y.0)) done
              ∙ ap ended (judged env t d),
          live_at env k a x.1 s.producer ∙ ap (λ y. y.1) done,
        )

    all_written :
        (es : List (ℕ × Bytes)) (room : ℕ) (s : Shop) (c : Connection)
        → Apart es
        → Ready s es
        → s.producer.net.live a ≡ c
        → c.write_room ≡ length es + room
        → Wrote (run env (order es) s) es
          × ((run env (order es) s).producer.net.live a ≡ behind es room c)
    unfolding run
    all_written [] room s c apart ready conn r = (
      tt,
      conn
          ∙ ap (λ x. record c { write_room = x }) (omega (arith, r))
          ∙ ap (λ x. record c { sent = x; write_room = room }) (sym (append-nil c.sent)),
    )
    all_written ((k, w) ∷ es) room s c apart ready conn r =
        let s' = advance env k s in
        let c' = after_write w (length es + room) c in
        let (stage, live) =
          written_once k (length es + room) w s c ready.0.0 ready.0.1 conn (omega (arith, r)) in
        let (wrote_all, conn') =
          all_written es room s' c' apart.1
            (others (λ e t. (t.stage ≡ connected a) × (t.wire ≡ e.1)) k s es apart.0 ready.1) live
            refl in
        (
          (ap (λ t. t.stage) (run-Other es k s' apart.0) ∙ stage, wrote_all),
          conn'
              ∙ ap (λ x. record c { sent = x; write_room = room })
                  (append_assoc c.sent w (wires es)),
        )

    All-read :
        (es : List (ℕ × (ℕ × Bytes))) (rest : Bytes) (s : Shop) (c : Connection)
        → Apart es
        → Wrote s es
        → All IsAnswer es
        → s.producer.net.live a ≡ with_input (stream es rest) c
        → Given (run env (order es) s) es
          × ((run env (order es) s).producer.net.live a ≡ with_input rest c)
    unfolding run
    All-read [] rest s c apart sent ok_all conn = (tt, conn)
    All-read ((k, (t, d)) ∷ es) rest s c apart sent ok_all conn =
        let s' = advance env k s in
        let (stage, live) = read_once k t d (stream es rest) s c sent.0 conn ok_all.0 in
        let (given, conn') =
          All-read es rest s' c apart.1 (others (λ e u. u.stage ≡ wrote a) k s es apart.0 sent.1)
            ok_all.1 live in
        ((ap (λ u. u.stage) (run-Other es k s' apart.0) ∙ stage, given), conn')

    wrote_of :
        {A : Type 0} (s : Shop) (k : ℕ) (es : List (ℕ × A))
        → Wrote s es
        → among k es ≡ true
        → (s.tries k).stage ≡ wrote a
    wrote_of s k [] h m = cc
    wrote_of s k (e ∷ es) h m = elim (Bool-cases (e.0 == k)) [
      | inl same ↦ subst (λ j. (s.tries j).stage ≡ wrote a) ((==_iff e.0 k).0 same) h.0
      | inr other ↦ wrote_of s k es h.1 (ground (arith, m, other))
    ]

    Wrote-readers :
        (s : Shop) (ws : List (ℕ × Bytes)) (es : List (ℕ × (ℕ × Bytes)))
        → Wrote s ws
        → All (λ e. among e.0 ws ≡ true) es
        → Wrote s es
    Wrote-readers s ws [] h m = tt
    Wrote-readers s ws (e ∷ es) h m = (wrote_of s e.0 ws h m.0, Wrote-readers s ws es h m.1)

    -- Publications that share a connection write their requests in some order `ws`, and then read in some
    -- order `es`, in which each entry has the reader and the frame that comes in at its turn. nsqd is sent
    -- the requests whole, one behind the other, and each reader gets the frame of its turn, whatever it has
    -- written: the i-th answer goes to the i-th reader, which need not be the one who wrote the i-th
    -- request.
    pub answers_by_turn :
        (s : Shop) (ws : List (ℕ × Bytes)) (es : List (ℕ × (ℕ × Bytes))) (room : ℕ) (rest : Bytes)
        (c : Connection)
        → Apart ws
        → Apart es
        → All (λ e. among e.0 ws ≡ true) es
        → Ready s ws
        → All IsAnswer es
        → s.producer.net.live a ≡ with_input (stream es rest) c
        → c.write_room ≡ length ws + room
        → let s' = run env (order ws ++ order es) s in
          All (λ e. (s'.tries e.0).stage ≡ ended (verdict e.1.0 e.1.1)) es
          × (s'.producer.net.live a
              ≡ record c { input = rest; sent = c.sent ++ wires ws; write_room = room })
    answers_by_turn s ws es room rest c apart apart' known ready ok_all conn r =
        let (sent, live) =
          all_written ws room s (with_input (stream es rest) c) apart ready conn r in
        let s1 = run env (order ws) s in
        rw (run-append (order ws) (order es) s) (
          All-read es rest s1 (behind ws room c) apart' (Wrote-readers s1 ws es sent known) ok_all
            live)
