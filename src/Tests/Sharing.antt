-- ===== src/Tests/Sharing.antt =====
-- Publications that share a producer, at concrete inputs.
use nsq_async_rs.Base.{ℕ, ◌≡◌, refl, false, All, List, [], ◌∷◌, ◌++◌, arith}
use nsq_async_rs.Connection.Frames.{with_input}
use nsq_async_rs.Producer.{new, set_conn}
use nsq_async_rs.Producer.Verdict.{verdict}
use nsq_async_rs.Producer.Cache.Entries.{IsCache}
use nsq_async_rs.Producer.Sharing.{Try, Shop, starts, connected, ended, run}
use nsq_async_rs.Producer.Sharing.Cached.{schedule-IsCache}
use nsq_async_rs.Producer.Sharing.Answers.{stream, wires, answers_by_turn}
use nsq_async_rs.Tests.Connection.{line}
use nsq_async_rs.Tests.Network.{env, net, twice_promised}
use nsq_async_rs.Tests.Producer.{config}

abbrev at_start : ℕ → Try
at_start k = record { cell = k; topic = 116 ∷ []; wire = 80 ∷ k ∷ []; stage = starts }

abbrev shop : Shop
shop = record { producer = new config net; held = false; tries = at_start }

schedule-IsCache_example : IsCache (run env (0 ∷ 1 ∷ 1 ∷ 0 ∷ 2 ∷ 1 ∷ 0 ∷ []) shop).producer
schedule-IsCache_example =
    schedule-IsCache env config net at_start (0 ∷ 1 ∷ 1 ∷ 0 ∷ 2 ∷ 1 ∷ 0 ∷ []) twice_promised
      (60000, refl)

-- nsqd refuses what 0 has published, and accepts what 1 has; 1 reads first.
abbrev turns : List (ℕ × (ℕ × List ℕ))
turns = (1, (1, 69 ∷ [])) ∷ (0, (0, 79 ∷ 75 ∷ [])) ∷ []

abbrev sharing : Shop
sharing = record {
  producer = set_conn 5 (with_input (stream turns []) (line 4)) (new config net);
  held = false;
  tries = λ k. record (at_start k) { stage = connected 5 };
}

answers_by_turn_example :
    let s' = run env (0 ∷ 1 ∷ 1 ∷ 0 ∷ []) sharing in
    All (λ e. (s'.tries e.0).stage ≡ ended (verdict e.1.0 e.1.1)) turns
    × (s'.producer.net.live 5 ≡ record (line 4) {
      input = [];
      sent = [] ++ wires ((0, 80 ∷ 0 ∷ []) ∷ (1, 80 ∷ 1 ∷ []) ∷ []);
      write_room = 2;
    })
answers_by_turn_example =
    answers_by_turn env 5 sharing ((0, 80 ∷ 0 ∷ []) ∷ (1, 80 ∷ 1 ∷ []) ∷ []) turns 2 [] (line 4)
      ((refl, tt), (tt, tt)) ((refl, tt), (tt, tt)) (refl, (refl, tt))
      ((refl, refl), ((refl, refl), tt))
      ((omega arith, omega arith), ((omega arith, omega arith), tt)) refl refl
