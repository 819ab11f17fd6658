-- ===== src/Tests/Evaluations.antt =====
-- Runs of the evaluations.
use pocket_agents_lab.Prelude.{
  ℕ, ◌≤◌, min, none, some, String, List, [], ◌∷◌, ◌≡◌, refl, codes, length, keep_if, count_if,
  sum_of, sort_by, add_to,
}
use pocket_agents_lab.Evaluation.Intents.{IntentRow, is_training, fresh_rows, balanced_rows}
use pocket_agents_lab.Evaluation.Intents.Balance.{has_label, balanced_rows-IsBalanced}
use pocket_agents_lab.Evaluation.Device.{
  DeviceCase, DeviceReply, DeviceReport, RouteStats, eval_phone_routing, eval_cases, final_report,
  device_row, is_gold, limited,
}
use pocket_agents_lab.Evaluation.Device.Routes.{eval_phone_routing-sums}
use pocket_agents_lab.Tests.Instances.{still, ascii}

abbrev intents : List IntentRow
intents =
    record { text = codes "Where is my card?"; label = "card_arrival"; source_index = 0 }
    ∷ record { text = codes "Is the card here?"; label = "card_arrival"; source_index = 1 }
    ∷ record { text = codes "Top up"; label = "top_up"; source_index = 2 }
    ∷ []

balanced_rows-IsBalanced_example :
    ((k : String)
      → count_if (has_label k) (balanced_rows still ascii intents (codes "top up" ∷ []) 1 3407)
        ≡ min 1 (
            length (
              keep_if (has_label k) (fresh_rows still ascii intents (codes "top up" ∷ []) 1 3407))))
    × (count_if
          (is_training ascii (codes "top up" ∷ []))
          (balanced_rows still ascii intents (codes "top up" ∷ []) 1 3407)
        ≡ 0)
    × ((g : IntentRow → ℕ)
        → sum_of g (balanced_rows still ascii intents (codes "top up" ∷ []) 1 3407)
          ≤ sum_of g intents)
balanced_rows-IsBalanced_example =
    balanced_rows-IsBalanced still ascii intents (codes "top up" ∷ []) 1 3407

abbrev device_cases : List (DeviceCase × DeviceReply)
device_cases =
    (
      record { id = "pr_answer_test_000"; gold = "answer" },
      record { chosen = some "answer"; latency = 20 },
    )
    ∷ (
      record { id = "pr_save_note_test_000"; gold = "save_note" },
      record { chosen = none; latency = 30 },
    )
    ∷ []

abbrev device_report : DeviceReport
device_report = record {
  correct = 1;
  total = 2;
  latency_sum = 50;
  per_route =
      record { route = "answer"; correct = 1; total = 1 }
      ∷ record { route = "save_note"; correct = 0; total = 1 }
      ∷ [];
}

eval_phone_routing_run : eval_phone_routing none device_cases ≡ some device_report
unfolding eval_phone_routing eval_cases final_report device_row sort_by limited is_gold add_to
eval_phone_routing_run = refl

eval_phone_routing-sums_example :
    (sum_of (λ (s : RouteStats). s.correct) device_report.per_route ≡ 1)
    × (sum_of (λ (s : RouteStats). s.total) device_report.per_route ≡ 2)
    × (1
        ≡ count_if
            (λ (c : DeviceCase × DeviceReply). is_gold c.1.chosen c.0.gold)
            (limited none device_cases))
    × (2 ≡ length (limited none device_cases))
eval_phone_routing-sums_example =
    eval_phone_routing-sums none device_cases device_report eval_phone_routing_run

no_cases_run : eval_phone_routing none [] ≡ none
unfolding eval_phone_routing final_report eval_cases limited
no_cases_run = refl
