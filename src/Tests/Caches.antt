-- ===== src/Tests/Caches.antt =====
-- Runs of the cache simulator.
use pocket_agents_lab.Prelude.{
  nat_Eq, ℕ, refl, List, [], ◌∷◌, ◌≡◌, ◌≤◌, Distinct, All, none, inl, reverse, arith, contains,
  take, true, false, some, sort_by,
}
use pocket_agents_lab.Cache.{init, access_all}
use pocket_agents_lab.Cache.Recency.{touch_all}
use pocket_agents_lab.Cache.Inclusion.{access_all-recency}
use pocket_agents_lab.Cache.Predict.{frequency_predictor}
use pocket_agents_lab.Cache.Predict.Ranking.{frequency, frequency_predictor-optimal}
use pocket_agents_lab.Cache.Layer.{Selection, evaluate_layer}
use pocket_agents_lab.Cache.Layer.Capacity.{RateLe, evaluate_layer-capacity_mono}
use pocket_agents_lab.Cache.Layer.Window.{LastIsFrequency, evaluate_layer-window}
use pocket_agents_lab.Tests.Instances.{first_seen}

abbrev accesses : List ℕ
accesses = 1 ∷ 2 ∷ 1 ∷ 3 ∷ 2 ∷ []

-- Capacity 2: the second access of 1 is a hit, 3 evicts 2, and 2 evicts 1.
access_all_run : access_all (init 2) 0 accesses ≡ (record { capacity = 2; order = 3 ∷ 2 ∷ [] }, 1)
unfolding access_all
access_all_run = refl

access_all-recency_example :
    (access_all (init 2) 0 accesses).0.order ≡ reverse (take 2 (touch_all [] accesses))
access_all-recency_example = access_all-recency 2 accesses

abbrev history : List (List ℕ)
history = (1 ∷ 2 ∷ []) ∷ (2 ∷ 3 ∷ []) ∷ (3 ∷ 2 ∷ []) ∷ []

frequency_predictor_run : frequency_predictor history 2 ≡ 2 ∷ 3 ∷ []
unfolding frequency_predictor
frequency_predictor_run = refl

history-Distinct : All Distinct history
unfolding contains
history-Distinct = ((refl, (refl, tt)), ((refl, (refl, tt)), ((refl, (refl, tt)), tt)))

predicted : contains 3 (frequency_predictor history 2) ≡ true
unfolding contains frequency_predictor
predicted = refl

not_predicted : contains 1 (frequency_predictor history 2) ≡ false
unfolding contains frequency_predictor
not_predicted = refl

frequency_predictor-optimal_example : frequency 1 history ≤ frequency 3 history
frequency_predictor-optimal_example =
    frequency_predictor-optimal history 2 3 1 history-Distinct predicted not_predicted

-- Two tokens of one layer, out of order.
abbrev trace : List Selection
trace =
    record { layer = 0; token_index = 1; expert_ids = 2 ∷ 3 ∷ [] }
    ∷ record { layer = 0; token_index = 0; expert_ids = 1 ∷ 2 ∷ [] }
    ∷ []

evaluate_layer_run : (evaluate_layer first_seen 16 trace 4).lru_hit_rate ≡ some (1, 4)
unfolding evaluate_layer sort_by
evaluate_layer_run = refl

evaluate_layer-capacity_mono_example :
    RateLe
      (evaluate_layer first_seen 16 trace 1).lru_hit_rate
      (evaluate_layer first_seen 16 trace 4).lru_hit_rate
    × (record (evaluate_layer first_seen 16 trace 1) { lru_hit_rate = none }
        ≡ record (evaluate_layer first_seen 16 trace 4) { lru_hit_rate = none })
evaluate_layer-capacity_mono_example =
    evaluate_layer-capacity_mono first_seen 16 trace 1 4 (omega arith)

evaluate_layer-window_example :
    LastIsFrequency (evaluate_layer first_seen 0 trace 4).predictor_recall
evaluate_layer-window_example = evaluate_layer-window first_seen 0 trace 4 (inl refl)
