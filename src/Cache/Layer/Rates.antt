-- ===== src/Cache/Layer/Rates.antt =====
-- No rate of a layer's report is above 1.
use pocket_agents_lab.Cache.Layer.{
  SetOrder, Selection, PredictedHits, Progress, overlap, add_hits, score, rate, recalls, step,
  steps, start, in_token_order, expert_count, evaluate_layer,
}
use pocket_agents_lab.Cache.Inclusion.{access_all-hits_le}
use pocket_agents_lab.Prelude.{
  ℕ, zero, suc, ◌≤◌, ◌+◌, Option, none, some, List, [], ◌∷◌, arith, length, All, contains, nat_Eq,
  length-keep_if-le, length-le_of_subset,
}

-- A rate, if there is one, is at most 1.
abbrev pub AtMostOne : Option (ℕ × ℕ) → Type 0
AtMostOne none = Unit
AtMostOne (some (hits, total)) = hits ≤ total

overlap-le : (predicted actual : List ℕ) → overlap predicted actual ≤ length actual
unfolding overlap
overlap-le predicted actual = length-keep_if-le (λ x. contains x predicted) actual

length-set_of-le : (o : SetOrder) (xs : List ℕ) → length (o.set_of xs) ≤ length xs
length-set_of-le o xs =
    length-le_of_subset (o.set_of xs) xs (o.set_of-Distinct xs) (λ x m. cc (o.contains-set_of x xs))

-- The counts of the predictors stay below a total.
abbrev Within : Option PredictedHits → ℕ → Type 0
Within none total = Unit
Within (some h) total = (h.previous_token ≤ total) × (h.frequency_all ≤ total) × (h.last_n ≤ total)

score-Within :
    (history : List (List ℕ)) (actual : List ℕ) (n k total selected : ℕ)
    (hits : Option PredictedHits)
    → length actual ≤ selected
    → Within hits total
    → Within (score history actual n k hits) (total + selected)
unfolding score add_hits
score-Within [] actual n k total selected none l w = tt
score-Within [] actual n k total selected (some h) l w = omega arith
score-Within (e ∷ past) actual n k total selected none l w = omega (arith, overlap-le)
score-Within (e ∷ past) actual n k total selected (some h) l w = omega (arith, overlap-le)

-- What the loop keeps: no counter is above the number of selections so far.
record IsSound (s : Progress) : Type 0 where
  hits : s.lru_hits ≤ s.total_selections
  predicted : Within s.predicted_hits s.total_selections

module _ (o : SetOrder) (n k : ℕ) where
  step-IsSound : (s : Progress) (r : Selection) → IsSound s → IsSound (step o n k s r)
  unfolding step
  step-IsSound s r v = record {
    hits = omega (arith, (access_all-hits_le s.cache s.lru_hits r.expert_ids).1, v.hits);
    predicted =
        score-Within s.history (o.set_of r.expert_ids) n k s.total_selections (length r.expert_ids)
          s.predicted_hits (length-set_of-le o r.expert_ids) v.predicted;
  }

  steps-IsSound :
      (s : Progress) (records : List Selection) → IsSound s → IsSound (steps o n k s records)
  unfolding steps
  steps-IsSound s [] v = v
  steps-IsSound s (r ∷ records) v = steps-IsSound (step o n k s r) records (step-IsSound s r v)

rate-AtMostOne : (hits total : ℕ) → hits ≤ total → AtMostOne (rate hits total)
rate-AtMostOne hits zero h = tt
rate-AtMostOne hits (suc total) h = h

recalls-AtMostOne :
    (hits : Option PredictedHits) (total : ℕ)
    → Within hits total
    → All AtMostOne (recalls hits total)
unfolding recalls
recalls-AtMostOne none total w = tt
recalls-AtMostOne (some h) total w = (
  rate-AtMostOne h.previous_token total w.0,
  (rate-AtMostOne h.frequency_all total w.1, (rate-AtMostOne h.last_n total w.2, tt)),
)

-- Every rate that `evaluate_layer` reports for a trace, the hit rate and the recall of each
-- predictor, is at most 1.
pub evaluate_layer-AtMostOne :
    (o : SetOrder) (predictor_n : ℕ) (trace : List Selection) (capacity : ℕ)
    → AtMostOne (evaluate_layer o predictor_n trace capacity).lru_hit_rate
      × All AtMostOne (evaluate_layer o predictor_n trace capacity).predictor_recall
unfolding evaluate_layer
evaluate_layer-AtMostOne o n trace capacity =
    let records = in_token_order trace in
    let v =
      steps-IsSound o n (expert_count records) (start o n capacity) records
        (record { hits = omega arith; predicted = tt }) in
    (rate-AtMostOne _ _ v.hits, recalls-AtMostOne _ _ v.predicted)
