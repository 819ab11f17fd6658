-- ===== src/Cache/Layer/Window.antt =====
-- The window of the last-N predictor.
use pocket_agents_lab.Cache.Layer.{
  SetOrder, Selection, PredictedHits, Progress, score, recalls, step, steps, start, in_token_order,
  expert_count, evaluate_layer,
}
use pocket_agents_lab.Cache.Predict.{last_n_predictor}
use pocket_agents_lab.Prelude.{
  ℕ, zero, suc, ◌≤◌, ◌+◌, ◌-◌, ◌≡◌, ◌⊎◌, inl, inr, refl, Option, none, some, List, [], ◌∷◌, arith,
  length, drop, slice_last, leb, length-append, length-sort_by,
}

-- The window takes in the whole of a history.
abbrev pub Covers : ℕ → ℕ → Type 0
Covers n tokens = (n ≡ 0) ⊎ (tokens ≤ n)

drop_none : (n : ℕ) (xs : List (List ℕ)) → n ≡ 0 → drop n xs ≡ xs
drop_none zero xs e = refl
drop_none (suc n) xs e = absurd (omega arith)

slice_last_whole : (n : ℕ) (xs : List (List ℕ)) → Covers n (length xs) → slice_last n xs ≡ xs
slice_last_whole zero xs c = refl
slice_last_whole (suc n) xs (inl e) = absurd (omega arith)
slice_last_whole (suc n) xs (inr l) = drop_none (length xs - suc n) xs (omega arith)

abbrev Agree : Option PredictedHits → Type 0
Agree none = Unit
Agree (some h) = h.last_n ≡ h.frequency_all

score-Agree :
    (history : List (List ℕ)) (actual : List ℕ) (n k : ℕ) (hits : Option PredictedHits)
    → Covers n (length history)
    → Agree hits
    → Agree (score history actual n k hits)
unfolding score last_n_predictor
score-Agree [] actual n k hits c a = a
score-Agree (e ∷ past) actual n k none c a = rw (slice_last_whole n (e ∷ past) c) refl
score-Agree (e ∷ past) actual n k (some h) c a = rw (slice_last_whole n (e ∷ past) c, a) refl

module _ (o : SetOrder) (n k : ℕ) where
  Covers-fewer : (a b : ℕ) → a ≤ b → Covers n b → Covers n a
  Covers-fewer a b l (inl e) = inl e
  Covers-fewer a b l (inr m) = inr (omega arith)

  steps-Agree :
      (s : Progress) (records : List Selection)
      → Covers n (length s.history + length records)
      → Agree s.predicted_hits
      → Agree (steps o n k s records).predicted_hits
  unfolding steps step
  steps-Agree s [] c a = a
  steps-Agree s (r ∷ records) c a =
      steps-Agree (step o n k s r) records
        (Covers-fewer _ _ (omega (arith, length-append s.history (o.set_of r.expert_ids ∷ []))) c)
        (score-Agree s.history (o.set_of r.expert_ids) n k s.predicted_hits
          (Covers-fewer _ _ (omega arith) c) a)

-- The recall of the last-N predictor is that of the frequency predictor.
abbrev pub LastIsFrequency : List (Option (ℕ × ℕ)) → Type 0
LastIsFrequency (p ∷ f ∷ l ∷ []) = l ≡ f
LastIsFrequency _ = Unit

recalls-LastIsFrequency :
    (hits : Option PredictedHits) (total : ℕ) → Agree hits → LastIsFrequency (recalls hits total)
unfolding recalls
recalls-LastIsFrequency none total a = tt
recalls-LastIsFrequency (some h) total a = rw a refl

-- With a window of 0, or of at least as many tokens as the trace has, the last-N predictor has the
-- recall of the frequency predictor: a window of 0 is the whole history, not an empty one.
pub evaluate_layer-window :
    (o : SetOrder) (predictor_n : ℕ) (trace : List Selection) (capacity : ℕ)
    → (predictor_n ≡ 0) ⊎ (length trace ≤ predictor_n)
    → LastIsFrequency (evaluate_layer o predictor_n trace capacity).predictor_recall
unfolding evaluate_layer
evaluate_layer-window o n trace capacity c =
    let records = in_token_order trace in
    recalls-LastIsFrequency _ _ (
      steps-Agree o n (expert_count records) (start o n capacity) records
        (Covers-fewer o n 0 _ _
          (omega
            (arith, length-sort_by (λ (r s : Selection). leb r.token_index s.token_index) trace))
          c)
        tt)
