-- ===== src/Cache/Layer/Capacity.antt =====
-- How a layer's report depends on the capacity of the cache.
use pocket_agents_lab.Cache.Inclusion.{
  init-Holds, access_all-Holds, access_all-capacity, access_all_mono,
}
use pocket_agents_lab.Cache.Layer.{
  SetOrder, Selection, Progress, rate, step, steps, start, in_token_order, expert_count,
  evaluate_layer,
}
use pocket_agents_lab.Cache.Recency.{Holds, touch_all}
use pocket_agents_lab.Prelude.{
  ℕ, zero, suc, ◌≤◌, ◌≡◌, refl, Option, none, some, List, [], ◌∷◌, arith, ◌∙◌,
}

-- Both rates are missing, or they have one denominator and the first is at most the second.
abbrev pub RateLe : Option (ℕ × ℕ) → Option (ℕ × ℕ) → Type 0
RateLe none none = Unit
RateLe (some (h, t)) (some (h', t')) = (t ≡ t') × (h ≤ h')
RateLe _ _ = ⊥

-- Two runs over the same records with caches of capacities m and n.
record Paired (m n : ℕ) (history : List ℕ) (s t : Progress) : Type 0 where
  small : Holds s.cache history
  large : Holds t.cache history
  small_capacity : s.cache.capacity ≡ m
  large_capacity : t.cache.capacity ≡ n
  hits : s.lru_hits ≤ t.lru_hits
  total : s.total_selections ≡ t.total_selections
  tokens : s.history ≡ t.history
  predicted : s.predicted_hits ≡ t.predicted_hits

module _ (o : SetOrder) (predictor_n k m n : ℕ) (le : m ≤ n) where
  step-Paired :
      (h : List ℕ) (s t : Progress) (r : Selection)
      → Paired m n h s t
      → Paired m n (touch_all h r.expert_ids) (step o predictor_n k s r) (step o predictor_n k t r)
  unfolding step
  step-Paired h s t r p = record {
    small = access_all-Holds s.cache s.lru_hits h r.expert_ids p.small;
    large = access_all-Holds t.cache t.lru_hits h r.expert_ids p.large;
    small_capacity = access_all-capacity s.cache s.lru_hits r.expert_ids ∙ p.small_capacity;
    large_capacity = access_all-capacity t.cache t.lru_hits r.expert_ids ∙ p.large_capacity;
    hits =
        access_all_mono s.cache t.cache s.lru_hits t.lru_hits h r.expert_ids p.small p.large
          (omega (arith, p.small_capacity, p.large_capacity)) p.hits;
    total = cc (p.total);
    tokens = cc (p.tokens);
    predicted = cc (p.tokens, p.predicted);
  }

  steps-Paired :
      (h : List ℕ) (s t : Progress) (records : List Selection)
      → Paired m n h s t
      → (h' : List ℕ) × Paired m n h'
          (steps o predictor_n k s records)
          (steps o predictor_n k t records)
  unfolding steps
  steps-Paired h s t [] p = (h, p)
  steps-Paired h s t (r ∷ records) p =
      steps-Paired (touch_all h r.expert_ids) (step o predictor_n k s r) (step o predictor_n k t r)
        records (step-Paired h s t r p)

rate-RateLe : (h h' t t' : ℕ) → t ≡ t' → h ≤ h' → RateLe (rate h t) (rate h' t')
rate-RateLe h h' zero zero e l = tt
rate-RateLe h h' zero (suc t') e l = absurd (omega arith)
rate-RateLe h h' (suc t) zero e l = absurd (omega arith)
rate-RateLe h h' (suc t) (suc t') e l = (e, l)

-- With a larger cache the hit rate of a layer does not fall, and the rest of the report, the
-- predictors' recalls among it, is the same.
pub evaluate_layer-capacity_mono :
    (o : SetOrder) (predictor_n : ℕ) (trace : List Selection) (m n : ℕ)
    → m ≤ n
    → RateLe
        (evaluate_layer o predictor_n trace m).lru_hit_rate
        (evaluate_layer o predictor_n trace n).lru_hit_rate
      × (record (evaluate_layer o predictor_n trace m) { lru_hit_rate = none }
          ≡ record (evaluate_layer o predictor_n trace n) { lru_hit_rate = none })
unfolding evaluate_layer
evaluate_layer-capacity_mono o predictor_n trace m n l =
    let records = in_token_order trace in
    let (h, p) =
      steps-Paired o predictor_n (expert_count records) m n l [] (start o predictor_n m)
        (start o predictor_n n) records
        (record {
          small = init-Holds m;
          large = init-Holds n;
          small_capacity = refl;
          large_capacity = refl;
          hits = omega arith;
          total = refl;
          tokens = refl;
          predicted = refl;
        }) in
    (rate-RateLe _ _ _ _ p.total p.hits, cc (p.total, p.predicted))
