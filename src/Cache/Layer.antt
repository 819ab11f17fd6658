-- ===== src/Cache/Layer.antt =====
-- `evaluate_layer` and the grouping of `main` in tools/expert_cache_simulator.py. A rate is the
-- pair of its numerator and denominator, `none` where the source has None: the division itself is
-- not performed. The iteration order of a Python set is a parameter.
pub mod Rates
pub mod Capacity
pub mod Window
use pocket_agents_lab.Prelude.{
  ℕ, zero, suc, ◌+◌, ◌-◌, ◌*◌, ◌≡◌, Bool, Option, none, some, List, [], ◌∷◌, ◌++◌, map, leb, length,
  keep_if, contains, Distinct, nat_Eq, sort_by, Groups, group_by, if◌then◌else◌, sum_of,
}
use pocket_agents_lab.Cache.{LruCache, init, access_all}
use pocket_agents_lab.Cache.Predict.{
  previous_token_predictor, frequency_predictor, last_n_predictor,
}

-- `set(xs)`: its elements once each, in the order in which Python iterates them.
pub record SetOrder : Type 0 where
  pub set_of : List ℕ → List ℕ
  pub set_of-Distinct : (xs : List ℕ) → Distinct (set_of xs)
  pub contains-set_of : (x : ℕ) (xs : List ℕ) → contains x (set_of xs) ≡ contains x xs

-- One line of the trace.
pub record Selection : Type 0 where
  pub layer : ℕ
  pub token_index : ℕ
  pub expert_ids : List ℕ

-- `predicted_hits`, whose three keys are made together, at the second token.
pub record PredictedHits : Type 0 where
  pub previous_token : ℕ
  pub frequency_all : ℕ
  pub last_n : ℕ

-- The variables of the loop over the records.
pub record Progress : Type 0 where
  pub cache : LruCache
  pub history : List (List ℕ)
  pub lru_hits : ℕ
  pub predicted_hits : Option PredictedHits
  pub total_selections : ℕ

pub record LayerReport : Type 0 where
  pub n_tokens : ℕ
  pub n_expert_used : ℕ
  pub total_selections : ℕ
  pub lru_hit_rate : Option (ℕ × ℕ)
  pub predictor_recall : List (Option (ℕ × ℕ))

-- len(predicted & actual)
pub overlap : List ℕ → List ℕ → ℕ
unfolding contains
overlap predicted actual = length (keep_if (λ x. contains x predicted) actual)

-- predicted_hits[name] += ..., on a `defaultdict(int)`
pub add_hits : Option PredictedHits → ℕ → ℕ → ℕ → PredictedHits
add_hits none p f l = record { previous_token = p; frequency_all = f; last_n = l }
add_hits (some h) p f l = record {
  previous_token = h.previous_token + p;
  frequency_all = h.frequency_all + f;
  last_n = h.last_n + l;
}

-- The loop over the predictors, under `if history`.
pub score :
    (history : List (List ℕ)) (actual : List ℕ) (predictor_n n_expert_used : ℕ)
    → Option PredictedHits
    → Option PredictedHits
unfolding overlap add_hits previous_token_predictor frequency_predictor last_n_predictor
score [] actual predictor_n n_expert_used hits = hits
score (e ∷ past) actual predictor_n n_expert_used hits =
    let history = e ∷ past in
    some (
      add_hits hits (overlap (previous_token_predictor history) actual)
        (overlap (frequency_predictor history n_expert_used) actual)
        (overlap (last_n_predictor history predictor_n n_expert_used) actual))

-- hits / total if total else None
abbrev pub rate : ℕ → ℕ → Option (ℕ × ℕ)
rate hits zero = none
rate hits (suc total) = some (hits, suc total)

pub recalls : Option PredictedHits → ℕ → List (Option (ℕ × ℕ))
recalls none total = []
recalls (some h) total =
    rate h.previous_token total ∷ rate h.frequency_all total ∷ rate h.last_n total ∷ []

pub expert_count : List Selection → ℕ
expert_count [] = 0
expert_count (r ∷ records) = length r.expert_ids

abbrev pub in_token_order : List Selection → List Selection
in_token_order = sort_by (λ r s. leb r.token_index s.token_index)

module _ (o : SetOrder) (predictor_n : ℕ) where
  -- The body of the loop over the records.
  pub step : ℕ → Progress → Selection → Progress
  unfolding access_all score
  step n_expert_used s record_ =
      let experts = record_.expert_ids in
      let (cache, lru_hits) = access_all s.cache s.lru_hits experts in
      let actual = o.set_of experts in
      record {
        cache = cache;
        history = s.history ++ actual ∷ [];
        lru_hits = lru_hits;
        predicted_hits = score s.history actual predictor_n n_expert_used s.predicted_hits;
        total_selections = s.total_selections + length experts;
      }

  pub steps : ℕ → Progress → List Selection → Progress
  unfolding step
  steps n_expert_used s [] = s
  steps n_expert_used s (r ∷ records) = steps n_expert_used (step n_expert_used s r) records

  abbrev pub start : ℕ → Progress
  start cache_capacity = record {
    cache = init cache_capacity;
    history = [];
    lru_hits = 0;
    predicted_hits = none;
    total_selections = 0;
  }

  abbrev pub report : ℕ → ℕ → Progress → LayerReport
  report n_tokens n_expert_used s = record {
    n_tokens = n_tokens;
    n_expert_used = n_expert_used;
    total_selections = s.total_selections;
    lru_hit_rate = rate s.lru_hits s.total_selections;
    predictor_recall = recalls s.predicted_hits s.total_selections;
  }

  unfoldable pub evaluate_layer : List Selection → ℕ → LayerReport
  unfolding recalls expert_count steps
  evaluate_layer unsorted cache_capacity =
      let records = in_token_order unsorted in
      let n_expert_used = expert_count records in
      report (length records) n_expert_used (steps n_expert_used (start cache_capacity) records)

  -- The loop of `main` over the layers, in ascending order.
  pub evaluate : List Selection → ℕ → List (ℕ × LayerReport)
  unfolding evaluate_layer
  evaluate trace cache_capacity =
      map (λ g. (g.0, evaluate_layer g.1 cache_capacity))
        (sort_by (λ g h. leb g.0 h.0) (group_by (λ r. r.layer) trace))

-- (1 - lru_hit_rate) * total_selections * expert_bytes, the estimate that `main` prints
pub wasted_bytes : ℕ × ℕ → ℕ → ℕ
wasted_bytes (hits, total) expert_bytes = (total - hits) * expert_bytes
