-- ===== src/Tests/Mixtures.antt =====
-- Runs of the mixture.
use Prim.Native.String.{String}
use pocket_agents_lab.Prelude.{
  list_Eq, nat_Eq, string_Eq, ◌≢◌, refl, ℕ, List, [], ◌∷◌, codes, map, contains, ◌≡◌, Rearranges,
  arith, ◌≢◌, ◌&&◌, ◌↔◌, not, All, Distinct, ◌≤◌, length, ◌+◌, sort_by, group_by, group_of, sum_of,
  if◌then◌else◌,
}
use pocket_agents_lab.Mixture.{round_ratio, raise, Row, ok, raise, out_of_fuel, str_le}
use pocket_agents_lab.Mixture.Clean.{
  clean_pool, kept_keys, normalize, clean_pool-exact, is_protected, Reason, protected_state,
}
use pocket_agents_lab.Mixture.Split.{Splits, stratified_split, sorted_groups}
use pocket_agents_lab.Mixture.Split.Laws.{all_rows, stratified_split-Rearranges}
use pocket_agents_lab.Mixture.Split.Classes.{in_class, Shares, stratified_split-Shares}
use pocket_agents_lab.Mixture.Split.Success.{stratified_split-succeeds_iff}
use pocket_agents_lab.Mixture.Checks.{Final, check_final}
use pocket_agents_lab.Mixture.Compose.{
  compose, original_training, split_pools, split_source, split_typed, alternate,
}
use pocket_agents_lab.Mixture.Compose.Cleaned.{IsMixed, compose-IsMixed}
use pocket_agents_lab.Mixture.Sample.{weighted_sample}
use pocket_agents_lab.Mixture.Sample.Laws.{
  IsMixture, weighted_sample-IsMixture, weighted_sample-ends,
}
use pocket_agents_lab.Tests.Instances.{still, ascii, fractions}

abbrev row : String → String → String → Row
row id state label = record {
  id = id;
  source = "pool";
  state = codes state;
  questions = "";
  gold = "";
  workflow = "";
  route_label = label;
  n_questions = 1;
}

abbrev pool : List Row
pool =
    row "1" "Play music" "play"
    ∷ row "2" "play, MUSIC!" "play"
    ∷ row "3" "Stop it" "stop"
    ∷ row "4" "stop now" "stop"
    ∷ []

clean_pool_run :
    map (λ r. r.id) (clean_pool ascii pool (codes "stop it" ∷ []) []).0 ≡ "1" ∷ "4" ∷ []
unfolding clean_pool contains
clean_pool_run = refl

abbrev protected : List (List ℕ)
protected = codes "stop it" ∷ []

abbrev excluded : List (String × Reason)
excluded = []

clean_pool-exact_example :
    ((k : List ℕ)
      → contains k (kept_keys ascii pool protected excluded) ≡ (
          contains k (map (λ (row : Row). normalize ascii row.state) pool)
          && not (contains k protected)))
    × Distinct (kept_keys ascii pool protected excluded)
    × ((f : String → ℕ)
        → (sum_of (λ (row : Row). f row.id) (clean_pool ascii pool protected excluded).0
              + sum_of (λ e. f e.0) (clean_pool ascii pool protected excluded).1
            ≡ sum_of (λ (row : Row). f row.id) pool + sum_of (λ e. f e.0) excluded)
          × (sum_of
                (λ e. if is_protected e.1 then f e.0 else 0)
                (clean_pool ascii pool protected excluded).1
              ≡ sum_of
                  (λ (row : Row).
                    if contains (normalize ascii row.state) protected then f row.id else 0)
                  pool
                + sum_of (λ e. if is_protected e.1 then f e.0 else 0) excluded))
clean_pool-exact_example = clean_pool-exact ascii pool protected excluded

abbrev class : List Row
class = row "1" "a" "play" ∷ row "3" "c" "play" ∷ row "2" "b" "play" ∷ []

abbrev class_split : Splits
class_split = record {
  train = row "3" "c" "play" ∷ [];
  val = row "1" "a" "play" ∷ [];
  calibration = row "2" "b" "play" ∷ [];
}

class_split_run : stratified_split still class 42 ≡ ok class_split
unfolding stratified_split sort_by group_by
class_split_run = refl

stratified_split-Rearranges_example : Rearranges (all_rows class_split) class
stratified_split-Rearranges_example =
    stratified_split-Rearranges still class 42 class_split class_split_run

stratified_split-Shares_example : Shares "play" (in_class "play" class) class_split
stratified_split-Shares_example =
    stratified_split-Shares still "play" class 42 class_split class_split_run (omega arith)

stratified_split-succeeds_iff_example :
    ((splits : Splits) × (stratified_split still class 42 ≡ ok splits))
    ↔ All (λ g. 3 ≤ length g.1) (sorted_groups still class)
stratified_split-succeeds_iff_example = stratified_split-succeeds_iff still class 42

abbrev groups : List (List Row)
groups = class ∷ (row "9" "z" "stop" ∷ []) ∷ []

abbrev sources : List (String × List Row)
sources = ("web", class) ∷ ("pool", pool) ∷ []

abbrev weights : List (String × (ℕ × ℕ))
weights = ("pool", (1, 2)) ∷ ("web", (1, 4)) ∷ []

abbrev mixture : List Row
mixture =
    row "2" "play, MUSIC!" "play"
    ∷ row "4" "stop now" "stop"
    ∷ row "1" "Play music" "play"
    ∷ row "3" "Stop it" "stop"
    ∷ row "2" "b" "play"
    ∷ row "3" "c" "play"
    ∷ []

abbrev counts : List (String × ℕ)
counts = ("pool", 4) ∷ ("web", 2) ∷ []

weighted_sample_run : weighted_sample still fractions sources weights 42 ≡ ok (mixture, counts)
unfolding weighted_sample sort_by group_by contains group_of round_ratio
weighted_sample_run = refl

weighted_sample-ends_example :
    weighted_sample still fractions sources weights 42 ≢ raise out_of_fuel
weighted_sample-ends_example = weighted_sample-ends still fractions sources weights 42

weighted_sample-IsMixture_example : IsMixture still sources mixture counts
weighted_sample-IsMixture_example =
    weighted_sample-IsMixture still fractions sources weights 42 mixture counts weighted_sample_run

-- Two pools, one state that is protected, and one that was trained on.
abbrev pools : List (String × List Row)
pools =
    (
      "typed_decisions",
      row "t1" "lamp on" "light"
          ∷ row "t2" "lamp off" "light"
          ∷ row "t3" "lamp dim" "light"
          ∷ row "t4" "lamp red" "light"
          ∷ [],
    )
    ∷ (
      "web",
      row "w1" "top up" "money"
          ∷ row "w2" "pay now" "money"
          ∷ row "w3" "pay later" "money"
          ∷ row "w4" "no pay" "money"
          ∷ [],
    )
    ∷ []

abbrev pool_weights : List (String × (ℕ × ℕ))
pool_weights = ("typed_decisions", (1, 1)) ∷ ("web", (1, 2)) ∷ []

abbrev frozen : Final
frozen = record {
  train = row "t1" "lamp on" "light" ∷ row "w3" "pay later" "money" ∷ [];
  val = row "t2" "lamp off" "light" ∷ row "t4" "lamp red" "light" ∷ row "w1" "top up" "money" ∷ [];
  calibration = row "t3" "lamp dim" "light" ∷ row "w2" "pay now" "money" ∷ [];
}

abbrev frozen_counts : List (String × ℕ)
frozen_counts = ("typed_decisions", 1) ∷ ("web", 1) ∷ []

compose_run :
    compose still ascii fractions str_le pools
      (codes "no pay" ∷ [])
      (codes "lamp on" ∷ [])
      pool_weights
      3407
    ≡ ok (frozen, frozen_counts, ("w4", protected_state) ∷ [])
unfolding compose check_final normalize split_pools clean_pool split_source split_typed alternate
    stratified_split weighted_sample sort_by group_by contains group_of round_ratio
compose_run = refl

-- With no more than 80 rows, all are held out.
original_training_run :
    original_training still ascii (row "t1" "lamp on" "light" ∷ row "t2" "lamp off" "light" ∷ [])
    ≡ []
unfolding original_training contains
original_training_run = refl

compose-IsMixed_example :
    IsMixed still ascii fractions str_le pools
      (codes "no pay" ∷ [])
      (codes "lamp on" ∷ [])
      frozen
      frozen_counts
compose-IsMixed_example =
    compose-IsMixed still ascii fractions str_le pools (codes "no pay" ∷ []) (codes "lamp on" ∷ [])
      pool_weights 3407 frozen frozen_counts (("w4", protected_state) ∷ []) compose_run
