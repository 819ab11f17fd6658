-- ===== src/Dataset.antt =====
-- tools/build_phone_routing_dataset.py: the exclusion of the development prompts, the split of each
-- route's queries and the records. The normal form `q.strip().lower()` is a parameter, and so are the
-- queries. Of a record the members that its route alone determines (questions, gold, probabilities)
-- are left out, and its id is kept as its number.
pub mod Exclusion
pub mod Sizes
pub mod Queries
use pocket_agents_lab.Random.{Rng}
use pocket_agents_lab.Prelude.{
  ℕ, ◌+◌, String, List, [], ◌∷◌, ◌++◌, take, drop, contains, not, keep_if, Text, list_Eq, nat_Eq,
}

pub record Record : Type 0 where
  pub number : ℕ
  pub split : String
  pub state : String
  pub route_label : String

pub build_records : String → List String → String → ℕ → List Record
build_records route [] split start_idx = []
build_records route (prompt ∷ prompts) split start_idx =
    record { number = start_idx; split = split; state = prompt; route_label = route }
    ∷ build_records route prompts split (start_idx + 1)

-- `all_train`, `all_calib` and `all_test`.
pub record Parts : Type 0 where
  pub train : List Record
  pub calibration : List Record
  pub test : List Record

module _ (norm : String → Text) where
  -- The queries of a route that match no development prompt.
  pub clean_queries : List Text → List String → List String
  unfolding contains
  clean_queries dev_prompts queries = keep_if (λ q. not (contains (norm q) dev_prompts)) queries

-- clean[:100], clean[100:110] and clean[110:120], in front of the records of the later routes.
pub add_route : String → List String → Parts → Parts
unfolding build_records
add_route route clean rest = record {
  train = build_records route (take 100 clean) "train" 0 ++ rest.train;
  calibration = build_records route (take 10 (drop 100 clean)) "calibration" 0 ++ rest.calibration;
  test = build_records route (take 10 (drop 110 clean)) "test" 0 ++ rest.test;
}

module _ (r : Rng) (norm : String → Text) (dev_prompts : List Text) where
  -- The loop over the routes.
  pub split_routes : r.State → List (String × List String) → Parts × r.State
  unfolding clean_queries add_route
  split_routes s [] = (record { train = []; calibration = []; test = [] }, s)
  split_routes s ((route, queries) ∷ routes) =
      let (clean, s₁) = r.shuffle String s (clean_queries norm dev_prompts queries) in
      let (rest, s₂) = split_routes s₁ routes in (add_route route clean rest, s₂)

  -- The parts as they are written: the first two are shuffled.
  pub build_dataset : List (String × List String) → Parts
  unfolding split_routes
  build_dataset queries =
      let (parts, s) = split_routes (r.seeded 3407) queries in
      let (train, s₁) = r.shuffle Record s parts.train in
      let (calibration, _) = r.shuffle Record s₁ parts.calibration in
      record { train = train; calibration = calibration; test = parts.test }
