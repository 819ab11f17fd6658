-- ===== src/Dataset/Exclusion.antt =====
-- What the records of the dataset are taken from.
use pocket_agents_lab.Random.{Rng}
use pocket_agents_lab.Dataset.{
  Record, build_records, Parts, clean_queries, add_route, split_routes, build_dataset, Text,
  contains,
}
use pocket_agents_lab.Prelude.{
  ap, refl, ℕ, [], ◌∷◌, ◌++◌, ◌+◌, String, List, list_Eq, nat_Eq, take, drop, if◌then◌else◌, sum_of,
  Text, ◌≡◌, ◌≤◌, contains, arith, members, sum_of-append, Perm-sum_of, sum_of-take-drop, ap,
  drop-drop,
}

abbrev pub records_of : Parts → List Record
records_of parts = parts.train ++ (parts.calibration ++ parts.test)

build_records-sum :
    (f : String → ℕ) (route : String) (prompts : List String) (split : String) (start_idx : ℕ)
    → sum_of (λ rec. f rec.state) (build_records route prompts split start_idx) ≡ sum_of f prompts
unfolding build_records
build_records-sum f route [] split start_idx = refl
build_records-sum f route (p ∷ prompts) split start_idx =
    omega (arith, build_records-sum f route prompts split (start_idx + 1))

add_route-sum :
    (f : String → ℕ) (route : String) (clean : List String) (rest : Parts)
    → sum_of (λ rec. f rec.state) (records_of (add_route route clean rest))
      ≤ sum_of f clean + sum_of (λ rec. f rec.state) (records_of rest)
unfolding add_route
add_route-sum f route clean rest =
    let g : Record → ℕ = λ rec. f rec.state in
    let train = build_records route (take 100 clean) "train" 0 in
    let calibration = build_records route (take 10 (drop 100 clean)) "calibration" 0 in
    let test = build_records route (take 10 (drop 110 clean)) "test" 0 in
    omega (
      arith,
      sum_of-append g (train ++ rest.train)
          ((calibration ++ rest.calibration) ++ (test ++ rest.test)),
      sum_of-append g (calibration ++ rest.calibration) (test ++ rest.test),
      sum_of-append g train rest.train,
      sum_of-append g calibration rest.calibration,
      sum_of-append g test rest.test,
      sum_of-append g rest.train (rest.calibration ++ rest.test),
      sum_of-append g rest.calibration rest.test,
      build_records-sum f route (take 100 clean) "train" 0,
      build_records-sum f route (take 10 (drop 100 clean)) "calibration" 0,
      build_records-sum f route (take 10 (drop 110 clean)) "test" 0,
      sum_of-take-drop f 100 clean,
      sum_of-take-drop f 10 (drop 100 clean),
      sum_of-take-drop f 10 (drop 110 clean),
      ap (sum_of f) (drop-drop 100 10 clean),
    )

module _ (norm : String → Text) (dev_prompts : List Text) where
  -- The number of copies of a query that the exclusion leaves.
  abbrev pub admitted : (String → ℕ) → String → ℕ
  admitted f q = if contains (norm q) dev_prompts then 0 else f q

  clean_queries-sum :
      (f : String → ℕ) (queries : List String)
      → sum_of f (clean_queries norm dev_prompts queries) ≡ sum_of (admitted f) queries
  unfolding clean_queries
  clean_queries-sum f [] = refl
  clean_queries-sum f (q ∷ queries) = ground (arith, clean_queries-sum f queries)

module _ (r : Rng) (norm : String → Text) (dev_prompts : List Text) where
  split_routes-sum :
      (f : String → ℕ) (s : r.State) (routes : List (String × List String))
      → sum_of (λ rec. f rec.state) (records_of (split_routes r norm dev_prompts s routes).0)
        ≤ sum_of (admitted norm dev_prompts f) (members routes)
  unfolding split_routes
  split_routes-sum f s [] = omega arith
  split_routes-sum f s ((route, queries) ∷ routes) =
      let (clean, s₁) = r.shuffle String s (clean_queries norm dev_prompts queries) in
      omega (
        arith,
        split_routes-sum f s₁ routes,
        add_route-sum f route clean (split_routes r norm dev_prompts s₁ routes).0,
        Perm-sum_of f (r.shuffle-perm String s (clean_queries norm dev_prompts queries)),
        clean_queries-sum norm dev_prompts f queries,
        sum_of-append (admitted norm dev_prompts f) queries (members routes),
      )

  -- The three parts take no query more often, in all, than it stands in the lists of the routes,
  -- and take none whose normal form is a development prompt's.
  pub build_dataset-excludes :
      (queries : List (String × List String)) (f : String → ℕ)
      → sum_of (λ rec. f rec.state) (records_of (build_dataset r norm dev_prompts queries))
        ≤ sum_of (λ q. if contains (norm q) dev_prompts then 0 else f q) (members queries)
  unfolding build_dataset
  build_dataset-excludes queries f =
      let g : Record → ℕ = λ rec. f rec.state in
      let (parts, s) = split_routes r norm dev_prompts (r.seeded 3407) queries in
      let (train, s₁) = r.shuffle Record s parts.train in
      let calibration = (r.shuffle Record s₁ parts.calibration).0 in
      omega (
        arith,
        split_routes-sum f (r.seeded 3407) queries,
        Perm-sum_of g (r.shuffle-perm Record s parts.train),
        Perm-sum_of g (r.shuffle-perm Record s₁ parts.calibration),
        sum_of-append g train (calibration ++ parts.test),
        sum_of-append g calibration parts.test,
        sum_of-append g parts.train (parts.calibration ++ parts.test),
        sum_of-append g parts.calibration parts.test,
      )
