-- ===== src/Dataset/Sizes.antt =====
-- The numbers of records of the dataset.
use pocket_agents_lab.Random.{Rng}
use pocket_agents_lab.Dataset.{
  Record, build_records, clean_queries, add_route, split_routes, build_dataset, Text,
}
use pocket_agents_lab.Prelude.{
  ◌*◌, ◌++◌, ap, ◌∙◌, Perm-sum_of, sum_of-append, length-take, length-drop, refl, ℕ, [], ◌∷◌, ◌+◌,
  ◌-◌, min, String, List, take, drop, length, Text, ◌≡◌, arith, sum_of, Perm-length, length-take,
}

-- A weight for each record, by its split and its route.
abbrev pub weigh : (String → String → ℕ) → Record → ℕ
weigh f rec = f rec.split rec.route_label

build_records-weight :
    (f : String → String → ℕ) (route : String) (prompts : List String) (split : String)
    (start_idx : ℕ)
    → sum_of (weigh f) (build_records route prompts split start_idx)
      ≡ length prompts * f split route
unfolding build_records
build_records-weight f route [] split start_idx = omega arith
build_records-weight f route (p ∷ prompts) split start_idx =
    omega (arith, build_records-weight f route prompts split (start_idx + 1))

-- The number of a route's queries that are not excluded.
abbrev pub clean_count : (String → Text) → List Text → String × List String → ℕ
clean_count norm dev_prompts q = length (clean_queries norm dev_prompts q.1)

module _ (f : String → String → ℕ) where
  -- A slice of a route's queries, in front of the records of the other routes.
  slice-weight :
      (route : String) (prompts : List String) (split : String) (n : ℕ) (rest : List Record)
      → length prompts ≡ n
      → sum_of (weigh f) (build_records route prompts split 0 ++ rest)
        ≡ n * f split route + sum_of (weigh f) rest
  slice-weight route prompts split n rest size =
      rw
        (
          sum_of-append (weigh f) (build_records route prompts split 0) rest,
          build_records-weight f route prompts split 0,
          size,
        )
        refl

length-slice :
    (clean queries : List String) (from : ℕ)
    → length clean ≡ length queries
    → length (take 10 (drop from clean)) ≡ min 10 (length queries - from)
length-slice clean queries from same =
    omega (arith, same, length-drop from clean, length-take 10 (drop from clean))

module _ (r : Rng) (norm : String → Text) (dev_prompts : List Text) where
  split_routes-size :
      (f : String → String → ℕ) (s : r.State) (routes : List (String × List String))
      → (sum_of (weigh f) (split_routes r norm dev_prompts s routes).0.train
          ≡ sum_of (λ q. min 100 (clean_count norm dev_prompts q) * f "train" q.0) routes)
        × (sum_of (weigh f) (split_routes r norm dev_prompts s routes).0.calibration
            ≡ sum_of
                (λ q. min 10 (clean_count norm dev_prompts q - 100) * f "calibration" q.0)
                routes)
        × (sum_of (weigh f) (split_routes r norm dev_prompts s routes).0.test
            ≡ sum_of (λ q. min 10 (clean_count norm dev_prompts q - 110) * f "test" q.0) routes)
  unfolding split_routes add_route
  split_routes-size f s [] = (refl, refl, refl)
  split_routes-size f s ((route, queries) ∷ routes) =
      let admitted = clean_queries norm dev_prompts queries in
      let (clean, s₁) = r.shuffle String s admitted in
      let rest = (split_routes r norm dev_prompts s₁ routes).0 in
      let (train, calibration, test) = split_routes-size f s₁ routes in
      let same = Perm-length (r.shuffle-perm String s admitted) in
      let part = length-slice clean admitted in
      (
        slice-weight f route (take 100 clean) "train" (min 100 (length admitted)) rest.train
              (omega (arith, same, length-take 100 clean))
            ∙ ap (λ n. min 100 (length admitted) * f "train" route + n) train,
        slice-weight f route (take 10 (drop 100 clean)) "calibration"
              (min 10 (length admitted - 100)) rest.calibration (part 100 same)
            ∙ ap (λ n. min 10 (length admitted - 100) * f "calibration" route + n) calibration,
        slice-weight f route (take 10 (drop 110 clean)) "test" (min 10 (length admitted - 110))
              rest.test (part 110 same)
            ∙ ap (λ n. min 10 (length admitted - 110) * f "test" route + n) test,
      )

  -- Counted with any weight that depends on the split and the route of a record: of a route with n
  -- queries that are not excluded, min(100, n) records with this route are in the training part,
  -- the next 10, as far as there are so many, in the calibration part and the next 10 in the test
  -- part, and each part has no other records and only those of its split.
  pub build_dataset-sizes :
      (queries : List (String × List String)) (f : String → String → ℕ)
      → (sum_of (weigh f) (build_dataset r norm dev_prompts queries).train
          ≡ sum_of (λ q. min 100 (clean_count norm dev_prompts q) * f "train" q.0) queries)
        × (sum_of (weigh f) (build_dataset r norm dev_prompts queries).calibration
            ≡ sum_of
                (λ q. min 10 (clean_count norm dev_prompts q - 100) * f "calibration" q.0)
                queries)
        × (sum_of (weigh f) (build_dataset r norm dev_prompts queries).test
            ≡ sum_of (λ q. min 10 (clean_count norm dev_prompts q - 110) * f "test" q.0) queries)
  unfolding build_dataset
  build_dataset-sizes queries f =
      let (parts, s) = split_routes r norm dev_prompts (r.seeded 3407) queries in
      let sizes = split_routes-size f (r.seeded 3407) queries in
      let (train, s₁) = r.shuffle Record s parts.train in
      (
        omega (arith, sizes.0, Perm-sum_of (weigh f) (r.shuffle-perm Record s parts.train)),
        omega (arith, sizes.1, Perm-sum_of (weigh f) (r.shuffle-perm Record s₁ parts.calibration)),
        sizes.2,
      )
