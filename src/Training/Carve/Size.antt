-- ===== src/Training/Carve/Size.antt =====
-- The number of validation rows.
use pocket_agents_lab.Random.{Rng}
use pocket_agents_lab.Training.Carve.{carve_routes, sorted_routes, carve_validation, carve_evenly}
use pocket_agents_lab.Training.Carve.Partition.{shares, shares-sum, carve_validation-run}
use pocket_agents_lab.Prelude.{
  ◌≡◌, ◌≤◌, ◌/◌, ◌%◌, ℕ, String, List, length, [], ◌∷◌, ◌++◌, ◌+◌, ◌*◌, some, take, ℕ, Eq, Groups,
  String, All, List, ◌≤◌, ◌/◌, length, ◌≡◌, arith, Rearranges, Perm-length, length-take,
  length-append, length-sum_of_one, ap, sum_of, sum_of-append,
}

module _ (r : Rng) (Row : Type 0) where
  -- Routes with enough rows give the same number each.
  carve_routes-size :
      (s : r.State) (per_route : ℕ) (groups : Groups String Row)
      → All (λ g. per_route ≤ length g.1) groups
      → length (carve_routes r Row s per_route groups).0 ≡ per_route * length groups
  unfolding carve_routes
  carve_routes-size s per_route [] a = omega arith
  carve_routes-size s per_route ((name, rows) ∷ groups) a =
      let (pool, s₁) = r.shuffle Row s rows in
      omega (
        arith,
        a.0,
        carve_routes-size s₁ per_route groups a.1,
        Perm-length (r.shuffle-perm Row s rows),
        length-take per_route pool,
        length-append (take per_route pool) (carve_routes r Row s₁ per_route groups).0,
      )

module _ (r : Rng) (Row : Type 0) ⦃e : Eq Row⦄ (route : Row → String) where
  shares-length :
      (rows : List Row) (val_size seed : ℕ)
      → length (shares r Row route rows val_size seed).0
          + length (shares r Row route rows val_size seed).1
        ≡ length rows
  shares-length rows val_size seed = omega (
    arith,
    shares-sum r Row route (λ _. 1) rows val_size seed,
    length-sum_of_one rows,
    length-sum_of_one (shares r Row route rows val_size seed).0,
    length-sum_of_one (shares r Row route rows val_size seed).1,
  )

  -- If every route has its share of rows, and there are rows enough in all, the carve of
  -- train_phone_routing has exactly `val_size` validation rows.
  pub carve_validation-size :
      (row : Row) (rows : List Row) (val_size seed : ℕ) (out : List Row × List Row)
      → All
          (λ g. val_size / length (sorted_routes Row route (row ∷ rows)) ≤ length g.1)
          (sorted_routes Row route (row ∷ rows))
      → val_size ≤ length (row ∷ rows)
      → carve_validation r Row route (row ∷ rows) val_size seed ≡ some out
      → length out.1 ≡ val_size
  carve_validation-size row rows val_size seed out enough fits h =
      let n = length (sorted_routes Row route (row ∷ rows)) in
      let (out', done, _, size) = carve_validation-run r Row route row rows val_size seed in
      let same : out ≡ out' = cc (h, done) in
      let even =
        carve_routes-size r Row (r.seeded seed) (val_size / n)
          (sorted_routes Row route (row ∷ rows)) enough in
      omega (
        arith,
        ap (λ o. length o.1) same,
        size,
        even,
        fits,
        shares-length (row ∷ rows) val_size seed,
      )

  -- If every route has its share of rows, the carve of train_combined_routing has only as many
  -- validation rows as the routes divide evenly: it leaves the remainder of `val_size` out. Its
  -- two parts are together a rearrangement of the rows.
  pub carve_evenly-size :
      (row : Row) (rows : List Row) (val_size seed : ℕ) (out : List Row × List Row)
      → All
          (λ g. val_size / length (sorted_routes Row route (row ∷ rows)) ≤ length g.1)
          (sorted_routes Row route (row ∷ rows))
      → carve_evenly r Row route (row ∷ rows) val_size seed ≡ some out
      → (length out.1 + val_size % length (sorted_routes Row route (row ∷ rows)) ≡ val_size)
        × Rearranges (out.0 ++ out.1) (row ∷ rows)
  unfolding carve_evenly
  carve_evenly-size row rows val_size seed out enough h =
      let groups = sorted_routes Row route (row ∷ rows) in
      let even = carve_routes-size r Row (r.seeded seed) (val_size / length groups) groups enough in
      let carved = shares r Row route (row ∷ rows) val_size seed in
      let same : out ≡ (carved.1, carved.0) = ground (arith, h) in
      (
        omega (arith, ap (λ o. length o.1) same, even),
        λ g. omega (
          arith,
          ap (λ o. sum_of g (o.0 ++ o.1)) same,
          shares-sum r Row route g (row ∷ rows) val_size seed,
          sum_of-append g carved.1 carved.0,
        ),
      )
