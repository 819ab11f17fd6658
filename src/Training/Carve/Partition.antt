-- ===== src/Training/Carve/Partition.antt =====
-- The carves lose no row and take none twice, and succeed.
use pocket_agents_lab.Random.{Rng}
use pocket_agents_lab.Training.Carve.{
  carve_routes, remove, move_rows, distribute, carve_validation, sorted_routes,
}
use pocket_agents_lab.Prelude.{
  string_Eq, zero, suc, ◌*◌, refl, [], ◌∷◌, ◌++◌, ◌+◌, take, drop, if◌then◌else◌, some, Eq, List, ℕ,
  sum_of, ◌=?◌, Groups, ◌≡◌, ◌<◌, ◌≤◌, String, Bool-cases, arith, length, members, inl,
  sum_of-append, Perm-sum_of, inr, length-append, sum_of-take-drop, take, ap, Option-cases, min,
  Rearranges, suc, Perm-length, ◌/◌, length-take, ◌-◌, ◌*◌, ◌∙◌, sorted_group_by-Rearranges, ltb,
  true,
}

module _ (r : Rng) (Row : Type 0) where
  carve_routes-sum :
      (g : Row → ℕ) (s : r.State) (per_route : ℕ) (groups : Groups String Row)
      → sum_of g (carve_routes r Row s per_route groups).0
          + sum_of g (carve_routes r Row s per_route groups).1
        ≡ sum_of g (members groups)
  unfolding carve_routes
  carve_routes-sum g s per_route [] = refl
  carve_routes-sum g s per_route ((name, rows) ∷ groups) =
      let (pool, s₁) = r.shuffle Row s rows in
      omega (
        arith,
        carve_routes-sum g s₁ per_route groups,
        Perm-sum_of g (r.shuffle-perm Row s rows),
        sum_of-take-drop g per_route pool,
        sum_of-append g (take per_route pool) (carve_routes r Row s₁ per_route groups).0,
        sum_of-append g (drop per_route pool) (carve_routes r Row s₁ per_route groups).1,
        sum_of-append g rows (members groups),
      )

module _ {A : Type 0} ⦃e : Eq A⦄ where
  remove-sum :
      (g : A → ℕ) (x : A) (ys zs : List A) → remove x ys ≡ some zs → sum_of g ys ≡ g x + sum_of g zs
  unfolding remove
  remove-sum g x [] zs h = cc
  remove-sum g x (y ∷ ys) zs h = elim (Bool-cases (x =? y)) [
    | inl same ↦
        let rest : ys ≡ zs = ground (arith, h, same) in
        omega (arith, ap (sum_of g) rest, ap g ((e.equal_iff x y).0 same))
    | inr other ↦ elim (Option-cases (remove x ys)) [
      | inl missing ↦ absurd (ground (arith, h, other, missing))
      | inr (ws, found) ↦
          let rest : y ∷ ws ≡ zs = ground (arith, h, other, found) in
          omega (arith, ap (sum_of g) rest, remove-sum g x ys ws found)
    ]
  ]

  -- The number of copies of a row.
  abbrev copies : A → List A → ℕ
  copies x = sum_of (λ y. if x =? y then 1 else 0)

  remove-succeeds :
      (x : A) (ys : List A) → 0 < copies x ys → (zs : List A) × (remove x ys ≡ some zs)
  unfolding remove
  remove-succeeds x [] pos = absurd (omega arith)
  remove-succeeds x (y ∷ ys) pos = elim (Bool-cases (x =? y)) [
    | inl same ↦ (ys, rw same refl)
    | inr other ↦
        let (zs, p) = remove-succeeds x ys (ground (arith, pos, other)) in
        (y ∷ zs, rw other (rw p refl))
  ]

  -- Rows that are all there can be moved, and nothing else changes.
  move_rows-total :
      (rows keep_rows val_rows : List A)
      → ((x : A) → copies x rows ≤ copies x keep_rows)
      → (out : List A × List A) × (move_rows rows keep_rows val_rows ≡ some out)
        × ((g : A → ℕ) → sum_of g out.0 + sum_of g out.1 ≡ sum_of g keep_rows + sum_of g val_rows)
        × (length out.1 ≡ length val_rows + length rows)
  unfolding move_rows
  move_rows-total [] keep_rows val_rows fits = ((keep_rows, val_rows), refl, λ g. refl, omega arith)
  move_rows-total (row ∷ rows) keep_rows val_rows fits =
      let self : copies row (row ∷ []) ≡ 1 = ground (arith, e.equal_iff row row) in
      let (zs, removed) = remove-succeeds row keep_rows (omega (arith, fits row, self)) in
      let (out, moved, sums, size) = move_rows-total rows zs (val_rows ++ row ∷ []) (λ x.
        omega
          (arith, fits x, remove-sum (λ y. if x =? y then 1 else 0) row keep_rows zs removed)) in
      (
        out,
        rw (move_rows, removed) moved,
        λ g. omega (
          arith,
          sums g,
          remove-sum g row keep_rows zs removed,
          sum_of-append g val_rows (row ∷ []),
        ),
        omega (arith, size, length-append val_rows (row ∷ [])),
      )

module _ (r : Rng) (Row : Type 0) ⦃e : Eq Row⦄ (route : Row → String) where
  -- The distribution of the remainder succeeds and moves as many rows as there are to move.
  distribute-total :
      (extra : ℕ) (carved : List Row × List Row × r.State)
      → (out : List Row × List Row) × (distribute r Row route extra carved ≡ some out)
        × ((g : Row → ℕ) → sum_of g out.0 + sum_of g out.1 ≡ sum_of g carved.0 + sum_of g carved.1)
        × (length out.1 ≡ length carved.0 + min extra (length carved.1))
  unfolding distribute
  distribute-total zero (val_rows, keep_rows, s) =
      ((keep_rows, val_rows), refl, λ g. omega arith, omega arith)
  distribute-total (suc n) (val_rows, keep_rows, s) =
      let (leftover, s') = r.shuffle Row s keep_rows in
      let perm = r.shuffle-perm Row s keep_rows in
      let (out, moved, sums, size) =
        move_rows-total (take (suc n) leftover) keep_rows val_rows (λ x. omega (
          arith,
          Perm-sum_of (λ y. if x =? y then 1 else 0) perm,
          sum_of-take-drop (λ y. if x =? y then 1 else 0) (suc n) leftover,
        )) in
      let some_left : ltb 0 (suc n) ≡ true = ground arith in
      (
        out,
        rw some_left moved,
        λ g. omega (arith, sums g),
        omega (arith, size, Perm-length perm, length-take (suc n) leftover),
      )

  -- The rows of the routes' shares, and those left, before the remainder is distributed.
  abbrev pub shares : List Row → ℕ → ℕ → List Row × List Row × r.State
  shares rows val_size seed =
      let groups = sorted_routes Row route rows in
      carve_routes r Row (r.seeded seed) (val_size / length groups) groups

  abbrev pub remainder : List Row → ℕ → ℕ
  remainder rows val_size =
      let n = length (sorted_routes Row route rows) in val_size - (val_size / n) * n

  pub shares-sum :
      (g : Row → ℕ) (rows : List Row) (val_size seed : ℕ)
      → sum_of g (shares rows val_size seed).0 + sum_of g (shares rows val_size seed).1
        ≡ sum_of g rows
  shares-sum g rows val_size seed =
      let groups = sorted_routes Row route rows in
      carve_routes-sum r Row g (r.seeded seed) (val_size / length groups) groups
      ∙ sorted_group_by-Rearranges route _ rows g

  pub carve_validation-run :
      (row : Row) (rows : List Row) (val_size seed : ℕ)
      → (out : List Row × List Row) × (carve_validation r Row route (row ∷ rows) val_size seed
          ≡ some out)
        × Rearranges (out.0 ++ out.1) (row ∷ rows)
        × (length out.1
            ≡ length (shares (row ∷ rows) val_size seed).0
              + min
                  (remainder (row ∷ rows) val_size)
                  (length (shares (row ∷ rows) val_size seed).1))
  unfolding carve_validation
  carve_validation-run row rows val_size seed =
      let (out, done, sums, size) =
        distribute-total (remainder (row ∷ rows) val_size) (shares (row ∷ rows) val_size seed) in
      (
        out,
        done,
        λ g.
            omega
              (arith, sums g, sum_of-append g out.0 out.1, shares-sum g (row ∷ rows) val_size seed),
        size,
      )

  -- The carve of train_phone_routing succeeds on any rows but none, and its two parts are together
  -- a rearrangement of the rows.
  pub carve_validation-Rearranges :
      (row : Row) (rows : List Row) (val_size seed : ℕ)
      → (out : List Row × List Row) × (carve_validation r Row route (row ∷ rows) val_size seed
          ≡ some out)
        × Rearranges (out.0 ++ out.1) (row ∷ rows)
  carve_validation-Rearranges row rows val_size seed =
      let (out, done, parts, _) = carve_validation-run row rows val_size seed in (out, done, parts)
