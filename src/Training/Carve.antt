-- ===== src/Training/Carve.antt =====
-- `carve_validation` of tools/train_phone_routing.py (`carve_validation`) and of
-- tools/train_combined_routing.py (`carve_evenly`). `none` stands for an exception: a division by
-- no routes, or the removal of a row that is not there.
pub mod Partition
pub mod Size
use mathlib.Core.Option
use pocket_agents_lab.Random.{Rng}
use pocket_agents_lab.Mixture.{str_le}
use pocket_agents_lab.Prelude.{
  ℕ, ◌-◌, ◌*◌, ◌/◌, Option, none, some, String, List, [], ◌∷◌, ◌++◌, length, take, drop, ltb, Eq,
  ◌=?◌, if◌then◌else◌, Groups, group_by, sort_by, string_Eq,
}

module _ (r : Rng) (Row : Type 0) where
  -- The loop over the routes: `val_rows`, `keep_rows` and the generator.
  pub carve_routes : r.State → ℕ → Groups String Row → List Row × List Row × r.State
  carve_routes s per_route [] = ([], [], s)
  carve_routes s per_route ((_, rows) ∷ groups) =
      let (pool, s₁) = r.shuffle Row s rows in
      let (val_rows, keep_rows, s₂) = carve_routes s₁ per_route groups in
      (take per_route pool ++ val_rows, drop per_route pool ++ keep_rows, s₂)

module _ (Row : Type 0) (route : Row → String) where
  abbrev pub sorted_routes : List Row → Groups String Row
  sorted_routes rows = sort_by (λ g h. str_le g.0 h.0) (group_by route rows)

-- xs.remove(x), `none` where there is no such element
pub remove {ℓ} : {A : Type ℓ} ⦃e : Eq A⦄ → A → List A → Option (List A)
remove x [] = none
remove x (y ∷ ys) =
    let rest = Option.map (λ zs. y ∷ zs) (remove x ys) in if x =? y then some ys else rest

-- The loop that distributes the remainder: the rows that are kept, and `val_rows`.
pub move_rows {ℓ} : {A : Type ℓ} ⦃e : Eq A⦄ → List A → List A → List A → Option (List A × List A)
unfolding remove
move_rows [] keep_rows val_rows = some (keep_rows, val_rows)
move_rows (row ∷ rows) keep_rows val_rows = elim (remove row keep_rows) [
  | none ↦ none
  | some keep ↦ move_rows rows keep (val_rows ++ row ∷ [])
]

module _ (r : Rng) (Row : Type 0) ⦃e : Eq Row⦄ (route : Row → String) where
  pub distribute : ℕ → List Row × List Row × r.State → Option (List Row × List Row)
  unfolding move_rows
  distribute extra (val_rows, keep_rows, s) =
      if ltb 0 extra
      then move_rows (take extra (r.shuffle Row s keep_rows).0) keep_rows val_rows
      else some (keep_rows, val_rows)

  -- `carve_validation` of train_phone_routing: the rows that remain, and the validation rows.
  unfoldable pub carve_validation : List Row → ℕ → ℕ → Option (List Row × List Row)
  unfolding carve_routes distribute
  carve_validation [] val_size seed = none
  carve_validation (row ∷ rows) val_size seed =
      let groups = sorted_routes Row route (row ∷ rows) in
      let per_route = val_size / length groups in
      distribute (val_size - per_route * length groups)
        (carve_routes r Row (r.seeded seed) per_route groups)

  -- `carve_validation` of train_combined_routing, which has no remainder.
  unfoldable pub carve_evenly : List Row → ℕ → ℕ → Option (List Row × List Row)
  unfolding carve_routes
  carve_evenly [] val_size seed = none
  carve_evenly (row ∷ rows) val_size seed =
      let groups = sorted_routes Row route (row ∷ rows) in
      let (val_rows, keep_rows, s) =
        carve_routes r Row (r.seeded seed) (val_size / length groups) groups in
      some (keep_rows, val_rows)
