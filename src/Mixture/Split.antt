-- ===== src/Mixture/Split.antt =====
-- `stratified_split` of tools/prepare_general_mixture.py. The fractions .10 and .05 of a group are
-- taken by `round_ratio`: for the sizes in question the float product and its rounding are exact.
pub mod Laws
pub mod Classes
pub mod Success
use pocket_agents_lab.Prelude.{
  ℕ, ◌+◌, ◌≤◌, Bool, String, List, [], ◌∷◌, ◌++◌, leb, max, length, take, drop, sort_by, Groups,
  group_by, string_Eq, if◌then◌else◌,
}
use pocket_agents_lab.Random.{Rng}
use pocket_agents_lab.Mixture.{
  Row, Error, insufficient, Result, ok, raise, ◌>>=◌, str_le, round_ratio,
}

pub record Splits : Type 0 where
  pub train : List Row
  pub val : List Row
  pub calibration : List Row

-- max(1, round(len(group) * .10)) and max(1, round(len(group) * .05))
pub val_size : ℕ → ℕ
unfolding round_ratio
val_size n = max 1 (round_ratio n 10)

pub calibration_size : ℕ → ℕ
unfolding round_ratio
calibration_size n = max 1 (round_ratio n 20)

-- The three slices of a shuffled group, in front of those of the later groups.
abbrev pub slices : List Row → ℕ → ℕ → Splits → Splits
slices group nv nc rest = record {
  train = drop (nv + nc) group ++ rest.train;
  val = take nv group ++ rest.val;
  calibration = take nc (drop nv group) ++ rest.calibration;
}

abbrev pub by_id : List Row → List Row
by_id = sort_by (λ r s. str_le r.id s.id)

module _ (r : Rng) where
  -- The loop over the sorted groups.
  pub split_groups : r.State → Groups String Row → Result Splits
  unfolding val_size calibration_size
  split_groups s [] = ok (record { train = []; val = []; calibration = [] })
  split_groups s ((label, rows) ∷ groups) =
      let (group, s') = r.shuffle Row s (by_id rows) in
      let n = length group in
      let nv = val_size n in
      let nc = calibration_size n in
      let rest = split_groups s' groups in
      if leb n (nv + nc)
      then raise (insufficient label)
      else (do splits ← rest; ok (slices group nv nc splits))

  abbrev pub sorted_groups : List Row → Groups String Row
  sorted_groups rows = sort_by (λ g h. str_le g.0 h.0) (group_by (λ row. row.route_label) rows)

  unfoldable pub stratified_split : List Row → ℕ → Result Splits
  unfolding split_groups
  stratified_split rows seed = split_groups (r.seeded seed) (sorted_groups rows)
