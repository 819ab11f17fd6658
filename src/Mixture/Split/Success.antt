-- ===== src/Mixture/Split/Success.antt =====
-- When a stratified split is refused.
use pocket_agents_lab.Random.{Rng}
use pocket_agents_lab.Mixture.{Row, ok}
use pocket_agents_lab.Mixture.Split.{
  Splits, val_size, calibration_size, slices, split_groups, sorted_groups, stratified_split,
}
use pocket_agents_lab.Mixture.Split.Laws.{shuffled, later, split_groups-cons}
use pocket_agents_lab.Mixture.Split.Classes.{length-shuffled}
use pocket_agents_lab.Prelude.{
  ℕ, ◌+◌, ◌≤◌, ◌<◌, ◌≡◌, ◌↔◌, refl, String, List, [], ◌∷◌, length, Groups, All, arith,
}

-- The shares leave a row for training exactly in groups of three or more.
room_iff : (n : ℕ) → (val_size n + calibration_size n < n) ↔ (3 ≤ n)
unfolding val_size calibration_size
room_iff n = (λ h. ground arith, λ h. ground arith)

module _ (r : Rng) where
  split_groups-succeeds :
      (s : r.State) (groups : Groups String Row)
      → All (λ g. 3 ≤ length g.1) groups
      → (splits : Splits) × (split_groups r s groups ≡ ok splits)
  unfolding split_groups
  split_groups-succeeds s [] a = (record { train = []; val = []; calibration = [] }, refl)
  split_groups-succeeds s ((label, rows) ∷ groups) a =
      let (rest, done) = split_groups-succeeds (later r s rows) groups a.1 in
      let group = shuffled r s rows in
      let fits = (room_iff (length group)).1 (omega (arith, a.0, length-shuffled r label s rows)) in
      (
        slices group (val_size (length group)) (calibration_size (length group)) rest,
        ground (arith, fits),
      )

  split_groups-needs :
      (s : r.State) (groups : Groups String Row) (splits : Splits)
      → split_groups r s groups ≡ ok splits
      → All (λ g. 3 ≤ length g.1) groups
  split_groups-needs s [] splits e = tt
  split_groups-needs s ((label, rows) ∷ groups) splits e =
      let v = split_groups-cons r s label rows groups splits e in
      (
        omega (
          arith,
          (room_iff (length (shuffled r s rows))).0 v.fits,
          length-shuffled r label s rows,
        ),
        split_groups-needs (later r s rows) groups v.rest v.succeeded,
      )

  -- A stratified split succeeds exactly when every label that occurs has at least three rows.
  pub stratified_split-succeeds_iff :
      (rows : List Row) (seed : ℕ)
      → ((splits : Splits) × (stratified_split r rows seed ≡ ok splits))
        ↔ All (λ g. 3 ≤ length g.1) (sorted_groups r rows)
  unfolding stratified_split
  stratified_split-succeeds_iff rows seed = (
    λ p. split_groups-needs (r.seeded seed) (sorted_groups r rows) p.0 p.1,
    split_groups-succeeds (r.seeded seed) (sorted_groups r rows),
  )
