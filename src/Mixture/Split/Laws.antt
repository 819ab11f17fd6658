-- ===== src/Mixture/Split/Laws.antt =====
-- What a stratified split keeps.
use pocket_agents_lab.Random.{Rng}
use pocket_agents_lab.Mixture.{guarded-eq-ok, insufficient, Row, ok}
use pocket_agents_lab.Mixture.Split.{
  Splits, val_size, calibration_size, slices, by_id, split_groups, sorted_groups, stratified_split,
}
use pocket_agents_lab.Prelude.{
  ℕ, ◌+◌, ◌<◌, ◌≡◌, ap, String, List, [], ◌∷◌, ◌++◌, leb, length, take, drop, sort_by-perm, Groups,
  members, string_Eq, sum_of, Perm-sum_of, sum_of-append, sum_of-take-drop, drop-drop, Rearranges,
  arith, ◌∙◌, sorted_group_by-Rearranges,
}

-- All rows of a split.
abbrev pub all_rows : Splits → List Row
all_rows s = s.train ++ (s.val ++ s.calibration)

slices-sum :
    (f : Row → ℕ) (group : List Row) (nv nc : ℕ) (rest : Splits)
    → sum_of f (all_rows (slices group nv nc rest)) ≡ sum_of f group + sum_of f (all_rows rest)
slices-sum f group nv nc rest = omega (
  arith,
  ap (sum_of f) (drop-drop nv nc group),
  sum_of-take-drop f nv group,
  sum_of-take-drop f nc (drop nv group),
  sum_of-append f (drop (nv + nc) group ++ rest.train)
      ((take nv group ++ rest.val) ++ (take nc (drop nv group) ++ rest.calibration)),
  sum_of-append f (drop (nv + nc) group) rest.train,
  sum_of-append f (take nv group ++ rest.val) (take nc (drop nv group) ++ rest.calibration),
  sum_of-append f (take nv group) rest.val,
  sum_of-append f (take nc (drop nv group)) rest.calibration,
  sum_of-append f rest.train (rest.val ++ rest.calibration),
  sum_of-append f rest.val rest.calibration,
)

-- A successful step over one group: the sizes fit, and the later groups succeeded.
module _ (r : Rng) where
  abbrev pub shuffled : r.State → List Row → List Row
  shuffled s rows = (r.shuffle Row s (by_id rows)).0

  abbrev pub later : r.State → List Row → r.State
  later s rows = (r.shuffle Row s (by_id rows)).1

  pub sum_of-shuffled :
      (f : Row → ℕ) (s : r.State) (rows : List Row) → sum_of f (shuffled s rows) ≡ sum_of f rows
  sum_of-shuffled f s rows =
      Perm-sum_of f (r.shuffle-perm Row s (by_id rows)) ∙ Perm-sum_of f (sort_by-perm _ rows)

  pub record Inverted (s : r.State) (rows : List Row) (groups : Groups String Row) (splits : Splits)
      : Type 0 where
    pub rest : Splits
    pub succeeded : split_groups r (later s rows) groups ≡ ok rest
    pub fits :
        val_size (length (shuffled s rows)) + calibration_size (length (shuffled s rows))
        < length (shuffled s rows)
    pub sliced :
        splits
        ≡ slices
            (shuffled s rows)
            (val_size (length (shuffled s rows)))
            (calibration_size (length (shuffled s rows)))
            rest

  pub split_groups-cons :
      (s : r.State) (label : String) (rows : List Row) (groups : Groups String Row)
      (splits : Splits)
      → split_groups r s ((label, rows) ∷ groups) ≡ ok splits
      → Inverted s rows groups splits
  unfolding split_groups
  split_groups-cons s label rows groups splits e =
      let group = shuffled s rows in
      let nv = val_size (length group) in
      let nc = calibration_size (length group) in
      let (rest, room, done, sliced) =
        guarded-eq-ok (leb (length group) (nv + nc)) (insufficient label)
          (split_groups r (later s rows) groups) (slices group nv nc) e in
      record { rest = rest; succeeded = done; fits = ground arith; sliced = sliced }

  pub split_groups-sum :
      (f : Row → ℕ) (s : r.State) (groups : Groups String Row) (splits : Splits)
      → split_groups r s groups ≡ ok splits
      → sum_of f (all_rows splits) ≡ sum_of f (members groups)
  split_groups-sum f s [] splits e = unfold split_groups in ground arith
  split_groups-sum f s ((label, rows) ∷ groups) splits e =
      let v = split_groups-cons s label rows groups splits e in
      rw v.sliced (
        omega (
          arith,
          slices-sum f (shuffled s rows) (val_size (length (shuffled s rows)))
              (calibration_size (length (shuffled s rows))) v.rest,
          sum_of-shuffled f s rows,
          split_groups-sum f (later s rows) groups v.rest v.succeeded,
          sum_of-append f rows (members groups),
        ))

  sum_of-sorted_groups :
      (f : Row → ℕ) (rows : List Row) → sum_of f (members (sorted_groups r rows)) ≡ sum_of f rows
  sum_of-sorted_groups f rows = sorted_group_by-Rearranges _ _ rows f

  -- A stratified split that succeeds is a rearrangement of the rows: every row goes into exactly
  -- one of the three parts, as often as it was given.
  pub stratified_split-Rearranges :
      (rows : List Row) (seed : ℕ) (splits : Splits)
      → stratified_split r rows seed ≡ ok splits
      → Rearranges (all_rows splits) rows
  unfolding stratified_split
  stratified_split-Rearranges rows seed splits e f =
      split_groups-sum f (r.seeded seed) (sorted_groups r rows) splits e
      ∙ sum_of-sorted_groups f rows
