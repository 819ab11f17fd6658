-- ===== src/Mixture/Split/Classes.antt =====
-- Every class of a stratified split has its shares of the three parts.
use pocket_agents_lab.Random.{Rng}
use pocket_agents_lab.Mixture.{Row, ok}
use pocket_agents_lab.Mixture.Split.{
  Splits, val_size, calibration_size, slices, split_groups, sorted_groups, stratified_split,
}
use pocket_agents_lab.Mixture.Split.Laws.{
  all_rows, shuffled, later, sum_of-shuffled, split_groups-cons, split_groups-sum,
}
use pocket_agents_lab.Prelude.{
  ℕ, ◌+◌, ◌≤◌, ◌<◌, ◌≡◌, ap, inl, inr, String, List, [], ◌∷◌, ◌++◌, length, take, drop, Groups,
  members, IsUniform, name_count, members_absent, sorted_group_by-IsUniform,
  sorted_group_by-Rearranges, All, string_Eq, Bool-cases, sum_of, sum_of-append, sum_of-take-drop,
  count_if, if◌then◌else◌, count_if-le-length, length-take, length-drop, length-sum_of_one,
  drop-drop, arith, ◌=?◌, ◌∙◌, ◌≢◌,
}

-- The number of rows with a label.
abbrev pub in_class : String → List Row → ℕ
in_class label = count_if (λ row. label =? row.route_label)

-- The shares of a class of n rows.
pub record Shares (label : String) (n : ℕ) (splits : Splits) : Type 0 where
  pub val : in_class label splits.val ≡ val_size n
  pub calibration : in_class label splits.calibration ≡ calibration_size n
  pub train : in_class label splits.train + val_size n + calibration_size n ≡ n
  pub enough : val_size n + calibration_size n < n

take-full :
    (label : String) (n : ℕ) (xs : List Row)
    → in_class label xs ≡ length xs
    → n ≤ length xs
    → (in_class label (take n xs) ≡ n) × (in_class label (drop n xs) ≡ length (drop n xs))
take-full label n xs full fits =
    let p = λ (row : Row). label =? row.route_label in
    omega (
      arith,
      sum_of-take-drop (λ (row : Row). if label =? row.route_label then 1 else 0) n xs,
      count_if-le-length p (take n xs),
      count_if-le-length p (drop n xs),
      length-take n xs,
      length-drop n xs,
    )

-- The parts of a group of one class, and of later groups without it.
slices-Shares :
    (label : String) (group : List Row) (rest : Splits)
    → in_class label group ≡ length group
    → val_size (length group) + calibration_size (length group) < length group
    → in_class label (all_rows rest) ≡ 0
    → Shares label
        (length group)
        (slices group (val_size (length group)) (calibration_size (length group)) rest)
slices-Shares label group rest full fits none =
    let f : Row → ℕ = λ row. if label =? row.route_label then 1 else 0 in
    let nv = val_size (length group) in
    let nc = calibration_size (length group) in
    let head = take-full label nv group full (omega arith) in
    let next = take-full label nc (drop nv group) head.1 (omega (arith, length-drop nv group)) in
    let absent : (sum_of f rest.train ≡ 0)
        × (sum_of f rest.val ≡ 0)
        × (sum_of f rest.calibration ≡ 0) =
      omega (
        arith,
        sum_of-append f rest.train (rest.val ++ rest.calibration),
        sum_of-append f rest.val rest.calibration,
      ) in
    record {
      val = omega (arith, head.0, sum_of-append f (take nv group) rest.val);
      calibration =
          omega (arith, next.0, sum_of-append f (take nc (drop nv group)) rest.calibration);
      train = omega (
        arith,
        next.1,
        ap (in_class label) (drop-drop nv nc group),
        length-drop nc (drop nv group),
        length-drop nv group,
        sum_of-append f (drop (nv + nc) group) rest.train,
      );
      enough = fits;
    }

-- A group without the class adds nothing to its shares.
slices-absent :
    (label : String) (group : List Row) (nv nc n : ℕ) (rest : Splits)
    → in_class label group ≡ 0
    → Shares label n rest
    → Shares label n (slices group nv nc rest)
slices-absent label group nv nc n rest none v =
    let f : Row → ℕ = λ row. if label =? row.route_label then 1 else 0 in
    record {
      val =
          omega
            (arith, v.val, sum_of-take-drop f nv group, sum_of-append f (take nv group) rest.val);
      calibration = omega (
        arith,
        v.calibration,
        sum_of-take-drop f nv group,
        sum_of-take-drop f nc (drop nv group),
        sum_of-append f (take nc (drop nv group)) rest.calibration,
      );
      train = omega (
        arith,
        v.train,
        sum_of-take-drop f (nv + nc) group,
        sum_of-append f (drop (nv + nc) group) rest.train,
      );
      enough = v.enough;
    }

module _ (r : Rng) (label : String) where
  abbrev is_label : Row → ℕ
  is_label row = if label =? row.route_label then 1 else 0

  pub length-shuffled : (s : r.State) (rows : List Row) → length (shuffled r s rows) ≡ length rows
  length-shuffled s rows = omega (
    arith,
    sum_of-shuffled r (λ _. 1) s rows,
    length-sum_of_one rows,
    length-sum_of_one (shuffled r s rows),
  )

  split_groups-Shares :
      (s : r.State) (groups : Groups String Row) (splits : Splits)
      → All (IsUniform (λ (row : Row). row.route_label)) groups
      → name_count label groups ≡ 1
      → split_groups r s groups ≡ ok splits
      → Shares label (in_class label (members groups)) splits
  split_groups-Shares s [] splits u n e = absurd (omega arith)
  split_groups-Shares s ((name, rows) ∷ groups) splits u n e =
      let v = split_groups-cons r s name rows groups splits e in
      let here = sum_of-shuffled r is_label s rows in
      let all = sum_of-append is_label rows (members groups) in
      rw v.sliced (elim (Bool-cases (label =? name)) [
        | inl same ↦
            let none : in_class label (members groups) ≡ 0 =
              members_absent (λ (row : Row). row.route_label) label groups u.1 (ground arith) in
            let whole : in_class label rows ≡ length rows = ground (arith, u.0 label) in
            let size : in_class label (members ((name, rows) ∷ groups))
                ≡ length (shuffled r s rows) =
              omega (arith, all, length-shuffled s rows) in
            rw size (
              slices-Shares label (shuffled r s rows) v.rest
                (omega (arith, here, length-shuffled s rows)) v.fits
                (split_groups-sum r is_label (later r s rows) groups v.rest v.succeeded ∙ none))
        | inr other ↦
            let none : in_class label rows ≡ 0 = ground (arith, u.0 label) in
            let size : in_class label (members ((name, rows) ∷ groups))
                ≡ in_class label (members groups) =
              omega (arith, all, none) in
            rw size (
              slices-absent label (shuffled r s rows) _ _ _ v.rest (here ∙ none)
                (split_groups-Shares (later r s rows) groups v.rest u.1 (ground arith) v.succeeded))
      ])

  present :
      (groups : Groups String Row)
      → All (IsUniform (λ (row : Row). row.route_label)) groups
      → 0 < in_class label (members groups)
      → name_count label groups ≢ 0
  present groups u pos none =
      absurd (omega (arith, members_absent (λ (row : Row). row.route_label) label groups u none))

  -- In a stratified split that succeeds, a label of n > 0 rows has max(1, round(n / 10)) of them
  -- in the validation part, max(1, round(n / 20)) in the calibration part, and the rest, at least
  -- one, in the training part.
  pub stratified_split-Shares :
      (rows : List Row) (seed : ℕ) (splits : Splits)
      → stratified_split r rows seed ≡ ok splits
      → 0 < in_class label rows
      → Shares label (in_class label rows) splits
  unfolding stratified_split
  stratified_split-Shares rows seed splits e pos =
      let groups = sorted_groups r rows in
      let (u, once) = sorted_group_by-IsUniform (λ (row : Row). row.route_label) _ rows in
      let size : in_class label (members groups) ≡ in_class label rows =
        sorted_group_by-Rearranges (λ (row : Row). row.route_label) _ rows is_label in
      rw (← size) (
        split_groups-Shares (r.seeded seed) groups splits u
          (omega (arith, once label, present groups u (omega arith))) e)
