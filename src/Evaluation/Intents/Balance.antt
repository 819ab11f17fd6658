-- ===== src/Evaluation/Intents/Balance.antt =====
-- tools/evaluate_phone_routing_model.py: what the selection of rows promises.
use pocket_agents_lab.Prelude.{
  ℕ, ◌≤◌, min, Bool, not, String, List, [], ◌∷◌, Text, list_Eq, nat_Eq, string_Eq, keep_if, Groups,
  length, if◌then◌else◌, ◌=?◌, ◌≡◌, refl, arith, sum_of, sum_of-append, Perm-sum_of, Perm-length,
  count_if, count_if-le-length, length-append, All, members, at_name, at_name-sort_by,
  sorted_group_by-IsUniform, IsUniform, sorted_group_by-Rearranges,
}
use pocket_agents_lab.Random.{Rng}
use pocket_agents_lab.Mixture.{str_le}
use pocket_agents_lab.Mixture.Clean.{Unicode}
use pocket_agents_lab.Evaluation.Intents.{
  IntentRow, is_training, select, label_of, sorted_labels, fresh_rows, balanced_rows,
}

abbrev pub has_label : String → IntentRow → Bool
has_label k row = k =? label_of row

module _ (r : Rng) (n : ℕ) where
  sample-sum :
      (g : IntentRow → ℕ) (s : r.State) (rows : List IntentRow)
      → sum_of g (r.sample IntentRow s rows (min n (length rows))).0 ≤ sum_of g rows
  sample-sum g s rows =
      let (rest, size, perm) = r.sample-perm IntentRow s rows (min n (length rows)) (omega arith) in
      omega (
        arith,
        Perm-sum_of g perm,
        sum_of-append g (r.sample IntentRow s rows (min n (length rows))).0 rest,
      )

  -- A sample of a uniform group is uniform.
  sample-count :
      (s : r.State) (k : String) (g : String × List IntentRow)
      → IsUniform label_of g
      → count_if (has_label k) (r.sample IntentRow s g.1 (min n (length g.1))).0
        ≡ (if k =? g.0 then min n (length g.1) else 0)
  sample-count s k (name, rows) uniform =
      let (rest, size, perm) = r.sample-perm IntentRow s rows (min n (length rows)) (omega arith) in
      let chosen = (r.sample IntentRow s rows (min n (length rows))).0 in
      ground (
        arith,
        uniform k,
        size,
        Perm-length perm,
        length-append chosen rest,
        Perm-sum_of (λ (row : IntentRow). if has_label k row then 1 else 0) perm,
        sum_of-append (λ (row : IntentRow). if has_label k row then 1 else 0) chosen rest,
        count_if-le-length (has_label k) chosen,
        count_if-le-length (has_label k) rest,
      )

  select-sum :
      (g : IntentRow → ℕ) (s : r.State) (groups : Groups String IntentRow)
      → sum_of g (select r n s groups).0 ≤ sum_of g (members groups)
  unfolding select
  select-sum g s [] = omega arith
  select-sum g s ((label, rows) ∷ groups) =
      let (chosen, s₁) = r.sample IntentRow s rows (min n (length rows)) in
      omega (
        arith,
        sample-sum g s rows,
        select-sum g s₁ groups,
        sum_of-append g chosen (select r n s₁ groups).0,
        sum_of-append g rows (members groups),
      )

  select-count :
      (k : String) (s : r.State) (groups : Groups String IntentRow)
      → All (IsUniform label_of) groups
      → count_if (has_label k) (select r n s groups).0
        ≡ at_name (λ rows. min n (length rows)) k groups
  unfolding select
  select-count k s [] uniform = refl
  select-count k s ((label, rows) ∷ groups) uniform =
      let (chosen, s₁) = r.sample IntentRow s rows (min n (length rows)) in
      omega (
        arith,
        sample-count s k (label, rows) uniform.0,
        select-count k s₁ groups uniform.1,
        sum_of-append (λ (row : IntentRow). if has_label k row then 1 else 0) chosen
            (select r n s₁ groups).0,
      )

keep_if-sum-le :
    (p : IntentRow → Bool) (g : IntentRow → ℕ) (rows : List IntentRow)
    → sum_of g (keep_if p rows) ≤ sum_of g rows
keep_if-sum-le p g [] = omega arith
keep_if-sum-le p g (row ∷ rows) = ground (arith, keep_if-sum-le p g rows)

keep_if-none :
    (p : IntentRow → Bool) (rows : List IntentRow)
    → count_if p (keep_if (λ row. not (p row)) rows) ≡ 0
keep_if-none p [] = refl
keep_if-none p (row ∷ rows) = ground (arith, keep_if-none p rows)

module _ (r : Rng) (u : Unicode) (rows : List IntentRow) (training_states : List Text)
    (n seed : ℕ) where
  abbrev fresh : List IntentRow
  fresh = fresh_rows r u rows training_states n seed

  abbrev selected : List IntentRow
  selected = balanced_rows r u rows training_states n seed

  selected-sum : (g : IntentRow → ℕ) → sum_of g selected ≤ sum_of g fresh
  unfolding balanced_rows
  selected-sum g =
      let (chosen, s) = select r n (r.seeded seed) (sorted_labels fresh) in
      omega (
        arith,
        Perm-sum_of g (r.shuffle-perm IntentRow s chosen),
        select-sum r n g (r.seeded seed) (sorted_labels fresh),
        sorted_group_by-Rearranges label_of (λ g h. str_le g.0 h.0) fresh g,
      )

  selected-count :
      (k : String) → count_if (has_label k) selected ≡ min n (length (keep_if (has_label k) fresh))
  unfolding balanced_rows
  selected-count k =
      let (chosen, s) = select r n (r.seeded seed) (sorted_labels fresh) in
      omega (
        arith,
        Perm-sum_of (λ (row : IntentRow). if has_label k row then 1 else 0)
            (r.shuffle-perm IntentRow s chosen),
        select-count r n k (r.seeded seed) (sorted_labels fresh)
            (sorted_group_by-IsUniform label_of (λ g h. str_le g.0 h.0) fresh).0,
        at_name-sort_by (λ xs. min n (length xs)) k label_of (λ g h. str_le g.0 h.0) fresh
            (omega arith),
      )

  -- The selection for an intent benchmark takes of every label n rows, or all where there are
  -- fewer, of those that are not in the training data; it takes no row whose normal form is a
  -- training state, and no row more often than it was given.
  pub balanced_rows-IsBalanced :
      ((k : String)
        → count_if (has_label k) selected ≡ min n (length (keep_if (has_label k) fresh)))
      × (count_if (is_training u training_states) selected ≡ 0)
      × ((g : IntentRow → ℕ) → sum_of g selected ≤ sum_of g rows)
  balanced_rows-IsBalanced = (
    selected-count,
    omega (
      arith,
      selected-sum (λ row. if is_training u training_states row then 1 else 0),
      keep_if-none (is_training u training_states) rows,
    ),
    λ g. omega (
      arith,
      selected-sum g,
      keep_if-sum-le (λ row. not (is_training u training_states row)) g rows,
    ),
  )
