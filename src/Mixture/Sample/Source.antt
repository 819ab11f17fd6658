-- ===== src/Mixture/Sample/Source.antt =====
-- The drawing of one source: it succeeds with the number of rows asked for, takes no row twice and
-- leaves out no class.
use pocket_agents_lab.Random.{Rng}
use pocket_agents_lab.Mixture.{omits_classes, Row, ok, str_le, true, raise}
use pocket_agents_lab.Mixture.Rounds.{last, but_last}
use pocket_agents_lab.Mixture.Rounds.Total.{total_of, last-sum, rounds_total}
use pocket_agents_lab.Mixture.Rounds.Cover.{lasts, rounds-lasts}
use pocket_agents_lab.Mixture.Sample.{shuffle_groups, draw_source}
use pocket_agents_lab.Mixture.Split.Classes.{in_class}
use pocket_agents_lab.Prelude.{
  ℕ, suc, ◌≤◌, ◌<◌, ◌≡◌, refl, inl, inr, ap, false, String, List, [], ◌∷◌, ltb, length, Groups,
  group_by, group_of, group_names, sort_by, sort_by-perm, string_Eq, if◌then◌else◌, ◌=?◌, sum_of,
  Perm-sum_of, Perm-length, count_if, count_if-le-length, sum_of-group_names, group_of_named,
  group_by-Distinct, group_by-perm, group_of-group_by, count_if-keep_if, length-keep_if,
  length-sum_of_one, Bool-cases, arith, ◌∙◌, sym, length-sort_by, true,
}
use text.Mathlib.TextEquality.{eq_iff}

module _ (r : Rng) where
  abbrev shuffled_groups : r.State → List String → Groups String Row → List (List Row)
  shuffled_groups s labels groups = (shuffle_groups r s labels groups).0

  shuffle_groups-sum :
      (f : Row → ℕ) (s : r.State) (labels : List String) (groups : Groups String Row)
      → total_of f (shuffled_groups s labels groups)
        ≡ sum_of (λ k. sum_of f (group_of k groups)) labels
  unfolding shuffle_groups
  shuffle_groups-sum f s [] groups = refl
  shuffle_groups-sum f s (k ∷ labels) groups = omega (
    arith,
    Perm-sum_of f (r.shuffle-perm Row s (group_of k groups)),
    shuffle_groups-sum f (r.shuffle Row s (group_of k groups)).1 labels groups,
  )

  shuffle_groups-length :
      (s : r.State) (labels : List String) (groups : Groups String Row)
      → length (shuffled_groups s labels groups) ≡ length labels
  unfolding shuffle_groups
  shuffle_groups-length s [] groups = refl
  shuffle_groups-length s (k ∷ labels) groups =
      ap suc (shuffle_groups-length (r.shuffle Row s (group_of k groups)).1 labels groups)

  -- Where a whole list passes a test, so does its last element.
  last_passes :
      (label : String) (x : Row) (xs : List Row)
      → in_class label (x ∷ xs) ≡ length (x ∷ xs)
      → 0 < in_class label (last x xs ∷ [])
  last_passes label x xs full = omega (
    arith,
    last-sum (λ (row : Row). if label =? row.route_label then 1 else 0) x xs,
    last-sum (λ _. 1) x xs,
    count_if-le-length (λ (row : Row). label =? row.route_label) (but_last x xs),
    length-sum_of_one (but_last x xs),
    length-sum_of_one xs,
  )

  lasts-cons :
      (label : String) (group : List Row) (groups : List (List Row))
      → in_class label group ≡ length group
      → 0 < length group
      → 0 < in_class label (lasts (group ∷ groups))
  lasts-cons label [] groups full pos = absurd (omega arith)
  lasts-cons label (x ∷ xs) groups full pos =
      unfold lasts in omega (arith, last_passes label x xs full)

  lasts-later :
      (label : String) (group : List Row) (groups : List (List Row))
      → in_class label (lasts groups) ≤ in_class label (lasts (group ∷ groups))
  unfolding lasts
  lasts-later label [] groups = omega arith
  lasts-later label (x ∷ xs) groups = omega arith

  lasts-class :
      (label : String) (s : r.State) (labels : List String) (groups : Groups String Row)
      → in_class label (group_of label groups) ≡ length (group_of label groups)
      → 0 < length (group_of label groups)
      → 0 < count_if (λ k. label =? k) labels
      → 0 < in_class label (lasts (shuffled_groups s labels groups))
  unfolding shuffle_groups
  lasts-class label s [] groups full pos there = absurd (omega arith)
  lasts-class label s (k ∷ labels) groups full pos there =
      let group = (r.shuffle Row s (group_of k groups)).0 in
      let s' = (r.shuffle Row s (group_of k groups)).1 in
      let later = lasts-later label group (shuffled_groups s' labels groups) in
      elim (Bool-cases (label =? k)) [
        | inl same ↦
            let e : group_of k groups ≡ group_of label groups =
              ap (λ j. group_of j groups) (sym ((eq_iff label k).0 same)) in
            let p = r.shuffle-perm Row s (group_of k groups) in
            let size = Perm-length p in
            lasts-cons label group (shuffled_groups s' labels groups)
              (omega (
                arith,
                size,
                full,
                ap (in_class label) e,
                ap length e,
                Perm-sum_of (λ (row : Row). if label =? row.route_label then 1 else 0) p,
              ))
              (omega (arith, size, pos, ap length e))
        | inr other ↦
            omega (arith, later, lasts-class label s' labels groups full pos (ground arith))
      ]

  -- What a drawing promises: the number of rows, the rest of the source, and every class.
  pub record IsSample (rows : List Row) (count : ℕ) (sampled : List Row) : Type 0 where
    pub size : length sampled ≡ count
    pub once : (f : Row → ℕ) → sum_of f sampled ≤ sum_of f rows
    pub classes : (label : String) → 0 < in_class label rows → 0 < in_class label sampled

  unfoldable pub labels_of : List Row → List String
  labels_of rows = sort_by str_le (group_names (group_by (λ (row : Row). row.route_label) rows))

  group_full :
      (label : String) (rows : List Row)
      → (in_class label (group_of label (group_by (λ (row : Row). row.route_label) rows))
          ≡ length (group_of label (group_by (λ (row : Row). row.route_label) rows)))
        × (length (group_of label (group_by (λ (row : Row). row.route_label) rows))
            ≡ in_class label rows)
  group_full label rows =
      rw (group_of-group_by (λ (row : Row). row.route_label) label rows)
        (count_if-keep_if (λ (row : Row). label =? row.route_label) rows, length-keep_if _ rows)

  -- Drawing from a source succeeds, if the count is at least the number of labels and at most the
  -- number of rows: with that many rows, none taken more often than the source has it, and at
  -- least one of every label.
  pub draw_source-succeeds :
      (s : r.State) (source : String) (rows : List Row) (count : ℕ)
      → length (labels_of rows) ≤ count
      → count ≤ length rows
      → (sampled : List Row) × (s' : r.State) × (draw_source r s source rows count
          ≡ ok (sampled, s'))
        × IsSample rows count sampled
  unfolding draw_source labels_of
  draw_source-succeeds s source rows count l fits =
      let groups = group_by (λ (row : Row). row.route_label) rows in
      let names = group_names groups in
      let labels = sort_by str_le names in
      let order = (r.shuffle String s labels).0 in
      let s₁ = (r.shuffle String s labels).1 in
      let gs = shuffled_groups s₁ order groups in
      let to_names = λ (g : String → ℕ).
        Perm-sum_of g (r.shuffle-perm String s labels)
        ∙ Perm-sum_of g (sort_by-perm str_le names) in
      let total : (f : Row → ℕ) → total_of f gs ≡ sum_of f rows = λ f.
        shuffle_groups-sum f s₁ order groups
        ∙ to_names (λ k. sum_of f (group_of k groups))
        ∙ sum_of-group_names f groups (group_by-Distinct _ rows)
        ∙ Perm-sum_of f (group_by-perm _ rows) in
      let (out, done, drawn) =
        rounds_total (suc count) count [] gs (omega arith) (omega arith)
          (omega (arith, total (λ _. 1), length-sum_of_one rows)) in
      let keep : ltb count (length labels) ≡ false = ground arith in
      let sizes = shuffle_groups-length s₁ order groups in
      (
        out.0,
        (shuffle_groups r s₁ order groups).1,
        rw (keep, done) refl,
        record {
          size = drawn.size;
          once = λ f. omega (arith, drawn.kept f, total f);
          classes = λ label pos.
              let whole = group_full label rows in
              let there = group_of_named label groups (omega (arith, whole.1)) in
              let class =
                lasts-class label s₁ order groups whole.0 (omega (arith, whole.1))
                  (omega (arith, there, to_names (λ k. if label =? k then 1 else 0))) in
              omega (
                arith,
                class,
                rounds-lasts (λ (row : Row). if label =? row.route_label then 1 else 0) (suc count)
                    count gs out
                    (omega (
                      arith,
                      sizes,
                      to_names (λ _. 1),
                      length-sum_of_one order,
                      length-sum_of_one names,
                      length-sort_by str_le names,
                    ))
                    done,
              );
        },
      )

  pub draw_source-omits :
      (s : r.State) (source : String) (rows : List Row) (count : ℕ)
      → ltb count (length (labels_of rows)) ≡ true
      → draw_source r s source rows count ≡ raise (omits_classes source)
  unfolding draw_source labels_of
  draw_source-omits s source rows count h = rw h
