-- ===== src/Comparison/Thinking/Accuracy.antt =====
-- tools/analyze_thinking_comparison.py, per_category, against the accuracy of all cases and against
-- cases_stats of tools/analyze_comparison.py.
use pocket_agents_lab.Prelude.{
  ℕ, ◌+◌, Bool, List, [], ◌∷◌, ◌≡◌, refl, ap, ◌∙◌, sym, inl, inr, map, if◌then◌else◌, arith,
  Bool-cases, length, count_if, keep_if, sum_of, Text, list_Eq, nat_Eq, ◌=?◌, Groups, members,
  group_by, group_of, sort_by, sorted_group_by-Rearranges, length-sum_of_one, sum_of-append,
  sorted_group,
}
use pocket_agents_lab.Benchmark.Run.{CaseRow}
use pocket_agents_lab.Comparison.{category, CategoryEntry, empty_entry, tally_case, cases_stats}
use pocket_agents_lab.Comparison.Categories.{tally_all, entry_at, cases_stats-entry_at}
use pocket_agents_lab.Comparison.Thinking.{acc_of, per_category, group_le, reads_raw}

abbrev pub Scores : Type 0
Scores = List (Text × ℕ × ℕ)

-- on_cats.get(cat, (0, 0))
abbrev pub score_at : Text → Scores → ℕ × ℕ
score_at cat [] = (0, 0)
score_at cat ((name, correct, total) ∷ scores) =
    if cat =? name then (correct, total) else score_at cat scores

module _ (key : CaseRow → Bool) where
  scores-sum :
      (f : CaseRow → ℕ) (field : Text × ℕ × ℕ → ℕ)
      → ((g : Text × List CaseRow) → field (acc_of key g) ≡ sum_of f g.1)
      → (groups : Groups Text CaseRow)
      → sum_of field (map (acc_of key) groups) ≡ sum_of f (members groups)
  scores-sum f field fits [] = refl
  scores-sum f field fits (g ∷ groups) =
      omega (arith, fits g, scores-sum f field fits groups, sum_of-append f g.1 (members groups))

  score_at-group_of :
      (cat : Text) (groups : Groups Text CaseRow)
      → score_at cat (map (acc_of key) groups)
        ≡ (count_if key (group_of cat groups), length (group_of cat groups))
  unfolding group_of
  score_at-group_of cat [] = refl
  score_at-group_of cat (g ∷ groups) = elim (Bool-cases (cat =? g.0)) [
    | inl same ↦ rw same refl
    | inr other ↦ rw other (score_at-group_of cat groups)
  ]

  -- The categories' scores add up to the accuracy of all cases.
  pub per_category-sums :
      (cases : List CaseRow)
      → (sum_of (λ (s : Text × ℕ × ℕ). s.1) (per_category cases key) ≡ count_if key cases)
        × (sum_of (λ (s : Text × ℕ × ℕ). s.2) (per_category cases key) ≡ length cases)
  unfolding per_category
  per_category-sums cases =
      let one : CaseRow → ℕ = λ c. if key c then 1 else 0 in
      (
        scores-sum one (λ s. s.1) (λ g. refl) (sort_by group_le (group_by category cases))
            ∙ sorted_group_by-Rearranges category group_le cases one,
        scores-sum (λ c. 1) (λ s. s.2) (λ g. sym (length-sum_of_one g.1))
              (sort_by group_le (group_by category cases))
            ∙ sorted_group_by-Rearranges category group_le cases (λ c. 1)
            ∙ length-sum_of_one cases,
      )

tally_all-raw :
    (entry : CategoryEntry) (cases : List CaseRow)
    → (tally_all entry cases).raw ≡ entry.raw + count_if reads_raw cases
tally_all-raw entry [] = omega arith
tally_all-raw entry (c ∷ cases) = ground (arith, tally_all-raw (tally_case entry c) cases)

tally_all-n :
    (entry : CategoryEntry) (cases : List CaseRow)
    → (tally_all entry cases).n ≡ entry.n + length cases
tally_all-n entry [] = omega arith
tally_all-n entry (c ∷ cases) = omega (arith, tally_all-n (tally_case entry c) cases)

pair_of : {a b c d : ℕ} → a ≡ c → b ≡ d → ◌≡◌ {A = ℕ × ℕ} (a, b) (c, d)
pair_of p q = rw (p, q) refl

-- The two comparison programs agree on every category: the raw score and the number of cases that
-- per_category has are those of cases_stats.
pub per_category-cases_stats :
    (cat : Text) (cases : List CaseRow)
    → score_at cat (per_category cases reads_raw)
      ≡ ((entry_at cat (cases_stats cases)).raw, (entry_at cat (cases_stats cases)).n)
unfolding per_category
per_category-cases_stats cat cases =
    let here = keep_if (λ (c : CaseRow). cat =? category c) cases in
    score_at-group_of reads_raw cat (sort_by group_le (group_by category cases))
    ∙ pair_of
        (omega (
          arith,
          sorted_group (count_if reads_raw) cat category group_le cases refl,
          ap (λ (e : CategoryEntry). e.raw) (cases_stats-entry_at cat cases),
          tally_all-raw empty_entry here,
        ))
        (omega (
          arith,
          sorted_group length cat category group_le cases refl,
          ap (λ (e : CategoryEntry). e.n) (cases_stats-entry_at cat cases),
          tally_all-n empty_entry here,
        ))
