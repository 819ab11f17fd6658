-- ===== src/Comparison/Totals.antt =====
-- tools/analyze_comparison.py: the entries of the categories against the totals of all cases.
use mathlib.Core.Path.{subst}
use pocket_agents_lab.Prelude.{
  ℕ, ◌+◌, none, List, [], ◌∷◌, ◌++◌, ◌≡◌, refl, ◌∙◌, if◌then◌else◌, Text, length, count_if,
  length-append, list_Eq, nat_Eq, ◌=?◌, Bool-cases, inl, inr, arith, sum_of, Option-cases,
  length-sum_of_one,
}
use pocket_agents_lab.Benchmark.Run.{CaseRow, count_correct, count_raw}
use pocket_agents_lab.Comparison.{
  category, is_regression, is_rescue, CategoryEntry, empty_entry, tally_case, Stats, tally_into,
  stats_onto, cases_stats, Analysis, Analyzed, analyze, summarize, moderate_events,
}

-- A number of an entry to which each case adds its share.
record IsAdditive (field : CategoryEntry → ℕ) (share : CaseRow → ℕ) : Type 0 where
  starts : field empty_entry ≡ 0
  adds : (entry : CategoryEntry) (c : CaseRow) → field (tally_case entry c) ≡ field entry + share c

module _ (field : CategoryEntry → ℕ) (share : CaseRow → ℕ) (additive : IsAdditive field share) where
  tally_into-total :
      (cat : Text) (c : CaseRow) (stats : Stats)
      → sum_of (λ (s : Text × CategoryEntry). field s.1) (tally_into cat c stats)
        ≡ sum_of (λ (s : Text × CategoryEntry). field s.1) stats + share c
  unfolding tally_into
  tally_into-total cat c [] = omega (arith, additive.starts, additive.adds empty_entry c)
  tally_into-total cat c ((name, entry) ∷ stats) = elim (Bool-cases (cat =? name)) [
    | inl same ↦ rw same (omega (arith, additive.adds entry c))
    | inr other ↦ rw other (omega (arith, tally_into-total cat c stats))
  ]

  stats_onto-total :
      (stats : Stats) (cases : List CaseRow)
      → sum_of (λ (s : Text × CategoryEntry). field s.1) (stats_onto stats cases)
        ≡ sum_of (λ (s : Text × CategoryEntry). field s.1) stats + sum_of share cases
  unfolding stats_onto
  stats_onto-total stats [] = omega arith
  stats_onto-total stats (c ∷ cases) = omega (
    arith,
    stats_onto-total (tally_into (category c) c stats) cases,
    tally_into-total (category c) c stats,
  )

  cases_stats-total :
      (cases : List CaseRow)
      → sum_of (λ (s : Text × CategoryEntry). field s.1) (cases_stats cases) ≡ sum_of share cases
  unfolding cases_stats
  cases_stats-total cases = omega (arith, stats_onto-total [] cases)

n-IsAdditive : IsAdditive (λ e. e.n) (λ _. 1)
n-IsAdditive = record { starts = refl; adds = λ e c. refl }

raw-IsAdditive : IsAdditive (λ e. e.raw) (λ c. if c.raw_correct then 1 else 0)
raw-IsAdditive = record { starts = refl; adds = λ e c. ground arith }

guard-IsAdditive : IsAdditive (λ e. e.guard) (λ c. if c.correct then 1 else 0)
guard-IsAdditive = record { starts = refl; adds = λ e c. ground arith }

regressions-IsAdditive :
    IsAdditive (λ e. length e.guard_regressions) (λ c. if is_regression c then 1 else 0)
regressions-IsAdditive = record {
  starts = refl;
  adds = λ e c. ground (arith, length-append e.guard_regressions (c.id ∷ []));
}

rescues-IsAdditive : IsAdditive (λ e. length e.guard_rescues) (λ c. if is_rescue c then 1 else 0)
rescues-IsAdditive = record {
  starts = refl;
  adds = λ e c. ground (arith, length-append e.guard_rescues (c.id ∷ []));
}

-- What the guard breaks and what it mends make up the difference of the two scores.
balance :
    (cases : List CaseRow)
    → count_correct cases + count_if is_regression cases
      ≡ count_raw cases + count_if is_rescue cases
balance [] = refl
balance (c ∷ cases) = ground (arith, balance cases)

-- The totals of an analysis are those of its categories, and they are balanced.
abbrev pub IsBalanced : Analysis → Type 0
IsBalanced a =
    (a.guard_ok + a.guard_regressions ≡ a.raw_ok + a.guard_rescues)
    × (sum_of (λ (s : Text × CategoryEntry). s.1.n) a.by_cat ≡ a.n)
    × (sum_of (λ (s : Text × CategoryEntry). s.1.raw) a.by_cat ≡ a.raw_ok)
    × (sum_of (λ (s : Text × CategoryEntry). s.1.guard) a.by_cat ≡ a.guard_ok)
    × (sum_of (λ (s : Text × CategoryEntry). length s.1.guard_regressions) a.by_cat
        ≡ a.guard_regressions)
    × (sum_of (λ (s : Text × CategoryEntry). length s.1.guard_rescues) a.by_cat ≡ a.guard_rescues)

summarize-IsBalanced :
    (case : CaseRow) (cases : List CaseRow) (events : ℕ) → IsBalanced (summarize case cases events)
unfolding summarize
summarize-IsBalanced case cases events =
    let all = case ∷ cases in
    (
      balance all,
      cases_stats-total (λ e. e.n) (λ _. 1) n-IsAdditive all ∙ length-sum_of_one all,
      cases_stats-total (λ e. e.raw) (λ c. if c.raw_correct then 1 else 0) raw-IsAdditive all,
      cases_stats-total (λ e. e.guard) (λ c. if c.correct then 1 else 0) guard-IsAdditive all,
      cases_stats-total (λ e. length e.guard_regressions) (λ c. if is_regression c then 1 else 0)
          regressions-IsAdditive all,
      cases_stats-total (λ e. length e.guard_rescues) (λ c. if is_rescue c then 1 else 0)
          rescues-IsAdditive all,
    )

-- In every analysis that is returned, the cases that the guard mends less those it breaks are the
-- difference of the two scores, and each of these totals is the sum over the categories.
pub analyze-IsBalanced :
    (cases : List CaseRow) (result : Analysis)
    → analyze cases ≡ Analyzed.analysis result
    → IsBalanced result
unfolding analyze
analyze-IsBalanced [] result h = absurd cc
analyze-IsBalanced (case ∷ cases) result h = elim (Option-cases (moderate_events (case ∷ cases))) [
  | inl missing ↦ absurd (let raised = rw (analyze, missing) at h in cc)
  | inr (events, counted) ↦
      let found = rw (analyze, counted) at h in
      let same : summarize case cases events ≡ result = cc in
      subst IsBalanced same (summarize-IsBalanced case cases events)
]

moderate_events-missing :
    (earlier : List CaseRow) (c : CaseRow) (rest : List CaseRow)
    → c.after.status ≡ none
    → moderate_events (earlier ++ (c ∷ rest)) ≡ none
unfolding moderate_events
moderate_events-missing [] c rest missing = rw (moderate_events, missing) refl
moderate_events-missing (b ∷ earlier) c rest missing = elim (Option-cases b.after.status) [
  | inl gone ↦ rw (moderate_events, gone) refl
  | inr (status, read) ↦
      rw (moderate_events, read, moderate_events-missing earlier c rest missing) refl
]

-- One case after which the thermal status could not be read makes the analysis of all cases raise.
analyze-missing :
    (earlier : List CaseRow) (c : CaseRow) (rest : List CaseRow)
    → c.after.status ≡ none
    → analyze (earlier ++ (c ∷ rest)) ≡ Analyzed.status_missing
unfolding analyze
analyze-missing [] c rest missing = rw (analyze, moderate_events-missing [] c rest missing) refl
analyze-missing (b ∷ earlier) c rest missing =
    rw (analyze, moderate_events-missing (b ∷ earlier) c rest missing) refl
