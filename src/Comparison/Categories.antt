-- ===== src/Comparison/Categories.antt =====
-- tools/analyze_comparison.py, cases_stats and category_of: what the entry of a category holds.
use pocket_agents_lab.Prelude.{
  ℕ, false, none, some, List, [], ◌∷◌, ◌++◌, ◌≡◌, refl, ◌∙◌, sym, if◌then◌else◌, Text, ◌==◌,
  keep_if, list_Eq, nat_Eq, ◌=?◌, Eq, All, Bool-cases, inl, inr, arith, true≢false, list_beq_iff,
  ==_iff,
}
use pocket_agents_lab.Benchmark.Run.{CaseRow}
use pocket_agents_lab.Comparison.{
  before_last, category_of, category, CategoryEntry, empty_entry, tally_case, Stats, tally_into,
  stats_onto, cases_stats,
}

before_last-absent :
    (sep : ℕ) (text : Text) → All (λ c. (sep == c) ≡ false) text → before_last sep text ≡ none
unfolding before_last
before_last-absent sep [] plain = refl
before_last-absent sep (c ∷ text) plain = rw (before_last-absent sep text plain.1, plain.0) refl

before_last-split :
    (sep : ℕ) (before after : Text)
    → All (λ c. (sep == c) ≡ false) after
    → before_last sep (before ++ (sep ∷ after)) ≡ some before
unfolding before_last
before_last-split sep [] after plain =
    rw (before_last-absent sep after plain, (==_iff sep sep).1 refl) refl
before_last-split sep (c ∷ before) after plain = rw (before_last-split sep before after plain) refl

-- The category of an id is what stands before its number.
category_of-numbered :
    (name number : Text)
    → All (λ c. (b'-' == c) ≡ false) number
    → category_of (name ++ (b'-' ∷ number)) ≡ name
unfolding category_of
category_of-numbered name number plain =
    rw (category_of, before_last-split b'-' name number plain) refl

unequal_comm : {A : Type 0} ⦃e : Eq A⦄ (a b : A) → (a =? b) ≡ false → (b =? a) ≡ false
unequal_comm ⦃e⦄ a b other = elim (Bool-cases (b =? a)) [
  | inr h ↦ h
  | inl h ↦ absurd (true≢false (sym ((e.equal_iff a b).1 (sym ((e.equal_iff b a).0 h))) ∙ other))
]

-- The loop over the rows of one category.
abbrev pub tally_all : CategoryEntry → List CaseRow → CategoryEntry
tally_all entry [] = entry
tally_all entry (c ∷ cases) = tally_all (tally_case entry c) cases

-- by_cat[cat], or the entry of no cases.
abbrev pub entry_at : Text → Stats → CategoryEntry
entry_at cat [] = empty_entry
entry_at cat ((name, entry) ∷ stats) = if cat =? name then entry else entry_at cat stats

entry_at-tally_into :
    (cat name : Text) (c : CaseRow) (stats : Stats)
    → entry_at cat (tally_into name c stats)
      ≡ (if cat =? name then tally_case (entry_at cat stats) c else entry_at cat stats)
unfolding tally_into
entry_at-tally_into cat name c [] = ground arith
entry_at-tally_into cat name c ((other, entry) ∷ stats) = elim (Bool-cases (name =? other)) [
  | inl same ↦ rw same (
      rw ((list_beq_iff name other).0 same)
        (elim (Bool-cases (cat =? other)) [ inl here ↦ rw here refl | inr there ↦ rw there refl ]))
  | inr differ ↦ rw differ (elim (Bool-cases (cat =? other)) [
    | inl here ↦
        let away : (cat =? name) ≡ false =
          rw ((list_beq_iff cat other).0 here) (unequal_comm name other differ) in
        rw (here, away) refl
    | inr there ↦ rw there (entry_at-tally_into cat name c stats)
  ])
]

entry_at-stats_onto :
    (cat : Text) (stats : Stats) (cases : List CaseRow)
    → entry_at cat (stats_onto stats cases)
      ≡ tally_all (entry_at cat stats) (keep_if (λ c. cat =? category c) cases)
unfolding stats_onto
entry_at-stats_onto cat stats [] = refl
entry_at-stats_onto cat stats (c ∷ cases) =
    rw
      (
        entry_at-stats_onto cat (tally_into (category c) c stats) cases,
        entry_at-tally_into cat (category c) c stats,
      )
      (elim (Bool-cases (cat =? category c)) [
        | inl same ↦ rw same refl
        | inr other ↦ rw other refl
      ])

-- The entry of a category is the tally of the rows of that category, in their order.
pub cases_stats-entry_at :
    (cat : Text) (cases : List CaseRow)
    → entry_at cat (cases_stats cases)
      ≡ tally_all empty_entry (keep_if (λ c. cat =? category c) cases)
unfolding cases_stats
cases_stats-entry_at cat cases = entry_at-stats_onto cat [] cases
