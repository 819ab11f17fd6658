-- ===== src/Tests/Comparisons.antt =====
-- Runs of the comparison of two reports.
use pocket_agents_lab.Prelude.{
  ℕ, ◌+◌, ◌*◌, ◌≤◌, Bool, true, false, some, String, List, [], ◌∷◌, ◌≡◌, ◌↔◌, ◌⊎◌, refl, codes, suc,
  zero, ◌/◌, ◌<◌, ◌-◌, ◌%◌, leb, ltb, arith, ap,
}
use pocket_agents_lab.Benchmark.Run.{CaseRow}
use pocket_agents_lab.Comparison.{analyze, summarize, moderate_events, cases_stats, category_of}
use pocket_agents_lab.Comparison.Categories.{entry_at}
use pocket_agents_lab.Comparison.Totals.{IsBalanced, analyze-IsBalanced}
use pocket_agents_lab.Comparison.Thinking.{
  Conclusion, Percentages, report_conclusion, per_category, reads_raw,
}
use pocket_agents_lab.Comparison.Thinking.Accuracy.{score_at, per_category-cases_stats}
use pocket_agents_lab.Comparison.Thinking.Conclusions.{IsExact, report_conclusion-whole}
use pocket_agents_lab.Tests.Benchmarks.{cool_reading}

-- A row with the two verdicts.
abbrev verdict_row : String → Bool → Bool → CaseRow
verdict_row id raw_correct correct = record {
  id = id;
  expected = "answer";
  before = cool_reading;
  cooldown = 3;
  raw_route = some "answer";
  raw_correct = raw_correct;
  route = some "answer";
  correct = correct;
  latency = 25;
  after = cool_reading;
}

abbrev mended : CaseRow
mended = verdict_row "answer-01" false true

abbrev broken : CaseRow
broken = verdict_row "health-04" true false

abbrev right : CaseRow
right = verdict_row "health-05" true true

category_of_run : category_of (codes "answer-01") ≡ codes "answer"
unfolding category_of
category_of_run = refl

analyze-IsBalanced_example : IsBalanced (summarize mended (broken ∷ right ∷ []) 0)
unfolding analyze moderate_events
analyze-IsBalanced_example =
    analyze-IsBalanced (mended ∷ broken ∷ right ∷ []) (summarize mended (broken ∷ right ∷ []) 0)
      refl

per_category-cases_stats_example :
    score_at (codes "health") (per_category (mended ∷ broken ∷ right ∷ []) reads_raw) ≡ (
      (entry_at (codes "health") (cases_stats (mended ∷ broken ∷ right ∷ []))).raw,
      (entry_at (codes "health") (cases_stats (mended ∷ broken ∷ right ∷ []))).n,
    )
per_category-cases_stats_example =
    per_category-cases_stats (codes "health") (mended ∷ broken ∷ right ∷ [])

-- Whole numbers from -1000, 1000 of which are taken away; a quotient is rounded down.
abbrev centred : Percentages
centred = record {
  Float = ℕ;
  whole = λ n. n + 1000;
  quotient = λ a b. a / b + 1000;
  plus = λ a b. a + b - 1000;
  minus = λ a b. a + 1000 - b;
  times = λ a b. (a - 1000) * (b - 1000) + 1000;
  abs = λ a. (a - 1000) + (1000 - a) + 1000;
  is_lt = ltb;
  is_le = leb;
}

whole_quotient : (p n q rest : ℕ) → 0 < n → n * q + rest ≡ p * n → rest < n → q ≡ p
whole_quotient zero n zero rest pos e l = refl
whole_quotient zero n (suc q) rest pos e l = absurd (omega arith)
whole_quotient (suc p) n zero rest pos e l = absurd (omega arith)
whole_quotient (suc p) n (suc q) rest pos e l =
    ap (λ k. suc k) (whole_quotient p n q rest pos (omega arith) l)

centred-IsExact : IsExact centred
centred-IsExact = record {
  exact_quotient = λ a n p pos small e.
      let same : a / n ≡ p = whole_quotient p n (a / n) (a % n) pos (omega arith) (omega arith) in
      omega arith;
  exact_sum = λ a b l m. omega arith;
  exact_distance = λ a b l m. omega arith;
  exact_order = λ a b l m. ground arith;
}

copies_of : ℕ → CaseRow → List CaseRow → List CaseRow
copies_of zero row rows = rows
copies_of (suc n) row rows = row ∷ copies_of n row rows

-- Four of twenty cases against three of twenty: five points better.
abbrev four_of_twenty : List CaseRow
four_of_twenty = right ∷ right ∷ right ∷ right ∷ copies_of 16 mended []

abbrev three_of_twenty : List CaseRow
three_of_twenty = right ∷ right ∷ right ∷ copies_of 17 mended []

five_points_run :
    report_conclusion centred four_of_twenty three_of_twenty 1001 ≡ some Conclusion.off_outperforms
unfolding report_conclusion copies_of
five_points_run = refl

report_conclusion-whole_example :
    let conclusion = report_conclusion centred four_of_twenty three_of_twenty 1001 in
    ((conclusion ≡ some Conclusion.no_difference) ↔ ((20 < 15 + 5) × (15 < 20 + 5)))
    × ((conclusion ≡ some (Conclusion.recovers (leb 1090 1020))) ↔ (15 + 5 < 20))
    × ((conclusion ≡ some Conclusion.off_outperforms) ↔ ((20 + 5 ≤ 15) ⊎ (20 ≡ 15 + 5)))
unfolding copies_of
report_conclusion-whole_example =
    report_conclusion-whole centred centred-IsExact four_of_twenty three_of_twenty 1001 20 15
      (record { some_cases = omega arith; accuracy = refl; at_most_hundred = omega arith })
      (record { some_cases = omega arith; accuracy = refl; at_most_hundred = omega arith })
