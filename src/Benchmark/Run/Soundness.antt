-- ===== src/Benchmark/Run/Soundness.antt =====
-- tools/benchmark_decision_android.py, main: what holds of every report that is saved.
use pocket_agents_lab.Prelude.{
  ℕ, Bool, false, Option, none, some, String, List, [], ◌∷◌, ◌++◌, ◌≡◌, refl, inl, inr, All,
  All-append, ◌⊎◌, ◌||◌, ◌=?◌, string_Eq, length, Bool-cases, Option-cases, if◌then◌else◌, take,
}
use pocket_agents_lab.Replay.{TestCase, Python, is_decision_relevant}
use pocket_agents_lab.Replay.Cases.{agent_test_cases}
use pocket_agents_lab.Benchmark.Telemetry.{Reading}
use pocket_agents_lab.Benchmark.Gate.{Gate, thermal_gate}
use pocket_agents_lab.Benchmark.Gate.Limits.{IsCool}
use pocket_agents_lab.Benchmark.Gate.Opening.{thermal_gate-Opens_iff}
use pocket_agents_lab.Benchmark.Choice.{Arithmetic, Choice, guard_route}
use pocket_agents_lab.Benchmark.Run.Progress.{finishes_with}
use pocket_agents_lab.Benchmark.Run.{
  Attempt, CaseRow, Report, Summary, Ending, append_row, complete_report, try_case, run_cases,
  empty_report, benchmark, count_correct, count_raw, row_of, decided, when_open, measure,
}

-- A route is scored by the route expected; no route scores nothing.
abbrev pub scores : Option String → String → Bool
scores none expected = false
scores (some route) expected = route =? expected

-- A row that was measured on a cool phone, whose scores are those of its routes, and whose route
-- is the raw one or "answer".
abbrev pub IsMeasured : CaseRow → Type 0
IsMeasured row =
    IsCool row.before
    × (row.raw_correct ≡ scores row.raw_route row.expected)
    × (row.correct ≡ scores row.route row.expected)
    × ((row.route ≡ row.raw_route) ⊎ (row.route ≡ some "answer"))

abbrev pub summary_of : List CaseRow → Summary
summary_of rows = record {
  correct = count_correct rows;
  raw_correct = count_raw rows;
  total = length rows;
}

-- The rows are measured, and the summary is there exactly when the report is complete.
abbrev pub IsSound : Report → Type 0
IsSound report =
    All IsMeasured report.cases
    × (report.summary ≡ (if report.complete then some (summary_of report.cases) else none))

guarded_cases :
    (py : Python) (choice : Choice) (prompt : String)
    → (some (guard_route py choice prompt) ≡ some choice.route)
      ⊎ (some (guard_route py choice prompt) ≡ some "answer")
unfolding guard_route
guarded_cases py choice prompt =
    elim (Bool-cases
      ((choice.chosen =? "answer") || is_decision_relevant py (some choice.chosen) prompt)) [
        | inl passes ↦ inl (rw passes refl)
        | inr stopped ↦ inr (rw stopped refl)
      ]

row_of-IsMeasured :
    (py : Python) (case : TestCase) (before : Reading) (cooldown : ℕ) (choice : Option Choice)
    (latency : ℕ) (after : Reading)
    → IsCool before
    → IsMeasured (row_of py case before cooldown choice latency after)
unfolding row_of
row_of-IsMeasured py case before cooldown none latency after cool = (cool, refl, refl, inl refl)
row_of-IsMeasured py case before cooldown (some choice) latency after cool =
    (cool, refl, refl, guarded_cases py choice case.prompt)

List-cases {ℓ} :
    {A : Type ℓ} (xs : List A) → (xs ≡ []) ⊎ ((x : A) × (rest : List A) × (xs ≡ x ∷ rest))
List-cases [] = inl refl
List-cases (x ∷ xs) = inr (x, xs, refl)

Sum-cases {ℓ κ} :
    {A : Type ℓ} {B : Type κ} (s : A ⊎ B) → ((a : A) × (s ≡ inl a)) ⊎ ((b : B) × (s ≡ inr b))
Sum-cases (inl a) = inl (a, refl)
Sum-cases (inr b) = inr (b, refl)

module _ (A : Arithmetic) (py : Python) (attempt : TestCase → Attempt A.Float) where
  when_open-inr :
      (gate : Gate) (go_on : Reading → ℕ → Ending ⊎ CaseRow) (row : CaseRow)
      → when_open A py attempt gate go_on ≡ inr row
      → (before : Reading) × (cooldown : ℕ) × (gate ≡ Gate.opened before cooldown)
        × (go_on before cooldown ≡ inr row)
  when_open-inr (Gate.opened before cooldown) go_on row h = (before, cooldown, refl, h)
  when_open-inr Gate.unreadable go_on row h = absurd cc
  when_open-inr Gate.unverified go_on row h = absurd cc
  when_open-inr Gate.exceeded go_on row h = absurd cc
  when_open-inr Gate.waiting go_on row h = absurd cc

  measure-IsMeasured :
      (case : TestCase) (before : Reading) (cooldown : ℕ) (row : CaseRow)
      → IsCool before
      → measure A py attempt case before cooldown ≡ inr row
      → IsMeasured row
  unfolding measure
  measure-IsMeasured case before cooldown row cool h = elim (Option-cases (attempt case).after) [
    | inl failed ↦ absurd (let ended = rw (measure, failed) at h in cc)
    | inr (after, read) ↦
        let ended = rw (measure, read) at h in
        let choice : Option Choice = decided A py (attempt case).reply in
        let same : row_of py case before cooldown choice (attempt case).latency after ≡ row = cc in
        rw same at
          (row_of-IsMeasured py case before cooldown choice (attempt case).latency after cool)
  ]

  -- The gate stands before every row.
  try_case-IsMeasured :
      (case : TestCase) (row : CaseRow) → try_case A py attempt case ≡ inr row → IsMeasured row
  unfolding try_case
  try_case-IsMeasured case row h =
      let (before, cooldown, gate, rest) =
        when_open-inr (thermal_gate (attempt case).probes) (measure A py attempt case) row h in
      let (earlier, probe, later, split, waits, read, cool, time) =
        (thermal_gate-Opens_iff (attempt case).probes before cooldown).0 gate in
      measure-IsMeasured case before cooldown row cool rest

  completed :
      (report : Report)
      → All IsMeasured report.cases
      → All IsSound (run_cases A py attempt report []).0
  unfolding run_cases complete_report
  completed report measured = elim (List-cases report.cases) [
    | inl empty ↦ rw (run_cases, empty) tt
    | inr (row, kept, some_rows) ↦
        rw (finishes_with A py attempt report row kept some_rows) ((measured, refl), tt)
  ]

  run_cases-IsSound :
      (report : Report) (cases : List TestCase)
      → All IsMeasured report.cases
      → report.complete ≡ false
      → report.summary ≡ none
      → All IsSound (run_cases A py attempt report cases).0
  unfolding run_cases append_row complete_report
  run_cases-IsSound report [] measured incomplete unsummed = completed report measured
  run_cases-IsSound report (case ∷ cases) measured incomplete unsummed =
      elim (Sum-cases (try_case A py attempt case)) [
        | inl (ending, stop) ↦ rw (run_cases, stop) tt
        | inr (row, tried) ↦
            let rows : All IsMeasured (report.cases ++ (row ∷ [])) =
              All-append _ report.cases (row ∷ []) measured
                (try_case-IsMeasured case row tried, tt) in
            rw (run_cases, tried)
              (
                (rows, rw (incomplete, unsummed) refl),
                run_cases-IsSound (append_row report row) cases rows incomplete unsummed,
              )
      ]

  -- Whatever the phone, the clock and the model do, every report that the benchmark saves has only
  -- rows that were measured after both readings were there and cool, with the scores of their
  -- routes and a route that is the raw one or "answer", and it has the summary of its rows exactly
  -- when it is complete.
  pub benchmark-IsSound : (limit : ℕ) → All IsSound (benchmark A py attempt limit).0
  unfolding benchmark
  benchmark-IsSound limit =
      ((tt, refl), run_cases-IsSound empty_report (take limit agent_test_cases) tt refl refl)
