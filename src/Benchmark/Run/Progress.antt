-- ===== src/Benchmark/Run/Progress.antt =====
-- tools/benchmark_decision_android.py, main: how the run over the cases ends, and what it has saved
-- by then.
use pocket_agents_lab.Prelude.{
  ℕ, true, false, Option, none, some, String, List, [], ◌∷◌, ◌++◌, ◌≡◌, refl, sym, ap, inl, inr,
  map, append_assoc, append-nil, All, count_if, length,
}
use pocket_agents_lab.Replay.{TestCase, Python, expected_route}
use pocket_agents_lab.Benchmark.Telemetry.{Reading}
use pocket_agents_lab.Benchmark.Gate.{Gate, thermal_gate}
use pocket_agents_lab.Benchmark.Choice.{Arithmetic, Choice}
use pocket_agents_lab.Benchmark.Run.{
  Attempt, CaseRow, Report, Ending, append_row, complete_report, try_case, run_cases, empty_report,
  decided, row_of, measure,
}

-- The report while the run goes on.
abbrev pub progress : List CaseRow → Report
progress rows = record { complete = false; cases = rows; summary = none }

-- The report of a run that has finished.
abbrev pub final : List CaseRow → Report
final rows = record {
  complete = true;
  cases = rows;
  summary = some (record {
    correct = count_if (λ (row : CaseRow). row.correct) rows;
    raw_correct = count_if (λ (row : CaseRow). row.raw_correct) rows;
    total = length rows;
  });
}

-- The first element, the first two, and so on to the whole list.
abbrev pub prefixes {ℓ} : {A : Type ℓ} → List A → List (List A)
prefixes [] = []
prefixes (x ∷ xs) = (x ∷ []) ∷ map (λ p. x ∷ p) (prefixes xs)

-- The reports that follow the one with the rows kept.
abbrev growing : (kept rows : List CaseRow) → List Report
growing kept rows = map (λ p. progress (kept ++ p)) (prefixes rows)

regrouped :
    (kept : List CaseRow) (row : CaseRow) (parts : List (List CaseRow))
    → map (λ p. progress (kept ++ p)) (map (λ p. row ∷ p) parts)
      ≡ map (λ p. progress ((kept ++ (row ∷ [])) ++ p)) parts
regrouped kept row [] = refl
regrouped kept row (p ∷ parts) = rw (append_assoc kept (row ∷ []) p, regrouped kept row parts) refl

abbrev pub raw_of : Option Choice → Option String
raw_of none = none
raw_of (some choice) = some choice.route

module _ (A : Arithmetic) (py : Python) (attempt : TestCase → Attempt A.Float) where
  -- The gate opens for a case, and the telemetry after it is read.
  abbrev pub Completes : TestCase → Type 0
  Completes case =
      (before : Reading) × (cooldown : ℕ) × (after : Reading) × (thermal_gate (attempt case).probes
        ≡ Gate.opened before cooldown)
      × ((attempt case).after ≡ some after)

  abbrev pub IsClosed : Gate → Type 0
  IsClosed (Gate.opened before cooldown) = ⊥
  IsClosed Gate.unreadable = Unit
  IsClosed Gate.unverified = Unit
  IsClosed Gate.exceeded = Unit
  IsClosed Gate.waiting = Unit

  -- The gate of a case stays closed, or it opens and the telemetry after the case raises.
  abbrev pub Halts : TestCase → Ending → Type 0
  Halts case Ending.finished = ⊥
  Halts case Ending.no_rows = ⊥
  Halts case (Ending.gate_closed gate) = (thermal_gate (attempt case).probes ≡ gate) × IsClosed gate
  Halts case Ending.telemetry_failed =
      (before : Reading) × (cooldown : ℕ) × (thermal_gate (attempt case).probes
        ≡ Gate.opened before cooldown)
      × ((attempt case).after ≡ none)

  -- A row says what was seen of its case.
  pub record Records (case : TestCase) (row : CaseRow) : Type 0 where
    pub id : row.id ≡ case.id
    pub expected : row.expected ≡ expected_route case
    pub gate : thermal_gate (attempt case).probes ≡ Gate.opened row.before row.cooldown
    pub raw_route : row.raw_route ≡ raw_of (decided A py (attempt case).reply)
    pub latency : row.latency ≡ (attempt case).latency
    pub after : (attempt case).after ≡ some row.after

  -- Each case has its row, in order.
  abbrev pub AllRecorded : List TestCase → List CaseRow → Type 0
  AllRecorded [] [] = Unit
  AllRecorded [] (row ∷ rows) = ⊥
  AllRecorded (case ∷ cases) [] = ⊥
  AllRecorded (case ∷ cases) (row ∷ rows) = Records case row × AllRecorded cases rows

  abbrev Tried : List TestCase → List CaseRow → Type 0
  Tried [] [] = Unit
  Tried [] (row ∷ rows) = ⊥
  Tried (case ∷ cases) [] = ⊥
  Tried (case ∷ cases) (row ∷ rows) = (try_case A py attempt case ≡ inr row) × Tried cases rows

  row_of-Records :
      (case : TestCase) (before : Reading) (cooldown : ℕ) (choice : Option Choice) (after : Reading)
      → thermal_gate (attempt case).probes ≡ Gate.opened before cooldown
      → decided A py (attempt case).reply ≡ choice
      → (attempt case).after ≡ some after
      → Records case (row_of py case before cooldown choice (attempt case).latency after)
  unfolding row_of
  row_of-Records case before cooldown none after opened made read = record {
    id = refl;
    expected = refl;
    gate = opened;
    raw_route = rw made refl;
    latency = refl;
    after = read;
  }
  row_of-Records case before cooldown (some choice) after opened made read = record {
    id = refl;
    expected = refl;
    gate = opened;
    raw_route = rw made refl;
    latency = refl;
    after = read;
  }

  try_case-Records :
      (case : TestCase)
      → Completes case
      → (row : CaseRow) × (try_case A py attempt case ≡ inr row) × Records case row
  unfolding try_case measure
  try_case-Records case (before, cooldown, after, opened, read) =
      let choice = decided A py (attempt case).reply in
      (
        row_of py case before cooldown choice (attempt case).latency after,
        rw (try_case, opened, measure, read) refl,
        row_of-Records case before cooldown choice after opened refl read,
      )

  try_case-Halts :
      (case : TestCase) (ending : Ending)
      → Halts case ending
      → try_case A py attempt case ≡ inl ending
  unfolding try_case measure
  try_case-Halts case Ending.finished halts = absurd halts
  try_case-Halts case Ending.no_rows halts = absurd halts
  try_case-Halts case (Ending.gate_closed (Gate.opened before cooldown)) halts = absurd halts.1
  try_case-Halts case (Ending.gate_closed Gate.unreadable) halts = rw (try_case, halts.0) refl
  try_case-Halts case (Ending.gate_closed Gate.unverified) halts = rw (try_case, halts.0) refl
  try_case-Halts case (Ending.gate_closed Gate.exceeded) halts = rw (try_case, halts.0) refl
  try_case-Halts case (Ending.gate_closed Gate.waiting) halts = rw (try_case, halts.0) refl
  try_case-Halts case Ending.telemetry_failed (before, cooldown, opened, unread) =
      rw (try_case, opened, measure, unread) refl

  recorded :
      (cases : List TestCase)
      → All Completes cases
      → (rows : List CaseRow) × Tried cases rows × AllRecorded cases rows
  recorded [] complete = ([], tt, tt)
  recorded (case ∷ cases) complete =
      let (row, tried, seen) = try_case-Records case complete.0 in
      let (rows, later, all_seen) = recorded cases complete.1 in
      (row ∷ rows, (tried, later), (seen, all_seen))

  stops_from :
      (kept : List CaseRow) (earlier : List TestCase) (rows : List CaseRow) (case : TestCase)
      (rest : List TestCase) (ending : Ending)
      → Tried earlier rows
      → try_case A py attempt case ≡ inl ending
      → run_cases A py attempt (progress kept) (earlier ++ (case ∷ rest))
        ≡ (growing kept rows, ending)
  unfolding run_cases append_row
  stops_from kept [] [] case rest ending tried stop = rw (run_cases, stop) refl
  stops_from kept [] (row ∷ rows) case rest ending tried stop = absurd tried
  stops_from kept (c ∷ earlier) [] case rest ending tried stop = absurd tried
  stops_from kept (c ∷ earlier) (row ∷ rows) case rest ending tried stop =
      rw
        (
          run_cases,
          tried.0,
          stops_from (kept ++ (row ∷ [])) earlier rows case rest ending tried.1 stop,
          regrouped kept row (prefixes rows),
        )
        refl

  -- Where a case ends the program, since its gate stays closed or the telemetry after it raises,
  -- and every case before it opens its gate and is read afterwards, each of these cases has a row
  -- that records it, and what has been saved is a report for the first row, for the first two and
  -- so on to all of them, none of which is complete or has a summary. The cases after it are not
  -- tried.
  pub run_cases-stops :
      (earlier : List TestCase) (case : TestCase) (rest : List TestCase) (ending : Ending)
      → All Completes earlier
      → Halts case ending
      → (rows : List CaseRow) × AllRecorded earlier rows
        × (run_cases A py attempt empty_report (earlier ++ (case ∷ rest))
            ≡ (map progress (prefixes rows), ending))
  run_cases-stops earlier case rest ending complete halts =
      let (rows, tried, seen) = recorded earlier complete in
      (
        rows,
        seen,
        stops_from [] earlier rows case rest ending tried (try_case-Halts case ending halts),
      )

  pub finishes_with :
      (report : Report) (row : CaseRow) (kept : List CaseRow)
      → report.cases ≡ row ∷ kept
      → run_cases A py attempt report [] ≡ (complete_report report ∷ [], Ending.finished)
  unfolding run_cases
  finishes_with report row kept h = rw h refl

  finishes_from :
      (first : CaseRow) (kept : List CaseRow) (cases : List TestCase) (rows : List CaseRow)
      → Tried cases rows
      → run_cases A py attempt (progress (first ∷ kept)) cases
        ≡ (growing (first ∷ kept) rows ++ (final ((first ∷ kept) ++ rows) ∷ []), Ending.finished)
  unfolding run_cases append_row complete_report
  finishes_from first kept [] [] tried =
      ap (λ (rows : List CaseRow). (final rows ∷ [], Ending.finished))
        (sym (append-nil (first ∷ kept)))
  finishes_from first kept [] (r ∷ rows) tried = absurd tried
  finishes_from first kept (c ∷ cases) [] tried = absurd tried
  finishes_from first kept (c ∷ cases) (r ∷ rows) tried =
      rw
        (
          run_cases,
          tried.0,
          finishes_from first (kept ++ (r ∷ [])) cases rows tried.1,
          regrouped (first ∷ kept) r (prefixes rows),
          append_assoc kept (r ∷ []) rows,
        )
        refl

  -- Where there are cases, and every case opens its gate and is read afterwards, the program
  -- finishes: each case has a row that records it, and what is saved is a report for the first
  -- row, for the first two and so on to all of them, none of which is complete, and at last the
  -- complete report of all rows, with the counts of the correct ones, of those whose raw route is
  -- correct and of all.
  pub run_cases-finishes :
      (case : TestCase) (cases : List TestCase)
      → All Completes (case ∷ cases)
      → (rows : List CaseRow) × AllRecorded (case ∷ cases) rows
        × (run_cases A py attempt empty_report (case ∷ cases)
            ≡ (map progress (prefixes rows) ++ (final rows ∷ []), Ending.finished))
  unfolding run_cases append_row
  run_cases-finishes case cases complete =
      let (row, tried, seen) = try_case-Records case complete.0 in
      let (rows, later, all_seen) = recorded cases complete.1 in
      (
        row ∷ rows,
        (seen, all_seen),
        rw
            (
              run_cases,
              tried,
              finishes_from row [] cases rows later,
              regrouped [] row (prefixes rows),
            )
            refl,
      )
