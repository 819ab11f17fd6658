-- ===== src/Benchmark/Run.antt =====
-- tools/benchmark_decision_android.py, main: the row of a case, the run over the cases, and the
-- report, each state of which is saved. What the world does for a case is an attempt: the probes of
-- the gate, the reply, and the telemetry at the end. The mean and the median of the latencies are
-- not modelled, except that they raise for a report without rows.
pub mod Progress
pub mod Soundness
use pocket_agents_lab.Prelude.{
  ℕ, suc, Bool, true, false, Option, none, some, String, List, [], ◌∷◌, ◌++◌, string_Eq, ◌=?◌,
  if◌then◌else◌, length, take, count_if, ◌⊎◌, inl, inr,
}
use pocket_agents_lab.Replay.{TestCase, Python, expected_route}
use pocket_agents_lab.Replay.Cases.{agent_test_cases}
use pocket_agents_lab.Benchmark.Telemetry.{Reading}
use pocket_agents_lab.Benchmark.Gate.{Probe, Gate, thermal_gate}
use pocket_agents_lab.Benchmark.Choice.{Arithmetic, Reply, Choice, choice_of, guard_route}

pub record Attempt (F : Type 0) : Type 0 where
  pub probes : List Probe
  -- `none` where the request raises.
  pub reply : Option (Reply F)
  pub latency : ℕ
  -- `none` where telemetry raises.
  pub after : Option Reading

-- A row without a route is one whose `error` is set.
pub record CaseRow : Type 0 where
  pub id : String
  pub expected : String
  pub before : Reading
  pub cooldown : ℕ
  pub raw_route : Option String
  pub raw_correct : Bool
  pub route : Option String
  pub correct : Bool
  pub latency : ℕ
  pub after : Reading

pub record Summary : Type 0 where
  pub correct : ℕ
  pub raw_correct : ℕ
  pub total : ℕ

pub record Report : Type 0 where
  pub complete : Bool
  pub cases : List CaseRow
  pub summary : Option Summary

pub data Ending : Type 0 where
  finished : Ending
  -- A case's gate did not open.
  gate_closed : (gate : Gate) → Ending
  -- The telemetry after a case raised.
  telemetry_failed : Ending
  -- statistics.mean of no rows
  no_rows : Ending

module _ (A : Arithmetic) (py : Python) where
  unfoldable pub decided : Option (Reply A.Float) → Option Choice
  unfolding choice_of
  decided none = none
  decided (some reply) = choice_of A py reply

-- The row of a case that was tried: `choice` is `none` where the `try` ends in its handler.
unfoldable pub row_of :
    Python → TestCase → (before : Reading) (cooldown : ℕ) → Option Choice → ℕ → Reading → CaseRow
unfolding guard_route
row_of py case before cooldown none latency after = record {
  id = case.id;
  expected = expected_route case;
  before = before;
  cooldown = cooldown;
  raw_route = none;
  raw_correct = false;
  route = none;
  correct = false;
  latency = latency;
  after = after;
}
row_of py case before cooldown (some choice) latency after =
    let guarded = guard_route py choice case.prompt in
    record {
      id = case.id;
      expected = expected_route case;
      before = before;
      cooldown = cooldown;
      raw_route = some choice.route;
      raw_correct = choice.route =? expected_route case;
      route = some guarded;
      correct = guarded =? expected_route case;
      latency = latency;
      after = after;
    }

-- sum(r["correct"] for r in rows)
abbrev pub count_correct : List CaseRow → ℕ
count_correct = count_if (λ row. row.correct)

abbrev pub count_raw : List CaseRow → ℕ
count_raw = count_if (λ row. row.raw_correct)

abbrev pub empty_report : Report
empty_report = record { complete = false; cases = []; summary = none }

-- report["cases"].append(row)
unfoldable pub append_row : Report → CaseRow → Report
append_row report row = record {
  complete = report.complete;
  cases = report.cases ++ (row ∷ []);
  summary = report.summary;
}

-- report.update(complete=True, …)
unfoldable pub complete_report : Report → Report
complete_report report = record {
  complete = true;
  cases = report.cases;
  summary = some (record {
    correct = count_correct report.cases;
    raw_correct = count_raw report.cases;
    total = length report.cases;
  });
}

module _ (A : Arithmetic) (py : Python) (attempt : TestCase → Attempt A.Float) where
  -- What follows the gate, where it opened.
  abbrev pub when_open : Gate → (Reading → ℕ → Ending ⊎ CaseRow) → Ending ⊎ CaseRow
  when_open (Gate.opened before cooldown) go_on = go_on before cooldown
  when_open gate go_on = inl (Ending.gate_closed gate)

  -- The rest of the round, with the telemetry at its end.
  unfoldable pub measure : TestCase → (before : Reading) (cooldown : ℕ) → Ending ⊎ CaseRow
  unfolding decided row_of
  measure case before cooldown = elim (attempt case).after [
    | none ↦ inl Ending.telemetry_failed
    | some after ↦ inr (
        row_of py case before cooldown (decided A py (attempt case).reply) (attempt case).latency
          after)
  ]

  -- One round of the loop: the row, or how the program ends.
  unfoldable pub try_case : TestCase → Ending ⊎ CaseRow
  unfolding thermal_gate measure
  try_case case = when_open (thermal_gate (attempt case).probes) (measure case)

  -- The reports that are saved, in order, and how the program ends.
  unfoldable pub run_cases : Report → List TestCase → List Report × Ending
  unfolding try_case append_row complete_report
  run_cases report [] = elim report.cases [
    | [] ↦ ([], Ending.no_rows)
    | _ ∷ _ ↦ (complete_report report ∷ [], Ending.finished)
  ]
  run_cases report (case ∷ cases) = elim (try_case case) [
    | inl ending ↦ ([], ending)
    | inr row ↦
        let (saves, ending) = run_cases (append_row report row) cases in
        (append_row report row ∷ saves, ending)
  ]

  unfoldable pub benchmark : (limit : ℕ) → List Report × Ending
  unfolding run_cases
  benchmark limit =
      let (saves, ending) = run_cases empty_report (take limit agent_test_cases) in
      (empty_report ∷ saves, ending)
