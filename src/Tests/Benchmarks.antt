-- ===== src/Tests/Benchmarks.antt =====
-- Runs of the benchmark on the phone.
use pocket_agents_lab.Prelude.{
  ℕ, suc, ◌+◌, ◌*◌, ◌-◌, true, none, some, List, [], ◌∷◌, ◌++◌, ◌≡◌, ◌≢◌, ◌↔◌, refl, inl, inr, All,
  length, ltb, codes, arith, string_Eq, ◌==◌, zero, if◌then◌else◌, ◌=?◌, map,
}
use pocket_agents_lab.Tests.Instances.{python}
use pocket_agents_lab.Replay.{TestCase, route_of, Member}
use pocket_agents_lab.Benchmark.Telemetry.{Reading}
use pocket_agents_lab.Benchmark.Gate.{Probe, Gate, second, thermal_gate}
use pocket_agents_lab.Benchmark.Gate.Opening.{Opens, thermal_gate-Opens_iff}
use pocket_agents_lab.Benchmark.Gate.Timing.{Paced, thermal_gate-ends}
use pocket_agents_lab.Benchmark.Thinking.{open_tag, close_tag, thinking_object}
use pocket_agents_lab.Benchmark.Thinking.Extraction.{object_of, thinking_object-tagged}
use pocket_agents_lab.Benchmark.Choice.{Arithmetic, Reply, Choice, choose, guard_route}
use pocket_agents_lab.Benchmark.Choice.Agreement.{decision_of, choose-agrees}
use pocket_agents_lab.Benchmark.Run.{
  Attempt, CaseRow, Ending, row_of, run_cases, benchmark, empty_report,
}
use pocket_agents_lab.Benchmark.Run.Progress.{
  run_cases-finishes, run_cases-stops, Completes, AllRecorded, progress, prefixes, final,
}
use pocket_agents_lab.Benchmark.Run.Soundness.{IsSound, benchmark-IsSound}

-- Fixed-point numbers with four digits.
abbrev pub fixed_point : Arithmetic
fixed_point = record {
  Float = ℕ;
  zero_float = 0;
  one_float = 10000;
  hundredth = 100;
  plus = λ a b. a + b;
  distance = λ a b. (a - b) + (b - a);
  exceeds = λ a b. ltb b a;
}

abbrev hot_reading : Reading
hot_reading = record { temperature = some 395; status = some 2; pss_kb = none; usb_powered = true }

abbrev pub cool_reading : Reading
cool_reading = record {
  temperature = some 361;
  status = some 0;
  pss_kb = some 780270;
  usb_powered = true;
}

abbrev two_probes : List Probe
two_probes =
    record { reading = some hot_reading; elapsed = 1 }
    ∷ record { reading = some cool_reading; elapsed = 10 * second + 2 }
    ∷ []

abbrev storage_case : TestCase
storage_case = record {
  id = "storage-01";
  prompt = "How much storage is left?";
  expected_tool = some "get_storage_info";
  expected_workflow = none;
}

abbrev joke_case : TestCase
joke_case = record {
  id = "answer-01";
  prompt = "Tell me a joke.";
  expected_tool = none;
  expected_workflow = none;
}

-- Every case is tried on a phone that cools, with a model that always calls the storage tool.
abbrev pub steady : TestCase → Attempt ℕ
steady case = record {
  probes = two_probes;
  reply = some (Reply.chat (codes "{t}"));
  latency = 5;
  after = some cool_reading;
}

abbrev storage_choice : Choice
storage_choice = record { chosen = "get_storage_info"; route = "tool:get_storage_info" }

abbrev pub row_for : TestCase → CaseRow
row_for case =
    row_of python case cool_reading (10 * second + 2) (some storage_choice) 5 cool_reading

benchmark-IsSound_example : All IsSound (benchmark fixed_point python steady 2).0
benchmark-IsSound_example = benchmark-IsSound fixed_point python steady 2

steady-Completes : (case : TestCase) → Completes fixed_point python steady case
unfolding thermal_gate
steady-Completes case = (cool_reading, 10 * second + 2, cool_reading, refl, refl)

run_cases-finishes_example :
    (rows : List CaseRow) × AllRecorded fixed_point python steady
      (storage_case ∷ joke_case ∷ [])
      rows
    × (run_cases fixed_point python steady empty_report (storage_case ∷ joke_case ∷ [])
        ≡ (map progress (prefixes rows) ++ (final rows ∷ []), Ending.finished))
run_cases-finishes_example =
    run_cases-finishes fixed_point python steady storage_case (joke_case ∷ [])
      (steady-Completes storage_case, (steady-Completes joke_case, tt))

thermal_gate-Opens_iff_example :
    (thermal_gate two_probes ≡ Gate.opened cool_reading (10 * second + 2))
    ↔ Opens two_probes cool_reading (10 * second + 2)
thermal_gate-Opens_iff_example = thermal_gate-Opens_iff two_probes cool_reading (10 * second + 2)

-- Probes of a phone that stays hot, one every ten seconds.
hot_probes : ℕ → ℕ → List Probe
hot_probes zero t = []
hot_probes (suc n) t =
    record { reading = some hot_reading; elapsed = t } ∷ hot_probes n (t + 10 * second)

hot_probes-Paced : (n t : ℕ) → Paced t (hot_probes n t)
unfolding hot_probes
hot_probes-Paced zero t = tt
hot_probes-Paced (suc n) t = (omega arith, hot_probes-Paced n (t + 10 * second))

length-hot_probes : (n t : ℕ) → length (hot_probes n t) ≡ n
unfolding hot_probes
length-hot_probes zero t = refl
length-hot_probes (suc n) t = omega (arith, length-hot_probes n (t + 10 * second))

thermal_gate-ends_example : thermal_gate (hot_probes 182 0) ≢ Gate.waiting
thermal_gate-ends_example =
    thermal_gate-ends (hot_probes 182 0) (hot_probes-Paced 182 0)
      (omega (arith, length-hot_probes 182 0))

choose-agrees_example :
    route_of python storage_case (some (decision_of "tool" (Member.given "get_storage_info")))
    ≡ some (guard_route python storage_choice "How much storage is left?")
unfolding choose
choose-agrees_example =
    choose-agrees python storage_case "tool" (Member.given "get_storage_info") storage_choice
      (inr (inl refl)) (λ h. cc) refl

thinking_object-tagged_example :
    thinking_object
      (λ c. c == b' ')
      (record {
        content = some (
            open_tag
            ++ (codes "hm, disk"
                ++ (close_tag ++ (codes " " ++ (object_of (codes "t") ++ codes " ")))));
        reasoning_content = none;
      })
    ≡ some (object_of (codes "t"))
thinking_object-tagged_example =
    thinking_object-tagged (λ c. c == b' ') none (codes "hm, disk") (codes " ") (codes "t")
      (codes " ") refl refl (refl, (refl, (refl, (refl, (refl, (refl, (refl, (refl, tt))))))))
      (refl, (refl, (refl, (refl, (refl, tt))))) ((refl, refl), tt) (refl, tt) (refl, tt)

-- A phone that cannot be read before the joke.
abbrev failing : TestCase → Attempt ℕ
failing case = record {
  probes =
      if case.id =? "answer-01" then record { reading = none; elapsed = 0 } ∷ [] else two_probes;
  reply = some (Reply.chat (codes "{t}"));
  latency = 5;
  after = some cool_reading;
}

run_cases-stops_example :
    (rows : List CaseRow) × AllRecorded fixed_point python failing (storage_case ∷ []) rows
    × (run_cases fixed_point python failing empty_report
          (storage_case ∷ joke_case ∷ storage_case ∷ [])
        ≡ (map progress (prefixes rows), Ending.gate_closed Gate.unreadable))
unfolding thermal_gate
run_cases-stops_example =
    run_cases-stops fixed_point python failing (storage_case ∷ []) joke_case (storage_case ∷ [])
      (Ending.gate_closed Gate.unreadable)
      ((cool_reading, 10 * second + 2, cool_reading, refl, refl), tt) (refl, tt)
