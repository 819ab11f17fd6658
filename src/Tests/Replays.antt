-- ===== src/Tests/Replays.antt =====
-- Runs of the replay.
use pocket_agents_lab.Prelude.{
  refl, List, [], ◌∷◌, true, some, none, codes, length, ◌++◌, ◌≡◌, ◌↔◌, Text, has_prefix, strip,
  has_part, Option, String, map, keep_if, not,
}
use pocket_agents_lab.Replay.{
  parse_route_json, replay, replay_case, TestCase, Decision, is_decision_relevant,
}
use pocket_agents_lab.Replay.Cases.{agent_test_cases}
use pocket_agents_lab.Replay.Fence.{IsPlain, object, fenced, parse_route_json-fenced}
use pocket_agents_lab.Replay.Scores.{IsRight, replay_case-correct_iff}
use pocket_agents_lab.Tests.Instances.{python}

agent_test_cases_total : length agent_test_cases ≡ 50
agent_test_cases_total = refl

python-IsPlain : IsPlain python
python-IsPlain = (refl, refl, refl)

parse_route_json-fenced_example :
    (parse_route_json python (codes " " ++ (fenced (codes " ") (codes "t") [] ++ []))
      ≡ python.loads (object (codes "t")))
    × (parse_route_json python (codes " " ++ (object (codes "t") ++ []))
        ≡ python.loads (object (codes "t")))
parse_route_json-fenced_example =
    parse_route_json-fenced python python-IsPlain (codes " ") (codes " ") (codes "t") [] []
      (refl, tt) tt (refl, tt) tt

abbrev disk_case : TestCase
disk_case = record {
  id = "storage-03";
  prompt = "Am I running out of disk space?";
  expected_tool = some "get_storage_info";
  expected_workflow = none;
}

replay_case-correct_iff_example : ((replay_case python disk_case (codes "{t}")).correct ≡ true) ↔ (
    (d : Decision) × (parse_route_json python (codes "{t}") ≡ some d) × IsRight python disk_case d)
replay_case-correct_iff_example = replay_case-correct_iff python disk_case (codes "{t}")

abbrev replies : List (TestCase × Text)
replies = (disk_case, codes "{t}") ∷ (disk_case, codes "{}") ∷ []

-- The second reply does not parse.
replay_run : (replay python 0 replies).0 ≡ 1
unfolding replay has_prefix strip has_part
replay_run = refl

-- The name that the right decision for a case has.
abbrev expected_name : TestCase → Option String
expected_name case = elim case.expected_workflow [
  | some workflow ↦ some workflow
  | none ↦ case.expected_tool
]

-- The cases for which the guard stops even the right decision.
rejected_cases_run :
    map
      (λ case. case.id)
      (keep_if
        (λ case. not (is_decision_relevant python (expected_name case) case.prompt))
        agent_test_cases)
    ≡ "storage-05" ∷ "device-04" ∷ "health-04" ∷ "health-06" ∷ "health-08" ∷ "health-09" ∷ []
unfolding is_decision_relevant has_part has_prefix
rejected_cases_run = refl
