-- ===== src/Benchmark/Choice/Agreement.antt =====
-- tools/benchmark_decision_android.py and tools/replay_agent_pilot.py: the guard of the benchmark
-- against the one of the replay, on the same decision.
use Prim.Native.String.{◌++◌ as ◌⋯◌}
use text.Mathlib.TextLemmas.{append_assoc}
use pocket_agents_lab.Prelude.{
  false, some, String, ◌≡◌, ◌≢◌, refl, ap, inl, inr, ◌⊎◌, ◌=?◌, string_Eq, Bool-cases, contains,
}
use pocket_agents_lab.Replay.{
  TestCase, Decision, Member, get, Python, route_of, actual_route, guarded_name, guarded,
  has_action, named_route, nonempty, is_decision_relevant,
}
use pocket_agents_lab.Benchmark.Choice.{
  Choice, choose, pick_choice, route_with, guard_route, criteria,
}

abbrev pub decision_of : String → Member → Decision
decision_of action name = record { action = Member.given action; name = name }

unequal : (name : String) → Member.given name ≢ Member.given "answer" → (name =? "answer") ≡ false
unequal name other = elim (Bool-cases (name =? "answer")) [
  | inr h ↦ h
  | inl h ↦ absurd (other (ap Member.given ((string_Eq.equal_iff name "answer").0 h)))
]

module _ (py : Python) (case : TestCase) where
  answer_agrees :
      (name : Member) (choice : Choice)
      → choose (decision_of "answer" name) ≡ some choice
      → route_of py case (some (decision_of "answer" name))
        ≡ some (guard_route py choice case.prompt)
  unfolding choose pick_choice route_with route_of actual_route guarded_name guarded has_action get
      nonempty guard_route is_decision_relevant contains
  answer_agrees name choice h =
      let same : record { chosen = "answer"; route = "answer" } ≡ choice = cc in rw (← same) refl

  pick_choice-made :
      (action name : String) (choice : Choice)
      → (name =? "answer") ≡ false
      → pick_choice (some action) (some name) ≡ some choice
      → record { chosen = name; route = action ⋯ (":" ⋯ name) } ≡ choice
  unfolding pick_choice route_with
  pick_choice-made action name choice other h = elim (Bool-cases (contains name criteria)) [
    | inr unknown ↦ absurd (let made = rw (pick_choice, unknown) at h in cc)
    | inl known ↦ let made = rw (pick_choice, known, route_with, other) at h in cc
  ]

  named_agrees :
      (action name : String) (choice : Choice)
      → actual_route (decision_of action (Member.given name)) ≡ some (action ⋯ (":" ⋯ name))
      → guarded_name (decision_of action (Member.given name)) ≡ some name
      → pick_choice (some action) (some name) ≡ some choice
      → (name =? "answer") ≡ false
      → route_of py case (some (decision_of action (Member.given name)))
        ≡ some (guard_route py choice case.prompt)
  unfolding route_of guarded guard_route
  named_agrees action name choice routed named h other =
      rw (← pick_choice-made action name choice other h, route_of, routed, named, other) refl

  tool_agrees :
      (name : Member) (choice : Choice)
      → name ≢ Member.given "answer"
      → choose (decision_of "tool" name) ≡ some choice
      → route_of py case (some (decision_of "tool" name)) ≡ some (guard_route py choice case.prompt)
  unfolding choose pick_choice get actual_route guarded_name has_action named_route
  tool_agrees Member.missing choice other h = absurd cc
  tool_agrees Member.null choice other h = absurd cc
  tool_agrees (Member.given name) choice other h =
      named_agrees "tool" name choice (ap some (append_assoc "tool" ":" name)) refl h
        (unequal name other)

  workflow_agrees :
      (name : Member) (choice : Choice)
      → name ≢ Member.given "answer"
      → choose (decision_of "workflow" name) ≡ some choice
      → route_of py case (some (decision_of "workflow" name))
        ≡ some (guard_route py choice case.prompt)
  unfolding choose pick_choice get actual_route guarded_name has_action named_route
  workflow_agrees Member.missing choice other h = absurd cc
  workflow_agrees Member.null choice other h = absurd cc
  workflow_agrees (Member.given name) choice other h =
      named_agrees "workflow" name choice (ap some (append_assoc "workflow" ":" name)) refl h
        (unequal name other)

  -- Where the benchmark makes a choice of a decision whose action is "answer", "tool" or
  -- "workflow" and whose name is not "answer", the route of the replay for the same decision and
  -- case is the route of the benchmark behind its guard.
  pub choose-agrees :
      (action : String) (name : Member) (choice : Choice)
      → (action ≡ "answer") ⊎ ((action ≡ "tool") ⊎ (action ≡ "workflow"))
      → name ≢ Member.given "answer"
      → choose (decision_of action name) ≡ some choice
      → route_of py case (some (decision_of action name)) ≡ some (guard_route py choice case.prompt)
  choose-agrees action name choice (inl answers) other h =
      rw answers (answer_agrees name choice (rw answers at h))
  choose-agrees action name choice (inr (inl tool)) other h =
      rw tool (tool_agrees name choice other (rw tool at h))
  choose-agrees action name choice (inr (inr workflow)) other h =
      rw workflow (workflow_agrees name choice other (rw workflow at h))
