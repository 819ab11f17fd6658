-- ===== src/Replay/Scores.antt =====
-- What a case of the replay scores.
use Prim.Native.String.{◌++◌ as ◌⋯◌}
use pocket_agents_lab.Prelude.{
  if◌then◌else◌, refl, some, none, string_Eq, [], ◌∷◌, String, Text, ℕ, ◌=?◌, ◌≡◌, Bool, Option,
  List, false, true, ◌+◌, ◌⊎◌, ◌↔◌, count_if, length, arith, inl, inr, has_prefix, codes, ◌≢◌,
  Bool-cases, ap, codes-append, true≢false, sym, ◌∙◌, ◌≤◌, count_if-le-length,
}
use pocket_agents_lab.Replay.{
  Python, TestCase, Decision, expected_route, replay_case, replay, parse_route_json, actual_route,
  guarded_name, is_decision_relevant, route_of, result_of, guarded, nonempty, route_for, CaseResult,
}

-- Texts that are equal have the same first characters.
differ :
    (s t : String)
    → has_prefix (codes "i") (codes s) ≢ has_prefix (codes "i") (codes t)
    → (s =? t) ≡ false
differ s t h = elim (Bool-cases (s =? t)) [
  | inl same ↦
      absurd (h (ap (λ u. has_prefix (codes "i") (codes u)) ((string_Eq.equal_iff s t).0 same)))
  | inr other ↦ other
]

route_for-valid : (workflow tool : Option String) → ("invalid" =? route_for workflow tool) ≡ false
unfolding route_for has_prefix
route_for-valid (some workflow) tool =
    differ "invalid" ("workflow:" ⋯ workflow) (rw (codes-append "workflow:" workflow) true≢false)
route_for-valid none (some tool) =
    differ "invalid" ("tool:" ⋯ tool) (rw (codes-append "tool:" tool) true≢false)
route_for-valid none none = refl

expected_route-valid : (case : TestCase) → ("invalid" =? expected_route case) ≡ false
unfolding expected_route
expected_route-valid case =
    route_for-valid (nonempty case.expected_workflow) (nonempty case.expected_tool)

-- The decision that is scored as correct: it has a route, and either the guard lets it through and
-- the route is the expected one, or the guard turns it into an answer and that is expected.
abbrev pub IsRight : Python → TestCase → Decision → Type 0
IsRight py case d =
    (route : String) × (actual_route d ≡ some route)
    × ((is_decision_relevant py (guarded_name d) case.prompt ≡ true) × (route ≡ expected_route case)
        ⊎ (is_decision_relevant py (guarded_name d) case.prompt ≡ false)
          × (expected_route case ≡ "answer"))

guard_scores :
    (route expected : String) (relevant : Bool)
    → (((if relevant then route else "answer") =? expected) ≡ true)
      ↔ ((relevant ≡ true) × (route ≡ expected) ⊎ (relevant ≡ false) × (expected ≡ "answer"))
guard_scores route expected true = (
  λ h. inl (refl, (string_Eq.equal_iff route expected).0 h),
  λ h. elim h [
    | inl p ↦ (string_Eq.equal_iff route expected).1 p.1
    | inr p ↦ absurd (true≢false p.0)
  ],
)
guard_scores route expected false = (
  λ h. inr (refl, sym ((string_Eq.equal_iff "answer" expected).0 h)),
  λ h. elim h [
    | inl p ↦ absurd (true≢false (sym p.0))
    | inr p ↦ (string_Eq.equal_iff "answer" expected).1 (sym p.1)
  ],
)

guarded-IsRight :
    (case : TestCase) (raw : Text) (relevant : Bool) (decided : Option String)
    → ((result_of case raw (guarded relevant decided)).correct ≡ true) ↔ (
        (route : String) × (decided ≡ some route)
        × ((relevant ≡ true) × (route ≡ expected_route case)
            ⊎ (relevant ≡ false) × (expected_route case ≡ "answer")))
unfolding result_of guarded
guarded-IsRight case raw relevant none =
    (λ h. absurd (true≢false (sym h ∙ expected_route-valid case)), λ h. ground (arith, h.1))
guarded-IsRight case raw relevant (some route) = (
  λ h. (route, refl, (guard_scores route (expected_route case) relevant).0 h),
  λ h.
      let same : route ≡ h.0 = cc (h.1) in
      rw same ((guard_scores h.0 (expected_route case) relevant).1 h.2),
)

result_of-IsRight :
    (py : Python) (case : TestCase) (raw : Text) (parsed : Option Decision)
    → ((result_of case raw (route_of py case parsed)).correct ≡ true)
      ↔ ((d : Decision) × (parsed ≡ some d) × IsRight py case d)
unfolding route_of result_of
result_of-IsRight py case raw none =
    (λ h. absurd (true≢false (sym h ∙ expected_route-valid case)), λ h. ground (arith, h.1))
result_of-IsRight py case raw (some d) =
    let relevant = is_decision_relevant py (guarded_name d) case.prompt in
    (
      λ h. (d, refl, (guarded-IsRight case raw relevant (actual_route d)).0 h),
      λ h.
          (guarded-IsRight case raw relevant (actual_route d)).1
            (let same : d ≡ h.0 = cc (h.1) in rw same (h.2)),
    )

-- A reply is scored as correct exactly when it parses to a decision with a route such that the
-- relevance guard lets the decision through and the route is the expected one, or the guard stops
-- it and the expected route is "answer".
pub replay_case-correct_iff :
    (py : Python) (case : TestCase) (raw : Text)
    → ((replay_case py case raw).correct ≡ true)
      ↔ ((d : Decision) × (parse_route_json py raw ≡ some d) × IsRight py case d)
unfolding replay_case
replay_case-correct_iff py case raw = result_of-IsRight py case raw (parse_route_json py raw)

count-replay :
    (py : Python) (k : ℕ) (replies : List (TestCase × Text))
    → ((replay py k replies).0 ≡ k + count_if (λ result. result.correct) (replay py k replies).1)
      × (length (replay py k replies).1 ≡ length replies)
unfolding replay
count-replay py k [] = (omega arith, refl)
count-replay py k ((case, raw) ∷ replies) =
    ground (arith, count-replay py k replies, count-replay py (k + 1) replies)

-- The replay of any cases reports as many results as there are cases, and `correct` is the number
-- of results that are correct, so it is at most the number of cases.
replay-counts :
    (py : Python) (replies : List (TestCase × Text))
    → ((replay py 0 replies).0 ≡ count_if (λ result. result.correct) (replay py 0 replies).1)
      × (length (replay py 0 replies).1 ≡ length replies)
      × ((replay py 0 replies).0 ≤ length replies)
replay-counts py replies = omega (
  arith,
  count-replay py 0 replies,
  count_if-le-length (λ (result : CaseResult). result.correct) (replay py 0 replies).1,
)
