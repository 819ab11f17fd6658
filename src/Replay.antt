-- ===== src/Replay.antt =====
-- tools/replay_agent_pilot.py: expected routes, the relevance guard, the parsing of a decision and
-- the scoring of the replay. `str.lower`, the white space of `str.strip` and `json.loads` are a
-- parameter; of a decision the members `action` and `name` are kept, which are texts or null. The replies
-- of the model are an argument; a reply's latency and the text of an error are not modelled.
pub mod Cases
pub mod Fence
pub mod Scores
use Prim.Native.String.{◌++◌ as ◌⋯◌}
use pocket_agents_lab.Prelude.{
  ℕ, suc, ◌+◌, Bool, true, false, ◌&&◌, ◌||◌, Option, none, some, String, List, [], ◌∷◌,
  if◌then◌else◌, string_Eq, ◌=?◌, Text, codes, has_prefix, has_part, remove_prefix, strip, ◌==◌,
}

pub record TestCase : Type 0 where
  pub id : String
  pub prompt : String
  pub expected_tool : Option String
  pub expected_workflow : Option String

-- A member of a JSON object: it may be missing, or null, which is Python's None.
pub data Member : Type 0 where
  missing null : Member
  given : (value : String) → Member

pub record Decision : Type 0 where
  pub action : Member
  pub name : Member

-- object.get(key), where `none` is None
unfoldable pub get : Member → Option String
get Member.missing = none
get Member.null = none
get (Member.given value) = some value

-- `str.lower`, the white space that `str.strip` strips, and `json.loads`, `none` where it raises.
pub record Python : Type 0 where
  pub lower : Text → Text
  pub is_space : ℕ → Bool
  pub loads : Text → Option Decision

abbrev pub relevance_keywords : List (String × List String)
relevance_keywords =
    (
      "get_device_info",
      "android" ∷ "phone" ∷ "device" ∷ "model" ∷ "manufacturer" ∷ "ram" ∷ "abi" ∷ "hardware" ∷ [],
    )
    ∷ (
      "get_battery_info",
      "battery" ∷ "charge" ∷ "charging" ∷ "power" ∷ "temperature" ∷ "hot" ∷ "cool" ∷ [],
    )
    ∷ ("get_storage_info", "storage" ∷ "space" ∷ "disk" ∷ "room" ∷ "fit" ∷ "capacity" ∷ [])
    ∷ ("phone_health_check", "health" ∷ "condition" ∷ "readiness" ∷ "check everything" ∷ [])
    ∷ []

-- RELEVANCE_KEYWORDS.get(name)
pub keywords_of : String → List (String × List String) → Option (List String)
keywords_of name [] = none
keywords_of name ((key, keywords) ∷ table) =
    if name =? key then some keywords else keywords_of name table

-- any(k in text for k in keywords)
pub any_part : List String → Text → Bool
any_part [] text = false
any_part (k ∷ keywords) text = has_part (codes k) text || any_part keywords text

unfoldable pub is_decision_relevant : Python → Option String → String → Bool
unfolding keywords_of any_part
is_decision_relevant py none prompt = true
is_decision_relevant py (some tool_or_workflow) prompt =
    elim (keywords_of tool_or_workflow relevance_keywords) [
      | none ↦ true
      | some keywords ↦ any_part keywords (py.lower (codes prompt))
    ]

-- A text, unless it is empty: the truth of an optional text.
unfoldable pub nonempty : Option String → Option String
nonempty none = none
nonempty (some text) = if text =? "" then none else some text

pub route_for : (workflow tool : Option String) → String
route_for (some workflow) tool = "workflow:" ⋯ workflow
route_for none (some tool) = "tool:" ⋯ tool
route_for none none = "answer"

pub expected_route : TestCase → String
unfolding nonempty route_for
expected_route case = route_for (nonempty case.expected_workflow) (nonempty case.expected_tool)

abbrev pub fence : Text
fence = codes "```"

abbrev pub is_tick : ℕ → Bool
is_tick c = c == b'`'

unfoldable pub parse_route_json : Python → Text → Option Decision
parse_route_json py raw =
    let trimmed = strip py.is_space raw in
    if has_prefix fence trimmed
    then py.loads (strip py.is_space (remove_prefix (codes "json") (strip is_tick trimmed)))
    else py.loads trimmed

-- decision.get("action") == action
unfoldable pub has_action : Decision → String → Bool
unfolding get
has_action decision action = elim (get decision.action) [ none ↦ false | some a ↦ a =? action ]

-- f"{kind}{decision['name']}", which raises where there is no name
unfoldable pub named_route : String → Member → Option String
named_route kind Member.missing = none
named_route kind Member.null = some (kind ⋯ "None")
named_route kind (Member.given name) = some (kind ⋯ name)

-- `none` where the source raises.
unfoldable pub actual_route : Decision → Option String
unfolding get has_action named_route nonempty
actual_route decision =
    if has_action decision "workflow"
    then named_route "workflow:" decision.name
    else if has_action decision "tool"
    then named_route "tool:" decision.name
    else some (elim (nonempty (get decision.action)) [ none ↦ "invalid" | some action ↦ action ])

-- decision.get("name") if decision.get("action") in ("tool", "workflow") else None
unfoldable pub guarded_name : Decision → Option String
unfolding get has_action
guarded_name decision =
    if has_action decision "tool" || has_action decision "workflow" then get decision.name else none

-- The guard: a route whose tool or workflow is not relevant to the prompt becomes "answer".
unfoldable pub guarded : Bool → Option String → Option String
guarded relevant none = none
guarded relevant (some route) = some (if relevant then route else "answer")

-- The body of the `try`, for the decision that was parsed: the route, `none` where it raises.
unfoldable pub route_of : Python → TestCase → Option Decision → Option String
unfolding actual_route guarded_name is_decision_relevant guarded
route_of py case none = none
route_of py case (some decision) =
    guarded (is_decision_relevant py (guarded_name decision) case.prompt) (actual_route decision)

-- An entry of `results`; `failed` is true where `error` is set.
pub record CaseResult : Type 0 where
  pub id : String
  pub prompt : String
  pub expected : String
  pub actual : String
  pub correct : Bool
  pub raw : Text
  pub failed : Bool

pub result_of : TestCase → Text → Option String → CaseResult
unfolding expected_route
result_of case raw decided =
    let route : String = elim decided [ none ↦ "invalid" | some route ↦ route ] in
    record {
      id = case.id;
      prompt = case.prompt;
      expected = expected_route case;
      actual = route;
      correct = route =? expected_route case;
      raw = raw;
      failed = elim decided [ none ↦ true | some _ ↦ false ];
    }

unfoldable pub replay_case : Python → TestCase → Text → CaseResult
unfolding parse_route_json route_of result_of
replay_case py case raw = result_of case raw (route_of py case (parse_route_json py raw))

-- The loop of `main`: `correct` and the results, for each case with the reply to it.
unfoldable pub replay : Python → ℕ → List (TestCase × Text) → ℕ × List CaseResult
unfolding replay_case
replay py correct [] = (correct, [])
replay py correct ((case, raw) ∷ replies) =
    let result = replay_case py case raw in
    let (total, results) = replay py (if result.correct then correct + 1 else correct) replies in
    (total, result ∷ results)
