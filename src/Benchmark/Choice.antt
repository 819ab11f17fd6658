-- ===== src/Benchmark/Choice.antt =====
-- tools/benchmark_decision_android.py, main: the choice that a reply makes in each mode, the route
-- it stands for, and the guard. `none` stands for an exception, which the loop turns into a row
-- without a route. The arithmetic of floating-point numbers is a parameter.
pub mod Agreement
use Prim.Native.String.{◌++◌ as ◌⋯◌}
use pocket_agents_lab.Prelude.{
  ℕ, Bool, true, ◌&&◌, ◌||◌, not, Option, none, some, String, List, [], ◌∷◌, map, string_Eq, ◌=?◌,
  if◌then◌else◌, contains, Text, strip, ◌==◌,
}
use pocket_agents_lab.Replay.{Decision, Member, get, Python, is_decision_relevant}
use pocket_agents_lab.Benchmark.Thinking.{Message, thinking_object}

abbrev pub criteria : List String
criteria =
    "answer" ∷ "get_device_info" ∷ "get_battery_info" ∷ "get_storage_info" ∷ "get_media_info"
    ∷ "search_local_files" ∷ "search_notes" ∷ "save_note" ∷ "phone_health_check" ∷ []

pub record Arithmetic : Type 1 where
  pub Float : Type 0
  pub zero_float : Float
  pub one_float : Float
  pub hundredth : Float
  pub plus : Float → Float → Float
  -- abs(a - b)
  pub distance : Float → Float → Float
  pub exceeds : Float → Float → Bool

-- What the decision mode reads of a response.
pub record Answer (F : Type 0) : Type 0 where
  pub choice : String
  pub probabilities : List (String × F)
  pub output_tokens : ℕ

-- The response of the model in each of the modes.
pub data Reply (F : Type 0) : Type 0 where
  raw : (text : Text) → Reply F
  decision : (answer : Answer F) → Reply F
  chat : (content : Text) → Reply F
  thinking : (message : Message) → Reply F

-- The name chosen, and the route.
pub record Choice : Type 0 where
  pub chosen : String
  pub route : String

-- set(keys) == set(names)
unfoldable pub all_in : List String → List String → Bool
unfolding contains
all_in [] names = true
all_in (key ∷ keys) names = contains key names && all_in keys names

pub same_set : List String → List String → Bool
unfolding all_in
same_set keys names = all_in keys names && all_in names keys

abbrev pub key_of : {F : Type 0} → String × F → String
key_of entry = entry.0

module _ (A : Arithmetic) where
  pub total_from : A.Float → List (String × A.Float) → A.Float
  total_from sum [] = sum
  total_from sum ((name, p) ∷ probabilities) = total_from (A.plus sum p) probabilities

  pub is_normalized : List (String × A.Float) → Bool
  unfolding total_from
  is_normalized probabilities =
      not (A.exceeds (A.distance (total_from A.zero_float probabilities) A.one_float) A.hundredth)

-- "answer" if chosen == "answer" else decision["action"] + ":" + chosen, which raises where the
-- action is null
unfoldable pub route_with : (action : Option String) → String → Option String
route_with action chosen =
    if chosen =? "answer"
    then some "answer"
    else elim action [ none ↦ none | some action ↦ some (action ⋯ (":" ⋯ chosen)) ]

-- The test on CRITERIA, and the route of the raw and the chat mode.
unfoldable pub pick_choice : (action chosen : Option String) → Option Choice
unfolding contains route_with
pick_choice action none = none
pick_choice action (some chosen) =
    if contains chosen criteria
    then elim (route_with action chosen) [
      | none ↦ none
      | some route ↦ some (record { chosen = chosen; route = route })
    ]
    else none

-- decision.get("name") if decision["action"] != "answer" else "answer", and what follows
unfoldable pub choose : Decision → Option Choice
unfolding get pick_choice
choose object = elim object.action [
  | Member.missing ↦ none
  | Member.null ↦ pick_choice none (get object.name)
  | Member.given action ↦
      pick_choice (some action) (if action =? "answer" then some "answer" else get object.name)
]

pub choose_parsed : Option Decision → Option Choice
unfolding choose
choose_parsed none = none
choose_parsed (some object) = choose object

-- The route of the decision mode.
unfoldable pub route_to : String → String
route_to chosen =
    if chosen =? "answer"
    then "answer"
    else if chosen =? "phone_health_check"
    then "workflow:" ⋯ chosen
    else "tool:" ⋯ chosen

unfoldable pub choose_answer : (A : Arithmetic) → Answer A.Float → Option Choice
unfolding contains same_set is_normalized route_to
choose_answer A answer =
    if contains answer.choice criteria && same_set (map key_of answer.probabilities) criteria
    then if is_normalized A answer.probabilities
      then if answer.output_tokens == 0
        then some (record { chosen = answer.choice; route = route_to answer.choice })
        else none
      else none
    else none

pub parse_object : Python → Option Text → Option Decision
parse_object py none = none
parse_object py (some object) = py.loads object

unfoldable pub choice_of : (A : Arithmetic) → Python → Reply A.Float → Option Choice
unfolding choose_parsed choose_answer thinking_object parse_object
choice_of A py (Reply.raw text) = choose_parsed (py.loads (strip py.is_space text))
choice_of A py (Reply.decision answer) = choose_answer A answer
choice_of A py (Reply.chat content) = choose_parsed (py.loads content)
choice_of A py (Reply.thinking message) =
    choose_parsed (parse_object py (thinking_object py.is_space message))

-- route if chosen == "answer" or is_decision_relevant(chosen, case.prompt) else "answer"
unfoldable pub guard_route : Python → Choice → String → String
unfolding is_decision_relevant
guard_route py choice prompt =
    if (choice.chosen =? "answer") || is_decision_relevant py (some choice.chosen) prompt
    then choice.route
    else "answer"
