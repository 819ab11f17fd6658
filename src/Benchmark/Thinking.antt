-- ===== src/Benchmark/Thinking.antt =====
-- tools/benchmark_decision_android.py, main in chat mode with thinking: the content of the message
-- without its thinking tags, and the first JSON object of it. `re.sub` goes on behind each match,
-- which is run on fuel here: the length of the text is enough.
pub mod Extraction
pub mod Fuel
use pocket_agents_lab.Prelude.{
  ℕ, zero, suc, Bool, Option, none, some, [], ◌∷◌, if◌then◌else◌, Text, codes, has_prefix,
  drop_prefix, strip, ◌==◌, length,
}

abbrev pub open_tag : Text
open_tag = codes "<think>"

abbrev pub close_tag : Text
close_tag = codes "</think>"

-- What stands behind the first closing tag.
unfoldable pub after_close : Text → Option Text
after_close [] = none
after_close (c ∷ text) =
    let rest = after_close text in
    if has_prefix close_tag (c ∷ text) then some (drop_prefix close_tag (c ∷ text)) else rest

-- Where a match of <think>.*?</think> at the front of the text ends.
unfoldable pub think_end : Text → Option Text
unfolding after_close
think_end text = if has_prefix open_tag text then after_close (drop_prefix open_tag text) else none

unfoldable pub sub_think : (fuel : ℕ) → Text → Text
unfolding think_end
sub_think zero text = text
sub_think (suc fuel) [] = []
sub_think (suc fuel) (c ∷ text) = elim (think_end (c ∷ text)) [
  | none ↦ c ∷ sub_think fuel text
  | some rest ↦ sub_think fuel rest
]

-- re.sub(r"<think>.*?</think>", "", text, flags=re.DOTALL)
unfoldable pub remove_thinking : Text → Text
unfolding sub_think
remove_thinking text = sub_think (length text) text

-- What [^{}]*} matches at the front.
unfoldable pub object_rest : Text → Option Text
object_rest [] = none
object_rest (c ∷ text) =
    if c == b'}'
    then some (c ∷ [])
    else if c == b'{'
    then none
    else elim (object_rest text) [ none ↦ none | some rest ↦ some (c ∷ rest) ]

-- _JSON_RE.search(text)
unfoldable pub find_object : Text → Option Text
unfolding object_rest
find_object [] = none
find_object (c ∷ text) =
    if c == b'{'
    then elim (object_rest text) [ none ↦ find_object text | some rest ↦ some (c ∷ rest) ]
    else find_object text

-- The truth of an optional text.
pub nonempty_text : Option Text → Text
nonempty_text none = []
nonempty_text (some text) = text

pub or_text : Text → Text → Text
or_text [] other = other
or_text (c ∷ text) other = c ∷ text

pub record Message : Type 0 where
  pub content : Option Text
  pub reasoning_content : Option Text

pub raw_content : Message → Text
unfolding nonempty_text or_text
raw_content message =
    or_text (nonempty_text message.content) (nonempty_text message.reasoning_content)

-- The text whose first object is parsed.
unfoldable pub clean_content : (ℕ → Bool) → Text → Text
unfolding remove_thinking or_text
clean_content is_space raw = or_text (strip is_space (remove_thinking raw)) (strip is_space raw)

unfoldable pub thinking_object : (ℕ → Bool) → Message → Option Text
unfolding raw_content clean_content find_object
thinking_object is_space message = find_object (clean_content is_space (raw_content message))
