-- ===== src/Evaluation/Intents.antt =====
-- tools/evaluate_phone_routing_model.py, _balanced_intent_dataset: the same number of rows of every
-- intent, none of which is a state of the training data. The tables of Unicode are a parameter, in
-- which the characters of a word are those that are no white space.
pub mod Balance
use pocket_agents_lab.Prelude.{
  ℕ, min, Bool, true, false, not, String, List, [], ◌∷◌, ◌++◌, map, Text, codes, contains, list_Eq,
  nat_Eq, string_Eq, keep_if, group_by, sort_by, Groups, length, if◌then◌else◌, ◌==◌, ◌=?◌,
  group_names,
}
use pocket_agents_lab.Random.{Rng}
use pocket_agents_lab.Mixture.{str_le}
use pocket_agents_lab.Mixture.Clean.{Unicode, normalize}

pub record IntentRow : Type 0 where
  pub text : Text
  pub label : String
  pub source_index : ℕ

-- Of the question the criteria, of the gold the label and the options with a probability of 1.
pub record IntentItem : Type 0 where
  pub state : Text
  pub criteria : List (String × Text)
  pub label : String
  pub probabilities : List (String × Bool)

abbrev pub is_training : Unicode → List Text → IntentRow → Bool
is_training u training_states row = contains (normalize u row.text) training_states

-- The loop over the labels, with the generator.
pub select : (r : Rng) → ℕ → r.State → Groups String IntentRow → List IntentRow × r.State
select r n s [] = ([], s)
select r n s ((label, rows) ∷ groups) =
    let (chosen, s₁) = r.sample IntentRow s rows (min n (length rows)) in
    let (selected, s₂) = select r n s₁ groups in (chosen ++ selected, s₂)

abbrev pub label_of : IntentRow → String
label_of row = row.label

abbrev pub sorted_labels : List IntentRow → Groups String IntentRow
sorted_labels rows = sort_by (λ g h. str_le g.0 h.0) (group_by label_of rows)

-- k.replace("_", " ").replace("?", "")
pub describe : Text → Text
describe text = keep_if (λ c. not (c == b'?')) (map (λ c. if c == b'_' then b' ' else c) text)

pub item_of : List String → IntentRow → IntentItem
unfolding describe
item_of labels row = record {
  state = row.text;
  criteria = map (λ k. (k, describe (codes k))) labels;
  label = row.label;
  probabilities = map (λ k. (k, k =? row.label)) labels;
}

module _ (r : Rng) (u : Unicode) (rows : List IntentRow) (training_states : List Text) (n : ℕ)
    (seed : ℕ) where
  -- The rows that are not in the training data.
  abbrev pub fresh_rows : List IntentRow
  fresh_rows = keep_if (λ row. not (is_training u training_states row)) rows

  unfoldable pub balanced_rows : List IntentRow
  unfolding select
  balanced_rows =
      let (selected, s) = select r n (r.seeded seed) (sorted_labels fresh_rows) in
      (r.shuffle IntentRow s selected).0

  pub balanced_intent_dataset : List IntentItem
  unfolding item_of balanced_rows
  balanced_intent_dataset = map (item_of (group_names (sorted_labels fresh_rows))) balanced_rows
