-- ===== src/Training/Metrics.antt =====
-- tools/decision_training_utils.py, compute_decision_metrics and decision_metrics_for_items. The
-- floating-point numbers, and the F1 score of scikit-learn, are parameters; an accuracy is a
-- numerator and a denominator. A number that is not below or equal to itself is a NaN.
pub mod Unpadded
use pocket_agents_lab.Prelude.{
  ℕ, zero, suc, Bool, true, false, not, ◌&&◌, ◌||◌, Option, none, some, String, List, [], ◌∷◌, ◌++◌,
  map, length, ◌==◌, count_if, if◌then◌else◌, string_Eq, contains, ◌⊎◌, inr, inl, ◌=?◌,
}

pub record Reals : Type 1 where
  pub Float : Type 0
  pub zero_float : Float
  pub minus_infinity : Float
  pub plus : Float → Float → Float
  pub is_le : Float → Float → Bool
  pub macro_f1 : (labels predictions : List ℕ) → Float

pub data MetricsError : Type 0 where
  shape_mismatch : MetricsError
  no_targets : MetricsError
  gold_mismatch : MetricsError
  missing_label : MetricsError

pub record Metrics (F : Type 0) : Type 0 where
  pub accuracy : ℕ × ℕ
  pub macro_f1 : Option F

module _ (R : Reals) where
  -- targets >= 0
  abbrev pub is_option : R.Float → Bool
  is_option t = R.is_le R.zero_float t

  abbrev pub is_nan : R.Float → Bool
  is_nan x = not (R.is_le x x)

  unfoldable pub any_option : List R.Float → Bool
  any_option [] = false
  any_option (t ∷ targets) = is_option t || any_option targets

  -- np.maximum(targets, 0).sum()
  pub positive_sum : R.Float → List R.Float → R.Float
  positive_sum sum [] = sum
  positive_sum sum (t ∷ targets) =
      positive_sum (R.plus sum (if is_option t || is_nan t then t else R.zero_float)) targets

  pub is_valid : List R.Float → Bool
  unfolding any_option positive_sum
  is_valid targets =
      let sum = positive_sum R.zero_float targets in
      any_option targets && (R.is_le R.zero_float sum && not (R.is_le sum R.zero_float))

  -- np.where(targets >= 0, logits, -np.inf)
  unfoldable pub masked : (logits targets : List R.Float) → List R.Float
  masked [] targets = []
  masked (x ∷ logits) [] = []
  masked (x ∷ logits) (t ∷ targets) =
      (if is_option t then x else R.minus_infinity) ∷ masked logits targets

  -- What numpy lets take the place of a: b is greater, or a NaN, and a is no NaN.
  abbrev pub exceeds_by : (a b : R.Float) → Bool
  exceeds_by a b = not (is_nan a) && not (R.is_le b a)

  -- The loop of argmax: the best position so far with its value, and the next position.
  unfoldable pub argmax_from : (best : ℕ) → R.Float → (next : ℕ) → List R.Float → ℕ
  argmax_from best value next [] = best
  argmax_from best value next (x ∷ xs) = elim (exceeds_by value x) [
    | true ↦ argmax_from next x (suc next) xs
    | false ↦ argmax_from best value (suc next) xs
  ]

  -- argmax of a row: the first NaN, or else the first of the largest
  unfoldable pub argmax : List R.Float → ℕ
  unfolding argmax_from
  argmax [] = 0
  argmax (x ∷ xs) = argmax_from 0 x 1 xs

  pub all_width : ℕ → List (List R.Float) → Bool
  all_width n [] = true
  all_width n (row ∷ rows) = (length row == n) && all_width n rows

  pub width : List (List R.Float) → ℕ
  width [] = 0
  width (row ∷ rows) = length row

  -- logits.shape == targets.shape, for two arrays of dimension 2
  pub same_shape : (logits targets : List (List R.Float)) → Bool
  unfolding all_width width
  same_shape logits targets =
      (length logits == length targets)
      && (all_width (width targets) targets && all_width (width targets) logits)

  -- Of each valid question the prediction and the label that its targets give.
  unfoldable pub valid_pairs : (logits targets : List (List R.Float)) → List (ℕ × ℕ)
  unfolding is_valid masked argmax
  valid_pairs [] targets = []
  valid_pairs (row ∷ logits) [] = []
  valid_pairs (row ∷ logits) (target ∷ targets) =
      let rest = valid_pairs logits targets in
      if is_valid target then (argmax (masked row target), argmax target) ∷ rest else rest

  -- np.asarray(gold_labels)[valid]
  pub valid_golds : List ℕ → List (List R.Float) → List ℕ
  unfolding is_valid
  valid_golds [] targets = []
  valid_golds (gold ∷ golds) [] = []
  valid_golds (gold ∷ golds) (target ∷ targets) =
      let rest = valid_golds golds targets in if is_valid target then gold ∷ rest else rest

  -- (predictions == labels).sum()
  unfoldable pub agreements : (predictions labels : List ℕ) → ℕ
  agreements [] labels = 0
  agreements (p ∷ predictions) [] = 0
  agreements (p ∷ predictions) (l ∷ labels) =
      let rest = agreements predictions labels in if p == l then suc rest else rest

  abbrev pub predictions_of : List (ℕ × ℕ) → List ℕ
  predictions_of = map (λ p. p.0)

  pub scored : (predictions labels : List ℕ) → MetricsError ⊎ Metrics R.Float
  unfolding agreements
  scored predictions labels = inr (record {
    accuracy = (agreements predictions labels, length predictions);
    macro_f1 = some (R.macro_f1 labels predictions);
  })

  unfoldable pub compute_decision_metrics :
      (logits targets : List (List R.Float))
      → (gold_labels : Option (List ℕ)) → MetricsError ⊎ Metrics R.Float
  unfolding same_shape valid_pairs valid_golds scored
  compute_decision_metrics logits targets gold_labels =
      let pairs = valid_pairs logits targets in
      if not (same_shape logits targets)
      then inl MetricsError.shape_mismatch
      else if length pairs == 0
      then inl MetricsError.no_targets
      else elim gold_labels [
        | none ↦ scored (predictions_of pairs) (map (λ p. p.1) pairs)
        | some golds ↦
            if length golds == length targets
            then scored (predictions_of pairs) (valid_golds golds targets)
            else inl MetricsError.gold_mismatch
      ]

-- The labels of an item, where a missing one is `none`, and the text of its questions.
pub record MetricsItem : Type 0 where
  pub labels : List (Option ℕ)
  pub schema : Option String

pub and_label : Option ℕ → Option (List ℕ) → Option (List ℕ)
and_label none rest = none
and_label (some l) none = none
and_label (some l) (some ls) = some (l ∷ ls)

pub labels_onto : List (Option ℕ) → Option (List ℕ) → Option (List ℕ)
unfolding and_label
labels_onto [] rest = rest
labels_onto (l ∷ labels) rest = and_label l (labels_onto labels rest)

-- The labels of all items, `none` where one is missing.
pub all_labels : List MetricsItem → Option (List ℕ)
unfolding labels_onto
all_labels [] = some []
all_labels (item ∷ items) = labels_onto item.labels (all_labels items)

pub same_text : Option String → Option String → Bool
same_text none none = true
same_text none (some b) = false
same_text (some a) none = false
same_text (some a) (some b) = a =? b

pub all_same : Option String → List MetricsItem → Bool
unfolding same_text
all_same schema [] = true
all_same schema (item ∷ items) = same_text schema item.schema && all_same schema items

-- len(schemas) == 1
pub one_schema : List MetricsItem → Bool
unfolding all_same
one_schema [] = false
one_schema (item ∷ items) = all_same item.schema items

-- result.pop("macro_f1")
pub without_macro : {F : Type 0} → MetricsError ⊎ Metrics F → MetricsError ⊎ Metrics F
without_macro (inl error) = inl error
without_macro (inr metrics) = inr (record { accuracy = metrics.accuracy; macro_f1 = none })

pub decision_metrics_for_items :
    (R : Reals)
    → List MetricsItem
    → (logits targets : List (List R.Float)) → MetricsError ⊎ Metrics R.Float
unfolding all_labels one_schema compute_decision_metrics without_macro
decision_metrics_for_items R items logits targets = elim (all_labels items) [
  | none ↦ inl MetricsError.missing_label
  | some labels ↦
      let result = compute_decision_metrics R logits targets (some labels) in
      if one_schema items then result else without_macro result
]
