-- ===== src/Training/Metrics/Unpadded.antt =====
-- tools/decision_training_utils.py: a prediction is an option of its question, not padding.
use mathlib.Core.Path.{subst}
use pocket_agents_lab.Prelude.{
  ℕ, zero, suc, ◌+◌, true, false, List, [], ◌∷◌, ◌≡◌, ◌⊎◌, refl, arith, Bool-cases, inl, inr,
}
use pocket_agents_lab.Training.Metrics.{Reals, is_option, exceeds_by, masked, argmax_from, argmax}

-- Minus infinity is a number, and is below or equal to every number that is no NaN.
pub record IsLeast (R : Reals) : Type 0 where
  pub ordered : R.is_le R.minus_infinity R.minus_infinity ≡ true
  pub least : (x : R.Float) → R.is_le x x ≡ true → R.is_le R.minus_infinity x ≡ true

module _ (R : Reals) where
  -- The target at a position is there, and is no padding.
  abbrev pub IsOptionAt : ℕ → List R.Float → Type 0
  IsOptionAt i [] = ⊥
  IsOptionAt zero (t ∷ targets) = is_option R t ≡ true
  IsOptionAt (suc i) (t ∷ targets) = IsOptionAt i targets

  -- Some option has a logit that is not minus infinity.
  abbrev pub HasLogit : (logits targets : List R.Float) → Type 0
  HasLogit [] targets = ⊥
  HasLogit (x ∷ logits) [] = ⊥
  HasLogit (x ∷ logits) (t ∷ targets) =
      ((is_option R t ≡ true) × (R.is_le x R.minus_infinity ≡ false)) ⊎ HasLogit logits targets

  -- The positions of the rest of the targets are positions of the whole.
  abbrev IsRest : List R.Float → ℕ → List R.Float → Type 0
  IsRest all next targets = (j : ℕ) → IsOptionAt j targets → IsOptionAt (next + j) all

  IsRest-tail :
      (all : List R.Float) (next : ℕ) (t : R.Float) (targets : List R.Float)
      → IsRest all next (t ∷ targets)
      → IsRest all (suc next) targets
  IsRest-tail all next t targets rest j h =
      subst (λ n. IsOptionAt n all) (omega arith) (rest (suc j) h)

  IsRest-head :
      (all : List R.Float) (next : ℕ) (t : R.Float) (targets : List R.Float)
      → IsRest all next (t ∷ targets)
      → is_option R t ≡ true
      → IsOptionAt next all
  IsRest-head all next t targets rest yes_option =
      subst (λ n. IsOptionAt n all) (omega arith) (rest 0 yes_option)

  rest_after :
      (t : R.Float) (targets : List R.Float) (j : ℕ)
      → IsOptionAt j targets
      → IsOptionAt (1 + j) (t ∷ targets)
  rest_after t targets j h =
      let shifted : suc j ≡ 1 + j = omega arith in subst (λ n. IsOptionAt n (t ∷ targets)) shifted h

  masked-no_logits : (targets : List R.Float) → masked R [] targets ≡ []
  unfolding masked
  masked-no_logits targets = refl

  masked-no_targets : (x : R.Float) (logits : List R.Float) → masked R (x ∷ logits) [] ≡ []
  unfolding masked
  masked-no_targets x logits = refl

  masked-option :
      (x t : R.Float) (logits targets : List R.Float)
      → is_option R t ≡ true
      → masked R (x ∷ logits) (t ∷ targets) ≡ x ∷ masked R logits targets
  unfolding masked
  masked-option x t logits targets yes_option = rw (masked, yes_option) refl

  masked-padding :
      (x t : R.Float) (logits targets : List R.Float)
      → is_option R t ≡ false
      → masked R (x ∷ logits) (t ∷ targets) ≡ R.minus_infinity ∷ masked R logits targets
  unfolding masked
  masked-padding x t logits targets padding = rw (masked, padding) refl

module _ (R : Reals) (bottom : IsLeast R) where
  -- Minus infinity takes the place of no value.
  minus_infinity_loses : (value : R.Float) → exceeds_by R value R.minus_infinity ≡ false
  minus_infinity_loses value = elim (Bool-cases (R.is_le value value)) [
    | inl number ↦ rw (number, bottom.least value number) refl
    | inr nan ↦ rw nan refl
  ]

  -- Another value takes its place.
  logit_wins :
      (x : R.Float) → R.is_le x R.minus_infinity ≡ false → exceeds_by R R.minus_infinity x ≡ true
  logit_wins x high = rw (bottom.ordered, high) refl

  module _ (all : List R.Float) where
    from_option :
        (best : ℕ) (value : R.Float) (next : ℕ) (logits targets : List R.Float)
        → IsOptionAt R best all
        → IsRest R all next targets
        → IsOptionAt R (argmax_from R best value next (masked R logits targets)) all
    unfolding argmax_from
    from_option best value next [] targets held rest = rw (masked-no_logits R targets) held
    from_option best value next (x ∷ logits) [] held rest = rw (masked-no_targets R x logits) held
    from_option best value next (x ∷ logits) (t ∷ targets) held rest =
        let later = IsRest-tail R all next t targets rest in
        elim (Bool-cases (is_option R t)) [
          | inr padding ↦
              rw
                (
                  masked-padding R x t logits targets padding,
                  argmax_from,
                  minus_infinity_loses value,
                )
                (from_option best value (suc next) logits targets held later)
          | inl yes_option ↦ elim (Bool-cases (exceeds_by R value x)) [
            | inl more ↦
                rw (masked-option R x t logits targets yes_option, argmax_from, more)
                  (from_option next x (suc next) logits targets
                    (IsRest-head R all next t targets rest yes_option) later)
            | inr no_more ↦
                rw (masked-option R x t logits targets yes_option, argmax_from, no_more)
                  (from_option best value (suc next) logits targets held later)
          ]
        ]

    from_padding :
        (best next : ℕ) (logits targets : List R.Float)
        → HasLogit R logits targets
        → IsRest R all next targets
        → IsOptionAt R (argmax_from R best R.minus_infinity next (masked R logits targets)) all
    unfolding argmax_from
    from_padding best next [] targets has rest = absurd has
    from_padding best next (x ∷ logits) [] has rest = absurd has
    from_padding best next (x ∷ logits) (t ∷ targets) (inl (yes_option, high)) rest =
        rw (masked-option R x t logits targets yes_option, argmax_from, logit_wins x high)
          (from_option next x (suc next) logits targets
            (IsRest-head R all next t targets rest yes_option)
            (IsRest-tail R all next t targets rest))
    from_padding best next (x ∷ logits) (t ∷ targets) (inr has) rest =
        let later = IsRest-tail R all next t targets rest in
        elim (Bool-cases (is_option R t)) [
          | inr padding ↦
              rw
                (
                  masked-padding R x t logits targets padding,
                  argmax_from,
                  minus_infinity_loses R.minus_infinity,
                )
                (from_padding best (suc next) logits targets has later)
          | inl yes_option ↦ elim (Bool-cases (exceeds_by R R.minus_infinity x)) [
            | inl more ↦
                rw (masked-option R x t logits targets yes_option, argmax_from, more)
                  (from_option next x (suc next) logits targets
                    (IsRest-head R all next t targets rest yes_option) later)
            | inr no_more ↦
                rw (masked-option R x t logits targets yes_option, argmax_from, no_more)
                  (from_padding best (suc next) logits targets has later)
          ]
        ]

  -- The prediction of compute_decision_metrics for a question is the position of an option, never
  -- padding, where at least one option has a logit that is not minus infinity; of the numbers it
  -- is used that minus infinity is below or equal to each of them that is no NaN.
  pub argmax-IsOptionAt :
      (logits targets : List R.Float)
      → HasLogit R logits targets
      → IsOptionAt R (argmax R (masked R logits targets)) targets
  unfolding argmax
  argmax-IsOptionAt [] targets has = absurd has
  argmax-IsOptionAt (x ∷ logits) [] has = absurd has
  argmax-IsOptionAt (x ∷ logits) (t ∷ targets) has = elim (Bool-cases (is_option R t)) [
    | inl yes_option ↦
        rw (masked-option R x t logits targets yes_option, argmax)
          (from_option (t ∷ targets) 0 x 1 logits targets yes_option (rest_after R t targets))
    | inr padding ↦
        rw (masked-padding R x t logits targets padding, argmax)
          (from_padding (t ∷ targets) 0 1 logits targets (among_rest padding has)
            (rest_after R t targets))
  ]
    where
      among_rest :
          is_option R t ≡ false → HasLogit R (x ∷ logits) (t ∷ targets) → HasLogit R logits targets
      among_rest padding (inl (yes_option, high)) = absurd cc
      among_rest padding (inr later) = later
