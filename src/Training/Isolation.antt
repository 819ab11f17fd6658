-- ===== src/Training/Isolation.antt =====
-- tools/train_phone_routing.py, check_split_isolation: the check that two lists of rows share no
-- id, or no state where rows without an id are among both. The rows are dicts; the state of a row,
-- for which its ids or its address stand where it has none, is a parameter.
pub mod Carved
pub mod Apart
use pocket_agents_lab.Prelude.{
  Bool, true, false, not, Option, none, some, String, List, [], ◌∷◌, map, Eq, string_Eq, ◌=?◌, ◌||◌,
  ◌&&◌, contains, if◌then◌else◌, ◌≡◌, ◌↔◌, refl, ap,
}

abbrev pub option_beq : Option String → Option String → Bool
option_beq none none = true
option_beq none (some b) = false
option_beq (some a) none = false
option_beq (some a) (some b) = a =? b

pub option_beq_iff : (a b : Option String) → (option_beq a b ≡ true) ↔ (a ≡ b)
option_beq_iff none none = (λ h. refl, λ h. refl)
option_beq_iff none (some b) = (λ h. absurd cc, λ h. absurd cc)
option_beq_iff (some a) none = (λ h. absurd cc, λ h. absurd cc)
option_beq_iff (some a) (some b) =
    (λ h. ap some ((string_Eq.equal_iff a b).0 h), λ h. (string_Eq.equal_iff a b).1 cc)

instance abbrev pub option_Eq : Eq (Option String)
option_Eq = record { equal = option_beq; equal_iff = option_beq_iff }

module _ {ℓ} {A : Type ℓ} ⦃e : Eq A⦄ where
  -- The truth of the set of common elements.
  unfoldable pub overlaps : List A → List A → Bool
  unfolding contains
  overlaps [] ys = false
  overlaps (x ∷ xs) ys = contains x ys || overlaps xs ys

module _ (Row : Type 0) (id : Row → Option String) (state : Row → String) where
  -- `true` where the check passes, `false` where it raises.
  unfoldable pub check_split_isolation : (train_items val_items : List Row) → Bool
  unfolding overlaps contains
  check_split_isolation train_items val_items =
      let train_ids = map id train_items in
      let val_ids = map id val_items in
      if contains none train_ids && contains none val_ids
      then not (overlaps (map state train_items) (map state val_items))
      else not (overlaps train_ids val_ids)
