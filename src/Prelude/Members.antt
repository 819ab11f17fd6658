-- ===== src/Prelude/Members.antt =====
-- Membership, removal and distinctness over a type with a Boolean equality.
use Prim.Native.Nat.{ℕ, ◌≤◌, ◌<◌}
use mathlib.Core.Path.{◌≡◌, refl}
use mathlib.Core.Logic.{◌↔◌, inl, inr}
use mathlib.Core.Bool.{Bool, true, false, ◌||◌, ◌&&◌}
use mathlib.Core.List.{List, [], ◌∷◌, ◌++◌, reverse, reverse-append, append-nil}
use native.Mathlib.Omega.{arith}
use pocket_agents_lab.Prelude.Lists.{length}
use pocket_agents_lab.Prelude.Tests.{◌==◌ as nat_eq, ==_iff, if◌then◌else◌, Bool-cases}
use text.Mathlib.Text.{◌==◌ as str_eq}
use text.Mathlib.TextEquality.{eq_iff}
use Prim.Native.String.{String}

pub record Eq {ℓ} (A : Type ℓ) : Type ℓ where
  pub equal : A → A → Bool
  pub equal_iff : (a b : A) → (equal a b ≡ true) ↔ (a ≡ b)

infix 50 ◌=?◌
abbrev pub ◌=?◌ {ℓ} : {A : Type ℓ} ⦃e : Eq A⦄ → A → A → Bool
◌=?◌ ⦃e⦄ = e.equal

instance abbrev pub nat_Eq : Eq ℕ
nat_Eq = record { equal = nat_eq; equal_iff = ==_iff }

instance abbrev pub string_Eq : Eq String
string_Eq = record { equal = str_eq; equal_iff = eq_iff }

abbrev pub list_beq {ℓ} : {A : Type ℓ} ⦃e : Eq A⦄ → List A → List A → Bool
list_beq [] [] = true
list_beq [] (y ∷ ys) = false
list_beq (x ∷ xs) [] = false
list_beq (x ∷ xs) (y ∷ ys) = (x =? y) && list_beq xs ys

list_beq_sound {ℓ} : {A : Type ℓ} ⦃e : Eq A⦄ (xs ys : List A) → list_beq xs ys ≡ true → xs ≡ ys
list_beq_sound [] [] h = refl
list_beq_sound [] (y ∷ ys) h = cc
list_beq_sound (x ∷ xs) [] h = cc
list_beq_sound ⦃e⦄ (x ∷ xs) (y ∷ ys) h = ground (arith, e.equal_iff x y, list_beq_sound xs ys)

list_beq_refl {ℓ} : {A : Type ℓ} ⦃e : Eq A⦄ (xs : List A) → list_beq xs xs ≡ true
list_beq_refl [] = refl
list_beq_refl ⦃e⦄ (x ∷ xs) = ground (arith, e.equal_iff x x, list_beq_refl xs)

pub list_beq_iff {ℓ} :
    {A : Type ℓ} ⦃e : Eq A⦄ (xs ys : List A) → (list_beq xs ys ≡ true) ↔ (xs ≡ ys)
list_beq_iff xs ys = (list_beq_sound xs ys, λ p. rw p (list_beq_refl ys))

instance abbrev pub list_Eq {ℓ} : {A : Type ℓ} ⦃e : Eq A⦄ → Eq (List A)
list_Eq = record { equal = list_beq; equal_iff = list_beq_iff }

module _ {ℓ} {A : Type ℓ} ⦃e : Eq A⦄ where
  -- `x in xs`
  unfoldable pub contains : A → List A → Bool
  contains x [] = false
  contains x (y ∷ ys) = (x =? y) || contains x ys

  -- The list with every copy of `x` removed.
  unfoldable pub without : A → List A → List A
  without x [] = []
  without x (y ∷ ys) = let rest = without x ys in if x =? y then rest else y ∷ rest

  -- No element occurs twice.
  abbrev pub Distinct : List A → Type 0
  Distinct [] = Unit
  Distinct (x ∷ xs) = (contains x xs ≡ false) × Distinct xs

module _ {ℓ} {A : Type ℓ} ⦃e : Eq A⦄ where
  pub contains-append :
      (x : A) (xs ys : List A) → contains x (xs ++ ys) ≡ (contains x xs || contains x ys)
  unfolding contains
  contains-append x [] ys = refl
  contains-append x (y ∷ xs) ys = ground (arith, contains-append x xs ys)

  pub contains-reverse : (x : A) (xs : List A) → contains x (reverse xs) ≡ contains x xs
  unfolding contains
  contains-reverse x [] = refl
  contains-reverse x (y ∷ xs) =
      rw (reverse-append (y ∷ []) xs)
        (ground (arith, contains-append x (reverse xs) (y ∷ []), contains-reverse x xs))

  pub without-append :
      (x : A) (xs ys : List A) → without x (xs ++ ys) ≡ without x xs ++ without x ys
  unfolding without
  without-append x [] ys = refl
  without-append x (y ∷ xs) ys = ground (arith, without-append x xs ys)

  pub without-reverse : (x : A) (xs : List A) → without x (reverse xs) ≡ reverse (without x xs)
  unfolding without
  without-reverse x [] = refl
  without-reverse x (y ∷ xs) =
      rw (reverse-append (y ∷ []) xs, without-append, without-reverse x xs)
        (elim (Bool-cases (x =? y)) [
          | inl same ↦ rw same (append-nil _)
          | inr other ↦ rw (other, reverse-append (y ∷ []) (without x xs))
        ])

  pub without_absent : (x : A) (xs : List A) → contains x xs ≡ false → without x xs ≡ xs
  unfolding contains without
  without_absent x [] h = refl
  without_absent x (y ∷ ys) h = ground (arith, without_absent x ys)

  pub contains-without_self : (x : A) (xs : List A) → contains x (without x xs) ≡ false
  unfolding contains without
  contains-without_self x [] = refl
  contains-without_self x (y ∷ ys) = ground (arith, contains-without_self x ys)

  pub contains-without_of_absent :
      (x y : A) (xs : List A) → contains y xs ≡ false → contains y (without x xs) ≡ false
  unfolding contains without
  contains-without_of_absent x y [] h = refl
  contains-without_of_absent x y (z ∷ xs) h = ground (arith, contains-without_of_absent x y xs)

  pub Distinct-without : (x : A) (xs : List A) → Distinct xs → Distinct (without x xs)
  unfolding without
  Distinct-without x [] h = tt
  Distinct-without x (y ∷ ys) h = elim (Bool-cases (x =? y)) [
    | inl same ↦ rw same (Distinct-without x ys h.1)
    | inr other ↦ rw other (contains-without_of_absent x y ys h.0, Distinct-without x ys h.1)
  ]

  pub contains-without :
      (x y : A) (xs : List A)
      → contains x (without y xs) ≡ (if y =? x then false else contains x xs)
  unfolding contains without
  contains-without x y [] = ground arith
  contains-without x y (z ∷ xs) =
      ground (arith, contains-without x y xs, e.equal_iff y z, e.equal_iff x z, e.equal_iff y x)

  length-without-le : (x : A) (xs : List A) → length (without x xs) ≤ length xs
  unfolding without
  length-without-le x [] = omega arith
  length-without-le x (y ∷ xs) = ground (arith, length-without-le x xs)

  contains_tail : (x y : A) (ys : List A) → contains x ys ≡ true → contains x (y ∷ ys) ≡ true
  unfolding contains
  contains_tail x y ys h = ground arith

  length-without-lt :
      (x : A) (xs : List A) → contains x xs ≡ true → length (without x xs) < length xs
  unfolding contains without
  length-without-lt x [] h = cc
  length-without-lt x (y ∷ xs) h = ground (arith, length-without-lt x xs, length-without-le x xs)

  -- A list of distinct members of `xs` is no longer than `xs`.
  pub length-le_of_subset :
      (ys xs : List A)
      → Distinct ys
      → ((x : A) → contains x ys ≡ true → contains x xs ≡ true)
      → length ys ≤ length xs
  length-le_of_subset [] xs d sub = omega arith
  length-le_of_subset (y ∷ ys) xs d sub =
      let here : contains y xs ≡ true =
        unfold contains in sub y (ground (arith, e.equal_iff y y)) in
      omega (
        arith,
        length-without-lt y xs here,
        length-le_of_subset ys (without y xs) d.1 λ x m.
            ground
              (arith, contains-without x y xs, e.equal_iff y x, d.0, contains_tail x y ys m, sub x),
      )
