-- ===== src/Prelude/Sort.antt =====
-- Python's `sorted`: a stable sort by a Boolean order, and sums that no order changes.
use mathlib.Core.List.{Perm, Permᴰ}
use mathlib.Core.List.Perm
use mathlib.Core.Logic.{∥∥₁_elim}
use native.Mathlib.Nat.{ℕ_set}
use Prim.Native.Nat.{zero, ◌≤◌, ℕ, ◌+◌, suc}
use mathlib.Core.Path.{sym, ◌≡◌, refl, ap, ◌∙◌}
use mathlib.Core.Bool.{Bool}
use mathlib.Core.List.{List, [], ◌∷◌, ◌++◌}
use native.Mathlib.Omega.{arith}
use pocket_agents_lab.Prelude.Lists.{length, take, drop, All, keep_if}
use native.Mathlib.Nat.{add-zero, zero-add, suc-add}
use pocket_agents_lab.Prelude.Tests.{if◌then◌else◌, Bool-cases}
use mathlib.Core.Logic.{inl, inr}

module _ {ℓ} {A : Type ℓ} (le : A → A → Bool) where
  unfoldable pub insert_by : A → List A → List A
  insert_by x [] = x ∷ []
  insert_by x (y ∷ ys) = if le x y then x ∷ y ∷ ys else y ∷ insert_by x ys

  -- sorted(xs): equal elements keep their order
  unfoldable pub sort_by : List A → List A
  unfolding insert_by
  sort_by [] = []
  sort_by (x ∷ xs) = insert_by x (sort_by xs)

  insert_by-perm : (x : A) (ys : List A) → Perm (insert_by x ys) (x ∷ ys)
  unfolding insert_by
  insert_by-perm x [] = Perm.refl (x ∷ [])
  insert_by-perm x (y ∷ ys) = elim (Bool-cases (le x y)) [
    | inl first ↦ rw first (Perm.refl (x ∷ y ∷ ys))
    | inr later ↦ rw later (Perm.trans (Perm.cons y (insert_by-perm x ys)) (Perm.swap x y ys))
  ]

  pub sort_by-perm : (xs : List A) → Perm (sort_by xs) xs
  unfolding sort_by
  sort_by-perm [] = Perm.nil
  sort_by-perm (x ∷ xs) = Perm.trans (insert_by-perm x (sort_by xs)) (Perm.cons x (sort_by-perm xs))

module _ {ℓ} {A : Type ℓ} where
  -- sum(f(x) for x in xs)
  abbrev pub sum_of : (A → ℕ) → List A → ℕ
  sum_of f [] = 0
  sum_of f (x ∷ xs) = f x + sum_of f xs

module _ {ℓ} {A : Type ℓ} (f : A → ℕ) where
  pub sum_of-append : (xs ys : List A) → sum_of f (xs ++ ys) ≡ sum_of f xs + sum_of f ys
  sum_of-append [] ys = omega arith
  sum_of-append (x ∷ xs) ys = omega (arith, sum_of-append xs ys)

  Permᴰ-sum_of : {xs ys : List A} → Permᴰ xs ys → sum_of f xs ≡ sum_of f ys
  Permᴰ-sum_of Permᴰ.nil = refl
  Permᴰ-sum_of (Permᴰ.cons e p) = omega (arith, ap f e, Permᴰ-sum_of p)
  Permᴰ-sum_of (Permᴰ.swap p q) = omega (arith, ap f p, ap f q)
  Permᴰ-sum_of (Permᴰ.trans p q) = Permᴰ-sum_of p ∙ Permᴰ-sum_of q

  pub Perm-sum_of : {xs ys : List A} → Perm xs ys → sum_of f xs ≡ sum_of f ys
  Perm-sum_of {xs} {ys} p = ∥∥₁_elim p (ℕ_set (sum_of f xs) (sum_of f ys)) Permᴰ-sum_of

length-sum_of {ℓ} : {A : Type ℓ} (xs : List A) → length xs ≡ sum_of (λ _. 1) xs
length-sum_of [] = refl
length-sum_of (x ∷ xs) = omega (arith, length-sum_of xs)

pub Perm-length {ℓ} : {A : Type ℓ} {xs ys : List A} → Perm xs ys → length xs ≡ length ys
Perm-length {xs} {ys} p = omega (arith, length-sum_of xs, length-sum_of ys, Perm-sum_of (λ _. 1) p)

pub length-sort_by {ℓ} :
    {A : Type ℓ} (le : A → A → Bool) (xs : List A) → length (sort_by le xs) ≡ length xs
length-sort_by le xs = Perm-length (sort_by-perm le xs)

-- One list is a rearrangement of the other: every sum over their elements agrees, so that every
-- element occurs in both as often.
abbrev pub Rearranges {ℓ} : {A : Type ℓ} → List A → List A → Type ℓ
Rearranges {A} xs ys = (f : A → ℕ) → sum_of f xs ≡ sum_of f ys

pub Perm-Rearranges {ℓ} : {A : Type ℓ} {xs ys : List A} → Perm xs ys → Rearranges xs ys
Perm-Rearranges p f = Perm-sum_of f p

pub length-sum_of_one {ℓ} : {A : Type ℓ} (xs : List A) → sum_of (λ _. 1) xs ≡ length xs
length-sum_of_one xs = sym (length-sum_of xs)

module _ {ℓ} {A : Type ℓ} (f : A → ℕ) where
  pub sum_of-take-drop :
      (n : ℕ) (xs : List A) → sum_of f (take n xs) + sum_of f (drop n xs) ≡ sum_of f xs
  sum_of-take-drop zero xs = omega arith
  sum_of-take-drop (suc n) [] = omega arith
  sum_of-take-drop (suc n) (x ∷ xs) = omega (arith, sum_of-take-drop n xs)

module _ {ℓ} {A : Type ℓ} where
  pub drop-drop : (m n : ℕ) (xs : List A) → drop n (drop m xs) ≡ drop (m + n) xs
  drop-drop zero n xs = rw zero-add
  drop-drop (suc m) zero [] = rw add-zero
  drop-drop (suc m) (suc n) [] = rw suc-add
  drop-drop (suc m) n (x ∷ xs) = rw suc-add (drop-drop m n xs)

-- The number of elements that pass a test.
abbrev pub count_if {ℓ} : {A : Type ℓ} → (A → Bool) → List A → ℕ
count_if p = sum_of (λ x. if p x then 1 else 0)

module _ {ℓ} {A : Type ℓ} (p : A → Bool) where
  pub count_if-le-length : (xs : List A) → count_if p xs ≤ length xs
  count_if-le-length [] = omega arith
  count_if-le-length (x ∷ xs) = ground (arith, count_if-le-length xs)

  pub length-keep_if : (xs : List A) → length (keep_if p xs) ≡ count_if p xs
  length-keep_if [] = refl
  length-keep_if (x ∷ xs) = ground (arith, length-keep_if xs)

module _ {ℓ κ} {A : Type ℓ} (P : A → Type κ) (le : A → A → Bool) where
  insert_by-All : (x : A) (ys : List A) → P x → All P ys → All P (insert_by le x ys)
  unfolding insert_by
  insert_by-All x [] px pys = (px, tt)
  insert_by-All x (y ∷ ys) px pys = elim (Bool-cases (le x y)) [
    | inl first ↦ rw first (px, pys)
    | inr later ↦ rw later (pys.0, insert_by-All x ys px pys.1)
  ]

  pub sort_by-All : (xs : List A) → All P xs → All P (sort_by le xs)
  unfolding sort_by
  sort_by-All [] pxs = tt
  sort_by-All (x ∷ xs) pxs = insert_by-All x (sort_by le xs) pxs.0 (sort_by-All xs pxs.1)
