-- ===== src/Prelude/Grouping.antt =====
-- Grouping by a key, as the code does with `defaultdict(list)` or `setdefault`: an association list
-- in the order in which the keys first occur.
use mathlib.Core.List.{Perm, append_assoc, append-nil, perm_middle}
use mathlib.Core.List.Perm
use mathlib.Core.Path.{◌≡◌, refl, sym}
use mathlib.Core.Logic.{inl, inr}
use mathlib.Core.Bool.{true, Bool, false}
use mathlib.Core.List.{List, [], ◌∷◌, ◌++◌, map}
use native.Mathlib.Omega.{arith}
use pocket_agents_lab.Prelude.Tests.{if◌then◌else◌, Bool-cases}
use pocket_agents_lab.Prelude.Members.{Eq, ◌=?◌, contains, Distinct}
use pocket_agents_lab.Prelude.Sort.{
  Rearranges, sort_by, sort_by-perm, sum_of, sum_of-append, Perm-sum_of, count_if,
}
use Prim.Native.Nat.{ℕ, ◌<◌}
use pocket_agents_lab.Prelude.Lists.{keep_if, length}

abbrev pub Groups : Type 0 → Type 0 → Type 0
Groups K A = List (K × List A)

-- All members, group by group.
abbrev pub members : {K A : Type 0} → Groups K A → List A
members [] = []
members ((k, xs) ∷ groups) = xs ++ members groups

module _ {K A : Type 0} ⦃e : Eq K⦄ where
  abbrev pub group_names : Groups K A → List K
  group_names = map (λ g. g.0)

  -- groups[k].append(a)
  unfoldable pub add_to : K → A → Groups K A → Groups K A
  add_to k a [] = (k, a ∷ []) ∷ []
  add_to k a ((j, xs) ∷ groups) =
      if k =? j then (j, xs ++ a ∷ []) ∷ groups else (j, xs) ∷ add_to k a groups

  -- groups.get(k, [])
  unfoldable pub group_of : K → Groups K A → List A
  group_of k [] = []
  group_of k ((j, xs) ∷ groups) = if k =? j then xs else group_of k groups

module _ {K A : Type 0} ⦃e : Eq K⦄ (key : A → K) where
  -- for x in xs: groups[key(x)].append(x)
  unfoldable pub group_onto : Groups K A → List A → Groups K A
  unfolding add_to
  group_onto groups [] = groups
  group_onto groups (x ∷ xs) = group_onto (add_to (key x) x groups) xs

  unfoldable pub group_by : List A → Groups K A
  unfolding group_onto
  group_by xs = group_onto [] xs

module _ {K A : Type 0} ⦃e : Eq K⦄ where
  pub group_of-add_to :
      (k j : K) (a : A) (groups : Groups K A)
      → group_of k (add_to j a groups)
        ≡ (if k =? j then group_of k groups ++ a ∷ [] else group_of k groups)
  unfolding group_of add_to
  group_of-add_to k j a [] = refl
  group_of-add_to k j a ((i, xs) ∷ groups) =
      ground
        (arith, group_of-add_to k j a groups, e.equal_iff k j, e.equal_iff k i, e.equal_iff j i)

  contains-add_to :
      (k j : K) (a : A) (groups : Groups K A)
      → contains k (group_names (add_to j a groups))
        ≡ (if k =? j then true else contains k (group_names groups))
  unfolding contains add_to
  contains-add_to k j a [] = ground arith
  contains-add_to k j a ((i, xs) ∷ groups) =
      ground
        (arith, contains-add_to k j a groups, e.equal_iff k j, e.equal_iff k i, e.equal_iff j i)

  add_to-Distinct :
      (k : K) (a : A) (groups : Groups K A)
      → Distinct (group_names groups)
      → Distinct (group_names (add_to k a groups))
  unfolding contains add_to
  add_to-Distinct k a [] d = (refl, tt)
  add_to-Distinct k a ((j, xs) ∷ groups) d = ground (
    arith,
    contains-add_to j k a groups,
    add_to-Distinct k a groups,
    e.equal_iff j k,
    e.equal_iff k j,
  )

  pub add_to-perm :
      (k : K) (a : A) (groups : Groups K A)
      → Perm (members (add_to k a groups)) (a ∷ members groups)
  unfolding add_to
  add_to-perm k a [] = Perm.refl (a ∷ [])
  add_to-perm k a ((j, xs) ∷ groups) = elim (Bool-cases (k =? j)) [
    | inl same ↦ rw (same, append_assoc) (perm_middle xs (members groups))
    | inr other ↦ rw other (
        Perm.trans (Perm.append_left xs (add_to-perm k a groups)) (perm_middle xs (members groups)))
  ]

module _ {K A : Type 0} ⦃e : Eq K⦄ (key : A → K) where
  group_onto-group_of :
      (k : K) (groups : Groups K A) (xs : List A)
      → group_of k (group_onto key groups xs) ≡ group_of k groups ++ keep_if (λ x. k =? key x) xs
  unfolding group_onto
  group_onto-group_of k groups [] = sym (append-nil (group_of k groups))
  group_onto-group_of k groups (x ∷ xs) =
      rw (group_onto-group_of k (add_to (key x) x groups) xs, group_of-add_to k (key x) x groups)
        (elim (Bool-cases (k =? key x)) [
          | inl same ↦ rw (same, append_assoc)
          | inr other ↦ rw other
        ])

  -- The group of a key holds the elements with that key, in order.
  pub group_of-group_by :
      (k : K) (xs : List A) → group_of k (group_by key xs) ≡ keep_if (λ x. k =? key x) xs
  unfolding group_by group_of
  group_of-group_by k xs = group_onto-group_of k [] xs

  group_onto-Distinct :
      (groups : Groups K A) (xs : List A)
      → Distinct (group_names groups)
      → Distinct (group_names (group_onto key groups xs))
  unfolding group_onto
  group_onto-Distinct groups [] d = d
  group_onto-Distinct groups (x ∷ xs) d =
      group_onto-Distinct (add_to (key x) x groups) xs (add_to-Distinct (key x) x groups d)

  pub group_by-Distinct : (xs : List A) → Distinct (group_names (group_by key xs))
  unfolding group_by
  group_by-Distinct xs = group_onto-Distinct [] xs tt

  group_onto-perm :
      (groups : Groups K A) (xs : List A)
      → Perm (members (group_onto key groups xs)) (members groups ++ xs)
  unfolding group_onto
  group_onto-perm groups [] = rw append-nil (Perm.refl (members groups))
  group_onto-perm groups (x ∷ xs) = Perm.trans (group_onto-perm (add_to (key x) x groups) xs) (
      Perm.trans (Perm.append_right xs (add_to-perm (key x) x groups))
        (Perm.symm (perm_middle (members groups) xs)))

  -- The groups hold every element once.
  pub group_by-perm : (xs : List A) → Perm (members (group_by key xs)) xs
  unfolding group_by
  group_by-perm xs = group_onto-perm [] xs

module _ {K A : Type 0} where
  pub sum_of-members :
      (f : A → ℕ) (groups : Groups K A)
      → sum_of f (members groups) ≡ sum_of (λ g. sum_of f g.1) groups
  sum_of-members f [] = refl
  sum_of-members f ((k, xs) ∷ groups) =
      omega (arith, sum_of-append f xs (members groups), sum_of-members f groups)

module _ {K A : Type 0} ⦃e : Eq K⦄ (key : A → K) (le : K × List A → K × List A → Bool) where
  -- Grouped by a key and sorted in any way, the elements are still the same.
  pub sorted_group_by-Rearranges :
      (xs : List A) → Rearranges (members (sort_by le (group_by key xs))) xs
  sorted_group_by-Rearranges xs f = omega (
    arith,
    sum_of-members f (sort_by le (group_by key xs)),
    sum_of-members f (group_by key xs),
    Perm-sum_of (λ (g : K × List A). sum_of f g.1) (sort_by-perm le (group_by key xs)),
    Perm-sum_of f (group_by-perm key xs),
  )

module _ {K A : Type 0} ⦃e : Eq K⦄ (f : A → ℕ) where
  group_of_skip :
      (j : K) (xs : List A) (groups : Groups K A) (ks : List K)
      → contains j ks ≡ false
      → sum_of (λ k. sum_of f (group_of k ((j, xs) ∷ groups))) ks
        ≡ sum_of (λ k. sum_of f (group_of k groups)) ks
  unfolding contains group_of
  group_of_skip j xs groups [] a = refl
  group_of_skip j xs groups (k ∷ ks) a =
      ground (arith, group_of_skip j xs groups ks, e.equal_iff k j, e.equal_iff j k)

  -- Summed group by group over the names, a sum is the sum over all members.
  pub sum_of-group_names :
      (groups : Groups K A)
      → Distinct (group_names groups)
      → sum_of (λ k. sum_of f (group_of k groups)) (group_names groups) ≡ sum_of f (members groups)
  unfolding group_of
  sum_of-group_names [] d = refl
  sum_of-group_names ((j, xs) ∷ groups) d = ground (
    arith,
    e.equal_iff j j,
    group_of_skip j xs groups (group_names groups) d.0,
    sum_of-group_names groups d.1,
    sum_of-append f xs (members groups),
  )

module _ {K A : Type 0} ⦃e : Eq K⦄ where
  -- A group that is not empty has its name among the names.
  pub group_of_named :
      (k : K) (groups : Groups K A)
      → 0 < length (group_of k groups)
      → 0 < count_if (λ j. k =? j) (group_names groups)
  unfolding group_of
  group_of_named k [] h = absurd (omega arith)
  group_of_named k ((j, xs) ∷ groups) h = ground (arith, group_of_named k groups)

pub count_if-keep_if {ℓ} :
    {A : Type ℓ} (p : A → Bool) (xs : List A) → count_if p (keep_if p xs) ≡ length (keep_if p xs)
count_if-keep_if p [] = refl
count_if-keep_if p (x ∷ xs) = ground (arith, count_if-keep_if p xs)

-- Sorting the groups rearranges their members.
pub members-sort_by :
    {K A : Type 0} (le : K × List A → K × List A → Bool) (groups : Groups K A)
    → Rearranges (members (sort_by le groups)) (members groups)
members-sort_by {K} {A} le groups f = omega (
  arith,
  sum_of-members f (sort_by le groups),
  sum_of-members f groups,
  Perm-sum_of (λ (g : K × List A). sum_of f g.1) (sort_by-perm le groups),
)
