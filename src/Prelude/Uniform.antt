-- ===== src/Prelude/Uniform.antt =====
-- Groups whose elements have the group's name for their key, and how often a name comes.
use mathlib.Core.Path.{◌≡◌, refl}
use mathlib.Core.Logic.{inl, inr}
use mathlib.Core.Bool.{Bool, false}
use mathlib.Core.List.{List, [], ◌∷◌}
use native.Mathlib.Omega.{arith}
use pocket_agents_lab.Prelude.Tests.{if◌then◌else◌, Bool-cases}
use pocket_agents_lab.Prelude.Members.{Eq, ◌=?◌, contains, Distinct}
use pocket_agents_lab.Prelude.Sort.{
  sort_by, sort_by-perm, sum_of-append, Perm-sum_of, count_if, sort_by-All,
}
use Prim.Native.Nat.{ℕ, ◌≤◌}
use pocket_agents_lab.Prelude.Lists.{length, length-append, All}
use pocket_agents_lab.Prelude.Grouping.{
  Groups, members, group_names, add_to, group_onto, group_by, group_by-Distinct,
}

-- The elements of a group are those with its name, seen from any name.
abbrev pub IsUniform : {K A : Type 0} ⦃e : Eq K⦄ → (A → K) → K × List A → Type 0
IsUniform {K} ⦃e⦄ key g =
    (k : K) → count_if (λ x. k =? key x) g.1 ≡ (if k =? g.0 then length g.1 else 0)

-- How many groups have a name.
abbrev pub name_count : {K A : Type 0} ⦃e : Eq K⦄ → K → Groups K A → ℕ
name_count k = count_if (λ g. k =? g.0)

module _ {K A : Type 0} ⦃e : Eq K⦄ (key : A → K) where
  add_to-IsUniform :
      (a : A) (groups : Groups K A)
      → All (IsUniform key) groups
      → All (IsUniform key) (add_to (key a) a groups)
  unfolding add_to
  add_to-IsUniform a [] u = (λ k. ground arith, tt)
  add_to-IsUniform a ((j, xs) ∷ groups) u = elim (Bool-cases (key a =? j)) [
    | inl same ↦ rw same (
      λ k. ground (
        arith,
        u.0 k,
        sum_of-append (λ (x : A). if k =? key x then 1 else 0) xs (a ∷ []),
        length-append xs (a ∷ []),
        e.equal_iff (key a) j,
      ),
      u.1,
    )
    | inr other ↦ rw other (u.0, add_to-IsUniform a groups u.1)
  ]

  group_onto-IsUniform :
      (groups : Groups K A) (xs : List A)
      → All (IsUniform key) groups
      → All (IsUniform key) (group_onto key groups xs)
  unfolding group_onto
  group_onto-IsUniform groups [] u = u
  group_onto-IsUniform groups (x ∷ xs) u =
      group_onto-IsUniform (add_to (key x) x groups) xs (add_to-IsUniform x groups u)

  name_count_absent :
      (k : K) (groups : Groups K A)
      → contains k (group_names groups) ≡ false
      → name_count k groups ≡ 0
  unfolding contains
  name_count_absent k [] a = refl
  name_count_absent k (g ∷ groups) a = ground (arith, name_count_absent k groups)

  pub name_count_once :
      (k : K) (groups : Groups K A) → Distinct (group_names groups) → name_count k groups ≤ 1
  name_count_once k [] d = omega arith
  name_count_once k (g ∷ groups) d =
      ground
        (arith, name_count_once k groups d.1, name_count_absent g.0 groups d.0, e.equal_iff k g.0)

  -- Grouped by a key and sorted in any way, the groups are uniform and no name comes twice.
  pub sorted_group_by-IsUniform :
      (le : K × List A → K × List A → Bool) (xs : List A)
      → All (IsUniform key) (sort_by le (group_by key xs))
        × ((k : K) → name_count k (sort_by le (group_by key xs)) ≤ 1)
  unfolding group_by
  sorted_group_by-IsUniform le xs = (
    sort_by-All (IsUniform key) le (group_by key xs) (group_onto-IsUniform [] xs tt),
    λ k. omega (
      arith,
      Perm-sum_of (λ (g : K × List A). if k =? g.0 then 1 else 0)
          (sort_by-perm le (group_by key xs)),
      name_count_once k (group_by key xs) (group_by-Distinct key xs),
    ),
  )

  -- Where no group has a name, no member has that key.
  pub members_absent :
      (k : K) (groups : Groups K A)
      → All (IsUniform key) groups
      → name_count k groups ≡ 0
      → count_if (λ x. k =? key x) (members groups) ≡ 0
  members_absent k [] u n = refl
  members_absent k (g ∷ groups) u n = ground (
    arith,
    u.0 k,
    members_absent k groups u.1,
    sum_of-append (λ (x : A). if k =? key x then 1 else 0) g.1 (members groups),
  )
