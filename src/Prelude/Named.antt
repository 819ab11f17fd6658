-- ===== src/Prelude/Named.antt =====
-- What a name finds among groups that are sorted by any order.
use Prim.Native.Nat.{ℕ, ◌≤◌}
use mathlib.Core.Path.{◌≡◌, refl, sym, ap}
use mathlib.Core.Logic.{inl, inr}
use mathlib.Core.Bool.{Bool}
use mathlib.Core.List.{List, [], ◌∷◌}
use native.Mathlib.Omega.{arith}
use pocket_agents_lab.Prelude.Tests.{if◌then◌else◌, Bool-cases}
use pocket_agents_lab.Prelude.Lists.{keep_if}
use pocket_agents_lab.Prelude.Members.{Eq, ◌=?◌}
use pocket_agents_lab.Prelude.Sort.{sum_of, Perm-sum_of, sort_by, sort_by-perm}
use pocket_agents_lab.Prelude.Uniform.{name_count, name_count_once, sorted_group_by-IsUniform}
use pocket_agents_lab.Prelude.Grouping.{
  Groups, group_of, group_by, group_of-group_by, group_by-Distinct,
}

module _ {K A : Type 0} ⦃e : Eq K⦄ (f : List A → ℕ) (k : K) where
  -- The value of the groups with a name, added up.
  abbrev pub at_name : Groups K A → ℕ
  at_name = sum_of (λ (g : K × List A). if k =? g.0 then f g.1 else 0)

  unnamed : (groups : Groups K A) → name_count k groups ≡ 0 → at_name groups ≡ 0
  unnamed [] h = refl
  unnamed (g ∷ groups) h = ground (arith, unnamed groups)

  named_once :
      (groups : Groups K A)
      → f [] ≡ 0
      → name_count k groups ≤ 1
      → at_name groups ≡ f (group_of k groups)
  unfolding group_of
  named_once [] starts once = sym starts
  named_once (g ∷ groups) starts once = elim (Bool-cases (k =? g.0)) [
    | inl same ↦ rw same (omega (arith, unnamed groups (ground arith)))
    | inr other ↦ rw other (omega (arith, named_once groups starts (ground arith)))
  ]

  module _ (key : A → K) (le : K × List A → K × List A → Bool) where
    -- Among the sorted groups, the one with the name has the elements with that key.
    pub at_name-sort_by :
        (xs : List A)
        → f [] ≡ 0
        → at_name (sort_by le (group_by key xs)) ≡ f (keep_if (λ x. k =? key x) xs)
    at_name-sort_by xs starts =
        let groups = group_by key xs in
        omega (
          arith,
          named_once groups starts (name_count_once key k groups (group_by-Distinct key xs)),
          Perm-sum_of (λ (g : K × List A). if k =? g.0 then f g.1 else 0) (sort_by-perm le groups),
          ap f (group_of-group_by key k xs),
        )

    pub sorted_group :
        (xs : List A)
        → f [] ≡ 0
        → f (group_of k (sort_by le (group_by key xs))) ≡ f (keep_if (λ x. k =? key x) xs)
    sorted_group xs starts = omega (
      arith,
      named_once (sort_by le (group_by key xs)) starts ((sorted_group_by-IsUniform key le xs).1 k),
      at_name-sort_by xs starts,
    )
