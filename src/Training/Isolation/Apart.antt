-- ===== src/Training/Isolation/Apart.antt =====
-- tools/train_phone_routing.py: the isolation check on the two parts of a carve.
use pocket_agents_lab.Random.{Rng}
use pocket_agents_lab.Training.Carve.{carve_validation}
use pocket_agents_lab.Training.Carve.Partition.{carve_validation-Rearranges}
use pocket_agents_lab.Training.Isolation.{overlaps, check_split_isolation, option_Eq}
use pocket_agents_lab.Prelude.{
  ℕ, ◌≤◌, ◌+◌, true, false, Option, none, some, String, List, [], ◌∷◌, ◌++◌, map, Eq, string_Eq,
  ◌=?◌, contains, Distinct, if◌then◌else◌, ◌≡◌, refl, arith, sum_of, sum_of-append, Rearranges,
  Bool-cases, inl, inr,
}

module _ {K : Type 0} ⦃e : Eq K⦄ where
  abbrev count : K → List K → ℕ
  count k = sum_of (λ j. if k =? j then 1 else 0)

  count_absent : (k : K) (ks : List K) → contains k ks ≡ false → count k ks ≡ 0
  unfolding contains
  count_absent k [] absent = refl
  count_absent k (j ∷ ks) absent = ground (arith, count_absent k ks)

  absent-count : (k : K) (ks : List K) → count k ks ≡ 0 → contains k ks ≡ false
  unfolding contains
  absent-count k [] h = refl
  absent-count k (j ∷ ks) h = ground (arith, absent-count k ks)

  count-Distinct : (k : K) (ks : List K) → Distinct ks → count k ks ≤ 1
  count-Distinct k [] distinct = omega arith
  count-Distinct k (j ∷ ks) (absent, distinct) = elim (Bool-cases (k =? j)) [
    | inl same ↦
        let eq = (e.equal_iff k j).0 same in
        rw same (omega (arith, count_absent k ks (rw eq absent)))
    | inr other ↦ rw other (omega (arith, count-Distinct k ks distinct))
  ]

  overlaps-apart :
      (xs ys : List K) → ((k : K) → count k xs + count k ys ≤ 1) → overlaps xs ys ≡ false
  unfolding overlaps
  overlaps-apart [] ys once = refl
  overlaps-apart (x ∷ xs) ys once =
      let self = (e.equal_iff x x).1 refl in
      let absent = absent-count x ys (ground (arith, once x)) in
      rw absent (overlaps-apart xs ys λ k. ground (arith, once k))

sum_of-map :
    {A B : Type 0} (f : A → B) (g : B → ℕ) (xs : List A)
    → sum_of g (map f xs) ≡ sum_of (λ x. g (f x)) xs
sum_of-map f g [] = refl
sum_of-map f g (x ∷ xs) = omega (arith, sum_of-map f g xs)

module _ (r : Rng) (Row : Type 0) ⦃e : Eq Row⦄ (route : Row → String) (id : Row → Option String)
    (state : Row → String) where
  parts-count :
      (keep val rows : List Row) (k : Option String)
      → Rearranges (keep ++ val) rows
      → count k (map id keep) + count k (map id val) ≡ count k (map id rows)
  parts-count keep val rows k same =
      let here : Option String → ℕ = λ j. if k =? j then 1 else 0 in
      omega (
        arith,
        sum_of-map id here keep,
        sum_of-map id here val,
        sum_of-map id here rows,
        same (λ x. here (id x)),
        sum_of-append (λ x. here (id x)) keep val,
      )

  -- Where every row has an id and no two have the same, the carve of train_phone_routing succeeds
  -- and its two parts pass the isolation check.
  pub check_split_isolation-passes :
      (row : Row) (rows : List Row) (val_size seed : ℕ)
      → contains none (map id (row ∷ rows)) ≡ false
      → Distinct (map id (row ∷ rows))
      → (out : List Row × List Row) × (carve_validation r Row route (row ∷ rows) val_size seed
          ≡ some out)
        × (check_split_isolation Row id state out.0 out.1 ≡ true)
  unfolding check_split_isolation
  check_split_isolation-passes row rows val_size seed named distinct =
      let (out, done, parts) = carve_validation-Rearranges r Row route row rows val_size seed in
      let no_id : contains none (map id out.1) ≡ false = absent-count none (map id out.1) (
        omega (
          arith,
          parts-count out.0 out.1 (row ∷ rows) none parts,
          count_absent none (map id (row ∷ rows)) named,
        )) in
      let apart : overlaps (map id out.0) (map id out.1) ≡ false =
        overlaps-apart (map id out.0) (map id out.1) λ k. omega (
          arith,
          parts-count out.0 out.1 (row ∷ rows) k parts,
          count-Distinct k (map id (row ∷ rows)) distinct,
        ) in
      (out, done, ground arith)
