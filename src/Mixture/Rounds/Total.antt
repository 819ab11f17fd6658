-- ===== src/Mixture/Rounds/Total.antt =====
-- The round-robin ends, with exactly `count` rows, and loses none.
use pocket_agents_lab.Mixture.{Row}
use pocket_agents_lab.Mixture.Rounds.{last, but_last, pick, turn, rounds}
use pocket_agents_lab.Prelude.{
  ℕ, zero, suc, ◌+◌, ◌≤◌, ◌<◌, ◌≡◌, refl, inl, inr, some, List, [], ◌∷◌, ltb, length, sum_of,
  sum_of-append, length-append, length-sum_of_one, Bool-cases, arith, ◌∙◌,
}

-- A sum over the rows of all groups.
abbrev pub total_of : (Row → ℕ) → List (List Row) → ℕ
total_of f = sum_of (sum_of f)

pub last-sum :
    (f : Row → ℕ) (x : Row) (xs : List Row)
    → sum_of f (but_last x xs) + f (last x xs) ≡ f x + sum_of f xs
unfolding last but_last
last-sum f x [] = omega arith
last-sum f x (y ∷ ys) = omega (arith, last-sum f y ys)

pick-sum :
    (f : Row → ℕ) (count : ℕ) (sampled group : List Row)
    → sum_of f (pick count sampled group).0 + sum_of f (pick count sampled group).1
      ≡ sum_of f sampled + sum_of f group
unfolding pick
pick-sum f count sampled [] = refl
pick-sum f count sampled (x ∷ xs) =
    ground (arith, sum_of-append f sampled (last x xs ∷ []), last-sum f x xs)

-- A turn moves rows from the groups to the sample.
pub turn-sum :
    (f : Row → ℕ) (count : ℕ) (sampled : List Row) (groups : List (List Row))
    → sum_of f (turn count sampled groups).0 + total_of f (turn count sampled groups).1
      ≡ sum_of f sampled + total_of f groups
unfolding turn
turn-sum f count sampled [] = refl
turn-sum f count sampled (group ∷ groups) =
    omega
      (arith, pick-sum f count sampled group, turn-sum f count (pick count sampled group).0 groups)

pick-length :
    (count : ℕ) (sampled group : List Row)
    → (length sampled ≤ length (pick count sampled group).0)
      × (length sampled ≤ count → length (pick count sampled group).0 ≤ count)
      × (length sampled < count
          → 0 < length group
          → length sampled < length (pick count sampled group).0)
unfolding pick
pick-length count sampled [] = (omega arith, λ h. h, λ h g. absurd (omega arith))
pick-length count sampled (x ∷ xs) = elim (Bool-cases (ltb (length sampled) count)) [
  | inl room ↦ rw room (
    omega (arith, length-append sampled (last x xs ∷ [])),
    λ h. ground (arith, length-append sampled (last x xs ∷ [])),
    λ h g. omega (arith, length-append sampled (last x xs ∷ [])),
  )
  | inr full ↦ rw full (omega arith, λ h. h, λ h g. absurd (ground arith))
]

no_pick :
    (count : ℕ) (sampled group : List Row)
    → length sampled < count
    → length (pick count sampled group).0 ≡ length sampled
    → length group ≤ 0
no_pick count sampled [] h e = omega arith
no_pick count sampled (x ∷ xs) h e =
    absurd (omega (arith, (pick-length count sampled (x ∷ xs)).2 h (omega arith)))

abbrev one : Row → ℕ
one _ = 1

turn-length :
    (count : ℕ) (sampled : List Row) (groups : List (List Row))
    → (length sampled ≤ length (turn count sampled groups).0)
      × (length sampled ≤ count → length (turn count sampled groups).0 ≤ count)
      × (length sampled < count
          → 0 < total_of one groups
          → length sampled < length (turn count sampled groups).0)
unfolding turn
turn-length count sampled [] = (omega arith, λ h. h, λ h g. absurd (omega arith))
turn-length count sampled (group ∷ groups) =
    let p = pick-length count sampled group in
    let t = turn-length count (pick count sampled group).0 groups in
    (
      omega (arith, p.0, t.0),
      λ h. t.1 (p.1 h),
      λ h g. elim (Bool-cases (ltb (length sampled) (length (pick count sampled group).0))) [
        | inl grew ↦ ground (arith, t.0)
        | inr same ↦
            let stays : length (pick count sampled group).0 ≡ length sampled =
              ground (arith, p.0) in
            let empty : length group ≤ 0 = no_pick count sampled group h stays in
            omega (arith, stays, t.2 (omega arith) (omega (arith, length-sum_of_one group, empty)))
      ],
    )

-- The result of a round-robin: `count` rows, and with what is left the rows that were there.
pub record IsDrawn (count : ℕ) (sampled : List Row) (groups : List (List Row))
    (out : List Row × List (List Row)) : Type 0 where
  pub size : length out.0 ≡ count
  pub kept :
      (f : Row → ℕ) → sum_of f out.0 + total_of f out.1 ≡ sum_of f sampled + total_of f groups

-- The round-robin ends: with more fuel than rows are missing, it returns exactly `count` rows, if
-- no more than that are sampled and the groups have the others, and with what is left in the
-- groups they are the rows that were there.
pub rounds_total :
    (fuel count : ℕ) (sampled : List Row) (groups : List (List Row))
    → count < length sampled + fuel
    → length sampled ≤ count
    → count ≤ length sampled + total_of (λ _. 1) groups
    → (out : List Row × List (List Row)) × (rounds fuel count sampled groups ≡ some out)
      × IsDrawn count sampled groups out
unfolding rounds
rounds_total zero count sampled groups m l a = absurd (omega arith)
rounds_total (suc fuel) count sampled groups m l a =
    elim (Bool-cases (ltb (length sampled) count)) [
      | inl short ↦
          let t = turn-length count sampled groups in
          let next = turn count sampled groups in
          let grows = t.2 (ground arith) (ground arith) in
          let (out, done, drawn) =
            rounds_total fuel count next.0 next.1 (omega (arith, grows)) (t.1 l) (
              omega (
                arith,
                turn-sum one count sampled groups,
                length-sum_of_one next.0,
                length-sum_of_one sampled,
              )) in
          (
            out,
            rw short done,
            record {
              size = drawn.size;
              kept = λ f. drawn.kept f ∙ turn-sum f count sampled groups;
            },
          )
      | inr full ↦
          ((sampled, groups), rw full refl, record { size = ground arith; kept = λ f. refl })
    ]
