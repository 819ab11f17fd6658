-- ===== src/Mixture/Rounds/Cover.antt =====
-- The first turn of the round-robin takes a row of every group, and no later turn gives one back.
use mathlib.Core.List.{append_assoc, append-nil}
use pocket_agents_lab.Mixture.{Row, true}
use pocket_agents_lab.Mixture.Rounds.{last, pick, turn, rounds}
use pocket_agents_lab.Prelude.{
  ℕ, zero, suc, ◌+◌, ◌≤◌, ◌≡◌, inl, inr, some, List, [], ◌∷◌, ◌++◌, ltb, length, sum_of,
  sum_of-append, length-append, Bool-cases, arith, ◌∙◌, sym, true,
}

-- The last row of each group.
unfoldable pub lasts : List (List Row) → List Row
unfolding last
lasts [] = []
lasts ([] ∷ groups) = lasts groups
lasts ((x ∷ xs) ∷ groups) = last x xs ∷ lasts groups

turn-lasts :
    (count : ℕ) (sampled : List Row) (groups : List (List Row))
    → length sampled + length groups ≤ count
    → (turn count sampled groups).0 ≡ sampled ++ lasts groups
unfolding turn lasts pick
turn-lasts count sampled [] l = sym (append-nil sampled)
turn-lasts count sampled ([] ∷ groups) l = turn-lasts count sampled groups (omega arith)
turn-lasts count sampled ((x ∷ xs) ∷ groups) l =
    let room : ltb (length sampled) count ≡ true = ground arith in
    rw room (
      turn-lasts count (sampled ++ last x xs ∷ []) groups
        (omega (arith, length-append sampled (last x xs ∷ [])))
      ∙ append_assoc sampled (last x xs ∷ []) (lasts groups))

pick-grows :
    (f : Row → ℕ) (count : ℕ) (sampled group : List Row)
    → sum_of f sampled ≤ sum_of f (pick count sampled group).0
unfolding pick
pick-grows f count sampled [] = omega arith
pick-grows f count sampled (x ∷ xs) = ground (arith, sum_of-append f sampled (last x xs ∷ []))

turn-grows :
    (f : Row → ℕ) (count : ℕ) (sampled : List Row) (groups : List (List Row))
    → sum_of f sampled ≤ sum_of f (turn count sampled groups).0
unfolding turn
turn-grows f count sampled [] = omega arith
turn-grows f count sampled (group ∷ groups) = omega (
  arith,
  pick-grows f count sampled group,
  turn-grows f count (pick count sampled group).0 groups,
)

rounds-grows :
    (f : Row → ℕ) (fuel count : ℕ) (sampled : List Row) (groups : List (List Row))
    (out : List Row × List (List Row))
    → rounds fuel count sampled groups ≡ some out
    → sum_of f sampled ≤ sum_of f out.0
unfolding rounds
rounds-grows f zero count sampled groups out e = cc
rounds-grows f (suc fuel) count sampled groups out e =
    elim (Bool-cases (ltb (length sampled) count)) [
      | inl short ↦
          let next = turn count sampled groups in
          omega (
            arith,
            turn-grows f count sampled groups,
            rounds-grows f fuel count next.0 next.1 out (rw short at e),
          )
      | inr full ↦ ground (arith, full)
    ]

-- If there are rows to sample for every group, the sample has the last row of each group.
pub rounds-lasts :
    (f : Row → ℕ) (fuel count : ℕ) (groups : List (List Row)) (out : List Row × List (List Row))
    → length groups ≤ count
    → rounds fuel count [] groups ≡ some out
    → sum_of f (lasts groups) ≤ sum_of f out.0
unfolding rounds lasts
rounds-lasts f zero count groups out l e = cc
rounds-lasts f (suc fuel) zero [] out l e = omega arith
rounds-lasts f (suc fuel) zero (g ∷ groups) out l e = absurd (omega arith)
rounds-lasts f (suc fuel) (suc count) groups out l e =
    let next = turn (suc count) [] groups in
    rw (← turn-lasts (suc count) [] groups (omega arith)) (
      rounds-grows f fuel (suc count) next.0 next.1 out
        (let room : ltb 0 (suc count) ≡ true = ground arith in rw room at e))
