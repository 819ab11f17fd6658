-- ===== src/Mixture/Rounds.antt =====
-- The round-robin of `weighted_sample` in tools/prepare_general_mixture.py: while fewer than
-- `count` rows are sampled, one row is popped from the end of each group in turn.
pub mod Total
pub mod Cover
use pocket_agents_lab.Prelude.{
  ℕ, zero, suc, ◌≤◌, Bool, Option, none, some, List, [], ◌∷◌, ◌++◌, ltb, length, if◌then◌else◌,
}
use pocket_agents_lab.Mixture.{Row}

-- The last element of `x ∷ xs`, and the others: `pop()` of a list that is not empty.
pub last : Row → List Row → Row
last x [] = x
last x (y ∷ ys) = last y ys

pub but_last : Row → List Row → List Row
but_last x [] = []
but_last x (y ∷ ys) = x ∷ but_last y ys

-- `if groups[label] and len(sampled) < count: sampled.append(groups[label].pop())`: the sampled
-- rows and what is left of the group.
pub pick : ℕ → List Row → List Row → List Row × List Row
unfolding last but_last
pick count sampled [] = (sampled, [])
pick count sampled (x ∷ xs) =
    if ltb (length sampled) count
    then (sampled ++ last x xs ∷ [], but_last x xs)
    else (sampled, x ∷ xs)

-- `for label in labels`
pub turn : ℕ → List Row → List (List Row) → List Row × List (List Row)
unfolding pick
turn count sampled [] = (sampled, [])
turn count sampled (group ∷ groups) =
    let (picked, left) = pick count sampled group in
    let (out, others) = turn count picked groups in (out, left ∷ others)

-- `while len(sampled) < count`, with fuel; `none` means that the fuel ran out.
unfoldable pub rounds : ℕ → ℕ → List Row → List (List Row) → Option (List Row × List (List Row))
unfolding turn
rounds zero count sampled groups = none
rounds (suc fuel) count sampled groups =
    let more =
      (let (sampled', groups') = turn count sampled groups in rounds fuel count sampled' groups') in
    if ltb (length sampled) count then more else some (sampled, groups)
