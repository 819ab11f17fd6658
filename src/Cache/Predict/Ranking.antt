-- ===== src/Cache/Predict/Ranking.antt =====
-- The frequency predictor chooses experts of the greatest frequency in the history.
use pocket_agents_lab.Prelude.{
  ℕ, zero, suc, ◌+◌, ◌≤◌, ◌≡◌, refl, true, false, ◌||◌, List, [], ◌∷◌, map, inl, inr, arith, leb,
  ◌==◌, if◌then◌else◌, take, length, contains, Distinct, All, nat_Eq, Bool-cases, length-take,
  length-map, leb→le,
}
use pocket_agents_lab.Cache.Predict.{
  Counter, count_up, update, tally, rank, ranking, most_common, frequency_predictor,
}

-- The number of sets of the history with the expert.
pub frequency : ℕ → List (List ℕ) → ℕ
frequency x [] = 0
frequency x (experts ∷ history) =
    if contains x experts then frequency x history + 1 else frequency x history

abbrev keys : Counter → List ℕ
keys = map (λ e. e.0)

-- counts[x], 0 for a missing key
value : ℕ → Counter → ℕ
value x [] = 0
value x ((y, n) ∷ c) = if x == y then n else value x c

value-count_up :
    (x y : ℕ) (c : Counter) → value x (count_up y c) ≡ (if x == y then value x c + 1 else value x c)
unfolding value count_up
value-count_up x y [] = ground arith
value-count_up x y ((z, n) ∷ c) = ground (arith, value-count_up x y c)

contains-count_up :
    (x y : ℕ) (c : Counter) → contains x (keys (count_up y c)) ≡ ((x == y) || contains x (keys c))
unfolding count_up contains
contains-count_up x y [] = ground arith
contains-count_up x y ((z, n) ∷ c) = ground (arith, contains-count_up x y c)

count_up-Distinct : (y : ℕ) (c : Counter) → Distinct (keys c) → Distinct (keys (count_up y c))
unfolding count_up contains
count_up-Distinct y [] d = (refl, tt)
count_up-Distinct y ((z, n) ∷ c) d = ground (arith, contains-count_up z y c, count_up-Distinct y c)

value-update :
    (x : ℕ) (c : Counter) (s : List ℕ)
    → Distinct s
    → value x (update c s) ≡ (if contains x s then value x c + 1 else value x c)
unfolding update contains
value-update x c [] d = refl
value-update x c (y ∷ s) d =
    ground (arith, value-update x (count_up y c) s d.1, value-count_up x y c)

update-Distinct : (c : Counter) (s : List ℕ) → Distinct (keys c) → Distinct (keys (update c s))
unfolding update
update-Distinct c [] d = d
update-Distinct c (y ∷ s) d = update-Distinct (count_up y c) s (count_up-Distinct y c d)

value-tally :
    (x : ℕ) (c : Counter) (history : List (List ℕ))
    → All Distinct history
    → value x (tally c history) ≡ value x c + frequency x history
unfolding tally frequency
value-tally x c [] d = omega arith
value-tally x c (s ∷ history) d =
    ground (arith, value-tally x (update c s) history d.1, value-update x c s d.0)

tally-Distinct :
    (c : Counter) (history : List (List ℕ)) → Distinct (keys c) → Distinct (keys (tally c history))
unfolding tally
tally-Distinct c [] d = d
tally-Distinct c (s ∷ history) d = tally-Distinct (update c s) history (update-Distinct c s d)

contains-rank :
    (x : ℕ) (e : ℕ × ℕ) (c : Counter)
    → contains x (keys (rank e c)) ≡ ((x == e.0) || contains x (keys c))
unfolding rank contains
contains-rank x e [] = refl
contains-rank x e (f ∷ c) = ground (arith, contains-rank x e c)

contains-ranking : (x : ℕ) (c : Counter) → contains x (keys (ranking c)) ≡ contains x (keys c)
unfolding ranking contains
contains-ranking x [] = refl
contains-ranking x (e ∷ c) = ground (arith, contains-rank x e (ranking c), contains-ranking x c)

rank-Distinct :
    (e : ℕ × ℕ) (c : Counter)
    → contains e.0 (keys c) ≡ false
    → Distinct (keys c)
    → Distinct (keys (rank e c))
unfolding rank contains
rank-Distinct e [] a d = (refl, tt)
rank-Distinct e (f ∷ c) a d = ground (arith, contains-rank f.0 e c, rank-Distinct e c)

ranking-Distinct : (c : Counter) → Distinct (keys c) → Distinct (keys (ranking c))
unfolding ranking
ranking-Distinct [] d = tt
ranking-Distinct (e ∷ c) d =
    rank-Distinct e (ranking c) (ground (arith, contains-ranking e.0 c)) (ranking-Distinct c d.1)

value-rank :
    (x : ℕ) (e : ℕ × ℕ) (c : Counter)
    → contains e.0 (keys c) ≡ false
    → value x (rank e c) ≡ (if x == e.0 then e.1 else value x c)
unfolding rank value contains
value-rank x e [] a = refl
value-rank x e (f ∷ c) a = ground (arith, value-rank x e c)

value-ranking : (x : ℕ) (c : Counter) → Distinct (keys c) → value x (ranking c) ≡ value x c
unfolding ranking value
value-ranking x [] d = refl
value-ranking x (e ∷ c) d =
    ground (arith, value-rank x e (ranking c), contains-ranking e.0 c, value-ranking x c d.1)

-- Counts fall along the list.
abbrev Descending : Counter → Type 0
Descending [] = Unit
Descending (e ∷ c) = All (λ (f : ℕ × ℕ). f.1 ≤ e.1) c × Descending c

rank-All :
    (n : ℕ) (e : ℕ × ℕ) (c : Counter)
    → e.1 ≤ n
    → All (λ (f : ℕ × ℕ). f.1 ≤ n) c
    → All (λ (f : ℕ × ℕ). f.1 ≤ n) (rank e c)
unfolding rank
rank-All n e [] l a = (l, tt)
rank-All n e (f ∷ c) l a = elim (Bool-cases (leb f.1 e.1)) [
  | inl first ↦ rw first (l, a)
  | inr later ↦ rw later (a.0, rank-All n e c l a.1)
]

All-le_trans :
    (m n : ℕ) (c : Counter)
    → m ≤ n
    → All (λ (f : ℕ × ℕ). f.1 ≤ m) c
    → All (λ (f : ℕ × ℕ). f.1 ≤ n) c
All-le_trans m n [] l a = tt
All-le_trans m n (f ∷ c) l a = (omega arith, All-le_trans m n c l a.1)

rank-Descending : (e : ℕ × ℕ) (c : Counter) → Descending c → Descending (rank e c)
unfolding rank
rank-Descending e [] d = (tt, tt)
rank-Descending e (f ∷ c) d = elim (Bool-cases (leb f.1 e.1)) [
  | inl first ↦
      rw first (
        (omega (arith, leb→le f.1 e.1 first), All-le_trans f.1 e.1 c (leb→le f.1 e.1 first) d.0),
        d,
      )
  | inr later ↦ rw later (rank-All f.1 e c (ground arith) d.0, rank-Descending e c d.1)
]

ranking-Descending : (c : Counter) → Descending (ranking c)
unfolding ranking
ranking-Descending [] = tt
ranking-Descending (e ∷ c) = rank-Descending e (ranking c) (ranking-Descending c)

value-le : (x n : ℕ) (c : Counter) → All (λ (f : ℕ × ℕ). f.1 ≤ n) c → value x c ≤ n
unfolding value
value-le x n [] a = omega arith
value-le x n (f ∷ c) a = ground (arith, value-le x n c a.1)

-- Of a list with falling counts, what `take` keeps has counts at least those of what it drops.
take-value :
    (k x y : ℕ) (c : Counter)
    → Descending c
    → contains x (keys (take k c)) ≡ true
    → contains y (keys (take k c)) ≡ false
    → value y c ≤ value x c
unfolding value contains
take-value zero x y c d px py = cc
take-value (suc k) x y [] d px py = omega arith
take-value (suc k) x y (f ∷ c) d px py =
    ground (arith, take-value k x y c d.1, value-le y f.1 c d.0)

-- The predictor is optimal: an expert that it predicts occurred in at least as many tokens of the
-- history as any expert that it does not predict, if the history's entries are sets.
pub frequency_predictor-optimal :
    (history : List (List ℕ)) (top_k x y : ℕ)
    → All Distinct history
    → contains x (frequency_predictor history top_k) ≡ true
    → contains y (frequency_predictor history top_k) ≡ false
    → frequency y history ≤ frequency x history
unfolding frequency_predictor most_common value
frequency_predictor-optimal history top_k x y d px py =
    let counts = tally [] history in
    let distinct : Distinct (keys counts) = tally-Distinct [] history tt in
    omega (
      arith,
      take-value top_k x y (ranking counts) (ranking-Descending counts) px py,
      value-ranking x counts distinct,
      value-ranking y counts distinct,
      value-tally x [] history d,
      value-tally y [] history d,
    )

keys-take_absent :
    (k x : ℕ) (c : Counter) → contains x (keys c) ≡ false → contains x (keys (take k c)) ≡ false
unfolding contains
keys-take_absent zero x c a = refl
keys-take_absent (suc k) x [] a = refl
keys-take_absent (suc k) x (e ∷ c) a = ground (arith, keys-take_absent k x c)

keys-take-Distinct : (k : ℕ) (c : Counter) → Distinct (keys c) → Distinct (keys (take k c))
keys-take-Distinct zero c d = tt
keys-take-Distinct (suc k) [] d = tt
keys-take-Distinct (suc k) (e ∷ c) d = (keys-take_absent k e.0 c d.0, keys-take-Distinct k c d.1)

-- The prediction is a set of at most `top_k` experts.
frequency_predictor-size :
    (history : List (List ℕ)) (top_k : ℕ)
    → Distinct (frequency_predictor history top_k)
      × (length (frequency_predictor history top_k) ≤ top_k)
unfolding frequency_predictor most_common
frequency_predictor-size history top_k = (
  keys-take-Distinct top_k (ranking (tally [] history))
      (ranking-Distinct (tally [] history) (tally-Distinct [] history tt)),
  omega (
    arith,
    length-map (λ (e : ℕ × ℕ). e.0) (take top_k (ranking (tally [] history))),
    length-take top_k (ranking (tally [] history)),
  ),
)
