-- ===== src/Cache/Predict.antt =====
-- The predictors of tools/expert_cache_simulator.py. A set of experts is the list of its elements
-- in the order in which Python iterates it; the history is a list of such sets, oldest first.
use pocket_agents_lab.Prelude.{
  ℕ, ◌+◌, Bool, List, [], ◌∷◌, ◌++◌, map, leb, ◌==◌, if◌then◌else◌, take, slice_last,
}
pub mod Ranking

-- A `Counter`: the elements with their counts, in the order of their first occurrence.
abbrev pub Counter : Type 0
Counter = List (ℕ × ℕ)

-- counts[x] += 1
pub count_up : ℕ → Counter → Counter
count_up x [] = (x, 1) ∷ []
count_up x ((y, n) ∷ c) = if x == y then (y, n + 1) ∷ c else (y, n) ∷ count_up x c

-- counts.update(experts)
pub update : Counter → List ℕ → Counter
unfolding count_up
update c [] = c
update c (x ∷ xs) = update (count_up x c) xs

-- The loop of `frequency_predictor`.
pub tally : Counter → List (List ℕ) → Counter
unfolding update
tally c [] = c
tally c (experts ∷ history) = tally (update c experts) history

-- The stable sort by descending count behind `most_common`.
pub rank : ℕ × ℕ → Counter → Counter
rank e [] = e ∷ []
rank e (f ∷ c) = if leb f.1 e.1 then e ∷ f ∷ c else f ∷ rank e c

pub ranking : Counter → Counter
unfolding rank
ranking [] = []
ranking (e ∷ c) = rank e (ranking c)

-- counts.most_common(top_k)
pub most_common : ℕ → Counter → Counter
unfolding ranking
most_common top_k c = take top_k (ranking c)

unfoldable pub previous_token_predictor : List (List ℕ) → List ℕ
previous_token_predictor [] = []
previous_token_predictor (experts ∷ []) = experts
previous_token_predictor (_ ∷ e ∷ history) = previous_token_predictor (e ∷ history)

unfoldable pub frequency_predictor : List (List ℕ) → ℕ → List ℕ
unfolding most_common tally
frequency_predictor history top_k = map (λ e. e.0) (most_common top_k (tally [] history))

-- history[-n:], which for n = 0 is the whole history
unfoldable pub last_n_predictor : List (List ℕ) → ℕ → ℕ → List ℕ
unfolding frequency_predictor
last_n_predictor history n top_k = frequency_predictor (slice_last n history) top_k
