-- ===== src/Mixture/Clean.antt =====
-- `normalize` and `clean_pool`. The tables of Unicode, full case folding and the word characters of
-- a regular expression's \w, are a parameter.
use pocket_agents_lab.Prelude.{
  ℕ, Bool, false, not, ◌&&◌, ◌||◌, String, List, [], ◌∷◌, ◌++◌, if◌then◌else◌, contains, list_Eq,
  nat_Eq, map, Distinct, ◌≡◌, arith, Bool-cases, list_beq_iff, inl, inr, refl, ◌+◌, sum_of,
  sum_of-append, true,
}
use pocket_agents_lab.Mixture.{Row}

pub record Unicode : Type 0 where
  pub casefold : ℕ → List ℕ
  pub is_word : ℕ → Bool

pub data Reason : Type 0 where
  protected_state duplicate_state : Reason

module _ (u : Unicode) where
  pub casefold_text : List ℕ → List ℕ
  casefold_text [] = []
  casefold_text (c ∷ cs) = u.casefold c ++ casefold_text cs

  -- " ".join(re.findall(r"\w+", text)): `open` says that a word is being read, `started` that one
  -- has been, so that the next one is set off by a space.
  pub join_words : (started reading : Bool) → List ℕ → List ℕ
  join_words started reading [] = []
  join_words started reading (c ∷ cs) =
      let next = join_words (started || u.is_word c) (u.is_word c) cs in
      if u.is_word c then (if started && not reading then b' ' ∷ c ∷ next else c ∷ next) else next

  unfoldable pub normalize : List ℕ → List ℕ
  unfolding casefold_text join_words
  normalize text = join_words false false (casefold_text text)

-- The loop of `clean_pool`, for the key of a row that it compares: `seen` are the keys kept so far.
-- The result is what is kept, and what is excluded with the reason.
module _ (key : Row → List ℕ) (protected : List (List ℕ)) where
  unfoldable pub clean : List (List ℕ) → List Row → List Row × List (String × Reason)
  clean seen [] = ([], [])
  clean seen (row ∷ rows) =
      let k = key row in
      let reason = if contains k protected then protected_state else duplicate_state in
      let skip : List Row × List (String × Reason) =
        (let (kept, excluded) = clean seen rows in (kept, (row.id, reason) ∷ excluded)) in
      let keep : List Row × List (String × Reason) =
        (let (kept, excluded) = clean (k ∷ seen) rows in (row ∷ kept, excluded)) in
      if contains k protected || contains k seen then skip else keep

-- `clean_pool`: the rows kept, and `excluded` with the new entries appended.
unfoldable pub clean_pool :
    Unicode → List Row → List (List ℕ) → List (String × Reason) → List Row × List (String × Reason)
unfolding clean normalize
clean_pool u rows protected excluded =
    let (kept, more) = clean (λ row. normalize u row.state) protected [] rows in
    (kept, excluded ++ more)

abbrev pub is_protected : Reason → Bool
is_protected Reason.protected_state = true
is_protected Reason.duplicate_state = false

-- What a set of keys lets through.
abbrev pub fresh : (protected seen : List (List ℕ)) → List ℕ → Bool
fresh protected seen k = not (contains k protected) && not (contains k seen)

module _ (key : Row → List ℕ) (protected : List (List ℕ)) where
  clean-keys :
      (seen : List (List ℕ)) (rows : List Row) (k : List ℕ)
      → contains k (map key (clean key protected seen rows).0)
        ≡ (contains k (map key rows) && fresh protected seen k)
  unfolding clean contains
  clean-keys seen [] k = refl
  clean-keys seen (row ∷ rows) k =
      ground (
        arith,
        clean-keys seen rows k,
        clean-keys (key row ∷ seen) rows k,
        list_beq_iff k (key row),
      )

  clean-Distinct :
      (seen : List (List ℕ)) (rows : List Row)
      → Distinct (map key (clean key protected seen rows).0)
  unfolding clean
  clean-Distinct seen [] = tt
  clean-Distinct seen (row ∷ rows) =
      elim (Bool-cases (contains (key row) protected || contains (key row) seen)) [
        | inl out ↦ rw out (clean-Distinct seen rows)
        | inr fits ↦ rw fits (
          unfold contains in
              ground (
                arith,
                clean-keys (key row ∷ seen) rows (key row),
                list_beq_iff (key row) (key row),
              ),
          clean-Distinct (key row ∷ seen) rows,
        )
      ]

  clean-sum :
      (f : String → ℕ) (seen : List (List ℕ)) (rows : List Row)
      → sum_of (λ (row : Row). f row.id) (clean key protected seen rows).0
          + sum_of (λ e. f e.0) (clean key protected seen rows).1
        ≡ sum_of (λ (row : Row). f row.id) rows
  unfolding clean
  clean-sum f seen [] = refl
  clean-sum f seen (row ∷ rows) =
      ground (arith, clean-sum f seen rows, clean-sum f (key row ∷ seen) rows)

  clean-protected :
      (f : String → ℕ) (seen : List (List ℕ)) (rows : List Row)
      → sum_of (λ e. if is_protected e.1 then f e.0 else 0) (clean key protected seen rows).1
        ≡ sum_of (λ (row : Row). if contains (key row) protected then f row.id else 0) rows
  unfolding clean
  clean-protected f seen [] = refl
  clean-protected f seen (row ∷ rows) =
      ground (arith, clean-protected f seen rows, clean-protected f (key row ∷ seen) rows)

module _ (u : Unicode) (rows : List Row) (protected : List (List ℕ))
    (excluded : List (String × Reason)) where
  abbrev pub kept_keys : List (List ℕ)
  kept_keys = map (λ row. normalize u row.state) (clean_pool u rows protected excluded).0

  absent : (k : List ℕ) → contains k [] ≡ false
  unfolding contains
  absent k = refl

  -- Cleaning is exact. The normalised states of the rows kept are those of the rows given, less
  -- the protected ones, each of them once. Counted by their ids, with any weight, the rows kept
  -- and the new entries of `excluded` are the rows given, and the new entries with the reason of a
  -- protected state are the rows whose normalised state is protected.
  pub clean_pool-exact :
      ((k : List ℕ)
        → contains k kept_keys ≡ (
            contains k (map (λ (row : Row). normalize u row.state) rows)
            && not (contains k protected)))
      × Distinct kept_keys
      × ((f : String → ℕ)
          → (sum_of (λ (row : Row). f row.id) (clean_pool u rows protected excluded).0
                + sum_of (λ e. f e.0) (clean_pool u rows protected excluded).1
              ≡ sum_of (λ (row : Row). f row.id) rows + sum_of (λ e. f e.0) excluded)
            × (sum_of
                  (λ e. if is_protected e.1 then f e.0 else 0)
                  (clean_pool u rows protected excluded).1
                ≡ sum_of
                    (λ (row : Row).
                      if contains (normalize u row.state) protected then f row.id else 0)
                    rows
                  + sum_of (λ e. if is_protected e.1 then f e.0 else 0) excluded))
  unfolding clean_pool
  clean_pool-exact =
      let key : Row → List ℕ = λ row. normalize u row.state in
      let more = (clean key protected [] rows).1 in
      let marked : (String → ℕ) → String × Reason → ℕ =
        λ f e. if is_protected e.1 then f e.0 else 0 in
      (
        λ k. ground (arith, clean-keys key protected [] rows k, absent k),
        clean-Distinct key protected [] rows,
        λ f. (
          omega
              (arith, clean-sum key protected f [] rows, sum_of-append (λ e. f e.0) excluded more),
          omega (
            arith,
            clean-protected key protected f [] rows,
            sum_of-append (marked f) excluded more,
          ),
        ),
      )
