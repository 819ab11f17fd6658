-- ===== src/Benchmark/Telemetry/Temperature.antt =====
-- tools/benchmark_decision_android.py, telemetry: the number behind a label is read as it was
-- printed.
use pocket_agents_lab.Prelude.{
  ℕ, ◌+◌, ◌*◌, Bool, true, false, Option, none, some, List, [], ◌∷◌, ◌++◌, map, ◌≡◌, refl, ap, ◌∙◌,
  All, Text, arith, ltb, codes, has_prefix, drop_prefix, strip_start, strip_start-pad, ==_iff,
}
use pocket_agents_lab.Benchmark.Telemetry.{
  or_else, find_match, digits_from, number_at, labelled, reading_of,
}

-- The number with the digits given, after those that make n.
abbrev pub decimal : ℕ → List ℕ → ℕ
decimal n [] = n
decimal n (d ∷ ds) = decimal (n * 10 + d) ds

decimal-first : (d : ℕ) (ds : List ℕ) → decimal d ds ≡ decimal 0 (d ∷ ds)
decimal-first d ds = let same : d ≡ 0 * 10 + d = omega arith in ap (λ n. decimal n ds) same

has_prefix-append : (prefix text : Text) → has_prefix prefix (prefix ++ text) ≡ true
unfolding has_prefix
has_prefix-append [] text = refl
has_prefix-append (c ∷ prefix) text =
    rw (has_prefix, (==_iff c c).1 refl) (has_prefix-append prefix text)

drop_prefix-append : (prefix text : Text) → drop_prefix prefix (prefix ++ text) ≡ text
unfolding drop_prefix
drop_prefix-append [] text = refl
drop_prefix-append (c ∷ prefix) text = drop_prefix-append prefix text

-- No label begins in the text before, where the rest follows it.
abbrev pub Unlabelled : Text → Text → Text → Type 0
Unlabelled label [] rest = Unit
Unlabelled label (c ∷ before) rest =
    (has_prefix label (c ∷ (before ++ rest)) ≡ false) × Unlabelled label before rest

module _ (is_space : ℕ → Bool) (digit : ℕ → Option ℕ) (show : ℕ → ℕ)
    (shown : (d : ℕ) → ltb d 10 ≡ true → digit (show d) ≡ some d)
    (solid : (d : ℕ) → ltb d 10 ≡ true → is_space (show d) ≡ false) where
  -- What follows a number does not go on with a digit.
  abbrev pub Ends : Text → Type 0
  Ends [] = Unit
  Ends (c ∷ text) = digit c ≡ none

  digits_from-shown :
      (n : ℕ) (ds : List ℕ) (rest : Text)
      → All (λ d. ltb d 10 ≡ true) ds
      → Ends rest
      → digits_from is_space digit n (map show ds ++ rest) ≡ decimal n ds
  unfolding digits_from
  digits_from-shown n [] [] small ends = refl
  digits_from-shown n [] (c ∷ rest) small ends = rw (digits_from, ends) refl
  digits_from-shown n (d ∷ ds) rest small ends =
      rw (digits_from, shown d small.0) (digits_from-shown (n * 10 + d) ds rest small.1 ends)

  -- A label, white space and a number.
  abbrev pub line : Text → Text → List ℕ → Text → Text
  line label spaces ds rest = label ++ (spaces ++ (map show ds ++ rest))

  labelled-shown :
      (label spaces : Text) (d : ℕ) (ds : List ℕ) (rest : Text)
      → All (λ c. is_space c ≡ true) spaces
      → All (λ d. ltb d 10 ≡ true) (d ∷ ds)
      → Ends rest
      → labelled is_space digit label (line label spaces (d ∷ ds) rest) ≡ some (decimal 0 (d ∷ ds))
  unfolding labelled number_at strip_start
  labelled-shown label spaces d ds rest blank small ends =
      let text = map show (d ∷ ds) ++ rest in
      let starts : strip_start is_space text ≡ text = rw (strip_start, solid d small.0) refl in
      rw
        (
          labelled,
          has_prefix-append label (spaces ++ text),
          drop_prefix-append label (spaces ++ text),
          strip_start-pad is_space spaces text blank,
          starts,
          number_at,
          shown d small.0,
        )
        (ap some (digits_from-shown d ds rest small.1 ends ∙ decimal-first d ds))

  find_match-skip :
      (label before text : Text) (n : ℕ)
      → Unlabelled label before text
      → labelled is_space digit label text ≡ some n
      → find_match (labelled is_space digit label) (before ++ text) ≡ some n
  unfolding find_match or_else labelled
  find_match-skip label [] [] n absent here = here
  find_match-skip label [] (b ∷ text) n absent here = rw (find_match, here, or_else) refl
  find_match-skip label (b ∷ before) text n absent here =
      rw (find_match, labelled, absent.0, or_else)
        (find_match-skip label before text n absent.1 here)

  -- The temperature that telemetry reports is the number printed behind the first `temperature:`
  -- of the battery's text, where at least one digit stands there, only white space stands between
  -- them and no digit follows; `int` of a digit is the digit that was printed and no digit is
  -- white space.
  pub reading_of-temperature :
      (before spaces : Text) (d : ℕ) (ds : List ℕ) (rest thermal : Text) (pss : Option ℕ)
      → Unlabelled (codes "temperature:") before (line (codes "temperature:") spaces (d ∷ ds) rest)
      → All (λ c. is_space c ≡ true) spaces
      → All (λ d. ltb d 10 ≡ true) (d ∷ ds)
      → Ends rest
      → (reading_of is_space digit
          (before ++ line (codes "temperature:") spaces (d ∷ ds) rest)
          thermal
          pss).temperature
        ≡ some (decimal 0 (d ∷ ds))
  unfolding reading_of
  reading_of-temperature before spaces d ds rest thermal pss absent blank small ends =
      find_match-skip (codes "temperature:") before
        (line (codes "temperature:") spaces (d ∷ ds) rest) (decimal 0 (d ∷ ds)) absent
        (labelled-shown (codes "temperature:") spaces d ds rest blank small ends)
