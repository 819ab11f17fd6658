-- ===== src/Tests/Instances.antt =====
-- Concrete values for the parameters of the models: an order of sets, a generator, tables of
-- characters, exact fractions for floating-point numbers.
use mathlib.Core.List.Perm
use pocket_agents_lab.Prelude.{
  refl, nat_Eq, ◌||◌, ◌&&◌, leb, contains, ℕ, List, ◌∷◌, map, without, Distinct, ◌≡◌, Bool,
  if◌then◌else◌, ltb, ◌==◌, take, drop, [], ◌+◌, ◌*◌, arith, length-take, take-append-drop,
  contains-without, contains-without_self, Distinct-without, some, none, codes, list_Eq, ◌=?◌,
}
use pocket_agents_lab.Cache.Layer.{SetOrder}
use pocket_agents_lab.Random.{Rng}
use pocket_agents_lab.Mixture.{round_ratio}
use pocket_agents_lab.Mixture.Clean.{Unicode}
use pocket_agents_lab.Mixture.Sample.{Floats}
use pocket_agents_lab.Replay.{Python, Member}

abbrev pub dedupe : List ℕ → List ℕ
dedupe [] = []
dedupe (x ∷ xs) = x ∷ without x (dedupe xs)

pub dedupe-Distinct : (xs : List ℕ) → Distinct (dedupe xs)
dedupe-Distinct [] = tt
dedupe-Distinct (x ∷ xs) =
    (contains-without_self x (dedupe xs), Distinct-without x (dedupe xs) (dedupe-Distinct xs))

pub contains-dedupe : (x : ℕ) (xs : List ℕ) → contains x (dedupe xs) ≡ contains x xs
unfolding contains
contains-dedupe x [] = refl
contains-dedupe x (y ∷ xs) = ground (arith, contains-without x y (dedupe xs), contains-dedupe x xs)

-- Sets in the order of first occurrence.
abbrev pub first_seen : SetOrder
first_seen = record {
  set_of = dedupe;
  set_of-Distinct = dedupe-Distinct;
  contains-set_of = contains-dedupe;
}

-- A generator that leaves lists as they are and samples from their front.
abbrev pub still : Rng
still = record {
  State = ℕ;
  seeded = λ seed. seed;
  shuffle = λ A s xs. (xs, s);
  shuffle-perm = λ A s xs. Perm.refl xs;
  sample = λ A s xs k. (take k xs, s);
  sample-perm = λ A s xs k l.
      (drop k xs, omega (arith, length-take k xs), rw (take-append-drop k xs) (Perm.refl xs));
}

abbrev pub is_upper : ℕ → Bool
is_upper c = leb b'A' c && leb c b'Z'

abbrev pub is_lower : ℕ → Bool
is_lower c = leb b'a' c && leb c b'z'

abbrev pub lower_code : ℕ → ℕ
lower_code c = if is_upper c then c + 32 else c

-- The tables of ASCII, without digits.
abbrev pub ascii : Unicode
ascii = record { casefold = λ c. lower_code c ∷ []; is_word = λ c. is_upper c || is_lower c }

-- Fractions, as numerator and denominator.
abbrev pub fractions : Floats
fractions = record {
  Float = ℕ × ℕ;
  is_positive = λ w. ltb 0 w.0;
  per_weight = λ n w. (n * w.1, w.0);
  smaller = λ v w. if leb (v.0 * w.1) (w.0 * v.1) then v else w;
  rounded_product = λ v w. some (round_ratio (v.0 * w.0) (v.1 * w.1));
}

-- A reader of the one object {t}, which stands for a call of the storage tool.
abbrev pub python : Python
python = record {
  lower = map lower_code;
  is_space = λ c. c == b' ';
  loads = λ text.
      if text =? codes "{t}"
      then some (record { action = Member.given "tool"; name = Member.given "get_storage_info" })
      else none;
}
