-- ===== src/Mixture.antt =====
-- tools/prepare_general_mixture.py: the rows of the frozen mixture and the errors of its steps.
-- A row's state is the list of its code points. The JSON texts of `questions` and `gold` are kept
-- as they are.
pub mod Clean
pub mod Split
pub mod Rounds
pub mod Sample
pub mod Checks
pub mod Compose
use Prim.Native.String.{compare}
use Prim.Native.Nat.{Ordering}
use pocket_agents_lab.Prelude.{
  ℕ, suc, ◌+◌, ◌*◌, ◌/◌, ◌%◌, Bool, true, false, String, List, ltb, ◌==◌, if◌then◌else◌, ◌≡◌, arith,
  refl, ◌≢◌,
}

pub record Row : Type 0 where
  pub id : String
  pub source : String
  pub state : List ℕ
  pub questions : String
  pub gold : String
  pub workflow : String
  pub route_label : String
  pub n_questions : ℕ

pub data Error : Type 0 where
  schema_mismatch invalid_intent bad_weights mixture_overflow no_sources : Error
  missing_key : String → Error
  out_of_fuel : Error
  insufficient : String → Error
  omits_classes : String → Error
  leakage : String → String → Error
  duplicate_ids : Error

pub data Result {ℓ} (A : Type ℓ) : Type ℓ where
  ok : A → Result A
  raise : Error → Result A

-- A step and what follows it, unless it raises.
infixl 5 ◌>>=◌
abbrev pub ◌>>=◌ {ℓ κ} : {A : Type ℓ} {B : Type κ} → Result A → (A → Result B) → Result B
raise error >>= next = raise error
ok value >>= next = next value

-- The order of Python's strings, by code points.
abbrev pub str_le : String → String → Bool
str_le s t = elim (compare s t) [ Ordering.gt ↦ false | _ ↦ true ]

-- round(n / d) for a positive d, to the nearest integer, halves to the even one.
unfoldable pub round_ratio : ℕ → ℕ → ℕ
round_ratio n d =
    let rest = 2 * (n % d) in
    if ltb rest d
    then n / d
    else if ltb d rest
    then n / d + 1
    else if (n / d) % 2 == 0
    then n / d
    else n / d + 1

-- What a guarded step that succeeded has computed.
pub guarded-eq-ok :
    {A B : Type 0} (b : Bool) (e : Error) (m : Result A) (f : A → B) {r : B}
    → (if b then raise e else (m >>= λ a. ok (f a))) ≡ ok r
    → (a : A) × (b ≡ false) × (m ≡ ok a) × (r ≡ f a)
guarded-eq-ok true e m f h = cc
guarded-eq-ok false e (ok a) f h = (a, refl, refl, ground arith)
guarded-eq-ok false e (raise e') f h = cc

-- What a chain that succeeded has computed.
pub >>=-eq-ok {ℓ κ} :
    {A : Type ℓ} {B : Type κ} (step : Result A) (next : A → Result B) {result : B}
    → (step >>= next) ≡ ok result
    → (value : A) × (step ≡ ok value) × (next value ≡ ok result)
>>=-eq-ok (raise error) next h = cc
>>=-eq-ok (ok value) next h = (value, refl, h)

-- A chain stops with an error where one of its steps does.
pub >>=-ne-raise {ℓ κ} :
    {A : Type ℓ} {B : Type κ} (m : Result A) (f : A → Result B) (e : Error)
    → m ≢ raise e
    → ((a : A) → m ≡ ok a → f a ≢ raise e)
    → (m >>= f) ≢ raise e
>>=-ne-raise (ok a) f e hm hf = hf a refl
>>=-ne-raise (raise e') f e hm hf = λ p. hm (ground (arith, p))
