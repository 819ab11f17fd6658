-- ===== src/Prelude/Chars.antt =====
-- Text as lists of code points: prefixes, substrings and stripping.
use Prim.Native.Char.{code}
use Prim.Native.String.{String, ◌++◌ as ◌⋯◌}
use Prim.Native.Nat.{ℕ}
use text.Mathlib.TextLemmas.{nil-append, cons-append}
use mathlib.Core.Path.{◌≡◌, refl, ap, ◌∙◌}
use mathlib.Core.Bool.{Bool, true, false, ◌&&◌, ◌||◌}
use mathlib.Core.List.{List, [], ◌∷◌, ◌++◌, reverse, reverse-append, reverse-reverse}
use pocket_agents_lab.Prelude.Tests.{◌==◌, if◌then◌else◌}
use pocket_agents_lab.Prelude.Lists.{All, All-append}

abbrev pub Text : Type 0
Text = List ℕ

-- The code points of a native text.
abbrev pub codes : String → Text
codes String.[] = []
codes (String.◌∷◌ c s) = code c ∷ codes s

pub codes-append : (s t : String) → codes (s ⋯ t) ≡ codes s ++ codes t
codes-append String.[] t = ap codes (nil-append t)
codes-append (String.◌∷◌ c s) t =
    ap codes (cons-append c s t) ∙ ap (λ u. code c ∷ u) (codes-append s t)

-- text.startswith(prefix)
unfoldable pub has_prefix : Text → Text → Bool
has_prefix [] text = true
has_prefix (p ∷ prefix) [] = false
has_prefix (p ∷ prefix) (c ∷ text) = (p == c) && has_prefix prefix text

-- part in text
unfoldable pub has_part : Text → Text → Bool
unfolding has_prefix
has_part part [] = has_prefix part []
has_part part (c ∷ text) = has_prefix part (c ∷ text) || has_part part text

-- text.removeprefix(prefix)
unfoldable pub drop_prefix : Text → Text → Text
drop_prefix [] text = text
drop_prefix (p ∷ prefix) [] = []
drop_prefix (p ∷ prefix) (c ∷ text) = drop_prefix prefix text

unfoldable pub remove_prefix : Text → Text → Text
unfolding has_prefix drop_prefix
remove_prefix prefix text = if has_prefix prefix text then drop_prefix prefix text else text

-- text.lstrip(chars), with the characters given by a test
unfoldable pub strip_start : (ℕ → Bool) → Text → Text
strip_start p [] = []
strip_start p (c ∷ text) = let rest = strip_start p text in if p c then rest else c ∷ text

-- text.strip(chars)
unfoldable pub strip : (ℕ → Bool) → Text → Text
unfolding strip_start
strip p text = reverse (strip_start p (reverse (strip_start p text)))

-- Neither end of the text has a character to strip.
abbrev pub IsBare : (ℕ → Bool) → Text → Type 0
IsBare p text = (strip_start p text ≡ text) × (strip_start p (reverse text) ≡ reverse text)

module _ (p : ℕ → Bool) where
  pub strip_start-pad :
      (pad text : Text)
      → All (λ c. p c ≡ true) pad
      → strip_start p (pad ++ text) ≡ strip_start p text
  unfolding strip_start
  strip_start-pad [] text a = refl
  strip_start-pad (c ∷ pad) text a = rw a.0 (strip_start-pad pad text a.1)

  pub All-reverse : (pad : Text) → All (λ c. p c ≡ true) pad → All (λ c. p c ≡ true) (reverse pad)
  All-reverse [] a = tt
  All-reverse (c ∷ pad) a =
      rw (reverse-append (c ∷ []) pad)
        (All-append _ (reverse pad) (c ∷ []) (All-reverse pad a.1) (a.0, tt))

  -- What is stripped is exactly a padding round a bare text.
  pub strip-pad :
      (before text after : Text)
      → All (λ c. p c ≡ true) before
      → All (λ c. p c ≡ true) after
      → IsBare p text
      → strip_start p (text ++ after) ≡ text ++ after
      → strip p (before ++ (text ++ after)) ≡ text
  unfolding strip
  strip-pad before text after b a bare front =
      rw
        (
          strip_start-pad before (text ++ after) b,
          front,
          reverse-append text after,
          strip_start-pad (reverse after) (reverse text) (All-reverse after a),
          bare.1,
        )
        (reverse-reverse text)

  -- A text that neither starts nor ends with a character to strip is what `strip` leaves of it,
  -- whatever padding stands round it.
  pub strip-framed :
      (before text after : Text) (c d : ℕ) (rest rest' : Text)
      → All (λ c. p c ≡ true) before
      → All (λ c. p c ≡ true) after
      → (text ≡ c ∷ rest) × (p c ≡ false)
      → (reverse text ≡ d ∷ rest') × (p d ≡ false)
      → strip p (before ++ (text ++ after)) ≡ text
  unfolding strip_start
  strip-framed before text after c d rest rest' b a front back =
      strip-pad before text after b a (rw (front.0, front.1) refl, rw (back.0, back.1) refl)
        (rw (front.0, front.1) refl)
