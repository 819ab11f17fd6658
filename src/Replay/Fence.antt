-- ===== src/Replay/Fence.antt =====
-- A decision in a code fence.
use pocket_agents_lab.Prelude.{
  refl, ◌≡◌, Text, has_prefix, false, codes, ◌++◌, reverse, All, ◌∷◌, [], reverse-append, true,
  strip, ℕ, strip-framed, All-reverse, ◌∙◌, arith, remove_prefix, append_assoc,
}
use pocket_agents_lab.Replay.{Python, parse_route_json, fence, is_tick}

-- The white space of the text methods is none of the characters of a fenced object.
abbrev pub IsPlain : Python → Type 0
IsPlain py = (py.is_space b'`' ≡ false) × (py.is_space b'{' ≡ false) × (py.is_space b'}' ≡ false)

-- The text of a JSON object, from its first brace to its last.
abbrev pub object : Text → Text
object middle = b'{' ∷ (middle ++ b'}' ∷ [])

-- The object with white space around it, marked as JSON.
abbrev marked : Text → Text → Text → Text
marked before middle after = codes "json" ++ (before ++ (object middle ++ after))

abbrev pub fenced : Text → Text → Text → Text
fenced before middle after = fence ++ (marked before middle after ++ fence)

reverse-object : (middle : Text) → reverse (object middle) ≡ b'}' ∷ (reverse middle ++ b'{' ∷ [])
reverse-object middle =
    rw (reverse-append (b'{' ∷ []) (middle ++ b'}' ∷ []), reverse-append middle (b'}' ∷ [])) refl

reverse-fenced :
    (inner : Text)
    → reverse (fence ++ (inner ++ fence)) ≡ b'`' ∷ (b'`' ∷ b'`' ∷ reverse inner ++ fence)
reverse-fenced inner = rw (reverse-append fence (inner ++ fence), reverse-append inner fence) refl

module _ (py : Python) (plain : IsPlain py) where
  strip-object :
      (before middle after : Text)
      → All (λ c. py.is_space c ≡ true) before
      → All (λ c. py.is_space c ≡ true) after
      → strip py.is_space (before ++ (object middle ++ after)) ≡ object middle
  strip-object before middle after b a =
      strip-framed py.is_space before (object middle) after b'{' b'}' _ _ b a (refl, plain.1)
        (reverse-object middle, plain.2)

  -- Spaces and then a brace: what comes first is not a tick.
  first_no_tick :
      (spaces rest : Text)
      → All (λ c. py.is_space c ≡ true) spaces
      → (d : ℕ) × (t : Text) × (spaces ++ b'}' ∷ rest ≡ d ∷ t) × (is_tick d ≡ false)
  first_no_tick [] rest a = (b'}', rest, refl, refl)
  first_no_tick (c ∷ spaces) rest a = (c, spaces ++ b'}' ∷ rest, refl, ground (arith, a.0, plain.0))

  reverse-marked :
      (before middle after : Text)
      → reverse (marked before middle after)
        ≡ reverse after
          ++ b'}' ∷ (reverse middle ++ b'{' ∷ (reverse before ++ reverse (codes "json")))
  reverse-marked before middle after =
      rw
        (
          reverse-append (codes "json") (before ++ (object middle ++ after)),
          reverse-append before (object middle ++ after),
          reverse-append (object middle) after,
          reverse-object middle,
        )
        (rw
          (
            append_assoc (reverse after ++ b'}' ∷ (reverse middle ++ b'{' ∷ [])) (reverse before)
                (reverse (codes "json")),
            append_assoc (reverse after) (b'}' ∷ (reverse middle ++ b'{' ∷ []))
                (reverse before ++ reverse (codes "json")),
            append_assoc (reverse middle) (b'{' ∷ []) (reverse before ++ reverse (codes "json")),
          )
          refl)

  strip-marked :
      (before middle after : Text)
      → All (λ c. py.is_space c ≡ true) after
      → strip is_tick (fence ++ (marked before middle after ++ fence)) ≡ marked before middle after
  strip-marked before middle after a =
      let (d, t, e, n) = first_no_tick (reverse after) _ (All-reverse py.is_space after a) in
      strip-framed is_tick fence (marked before middle after) fence b'j' d _ t
        (refl, (refl, (refl, tt))) (refl, (refl, (refl, tt))) (refl, refl)
        (reverse-marked before middle after ∙ e, n)

  strip-fenced :
      (lead before middle after trail : Text)
      → All (λ c. py.is_space c ≡ true) lead
      → All (λ c. py.is_space c ≡ true) trail
      → strip py.is_space (lead ++ (fenced before middle after ++ trail))
        ≡ fenced before middle after
  strip-fenced lead before middle after trail l t =
      strip-framed py.is_space lead (fenced before middle after) trail b'`' b'`' _ _ l t
        (refl, plain.0) (reverse-fenced (marked before middle after), plain.0)

  -- A reply that is a JSON object in a fence marked as JSON, with any white space around the
  -- object and around the fence, is parsed as the object alone is: both are what `json.loads`
  -- makes of the object's text. The white space must not contain the tick or a brace.
  pub parse_route_json-fenced :
      (lead before middle after trail : Text)
      → All (λ c. py.is_space c ≡ true) lead
      → All (λ c. py.is_space c ≡ true) trail
      → All (λ c. py.is_space c ≡ true) before
      → All (λ c. py.is_space c ≡ true) after
      → (parse_route_json py (lead ++ (fenced before middle after ++ trail))
          ≡ py.loads (object middle))
        × (parse_route_json py (lead ++ (object middle ++ trail)) ≡ py.loads (object middle))
  unfolding parse_route_json has_prefix remove_prefix
  parse_route_json-fenced lead before middle after trail l t b a = (
    rw
        (
          strip-fenced lead before middle after trail l t,
          strip-marked before middle after a,
          strip-object before middle after b a,
        )
        refl,
    rw (strip-object lead middle trail l t) refl,
  )
