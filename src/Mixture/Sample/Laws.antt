-- ===== src/Mixture/Sample/Laws.antt =====
-- What the weighted mixture promises, over all sources.
use mathlib.Core.Path.{subst₂, sym}
use pocket_agents_lab.Random.{Rng}
use pocket_agents_lab.Mixture.{
  str_le, omits_classes, Error, Row, ok, raise, out_of_fuel, >>=-eq-ok, >>=-ne-raise,
}
use pocket_agents_lab.Mixture.Sample.{
  Floats, lookup, draw_source, draw_sources, scale_of, product, acceptable, weighted_sample,
}
use pocket_agents_lab.Mixture.Sample.Source.{
  draw_source-omits, IsSample, labels_of, draw_source-succeeds,
}
use pocket_agents_lab.Mixture.Split.Classes.{in_class}
use pocket_agents_lab.Prelude.{
  ◌⊎◌, string_Eq, ℕ, ◌≤◌, ◌<◌, ◌≡◌, ◌≢◌, refl, inl, inr, false, String, List, [], ◌∷◌, ◌++◌, min,
  max, ltb, length, members, sort_by, if◌then◌else◌, sum_of, sum_of-append, Perm-sum_of, Bool-cases,
  arith, not, ◌=?◌, length-append, members-sort_by, Perm-length,
}

module _ (r : Rng) where
  draw_source-cases :
      (s : r.State) (source : String) (rows : List Row) (count : ℕ)
      → count ≤ length rows
      → ((e : Error) × (draw_source r s source rows count ≡ raise e) × (e ≢ out_of_fuel))
        ⊎ ((sampled : List Row) × (s' : r.State) × (draw_source r s source rows count
              ≡ ok (sampled, s'))
            × IsSample r rows count sampled)
  draw_source-cases s source rows count fits =
      elim (Bool-cases (ltb count (length (labels_of r rows)))) [
        | inl omits ↦
            inl (omits_classes source, draw_source-omits r s source rows count omits, λ p. cc)
        | inr keeps ↦ inr (draw_source-succeeds r s source rows count (ground arith) fits)
      ]

  draw_source-IsSample :
      (s : r.State) (source : String) (rows : List Row) (count : ℕ) (out : List Row × r.State)
      → count ≤ length rows
      → draw_source r s source rows count ≡ ok out
      → IsSample r rows count out.0
  draw_source-IsSample s source rows count out fits e =
      elim (draw_source-cases s source rows count fits) [
        | inl (err, failed, _) ↦ cc
        | inr (sampled, s', done, good) ↦
            let same : sampled ≡ out.0 = ground (arith, done, e) in rw same at good
      ]

  draw_source-ends :
      (s : r.State) (source : String) (rows : List Row) (count : ℕ)
      → count ≤ length rows
      → draw_source r s source rows count ≢ raise out_of_fuel
  draw_source-ends s source rows count fits = elim (draw_source-cases s source rows count fits) [
    | inl (err, failed, other) ↦ λ p. other (ground (arith, failed, p))
    | inr (sampled, s', done, good) ↦ λ p. cc
  ]

  -- What the drawn rows are to the sources, and `counts` to the rows.
  pub record IsMixture (sources : List (String × List Row)) (drawn : List Row)
      (counts : List (String × ℕ)) : Type 0 where
    pub size : length drawn ≡ sum_of (λ c. c.1) counts
    pub once : (f : Row → ℕ) → sum_of f drawn ≤ sum_of f (members sources)
    pub classes : (label : String) → 0 < in_class label (members sources) → 0 < in_class label drawn

  IsMixture-along :
      {sources : List (String × List Row)} {a b : List Row} {c d : List (String × ℕ)}
      → a ≡ b
      → c ≡ d
      → IsMixture sources b d
      → IsMixture sources a c
  IsMixture-along {sources} p q v = subst₂ (IsMixture sources) (sym p) (sym q) v

  IsMixture-cons :
      (source : String) (rows : List Row) (count : ℕ) (one : List Row)
      (sources : List (String × List Row)) (rest : List Row) (counts : List (String × ℕ))
      → IsSample r rows count one
      → IsMixture sources rest counts
      → IsMixture ((source, rows) ∷ sources) (one ++ rest) ((source, count) ∷ counts)
  IsMixture-cons source rows count one sources rest counts a b = record {
    size = omega (arith, length-append one rest, a.size, b.size);
    once = λ f. omega (
      arith,
      sum_of-append f one rest,
      sum_of-append f rows (members sources),
      a.once f,
      b.once f,
    );
    classes = λ label pos. grind (
      arith,
      sum_of-append (λ (row : Row). if label =? row.route_label then 1 else 0) one rest,
      sum_of-append (λ (row : Row). if label =? row.route_label then 1 else 0) rows
          (members sources),
      a.classes label,
      b.classes label,
    );
  }

lookup-ends : {V : Type 0} (k : String) (m : List (String × V)) → lookup k m ≢ raise out_of_fuel
unfolding lookup
lookup-ends k [] = λ p. cc
lookup-ends k ((j, v) ∷ m) = elim (Bool-cases (k =? j)) [
  | inl same ↦ rw same (λ p. cc)
  | inr other ↦ rw other (lookup-ends k m)
]

module _ (r : Rng) (f : Floats) where
  product-ends : (scale w : f.Float) → product r f scale w ≢ raise out_of_fuel
  unfolding product
  product-ends scale w = λ p. ground (arith, p)

  scale_of-ends :
      (weights : List (String × f.Float)) (sources : List (String × List Row))
      → scale_of r f weights sources ≢ raise out_of_fuel
  unfolding scale_of
  scale_of-ends weights [] = λ p. cc
  scale_of-ends weights ((name, rows) ∷ []) =
      >>=-ne-raise (lookup name weights) _ out_of_fuel (lookup-ends name weights) (λ w _ p. cc)
  scale_of-ends weights ((name, rows) ∷ next ∷ sources) =
      >>=-ne-raise (lookup name weights) _ out_of_fuel (lookup-ends name weights) λ w _.
        >>=-ne-raise (scale_of r f weights (next ∷ sources)) _ out_of_fuel
          (scale_of-ends weights (next ∷ sources)) (λ o _ p. cc)

  draw_sources-IsMixture :
      (s : r.State) (scale : f.Float) (weights : List (String × f.Float))
      (sources : List (String × List Row)) (out : List Row × List (String × ℕ) × r.State)
      → draw_sources r f s scale weights sources ≡ ok out
      → IsMixture r sources out.0 out.1
  unfolding draw_sources
  draw_sources-IsMixture s scale weights [] out e =
      let drawn : out.0 ≡ [] = ground (arith, e) in
      let counts : out.1 ≡ [] = ground (arith, e) in
      IsMixture-along r drawn counts
        (record { size = refl; once = λ g. omega arith; classes = λ label pos. pos })
  draw_sources-IsMixture s scale weights ((source, rows) ∷ sources) out e =
      let (w, _, e₁) = >>=-eq-ok (lookup source weights) _ e in
      let (n, _, e₂) = >>=-eq-ok (product r f scale w) _ e₁ in
      let count = min (length rows) (max 1 n) in
      let (one, drew, e₃) = >>=-eq-ok (draw_source r s source rows count) _ e₂ in
      let (rest, drawn, e₄) = >>=-eq-ok (draw_sources r f one.1 scale weights sources) _ e₃ in
      let all : out.0 ≡ one.0 ++ rest.0 = ground (arith, e₄) in
      let counts : out.1 ≡ (source, count) ∷ rest.1 = ground (arith, e₄) in
      IsMixture-along r all counts (
        IsMixture-cons r source rows count one.0 sources rest.0 rest.1
          (draw_source-IsSample r s source rows count one (omega arith) drew)
          (draw_sources-IsMixture one.1 scale weights sources rest drawn))

  draw_sources-ends :
      (s : r.State) (scale : f.Float) (weights : List (String × f.Float))
      (sources : List (String × List Row))
      → draw_sources r f s scale weights sources ≢ raise out_of_fuel
  unfolding draw_sources
  draw_sources-ends s scale weights [] = λ p. cc
  draw_sources-ends s scale weights ((source, rows) ∷ sources) =
      >>=-ne-raise (lookup source weights) _ out_of_fuel (lookup-ends source weights) λ w _.
        >>=-ne-raise (product r f scale w) _ out_of_fuel (product-ends scale w) λ n _.
          >>=-ne-raise (draw_source r s source rows (min (length rows) (max 1 n))) _ out_of_fuel
            (draw_source-ends r s source rows (min (length rows) (max 1 n)) (omega arith))
            λ one _.
              >>=-ne-raise (draw_sources r f one.1 scale weights sources) _ out_of_fuel
                (draw_sources-ends one.1 scale weights sources) (λ rest _ p. cc)

  -- A weighted mixture that succeeds has, in all, as many rows as `counts` says; it takes no row
  -- more often than the sources give it, and leaves out no label that occurs in a source.
  pub weighted_sample-IsMixture :
      (sources : List (String × List Row)) (weights : List (String × f.Float)) (seed : ℕ)
      (result : List Row) (counts : List (String × ℕ))
      → weighted_sample r f sources weights seed ≡ ok (result, counts)
      → IsMixture r sources result counts
  unfolding weighted_sample
  weighted_sample-IsMixture sources weights seed result counts e =
      let fine : not (acceptable r f sources weights) ≡ false = ground (arith, e) in
      let (scale, _, e₁) = >>=-eq-ok (scale_of r f weights sources) _ (rw fine at e) in
      let sorted = sort_by (λ (a b : String × List Row). str_le a.0 b.0) sources in
      let (out, drew, e₂) =
        >>=-eq-ok (draw_sources r f (r.seeded seed) scale weights sorted) _ e₁ in
      let v = draw_sources-IsMixture (r.seeded seed) scale weights sorted out drew in
      let same : result ≡ (r.shuffle Row out.2 out.0).0 = ground (arith, e₂) in
      let counted : counts ≡ out.1 = ground (arith, e₂) in
      let p = r.shuffle-perm Row out.2 out.0 in
      let back = members-sort_by (λ (a b : String × List Row). str_le a.0 b.0) sources in
      IsMixture-along r same counted (record {
        size = omega (arith, Perm-length p, v.size);
        once = λ g. omega (arith, Perm-sum_of g p, v.once g, back g);
        classes = λ label pos.
            let g : Row → ℕ = λ row. if label =? row.route_label then 1 else 0 in
            omega (arith, Perm-sum_of g p, v.classes label (omega (arith, back g)));
      })

  -- The drawing always ends: the fuel of its round-robin, one more than the rows to draw, never
  -- runs out.
  pub weighted_sample-ends :
      (sources : List (String × List Row)) (weights : List (String × f.Float)) (seed : ℕ)
      → weighted_sample r f sources weights seed ≢ raise out_of_fuel
  unfolding weighted_sample
  weighted_sample-ends sources weights seed =
      elim (Bool-cases (not (acceptable r f sources weights))) [
        | inl bad ↦ rw bad (λ p. cc)
        | inr fine ↦ rw fine (
            >>=-ne-raise (scale_of r f weights sources) _ out_of_fuel
              (scale_of-ends weights sources)
              λ scale _.
                >>=-ne-raise
                  (draw_sources r f (r.seeded seed) scale weights
                    (sort_by (λ a b. str_le a.0 b.0) sources))
                  _ out_of_fuel
                  (draw_sources-ends (r.seeded seed) scale weights
                    (sort_by (λ a b. str_le a.0 b.0) sources))
                  (λ out _ p. cc))
      ]
