-- ===== src/Offsets/Lookup.antt =====
-- What the index of the experts holds, and when there is one.
use pocket_agents_lab.Prelude.{
  refl, nat_Eq, list_Eq, ◌∷◌, [], if◌then◌else◌, some, none, Text, ℕ, ◌≡◌, Option, ◌↔◌, ◌=?◌, ◌==◌,
  Bool, arith, ◌&&◌, ◌<◌, All, false, list_beq_iff, ◌%◌, ◌∙◌, ap,
}
use pocket_agents_lab.Offsets.{
  Tensor, Entry, Layers, Result, done, failed, entry_of, put, put_layer, match_name, add_tensors,
  Text, ℕ, List, Option, Bool, false, add_matched,
}

abbrev pub find_projection : Text → List (Text × Entry) → Option Entry
find_projection proj [] = none
find_projection proj ((p, e) ∷ d) = if proj =? p then some e else find_projection proj d

-- layers[layer][proj], if it is there
abbrev pub find_entry : ℕ → Text → Layers → Option Entry
find_entry layer proj [] = none
find_entry layer proj ((l, d) ∷ layers) =
    if layer == l then find_projection proj d else find_entry layer proj layers

find-put :
    (q p : Text) (entry : Entry) (d : List (Text × Entry))
    → find_projection q (put p entry d) ≡ (if q =? p then some entry else find_projection q d)
unfolding put
find-put q p entry [] = refl
find-put q p entry ((p', e) ∷ d) =
    ground (arith, find-put q p entry d, list_beq_iff q p, list_beq_iff p p', list_beq_iff q p')

find-put_layer :
    (layer : ℕ) (proj : Text) (l : ℕ) (p : Text) (entry : Entry) (layers : Layers)
    → find_entry layer proj (put_layer l p entry layers)
      ≡ (if (layer == l) && (proj =? p) then some entry else find_entry layer proj layers)
unfolding put_layer
find-put_layer layer proj l p entry [] = ground (arith, find-put proj p entry [])
find-put_layer layer proj l p entry ((l', d) ∷ layers) =
    ground (arith, find-put_layer layer proj l p entry layers, find-put proj p entry d)

-- The matched name is that of the layer and the projection.
abbrev pub is_at : ℕ → Text → Option (ℕ × Text) → Bool
is_at layer proj none = false
is_at layer proj (some (l, p)) = (layer == l) && (proj =? p)

module _ (n_expert : ℕ) where
  add_matched-find :
      (layer : ℕ) (proj : Text) (layers layers' : Layers) (tensor : Tensor)
      (matched : Option (ℕ × Text))
      → add_matched n_expert layers tensor matched ≡ done layers'
      → find_entry layer proj layers' ≡ (
          if is_at layer proj matched
          then some (entry_of tensor n_expert)
          else find_entry layer proj layers)
  unfolding add_matched
  add_matched-find layer proj layers layers' tensor none h = ground (arith, h)
  add_matched-find layer proj layers layers' tensor (some (l, p)) h =
      ground (arith, h, find-put_layer layer proj l p (entry_of tensor n_expert) layers)

  -- The experts of a tensor that is matched can be told apart: its size is a multiple of their count.
  abbrev pub IsSplittable : Tensor → Option (ℕ × Text) → Type 0
  IsSplittable tensor none = Unit
  IsSplittable tensor (some _) = (0 < n_expert) × (tensor.n_bytes % n_expert ≡ 0)

  add_matched-succeeds :
      (layers : Layers) (tensor : Tensor) (matched : Option (ℕ × Text))
      → IsSplittable tensor matched
      → (layers' : Layers) × (add_matched n_expert layers tensor matched ≡ done layers')
  unfolding add_matched
  add_matched-succeeds layers tensor none v = (layers, refl)
  add_matched-succeeds layers tensor (some (l, p)) v =
      (put_layer l p (entry_of tensor n_expert) layers, ground (arith, v))

  add_matched-needs :
      (layers layers' : Layers) (tensor : Tensor) (matched : Option (ℕ × Text))
      → add_matched n_expert layers tensor matched ≡ done layers'
      → IsSplittable tensor matched
  unfolding add_matched
  add_matched-needs layers layers' tensor none h = tt
  add_matched-needs layers layers' tensor (some (l, p)) h = ground (arith, h)

module _ (digit : ℕ → Option ℕ) (n_expert : ℕ) where
  -- The entry of the last tensor with the name, or else the one given.
  abbrev pub latest : ℕ → Text → Option Entry → List Tensor → Option Entry
  latest layer proj found [] = found
  latest layer proj found (tensor ∷ tensors) =
      latest layer proj
        (if is_at layer proj (match_name digit tensor.name)
          then some (entry_of tensor n_expert)
          else found)
        tensors

  -- A first step that succeeded, and what it leaves to do.
  pub add_tensors-cons :
      (layers layers' : Layers) (tensor : Tensor) (tensors : List Tensor)
      → add_tensors digit n_expert layers (tensor ∷ tensors) ≡ done layers'
      → (next : Layers) × (add_matched n_expert layers tensor (match_name digit tensor.name)
          ≡ done next)
        × (add_tensors digit n_expert next tensors ≡ done layers')
  add_tensors-cons layers layers' tensor tensors h =
      after (add_matched n_expert layers tensor (match_name digit tensor.name)) refl
        (unfold add_tensors in h)
    where
      after :
          (r : Result Layers)
          → add_matched n_expert layers tensor (match_name digit tensor.name) ≡ r
          → elim r [ failed e ↦ failed e | done next ↦ add_tensors digit n_expert next tensors ]
            ≡ done layers'
          → (next : Layers) × (add_matched n_expert layers tensor (match_name digit tensor.name)
              ≡ done next)
            × (add_tensors digit n_expert next tensors ≡ done layers')
      after (failed e) p q = cc
      after (done next) p q = (next, p, q)

  add_tensors-next :
      (layers next : Layers) (tensor : Tensor) (tensors : List Tensor)
      → add_matched n_expert layers tensor (match_name digit tensor.name) ≡ done next
      → add_tensors digit n_expert layers (tensor ∷ tensors)
        ≡ add_tensors digit n_expert next tensors
  unfolding add_tensors
  add_tensors-next layers next tensor tensors first =
      ap
        (λ (r : Result Layers). elim r [
          | failed e ↦ failed e
          | done l ↦ add_tensors digit n_expert l tensors
        ])
        first

  -- Where the loop over the tensors succeeds, the index has for each layer and projection the
  -- entry of the last tensor with that name, and else what it had.
  pub add_tensors-find :
      (layer : ℕ) (proj : Text) (layers layers' : Layers) (tensors : List Tensor)
      → add_tensors digit n_expert layers tensors ≡ done layers'
      → find_entry layer proj layers' ≡ latest layer proj (find_entry layer proj layers) tensors
  add_tensors-find layer proj layers layers' [] h = unfold add_tensors in ground (arith, h)
  add_tensors-find layer proj layers layers' (tensor ∷ tensors) h =
      let (next, first, others) = add_tensors-cons layers layers' tensor tensors h in
      add_tensors-find layer proj next layers' tensors others
      ∙ ap (λ found. latest layer proj found tensors)
          (add_matched-find n_expert layer proj layers next tensor (match_name digit tensor.name)
            first)

  -- The loop over the tensors succeeds exactly when the size of every expert tensor is a multiple
  -- of the expert count, which is positive if there are any.
  pub add_tensors-succeeds_iff :
      (layers : Layers) (tensors : List Tensor)
      → ((layers' : Layers) × (add_tensors digit n_expert layers tensors ≡ done layers'))
        ↔ All (λ tensor. IsSplittable n_expert tensor (match_name digit tensor.name)) tensors
  add_tensors-succeeds_iff layers [] = (λ _. tt, λ _. (layers, unfold add_tensors in refl))
  add_tensors-succeeds_iff layers (tensor ∷ tensors) = (
    λ h.
        let (next, first, others) = add_tensors-cons layers h.0 tensor tensors h.1 in
        (
          add_matched-needs n_expert layers next tensor (match_name digit tensor.name) first,
          (add_tensors-succeeds_iff next tensors).0 (h.0, others),
        ),
    λ a.
        let (next, first) =
          add_matched-succeeds n_expert layers tensor (match_name digit tensor.name) a.0 in
        let (layers', others) = (add_tensors-succeeds_iff next tensors).1 a.1 in
        (layers', add_tensors-next layers next tensor tensors first ∙ others),
  )
