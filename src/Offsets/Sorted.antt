-- ===== src/Offsets/Sorted.antt =====
-- The index that is returned, with its layers sorted.
use pocket_agents_lab.Prelude.{
  refl, nat_Eq, list_Eq, ◌∷◌, [], some, none, insert_by, contains, ℕ, sort_by, ◌≡◌, Text, arith,
  Distinct, ◌∙◌, Bool, false, ◌==◌, ◌||◌, leb, Option, Option-cases, String, inl, inr,
}
use pocket_agents_lab.Offsets.{
  Layers, Index, Reader, Result, done, failed, put_layer, add_matched, add_tensors,
  extract_expert_offsets, List, ℕ, sort_by, map, Text, Entry, Bool, false, leb, Tensor, Option,
  entry_of, String, match_name, index_of,
}
use pocket_agents_lab.Offsets.Lookup.{find_entry, latest, add_tensors-find, add_tensors-cons}

abbrev layers_of : Layers → List ℕ
layers_of = map (λ d. d.0)

abbrev by_layer : ℕ × List (Text × Entry) → ℕ × List (Text × Entry) → Bool
by_layer a b = leb a.0 b.0

contains-insert_by :
    (k : ℕ) (d : ℕ × List (Text × Entry)) (layers : Layers)
    → contains k (layers_of (insert_by by_layer d layers)) ≡ contains k (layers_of (d ∷ layers))
unfolding insert_by contains
contains-insert_by k d [] = refl
contains-insert_by k d (f ∷ layers) = ground (arith, contains-insert_by k d layers)

contains-sort_by :
    (k : ℕ) (layers : Layers)
    → contains k (layers_of (sort_by by_layer layers)) ≡ contains k (layers_of layers)
unfolding sort_by contains
contains-sort_by k [] = refl
contains-sort_by k (d ∷ layers) =
    ground (arith, contains-insert_by k d (sort_by by_layer layers), contains-sort_by k layers)

find-insert_by :
    (layer : ℕ) (proj : Text) (d : ℕ × List (Text × Entry)) (layers : Layers)
    → contains d.0 (layers_of layers) ≡ false
    → find_entry layer proj (insert_by by_layer d layers) ≡ find_entry layer proj (d ∷ layers)
unfolding insert_by contains
find-insert_by layer proj d [] absent = refl
find-insert_by layer proj d (f ∷ layers) absent =
    ground (arith, absent, find-insert_by layer proj d layers)

find-sort_by :
    (layer : ℕ) (proj : Text) (layers : Layers)
    → Distinct (layers_of layers)
    → find_entry layer proj (sort_by by_layer layers) ≡ find_entry layer proj layers
unfolding sort_by
find-sort_by layer proj [] distinct = refl
find-sort_by layer proj (d ∷ layers) distinct =
    find-insert_by layer proj d (sort_by by_layer layers) (contains-sort_by d.0 layers ∙ distinct.0)
    ∙ ground (arith, find-sort_by layer proj layers distinct.1)

contains-put_layer :
    (k layer : ℕ) (proj : Text) (entry : Entry) (layers : Layers)
    → contains k (layers_of (put_layer layer proj entry layers))
      ≡ ((k == layer) || contains k (layers_of layers))
unfolding put_layer contains
contains-put_layer k layer proj entry [] = ground arith
contains-put_layer k layer proj entry (d ∷ layers) =
    ground (arith, contains-put_layer k layer proj entry layers)

put_layer-Distinct :
    (layer : ℕ) (proj : Text) (entry : Entry) (layers : Layers)
    → Distinct (layers_of layers)
    → Distinct (layers_of (put_layer layer proj entry layers))
unfolding put_layer contains
put_layer-Distinct layer proj entry [] distinct = ground arith
put_layer-Distinct layer proj entry (d ∷ layers) distinct = ground (
  arith,
  distinct,
  put_layer-Distinct layer proj entry layers,
  contains-put_layer d.0 layer proj entry layers,
)

add_matched-Distinct :
    (n_expert : ℕ) (layers next : Layers) (tensor : Tensor) (matched : Option (ℕ × Text))
    → Distinct (layers_of layers)
    → add_matched n_expert layers tensor matched ≡ done next
    → Distinct (layers_of next)
unfolding add_matched
add_matched-Distinct n_expert layers next tensor none distinct h =
    let same : layers ≡ next = ground (arith, h) in rw (← same) distinct
add_matched-Distinct n_expert layers next tensor (some (l, p)) distinct h =
    let same : put_layer l p (entry_of tensor n_expert) layers ≡ next = ground (arith, h) in
    rw (← same) (put_layer-Distinct l p (entry_of tensor n_expert) layers distinct)

module _ (digit : ℕ → Option ℕ) where
  add_tensors-Distinct :
      (n_expert : ℕ) (layers layers' : Layers) (tensors : List Tensor)
      → Distinct (layers_of layers)
      → add_tensors digit n_expert layers tensors ≡ done layers'
      → Distinct (layers_of layers')
  add_tensors-Distinct n_expert layers layers' [] distinct h =
      let same : layers ≡ layers' = (unfold add_tensors in ground (arith, h)) in
      rw (← same) distinct
  add_tensors-Distinct n_expert layers layers' (tensor ∷ tensors) distinct h =
      let (next, first, others) = add_tensors-cons digit n_expert layers layers' tensor tensors h in
      add_tensors-Distinct n_expert next layers' tensors
        (add_matched-Distinct n_expert layers next tensor (match_name digit tensor.name) distinct
          first)
        others

  index_of-find :
      (layer : ℕ) (proj : Text) (arch : String) (n_expert : ℕ) (tensors : List Tensor)
      (index : Index)
      → (loop : Result Layers) → add_tensors digit n_expert [] tensors ≡ loop
      → index_of digit arch n_expert loop ≡ done index
      → find_entry layer proj index.layers ≡ latest digit index.expert_count layer proj none tensors
  index_of-find layer proj arch n_expert tensors index (failed e) p h = absurd (ground (arith, h))
  index_of-find layer proj arch n_expert tensors index (done layers) p h =
      let sorted : index.layers ≡ sort_by by_layer layers = ground (arith, h) in
      let count : index.expert_count ≡ n_expert = ground (arith, h) in
      rw (sorted, count)
        (find-sort_by layer proj layers (add_tensors-Distinct n_expert [] layers tensors tt p)
          ∙ add_tensors-find digit n_expert layer proj [] layers tensors p)

  -- In an index that is returned, each layer and projection has the entry of the file's last
  -- tensor with that name, and there is no entry where no tensor has the name.
  pub extract_expert_offsets-find :
      (reader : Reader) (index : Index) (layer : ℕ) (proj : Text)
      → extract_expert_offsets digit reader ≡ done index
      → find_entry layer proj index.layers
        ≡ latest digit index.expert_count layer proj none reader.tensors
  unfolding extract_expert_offsets
  extract_expert_offsets-find reader index layer proj h = elim (Option-cases reader.architecture) [
    | inl missing ↦ absurd (ground (arith, h, missing))
    | inr (arch, named) ↦ elim (Option-cases reader.expert_count) [
      | inl missing ↦ absurd (ground (arith, h, named, missing))
      | inr (n_expert, counted) ↦
          index_of-find layer proj arch n_expert reader.tensors index
            (add_tensors digit n_expert [] reader.tensors) refl
            (rw (extract_expert_offsets, named, counted) at h)
    ]
  ]
