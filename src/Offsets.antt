-- ===== src/Offsets.antt =====
-- tools/gguf_expert_offsets.py: the byte ranges of the experts in a merged-expert GGUF file. What
-- the `gguf` package reads is given: the architecture and the expert count, if the file has them,
-- and the tensors with their names, sizes and positions. The decimal digits of a regular
-- expression's \d, with their values, are a parameter. Numbers of the file are not negative.
pub mod Ranges
pub mod Lookup
pub mod Sorted
use pocket_agents_lab.Prelude.{
  ℕ, zero, suc, ◌+◌, ◌*◌, ◌/◌, ◌%◌, Bool, true, false, not, Option, none, some, String, List, [],
  ◌∷◌, ◌==◌, leb, length, map, if◌then◌else◌, nat_Eq, string_Eq, ◌=?◌, Text, codes, has_prefix,
  drop_prefix, sort_by, list_Eq,
}

pub record Tensor : Type 0 where
  pub name : Text
  pub tensor_type : String
  pub shape : List ℕ
  pub n_bytes : ℕ
  pub data_offset : ℕ

-- What `gguf.GGUFReader` reads.
pub record Reader : Type 0 where
  pub architecture : Option String
  pub expert_count : Option ℕ
  pub tensors : List Tensor

pub data Error : Type 0 where
  no_architecture no_expert_count zero_division : Error
  not_divisible : Text → Error

pub data Result (A : Type 0) : Type 0 where
  done : A → Result A
  failed : Error → Result A

pub record Expert : Type 0 where
  pub expert_id : ℕ
  pub offset : ℕ
  pub length : ℕ

pub record Entry : Type 0 where
  pub tensor_name : Text
  pub tensor_type : String
  pub shape : List ℕ
  pub tensor_bytes : ℕ
  pub tensor_data_offset : ℕ
  pub experts : List Expert

-- A dict of layers, each a dict of projections.
abbrev pub Layers : Type 0
Layers = List (ℕ × List (Text × Entry))

pub record Index : Type 0 where
  pub architecture : String
  pub expert_count : ℕ
  pub layer_count : ℕ
  pub layers : Layers

-- The part of the pattern after the layer: `\.ffn_(gate|down|up)_exps\.weight$`, where `$` also
-- stands before a last newline.
pub projection_of : Text → List Text → Option Text
projection_of text [] = none
projection_of text (proj ∷ projs) =
    let rest = drop_prefix proj text in
    if has_prefix proj text
    then (if rest =? codes "_exps.weight"
        then some proj
        else if rest =? codes "_exps.weight\n"
        then some proj
        else projection_of text projs)
    else projection_of text projs

abbrev pub projections : List Text
projections = codes "gate" ∷ codes "down" ∷ codes "up" ∷ []

module _ (digit : ℕ → Option ℕ) where
  -- `(\d+)` and what follows it, with the number read so far, if a digit was read.
  pub layer_of : Option ℕ → Text → Option (ℕ × Text)
  unfolding projection_of
  layer_of none [] = none
  layer_of none (c ∷ text) = elim (digit c) [ some d ↦ layer_of (some d) text | none ↦ none ]
  layer_of (some n) [] = none
  layer_of (some n) (c ∷ text) = elim (digit c) [
    | some d ↦ layer_of (some (10 * n + d)) text
    | none ↦
        if has_prefix (codes ".ffn_") (c ∷ text)
        then (elim (projection_of (drop_prefix (codes ".ffn_") (c ∷ text)) projections) [
          | some proj ↦ some (n, proj)
          | none ↦ none
        ])
        else none
  ]

  -- _EXPERT_TENSOR_RE.match(name): int(group(1)) and group(2)
  unfoldable pub match_name : Text → Option (ℕ × Text)
  unfolding layer_of
  match_name name =
      if has_prefix (codes "blk.") name
      then layer_of none (drop_prefix (codes "blk.") name)
      else none

-- The list comprehension over `range(n_expert)`, from an expert on.
pub experts_from : ℕ → ℕ → ℕ → ℕ → List Expert
experts_from data_offset expert_bytes expert_id zero = []
experts_from data_offset expert_bytes expert_id (suc n) =
    record {
      expert_id = expert_id;
      offset = data_offset + expert_id * expert_bytes;
      length = expert_bytes;
    }
    ∷ experts_from data_offset expert_bytes (expert_id + 1) n

pub entry_of : Tensor → ℕ → Entry
unfolding experts_from
entry_of tensor n_expert = record {
  tensor_name = tensor.name;
  tensor_type = tensor.tensor_type;
  shape = tensor.shape;
  tensor_bytes = tensor.n_bytes;
  tensor_data_offset = tensor.data_offset;
  experts = experts_from tensor.data_offset (tensor.n_bytes / n_expert) 0 n_expert;
}

-- d[proj] = entry
pub put : Text → Entry → List (Text × Entry) → List (Text × Entry)
put proj entry [] = (proj, entry) ∷ []
put proj entry ((p, e) ∷ d) = if proj =? p then (p, entry) ∷ d else (p, e) ∷ put proj entry d

-- layers.setdefault(layer_idx, {})[proj] = entry
pub put_layer : ℕ → Text → Entry → Layers → Layers
unfolding put
put_layer layer proj entry [] = (layer, put proj entry []) ∷ []
put_layer layer proj entry ((l, d) ∷ layers) =
    if layer == l
    then (l, put proj entry d) ∷ layers
    else (l, d) ∷ put_layer layer proj entry layers

-- The body of the loop over the tensors, for the match of the name; n % 0 raises.
pub add_matched : ℕ → Layers → Tensor → Option (ℕ × Text) → Result Layers
unfolding entry_of put_layer
add_matched n_expert layers tensor none = done layers
add_matched n_expert layers tensor (some (layer, proj)) =
    if n_expert == 0
    then failed zero_division
    else if not (tensor.n_bytes % n_expert == 0)
    then failed (not_divisible tensor.name)
    else done (put_layer layer proj (entry_of tensor n_expert) layers)

module _ (digit : ℕ → Option ℕ) where
  unfoldable pub add_tensors : ℕ → Layers → List Tensor → Result Layers
  unfolding match_name add_matched
  add_tensors n_expert layers [] = done layers
  add_tensors n_expert layers (tensor ∷ tensors) =
      elim (add_matched n_expert layers tensor (match_name digit tensor.name)) [
        | failed e ↦ failed e
        | done layers' ↦ add_tensors n_expert layers' tensors
      ]

  abbrev pub index_of : String → ℕ → Result Layers → Result Index
  index_of arch n_expert (failed e) = failed e
  index_of arch n_expert (done layers) = done (record {
    architecture = arch;
    expert_count = n_expert;
    layer_count = length layers;
    layers = sort_by (λ a b. leb a.0 b.0) layers;
  })

  -- `_arch` and `_expert_count` first; the expert count's key needs the architecture.
  unfoldable pub extract_expert_offsets : Reader → Result Index
  unfolding add_tensors
  extract_expert_offsets reader = elim reader.architecture [
    | none ↦ failed no_architecture
    | some arch ↦ elim reader.expert_count [
      | none ↦ failed no_expert_count
      | some n_expert ↦ index_of arch n_expert (add_tensors n_expert [] reader.tensors)
    ]
  ]
