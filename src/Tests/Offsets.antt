-- ===== src/Tests/Offsets.antt =====
-- Runs of the index of experts.
use pocket_agents_lab.Prelude.{
  refl, ℕ, [], ◌∷◌, some, none, codes, leb, ◌&&◌, ◌-◌, Option, count_if, ◌≡◌, if◌then◌else◌, ◌↔◌,
  arith, All, has_prefix, drop_prefix, sort_by,
}
use pocket_agents_lab.Offsets.{
  Reader, Index, extract_expert_offsets, Tensor, Layers, done, add_tensors, entry_of, match_name,
}
use pocket_agents_lab.Offsets.Ranges.{has_byte, is_between, entry_of-bytes}
use pocket_agents_lab.Offsets.Sorted.{extract_expert_offsets-find}
use pocket_agents_lab.Offsets.Lookup.{find_entry, latest, IsSplittable, add_tensors-succeeds_iff}

abbrev digit : ℕ → Option ℕ
digit c = if leb b'0' c && leb c b'9' then some (c - b'0') else none

abbrev tensor : Tensor
tensor = record {
  name = codes "blk.12.ffn_up_exps.weight";
  tensor_type = "Q4_K";
  shape = 4 ∷ [];
  n_bytes = 24;
  data_offset = 100;
}

entry_of-bytes_example :
    count_if (has_byte 105) (entry_of tensor 4).experts ≡ (if is_between 100 105 124 then 1 else 0)
entry_of-bytes_example = entry_of-bytes tensor 4 105 (omega arith) refl

match_name_run : match_name digit tensor.name ≡ some (12, codes "up")
unfolding match_name has_prefix drop_prefix
match_name_run = refl

abbrev reader : Reader
reader = record { architecture = some "moe"; expert_count = some 4; tensors = tensor ∷ [] }

abbrev index : Index
index = record {
  architecture = "moe";
  expert_count = 4;
  layer_count = 1;
  layers = (12, (codes "up", entry_of tensor 4) ∷ []) ∷ [];
}

extract_expert_offsets_run : extract_expert_offsets digit reader ≡ done index
unfolding extract_expert_offsets has_prefix drop_prefix sort_by
extract_expert_offsets_run = refl

extract_expert_offsets-find_example :
    find_entry 12 (codes "up") index.layers ≡ latest digit 4 12 (codes "up") none (tensor ∷ [])
extract_expert_offsets-find_example =
    extract_expert_offsets-find digit reader index 12 (codes "up") extract_expert_offsets_run

add_tensors-succeeds_iff_example :
    ((layers : Layers) × (add_tensors digit 4 [] (tensor ∷ []) ≡ done layers))
    ↔ All (λ t. IsSplittable 4 t (match_name digit t.name)) (tensor ∷ [])
add_tensors-succeeds_iff_example = add_tensors-succeeds_iff digit 4 [] (tensor ∷ [])
