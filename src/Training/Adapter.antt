-- ===== src/Training/Adapter.antt =====
-- tools/decision_training_utils.py, enable_existing_adapter_and_head, and count_trainable_params of
-- the training programs. A model is its named parameters, of which those of the head are marked:
-- `named_parameters` and `head.parameters` give the same tensors.
use pocket_agents_lab.Prelude.{
  ℕ, suc, ◌+◌, ◌≤◌, ◌<◌, Bool, true, ◌||◌, Option, none, some, List, [], ◌∷◌, map, Text, codes,
  has_part, if◌then◌else◌, ◌≡◌, ◌↔◌, refl, ◌==◌, arith, sum_of,
}

pub record Param : Type 0 where
  pub name : Text
  pub in_head : Bool
  pub numel : ℕ
  pub requires_grad : Bool

pub record Model : Type 0 where
  pub has_head : Bool
  pub params : List Param

pub is_adapter : Text → Bool
is_adapter name =
    has_part (codes "lora_A") name
    || has_part (codes "lora_B") name
    || has_part (codes "lora_embedding_A") name
    || has_part (codes "lora_embedding_B") name

-- param.requires_grad_(True)
abbrev pub trainable : Param → Param
trainable p = record { name = p.name; in_head = p.in_head; numel = p.numel; requires_grad = true }

-- The loop over the parameters, and `adapter_tensors`.
unfoldable pub enable_adapter : List Param → List Param × ℕ
unfolding is_adapter
enable_adapter [] = ([], 0)
enable_adapter (p ∷ params) =
    let (rest, tensors) = enable_adapter params in
    if is_adapter p.name then (trainable p ∷ rest, suc tensors) else (p ∷ rest, tensors)

-- head.requires_grad_(True)
unfoldable pub enable_head : List Param → List Param
enable_head [] = []
enable_head (p ∷ params) = (if p.in_head then trainable p else p) ∷ enable_head params

abbrev pub head_tensors : List Param → ℕ
head_tensors = sum_of (λ p. if p.in_head then 1 else 0)

abbrev pub adapter_tensors : List Param → ℕ
adapter_tensors = sum_of (λ p. if is_adapter p.name then 1 else 0)

-- The parameters after the call, and the result, `none` where it raises.
unfoldable pub enable_existing_adapter_and_head : Model → List Param × Option ℕ
unfolding enable_adapter enable_head
enable_existing_adapter_and_head model =
    let (params, tensors) = enable_adapter model.params in
    if model.has_head
    then (
      enable_head params,
      if tensors == 0 then none else some (tensors + head_tensors model.params),
    )
    else (params, none)

-- The trainable parameters, and all of them.
unfoldable pub count_trainable_params : List Param → ℕ × ℕ
count_trainable_params params =
    (sum_of (λ p. if p.requires_grad then p.numel else 0) params, sum_of (λ p. p.numel) params)

-- What is to be trained: the adapter and the head.
abbrev pub enabled : Param → Param
enabled p = if is_adapter p.name || p.in_head then trainable p else p

enable-map : (params : List Param) → enable_head (enable_adapter params).0 ≡ map enabled params
unfolding enable_head enable_adapter
enable-map [] = refl
enable-map (p ∷ params) = ground (arith, enable-map params)

enable-tensors : (params : List Param) → (enable_adapter params).1 ≡ adapter_tensors params
unfolding enable_adapter
enable-tensors [] = refl
enable-tensors (p ∷ params) = ground (arith, enable-tensors params)

counted : (n m : ℕ) → ((if n == 0 then none else some (n + m)) ≡ some (n + m)) ↔ (0 < n)
counted n m = (λ h. ground arith, λ h. ground arith)

-- For a model with a head, exactly the parameters of the adapter and of the head become trainable,
-- no others change, and the call returns the number of the two exactly if there are tensors of the
-- adapter.
pub enable_existing_adapter_and_head-enables :
    (model : Model)
    → model.has_head ≡ true
    → ((enable_existing_adapter_and_head model).0 ≡ map enabled model.params)
      × (((enable_existing_adapter_and_head model).1
            ≡ some (adapter_tensors model.params + head_tensors model.params))
          ↔ (0 < adapter_tensors model.params))
unfolding enable_existing_adapter_and_head
enable_existing_adapter_and_head-enables model head = (
  rw (enable_existing_adapter_and_head, head) (enable-map model.params),
  rw (enable_existing_adapter_and_head, head, enable-tensors model.params)
      (counted (adapter_tensors model.params) (head_tensors model.params)),
)

-- The parameters that can be trained are among all; enabling the adapter and the head never makes
-- fewer trainable, and leaves the number of all.
count_trainable_params-enabled :
    (params : List Param)
    → ((count_trainable_params params).0 ≤ (count_trainable_params (map enabled params)).0)
      × ((count_trainable_params (map enabled params)).0 ≤ (count_trainable_params params).1)
      × ((count_trainable_params (map enabled params)).1 ≡ (count_trainable_params params).1)
unfolding count_trainable_params
count_trainable_params-enabled [] = (omega arith, omega arith, refl)
count_trainable_params-enabled (p ∷ params) =
    let (more, within, same) = count_trainable_params-enabled params in
    (ground arith, ground arith, ground arith)
