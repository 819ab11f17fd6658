-- ===== src/Cache.antt =====
-- tools/expert_cache_simulator.py: the bounded LRU cache of one layer's experts.
-- Expert ids are numbers. The keys of the `OrderedDict` are a list, oldest first; its values are
-- all None and are left out. A negative capacity, which the command line would let through, acts
-- as 0 in the source and has no value here.
pub mod Recency
pub mod Inclusion
pub mod Predict
pub mod Layer
use pocket_agents_lab.Prelude.{
  ℕ, ◌+◌, Bool, true, false, List, [], ◌∷◌, ◌++◌, ltb, length, drop, contains, without, nat_Eq,
  if◌then◌else◌,
}

pub record LruCache : Type 0 where
  pub capacity : ℕ
  pub order : List ℕ

-- LRUCache.__init__
abbrev pub init : ℕ → LruCache
init capacity = record { capacity = capacity; order = [] }

-- LRUCache.access: the new cache, and whether this was a hit. `move_to_end` takes the key out and
-- appends it; `popitem(last=False)` drops the oldest key.
unfoldable pub access : LruCache → ℕ → LruCache × Bool
unfolding contains without
access c expert_id =
    if contains expert_id c.order
    then (record c { order = without expert_id c.order ++ expert_id ∷ [] }, true)
    else let grown = c.order ++ expert_id ∷ [] in
      (record c { order = if ltb c.capacity (length grown) then drop 1 grown else grown }, false)

-- The inner loop of `evaluate_layer`: the cache after the accesses, and `lru_hits`.
unfoldable pub access_all : LruCache → ℕ → List ℕ → LruCache × ℕ
unfolding access
access_all c lru_hits [] = (c, lru_hits)
access_all c lru_hits (expert_id ∷ experts) =
    let (c', hit) = access c expert_id in
    access_all c' (if hit then lru_hits + 1 else lru_hits) experts
