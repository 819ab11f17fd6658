-- ===== src/Cache/Inclusion.antt =====
-- Runs of the cache over a trace: what it holds at the end, the count of its hits, and the
-- inclusion of smaller caches in larger ones.
use pocket_agents_lab.Prelude.{
  ℕ, zero, suc, ◌+◌, ◌≤◌, ◌≡◌, refl, true, List, [], ◌∷◌, reverse, arith, length, take, contains,
  nat_Eq, if◌then◌else◌,
}
use pocket_agents_lab.Cache.{LruCache, init, access, access_all}
use pocket_agents_lab.Cache.Recency.{
  touch, touch_all, Holds, access-Holds, access-hit_iff, access-capacity,
}

pub init-Holds : (n : ℕ) → Holds (init n) []
init-Holds zero = record { distinct = tt; window = refl }
init-Holds (suc n) = record { distinct = tt; window = refl }

pub access_all-Holds :
    (c : LruCache) (k : ℕ) (h es : List ℕ)
    → Holds c h
    → Holds (access_all c k es).0 (touch_all h es)
unfolding access_all touch_all
access_all-Holds c k h [] v = v
access_all-Holds c k h (e ∷ es) v =
    access_all-Holds (access c e).0 (if (access c e).1 then k + 1 else k) (touch e h) es
      (access-Holds c e h v)

pub access_all-capacity :
    (c : LruCache) (k : ℕ) (es : List ℕ) → (access_all c k es).0.capacity ≡ c.capacity
unfolding access_all
access_all-capacity c k [] = refl
access_all-capacity c k (e ∷ es) =
    rw (access_all-capacity (access c e).0 (if (access c e).1 then k + 1 else k) es)
      (access-capacity c e)

-- After any accesses, a cache of capacity n that was empty holds the n most recently used experts,
-- the oldest first: it has evicted the least recently used ones and no others.
pub access_all-recency :
    (n : ℕ) (es : List ℕ) → (access_all (init n) 0 es).0.order ≡ reverse (take n (touch_all [] es))
access_all-recency n es =
    let v = access_all-Holds (init n) 0 [] es (init-Holds n) in
    rw (access_all-capacity (init n) 0 es) at v.window

contains-take_mono :
    (m n e : ℕ) (h : List ℕ) → m ≤ n → contains e (take m h) ≡ true → contains e (take n h) ≡ true
unfolding contains
contains-take_mono zero n e h l a = absurd (ground arith)
contains-take_mono (suc m) zero e h l a = absurd (omega arith)
contains-take_mono (suc m) (suc n) e [] l a = a
contains-take_mono (suc m) (suc n) e (x ∷ h) l a = ground (arith, contains-take_mono m n e h)

-- Two caches that hold the same history: a hit of the smaller is a hit of the larger.
access_inclusion :
    (c d : LruCache) (e : ℕ) (h : List ℕ)
    → Holds c h
    → Holds d h
    → c.capacity ≤ d.capacity
    → (access c e).1 ≡ true
    → (access d e).1 ≡ true
access_inclusion c d e h vc vd l a = ground (
  arith,
  access-hit_iff c e h,
  access-hit_iff d e h,
  contains-take_mono c.capacity d.capacity e h,
)

hits_le :
    (c d : LruCache) (j k e : ℕ) (h : List ℕ)
    → Holds c h
    → Holds d h
    → c.capacity ≤ d.capacity
    → j ≤ k
    → (if (access c e).1 then j + 1 else j) ≤ (if (access d e).1 then k + 1 else k)
hits_le c d j k e h vc vd l m = ground (arith, access_inclusion c d e h)

pub access_all_mono :
    (c d : LruCache) (j k : ℕ) (h es : List ℕ)
    → Holds c h
    → Holds d h
    → c.capacity ≤ d.capacity
    → j ≤ k
    → (access_all c j es).1 ≤ (access_all d k es).1
unfolding access_all
access_all_mono c d j k h [] vc vd l m = m
access_all_mono c d j k h (e ∷ es) vc vd l m =
    access_all_mono (access c e).0 (access d e).0 (if (access c e).1 then j + 1 else j)
      (if (access d e).1 then k + 1 else k) (touch e h) es (access-Holds c e h vc)
      (access-Holds d e h vd) (omega (arith, access-capacity c e, access-capacity d e))
      (hits_le c d j k e h vc vd l m)

-- A larger cache never has fewer hits on the same accesses (no Belady anomaly).
pub access_all-hits_mono :
    (m n : ℕ) (es : List ℕ) → m ≤ n → (access_all (init m) 0 es).1 ≤ (access_all (init n) 0 es).1
access_all-hits_mono m n es l =
    access_all_mono (init m) (init n) 0 0 [] es (init-Holds m) (init-Holds n) l (omega arith)

-- The hit counter grows by at most one for each access.
pub access_all-hits_le :
    (c : LruCache) (k : ℕ) (es : List ℕ)
    → (k ≤ (access_all c k es).1) × ((access_all c k es).1 ≤ k + length es)
unfolding access_all
access_all-hits_le c k [] = omega arith
access_all-hits_le c k (e ∷ es) =
    ground
      (arith, access_all-hits_le (access c e).0 (k + 1) es, access_all-hits_le (access c e).0 k es)
