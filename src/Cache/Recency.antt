-- ===== src/Cache/Recency.antt =====
-- The cache against its specification: what it holds is the front of the list of all experts ever
-- accessed, most recent first.
use mathlib.Core.List.{reverse-append}
use mathlib.Core.Path.{◌≡⟨◌⟩◌, ◌∎}
use pocket_agents_lab.Prelude.{
  ℕ, zero, suc, ◌+◌, ◌≤◌, ◌<◌, min, ◌≡◌, refl, ap, sym, true, false, List, [], ◌∷◌, ◌++◌, reverse,
  inl, inr, arith, length, take, drop, contains, without, Distinct, ◌==◌, Bool-cases,
  length-reverse, length-take, length-append, take_of_length-le, without_absent, without-reverse,
  contains-reverse, contains-without_self, Distinct-without, nat_Eq,
}
use pocket_agents_lab.Cache.{LruCache, access}

-- The history of accesses: every expert once, the most recent first.
unfoldable pub touch : ℕ → List ℕ → List ℕ
touch e history = e ∷ without e history

unfoldable pub touch_all : List ℕ → List ℕ → List ℕ
unfolding touch
touch_all history [] = history
touch_all history (e ∷ es) = touch_all (touch e history) es

-- The cache holds the `capacity` most recent experts of the history, oldest first.
pub record Holds (c : LruCache) (history : List ℕ) : Type 0 where
  pub distinct : Distinct history
  pub window : c.order ≡ reverse (take c.capacity history)

pub touch-Distinct : (e : ℕ) (h : List ℕ) → Distinct h → Distinct (touch e h)
unfolding touch
touch-Distinct e h d = (contains-without_self e h, Distinct-without e h d)

-- An expert that is not among the first `n` can be removed without changing them.
take-without_absent :
    (n : ℕ) (e : ℕ) (h : List ℕ) → contains e (take n h) ≡ false → take n (without e h) ≡ take n h
unfolding contains without
take-without_absent zero e h _ = refl
take-without_absent (suc n) e [] _ = refl
take-without_absent (suc n) e (x ∷ h) a = ground (arith, take-without_absent n e h)

contains-take_absent : (n e : ℕ) (h : List ℕ) → contains e h ≡ false → contains e (take n h) ≡ false
unfolding contains
contains-take_absent zero e h a = refl
contains-take_absent (suc n) e [] a = refl
contains-take_absent (suc n) e (x ∷ h) a = ground (arith, contains-take_absent n e h)

-- One that is among the first `n + 1` leaves room for exactly `n` others.
take-without_present :
    (n e : ℕ) (h : List ℕ)
    → Distinct h
    → contains e (take (suc n) h) ≡ true
    → take n (without e h) ≡ without e (take (suc n) h)
unfolding contains without
take-without_present n e [] _ a = absurd (ground arith)
take-without_present zero e (x ∷ h) d a = ground arith
take-without_present (suc n) e (x ∷ h) d a = elim (Bool-cases (e == x)) [
  | inl same ↦ ground (
    arith,
    without_absent x h,
    without_absent x (take (suc n) h),
    contains-take_absent (suc n) x h,
  )
  | inr other ↦ rw other (ap (◌∷◌ x) (take-without_present n e h d.1 (ground arith)))
]

contains-order :
    (c : LruCache) (e : ℕ) (h : List ℕ)
    → Holds c h
    → contains e c.order ≡ contains e (take c.capacity h)
contains-order c e h v = rw v.window (contains-reverse e (take c.capacity h))

-- `access` reports a hit exactly when the expert is among the `capacity` most recent ones, in a
-- cache that holds a history.
pub access-hit_iff :
    (c : LruCache) (e : ℕ) (h : List ℕ)
    → Holds c h
    → (access c e).1 ≡ contains e (take c.capacity h)
unfolding access
access-hit_iff c e h v = ground (arith, contains-order c e h v)

window_hit :
    (n e : ℕ) (h : List ℕ)
    → Distinct h
    → contains e (take n h) ≡ true
    → without e (reverse (take n h)) ++ e ∷ [] ≡ reverse (take n (touch e h))
unfolding touch contains
window_hit zero e h d a = absurd (ground arith)
window_hit (suc n) e h d a =
    rw (without-reverse, reverse-append (e ∷ []), take-without_present n e h d a)

drop_one-append : (xs ys : List ℕ) → 0 < length xs → drop 1 (xs ++ ys) ≡ drop 1 xs ++ ys
drop_one-append [] ys h = elim h [ ]
drop_one-append (x ∷ xs) ys h = refl

-- To drop the oldest of a reversed list is to drop the last of the list.
drop_one-reverse : (n : ℕ) (l : List ℕ) → length l ≡ suc n → drop 1 (reverse l) ≡ reverse (take n l)
drop_one-reverse n [] h = absurd (omega arith)
drop_one-reverse zero (x ∷ []) h = refl
drop_one-reverse zero (x ∷ y ∷ l) h = absurd (omega arith)
drop_one-reverse (suc n) (x ∷ []) h = absurd (omega arith)
drop_one-reverse (suc n) (x ∷ y ∷ l) h =
    drop 1 (reverse (x ∷ y ∷ l))
    ≡⟨ ap (drop 1) (reverse-append (x ∷ []) (y ∷ l)) ⟩ drop 1 (reverse (y ∷ l) ++ x ∷ [])
    ≡⟨ drop_one-append (reverse (y ∷ l)) (x ∷ []) (omega (arith, length-reverse (y ∷ l))) ⟩
      drop 1 (reverse (y ∷ l)) ++ x ∷ []
    ≡⟨ ap (λ r. r ++ x ∷ []) (drop_one-reverse n (y ∷ l) (omega arith)) ⟩
      reverse (take n (y ∷ l)) ++ x ∷ []
    ≡⟨ sym (reverse-append (x ∷ []) (take n (y ∷ l))) ⟩ reverse (take (suc n) (x ∷ y ∷ l)) ∎

take-take_next : (n : ℕ) (h : List ℕ) → take n (take (suc n) h) ≡ take n h
take-take_next zero h = refl
take-take_next (suc n) [] = refl
take-take_next (suc n) (x ∷ h) = ap (◌∷◌ x) (take-take_next n h)

front_absent :
    (n e : ℕ) (h : List ℕ)
    → contains e (take (suc n) h) ≡ false
    → take n (without e h) ≡ take n (take (suc n) h)
front_absent n e h a = rw (take-take_next n h) (
    take-without_absent n e h
      (rw (← take-take_next n h) (contains-take_absent n e (take (suc n) h) a)))

window_full :
    (n e : ℕ) (h : List ℕ)
    → contains e (take n h) ≡ false
    → n ≤ length h
    → drop 1 (reverse (take n h) ++ e ∷ []) ≡ reverse (take n (touch e h))
unfolding touch
window_full zero e h a l = refl
window_full (suc n) e h a l =
    drop 1 (reverse (take (suc n) h) ++ e ∷ [])
    ≡⟨ ap (drop 1) (sym (reverse-append (e ∷ []) (take (suc n) h))) ⟩
      drop 1 (reverse (e ∷ take (suc n) h))
    ≡⟨ drop_one-reverse (suc n) (e ∷ take (suc n) h) (omega (arith, length-take (suc n) h)) ⟩
      reverse (e ∷ take n (take (suc n) h))
    ≡⟨ ap (λ (t : List ℕ). reverse (e ∷ t)) (sym (front_absent n e h a)) ⟩
      reverse (take (suc n) (touch e h)) ∎

window_room :
    (n e : ℕ) (h : List ℕ)
    → contains e (take n h) ≡ false
    → length h < n
    → reverse (take n h) ++ e ∷ [] ≡ reverse (take n (touch e h))
unfolding touch
window_room n e h a l =
    let whole : take n h ≡ h = take_of_length-le n h (omega arith) in
    let absent : contains e h ≡ false = rw whole at a in
    rw (whole, without_absent e h absent, take_of_length-le n (e ∷ h) (omega arith))
      (sym (reverse-append (e ∷ []) h))

length_grown : (n e : ℕ) (h : List ℕ) → length (reverse (take n h) ++ e ∷ []) ≡ min n (length h) + 1
length_grown n e h =
    omega (
      arith,
      length-append (reverse (take n h)) (e ∷ []),
      length-reverse (take n h),
      length-take n h,
    )

-- The new window, on each branch of `access`.
access_window :
    (n e : ℕ) (h order : List ℕ)
    → Distinct h
    → order ≡ reverse (take n h)
    → (access (record { capacity = n; order = order }) e).0.order ≡ reverse (take n (touch e h))
unfolding access
access_window n e h order d w = ground (
  arith,
  contains-reverse e (take n h),
  window_hit n e h d,
  window_full n e h,
  window_room n e h,
  length_grown n e h,
)

pub access-capacity : (c : LruCache) (e : ℕ) → (access c e).0.capacity ≡ c.capacity
unfolding access
access-capacity c e = ground arith

-- An access moves its expert to the front of the history, and the cache goes on holding the front.
pub access-Holds :
    (c : LruCache) (e : ℕ) (h : List ℕ) → Holds c h → Holds (access c e).0 (touch e h)
access-Holds c e h v = record {
  distinct = touch-Distinct e h v.distinct;
  window = rw (access-capacity c e) (access_window c.capacity e h c.order v.distinct v.window);
}
