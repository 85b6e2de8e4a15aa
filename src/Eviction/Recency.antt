-- ===== src/Eviction/Recency.antt =====
-- The order in which src/index/src/eviction.rs evicts keys.
use virthub.Common.{
  ℕ, zero, suc, ◌≤◌, length, ◌≡◌, inl, inr, refl, sym, ap, ◌∙◌, Bool, false, ◌||◌, none, some, List,
  [], ◌∷◌, ◌++◌, if◌then◌else◌, arith, Bool-cases,
}
use mathlib.Core.List.{append_assoc}
use virthub.Common.Result.{ok, err}
use virthub.Eviction.{
  TwoQEvictionPolicy, KvBlockKey, key_eq, new, remove_found, touch, evict_next, remove,
}

abbrev pub member : List KvBlockKey → KvBlockKey → Bool
member [] k = false
member (x ∷ xs) k = key_eq x k || member xs k

abbrev pub Distinct : List KvBlockKey → Type 0
Distinct [] = Unit
Distinct (x ∷ xs) = (member xs x ≡ false) × Distinct xs

-- The keys of a sequence of touches in the order of their last touch.
abbrev pub by_last_touch : List KvBlockKey → List KvBlockKey
by_last_touch [] = []
by_last_touch (k ∷ ks) = if member ks k then by_last_touch ks else k ∷ by_last_touch ks

-- The keys of `q` that are not among `ts`.
abbrev without : List KvBlockKey → List KvBlockKey → List KvBlockKey
without ts [] = []
without ts (x ∷ xs) = if member ts x then without ts xs else x ∷ without ts xs

-- The queue less a key.
abbrev dropped : KvBlockKey → List KvBlockKey → List KvBlockKey
dropped k [] = []
dropped k (x ∷ xs) = if key_eq x k then xs else x ∷ dropped k xs

remove_found-dropped :
    (k : KvBlockKey) (xs : List KvBlockKey)
    → remove_found k xs ≡ (if member xs k then some (dropped k xs) else none)
unfolding remove_found
remove_found-dropped k [] = refl
remove_found-dropped k (x ∷ xs) = ground (arith, remove_found-dropped k xs)

dropped_absent : (k : KvBlockKey) (xs : List KvBlockKey) → member xs k ≡ false → dropped k xs ≡ xs
dropped_absent k [] h = refl
dropped_absent k (x ∷ xs) h = ground (arith, dropped_absent k xs)

touch_lem :
    (p : TwoQEvictionPolicy) (k : KvBlockKey)
    → p.lru_queue ≡ []
    → touch p k ≡ record p { in_queue = dropped k p.in_queue ++ (k ∷ []) }
unfolding touch
touch_lem p k h = ground (
  arith,
  h,
  remove_found-dropped k p.lru_queue,
  remove_found-dropped k p.in_queue,
  dropped_absent k p.in_queue,
)

member-dropped :
    (k j : KvBlockKey) (xs : List KvBlockKey)
    → member xs j ≡ false
    → member (dropped k xs) j ≡ false
member-dropped k j [] h = refl
member-dropped k j (x ∷ xs) h = ground (arith, member-dropped k j xs)

without_absent :
    (k : KvBlockKey) (ts xs : List KvBlockKey)
    → member xs k ≡ false
    → without ts xs ≡ without (k ∷ ts) xs
without_absent k ts [] h = refl
without_absent k ts (x ∷ xs) h = ground (arith, h, without_absent k ts xs)

without-dropped :
    (k : KvBlockKey) (ts xs : List KvBlockKey)
    → Distinct xs
    → without ts (dropped k xs) ≡ without (k ∷ ts) xs
without-dropped k ts [] h = refl
without-dropped k ts (x ∷ xs) h = elim (Bool-cases (key_eq x k)) [
  | inl e ↦ ground (arith, h, e, without_absent x ts xs)
  | inr e ↦ ground (arith, h, e, without-dropped k ts xs)
]

without-append_one :
    (k : KvBlockKey) (ts xs : List KvBlockKey)
    → without ts (xs ++ (k ∷ [])) ≡ without ts xs ++ (if member ts k then [] else (k ∷ []))
without-append_one k ts [] = refl
without-append_one k ts (x ∷ xs) = ground (arith, without-append_one k ts xs)

member-append_one :
    (k j : KvBlockKey) (xs : List KvBlockKey)
    → member xs j ≡ false
    → key_eq k j ≡ false
    → member (xs ++ (k ∷ [])) j ≡ false
member-append_one k j [] h e = ground (arith, e)
member-append_one k j (x ∷ xs) h e = ground (arith, h, member-append_one k j xs)

Distinct-append_one :
    (k : KvBlockKey) (xs : List KvBlockKey)
    → Distinct xs
    → member xs k ≡ false
    → Distinct (xs ++ (k ∷ []))
Distinct-append_one k [] h n = (refl, tt)
Distinct-append_one k (x ∷ xs) h n = (
  member-append_one k x xs h.0 (ground (arith, n)),
  Distinct-append_one k xs h.1 (ground (arith, n)),
)

member-dropped_self :
    (k : KvBlockKey) (xs : List KvBlockKey) → Distinct xs → member (dropped k xs) k ≡ false
member-dropped_self k [] h = refl
member-dropped_self k (x ∷ xs) h = ground (arith, h, member-dropped_self k xs)

Distinct-dropped : (k : KvBlockKey) (xs : List KvBlockKey) → Distinct xs → Distinct (dropped k xs)
Distinct-dropped k [] h = tt
Distinct-dropped k (x ∷ xs) h = ground (arith, h, Distinct-dropped k xs, member-dropped k x xs)

unfoldable pub touch_all : TwoQEvictionPolicy → List KvBlockKey → TwoQEvictionPolicy
unfolding touch
touch_all p [] = p
touch_all p (k ∷ ks) = touch_all (touch p k) ks

without-nil : (xs : List KvBlockKey) → without [] xs ++ [] ≡ xs
without-nil [] = refl
without-nil (x ∷ xs) = ap (◌∷◌ x) (without-nil xs)

-- The queue that touches leave, from one that holds each key once.
touch_all_lem :
    (p : TwoQEvictionPolicy) (ts : List KvBlockKey)
    → p.lru_queue ≡ []
    → Distinct p.in_queue
    → touch_all p ts ≡ record p { in_queue = without ts p.in_queue ++ by_last_touch ts }
unfolding touch_all
touch_all_lem p [] h d = ap (λ q. record p { in_queue = q }) (sym (without-nil p.in_queue))
touch_all_lem p (k ∷ ts) h d =
    let q = dropped k p.in_queue ++ (k ∷ []) in
    let d' =
      Distinct-append_one k (dropped k p.in_queue) (Distinct-dropped k p.in_queue d)
        (member-dropped_self k p.in_queue d) in
    let rest = touch_all_lem (record p { in_queue = q }) ts h d' in
    let q' : without ts q ++ by_last_touch ts
        ≡ without (k ∷ ts) p.in_queue ++ by_last_touch (k ∷ ts) =
      ground (
        arith,
        without-append_one k ts (dropped k p.in_queue),
        without-dropped k ts p.in_queue d,
        append_assoc (without (k ∷ ts) p.in_queue) (k ∷ []) (by_last_touch ts),
        append_assoc (without (k ∷ ts) p.in_queue) [] (by_last_touch ts),
      ) in
    ap (λ x. touch_all x ts) (touch_lem p k h) ∙ rest ∙ ap (λ x. record p { in_queue = x }) q'

-- Evicting up to `n` keys.
unfoldable pub evict_all : ℕ → TwoQEvictionPolicy → List KvBlockKey
unfolding evict_next
evict_all zero p = []
evict_all (suc n) p =
    let rest = evict_all n (evict_next p).0 in
    elim ((evict_next p).1) [ err _ ↦ [] | ok key ↦ key ∷ rest ]

evict_all_lem :
    (n : ℕ) (q : List KvBlockKey)
    → length q ≤ n
    → evict_all n (record { in_queue = q; lru_queue = [] }) ≡ q
unfolding evict_all evict_next
evict_all_lem zero [] h = refl
evict_all_lem zero (x ∷ xs) h = absurd (omega arith)
evict_all_lem (suc n) [] h = refl
evict_all_lem (suc n) (x ∷ xs) h = ap (◌∷◌ x) (evict_all_lem n xs (omega arith))

length-by_last_touch : (ts : List KvBlockKey) → length (by_last_touch ts) ≤ length ts
length-by_last_touch [] = omega arith
length-by_last_touch (t ∷ ts) = ground (arith, length-by_last_touch ts)

-- After any sequence of touches of an empty policy, evictions return each touched key once, in the
-- order of their last touches: the least recently touched key first.
pub evict_all-touch_all :
    (ts : List KvBlockKey) → evict_all (length ts) (touch_all new ts) ≡ by_last_touch ts
unfolding new
evict_all-touch_all ts =
    ap (evict_all (length ts)) (touch_all_lem new ts refl tt)
    ∙ evict_all_lem (length ts) (by_last_touch ts) (length-by_last_touch ts)

-- The calls of clients.
pub data Call : Type 0 where
  touches removes : KvBlockKey → Call
  evicts : Call

unfoldable pub run : TwoQEvictionPolicy → List Call → TwoQEvictionPolicy
unfolding touch evict_next remove
run p [] = p
run p (touches k ∷ cs) = run (touch p k) cs
run p (removes k ∷ cs) = run (remove p k).0 cs
run p (evicts ∷ cs) = run (evict_next p).0 cs

abbrev pub IsFifo : TwoQEvictionPolicy → Type 0
IsFifo p = (p.lru_queue ≡ []) × Distinct p.in_queue

touch-IsFifo : (p : TwoQEvictionPolicy) (k : KvBlockKey) → IsFifo p → IsFifo (touch p k)
touch-IsFifo p k h =
    let d =
      Distinct-append_one k (dropped k p.in_queue) (Distinct-dropped k p.in_queue h.1)
        (member-dropped_self k p.in_queue h.1) in
    ground (arith, touch_lem p k h.0, d, h.0)

remove-IsFifo : (p : TwoQEvictionPolicy) (k : KvBlockKey) → IsFifo p → IsFifo (remove p k).0
unfolding remove
remove-IsFifo p k h = ground (
  arith,
  h,
  remove_found-dropped k p.lru_queue,
  remove_found-dropped k p.in_queue,
  Distinct-dropped k p.in_queue,
)

evict_next-IsFifo : (p : TwoQEvictionPolicy) → IsFifo p → IsFifo (evict_next p).0
unfolding evict_next
evict_next-IsFifo p h = ground (arith, h)

-- From a policy whose second queue is empty and whose first holds no key twice, whatever calls
-- follow, both stay so: no key is ever promoted.
pub run-IsFifo : (p : TwoQEvictionPolicy) (calls : List Call) → IsFifo p → IsFifo (run p calls)
unfolding run
run-IsFifo p [] h = h
run-IsFifo p (touches k ∷ cs) h = run-IsFifo (touch p k) cs (touch-IsFifo p k h)
run-IsFifo p (removes k ∷ cs) h = run-IsFifo (remove p k).0 cs (remove-IsFifo p k h)
run-IsFifo p (evicts ∷ cs) h = run-IsFifo (evict_next p).0 cs (evict_next-IsFifo p h)
