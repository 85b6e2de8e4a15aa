-- ===== src/Invalidation/Ring.antt =====
-- The ring of src/klnk/klnk-daemon/src/invalidation.rs as a bounded queue of messages.
use virthub.Common.{
  ℕ, suc, ◌+◌, ◌-◌, ◌%◌, ◌≤◌, ◌<◌, ◌≡◌, ◌⊎◌, inl, inr, refl, ap, subst, sym, Bool, true, false,
  List, [], ◌∷◌, ◌++◌, if◌then◌else◌, ltb, leb, ◌==◌, length, drop, arith, Bool-cases,
  length-append, length-drop, ap₂,
}
use virthub.Invalidation.{
  Message, Entry, zero_entry, InvalidationBuffer, num_entries, read_entry_raw, write_entry_raw,
  Pending, process_from, process_pending, write_entry,
}

abbrev pub entry_of : Message → Entry
entry_of m = record { valid = 1; message = m }

-- The messages stand in the slots from index `i` on.
abbrev pub StandsFrom : (ℕ → Entry) → ℕ → List Message → Type 0
StandsFrom entries i [] = Unit
StandsFrom entries i (m ∷ ms) =
    (entries (i % num_entries) ≡ entry_of m) × StandsFrom entries (i + 1) ms

-- The ring holds the messages of a queue, oldest first.
pub record Holds (q : List Message) (b : InvalidationBuffer) : Type 0 where
  pub stands : StandsFrom b.entries b.head q
  pub size : b.tail ≡ b.head + length q
  pub bounded : length q ≤ num_entries

abbrev set_slot : (ℕ → Entry) → ℕ → Entry → ℕ → Entry
set_slot entries k e slot = if slot == k % num_entries then e else entries slot

-- A write outside of the slots of the queue leaves it alone.
StandsFrom-set_slot :
    (entries : ℕ → Entry) (i k : ℕ) (e : Entry) (q : List Message)
    → ((k < i) × (i + length q ≤ k + num_entries)) ⊎ ((i + length q ≤ k) × (k < i + num_entries))
    → StandsFrom entries i q
    → StandsFrom (set_slot entries k e) i q
StandsFrom-set_slot entries i k e [] out h = tt
StandsFrom-set_slot entries i k e (m ∷ q) out h =
    (ground (arith, out, h.0), StandsFrom-set_slot entries (i + 1) k e q (ground (arith, out)) h.1)

StandsFrom-append :
    (entries : ℕ → Entry) (i : ℕ) (q : List Message) (m : Message)
    → StandsFrom entries i q
    → entries ((i + length q) % num_entries) ≡ entry_of m
    → StandsFrom entries i (q ++ (m ∷ []))
StandsFrom-append entries i [] m h e = (ground (arith, e), tt)
StandsFrom-append entries i (x ∷ q) m h e =
    (h.0, StandsFrom-append entries (i + 1) q m h.1 (ground (arith, e)))

-- A write appends a message to a queue that is not full, and refuses it without an effect when the ring is
-- full.
pub write_entry-Holds :
    (b : InvalidationBuffer) (q : List Message) (m : Message)
    → Holds q b
    → let (b', accepted) = write_entry b m in
      (Holds (q ++ (m ∷ [])) b' × (accepted ≡ true) × (length q < num_entries))
      ⊎ ((b' ≡ b) × (accepted ≡ false) × (length q ≡ num_entries))
unfolding write_entry write_entry_raw
write_entry-Holds b q m h = elim (Bool-cases (leb num_entries (b.tail - b.head))) [
  | inl full ↦ inr (ground (arith, full, h.size, h.bounded))
  | inr room ↦
      let short : length q < num_entries = ground (arith, room, h.size) in
      let kept =
        StandsFrom-set_slot b.entries b.head b.tail (entry_of m) q
          (inr (omega (arith, h.size), omega (arith, h.size, short))) h.stands in
      let done : write_entry b m
          ≡ (record (write_entry_raw b b.tail (entry_of m)) { tail = b.tail + 1 }, true) =
        ground (arith, room) in
      let holds : Holds (q ++ (m ∷ []))
          (record (write_entry_raw b b.tail (entry_of m)) { tail = b.tail + 1 }) =
        record {
          stands =
              StandsFrom-append (set_slot b.entries b.tail (entry_of m)) b.head q m kept
                (ground (arith, h.size));
          size = omega (arith, h.size, length-append q (m ∷ []));
          bounded = omega (arith, short, length-append q (m ∷ []));
        } in
      inl (subst (λ r. Holds (q ++ (m ∷ [])) r.0) (sym done) holds, ap (λ r. r.1) done, short)
]

module _ {S : Type 0} (callback : S → Message → S × Bool) where
  -- A queue handed to the callback, oldest first, up to the first message that it does not accept.
  unfoldable pub deliver : S → List Message → S × ℕ
  deliver s [] = (s, 0)
  deliver s (m ∷ q) =
      let (s', accepted) = callback s m in
      let (last, n) = deliver s' q in if accepted then (last, suc n) else (s', 0)

  -- What the loop leaves of a queue that stands from its index on.
  record Ran (q : List Message) (p p' : Pending S) : Type 0 where
    same_state : p'.state ≡ (deliver p.state q).0
    same_count : p'.processed ≡ p.processed + (deliver p.state q).1
    moved : p'.idx ≡ p.idx + (deliver p.state q).1
    same_head : p'.buffer.head ≡ p.buffer.head
    same_tail : p'.buffer.tail ≡ p.buffer.tail
    stands : StandsFrom p'.buffer.entries p'.idx (drop (deliver p.state q).1 q)
    fits : (deliver p.state q).1 ≤ length q

  process_from-Ran :
      (q : List Message) (tail : ℕ) (p : Pending S)
      → StandsFrom p.buffer.entries p.idx q
      → tail ≡ p.idx + length q
      → length q ≤ num_entries
      → Ran q p (process_from callback (length q) tail p)
  unfolding process_from deliver read_entry_raw write_entry_raw
  process_from-Ran [] tail p h t f = record {
    same_state = refl;
    same_count = omega arith;
    moved = omega arith;
    same_head = refl;
    same_tail = refl;
    stands = tt;
    fits = omega arith;
  }
  process_from-Ran (m ∷ q) tail p h t f =
      let inside : p.idx < tail = omega (arith, t) in
      elim (Bool-cases (callback p.state m).1) [
        | inl accepted ↦
            let next : Pending S = record {
              buffer = write_entry_raw p.buffer p.idx zero_entry;
              state = (callback p.state m).0;
              idx = p.idx + 1;
              processed = p.processed + 1;
            } in
            let kept =
              StandsFrom-set_slot p.buffer.entries (p.idx + 1) p.idx zero_entry q
                (inl (omega arith, omega (arith, f))) h.1 in
            let last = process_from callback (length q) tail next in
            let rest = process_from-Ran q tail next kept (omega (arith, t)) (omega (arith, f)) in
            let step : process_from callback (suc (length q)) tail p
                ≡ process_from callback (length q) tail next =
              ground (arith, h.0, inside, accepted) in
            let first : deliver p.state (m ∷ q)
                ≡ ((deliver next.state q).0, suc (deliver next.state q).1) =
              ground (arith, accepted) in
            subst (λ r. Ran (m ∷ q) p r) (sym step)
              record {
                same_state = ground (rest.same_state, first, arith);
                same_count = ground (arith, rest.same_count, first);
                moved = ground (arith, rest.moved, first);
                same_head = ground (arith, rest.same_head);
                same_tail = ground (arith, rest.same_tail);
                stands =
                    subst (λ n. StandsFrom last.buffer.entries last.idx (drop n (m ∷ q)))
                      (sym (ap (λ r. r.1) first)) rest.stands;
                fits = ground (arith, rest.fits, first);
              }
        | inr refused ↦
            let step : process_from callback (suc (length q)) tail p
                ≡ record p { state = (callback p.state m).0 } =
              ground (arith, h.0, inside, refused) in
            let first : deliver p.state (m ∷ q) ≡ ((callback p.state m).0, 0) =
              ground (arith, refused) in
            subst (λ r. Ran (m ∷ q) p r) (sym step)
              record {
                same_state = ground (first, arith);
                same_count = ground (arith, first);
                moved = ground (arith, first);
                same_head = refl;
                same_tail = refl;
                stands =
                    subst (λ n. StandsFrom p.buffer.entries p.idx (drop n (m ∷ q)))
                      (sym (ap (λ r. r.1) first)) h;
                fits = ground (arith, first);
              }
      ]

  Holds-end :
      (b : InvalidationBuffer) (q : List Message) (s : S) (p : Pending S)
      → Holds q b
      → Ran q (record { buffer = b; state = s; idx = b.head; processed = 0 }) p
      → Holds
          (drop p.processed q)
          (if ltb 0 p.processed then record (p.buffer) { head = p.idx } else p.buffer)
  Holds-end b q s p h r =
      let count : (deliver s q).1 ≡ p.processed = omega (arith, r.same_count) in
      let left : Holds (drop p.processed q) (record (p.buffer) { head = p.idx }) = record {
        stands = subst (λ n. StandsFrom p.buffer.entries p.idx (drop n q)) count r.stands;
        size =
            omega (arith, h.size, r.same_tail, r.moved, r.fits, count, length-drop p.processed q);
        bounded = omega (arith, h.bounded, length-drop p.processed q);
      } in
      let same : p.processed ≡ 0 → record (p.buffer) { head = p.idx } ≡ p.buffer = λ z.
        ap (λ k. record (p.buffer) { head = k }) (omega (arith, r.moved, r.same_head, count, z)) in
      elim (Bool-cases (ltb 0 p.processed)) [
        | inl some_done ↦ rw some_done left
        | inr none_done ↦
            rw none_done
              (subst (λ x. Holds (drop p.processed q) x) (same (ground (arith, none_done))) left)
      ]

  -- One call hands the queue to the callback, oldest message first, up to the first message that is not
  -- accepted; it returns the number of accepted messages and leaves exactly the others in the ring.
  pub process_pending-refines :
      (b : InvalidationBuffer) (q : List Message) (s : S)
      → Holds q b
      → let (b', s', n) = process_pending callback b s in
        ((s', n) ≡ deliver s q) × (n ≤ length q) × Holds (drop n q) b'
  unfolding process_pending
  process_pending-refines b q s h =
      let start : Pending S = record { buffer = b; state = s; idx = b.head; processed = 0 } in
      let fuel : length q ≡ b.tail - b.head = omega (arith, h.size) in
      let ran =
        subst (λ k. Ran q start (process_from callback k b.tail start)) fuel
          (process_from-Ran q b.tail start h.stands h.size h.bounded) in
      let p = process_from callback (b.tail - b.head) b.tail start in
      let count : p.processed ≡ (deliver s q).1 = omega (arith, ran.same_count) in
      (
        ap₂ (λ x n. (x, n)) ran.same_state count,
        omega (arith, count, ran.fits),
        Holds-end b q s p h ran,
      )
