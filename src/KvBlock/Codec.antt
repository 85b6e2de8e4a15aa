-- ===== src/KvBlock/Codec.antt =====
-- The encoding of blocks in src/store/src/kv_block.rs and the checksum that guards it.
use virthub.Common.{
  ℕ, ◌+◌, ◌%◌, ◌^◌, ◌≡◌, refl, Option, none, some, List, [], ◌∷◌, if◌then◌else◌, ◌==◌, length,
  arith, Bool-cases, inl, inr,
}
use virthub.Common.Result.{Result, ok, err}
use virthub.Precision.Policy.{PackedBlockPolicy}
use virthub.Eviction.{KvBlockKey}
use virthub.KvBlock.{
  KvBlock, PspKvSidecarDescriptor, KvBlockError, checksum_mismatch, Counters, Parts, parts_of,
  block_of, new, new_counter, verify_checksum, update_checksum, payload_mut, set_precision_policy,
  set_sidecar, serialize, from_parts, deserialize, all_from_parts, deserialize_batch,
}

-- The calls that change a block; a change of the payload is followed by `update_checksum`.
pub data BlockCall : Type 0 where
  set_policy : Option PackedBlockPolicy → BlockCall
  set_descriptor : Option PspKvSidecarDescriptor → BlockCall
  rewrite : (List ℕ → List ℕ) → BlockCall

-- What the checksum guards: the block's payload is the one its header was computed from.
abbrev pub IsSealed : (List ℕ → ℕ) → KvBlock → Type 0
IsSealed hash b =
    (b.header.checksum ≡ hash b.payload) × (b.header.payload_len ≡ length b.payload % 2 ^ 32)

abbrev pub block_call : (List ℕ → ℕ) → KvBlock → BlockCall → KvBlock
block_call hash b (set_policy p) = set_precision_policy b p
block_call hash b (set_descriptor d) = set_sidecar b d
block_call hash b (rewrite f) = update_checksum hash (payload_mut b f)

abbrev pub run_calls : (List ℕ → ℕ) → KvBlock → List BlockCall → KvBlock
run_calls hash b [] = b
run_calls hash b (call ∷ calls) = run_calls hash (block_call hash b call) calls

block_call-IsSealed :
    (hash : List ℕ → ℕ) (b : KvBlock) (call : BlockCall)
    → IsSealed hash b
    → IsSealed hash (block_call hash b call)
unfolding set_precision_policy set_sidecar update_checksum payload_mut
block_call-IsSealed hash b (set_policy p) h = h
block_call-IsSealed hash b (set_descriptor d) h = h
block_call-IsSealed hash b (rewrite f) h = (refl, refl)

run_calls-IsSealed :
    (hash : List ℕ → ℕ) (b : KvBlock) (calls : List BlockCall)
    → IsSealed hash b
    → IsSealed hash (run_calls hash b calls)
run_calls-IsSealed hash b [] h = h
run_calls-IsSealed hash b (call ∷ calls) h =
    run_calls-IsSealed hash (block_call hash b call) calls (block_call-IsSealed hash b call h)

new-IsSealed :
    (hash : List ℕ → ℕ) (h : Counters) (key : KvBlockKey) (payload : List ℕ)
    → IsSealed hash (new hash h key payload).1
unfolding new
new-IsSealed hash h key payload = (refl, refl)

-- What reading a block back must return.
abbrev pub read_back : {E : Type 0} → (List ℕ → ℕ) → Parts → ℕ → Result (KvBlockError E) KvBlock
read_back hash p cell =
    if hash p.payload == p.header.checksum
    then ok (block_of p cell)
    else err (checksum_mismatch p.header.checksum (hash p.payload))

from_parts-read_back :
    {E : Type 0} (hash : List ℕ → ℕ) (h : Counters) (p : Parts)
    → from_parts {E = E} hash h p ≡ ((new_counter h).0, read_back hash p h.next)
unfolding from_parts verify_checksum new_counter
from_parts-read_back {E} hash h p = ground arith

serialized :
    {E : Type 0} (encode : Parts → Result E (List ℕ)) (b : KvBlock) (bytes : List ℕ)
    → serialize encode b ≡ ok bytes
    → encode (parts_of b) ≡ ok bytes
unfolding serialize
serialized encode b bytes h = ground (arith, h)

-- Reading back what a block was written to, with an encoding that reads what it writes, returns the block with
-- a fresh counter that stands at one, where its checksum is that of its payload, and else reports the two
-- checksums; either way the other counters stay as they were.
pub deserialize-serialize :
    {E : Type 0} (hash : List ℕ → ℕ) (encode : Parts → Result E (List ℕ))
    (decode : List ℕ → Result E Parts) (h : Counters) (b : KvBlock) (bytes : List ℕ) (cell : ℕ)
    → ((p : Parts) (bs : List ℕ) → encode p ≡ ok bs → decode bs ≡ ok p)
    → serialize encode b ≡ ok bytes
    → let (h', r) = deserialize hash decode h bytes in
      (r ≡ (
        if hash b.payload == b.header.checksum
        then ok (record b { ref_count = h.next })
        else err (checksum_mismatch b.header.checksum (hash b.payload))))
      × (h'.count cell ≡ (if cell == h.next then 1 else h.count cell))
unfolding deserialize new_counter
deserialize-serialize hash encode decode h b bytes cell law written =
    let read = law (parts_of b) bytes (serialized encode b bytes written) in
    ground (arith, read, from_parts-read_back hash h (parts_of b))

-- A block that was made by `new` and changed by any calls, each change of the payload with its
-- `update_checksum`, comes back from its bytes unchanged but for its counter.
pub deserialize-serialize-run_calls :
    {E : Type 0} (hash : List ℕ → ℕ) (encode : Parts → Result E (List ℕ))
    (decode : List ℕ → Result E Parts) (h h' : Counters) (key : KvBlockKey) (payload : List ℕ)
    (calls : List BlockCall) (bytes : List ℕ)
    → ((p : Parts) (bs : List ℕ) → encode p ≡ ok bs → decode bs ≡ ok p)
    → serialize encode (run_calls hash (new hash h key payload).1 calls) ≡ ok bytes
    → (deserialize hash decode h' bytes).1
      ≡ ok (record (run_calls hash (new hash h key payload).1 calls) { ref_count = h'.next })
deserialize-serialize-run_calls hash encode decode h h' key payload calls bytes law written =
    let b = run_calls hash (new hash h key payload).1 calls in
    let sealed =
      run_calls-IsSealed hash (new hash h key payload).1 calls (new-IsSealed hash h key payload) in
    let back = deserialize-serialize hash encode decode h' b bytes 0 law written in
    ground (arith, back.0, sealed.0)

-- The first of the parts whose checksum is wrong.
abbrev pub first_bad : (List ℕ → ℕ) → List Parts → Option Parts
first_bad hash [] = none
first_bad hash (p ∷ ps) = if hash p.payload == p.header.checksum then first_bad hash ps else some p

-- The blocks of the parts, with counters from a number on.
abbrev pub blocks_from : ℕ → List Parts → List KvBlock
blocks_from n [] = []
blocks_from n (p ∷ ps) = block_of p n ∷ blocks_from (n + 1) ps

all_from_parts_lem :
    {E : Type 0} (hash : List ℕ → ℕ) (h : Counters) (ps : List Parts)
    → (all_from_parts {E = E} hash h ps).1 ≡ elim (first_bad hash ps) [
      | none ↦ ok (blocks_from h.next ps)
      | some p ↦ err (checksum_mismatch p.header.checksum (hash p.payload))
    ]
unfolding all_from_parts new_counter
all_from_parts_lem hash h [] = refl
all_from_parts_lem {E} hash h (p ∷ ps) =
    let first = from_parts-read_back {E = E} hash h p in
    let rest = all_from_parts_lem {E = E} hash (new_counter h).0 ps in
    elim (Bool-cases (hash p.payload == p.header.checksum)) [
      | inl fits ↦ ground (arith, first, rest, fits)
      | inr bad ↦ ground (arith, first, bad)
    ]

-- A batch is all or nothing: it returns a block for each of the parts, in order and with fresh counters, when
-- every checksum fits, and else the two checksums of the first block that does not.
pub deserialize_batch_refines :
    {E : Type 0} (hash : List ℕ → ℕ) (decode : List ℕ → Result E (List Parts)) (h : Counters)
    (bytes : List ℕ) (ps : List Parts)
    → decode bytes ≡ ok ps
    → (deserialize_batch hash decode h bytes).1 ≡ elim (first_bad hash ps) [
      | none ↦ ok (blocks_from h.next ps)
      | some p ↦ err (checksum_mismatch p.header.checksum (hash p.payload))
    ]
unfolding deserialize_batch
deserialize_batch_refines {E} hash decode h bytes ps read =
    ground (arith, read, all_from_parts_lem {E = E} hash h ps)
