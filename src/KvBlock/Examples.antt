-- ===== src/KvBlock/Examples.antt =====
-- Blocks of src/store/src/kv_block.rs with a sum for the checksum and an encoding of plain blocks.
use virthub.Common.{
  ℕ, ◌+◌, ◌*◌, ◌≡◌, refl, Option, none, some, List, [], ◌∷◌, if◌then◌else◌, ◌==◌, arith,
  Option-cases, inl, inr,
}
use virthub.Common.Result.{Result, ok, err}
use virthub.Eviction.{KvBlockKey}
use virthub.KvBlock.{
  KvBlockHeader, Counters, Parts, checksum_mismatch, new, serialize, set_precision_policy,
  update_checksum, payload_mut, deserialize,
}
use virthub.KvBlock.Codec.{
  rewrite, set_policy, BlockCall, run_calls, deserialize-serialize, deserialize-serialize-run_calls,
}

abbrev sum : List ℕ → ℕ
sum [] = 0
sum (x ∷ xs) = x + 3 * sum xs

-- Blocks without a policy and a sidecar, as their numbers.
abbrev encode_plain : Option ℕ → KvBlockHeader → List ℕ → Result ℕ (List ℕ)
encode_plain none h payload =
    ok (h.key.namespace_id ∷ h.key.block_id ∷ h.payload_len ∷ h.checksum ∷ h.flags ∷ payload)
encode_plain (some _) h payload = err 1

abbrev has_extra : Parts → Option ℕ
has_extra p = elim p.precision_policy [
  | some _ ↦ some 0
  | none ↦ elim p.sidecar [ some _ ↦ some 0 | none ↦ none ]
]

abbrev encode : Parts → Result ℕ (List ℕ)
encode p = encode_plain (has_extra p) p.header p.payload

abbrev decode : List ℕ → Result ℕ Parts
decode (ns ∷ id ∷ len ∷ sum ∷ flags ∷ payload) = ok record {
  header = record {
    key = record { namespace_id = ns; block_id = id };
    payload_len = len;
    checksum = sum;
    flags = flags;
  };
  payload = payload;
  precision_policy = none;
  sidecar = none;
}
decode _ = err 2

decode-encode : (p : Parts) (bs : List ℕ) → encode p ≡ ok bs → decode bs ≡ ok p
decode-encode p bs h = elim (Option-cases p.precision_policy) [
  | inr (x, z) ↦ absurd (ground (arith, h, z))
  | inl z ↦ elim (Option-cases p.sidecar) [
    | inr (x, y) ↦ absurd (ground (arith, h, z, y))
    | inl y ↦ ground (arith, h, z, y)
  ]
]

abbrev no_counters : Counters
no_counters = record { next = 0; count = λ cell. 0 }

abbrev key : KvBlockKey
key = record { namespace_id = 1; block_id = 100 }

abbrev bytes : List ℕ
bytes = 1 ∷ 100 ∷ 3 ∷ 34 ∷ 0 ∷ 1 ∷ 2 ∷ 3 ∷ []

written : serialize encode (new sum no_counters key (1 ∷ 2 ∷ 3 ∷ [])).1 ≡ ok bytes
unfolding serialize new
written = refl

deserialize-serialize_example :
    let b = (new sum no_counters key (1 ∷ 2 ∷ 3 ∷ [])).1 in
    let (h', r) = deserialize sum decode no_counters bytes in
    (r ≡ (
      if sum b.payload == b.header.checksum
      then ok (record b { ref_count = 0 })
      else err (checksum_mismatch b.header.checksum (sum b.payload))))
    × (h'.count 0 ≡ 1)
deserialize-serialize_example =
    deserialize-serialize sum encode decode no_counters (new sum no_counters key (1 ∷ 2 ∷ 3 ∷ [])).1
      bytes 0 decode-encode written

abbrev calls : List BlockCall
calls = set_policy none ∷ rewrite (λ payload. 5 ∷ payload) ∷ []

rewritten :
    serialize encode (run_calls sum (new sum no_counters key (2 ∷ [])).1 calls)
    ≡ ok (1 ∷ 100 ∷ 2 ∷ 11 ∷ 0 ∷ 5 ∷ 2 ∷ [])
unfolding serialize new set_precision_policy update_checksum payload_mut
rewritten = refl

deserialize-serialize-run_calls_example :
    (deserialize sum decode no_counters (1 ∷ 100 ∷ 2 ∷ 11 ∷ 0 ∷ 5 ∷ 2 ∷ [])).1
    ≡ ok (record (run_calls sum (new sum no_counters key (2 ∷ [])).1 calls) { ref_count = 0 })
deserialize-serialize-run_calls_example =
    deserialize-serialize-run_calls sum encode decode no_counters no_counters key (2 ∷ []) calls _
      decode-encode rewritten
