-- ===== src/KvBlock.antt =====
-- src/store/src/kv_block.rs and the descriptors of src/store/src/psp_kv.rs. The CRC32 and the bincode
-- encoding come from other packages and are parameters. A payload is copied on write, so it is a value; the
-- reference counter is shared between clones, so a block holds the number of its cell.
pub mod Codec
mod Examples
use virthub.Common.{
  ℕ, zero, suc, ◌+◌, ◌-◌, ◌%◌, ◌^◌, Bool, true, false, Option, none, some, List, [], ◌∷◌,
  if◌then◌else◌, ◌==◌, length,
}
use virthub.Common.Result.{Result, ok, err}
use virthub.Precision.Policy.{PackedBlockPolicy}
use virthub.Eviction.{KvBlockKey}

pub data PspKvFormat : Type 0 where
  basic enhanced bt_kv : PspKvFormat

unfoldable pub from_u8 : ℕ → PspKvFormat
from_u8 v = if v == 0 then basic else if v == 1 then enhanced else if v == 2 then bt_kv else basic

-- The discriminant of a format.
unfoldable pub as_u8 : PspKvFormat → ℕ
as_u8 basic = 0
as_u8 enhanced = 1
as_u8 bt_kv = 2

pub record PspKvSidecarDescriptor : Type 0 where
  pub data_page_base_ptr : ℕ
  pub residual_page_ptr : ℕ
  pub head_presence_mask : ℕ
  pub base_precision : ℕ
  pub compression_level : ℕ
  pub head_group_size : ℕ
  pub reserved_flags : ℕ
  pub per_head_scale_e8m0 : List ℕ
  pub reserved_padding : List ℕ

abbrev replicate : ℕ → ℕ → List ℕ
replicate zero x = []
replicate (suc n) x = x ∷ replicate n x

abbrev pub default_sidecar : PspKvSidecarDescriptor
default_sidecar = record {
  data_page_base_ptr = 0;
  residual_page_ptr = 0;
  head_presence_mask = 0xFFFFFFFFFFFFFFFF;
  base_precision = 0;
  compression_level = 0;
  head_group_size = 1;
  reserved_flags = 0;
  per_head_scale_e8m0 = replicate 8 0;
  reserved_padding = replicate 28 0;
}

-- The errors of a block's operations; the encoding's own error is the parameter `E`.
pub data KvBlockError (E : Type 0) : Type 0 where
  checksum_mismatch : (expected computed : ℕ) → KvBlockError E
  serialization_failed : E → KvBlockError E

pub record KvBlockHeader : Type 0 where
  pub key : KvBlockKey
  pub payload_len : ℕ
  pub checksum : ℕ
  pub flags : ℕ

pub record KvBlock : Type 0 where
  pub header : KvBlockHeader
  pub payload : List ℕ
  pub ref_count : ℕ
  pub precision_policy : Option PackedBlockPolicy
  pub sidecar : Option PspKvSidecarDescriptor

-- The cells of the reference counters: those below `next` are in use.
pub record Counters : Type 0 where
  pub next : ℕ
  pub count : ℕ → ℕ

unfoldable pub new_counter : Counters → Counters × ℕ
new_counter h = (
  record { next = h.next + 1; count = λ cell. if cell == h.next then 1 else h.count cell },
  h.next,
)

-- `fetch_add(1)` and `fetch_sub(1)` on a u32, which wraps; the latter returns the value before it.
unfoldable pub retain : Counters → KvBlock → Counters
retain h b = record h {
  count = λ cell. if cell == b.ref_count then (h.count cell + 1) % 2 ^ 32 else h.count cell;
}

unfoldable pub release : Counters → KvBlock → Counters × ℕ
release h b = (
  record h {
    count = λ cell.
        if cell == b.ref_count then (h.count cell + (2 ^ 32 - 1)) % 2 ^ 32 else h.count cell;
  },
  h.count b.ref_count,
)

-- What is encoded of a block, in this order.
pub record Parts : Type 0 where
  pub header : KvBlockHeader
  pub payload : List ℕ
  pub precision_policy : Option PackedBlockPolicy
  pub sidecar : Option PspKvSidecarDescriptor

abbrev pub parts_of : KvBlock → Parts
parts_of b = record {
  header = b.header;
  payload = b.payload;
  precision_policy = b.precision_policy;
  sidecar = b.sidecar;
}

abbrev pub block_of : Parts → ℕ → KvBlock
block_of p cell = record {
  header = p.header;
  payload = p.payload;
  ref_count = cell;
  precision_policy = p.precision_policy;
  sidecar = p.sidecar;
}

unfoldable pub set_precision_policy : KvBlock → Option PackedBlockPolicy → KvBlock
set_precision_policy b policy = record b { precision_policy = policy }

unfoldable pub set_sidecar : KvBlock → Option PspKvSidecarDescriptor → KvBlock
set_sidecar b sidecar = record b { sidecar = sidecar }

-- What a caller does with the slice of `payload_mut`: bytes change, the header does not.
unfoldable pub payload_mut : KvBlock → (List ℕ → List ℕ) → KvBlock
payload_mut b change = record b { payload = change b.payload }

module _ (hash : List ℕ → ℕ) where
  unfoldable pub new : Counters → KvBlockKey → List ℕ → Counters × KvBlock
  unfolding new_counter
  new h key payload =
      let (h', cell) = new_counter h in
      (
        h',
        record {
          header = record {
            key = key;
            payload_len = length payload % 2 ^ 32;
            checksum = hash payload;
            flags = 0;
          };
          payload = payload;
          ref_count = cell;
          precision_policy = none;
          sidecar = none;
        },
      )

  unfoldable pub new_with_policy :
      Counters
      → KvBlockKey
      → List ℕ
      → Option PackedBlockPolicy
      → Option PspKvSidecarDescriptor
      → Counters × KvBlock
  unfolding new
  new_with_policy h key payload policy sidecar =
      let (h', b) = new h key payload in
      (h', record b { precision_policy = policy; sidecar = sidecar })

  unfoldable pub verify_checksum : {E : Type 0} → KvBlock → Result (KvBlockError E) (Unit {0})
  verify_checksum b =
      let computed = hash b.payload in
      if computed == b.header.checksum
      then ok tt
      else err (checksum_mismatch b.header.checksum computed)

  unfoldable pub update_checksum : KvBlock → KvBlock
  update_checksum b = record b {
    header = record (b.header) {
      checksum = hash b.payload;
      payload_len = length b.payload % 2 ^ 32;
    };
  }

unfoldable pub serialize :
    {E : Type 0} → (Parts → Result E (List ℕ)) → KvBlock → Result (KvBlockError E) (List ℕ)
serialize encode b = elim (encode (parts_of b)) [
  | err e ↦ err (serialization_failed e)
  | ok bytes ↦ ok bytes
]

module _ {E : Type 0} (hash : List ℕ → ℕ) where
  -- A block of the parts that were read, with a counter of its own.
  unfoldable pub from_parts : Counters → Parts → Counters × Result (KvBlockError E) KvBlock
  unfolding new_counter verify_checksum
  from_parts h p =
      let (h', cell) = new_counter h in
      let b = block_of p cell in
      (h', elim (verify_checksum hash {E = E} b) [ err e ↦ err e | ok _ ↦ ok b ])

  unfoldable pub deserialize :
      (List ℕ → Result E Parts) → Counters → List ℕ → Counters × Result (KvBlockError E) KvBlock
  unfolding from_parts
  deserialize decode h bytes = elim (decode bytes) [
    | err e ↦ (h, err (serialization_failed e))
    | ok p ↦ from_parts h p
  ]

  -- The loop of `deserialize_batch`.
  unfoldable pub all_from_parts :
      Counters → List Parts → Counters × Result (KvBlockError E) (List KvBlock)
  unfolding from_parts
  all_from_parts h [] = (h, ok [])
  all_from_parts h (p ∷ ps) =
      let (h1, first) = from_parts h p in
      let (h2, others) = all_from_parts h1 ps in
      elim first [
        | err e ↦ (h1, err e)
        | ok b ↦ (h2, elim others [ err e ↦ err e | ok bs ↦ ok (b ∷ bs) ])
      ]

  unfoldable pub deserialize_batch :
      (List ℕ → Result E (List Parts))
      → Counters
      → List ℕ
      → Counters × Result (KvBlockError E) (List KvBlock)
  unfolding all_from_parts
  deserialize_batch decode h bytes = elim (decode bytes) [
    | err e ↦ (h, err (serialization_failed e))
    | ok ps ↦ all_from_parts h ps
  ]
