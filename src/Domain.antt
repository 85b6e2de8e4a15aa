-- ===== src/Domain.antt =====
-- src/klnk/klnk-core/src/domain.rs: identifiers, region descriptors and page entries.
use virthub.Common.{
  ℕ, ◌-◌, ◌≡◌, ◌↔◌, Bool, true, ◌&&◌, not, Option, none, some, List, [], if◌then◌else◌, ltb, leb,
  ◌==◌, bit_and, arith, Eq,
}
use virthub.Common.Word.{add64}

-- `shmid` is the bit pattern of an i32.
pub record GlobalRegionId : Type 0 where
  pub owner_pid : ℕ
  pub shmid : ℕ

abbrev pub region_eq : GlobalRegionId → GlobalRegionId → Bool
region_eq a b = a.owner_pid == b.owner_pid && a.shmid == b.shmid

pub region_eq_iff : (a b : GlobalRegionId) → (region_eq a b ≡ true) ↔ (a ≡ b)
region_eq_iff a b = ground arith

instance abbrev pub region_id_eq : Eq GlobalRegionId
region_id_eq = record { beq = region_eq; beq_iff = region_eq_iff }

-- The values of `PROT_READ` and `PROT_WRITE` on Linux.
abbrev pub prot_read : ℕ
prot_read = 1

abbrev pub prot_write : ℕ
prot_write = 2

unfoldable pub can_read : ℕ → Bool
can_read flags = not (bit_and flags prot_read == 0)

unfoldable pub can_write : ℕ → Bool
can_write flags = not (bit_and flags prot_write == 0)

pub data PageCoherenceState : Type 0 where
  invalid shared_read exclusive_write in_flight : PageCoherenceState

pub record MemoryRegionDescriptor : Type 0 where
  pub region_id : GlobalRegionId
  pub main_vaddr : ℕ
  pub region_size : ℕ
  pub staging_vaddr : ℕ
  pub staging_num_pages : ℕ
  pub staging_page_size : ℕ
  pub prot_flags : ℕ
  pub mem_flags : ℕ
  pub version : ℕ

unfoldable pub contains_range : MemoryRegionDescriptor → ℕ → ℕ → Bool
contains_range d vaddr len =
    leb d.main_vaddr vaddr && leb (add64 vaddr len) (add64 d.main_vaddr d.region_size)

unfoldable pub offset_of : MemoryRegionDescriptor → ℕ → Option ℕ
offset_of d vaddr =
    if leb d.main_vaddr vaddr && ltb vaddr (add64 d.main_vaddr d.region_size)
    then some (vaddr - d.main_vaddr)
    else none

pub record DistributedPageEntry : Type 0 where
  pub page_vaddr : ℕ
  pub page_size : ℕ
  pub coherence_state : PageCoherenceState
  pub primary_owner : ℕ
  pub replica_holders : List ℕ
  pub version : ℕ
  pub metadata : List ℕ

unfoldable pub new_with_metadata : ℕ → ℕ → ℕ → List ℕ → DistributedPageEntry
new_with_metadata page_vaddr page_size owner metadata = record {
  page_vaddr = page_vaddr;
  page_size = page_size;
  coherence_state = invalid;
  primary_owner = owner;
  replica_holders = [];
  version = 0;
  metadata = metadata;
}

-- The socket address is a number here: it is only stored.
pub record RemoteEndpointInfo : Type 0 where
  pub node_id : ℕ
  pub socket_addr : ℕ
  pub metadata_vaddr : ℕ
  pub metadata_rkey : ℕ
  pub metadata_len : ℕ
  pub metadata_version : ℕ
  pub invalidation_vaddr : ℕ
  pub invalidation_rkey : ℕ
  pub invalidation_len : ℕ
  pub numa_node : ℕ
  pub supports_gdr : Bool
