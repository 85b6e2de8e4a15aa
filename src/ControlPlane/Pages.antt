-- ===== src/ControlPlane/Pages.antt =====
-- The page entries of src/klnk/klnk-core/src/control_plane.rs: versions, readers and batches.
use virthub.Common.{
  ℕ, ◌+◌, ◌%◌, ◌≡◌, ◌<◌, refl, ap, ap₂, ◌∙◌, Bool, false, ◌&&◌, ◌||◌, not, Option, none, some, List,
  [], ◌∷◌, ◌++◌, map, if◌then◌else◌, ◌==◌, arith, Bool-cases, Option-cases, inl, inr,
}
use virthub.Common.Map
use virthub.Common.Word.{add64, u64_mod}
use virthub.Domain.{DistributedPageEntry, PageCoherenceState}
use virthub.ControlPlane.{
  ControlPlaneManager, contains, retain_ne, is_exclusive, updated_entry, update_page_state,
  add_reader, remove_reader, set_page_metadata, update_page_states_batch, add_readers_batch,
  remove_readers_batch, get_page_version, get_readers,
}
use virthub.ControlPlane.Locks.{NoDup, NoDup-snoc}

-- The calls that work on one page, and what they return.
pub data PageCall : Type 0 where
  set_state : ℕ → PageCoherenceState → ℕ → PageCall
  add_node remove_node : ℕ → ℕ → PageCall
  set_metadata : ℕ → List ℕ → PageCall

unfoldable pub page_call : ControlPlaneManager → PageCall → ControlPlaneManager × Bool
page_call c (set_state a s o) = update_page_state c a s o
page_call c (add_node a n) = add_reader c a n
page_call c (remove_node a n) = remove_reader c a n
page_call c (set_metadata a m) = set_page_metadata c a m

unfoldable pub run_pages : ControlPlaneManager → List PageCall → ControlPlaneManager
unfolding page_call
run_pages c [] = c
run_pages c (call ∷ calls) = run_pages (page_call c call).0 calls

-- Whether a call makes the page `a` exclusive, and how many of a sequence do.
abbrev pub is_write : ℕ → PageCall → ℕ
is_write a (set_state b s o) = if b == a then (if is_exclusive s then 1 else 0) else 0
is_write a _ = 0

abbrev pub count_writes : ℕ → List PageCall → ℕ
count_writes a [] = 0
count_writes a (call ∷ calls) = is_write a call + count_writes a calls

-- The entry of a page is well formed: its version is a u64 and no reader stands twice in it.
abbrev pub IsEntry : DistributedPageEntry → Type 0
IsEntry e = (e.version < u64_mod) × NoDup e.replica_holders

abbrev pub IsPages : ControlPlaneManager → Type 0
IsPages c = (a : ℕ) → elim (c.page_states a) [ none ↦ Unit {0} | some e ↦ IsEntry e ]

contains-retain_ne :
    (n m : ℕ) (xs : List ℕ) → contains xs m ≡ false → contains (retain_ne n xs) m ≡ false
unfolding contains retain_ne
contains-retain_ne n m [] h = refl
contains-retain_ne n m (x ∷ xs) h = ground (arith, contains-retain_ne n m xs)

NoDup-retain_ne : (n : ℕ) (xs : List ℕ) → NoDup xs → NoDup (retain_ne n xs)
unfolding retain_ne
NoDup-retain_ne n [] h = tt
NoDup-retain_ne n (x ∷ xs) h = ground (arith, NoDup-retain_ne n xs, contains-retain_ne n x xs)

-- The entry that a call leaves at the page it names, and the page.
abbrev pub target : PageCall → ℕ
target (set_state a s o) = a
target (add_node a n) = a
target (remove_node a n) = a
target (set_metadata a m) = a

-- How the entry at `a` follows from the one before a call.
abbrev Follows : ℕ → PageCall → Option DistributedPageEntry → Option DistributedPageEntry → Type 0
Follows a call none none = Unit
Follows a call (some e) (some e') =
    (IsEntry e → IsEntry e')
    × (e'.version ≡ (if is_write a call == 0 then e.version else add64 e.version 1))
Follows a call none (some e') = ⊥
Follows a call (some e) none = ⊥

pub page_call-Follows :
    (c : ControlPlaneManager) (call : PageCall) (a : ℕ)
    → Follows a call (c.page_states a) ((page_call c call).0.page_states a)
unfolding page_call is_exclusive
page_call-Follows c (set_state b s o) a = unfold update_page_state updated_entry in ground arith
page_call-Follows c (add_node b n) a = elim (Option-cases (c.page_states b)) [
  | inl z ↦ unfold add_reader in ground (arith, z)
  | inr (e, z) ↦ elim (Bool-cases (contains e.replica_holders n)) [
    | inl w ↦ unfold add_reader in ground (arith, z, w)
    | inr w ↦ unfold add_reader in ground (arith, z, w, NoDup-snoc e.replica_holders n)
  ]
]
page_call-Follows c (remove_node b n) a = elim (Option-cases (c.page_states b)) [
  | inl z ↦ unfold remove_reader in ground (arith, z)
  | inr (e, z) ↦ unfold remove_reader in ground (arith, z, NoDup-retain_ne n e.replica_holders)
]
page_call-Follows c (set_metadata b m) a = unfold set_page_metadata in ground arith

pub page_call-IsPages :
    (c : ControlPlaneManager) (call : PageCall) → IsPages c → IsPages (page_call c call).0
page_call-IsPages c call h a = ground (arith, h a, page_call-Follows c call a)

pub run_pages-IsPages :
    (c : ControlPlaneManager) (calls : List PageCall) → IsPages c → IsPages (run_pages c calls)
unfolding run_pages
run_pages-IsPages c [] h = h
run_pages-IsPages c (call ∷ calls) h =
    run_pages-IsPages (page_call c call).0 calls (page_call-IsPages c call h)

is_write_le : (a : ℕ) (call : PageCall) → is_write a call < 2
is_write_le a (set_state b s o) = ground arith
is_write_le a (add_node b n) = omega arith
is_write_le a (remove_node b n) = omega arith
is_write_le a (set_metadata b m) = omega arith

page_call-version :
    (c : ControlPlaneManager) (call : PageCall) (a v : ℕ)
    → v < u64_mod
    → get_page_version c a ≡ some v
    → get_page_version (page_call c call).0 a ≡ some ((v + is_write a call) % u64_mod)
unfolding get_page_version
page_call-version c call a v lt h =
    ground (arith, h, page_call-Follows c call a, is_write_le a call)

-- After any sequence of calls on pages, the version of a page with an entry has grown by the number
-- of the calls that made it exclusive, as a u64 that wraps.
pub run_pages-version :
    (c : ControlPlaneManager) (calls : List PageCall) (a v : ℕ)
    → v < u64_mod
    → get_page_version c a ≡ some v
    → get_page_version (run_pages c calls) a ≡ some ((v + count_writes a calls) % u64_mod)
unfolding run_pages
run_pages-version c [] a v lt h = h ∙ ap some (omega arith)
run_pages-version c (call ∷ calls) a v lt h =
    let v' = (v + is_write a call) % u64_mod in
    run_pages-version (page_call c call).0 calls a v' (omega arith)
      (page_call-version c call a v lt h)
    ∙ ap some (omega arith)

-- Whether the node `n` reads the page `a` after a call, from whether it did before.
abbrev pub reads_after : ℕ → ℕ → PageCall → Bool → Bool
reads_after a n (set_state b s o) r = if b == a && is_exclusive s then false else r
reads_after a n (add_node b m) r = r || (b == a && m == n)
reads_after a n (remove_node b m) r = r && not (b == a && m == n)
reads_after a n (set_metadata b m) r = r

abbrev pub reads_at_end : ℕ → ℕ → List PageCall → Bool → Bool
reads_at_end a n [] r = r
reads_at_end a n (call ∷ calls) r = reads_at_end a n calls (reads_after a n call r)

-- Whether a page has an entry, and a node among its readers.
abbrev pub Reads : ControlPlaneManager → ℕ → ℕ → Bool → Type 0
Reads c a n r = elim (get_readers c a) [ none ↦ ⊥ | some xs ↦ contains xs n ≡ r ]

contains-append_one :
    (xs : List ℕ) (m n : ℕ) → contains (xs ++ (m ∷ [])) n ≡ (contains xs n || m == n)
unfolding contains
contains-append_one [] m n = ground arith
contains-append_one (x ∷ xs) m n = ground (arith, contains-append_one xs m n)

contains-retain_ne_one :
    (xs : List ℕ) (m n : ℕ) → contains (retain_ne m xs) n ≡ (contains xs n && not (m == n))
unfolding contains retain_ne
contains-retain_ne_one [] m n = refl
contains-retain_ne_one (x ∷ xs) m n = ground (arith, contains-retain_ne_one xs m n)

page_call-Reads :
    (c : ControlPlaneManager) (call : PageCall) (a n : ℕ) (r : Bool)
    → Reads c a n r
    → Reads (page_call c call).0 a n (reads_after a n call r)
unfolding page_call get_readers is_exclusive
page_call-Reads c (set_state b s o) a n r h =
    unfold update_page_state updated_entry contains in ground (arith, h)
page_call-Reads c (set_metadata b m) a n r h = unfold set_page_metadata in ground (arith, h)
page_call-Reads c (add_node b m) a n r h = elim (Option-cases (c.page_states a)) [
  | inl z ↦ absurd (ground (arith, h, z))
  | inr (e, z) ↦
      unfold add_reader in ground (arith, h, z, contains-append_one e.replica_holders m n)
]
page_call-Reads c (remove_node b m) a n r h = elim (Option-cases (c.page_states a)) [
  | inl z ↦ absurd (ground (arith, h, z))
  | inr (e, z) ↦
      unfold remove_reader in ground (arith, h, z, contains-retain_ne_one e.replica_holders m n)
]

-- After any sequence of calls on pages, a node is among the readers of a page with an entry exactly
-- when the last calls that concern it left it there: adding it puts it in, removing it or making
-- the page exclusive takes it out.
pub run_pages-Reads :
    (c : ControlPlaneManager) (calls : List PageCall) (a n : ℕ) (r : Bool)
    → Reads c a n r
    → Reads (run_pages c calls) a n (reads_at_end a n calls r)
unfolding run_pages
run_pages-Reads c [] a n r h = h
run_pages-Reads c (call ∷ calls) a n r h =
    run_pages-Reads (page_call c call).0 calls a n (reads_after a n call r)
      (page_call-Reads c call a n r h)

-- A batch as calls: whether each page has an entry is what each call returns.
abbrev pub state_call : ℕ × PageCoherenceState × ℕ → PageCall
state_call (a, s, o) = set_state a s o

abbrev pub add_call : ℕ × ℕ → PageCall
add_call (a, n) = add_node a n

abbrev pub remove_call : ℕ × ℕ → PageCall
remove_call (a, n) = remove_node a n

abbrev pub exist : ControlPlaneManager → List PageCall → List Bool
exist c calls = map (λ call. Map.contains_key c.page_states (target call)) calls

page_call-exists :
    (c : ControlPlaneManager) (call : PageCall) (a : ℕ)
    → Map.contains_key (page_call c call).0.page_states a ≡ Map.contains_key c.page_states a
page_call-exists c call a = ground (arith, page_call-Follows c call a)

exist-page_call :
    (c : ControlPlaneManager) (call : PageCall) (calls : List PageCall)
    → exist (page_call c call).0 calls ≡ exist c calls
exist-page_call c call [] = refl
exist-page_call c call (x ∷ xs) =
    ap₂ ◌∷◌ (page_call-exists c call (target x)) (exist-page_call c call xs)

page_call-found :
    (c : ControlPlaneManager) (call : PageCall)
    → (page_call c call).1 ≡ Map.contains_key c.page_states (target call)
unfolding page_call
page_call-found c (set_state b s o) = unfold update_page_state in ground arith
page_call-found c (add_node b m) = unfold add_reader in ground arith
page_call-found c (remove_node b m) = unfold remove_reader in ground arith
page_call-found c (set_metadata b m) = unfold set_page_metadata in ground arith

-- The calls one after another, with what each returns.
unfoldable pub page_calls : ControlPlaneManager → List PageCall → ControlPlaneManager × List Bool
page_calls c [] = (c, [])
page_calls c (call ∷ calls) =
    let (c', done) = page_call c call in let (c'', rest) = page_calls c' calls in (c'', done ∷ rest)

page_calls-run :
    (c : ControlPlaneManager) (calls : List PageCall)
    → page_calls c calls ≡ (run_pages c calls, exist c calls)
unfolding page_calls run_pages
page_calls-run c [] = refl
page_calls-run c (call ∷ calls) =
    let rest = page_calls-run (page_call c call).0 calls in
    ap₂ (λ x y. (x, y)) (ap (λ p. p.0) rest)
      (ap₂ ◌∷◌ (page_call-found c call) (ap (λ p. p.1) rest ∙ exist-page_call c call calls))

update_page_states_batch-calls :
    (c : ControlPlaneManager) (us : List (ℕ × PageCoherenceState × ℕ))
    → update_page_states_batch c us ≡ page_calls c (map state_call us)
unfolding update_page_states_batch page_calls page_call
update_page_states_batch-calls c [] = refl
update_page_states_batch-calls c ((a, s, o) ∷ us) =
    let rest = update_page_states_batch-calls (update_page_state c a s o).0 us in
    ap (λ p. (p.0, (update_page_state c a s o).1 ∷ p.1)) rest

add_readers_batch-calls :
    (c : ControlPlaneManager) (us : List (ℕ × ℕ))
    → add_readers_batch c us ≡ page_calls c (map add_call us)
unfolding add_readers_batch page_calls page_call
add_readers_batch-calls c [] = refl
add_readers_batch-calls c ((a, n) ∷ us) =
    ap (λ p. (p.0, (add_reader c a n).1 ∷ p.1)) (add_readers_batch-calls (add_reader c a n).0 us)

remove_readers_batch-calls :
    (c : ControlPlaneManager) (us : List (ℕ × ℕ))
    → remove_readers_batch c us ≡ page_calls c (map remove_call us)
unfolding remove_readers_batch page_calls page_call
remove_readers_batch-calls c [] = refl
remove_readers_batch-calls c ((a, n) ∷ us) =
    ap (λ p. (p.0, (remove_reader c a n).1 ∷ p.1))
      (remove_readers_batch-calls (remove_reader c a n).0 us)

-- Each batch leaves the manager that its single calls leave one after another, and returns for each of
-- them whether the page had an entry when the batch began.
pub batches-run :
    (c : ControlPlaneManager) (us : List (ℕ × PageCoherenceState × ℕ)) (ns : List (ℕ × ℕ))
    → let states = map state_call us in
      let adds = map add_call ns in
      let removes = map remove_call ns in
      (update_page_states_batch c us ≡ (run_pages c states, exist c states))
      × (add_readers_batch c ns ≡ (run_pages c adds, exist c adds))
      × (remove_readers_batch c ns ≡ (run_pages c removes, exist c removes))
batches-run c us ns = (
  update_page_states_batch-calls c us ∙ page_calls-run c (map state_call us),
  add_readers_batch-calls c ns ∙ page_calls-run c (map add_call ns),
  remove_readers_batch-calls c ns ∙ page_calls-run c (map remove_call ns),
)
