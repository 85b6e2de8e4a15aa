-- ===== src/Radix/Reads.antt =====
-- What one insertion into the tree of src/index/src/radix_tree.rs changes for lookups.
use virthub.Common.{
  ℕ, zero, suc, ◌≡◌, refl, Bool, true, false, some, if◌then◌else◌, ◌==◌, arith, Bool-cases,
  Option-cases, inl, inr, subst,
}
use virthub.Common.Result.{Result, ok, err}
use virthub.Radix.{
  Node, branch, leaf, Children, end, child, new_branch, get_child, insert_child, RadixLeafValue,
  Inserted, RadixTreeError, address_unmapped, insert_from, lookup_from,
}
use virthub.Radix.Paths.{chunk_at, same_path}

abbrev pub AllChildren : (Node → Type 0) → Children → Type 0
AllChildren P end = Unit
AllChildren P (child k n cs) = P n × AllChildren P cs

-- Every path of the node has `left` levels and ends in a leaf.
abbrev pub IsTree : ℕ → Node → Type 0
IsTree zero (leaf v) = Unit
IsTree zero (branch cs) = ⊥
IsTree (suc left) (leaf v) = ⊥
IsTree (suc left) (branch cs) = AllChildren (IsTree left) cs

get_child-AllChildren :
    (P : Node → Type 0) (cs : Children) (k : ℕ) (n : Node)
    → AllChildren P cs
    → get_child cs k ≡ some n
    → P n
unfolding get_child
get_child-AllChildren P end k n h e = absurd (ground arith)
get_child-AllChildren P (child j m cs) k n h e = elim (Bool-cases (j == k)) [
  | inl same ↦ subst P (ground (arith, same, e)) h.0
  | inr other ↦ get_child-AllChildren P cs k n h.1 (ground (arith, other, e))
]

insert_child-AllChildren :
    (P : Node → Type 0) (cs : Children) (k : ℕ) (n : Node)
    → AllChildren P cs
    → P n
    → AllChildren P (insert_child cs k n)
unfolding insert_child
insert_child-AllChildren P end k n h p = (p, tt)
insert_child-AllChildren P (child j m cs) k n h p = elim (Bool-cases (j == k)) [
  | inl same ↦ ground (arith, same, h, p)
  | inr other ↦ ground (arith, other, h, insert_child-AllChildren P cs k n h.1 p)
]

get_child-insert_child :
    (cs : Children) (k j : ℕ) (n : Node)
    → get_child (insert_child cs k n) j ≡ (if k == j then some n else get_child cs j)
unfolding get_child insert_child
get_child-insert_child end k j n = refl
get_child-insert_child (child i m cs) k j n = ground (arith, get_child-insert_child cs k j n)

abbrev pub is_ok : Result RadixTreeError RadixLeafValue → Bool
is_ok (ok v) = true
is_ok (err e) = false

-- What an insertion at `a` does to a tree with `left` levels.
pub record Writes (left a : ℕ) (v : RadixLeafValue) (before : Node) (done : Inserted) : Type 0 where
  pub tree : IsTree left done.node
  pub succeeds : done.result ≡ ok tt
  pub counts : done.added ≡ (if is_ok (lookup_from left a before) then 0 else 1)
  pub reads :
      (b : ℕ)
      → lookup_from left b done.node
        ≡ (if same_path left a b then ok v else lookup_from left b before)

lookup_from-new_branch :
    (left b : ℕ) → lookup_from (suc left) b new_branch ≡ err (address_unmapped b)
unfolding lookup_from get_child
lookup_from-new_branch left b = refl

leaf_reads : (a : ℕ) (n : Node) → IsTree zero n → is_ok (lookup_from zero a n) ≡ true
unfolding lookup_from
leaf_reads a (leaf v) h = refl
leaf_reads a (branch cs) h = absurd h

-- The last level.
insert_leaf-Writes :
    (a : ℕ) (v : RadixLeafValue) (cs : Children)
    → IsTree 1 (branch cs)
    → Writes 1 a v (branch cs) (insert_from 1 a v (branch cs))
unfolding insert_from lookup_from same_path
insert_leaf-Writes a v cs h = record {
  tree = insert_child-AllChildren (IsTree zero) cs (chunk_at 1 a) (leaf v) h tt;
  succeeds = refl;
  counts = elim (Option-cases (get_child cs (chunk_at 1 a))) [
    | inl missing ↦ ground (arith, missing)
    | inr (n, found) ↦
        let full =
          leaf_reads a n (get_child-AllChildren (IsTree zero) cs (chunk_at 1 a) n h found) in
        ground (arith, found, full)
  ];
  reads = λ b. ground (arith, get_child-insert_child cs (chunk_at 1 a) (chunk_at 1 b) (leaf v));
}

-- A level above, from what the insertion does to the child below.
insert_branch-Writes :
    (left a : ℕ) (v : RadixLeafValue) (cs : Children) (below : Node)
    → IsTree (suc (suc left)) (branch cs)
    → ((b : ℕ)
        → (chunk_at (suc (suc left)) a == chunk_at (suc (suc left)) b) ≡ true
        → lookup_from (suc (suc left)) b (branch cs) ≡ lookup_from (suc left) b below)
    → Writes (suc left) a v below (insert_from (suc left) a v below)
    → let done = insert_from (suc left) a v below in
      Writes
        (suc (suc left))
        a
        v
        (branch cs)
        (record done { node = branch (insert_child cs (chunk_at (suc (suc left)) a) done.node) })
unfolding lookup_from same_path
insert_branch-Writes left a v cs below h same w =
    let done = insert_from (suc left) a v below in
    let k = chunk_at (suc (suc left)) a in
    record {
      tree = insert_child-AllChildren (IsTree (suc left)) cs k done.node h w.tree;
      succeeds = w.succeeds;
      counts = ground (arith, w.counts, same a);
      reads = λ b. ground (
        arith,
        get_child-insert_child cs k (chunk_at (suc (suc left)) b) done.node,
        w.reads b,
        same b,
      );
    }

pub insert_from-Writes :
    (left a : ℕ) (v : RadixLeafValue) (before : Node)
    → IsTree (suc left) before
    → Writes (suc left) a v before (insert_from (suc left) a v before)
unfolding insert_from lookup_from
insert_from-Writes left a v (leaf w) h = absurd h
insert_from-Writes zero a v (branch cs) h = insert_leaf-Writes a v cs h
insert_from-Writes (suc left) a v (branch cs) h =
    elim (Option-cases (get_child cs (chunk_at (suc (suc left)) a))) [
      | inl missing ↦
          let rest = insert_from-Writes left a v new_branch tt in
          rw missing (
            insert_branch-Writes left a v cs new_branch h
              (λ b e. ground (arith, e, missing, lookup_from-new_branch left b)) rest)
      | inr (n, found) ↦
          let kept = get_child-AllChildren (IsTree (suc left)) cs _ n h found in
          let rest = insert_from-Writes left a v n kept in
          rw found (insert_branch-Writes left a v cs n h (λ b e. ground (arith, e, found)) rest)
    ]
