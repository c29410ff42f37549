-- ===== src/MerkleTrie/Sweep/Wrappers.antt =====
-- `MerkleTrie::perform_marked_deletions` and `MerkleTrie::do_rollback` (MerkleTrie/Sweep) on whole tries.
use speedex_parallelize.Base.{
  ℕ, ◌+◌, ◌%◌, ◌^◌, ◌≤◌, ◌<◌, ◌≡◌, refl, sym, ap, ◌∙◌, ◌≢◌, inl, inr, true, some, List, [], ◌∷◌,
  arith, ◌==◌, Bool-cases, length,
}
use speedex_parallelize.MerkleTrie.{
  new_metadata, Metadata, no_metadata, add, Node, leaf, make_empty_node, metadata_of, contract,
  Entry,
}
use speedex_parallelize.Xdr.{Offer}
use speedex_parallelize.MerkleTrie.Invariant.{entries, IsWellFormed, IsTrie}
use speedex_parallelize.MerkleTrie.Keys.{same_key_refl, find_value}
use speedex_parallelize.MerkleTrie.Loose.{contract-IsWellFormed, entries-contract}
use speedex_parallelize.MerkleTrie.Totals.{totals, metadata_of-totals}
use speedex_parallelize.MerkleTrie.Sweep.Marks.{
  unmarked_entries, marked_offers, AreMarks, AreUnmarked, unmarked_entries-AreUnmarked,
}
use speedex_parallelize.MerkleTrie.Sweep.{sweep_leaf, sweep, perform_marked_deletions, do_rollback}
use speedex_parallelize.MerkleTrie.Sweep.Laws.{sweep-SweptNode}
use speedex_parallelize.MerkleTrie.Insert.{insert_branch, insert_node}

-- The two counts of the metadata.
abbrev pub deleted : Metadata → ℕ
deleted m = m.num_deleted_subnodes

abbrev pub rolled_back : Metadata → ℕ
rolled_back m = m.num_rollback_subnodes

-- How many entries a count marks.
abbrev count_marks : (Metadata → ℕ) → List Entry → ℕ
count_marks marks [] = 0
count_marks marks (e ∷ es) = marks e.metadata + count_marks marks es

count_marks-le :
    (marks : Metadata → ℕ) (es : List Entry) → AreMarks marks es → count_marks marks es ≤ length es
count_marks-le marks [] a = omega arith
count_marks-le marks (e ∷ es) (le, a) = omega (arith, le, count_marks-le marks es a)

count_marks_none :
    (marks : Metadata → ℕ) (es : List Entry) → count_marks marks es ≡ 0 → AreUnmarked marks es
count_marks_none marks [] z = tt
count_marks_none marks (e ∷ es) z = (omega (arith, z), count_marks_none marks es (omega (arith, z)))

totals-deleted : (es : List Entry) → deleted (totals es) ≡ count_marks deleted es % 2 ^ 32
unfolding add
totals-deleted [] = refl
totals-deleted (e ∷ es) = omega (arith, totals-deleted es)

totals-rolled_back :
    (es : List Entry) → rolled_back (totals es) ≡ count_marks rolled_back es % 2 ^ 32
unfolding add
totals-rolled_back [] = refl
totals-rolled_back (e ∷ es) = omega (arith, totals-rolled_back es)

deleted_tells :
    (es : List Entry)
    → AreMarks deleted es
    → length es < 2 ^ 32
    → deleted (totals es) ≡ 0
    → AreUnmarked deleted es
deleted_tells es a few z =
    count_marks_none deleted es
      (omega (arith, few, z, totals-deleted es, count_marks-le deleted es a))

rolled_back_tells :
    (es : List Entry)
    → AreMarks rolled_back es
    → length es < 2 ^ 32
    → rolled_back (totals es) ≡ 0
    → AreUnmarked rolled_back es
rolled_back_tells es a few z =
    count_marks_none rolled_back es
      (omega (arith, few, z, totals-rolled_back es, count_marks-le rolled_back es a))

-- The count of a root is 0 only when no entry is marked.
root_tells :
    (len : ℕ) (n : Node)
    → IsWellFormed len n
    → AreMarks deleted (entries n)
    → length (entries n) < 2 ^ 32
    → (deleted (metadata_of n) == 0) ≡ true
    → AreUnmarked deleted (entries n)
unfolding add
root_tells len n w a few z =
    let e = ap deleted (metadata_of-totals len n no_metadata w) in
    let none_marked : deleted (metadata_of n) ≡ 0 = ground arith in
    deleted_tells (entries n) a few (omega (arith, none_marked, e, totals-deleted (entries n)))

-- Take a trie, empty or not, with keys of `len` digits and fewer than 2 ^ 32 entries, each with a
-- count of deletions of 0 or 1. Then `MerkleTrie::perform_marked_deletions` does not throw, leaves
-- a trie again with just the entries whose count is 0, in the same order, and gives the handler of
-- side effects the keys and offers of the others, in order.
pub perform_marked_deletions_lem :
    (len : ℕ) (root : Node)
    → IsTrie len root
    → AreMarks deleted (entries root)
    → length (entries root) < 2 ^ 32
    → (root' : Node) × (perform_marked_deletions root
        ≡ some (root', marked_offers deleted (entries root)))
      × IsTrie len root'
      × (entries root' ≡ unmarked_entries deleted (entries root))
unfolding perform_marked_deletions contract
perform_marked_deletions_lem len root (inl e) a few = rw e (make_empty_node, refl, inl refl, refl)
perform_marked_deletions_lem len root (inr w) a few =
    elim (Bool-cases (deleted (metadata_of root) == 0)) [
      | inl z ↦
          let (l, r) =
            unmarked_entries-AreUnmarked deleted (entries root) (root_tells len root w a few z) in
          (root, rw (z, r) refl, inr w, sym l)
      | inr nz ↦
          let s = sweep-SweptNode len deleted deleted_tells root w a few in
          elim s.rest [
            | inl g ↦ (make_empty_node, rw (nz, s.run, g.gone, s.log) refl, inl refl, sym g.nothing)
            | inr k ↦ (
              contract s.swept.node,
              rw (nz, s.run, k.kept, s.log) refl,
              inr (contract-IsWellFormed len s.swept.node k.loose),
              entries-contract s.swept.node ∙ k.held,
            )
          ]
    ]

-- Take a trie with keys of `len` digits and fewer than 2 ^ 32 entries, each with a count of
-- rollbacks of 0 or 1, and at least one of 0. Then `MerkleTrie::do_rollback` does not throw, and
-- leaves a trie again with just the entries whose count is 0, in the same order.
pub do_rollback_lem :
    (len : ℕ) (root : Node)
    → IsWellFormed len root
    → AreMarks rolled_back (entries root)
    → length (entries root) < 2 ^ 32
    → unmarked_entries rolled_back (entries root) ≢ []
    → (root' : Node) × (do_rollback root ≡ some root')
      × IsWellFormed len root'
      × (entries root' ≡ unmarked_entries rolled_back (entries root))
unfolding do_rollback
do_rollback_lem len root w a few some_stay =
    let s = sweep-SweptNode len rolled_back rolled_back_tells root w a few in
    elim s.rest [
      | inl g ↦ absurd (some_stay g.nothing)
      | inr k ↦ (
        contract s.swept.node,
        rw s.run refl,
        contract-IsWellFormed len s.swept.node k.loose,
        entries-contract s.swept.node ∙ k.held,
      )
    ]

-- Insert an offer into an empty trie as one that a rollback is to undo, whatever the key and the
-- offer. `MerkleTrie::do_rollback` then leaves the trie as it is, with the offer in it.
pub do_rollback-insert_node_empty :
    (key : List ℕ) (offer : Offer) (root : Node) (delta : Metadata)
    → insert_node true key offer make_empty_node ≡ some (root, delta)
    → (do_rollback root ≡ some root) × (find_value key (entries root) ≡ some offer)
unfolding do_rollback insert_node insert_branch sweep contract sweep_leaf new_metadata add
do_rollback-insert_node_empty key offer root delta run =
    let e : leaf key (add no_metadata (new_metadata true offer)) offer ≡ root = cc in
    rw (← e) (refl, rw (same_key_refl key) refl)
