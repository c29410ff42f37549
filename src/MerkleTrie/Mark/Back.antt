-- ===== src/MerkleTrie/Mark/Back.antt =====
-- Marks for deletion on whole tries (MerkleTrie/Mark), and taking them back.
use speedex_parallelize.Base.{
  ℕ, ◌+◌, ◌-◌, ◌%◌, ◌^◌, ◌≡◌, refl, sym, ap, ◌∙◌, inl, inr, some, List, [], ◌∷◌, arith, ◌==◌,
  Bool-cases, length,
}
use speedex_parallelize.MerkleTrie.{Node, Entry}
use speedex_parallelize.Xdr.{Offer}
use speedex_parallelize.MerkleTrie.Invariant.{entries, IsWellFormed}
use speedex_parallelize.MerkleTrie.Keys.{same_key}
use speedex_parallelize.MerkleTrie.Mark.Counts.{exchange_at, find_counted}
use speedex_parallelize.MerkleTrie.Mark.Laws.{mark_node-Changed}
use speedex_parallelize.MerkleTrie.Mark.{mark_node, mark_for_deletion, unmark_for_deletion}

-- A mark that was set can be taken back.
exchange_at_back :
    (key : List ℕ) (v : Offer) (es : List Entry)
    → find_counted 0 key es ≡ some v
    → (find_counted 1 key (exchange_at 0 1 key es) ≡ some v)
      × (exchange_at 1 0 key (exchange_at 0 1 key es) ≡ es)
exchange_at_back key v [] found = cc
exchange_at_back key v (e ∷ es) found = elim (Bool-cases (same_key key e.key)) [
  | inl same ↦ elim (Bool-cases (e.metadata.num_deleted_subnodes == 0)) [
    | inl is_unmarked ↦
        let is_0 : e.metadata.num_deleted_subnodes ≡ 0 = ground arith in
        let v' : some e.value ≡ some v = ground (arith, found) in
        rw (same, is_unmarked, same)
          (
            v',
            ap (λ k. record e { metadata = record e.metadata { num_deleted_subnodes = k } } ∷ es)
                (sym is_0),
          )
    | inr other ↦ absurd (ground (arith, found))
  ]
  | inr apart ↦
      let found' : find_counted 0 key es ≡ some v = ground (arith, found) in
      let (l, r) = exchange_at_back key v es found' in rw (apart, apart) (l, ap (λ t. e ∷ t) r)
]

mark_fits : (0 + 1) % 2 ^ 32 ≡ 1 % 2 ^ 32
mark_fits = refl

unmark_fits : (1 + (2 ^ 32 - 1)) % 2 ^ 32 ≡ 0 % 2 ^ 32
unmark_fits = refl

-- Take a trie that is not empty, with keys of `len` digits, and a key of that length. Then `mark_for_deletion` leaves
-- a trie again; its entries are the same, but that the count of the one at the key, if it was 0, is 1; and it returns the offer
-- at the key if the count was 0, and nothing if it was not or if no entry has the key.
pub mark_for_deletion_lem :
    (len : ℕ) (key : List ℕ) (root : Node)
    → length key ≡ len
    → IsWellFormed len root
    → IsWellFormed len (mark_for_deletion key root).node
      × (entries (mark_for_deletion key root).node ≡ exchange_at 0 1 key (entries root))
      × ((mark_for_deletion key root).deleted_obj ≡ find_counted 0 key (entries root))
unfolding mark_for_deletion
mark_for_deletion_lem len key root full w =
    let h = mark_node-Changed len 0 1 1 key mark_fits full root w in
    (h.well_formed, h.held, h.value)

-- Take a trie that is not empty, with keys of `len` digits, and a key of that length. When
-- `mark_for_deletion` returns an offer, `unmark_for_deletion` of the same key returns it again, and
-- gives back the entries that the trie had.
pub unmark_for_deletion-mark_for_deletion :
    (len : ℕ) (key : List ℕ) (root : Node) (offer : Offer)
    → length key ≡ len
    → IsWellFormed len root
    → (mark_for_deletion key root).deleted_obj ≡ some offer
    → ((unmark_for_deletion key (mark_for_deletion key root).node).deleted_obj ≡ some offer)
      × (entries (unmark_for_deletion key (mark_for_deletion key root).node).node ≡ entries root)
unfolding mark_for_deletion unmark_for_deletion
unmark_for_deletion-mark_for_deletion len key root offer full w found =
    let h = mark_node-Changed len 0 1 1 key mark_fits full root w in
    let g =
      mark_node-Changed len 1 0 (2 ^ 32 - 1) key unmark_fits full (mark_node 0 1 1 key root).node
        h.well_formed in
    let (value, held) = exchange_at_back key offer (entries root) (sym h.value ∙ found) in
    (
      g.value ∙ ap (find_counted 1 key) h.held ∙ value,
      g.held ∙ ap (exchange_at 1 0 key) h.held ∙ held,
    )
