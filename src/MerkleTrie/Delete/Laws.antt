-- ===== src/MerkleTrie/Delete/Laws.antt =====
-- What `perform_deletion` (MerkleTrie/Delete) does to the entries and to the invariant of a trie.
use speedex_parallelize.Base.{
  get_elem?-below, ℕ, ◌>>=◌, suc, ◌^◌, ◌≤◌, ◌<◌, ◌≡◌, refl, sym, ap, ◌∙◌, inl, inr, true, Option,
  none, some, List, [], ◌∷◌, arith, ◌==◌, Bool-cases, Option-cases, length, get_elem?,
}
use speedex_parallelize.MerkleTrie.{
  Metadata, match_len, Node, leaf, branch, Children, no_more, child, make_empty_node, contract,
  Entry,
}
use speedex_parallelize.MerkleTrie.Digits.{Starts, Continues, Starts-whole}
use speedex_parallelize.MerkleTrie.Invariant.{
  entries, entries_below, IsWellFormed, AreWellFormed, IsTrie, All-append,
}
use speedex_parallelize.MerkleTrie.Keys.{
  same_key, same_key_refl, find_value, remove, AreApart, parts-AreApart, child-AreApart,
  behind-AreApart,
}
use speedex_parallelize.MerkleTrie.Loose.{contract-IsWellFormed, entries-contract}
use speedex_parallelize.MerkleTrie.Totals.{AreCounted, size-positive}
use speedex_parallelize.MerkleTrie.Delete.{
  DeletionBelow, keep_child, delete_in, perform_deletion, deletion_below, delete_key,
}
use speedex_parallelize.MerkleTrie.Delete.Parts.{
  Shrunk, ShrunkBelow, not_found-Shrunk, replace_child-ShrunkBelow, keep_child-ShrunkBelow,
}

module _ (len : ℕ) (key : List ℕ) (full : length key ≡ len) where
  -- Either no entry below has the key, or the deletion is in one of the children.
  abbrev FoundBelow : List ℕ → ℕ → Children → Option DeletionBelow → Type 0
  FoundBelow p least cs none = AreApart key (entries_below cs)
  FoundBelow p least cs (some r) = ShrunkBelow len key p least cs r

  delete_in-Shrunk :
      (p : List ℕ) (m : Metadata) (cs : Children) (below : Option DeletionBelow)
      → IsWellFormed len (branch p m cs)
      → FoundBelow p 0 cs below
      → Shrunk len key (branch p m cs) (delete_in p m cs below)
  unfolding delete_in
  delete_in-Shrunk p m cs none w apart = not_found-Shrunk len key (branch p m cs) w apart
  delete_in-Shrunk p m cs (some r) (short, many, e, ws) g = (
    g.value,
    inr (record {
      kept = refl;
      loose = (short, omega (arith, many, g.many), rw e (sym g.total), g.well_formed);
      held = g.held;
      same_prefix = refl;
      total = λ x. refl;
    }),
  )

  walk_on :
      (p : List ℕ) (least c : ℕ) (n : Node) (cs : Children) (rest : Option DeletionBelow)
      → AreWellFormed len p least (child c n cs)
      → AreApart key (entries n)
      → FoundBelow p (suc c) cs rest
      → FoundBelow p least (child c n cs) (do r ← rest; some (keep_child c n r))
  walk_on p least c n cs none w apart g = All-append _ (entries n) (entries_below cs) apart g
  walk_on p least c n cs (some r) w apart g =
      keep_child-ShrunkBelow len key p least c n cs r w apart g

  mutual
    unfolding perform_deletion

    pub perform_deletion-Shrunk :
        (n : Node) → IsWellFormed len n → Shrunk len key n (perform_deletion key n)
    perform_deletion-Shrunk (leaf p m v) w = elim (Bool-cases (match_len p key == length p)) [
      | inl whole ↦
          let e : p ≡ key = Starts-whole p key (ground arith) (w ∙ sym full) in
          let same : same_key key p ≡ true = rw e (same_key_refl key) in
          rw (whole, same)
            (refl, inl (record { gone = refl; nothing = rw same refl; total = refl }))
      | inr parts ↦
          rw parts
            (not_found-Shrunk len key (leaf p m v) w (parts-AreApart len key (leaf p m v) w parts))
    ]
    perform_deletion-Shrunk (branch p m cs) (short, many, e, ws) =
        let w : IsWellFormed len (branch p m cs) = (short, many, e, ws) in
        elim (Bool-cases (match_len p key == length p)) [
          | inr parts ↦ rw parts (
              not_found-Shrunk len key (branch p m cs) w
                (parts-AreApart len key (branch p m cs) w parts))
          | inl whole ↦
              let (b, at) = get_elem?-below key (length p) (omega (arith, short, full)) in
              let starts : Starts p key = ground arith in
              rw (whole, at)
                (delete_in-Shrunk p m cs (deletion_below b key cs) w
                  (deletion_below-FoundBelow p 0 b cs (starts, at) ws))
        ]

    deletion_below-FoundBelow :
        (p : List ℕ) (least b : ℕ) (cs : Children)
        → Continues p b key
        → AreWellFormed len p least cs
        → FoundBelow p least cs (deletion_below b key cs)
    deletion_below-FoundBelow p least b no_more on ws = tt
    deletion_below-FoundBelow p least b (child c n cs) on (le, on_n, w, ws) =
        elim (Bool-cases (b == c)) [
          | inl here ↦ rw here (
              replace_child-ShrunkBelow len key p least c n cs (perform_deletion key n)
                (le, on_n, w, ws) (behind-AreApart len p key b (suc c) cs on (ground arith) ws)
                (perform_deletion-Shrunk n w))
          | inr other ↦ rw other (
              walk_on p least c n cs (deletion_below b key cs) (le, on_n, w, ws)
                (child-AreApart len p key b c n on on_n w other)
                (deletion_below-FoundBelow p (suc c) b cs on ws))
        ]

pub length-remove : (key : List ℕ) (es : List Entry) → length (remove key es) ≤ length es
length-remove key [] = omega arith
length-remove key (e ∷ es) = ground (arith, length-remove key es)

pub remove-AreCounted :
    (key : List ℕ) (es : List Entry) → AreCounted es → AreCounted (remove key es)
remove-AreCounted key [] a = tt
remove-AreCounted key (e ∷ es) (one, a) = elim (Bool-cases (same_key key e.key)) [
  | inl same ↦ rw same (remove-AreCounted key es a)
  | inr other ↦ rw other (one, remove-AreCounted key es a)
]

delete_key_empty : (key : List ℕ) → delete_key key make_empty_node ≡ (make_empty_node, none)
unfolding delete_key perform_deletion delete_in contract
delete_key_empty key = elim (Option-cases (get_elem? key 0)) [
  | inl at ↦ rw at refl
  | inr (b, at) ↦ rw at refl
]

-- Take a trie, empty or not, of fewer than 2 ^ 64 entries that each count as one in the size, with keys of `len`
-- digits, and a key of that length. Then `MerkleTrie::perform_deletion` leaves a trie again, with the same entries
-- in the same order but that at the key, and returns the offer at the key, if there is one.
pub delete_key_lem :
    (len : ℕ) (key : List ℕ) (root : Node)
    → length key ≡ len
    → IsTrie len root
    → AreCounted (entries root)
    → length (entries root) < 2 ^ 64
    → IsTrie len (delete_key key root).0
      × (entries (delete_key key root).0 ≡ remove key (entries root))
      × ((delete_key key root).1 ≡ find_value key (entries root))
unfolding delete_key contract
delete_key_lem len key root full (inl e) counted few =
    let r = delete_key_empty key in
    (
      inl (ap (λ n. (delete_key key n).0) e ∙ ap (λ x. x.0) r),
      ap (λ n. entries (delete_key key n).0) e
          ∙ ap (λ x. entries x.0) r
          ∙ sym (ap (λ n. remove key (entries n)) e),
      ap (λ n. (delete_key key n).1) e
          ∙ ap (λ x. x.1) r
          ∙ sym (ap (λ n. find_value key (entries n)) e),
    )
delete_key_lem len key root full (inr w) counted few =
    let (value, r) = perform_deletion-Shrunk len key full root w in
    elim r [
      | inl g ↦ rw g.gone (inl refl, sym g.nothing, value)
      | inr s ↦
          let e = entries-contract (perform_deletion key root).node in
          let w' = contract-IsWellFormed len (perform_deletion key root).node s.loose in
          let held = e ∙ s.held in
          let counted' : AreCounted (entries (contract (perform_deletion key root).node)) =
            rw held (remove-AreCounted key (entries root) counted) in
          let few' : length (entries (contract (perform_deletion key root).node)) < 2 ^ 64 =
            omega (arith, few, ap length held, length-remove key (entries root)) in
          let not_0 =
            size-positive len (contract (perform_deletion key root).node) w' counted' few' in
          rw (s.kept, not_0) (inr w', held, value)
    ]
