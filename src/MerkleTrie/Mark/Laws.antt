-- ===== src/MerkleTrie/Mark/Laws.antt =====
-- What `mark_for_deletion` and `unmark_for_deletion` (MerkleTrie/Mark) do to the entries of a trie.
use speedex_parallelize.Base.{
  get_elem?-below, ℕ, ◌>>=◌, suc, ◌+◌, ◌%◌, ◌^◌, ◌≡◌, refl, sym, ap, ◌∙◌, inl, inr, true, Option,
  none, some, List, arith, ◌==◌, Bool-cases, length,
}
use speedex_parallelize.MerkleTrie.{
  Metadata, no_metadata, add, match_len, Node, leaf, branch, Children, no_more, child, metadata_of,
  prefix_of, count,
}
use speedex_parallelize.Xdr.{Offer}
use speedex_parallelize.MerkleTrie.Digits.{Starts, Continues, Starts-whole}
use speedex_parallelize.MerkleTrie.Invariant.{
  entries, entries_below, sum, IsWellFormed, AreWellFormed, All-append,
}
use speedex_parallelize.MerkleTrie.Keys.{
  same_key, same_key_refl, AreApart, parts-AreApart, child-AreApart, behind-AreApart,
}
use speedex_parallelize.MerkleTrie.Sums.{by_parts, add_assoc, add_middle, add_nothing_after}
use speedex_parallelize.MerkleTrie.Mark.Counts.{
  exchange_at, find_counted, exchange_at-AreApart, find_counted-AreApart, exchange_at-append_left,
  exchange_at-append_right, find_counted-append_left, find_counted-append_right,
}
use speedex_parallelize.MerkleTrie.Mark.{
  Marked, MarkedBelow, unmarked, mark_leaf, mark_in, marked_here, marked_behind, mark_node,
  mark_below,
}

-- What a change of the mark at the key makes of a node; `change` is its size.
pub record Changed (len expect desired : ℕ) (key : List ℕ) (old : Node) (r : Marked) : Type 0 where
  pub value : r.deleted_obj ≡ find_counted expect key (entries old)
  pub well_formed : IsWellFormed len r.node
  pub same_prefix : prefix_of r.node ≡ prefix_of old
  pub held : entries r.node ≡ exchange_at expect desired key (entries old)
  pub total :
      (x : Metadata) → add (metadata_of r.node) x ≡ add (add (metadata_of old) r.metadata_change) x

pub record ChangedBelow (len expect desired : ℕ) (key p : List ℕ) (least : ℕ) (old : Children)
    (r : MarkedBelow) : Type 0 where
  pub value : r.deleted_obj ≡ find_counted expect key (entries_below old)
  pub well_formed : AreWellFormed len p least r.children
  pub as_many : count r.children ≡ count old
  pub held : entries_below r.children ≡ exchange_at expect desired key (entries_below old)
  pub total : sum r.children ≡ add (sum old) r.metadata_change

-- The change that goes up is the difference of the two counts.
abbrev pub IsChange : ℕ → ℕ → ℕ → Type 0
IsChange expect desired change = (expect + change) % 2 ^ 32 ≡ desired % 2 ^ 32

module _ (len expect desired change : ℕ) (key : List ℕ)
    (fits : IsChange expect desired change) where
  unmarked-Changed :
      (n : Node)
      → IsWellFormed len n
      → AreApart key (entries n)
      → Changed len expect desired key n (unmarked n)
  unmarked-Changed n w a = record {
    value = sym (find_counted-AreApart expect desired key (entries n) a);
    well_formed = w;
    same_prefix = refl;
    held = sym (exchange_at-AreApart expect desired key (entries n) a);
    total = λ x. sym (add_nothing_after (metadata_of n) x);
  }

  add-exchange :
      (m x : Metadata)
      → (m.num_deleted_subnodes == expect) ≡ true
      → add (record m { num_deleted_subnodes = desired }) x
        ≡ add (add m (record no_metadata { num_deleted_subnodes = change })) x
  unfolding add
  add-exchange m x same =
      let e : m.num_deleted_subnodes ≡ expect = ground arith in
      by_parts _ _ (omega (arith, e, fits)) (omega arith) (omega arith) (omega arith)

  mark_leaf-Changed :
      (p : List ℕ) (m : Metadata) (v : Offer)
      → length p ≡ len
      → same_key key p ≡ true
      → Changed len expect desired key (leaf p m v) (mark_leaf expect desired change p m v)
  unfolding mark_leaf
  mark_leaf-Changed p m v w same = elim (Bool-cases (m.num_deleted_subnodes == expect)) [
    | inl as_expected ↦ record {
      value = rw (same, as_expected) refl;
      well_formed = w;
      same_prefix = refl;
      held = rw (same, as_expected) refl;
      total = λ x. rw as_expected (add-exchange m x as_expected);
    }
    | inr other ↦ record {
      value = rw (same, other) refl;
      well_formed = w;
      same_prefix = refl;
      held = rw (same, other) refl;
      total = λ x. rw other (sym (add_nothing_after m x));
    }
  ]

  marked_here-ChangedBelow :
      (p : List ℕ) (least c : ℕ) (n : Node) (cs : Children) (r : Marked)
      → AreWellFormed len p least (child c n cs)
      → AreApart key (entries_below cs)
      → Changed len expect desired key n r
      → ChangedBelow len expect desired key p least (child c n cs) (marked_here c cs r)
  marked_here-ChangedBelow p least c n cs r (le, on, w, ws) a h = record {
    value =
        h.value
        ∙ sym (find_counted-append_right expect desired key (entries n) (entries_below cs) a);
    well_formed = (le, rw h.same_prefix on, h.well_formed, ws);
    as_many = refl;
    held =
        rw h.held
          (sym (exchange_at-append_right expect desired key (entries n) (entries_below cs) a));
    total = h.total (sum cs) ∙ add_middle (metadata_of n) r.metadata_change (sum cs);
  }

  -- Either no entry below has the key, or the change is in one of the children.
  abbrev FoundBelow : List ℕ → ℕ → Children → Option MarkedBelow → Type 0
  FoundBelow p least cs none = AreApart key (entries_below cs)
  FoundBelow p least cs (some r) = ChangedBelow len expect desired key p least cs r

  walk_on :
      (p : List ℕ) (least c : ℕ) (n : Node) (cs : Children) (rest : Option MarkedBelow)
      → AreWellFormed len p least (child c n cs)
      → AreApart key (entries n)
      → FoundBelow p (suc c) cs rest
      → FoundBelow p least (child c n cs) (do r ← rest; some (marked_behind c n r))
  walk_on p least c n cs none w apart g = All-append _ (entries n) (entries_below cs) apart g
  walk_on p least c n cs (some r) (le, on, w, ws) a g = record {
    value =
        g.value
        ∙ sym (find_counted-append_left expect desired key (entries n) (entries_below cs) a);
    well_formed = (le, on, w, g.well_formed);
    as_many = ap suc g.as_many;
    held =
        rw g.held
          (sym (exchange_at-append_left expect desired key (entries n) (entries_below cs) a));
    total = rw g.total (sym (add_assoc (metadata_of n) (sum cs) r.metadata_change));
  }

  mark_in-Changed :
      (p : List ℕ) (m : Metadata) (cs : Children) (below : Option MarkedBelow)
      → IsWellFormed len (branch p m cs)
      → FoundBelow p 0 cs below
      → Changed len expect desired key (branch p m cs) (mark_in p m cs below)
  unfolding mark_in
  mark_in-Changed p m cs none w apart = unmarked-Changed (branch p m cs) w apart
  mark_in-Changed p m cs (some r) (short, many, e, ws) g = record {
    value = g.value;
    well_formed = (short, omega (arith, many, g.as_many), rw e (sym g.total), g.well_formed);
    same_prefix = refl;
    held = g.held;
    total = λ x. refl;
  }

  module _ (full : length key ≡ len) where
    mutual
      unfolding mark_node

      pub mark_node-Changed :
          (n : Node)
          → IsWellFormed len n
          → Changed len expect desired key n (mark_node expect desired change key n)
      mark_node-Changed (leaf p m v) w = elim (Bool-cases (match_len p key == length p)) [
        | inl whole ↦
            let e : p ≡ key = Starts-whole p key (ground arith) (w ∙ sym full) in
            rw whole (mark_leaf-Changed p m v w (ap (same_key key) e ∙ same_key_refl key))
        | inr parts ↦
            rw parts (unmarked-Changed (leaf p m v) w (parts-AreApart len key (leaf p m v) w parts))
      ]
      mark_node-Changed (branch p m cs) (short, many, e, ws) =
          let w : IsWellFormed len (branch p m cs) = (short, many, e, ws) in
          elim (Bool-cases (match_len p key == length p)) [
            | inr parts ↦ rw parts (
                unmarked-Changed (branch p m cs) w (parts-AreApart len key (branch p m cs) w parts))
            | inl whole ↦
                let (b, at) = get_elem?-below key (length p) (omega (arith, short, full)) in
                let starts : Starts p key = ground arith in
                rw (whole, at)
                  (mark_in-Changed p m cs _ w (mark_below-FoundBelow p 0 b cs (starts, at) ws))
          ]

      mark_below-FoundBelow :
          (p : List ℕ) (least b : ℕ) (cs : Children)
          → Continues p b key
          → AreWellFormed len p least cs
          → FoundBelow p least cs (mark_below b expect desired change key cs)
      mark_below-FoundBelow p least b no_more on ws = tt
      mark_below-FoundBelow p least b (child c n cs) on (le, on_n, w, ws) =
          elim (Bool-cases (b == c)) [
            | inl here ↦ rw here (
                marked_here-ChangedBelow p least c n cs (mark_node expect desired change key n)
                  (le, on_n, w, ws) (behind-AreApart len p key b (suc c) cs on (ground arith) ws)
                  (mark_node-Changed n w))
            | inr other ↦ rw other (
                walk_on p least c n cs (mark_below b expect desired change key cs) (le, on_n, w, ws)
                  (child-AreApart len p key b c n on on_n w other)
                  (mark_below-FoundBelow p (suc c) b cs on ws))
          ]
