-- ===== src/MerkleTrie/Insert/Laws.antt =====
-- What `_insert` (MerkleTrie/Insert) does to the entries and to the invariant of a trie.
use speedex_parallelize.Base.{
  ℕ, suc, ◌≤◌, ◌<◌, ◌≡◌, refl, sym, ap, ◌∙◌, inl, inr, Bool, Option, some, List, ◌++◌, arith, ltb,
  ◌==◌, Bool-cases, length, get_elem?, IsWord, get_elem?-below,
}
use speedex_parallelize.Xdr.{Offer}
use speedex_parallelize.MerkleTrie.{
  Metadata, no_metadata, add, subtract, new_metadata, match_len, Node, leaf, branch, Children,
  no_more, child, metadata_of, Entry,
}
use speedex_parallelize.MerkleTrie.Digits.{
  Starts, Continues, match_len-le, Starts-whole, less-Continues, less_irrefl,
}
use speedex_parallelize.MerkleTrie.Invariant.{
  entries, entries_below, sum, IsWellFormed, AreWellFormed, IsTrie, All-imp,
}
use speedex_parallelize.MerkleTrie.Ordered.{put, put_front, put-append_left, put-append_right}
use speedex_parallelize.MerkleTrie.Sums.{
  add_comm, add_assoc, add_middle, add-subtract, add_zero_left, new_metadata-IsWide,
}
use speedex_parallelize.MerkleTrie.Insert.{insert_node, insert_children}
use speedex_parallelize.MerkleTrie.Insert.Break.{Grown, break_node-Grown}
use speedex_parallelize.MerkleTrie.Insert.Walk.{
  child_before, child_here, child_after, above, keys_go_on, branch_goes_on, branch_breaks,
  GrownBelow,
}

module _ (len : ℕ) (rollback : Bool) (key : List ℕ) (offer : Offer) (full : length key ≡ len)
    (word : IsWord offer.amount) where
  abbrev pub new_entry : Entry
  new_entry = record { key = key; metadata = new_metadata rollback offer; value = offer }

  mutual
    unfolding insert_node

    pub insert_node-Grown :
        (n : Node) → IsWellFormed len n → Grown len new_entry n (insert_node rollback key offer n)
    insert_node-Grown (leaf p m v) w = elim (Bool-cases (match_len p key == length p)) [
      | inl whole ↦
          let e : p ≡ key = Starts-whole p key (ground arith) (w ∙ sym full) in
          record {
            node = leaf p (new_metadata rollback offer) offer;
            delta = subtract (new_metadata rollback offer) m;
            run = rw (insert_node, whole) refl;
            well_formed = w;
            total = sym (
                add-subtract m (new_metadata rollback offer)
                  (new_metadata-IsWide rollback offer word));
            goes_on = λ p' b on on'. on;
            held = rw (e, less_irrefl key) refl;
          }
      | inr parts ↦
          let lt : match_len p key < length p = ground (arith, (match_len-le p key).0) in
          rw (insert_node, parts)
            (break_node-Grown len key (new_metadata rollback offer) offer (leaf p m v) w full lt
              (omega (arith, w)))
    ]
    insert_node-Grown (branch p m cs) (short, many, e, ws) =
        elim (Bool-cases (match_len p key == length p)) [
          | inr parts ↦
              let lt : match_len p key < length p = ground (arith, (match_len-le p key).0) in
              rw
                (branch_breaks rollback key offer p m cs
                  (λ b. insert_children b rollback key offer cs) many parts)
                (break_node-Grown len key (new_metadata rollback offer) offer (branch p m cs)
                  (short, many, e, ws) full lt (omega (arith, short)))
          | inl whole ↦
              let starts : Starts p key = ground arith in
              let (b, at) = get_elem?-below key (length p) (omega (arith, short, full)) in
              let g = insert_children-Grown p 0 b cs (starts, at) (omega arith) ws in
              let at' : get_elem? key (match_len p key) ≡ some b = ap (get_elem? key) starts ∙ at in
              record {
                node = branch p (add m g.delta) g.children;
                delta = g.delta;
                run =
                    branch_goes_on rollback key offer p m cs g.children _ b g.delta many whole at'
                      g.run;
                well_formed =
                    (short, omega (arith, many, g.many), rw e (sym g.total), g.well_formed);
                total = refl;
                goes_on = λ p' c on on'. on;
                held = g.held;
              }
        ]

    insert_children-Grown :
        (p : List ℕ) (least b : ℕ) (cs : Children)
        → Continues p b key
        → least ≤ b
        → AreWellFormed len p least cs
        → GrownBelow len new_entry p least cs (insert_children b rollback key offer cs)
    insert_children-Grown p least b no_more on le ws =
        let new = new_metadata rollback offer in
        record {
          children = child b (leaf key new offer) no_more;
          delta = new;
          run = refl;
          well_formed = (le, on, full, tt);
          many = omega arith;
          total = add_comm new no_metadata;
          held = refl;
        }
    insert_children-Grown p least b (child c n cs) on le (le_c, on_c, w, ws) =
        let new = new_metadata rollback offer in
        let at_child : Unit {0} → Option (Node × Metadata) =
          λ u. insert_node rollback key offer n in
        let behind : Unit {0} → Option (Children × Metadata) =
          λ u. insert_children b rollback key offer cs in
        elim (Bool-cases (ltb b c)) [
          | inl before ↦
              let lt : b < c = ground arith in
              record {
                children = child b (leaf key new offer) (child c n cs);
                delta = new;
                run = child_before b _ new c n cs at_child behind before;
                well_formed = (le, on, full, (lt, on_c, w, ws));
                many = omega arith;
                total = add_comm new (add (metadata_of n) (sum cs));
                held = sym (
                    put_front new_entry (entries n ++ entries_below cs)
                      (above len p key b c (child c n cs) on lt (omega arith, on_c, w, ws)));
              }
          | inr not_before ↦ elim (Bool-cases (b == c)) [
            | inl here ↦
                let same : b ≡ c = ground arith in
                let g = insert_node-Grown n w in
                let on' : Continues p c key = rw (← same) on in
                record {
                  children = child c g.node cs;
                  delta = g.delta;
                  run =
                      child_here b _ new c n cs at_child behind g.node g.delta not_before here
                        g.run;
                  well_formed = (le_c, g.goes_on p c on_c on', g.well_formed, ws);
                  many = omega arith;
                  total = rw g.total (add_middle (metadata_of n) g.delta (sum cs));
                  held = rw g.held (
                      sym (
                        put-append_left new_entry (entries n) (entries_below cs)
                          (above len p key c (suc c) cs on' (omega arith) ws)));
                }
            | inr after ↦
                let gt : c < b = ground arith in
                let g = insert_children-Grown p (suc c) b cs on gt ws in
                record {
                  children = child c n g.children;
                  delta = g.delta;
                  run =
                      child_after b _ new c n cs at_child behind g.children g.delta not_before after
                        g.run;
                  well_formed = (le_c, on_c, w, g.well_formed);
                  many = omega (arith, g.many);
                  total = rw g.total (sym (add_assoc (metadata_of n) (sum cs) g.delta));
                  held = rw g.held (
                      sym (
                        put-append_right new_entry (entries n) (entries_below cs) (
                          All-imp (λ e on_e. less-Continues p e.key key c b on_e on gt) (entries n)
                            (keys_go_on len p c n on_c w))));
                }
          ]
        ]

-- Take a trie, empty or not, with keys of `len` digits, a key of that length, and an amount that is a word. Then
-- `_insert` does not throw, what it leaves is a trie again, and its entries, in order, are the old
-- ones with the new one at its place, instead of one with the same key.
pub insert_node_lem :
    (len : ℕ) (rollback : Bool) (key : List ℕ) (offer : Offer) (root : Node)
    → length key ≡ len
    → IsWord offer.amount
    → IsTrie len root
    → (root' : Node) × (delta : Metadata) × (insert_node rollback key offer root
        ≡ some (root', delta))
      × IsWellFormed len root'
      × (entries root'
          ≡ put
              (record { key = key; metadata = new_metadata rollback offer; value = offer })
              (entries root))
unfolding insert_node
insert_node_lem len rollback key offer root full word (inl e) =
    let new = new_metadata rollback offer in
    let m = add_zero_left new (new_metadata-IsWide rollback offer word) in
    (leaf key new offer, new, rw (e, insert_node, m) refl, full, rw e refl)
insert_node_lem len rollback key offer root full word (inr w) =
    let g = insert_node-Grown len rollback key offer full word root w in
    (g.node, g.delta, g.run, g.well_formed, g.held)
