-- ===== src/MerkleTrie/Insert/Break.antt =====
-- The branch that `_insert` makes where a key parts from the prefix of a node (MerkleTrie/Insert).
use speedex_parallelize.Base.{
  ℕ, ◌≤◌, ◌<◌, ◌≡◌, refl, sym, ap, ◌∙◌, inl, inr, false, Option, some, List, [], ◌∷◌, arith, ltb,
  ◌==◌, Bool-cases, length, take,
}
use mathlib.Core.List.{append-nil}
use speedex_parallelize.Xdr.{Offer}
use speedex_parallelize.MerkleTrie.{
  Metadata, no_metadata, add, match_len, Node, leaf, branch, no_more, child, prefix_of, metadata_of,
  emplace, Entry,
}
use speedex_parallelize.MerkleTrie.Digits.{
  Continues, match_len_parts, take-match_len, less-Continues, match_len-Continues,
}
use speedex_parallelize.MerkleTrie.Invariant.{
  entries, IsWellFormed, All, All-imp, Continues-Starts, Continues-lt, entries-KeyFrom,
}
use speedex_parallelize.MerkleTrie.Ordered.{put, put_front, put-append_right}
use speedex_parallelize.MerkleTrie.Sums.{add_comm, add_nothing, add_to_nothing, add_nothing_right}
use speedex_parallelize.MerkleTrie.Insert.{break_node}

-- What an insertion of the entry `new` makes of a node.
pub record Grown (len : ℕ) (new : Entry) (old : Node) (result : Option (Node × Metadata))
    : Type 0 where
  pub node : Node
  pub delta : Metadata
  pub run : result ≡ some (node, delta)
  pub well_formed : IsWellFormed len node
  pub total : metadata_of node ≡ add (metadata_of old) delta
  pub goes_on :
      (p : List ℕ) (b : ℕ)
      → Continues p b (prefix_of old)
      → Continues p b new.key
      → Continues p b (prefix_of node)
  pub held : entries node ≡ put new (entries old)

emplace_before :
    (b c : ℕ) (n o : Node) → b < c → emplace b n (child c o no_more) ≡ child b n (child c o no_more)
unfolding emplace
emplace_before b c n o lt = ground arith

emplace_after :
    (b c : ℕ) (n o : Node) → c < b → emplace b n (child c o no_more) ≡ child c o (child b n no_more)
unfolding emplace
emplace_after b c n o lt = ground arith

module _ (len : ℕ) (key : List ℕ) (new : Metadata) (offer : Offer) (old : Node) where
  abbrev added : Entry
  added = record { key = key; metadata = new; value = offer }

  pub break_node-Grown :
      IsWellFormed len old
      → length key ≡ len
      → match_len (prefix_of old) key < length (prefix_of old)
      → length (prefix_of old) ≤ len
      → Grown len added old
          (break_node (match_len (prefix_of old) key) (prefix_of old) key new offer old)
  unfolding break_node
  break_node-Grown w full parts fits =
      let p = prefix_of old in
      let at = match_len p key in
      let q = take at p in
      let (ob, b, at_p, at_key, ne) =
        match_len_parts p key parts (omega (arith, parts, full, fits)) in
      let (short, starts_p, starts_key) = take-match_len p key in
      let on_p : Continues q ob p = (starts_p, rw short at_p) in
      let on_key : Continues q b key = (starts_key, rw short at_key) in
      let keys : All (λ e. Continues q ob e.key) (entries old) =
        All-imp (λ e k. Continues-Starts q p e.key ob on_p k.1 (Continues-lt q p ob on_p.1))
          (entries old) (entries-KeyFrom len old w) in
      let differ : (b == ob) ≡ false = ground arith in
      let goes : (p' : List ℕ) (c : ℕ) → Continues p' c p → Continues p' c key → Continues p' c q =
        λ p' c on on'. (match_len-Continues p' p key c on on').1 in
      elim (Bool-cases (ltb b ob)) [
        | inl before ↦ record {
          node =
              branch q (add (add no_metadata new) (metadata_of old))
                (child b (leaf key new offer) (child ob old no_more));
          delta = new;
          run =
              rw (at_key, at_p, differ, emplace_after ob b old (leaf key new offer) (ground arith))
                refl;
          well_formed = (
            omega (arith, short, parts, fits),
            omega arith,
            add_nothing new (metadata_of old) ∙ sym (add_nothing_right new (metadata_of old)),
            (omega arith, on_key, full, (ground arith, on_p, w, tt)),
          );
          total = add_nothing new (metadata_of old) ∙ add_comm new (metadata_of old);
          goes_on = goes;
          held =
              ap (λ es. added ∷ es) (append-nil (entries old))
              ∙ sym (
                  put_front added (entries old) (
                    All-imp (λ e on. less-Continues q key e.key b ob on_key on (ground arith))
                      (entries old) keys));
        }
        | inr after ↦ record {
          node =
              branch q (add (add no_metadata new) (metadata_of old))
                (child ob old (child b (leaf key new offer) no_more));
          delta = new;
          run =
              rw (at_key, at_p, differ, emplace_before ob b old (leaf key new offer) (ground arith))
                refl;
          well_formed = (
            omega (arith, short, parts, fits),
            omega arith,
            add_to_nothing new (metadata_of old),
            (omega arith, on_p, w, (ground arith, on_key, full, tt)),
          );
          total = add_nothing new (metadata_of old) ∙ add_comm new (metadata_of old);
          goes_on = goes;
          held =
              sym (
                put-append_right added (entries old) [] (
                  All-imp (λ e on. less-Continues q e.key key ob b on on_key (ground arith))
                    (entries old) keys))
              ∙ ap (put added) (append-nil (entries old));
        }
      ]
