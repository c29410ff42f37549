-- ===== src/MerkleTrie/Split/Laws.antt =====
-- What `endow_split` (MerkleTrie/Split) does to the entries of a trie.
use speedex_parallelize.Base.{
  signed_leb, ℕ, suc, ◌+◌, ◌-◌, ◌^◌, ◌≤◌, ◌<◌, ◌≡◌, refl, sym, ap, ◌∙◌, inl, inr, false, ◌&&◌, not,
  none, List, arith, leb, ◌==◌, Bool-cases, add64, sub64, is_negative,
}
use speedex_parallelize.MerkleTrie.{
  no_metadata, add, negate, Node, leaf, branch, Children, no_more, child, metadata_of,
}
use speedex_parallelize.MerkleTrie.Invariant.{entries, entries_below, IsWellFormed, AreWellFormed}
use speedex_parallelize.MerkleTrie.Sums.{add_comm, add_nothing, add-negate_none}
use speedex_parallelize.MerkleTrie.Split.Amounts.{
  signed_leb-small, endow_sum, endow_sum-append, endow-entries,
}
use speedex_parallelize.MerkleTrie.Insert.Walk.{count_many}
use speedex_parallelize.MerkleTrie.Split.{endow_split, split_below}
use speedex_parallelize.MerkleTrie.Split.Whole.{
  SplitNode, SplitChildren, nothing_taken-SplitChildren, split_below_stops,
  take_child-SplitChildren,
}
use speedex_parallelize.MerkleTrie.Split.Parts.{split_child-SplitChildren, split_branch-SplitNode}

module _ (len : ℕ) where
  mutual
    unfolding endow_split

    -- Of a node that offers more than `t`.
    pub endow_split-SplitNode :
        (t : ℕ) (n : Node)
        → IsWellFormed len n
        → t < endow_sum (entries n)
        → endow_sum (entries n) < 2 ^ 63
        → SplitNode len t n (endow_split t n)
    endow_split-SplitNode t (leaf p m v) w more small = record {
      stay = leaf p m v;
      split_obj = none;
      run = refl;
      loose = w;
      same_prefix = refl;
      held = refl;
      filled = (omega arith, inr (inl (omega (arith, more))));
      total = λ x. sym (
          ap (λ y. add y x) (add_comm m (negate no_metadata) ∙ sym (add-negate_none m))
          ∙ add_nothing m x);
    }
    endow_split-SplitNode t (branch p m cs) (short, many, e, ws) more small =
        let (not_one, not_empty) = count_many cs many in
        let total = endow-entries len (branch p m cs) (short, many, e, ws) small in
        let enough : signed_leb m.endow t ≡ false =
          signed_leb-small m.endow t (omega (arith, total, small)) (omega (arith, more, small))
          ∙ (ground (arith, total, more)) in
        let positive : is_negative t ≡ false = ground (arith, more, small) in
        rw (not_empty, enough, positive)
          (split_branch-SplitNode len t p m cs (split_below t 0 cs) (short, many, e, ws) more
            (split_below-SplitChildren t 0 p 0 cs ws (omega arith) (omega (arith, small))
              (omega (arith, more, small))))

    split_below-SplitChildren :
        (t acc : ℕ) (p : List ℕ) (least : ℕ) (cs : Children)
        → AreWellFormed len p least cs
        → acc ≤ t
        → acc + endow_sum (entries_below cs) < 2 ^ 63
        → t < 2 ^ 63
        → SplitChildren len t acc p least cs (split_below t acc cs)
    split_below-SplitChildren t acc p least no_more ws le small small_t =
        nothing_taken-SplitChildren len t acc p least no_more ws (inr refl) le
    split_below-SplitChildren t acc p least (child c n cs) (le_c, on, w, ws) le small small_t =
        let amounts = endow_sum-append (entries n) (entries_below cs) in
        let small_n : endow_sum (entries n) < 2 ^ 63 = omega (arith, small, amounts) in
        let here = endow-entries len n w small_n in
        let sums : add64 acc (metadata_of n).endow ≡ acc + endow_sum (entries n) =
          omega (arith, here, small, amounts) in
        let stop = signed_leb-small t acc small_t (omega (arith, small)) in
        let whole =
          signed_leb-small (acc + endow_sum (entries n)) t (omega (arith, small, amounts))
            small_t in
        elim (Bool-cases (not (c == 0) && leb t acc)) [
          | inl stops ↦
              let same : acc ≡ t = ground (arith, stops, le) in
              rw (stop, stops)
                (nothing_taken-SplitChildren len t acc p least (child c n cs) (le_c, on, w, ws)
                  (inl same) le)
          | inr goes ↦ elim (Bool-cases (leb (acc + endow_sum (entries n)) t)) [
            | inl fits ↦
                rw (stop, goes, sums, whole, fits)
                  (take_child-SplitChildren len t acc p least c n cs
                    (split_below t (acc + endow_sum (entries n)) cs) (le_c, on, w, ws)
                    (split_below-SplitChildren t (acc + endow_sum (entries n)) p (suc c) cs ws
                      (ground (arith, fits)) (omega (arith, small, amounts)) small_t))
            | inr over ↦
                let lt : t < acc + endow_sum (entries n) = ground (arith, over) in
                let left : sub64 t acc ≡ t - acc = omega (arith, le, small_t) in
                rw (stop, goes, sums, whole, over, left)
                  (split_child-SplitChildren len t acc p least c n cs (endow_split (t - acc) n)
                    (split_below t (acc + endow_sum (entries n)) cs) (le_c, on, w, ws) le
                    (endow_split-SplitNode (t - acc) n w (omega (arith, le, lt)) small_n)
                    (split_below_stops len t (acc + endow_sum (entries n)) p (suc c) cs lt
                      (omega (arith, small, amounts)) (omega arith) ws))
          ]
        ]
