-- ===== src/MerkleTrie/Sweep/Laws.antt =====
-- What `perform_marked_deletions` and `do_rollback` (MerkleTrie/Sweep) do to the entries of a trie.
use speedex_parallelize.Base.{
  ℕ, suc, ◌^◌, ◌≤◌, ◌<◌, ◌≡◌, refl, sym, ap, ◌∙◌, List, [], arith, length, length-append,
}
use speedex_parallelize.MerkleTrie.{
  Metadata, no_metadata, Node, leaf, branch, Children, no_more, child, Entry,
}
use speedex_parallelize.MerkleTrie.Invariant.{entries, entries_below, IsWellFormed, AreWellFormed}
use speedex_parallelize.MerkleTrie.Sums.{add_zero_left}
use speedex_parallelize.MerkleTrie.Totals.{totals, sum-totals}
use speedex_parallelize.MerkleTrie.Sweep.Marks.{AreMarks, AreUnmarked, All-append_parts}
use speedex_parallelize.MerkleTrie.Sweep.{sweep, sweep_below}
use speedex_parallelize.MerkleTrie.Sweep.Parts.{
  SweptNode, SweptChildren, sweep_leaf-SweptNode, sweep_child-SweptChildren, sweep_branch-SweptNode,
}

-- For a count that tells, of fewer than 2 ^ 32 entries, whether one of them is marked.
module _ (len : ℕ) (marks : Metadata → ℕ)
    (tells : (es : List Entry)
      → AreMarks marks es
      → length es < 2 ^ 32
      → marks (totals es) ≡ 0
      → AreUnmarked marks es) where
  mutual
    unfolding sweep

    pub sweep-SweptNode :
        (n : Node)
        → IsWellFormed len n
        → AreMarks marks (entries n)
        → length (entries n) < 2 ^ 32
        → SweptNode len marks n (sweep marks n)
    sweep-SweptNode (leaf p m v) w (le, a) few = sweep_leaf-SweptNode len marks p m v w le
    sweep-SweptNode (branch p m cs) (short, many, e, ws) a few =
        sweep_branch-SweptNode len marks p m cs (sweep_below marks cs) (short, many, e, ws)
          (λ z. tells (entries_below cs) a few (ap marks (sym (e ∙ sum-totals len p 0 cs ws)) ∙ z))
          (sweep_below-SweptChildren p 0 cs ws a few)

    sweep_below-SweptChildren :
        (p : List ℕ) (least : ℕ) (cs : Children)
        → AreWellFormed len p least cs
        → AreMarks marks (entries_below cs)
        → length (entries_below cs) < 2 ^ 32
        → SweptChildren len marks p least cs (sweep_below marks cs)
    sweep_below-SweptChildren p least no_more ws a few = record {
      swept = record { children = no_more; metadata_delta = no_metadata; handled = [] };
      run = refl;
      log = refl;
      well_formed = tt;
      held = refl;
      total = sym (add_zero_left no_metadata (omega arith));
    }
    sweep_below-SweptChildren p least (child c n cs) (le, on, w, ws) a few =
        let (left, right) =
          All-append_parts (λ e. marks e.metadata ≤ 1) (entries n) (entries_below cs) a in
        let sizes = length-append (entries n) (entries_below cs) in
        sweep_child-SweptChildren len marks p least c n cs (sweep marks n) (sweep_below marks cs)
          (le, on, w, ws) (sweep-SweptNode n w left (omega (arith, few, sizes)))
          (sweep_below-SweptChildren p (suc c) cs ws right (omega (arith, few, sizes)))
