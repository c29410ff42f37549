-- ===== src/MerkleTrie/Delete/Parts.antt =====
-- What a deletion (MerkleTrie/Delete) makes of one child.
use speedex_parallelize.Base.{
  ℕ, suc, ◌≤◌, ◌≡◌, refl, sym, ap, ◌∙◌, ◌⊎◌, inl, inr, true, false, List, [], ◌++◌, arith,
}
use speedex_parallelize.MerkleTrie.{
  Metadata, add, negate, Node, Children, child, metadata_of, prefix_of, count,
}
use speedex_parallelize.MerkleTrie.Invariant.{
  entries, entries_below, sum, IsWellFormed, AreWellFormed,
}
use speedex_parallelize.MerkleTrie.Keys.{
  find_value, remove, AreApart, find_value-AreApart, remove-AreApart, find_value-append_left,
  find_value-append_right, remove-append,
}
use speedex_parallelize.MerkleTrie.Loose.{
  IsLoose, IsWellFormed-IsLoose, contract-IsWellFormed, entries-contract, add-contract,
  contract-Continues, sum-IsWide, AreWellFormed-from,
}
use speedex_parallelize.MerkleTrie.Sums.{add_assoc, add_middle, add_nothing_after, drop_term}
use speedex_parallelize.MerkleTrie.Delete.{
  Deletion, DeletionBelow, not_found, replace_child, keep_child,
}

-- What a deletion of the key makes of a node that stays.
pub record Stays (len : ℕ) (key : List ℕ) (old : Node) (r : Deletion) : Type 0 where
  pub kept : r.delete_child ≡ false
  pub loose : IsLoose len r.node
  pub held : entries r.node ≡ remove key (entries old)
  pub same_prefix : prefix_of r.node ≡ prefix_of old
  pub total :
      (x : Metadata) → add (metadata_of r.node) x ≡ add (add (metadata_of old) r.metadata_delta) x

-- What it says of a node that is to go.
pub record Goes (key : List ℕ) (old : Node) (r : Deletion) : Type 0 where
  pub gone : r.delete_child ≡ true
  pub nothing : remove key (entries old) ≡ []
  pub total : r.metadata_delta ≡ negate (metadata_of old)

abbrev pub Shrunk : ℕ → List ℕ → Node → Deletion → Type 0
Shrunk len key old r =
    (r.deleted_obj ≡ find_value key (entries old)) × (Goes key old r ⊎ Stays len key old r)

pub record ShrunkBelow (len : ℕ) (key p : List ℕ) (least : ℕ) (old : Children) (r : DeletionBelow)
    : Type 0 where
  pub value : r.deleted_obj ≡ find_value key (entries_below old)
  pub well_formed : AreWellFormed len p least r.children
  pub many : count old ≤ suc (count r.children)
  pub total : sum r.children ≡ add (sum old) r.metadata_delta
  pub held : entries_below r.children ≡ remove key (entries_below old)

pub not_found-Shrunk :
    (len : ℕ) (key : List ℕ) (n : Node)
    → IsWellFormed len n
    → AreApart key (entries n)
    → Shrunk len key n (not_found n)
not_found-Shrunk len key n w apart = (
  sym (find_value-AreApart key (entries n) apart),
  inr (record {
    kept = refl;
    loose = IsWellFormed-IsLoose len n w;
    held = sym (remove-AreApart key (entries n) apart);
    same_prefix = refl;
    total = λ x. sym (add_nothing_after (metadata_of n) x);
  }),
)

-- The child at the branch bits, after the deletion in it.
pub replace_child-ShrunkBelow :
    (len : ℕ) (key p : List ℕ) (least c : ℕ) (n : Node) (cs : Children) (r : Deletion)
    → AreWellFormed len p least (child c n cs)
    → AreApart key (entries_below cs)
    → Shrunk len key n r
    → ShrunkBelow len key p least (child c n cs) (replace_child c cs r)
unfolding replace_child
replace_child-ShrunkBelow len key p least c n cs r (le, on, w, ws) apart (value, inl g) =
    let e : remove key (entries n ++ entries_below cs) ≡ entries_below cs =
      remove-append key (entries n) (entries_below cs)
      ∙ rw g.nothing (remove-AreApart key (entries_below cs) apart) in
    record {
      value = value ∙ sym (find_value-append_right key (entries n) (entries_below cs) apart);
      well_formed = rw g.gone (AreWellFormed-from len p least (suc c) cs (omega (arith, le)) ws);
      many = rw g.gone (omega arith);
      total = rw (g.gone, g.total) (sym (drop_term (metadata_of n) (sum cs) (sum-IsWide cs)));
      held = rw g.gone (sym e);
    }
replace_child-ShrunkBelow len key p least c n cs r (le, on, w, ws) apart (value, inr s) = record {
  value = value ∙ sym (find_value-append_right key (entries n) (entries_below cs) apart);
  well_formed = rw s.kept (
    le,
    contract-Continues len p c r.node (rw s.same_prefix on) s.loose,
    contract-IsWellFormed len r.node s.loose,
    ws,
  );
  many = rw s.kept (omega arith);
  total = rw s.kept (
      add-contract len r.node (sum cs) s.loose
      ∙ s.total (sum cs)
      ∙ add_middle (metadata_of n) r.metadata_delta (sum cs));
  held =
      rw (s.kept, entries-contract r.node, s.held)
        (sym (
          remove-append key (entries n) (entries_below cs)
          ∙ ap (λ es. remove key (entries n) ++ es)
              (remove-AreApart key (entries_below cs) apart)));
}

pub keep_child-ShrunkBelow :
    (len : ℕ) (key p : List ℕ) (least c : ℕ) (n : Node) (cs : Children) (r : DeletionBelow)
    → AreWellFormed len p least (child c n cs)
    → AreApart key (entries n)
    → ShrunkBelow len key p (suc c) cs r
    → ShrunkBelow len key p least (child c n cs) (keep_child c n r)
keep_child-ShrunkBelow len key p least c n cs r (le, on, w, ws) apart g = record {
  value = g.value ∙ sym (find_value-append_left key (entries n) (entries_below cs) apart);
  well_formed = (le, on, w, g.well_formed);
  many = omega (arith, g.many);
  total = rw g.total (sym (add_assoc (metadata_of n) (sum cs) r.metadata_delta));
  held = rw g.held (
      sym (
        remove-append key (entries n) (entries_below cs)
        ∙ ap (λ es. es ++ remove key (entries_below cs)) (remove-AreApart key (entries n) apart)));
}
