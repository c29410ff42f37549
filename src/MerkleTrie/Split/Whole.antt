-- ===== src/MerkleTrie/Split/Whole.antt =====
-- What a split of a trie is, and a child that goes as a whole (MerkleTrie/Split).
use speedex_parallelize.Base.{
  signed_leb, ℕ, ◌>>=◌, suc, ◌+◌, ◌^◌, ◌≤◌, ◌<◌, ◌≡◌, refl, sym, ap, ◌∙◌, ◌⊎◌, inl, inr, true,
  false, Option, none, some, List, [], ◌++◌, arith, ◌==◌,
}
use mathlib.Core.List.{append_assoc}
use speedex_parallelize.MerkleTrie.{
  Metadata, no_metadata, add, negate, Node, Children, no_more, child, metadata_of, prefix_of, Entry,
}
use speedex_parallelize.MerkleTrie.Invariant.{entries, entries_below, sum, AreWellFormed}
use speedex_parallelize.MerkleTrie.Loose.{IsLoose, sum-IsWide, AreWellFormed-from}
use speedex_parallelize.MerkleTrie.Sums.{
  add_comm, subtract_term, add-negate-add, add-negate_none, add_zero_left,
}
use speedex_parallelize.MerkleTrie.Split.Amounts.{
  signed_leb-small, endow_sum, first_endow, endow_sum-append,
}
use speedex_parallelize.MerkleTrie.Split.{SplitBelow, nothing_taken, take_child, split_below}

-- What of the entries goes to make up `t`: no more than `t`, and either just `t`, or so much that the
-- first entry that stays does not fit, or all.
abbrev pub IsFilled : ℕ → ℕ → List Entry → List Entry → Type 0
IsFilled t acc taken stay =
    (acc + endow_sum taken ≤ t)
    × ((acc + endow_sum taken ≡ t) ⊎ (t < acc + endow_sum taken + first_endow stay) ⊎ (stay ≡ []))

abbrev pub entries_of : Option Node → List Entry
entries_of none = []
entries_of (some n) = entries n

abbrev pub metadata_in : Option Node → Metadata
metadata_in none = no_metadata
metadata_in (some n) = metadata_of n

pub record SplitNode (len t : ℕ) (old : Node) (result : Option (Node × Option Node)) : Type 0 where
  pub stay : Node
  pub split_obj : Option Node
  pub run : result ≡ some (stay, split_obj)
  pub loose : IsLoose len stay
  pub same_prefix : prefix_of stay ≡ prefix_of old
  pub held : entries_of split_obj ++ entries stay ≡ entries old
  pub filled : IsFilled t 0 (entries_of split_obj) (entries stay)
  pub total :
      (x : Metadata)
      → add (metadata_of stay) x ≡ add (add (metadata_of old) (negate (metadata_in split_obj))) x

pub record SplitChildren (len t acc : ℕ) (p : List ℕ) (least : ℕ) (old : Children)
    (result : Option SplitBelow) : Type 0 where
  pub parts : SplitBelow
  pub run : result ≡ some parts
  pub well_formed : AreWellFormed len p least parts.stay
  pub held : entries_below parts.taken ++ entries_below parts.stay ≡ entries_below old
  pub filled : IsFilled t acc (entries_below parts.taken) (entries_below parts.stay)
  pub total : sum parts.stay ≡ add (sum old) parts.delta
  pub taken_total : (x : Metadata) → add parts.delta x ≡ add (negate (sum parts.taken)) x

-- Nothing more is taken.
pub nothing_taken-SplitChildren :
    (len t acc : ℕ) (p : List ℕ) (least : ℕ) (cs : Children)
    → AreWellFormed len p least cs
    → (acc ≡ t) ⊎ (entries_below cs ≡ [])
    → acc ≤ t
    → SplitChildren len t acc p least cs (some (nothing_taken cs))
nothing_taken-SplitChildren len t acc p least cs ws why le = record {
  parts = nothing_taken cs;
  run = refl;
  well_formed = ws;
  held = refl;
  filled = (
    omega (arith, le),
    elim why [ inl same ↦ inl (omega (arith, same)) | inr none_left ↦ inr (inr none_left) ],
  );
  total = sym (add_comm (sum cs) no_metadata ∙ add_zero_left (sum cs) (sum-IsWide cs));
  taken_total = add-negate_none;
}

-- Behind the child in which the amount ends the loop stops.
pub split_below_stops :
    (len t acc : ℕ) (p : List ℕ) (least : ℕ) (cs : Children)
    → t < acc
    → acc < 2 ^ 63
    → 1 ≤ least
    → AreWellFormed len p least cs
    → split_below t acc cs ≡ some (nothing_taken cs)
unfolding split_below
split_below_stops len t acc p least no_more lt small pos ws = refl
split_below_stops len t acc p least (child c n cs) lt small pos (le, on, w, ws) =
    let not_first : (c == 0) ≡ false = ground arith in
    let over : signed_leb t acc ≡ true =
      signed_leb-small t acc (omega arith) small ∙ (ground arith) in
    rw (not_first, over) refl

-- The child goes as a whole.
pub take_child-SplitChildren :
    (len t acc : ℕ) (p : List ℕ) (least c : ℕ) (n : Node) (cs : Children) (rest : Option SplitBelow)
    → AreWellFormed len p least (child c n cs)
    → SplitChildren len t (acc + endow_sum (entries n)) p (suc c) cs rest
    → SplitChildren len t acc p least (child c n cs) (do r ← rest; some (take_child c n r))
unfolding take_child
take_child-SplitChildren len t acc p least c n cs rest (le, on, w, ws) g =
    let amounts = endow_sum-append (entries n) (entries_below g.parts.taken) in
    let (fits, full) = g.filled in
    record {
      parts = take_child c n g.parts;
      run = rw g.run refl;
      well_formed =
          AreWellFormed-from len p least (suc c) g.parts.stay (omega (arith, le)) g.well_formed;
      held =
          append_assoc (entries n) (entries_below g.parts.taken) (entries_below g.parts.stay)
          ∙ ap (λ es. entries n ++ es) g.held;
      filled = (
        omega (arith, amounts, fits),
        elim full [
          | inl same ↦ inl (omega (arith, same, amounts))
          | inr (inl more) ↦ inr (inl (omega (arith, more, amounts)))
          | inr (inr none_left) ↦ inr (inr none_left)
        ],
      );
      total = subtract_term (metadata_of n) (sum cs) g.parts.delta (sum g.parts.stay) g.total;
      taken_total =
          λ x. add-negate-add (metadata_of n) (sum g.parts.taken) g.parts.delta x g.taken_total;
    }
