-- ===== src/MerkleTrie/Split/Parts.antt =====
-- What one child, and what one branch, gives to a split (MerkleTrie/Split).
use speedex_parallelize.Base.{
  ℕ, ◌>>=◌, ◌-◌, ◌≤◌, ◌<◌, ◌≡◌, refl, sym, ap, ◌∙◌, inl, inr, Option, none, some, List, ◌++◌, arith,
  if◌then◌else◌, length,
}
use mathlib.Core.List.{append-nil, append_assoc}
use speedex_parallelize.MerkleTrie.{
  Metadata, no_metadata, add, negate, Node, branch, Children, no_more, child, metadata_of, is_empty,
  contract, count,
}
use speedex_parallelize.MerkleTrie.Invariant.{
  entries, entries_below, sum, IsWellFormed, AreWellFormed,
}
use speedex_parallelize.MerkleTrie.Loose.{
  contract-IsWellFormed, entries-contract, add-contract, contract-Continues,
}
use speedex_parallelize.MerkleTrie.Sums.{
  add_comm, add_assoc, add_middle, add_nothing_after, add-negate-add, add-negate_none,
}
use speedex_parallelize.MerkleTrie.Totals.{some_entry}
use speedex_parallelize.MerkleTrie.Split.Amounts.{
  endow_sum, first_endow, endow_sum-append, first_endow-append,
}
use speedex_parallelize.MerkleTrie.Split.{SplitBelow, nothing_taken, split_branch, split_child}
use speedex_parallelize.MerkleTrie.Split.Whole.{entries_of, metadata_in, SplitNode, SplitChildren}

-- The parts that one child gives.
module _ (c : ℕ) (keep : Node) where
  pub split_child_stay :
      (out : Option Node) (cs : Children)
      → (split_child c (keep, out) (nothing_taken cs)).stay ≡ child c (contract keep) cs
  unfolding split_child
  split_child_stay none cs = refl
  split_child_stay (some out) cs = refl

  pub split_child_taken :
      (out : Option Node) (cs : Children)
      → entries_below (split_child c (keep, out) (nothing_taken cs)).taken ≡ entries_of out
  unfolding split_child
  split_child_taken none cs = refl
  split_child_taken (some out) cs = append-nil (entries out)

  pub split_child_delta :
      (out : Option Node) (cs : Children) (x : Metadata)
      → add (split_child c (keep, out) (nothing_taken cs)).delta x
        ≡ add (negate (metadata_in out)) x
  unfolding split_child
  split_child_delta none cs x = add-negate_none x
  split_child_delta (some out) cs x = add_nothing_after (negate (metadata_of out)) x

  pub split_child-sum :
      (out : Option Node) (cs : Children) (x : Metadata)
      → add (negate (sum (split_child c (keep, out) (nothing_taken cs)).taken)) x
        ≡ add (negate (metadata_in out)) x
  unfolding split_child
  split_child-sum none cs x = refl
  split_child-sum (some out) cs x =
      sym (add-negate-add (metadata_of out) no_metadata no_metadata x (λ y. add-negate_none y))
      ∙ add_nothing_after (negate (metadata_of out)) x

-- What is split off of a branch.
abbrev pub taken_branch : List ℕ → Children → Option Node
taken_branch p taken = if is_empty taken then none else some (branch p (sum taken) taken)

pub split_branch_entries :
    (p : List ℕ) (taken : Children) → entries_of (taken_branch p taken) ≡ entries_below taken
split_branch_entries p no_more = refl
split_branch_entries p (child b n cs) = refl

pub split_branch_metadata :
    (p : List ℕ) (taken : Children) (x : Metadata)
    → add (negate (metadata_in (taken_branch p taken))) x ≡ add (negate (sum taken)) x
split_branch_metadata p no_more x = refl
split_branch_metadata p (child b n cs) x = refl

pub stay_some : (cs : Children) → 1 ≤ endow_sum (entries_below cs) → 1 ≤ count cs
stay_some no_more le = absurd (omega (arith, le))
stay_some (child b n cs) le = omega arith

-- A part of the child goes, and nothing behind it.
pub split_child-SplitChildren :
    (len t acc : ℕ) (p : List ℕ) (least c : ℕ) (n : Node) (cs : Children)
    (inside : Option (Node × Option Node)) (rest : Option SplitBelow)
    → AreWellFormed len p least (child c n cs)
    → acc ≤ t
    → SplitNode len (t - acc) n inside
    → rest ≡ some (nothing_taken cs)
    → SplitChildren len t acc p least
        (child c n cs)
        (do parts ← inside; r ← rest; some (split_child c parts r))
unfolding split_child
split_child-SplitChildren len t acc p least c n cs inside rest (le, on, w, ws) le_t h stops =
    let keep = h.stay in
    let w' = contract-IsWellFormed len keep h.loose in
    let same = entries-contract keep in
    let first =
      first_endow-append (entries (contract keep)) (entries_below cs)
        (some_entry len (contract keep) w') in
    let first' = first ∙ ap first_endow same in
    let (fits, full) = h.filled in
    let on' = contract-Continues len p c keep (rw h.same_prefix on) h.loose in
    let r = split_child c (keep, h.split_obj) (nothing_taken cs) in
    let stay = split_child_stay c keep h.split_obj cs in
    let taken = split_child_taken c keep h.split_obj cs in
    let amounts = ap endow_sum taken in
    let below = ap entries_below stay in
    let first'' = ap first_endow below ∙ first' in
    let delta = split_child_delta c keep h.split_obj cs in
    record {
      parts = r;
      run = rw (h.run, stops) refl;
      well_formed = rw stay (le, on', w', ws);
      held =
          rw (taken, stay, same)
            (sym (append_assoc (entries_of h.split_obj) (entries keep) (entries_below cs))
              ∙ ap (λ es. es ++ entries_below cs) h.held);
      filled = (
        omega (arith, le_t, fits, amounts),
        elim full [
          | inl exact ↦ inl (omega (arith, le_t, exact, amounts))
          | inr (inl more) ↦ inr (inl (omega (arith, le_t, more, amounts, first'')))
          | inr (inr none_left) ↦ absurd (
              omega (arith, some_entry len (contract keep) w', ap length same, ap length none_left))
        ],
      );
      total = rw stay (
          add-contract len keep (sum cs) h.loose
          ∙ h.total (sum cs)
          ∙ add_middle (metadata_of n) (negate (metadata_in h.split_obj)) (sum cs)
          ∙ add_comm (add (metadata_of n) (sum cs)) (negate (metadata_in h.split_obj))
          ∙ sym (delta (add (metadata_of n) (sum cs)))
          ∙ add_comm r.delta (add (metadata_of n) (sum cs)));
      taken_total = λ x. delta x ∙ sym (split_child-sum c keep h.split_obj cs x);
    }

-- A branch of which less goes than it has.
pub split_branch-SplitNode :
    (len t : ℕ) (p : List ℕ) (m : Metadata) (cs : Children) (below : Option SplitBelow)
    → IsWellFormed len (branch p m cs)
    → t < endow_sum (entries_below cs)
    → SplitChildren len t 0 p 0 cs below
    → SplitNode len t (branch p m cs) (do r ← below; some (split_branch p m r))
unfolding split_branch
split_branch-SplitNode len t p m cs below (short, many, e, ws) less_than_all g =
    let obj = split_branch_entries p g.parts.taken in
    let (fits, full) = g.filled in
    let amounts = ap endow_sum obj in
    record {
      stay = branch p (add m g.parts.delta) g.parts.stay;
      split_obj = (split_branch p m g.parts).1;
      run = rw g.run refl;
      loose = (
        short,
        stay_some g.parts.stay (
            omega (
              arith,
              less_than_all,
              fits,
              ap endow_sum g.held,
              endow_sum-append (entries_below g.parts.taken) (entries_below g.parts.stay),
            )),
        rw e (sym g.total),
        g.well_formed,
      );
      same_prefix = refl;
      held = rw obj g.held;
      filled = rw obj g.filled;
      total = λ x.
          ap (λ y. add y x) (add_comm m g.parts.delta)
          ∙ add_assoc g.parts.delta m x
          ∙ g.taken_total (add m x)
          ∙ sym (split_branch_metadata p g.parts.taken (add m x))
          ∙ sym (add_assoc (negate (metadata_in (split_branch p m g.parts).1)) m x)
          ∙ ap (λ y. add y x) (add_comm (negate (metadata_in (split_branch p m g.parts).1)) m);
    }
