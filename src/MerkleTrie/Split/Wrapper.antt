-- ===== src/MerkleTrie/Split/Wrapper.antt =====
-- `MerkleTrie::endow_split` (MerkleTrie/Split) on whole tries.
use speedex_parallelize.Base.{
  signed_ltb, ℕ, ◌^◌, ◌≤◌, ◌<◌, ◌≡◌, refl, ap, ◌∙◌, inl, inr, true, false, Option, none, some, ◌++◌,
  arith, ltb, ◌==◌, Bool-cases,
}
use mathlib.Core.List.{append-nil}
use speedex_parallelize.MerkleTrie.{Node, make_empty_node, metadata_of, contract}
use speedex_parallelize.MerkleTrie.Invariant.{entries, IsTrie}
use speedex_parallelize.MerkleTrie.Loose.{contract-IsWellFormed, entries-contract}
use speedex_parallelize.MerkleTrie.Split.Amounts.{endow_sum, endow-entries}
use speedex_parallelize.MerkleTrie.Split.Laws.{endow_split-SplitNode}
use speedex_parallelize.MerkleTrie.Split.Whole.{IsFilled, entries_of}
use speedex_parallelize.MerkleTrie.Split.{split_trie}

signed_ltb-small : (a b : ℕ) → a < 2 ^ 63 → b < 2 ^ 63 → signed_ltb a b ≡ ltb a b
signed_ltb-small a b la lb = ground arith

-- What `split_trie` makes of a trie.
abbrev pub Parted : ℕ → ℕ → Node → Node → Node → Type 0
Parted len t root stay out =
    (split_trie t root ≡ some (stay, out))
    × IsTrie len stay
    × (entries out ++ entries stay ≡ entries root)
    × IsFilled t 0 (entries out) (entries stay)

-- Take a trie, empty or not, with keys of `len` digits, whose entries offer less than 2 ^ 63
-- together, and a threshold of at most that sum. Then `MerkleTrie::endow_split` does not throw, and
-- what stays is a trie again. The entries of the trie that it returns, followed by those that stay,
-- are the entries of the trie before, in order. What it returns offers at most the threshold:
-- either just as much, or so much that the first entry that stays would be too much, or all
-- entries.
pub split_trie-Parted :
    (len t : ℕ) (root : Node)
    → IsTrie len root
    → endow_sum (entries root) < 2 ^ 63
    → t ≤ endow_sum (entries root)
    → (stay out : Node) × Parted len t root stay out
unfolding split_trie
split_trie-Parted len t root (inl e) small le =
    let none_offered : endow_sum (entries root) ≡ 0 = rw e refl in
    let is_0 : (t == 0) ≡ true = ground (arith, le, none_offered) in
    (
      root,
      make_empty_node,
      (
        rw is_0 refl,
        inl e,
        refl,
        (omega (arith, le, none_offered), inl (omega (arith, le, none_offered))),
      ),
    )
split_trie-Parted len t root (inr w) small le =
    let total = endow-entries len root w small in
    elim (Bool-cases (t == 0)) [
      | inl is_0 ↦ (
        root,
        make_empty_node,
        (rw is_0 refl, inr w, refl, (omega arith, inl (ground (arith, is_0)))),
      )
      | inr not_0 ↦
          let over : signed_ltb (metadata_of root).endow t ≡ false =
            signed_ltb-small (metadata_of root).endow t (omega (arith, total, small))
              (omega (arith, le, small))
            ∙ (ground (arith, total, le)) in
          elim (Bool-cases (t == (metadata_of root).endow)) [
            | inl all ↦
                let same : endow_sum (entries root) ≡ t = ground (arith, all, total) in
                (
                  make_empty_node,
                  root,
                  (
                    rw (not_0, over, all) refl,
                    inl refl,
                    append-nil (entries root),
                    (omega (arith, same), inl (omega (arith, same))),
                  ),
                )
            | inr part ↦
                let s =
                  endow_split-SplitNode len t root w (ground (arith, part, total, le)) small in
                let out = returned s.split_obj in
                (
                  contract s.stay,
                  out.0,
                  (
                    rw (not_0, over, part, s.run) (ap (λ o. some (contract s.stay, o)) out.1),
                    inr (contract-IsWellFormed len s.stay s.loose),
                    rw (out.2, entries-contract s.stay) s.held,
                    rw (out.2, entries-contract s.stay) s.filled,
                  ),
                )
          ]
    ]
  where
    -- The trie of what is split off.
    returned :
        (obj : Option Node)
        → (out : Node) × ((elim obj [ none ↦ make_empty_node | some o ↦ o ]) ≡ out)
          × (entries out ≡ entries_of obj)
    returned none = (make_empty_node, refl, refl)
    returned (some o) = (o, refl, refl)
