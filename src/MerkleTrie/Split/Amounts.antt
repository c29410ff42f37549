-- ===== src/MerkleTrie/Split/Amounts.antt =====
-- The amounts that entries of a trie offer (MerkleTrie/Split).
use speedex_parallelize.Base.{
  signed_leb, ℕ, ◌+◌, ◌%◌, ◌^◌, ◌≤◌, ◌<◌, ◌≡◌, refl, ap, ◌∙◌, List, [], ◌∷◌, ◌++◌, arith, leb,
  length,
}
use speedex_parallelize.MerkleTrie.{add, Node, leaf, branch, metadata_of, Entry}
use speedex_parallelize.MerkleTrie.Invariant.{entries, entries_below, IsWellFormed}
use speedex_parallelize.MerkleTrie.Totals.{totals, sum-totals}

pub signed_leb-small : (a b : ℕ) → a < 2 ^ 63 → b < 2 ^ 63 → signed_leb a b ≡ leb a b
signed_leb-small a b la lb = ground arith

-- The sum of the amounts of entries, and the amount of the first one.
abbrev pub endow_sum : List Entry → ℕ
endow_sum [] = 0
endow_sum (e ∷ es) = e.metadata.endow + endow_sum es

abbrev pub first_endow : List Entry → ℕ
first_endow [] = 0
first_endow (e ∷ es) = e.metadata.endow

pub endow_sum-append : (xs ys : List Entry) → endow_sum (xs ++ ys) ≡ endow_sum xs + endow_sum ys
endow_sum-append [] ys = omega arith
endow_sum-append (x ∷ xs) ys = omega (arith, endow_sum-append xs ys)

pub first_endow-append :
    (xs ys : List Entry) → 1 ≤ length xs → first_endow (xs ++ ys) ≡ first_endow xs
first_endow-append [] ys le = absurd (omega (arith, le))
first_endow-append (x ∷ xs) ys le = refl

totals-endow : (es : List Entry) → (totals es).endow ≡ endow_sum es % 2 ^ 64
unfolding add
totals-endow [] = refl
totals-endow (e ∷ es) = omega (arith, totals-endow es)

-- The amount in the metadata of a node, when there is no overflow.
pub endow-entries :
    (len : ℕ) (n : Node)
    → IsWellFormed len n
    → endow_sum (entries n) < 2 ^ 63
    → (metadata_of n).endow ≡ endow_sum (entries n)
endow-entries len (leaf p m v) w lt = omega arith
endow-entries len (branch p m cs) (short, many, e, ws) lt =
    let eq = ap (λ s. s.endow) (e ∙ sum-totals len p 0 cs ws) in
    omega (arith, eq, lt, totals-endow (entries_below cs))
