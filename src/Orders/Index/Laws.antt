-- ===== src/Orders/Index/Laws.antt =====
-- What `get_metadata` (Orders/Index) finds in the entries that `metadata_traversal` leaves.
use speedex_parallelize.Base.{
  leb→le, ltb→lt, ℕ, suc, ◌-◌, ◌<◌, ◌≡◌, refl, sym, ap, ◌∙◌, ◌≢◌, inl, inr, true, false, some, List,
  [], ◌∷◌, arith, ltb, leb, ◌==◌, Bool-cases, length,
}
use speedex_parallelize.Trie.{PriceLevel}
use speedex_parallelize.Orders.Commit.{nothing, accumulate, metadata_traversal}
use speedex_parallelize.Orders.Index.{query, entry, get_metadata}
use speedex_parallelize.Orders.Index.Levels.{
  IsAscending-lt, IsAscending-le, price_at, IsAscending, offered_up_to, entry_key, top_price,
  right_at, searched, length-metadata_traversal, entry_lem,
}

top_key :
    (levels : List PriceLevel)
    → 0 < length levels
    → (entry (metadata_traversal levels) (length levels)).key ≡ top_price levels
unfolding metadata_traversal
top_key [] some_level = absurd (omega arith)
top_key (l ∷ ls) some_level =
    let e : suc (length ls) - 1 ≡ length ls = omega arith in
    entry_key nothing (l ∷ ls) (record { key = 0; metadata = nothing }) (length ls) ∙ rw e refl

query_lem :
    (levels : List PriceLevel) (p : ℕ)
    → IsAscending levels
    → 0 < length levels
    → top_price levels ≢ p
    → query (metadata_traversal levels) p (length levels) ≡ some (offered_up_to p nothing levels)
unfolding query
query_lem levels p s some_level ne =
    let n = length levels in
    let index = metadata_traversal levels in
    let nonempty : (n == 0) ≡ false = ground arith in
    let top = top_key levels some_level in
    let (r, run, d) = searched levels p s some_level in
    elim (Bool-cases (ltb (entry index n).key p)) [
      | inl past ↦
          let above : top_price levels < p = ltb→lt _ _ (sym (ap (λ k. ltb k p) top) ∙ past) in
          rw (query, nonempty, past)
            (ap some (
              entry_lem levels p n (omega arith)
                (λ i lt.
                  omega
                    (arith, above, IsAscending-le levels i (n - 1) s (omega arith) (omega arith)))
                (λ i le lt. absurd (omega arith))))
      | inr below ↦
          let up : p < top_price levels = ground (arith, sym (ap (λ k. ltb k p) top) ∙ below, ne) in
          rw (query, nonempty, below, run)
            (ap some (
              entry_lem levels p (r - 1) (omega (arith, d.to_hi))
                (λ i lt.
                  leb→le _ _
                    (sym (right_at levels p i) ∙ d.below (suc i) (omega arith) (omega arith)))
                (λ i le lt. elim (Bool-cases (ltb (suc i) n)) [
                  | inl inside ↦
                      let e =
                        sym (right_at levels p i)
                        ∙ d.above (suc i) (omega (arith, d.from_lo)) (ltb→lt _ _ inside) in
                      ground (arith, e)
                  | inr last ↦ let e : i ≡ n - 1 = ground arith in rw e up
                ])))
    ]

-- Take price levels in ascending order, and a price that is not the highest of them. Then
-- `get_metadata`, on the entries that `metadata_traversal` makes of the levels, finds what the book
-- offers at that price or below.
pub get_metadata-metadata_traversal :
    (levels : List PriceLevel) (p : ℕ)
    → IsAscending levels
    → top_price levels ≢ p
    → get_metadata (metadata_traversal levels) p ≡ some (offered_up_to p nothing levels)
unfolding get_metadata query metadata_traversal accumulate
get_metadata-metadata_traversal [] p s ne = refl
get_metadata-metadata_traversal (l ∷ ls) p s ne =
    ap (query (metadata_traversal (l ∷ ls)) p) (length-metadata_traversal (l ∷ ls))
    ∙ query_lem (l ∷ ls) p s (omega arith) ne

query_top :
    (levels : List PriceLevel)
    → IsAscending levels
    → 0 < length levels
    → 0 < top_price levels
    → query (metadata_traversal levels) (top_price levels) (length levels)
      ≡ some (offered_up_to (top_price levels - 1) nothing levels)
unfolding query
query_top levels s some_level positive =
    let n = length levels in
    let p = top_price levels in
    let index = metadata_traversal levels in
    let nonempty : (n == 0) ≡ false = ground arith in
    let level : ltb (entry index n).key p ≡ false =
      ap (λ k. ltb k p) (top_key levels some_level) ∙ ground arith in
    let (r, run, d) = searched levels p s some_level in
    let cheap : (i : ℕ) → i < n → leb (price_at levels i) p ≡ true =
      λ i lt. ground (arith, IsAscending-le levels i (n - 1) s (omega arith) (omega arith)) in
    let last : r ≡ n = elim (Bool-cases (ltb r n)) [
      | inl inside ↦
          let e : suc (r - 1) ≡ r = omega (arith, d.from_lo) in
          let right : leb (entry index r).key p ≡ true =
            ap (λ i. leb (entry index i).key p) (sym e)
            ∙ right_at levels p (r - 1)
            ∙ cheap (r - 1) (omega (arith, d.from_lo, d.to_hi)) in
          cc (right, d.above r (omega arith) (ltb→lt _ _ inside))
      | inr past ↦ ground (arith, d.to_hi)
    ] in
    rw (query, nonempty, level, run, last)
      (ap some (
        entry_lem levels (p - 1) (n - 1) (omega arith)
          (λ i lt. omega (arith, IsAscending-lt levels i (n - 1) s (omega arith) (omega arith)))
          (λ i le lt. let e : i ≡ n - 1 = omega arith in rw e (omega arith))))

-- Take price levels in ascending order, at least one, the highest of them not 0. At the highest
-- price `get_metadata` finds only what the book offers below it: the offers at that price itself are
-- left out.
pub get_metadata-top_price :
    (levels : List PriceLevel)
    → IsAscending levels
    → 0 < length levels
    → 0 < top_price levels
    → get_metadata (metadata_traversal levels) (top_price levels)
      ≡ some (offered_up_to (top_price levels - 1) nothing levels)
unfolding get_metadata
get_metadata-top_price levels s some_level positive =
    ap (query (metadata_traversal levels) (top_price levels)) (length-metadata_traversal levels)
    ∙ query_top levels s some_level positive
