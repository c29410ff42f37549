-- ===== src/MerkleTrie/Sums.antt =====
-- The arithmetic of metadata (MerkleTrie), which is modulo 2 ^ 32 and 2 ^ 64.
use speedex_parallelize.Base.{ap, ◌∙◌, sym, ◌<◌, ◌^◌, ◌≡◌, Bool, true, false, arith}
use speedex_parallelize.Xdr.{Offer}
use speedex_parallelize.MerkleTrie.{Metadata, no_metadata, add, negate, subtract, new_metadata}

-- Two of them are equal by their parts.
pub by_parts :
    (a b : Metadata)
    → a.num_deleted_subnodes ≡ b.num_deleted_subnodes
    → a.size ≡ b.size
    → a.num_rollback_subnodes ≡ b.num_rollback_subnodes
    → a.endow ≡ b.endow
    → a ≡ b
by_parts a b d s r e =
    λ i. record { num_deleted_subnodes = d i; size = s i; num_rollback_subnodes = r i; endow = e i }

pub add_comm : (a b : Metadata) → add a b ≡ add b a
unfolding add
add_comm a b = by_parts _ _ (omega arith) (omega arith) (omega arith) (omega arith)

pub add_assoc : (a b c : Metadata) → add (add a b) c ≡ add a (add b c)
unfolding add
add_assoc a b c = by_parts _ _ (omega arith) (omega arith) (omega arith) (omega arith)

-- What is added to one term of a sum is added to the sum.
pub add_middle : (a b c : Metadata) → add (add a b) c ≡ add (add a c) b
unfolding add
add_middle a b c = by_parts _ _ (omega arith) (omega arith) (omega arith) (omega arith)

pub add_nothing : (a b : Metadata) → add (add no_metadata a) b ≡ add a b
unfolding add
add_nothing a b = by_parts _ _ (omega arith) (omega arith) (omega arith) (omega arith)

pub add_to_nothing : (a b : Metadata) → add (add no_metadata a) b ≡ add b (add a no_metadata)
unfolding add
add_to_nothing a b = by_parts _ _ (omega arith) (omega arith) (omega arith) (omega arith)

pub add_nothing_right : (a b : Metadata) → add a (add b no_metadata) ≡ add a b
unfolding add
add_nothing_right a b = by_parts _ _ (omega arith) (omega arith) (omega arith) (omega arith)

pub subtract_back : (a b c : Metadata) → add (add a b) (negate b) ≡ add a no_metadata
unfolding add negate
subtract_back a b c = by_parts _ _ (omega arith) (omega arith) (omega arith) (omega arith)

abbrev pub IsWide : Metadata → Type 0
IsWide m =
    (m.num_deleted_subnodes < 2 ^ 32)
    × (m.size < 2 ^ 64)
    × (m.num_rollback_subnodes < 2 ^ 32)
    × (m.endow < 2 ^ 64)

pub add-subtract : (old new : Metadata) → IsWide new → add old (subtract new old) ≡ new
unfolding add subtract negate
add-subtract old new w = by_parts _ _ (omega arith) (omega arith) (omega arith) (omega arith)

pub add_zero_left : (a : Metadata) → IsWide a → add no_metadata a ≡ a
unfolding add
add_zero_left a w = by_parts _ _ (omega arith) (omega arith) (omega arith) (omega arith)

pub new_metadata-IsWide :
    (rollback : Bool) (offer : Offer) → offer.amount < 2 ^ 64 → IsWide (new_metadata rollback offer)
unfolding new_metadata
new_metadata-IsWide true offer lt = omega arith
new_metadata-IsWide false offer lt = omega arith

pub add_nothing_after : (a b : Metadata) → add (add a no_metadata) b ≡ add a b
unfolding add
add_nothing_after a b = by_parts _ _ (omega arith) (omega arith) (omega arith) (omega arith)

pub drop_term : (a b : Metadata) → IsWide b → add (add a b) (negate a) ≡ b
unfolding add negate
drop_term a b w = by_parts _ _ (omega arith) (omega arith) (omega arith) (omega arith)

pub add-negate : (a x : Metadata) → add (add a (negate a)) x ≡ add no_metadata x
unfolding add negate
add-negate a x = by_parts _ _ (omega arith) (omega arith) (omega arith) (omega arith)

pub add_crosswise : (a b c d : Metadata) → add (add a b) (add c d) ≡ add (add a c) (add b d)
unfolding add
add_crosswise a b c d = by_parts _ _ (omega arith) (omega arith) (omega arith) (omega arith)

pub add-IsWide : (a b : Metadata) → IsWide (add a b)
unfolding add
add-IsWide a b = omega arith

-- A term and its change cancel in a sum.
pub sum_deltas :
    (a b c d : Metadata)
    → add (add a b) (add c d) ≡ add no_metadata (add c d)
    → add c d ≡ add (add a c) (add b d)
sum_deltas a b c d e =
    sym (add_zero_left (add c d) (add-IsWide c d)) ∙ sym e ∙ add_crosswise a b c d

pub subtract_term : (m s d x : Metadata) → x ≡ add s d → x ≡ add (add m s) (add (negate m) d)
unfolding add negate
subtract_term m s d x e = e ∙ by_parts _ _ (omega arith) (omega arith) (omega arith) (omega arith)

pub add-negate-add :
    (m s d x : Metadata)
    → ((y : Metadata) → add d y ≡ add (negate s) y)
    → add (add (negate m) d) x ≡ add (negate (add m s)) x
unfolding add negate
add-negate-add m s d x h =
    let e = h x in
    by_parts _ _ (omega (arith, ap (λ y. y.num_deleted_subnodes) e))
      (omega (arith, ap (λ y. y.size) e)) (omega (arith, ap (λ y. y.num_rollback_subnodes) e))
      (omega (arith, ap (λ y. y.endow) e))

pub add-negate_none : (x : Metadata) → add no_metadata x ≡ add (negate no_metadata) x
unfolding add negate
add-negate_none x = by_parts _ _ (omega arith) (omega arith) (omega arith) (omega arith)
