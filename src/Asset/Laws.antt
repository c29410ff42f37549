-- ===== src/Asset/Laws.antt =====
-- What the operations on one balance promise.
use speedex_parallelize.Base.{leb, if◌then◌else◌, ℕ, ◌-◌, ◌≡◌, true, false, [], arith, IsNonneg}
use speedex_parallelize.Asset.{RevertableAsset, conditional_transfer_available, conditional_escrow}
use speedex_parallelize.Asset.CasLoop.{cas_loop}

-- The compare-and-swap loop without other threads has the result of the atomic step.
pub conditional_transfer_available-cas_loop :
    (a : RevertableAsset) (amount : ℕ)
    → let r = conditional_transfer_available a amount in
      cas_loop [] a.available amount ≡ (r.0.available, r.1)
unfolding conditional_transfer_available cas_loop
conditional_transfer_available-cas_loop a amount = ground arith

-- Escrow of an amount out of a balance, both not negative: it takes exactly the amount and succeeds
-- if the balance covers it, and otherwise changes nothing and fails.
pub conditional_escrow_lem :
    (a : RevertableAsset) (amount : ℕ)
    → IsNonneg a.available
    → IsNonneg amount
    → conditional_escrow a amount ≡ (
        if leb amount a.available
        then (record a { available = a.available - amount }, true)
        else (a, false))
unfolding conditional_escrow
conditional_escrow_lem a amount h k = ground arith
