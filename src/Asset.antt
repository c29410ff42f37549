-- ===== src/Asset.antt =====
-- implementation/src/revertable_asset.h: one asset balance of an account, with the value that the
-- last commit fixed. Amounts are 64-bit words (Base/Words).
--
-- `conditional_transfer_available` stands here as one atomic step, which is what its callers use;
-- Asset/CasLoop has the compare-and-swap loop of the source.
pub mod CasLoop
pub mod Laws
use speedex_parallelize.Base.{
  ℕ, Bool, true, false, add64, neg64, sub64, is_negative, leb, ltb, ◌==◌, if◌then◌else◌, not, ◌||◌,
}

pub record RevertableAsset : Type 0 where
  pub available : ℕ
  pub committed_available : ℕ
  pub commit_modified : Bool
  pub checkpoint_modified : Bool

-- `RevertableAsset(amount_t amount)`; the constructor without argument passes 0.
unfoldable pub make : ℕ → RevertableAsset
make amount = record {
  available = amount;
  committed_available = amount;
  commit_modified = true;
  checkpoint_modified = true;
}

unfoldable pub escrow : RevertableAsset → ℕ → RevertableAsset
escrow a amount = record a { available = add64 a.available (neg64 amount) }

unfoldable pub transfer_available : RevertableAsset → ℕ → RevertableAsset
transfer_available a amount = record a { available = add64 a.available amount }

-- The whole loop, when no other thread writes between its load and its compare-and-swap.
unfoldable pub conditional_transfer_available : RevertableAsset → ℕ → RevertableAsset × Bool
conditional_transfer_available a amount =
    let tentative_available = add64 a.available amount in
    if is_negative tentative_available
    then (a, false)
    else (record a { available = tentative_available }, true)

-- `amount > 0`, of a two's complement word.
abbrev pub is_positive : ℕ → Bool
is_positive amount = if amount == 0 then false else not (is_negative amount)

unfoldable pub conditional_escrow : RevertableAsset → ℕ → RevertableAsset × Bool
unfolding conditional_transfer_available transfer_available
conditional_escrow a amount =
    if is_positive amount
    then conditional_transfer_available a (neg64 amount)
    else (transfer_available a (neg64 amount), true)

unfoldable pub lookup_available_balance : RevertableAsset → ℕ
lookup_available_balance a = a.available

-- Returns the committed amount beside the new state.
unfoldable pub commit : RevertableAsset → RevertableAsset × ℕ
commit a =
    let new_avail = a.available in
    if new_avail == a.committed_available then (a, a.committed_available) else (
      record a {
        committed_available = new_avail;
        commit_modified = true;
        checkpoint_modified = true;
      },
      new_avail,
    )

unfoldable pub rollback : RevertableAsset → RevertableAsset
rollback a = record a { available = a.committed_available }

unfoldable pub in_valid_state : RevertableAsset → Bool
in_valid_state a = not (is_negative a.available)
