-- ===== src/Clearing.antt =====
-- implementation/src/offer_clearing_logic.h: what the owner of an offer is paid when the offer is
-- cleared in full or in part, at the prices of the block. The database that is paid into is in
-- Database; here a clearing gives the amounts that it transfers.
pub mod Laws
use speedex_parallelize.Base.{ℕ, Option, none, some, u64}
use speedex_parallelize.Xdr.{Offer}
use speedex_parallelize.Price.{wide_multiply_val_by_a_over_b}
use speedex_parallelize.FixedPoint.{from_integral, tax_and_round, ceil}

-- The call `db.transfer_available(db_idx, asset, amount)`; the amount is cut to an `int64`.
pub record Transfer : Type 0 where
  pub asset : ℕ
  pub amount : ℕ

-- `none` is a division by zero.
unfoldable pub clear_offer_full : Offer → ℕ → ℕ → ℕ → Option Transfer
clear_offer_full offer sell_price buy_price tax_rate =
    elim (wide_multiply_val_by_a_over_b (from_integral offer.amount) sell_price buy_price) [
      | none ↦ none
      | some raw ↦
          some
            (record { asset = offer.category.buy_asset; amount = u64 (tax_and_round raw tax_rate) })
    ]

-- The outputs of `clear_offer_partial`, both `int64`, and the transfer.
pub record PartialClearing : Type 0 where
  pub transfer : Transfer
  pub sell_amount : ℕ
  pub buy_amount : ℕ

-- `remaining_to_clear` is the raw word of a fractional amount.
unfoldable pub clear_offer_partial : Offer → ℕ → ℕ → ℕ → ℕ → Option PartialClearing
clear_offer_partial offer sell_price buy_price tax_rate remaining_to_clear =
    elim (wide_multiply_val_by_a_over_b remaining_to_clear sell_price buy_price) [
      | none ↦ none
      | some raw ↦ some (record {
        transfer = record {
          asset = offer.category.buy_asset;
          amount = u64 (tax_and_round raw tax_rate);
        };
        sell_amount = u64 (ceil remaining_to_clear);
        buy_amount = u64 (tax_and_round raw tax_rate);
      })
    ]
