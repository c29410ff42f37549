-- ===== src/Account/Slots.antt =====
-- An account seen as a function from assets to balances: an asset that neither vector holds counts
-- as a fresh balance of 0. `operate_on_asset` is an update of that function at one asset.
use mathlib.Core.List.{append_assoc, append-nil}
use speedex_parallelize.Base.{
  ℕ, zero, suc, ◌+◌, ◌-◌, ◌≤◌, ◌<◌, ◌≡◌, refl, sym, ◌∙◌, List, [], ◌∷◌, ◌++◌, leb, ◌==◌,
  if◌then◌else◌, length, get_or, set, arith, replicate, length-append, Bool-cases, inl, inr,
  get_or-append-replicate, get_or-append_right, get_or-append_left, set-append_right,
  set-append_left, get_or-set,
}
use speedex_parallelize.Asset.{RevertableAsset, make}
use speedex_parallelize.Account.{UserAccount, grow, operate_on_asset}

-- The balance record of an asset.
unfoldable pub slot : UserAccount → ℕ → RevertableAsset
slot acc i = get_or (acc.owned_assets ++ acc.uncommitted_assets) i (make 0)

-- With enough fuel the loop adds fresh balances until the asset is in range.
pub grow_lem :
    (fuel asset n : ℕ) (xs : List RevertableAsset)
    → asset < n + length xs + fuel
    → (k : ℕ) × (grow fuel asset n xs ≡ xs ++ replicate k (make 0))
      × (asset < n + length (grow fuel asset n xs))
unfolding grow
grow_lem zero asset n xs h = (0, sym (append-nil xs), omega arith)
grow_lem (suc fuel) asset n xs h = elim (Bool-cases (leb (n + length xs) asset)) [
  | inl more ↦
      let (k, e, lt) =
        grow_lem fuel asset n (xs ++ make 0 ∷ []) (omega (arith, length-append xs (make 0 ∷ []))) in
      (suc k, rw more (e ∙ append_assoc xs (make 0 ∷ []) (replicate k (make 0))), rw more lt)
  | inr done ↦ (0, rw done (sym (append-nil xs)), rw done (ground arith))
]

-- Writing into a list that reads like the account's balances.
written :
    (acc : UserAccount) (all : List RevertableAsset) (asset : ℕ) (v : RevertableAsset)
    → ((b : ℕ) → get_or all b (make 0) ≡ slot acc b)
    → asset < length all
    → (b : ℕ) → get_or (set all asset v) b (make 0) ≡ (if asset == b then v else slot acc b)
written acc all asset v same lt b = rw (get_or-set all asset b v (make 0) lt, same b)

grown_same :
    (acc : UserAccount) (asset : ℕ) (b : ℕ)
    → get_or
        (acc.owned_assets
          ++ grow (suc asset) asset (length acc.owned_assets) acc.uncommitted_assets)
        b
        (make 0)
      ≡ slot acc b
unfolding slot
grown_same acc asset b =
    let (k, e, _) =
      grow_lem (suc asset) asset (length acc.owned_assets) acc.uncommitted_assets (omega arith) in
    rw (e, ← append_assoc acc.owned_assets acc.uncommitted_assets (replicate k (make 0)))
      (get_or-append-replicate (acc.owned_assets ++ acc.uncommitted_assets) k b (make 0))

module _ {ℓ} {R : Type ℓ} (func : RevertableAsset → ℕ → RevertableAsset × R) where
  -- An operation on one asset changes the balance of that asset as `func` says, changes no other,
  -- and returns what `func` returns.
  pub operate_on_asset_lem :
      (acc : UserAccount) (asset amount : ℕ)
      → let r = operate_on_asset acc asset amount func in
        ((b : ℕ)
          → slot r.0 b ≡ (if asset == b then (func (slot acc asset) amount).0 else slot acc b))
        × (r.1 ≡ (func (slot acc asset) amount).1)
  unfolding operate_on_asset slot
  operate_on_asset_lem acc asset amount =
      let owned = acc.owned_assets in
      let unc = acc.uncommitted_assets in
      let grown = grow (suc asset) asset (length owned) unc in
      elim (Bool-cases (leb (length owned) asset)) [
        | inl beyond ↦
            let le : length owned ≤ asset = ground arith in
            let at_asset : get_or grown (asset - length owned) (make 0) ≡ slot acc asset =
              get_or-append_right owned grown asset (make 0) le ∙ grown_same acc asset asset in
            rw (beyond, at_asset)
              (
                (λ b. rw (set-append_right owned grown asset _ le) (
                    written acc (owned ++ grown) asset _ (grown_same acc asset)
                      (omega (
                        arith,
                        length-append owned grown,
                        (grow_lem (suc asset) asset (length owned) unc (omega arith)).2,
                      ))
                      b)),
                refl,
              )
        | inr within ↦
            let lt : asset < length owned = ground arith in
            let at_asset : get_or owned asset (make 0) ≡ slot acc asset =
              get_or-append_left owned unc asset (make 0) lt in
            rw (within, at_asset)
              (
                (λ b. rw (set-append_left owned unc asset _ lt) (
                    written acc (owned ++ unc) asset _ (λ b. refl)
                      (omega (arith, length-append owned unc)) b)),
                refl,
              )
      ]
