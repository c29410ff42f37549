-- ===== src/Account/Commit.antt =====
-- `UserAccount::commit` and `UserAccount::rollback`.
use speedex_parallelize.Base.{List, [], ◌∷◌, ◌++◌, map, add64}
use speedex_parallelize.Asset.{RevertableAsset, make}
use speedex_parallelize.Asset
use speedex_parallelize.Account.{UserAccount}
use speedex_parallelize.Account.SeqNum.{get_seq_num_increment}

-- `owned_assets.emplace_back(uncommitted_assets[i].commit())`, for each.
unfoldable pub committed_new : List RevertableAsset → List RevertableAsset
committed_new [] = []
committed_new (a ∷ rest) = make (Asset.commit a).1 ∷ committed_new rest

unfoldable pub commit : UserAccount → UserAccount
unfolding committed_new
commit acc = record acc {
  owned_assets =
      map (λ a. (Asset.commit a).0) acc.owned_assets ++ committed_new acc.uncommitted_assets;
  uncommitted_assets = [];
  last_committed_id = add64 acc.last_committed_id (get_seq_num_increment acc.sequence_number_vec);
  sequence_number_vec = 0;
}

unfoldable pub rollback : UserAccount → UserAccount
rollback acc = record acc {
  owned_assets = map Asset.rollback acc.owned_assets;
  uncommitted_assets = [];
  sequence_number_vec = 0;
}
