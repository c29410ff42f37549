-- ===== src/Tests/Books.antt =====
-- Concrete order books, over tries that are lists of entries in the order of their keys.
use speedex_parallelize.Base.{
  ℕ, ◌+◌, ◌-◌, ◌*◌, ◌/◌, ◌^◌, ◌≤◌, ◌<◌, ◌≡◌, ◌↔◌, ◌⊎◌, refl, Bool, true, false, ◌&&◌, ◌||◌, not,
  Option, none, some, List, [], ◌∷◌, ◌++◌, arith, ltb, leb, ◌==◌, if◌then◌else◌, length, get_elem?,
}
use speedex_parallelize.Xdr.{Offer, OfferCategory, sell}
use speedex_parallelize.Database.{MemoryDatabase}
use speedex_parallelize.Category
use speedex_parallelize.Category.{validate_category}
use speedex_parallelize.Price.{price_radix, wide_multiply_val_by_a_over_b, a_over_b_lt_c}
use speedex_parallelize.Account.{UserAccount}
use speedex_parallelize.Asset.{make}
use speedex_parallelize.Base.Maps.{find}
use speedex_parallelize.Clearing.{clear_offer_full}
use speedex_parallelize.FixedPoint.{from_integral, tax_and_round}
use speedex_parallelize.Database.{lookup_user_id, transfer_available, with_account}
use speedex_parallelize.Orders.{
  EndowAccumulator, MerkleWorkUnit, WorkUnitThunk, no_partial_exec, partial_exec,
}
use speedex_parallelize.Orders
use speedex_parallelize.Orders.Commit.{nothing, metadata_traversal}
use speedex_parallelize.Orders.Index.{get_metadata}
use speedex_parallelize.Orders.Index.Levels.{offered_up_to}
use speedex_parallelize.Orders.Index.Levels.{offered_up_to}
use speedex_parallelize.Orders.Index.Laws.{get_metadata-metadata_traversal, get_metadata-top_price}
use speedex_parallelize.Orders.Smooth.{feasible_mult}
use speedex_parallelize.Orders.Smooth.Laws.{feasible_mult_lem}
use speedex_parallelize.Orders.Demand.{full_volumes}
use speedex_parallelize.Orders.Demand.Laws.{full_volumes-value, full_volumes-no_smoothing}
use speedex_parallelize.Orders.Manager.{
  MerkleWorkUnitManager, increase_num_traded_assets, look_up_idx,
}
use speedex_parallelize.Orders.Manager.Laws.{
  increase_num_traded_assets-look_up_idx, increase_num_traded_assets-throws,
}
use speedex_parallelize.Orders.Clear.{Terms, Accounts, clear_offer, clear_offers}
use speedex_parallelize.Orders.Clear.Laws.{AllFair, entries, clear_offers_lem}
use speedex_parallelize.Trie.{OfferTrie, PriceLevel}

-- An offer, and whether it is marked for deletion.
abbrev pub Entries : Type 0
Entries = List (List ℕ × (Offer × Bool))

abbrev same_key : List ℕ → List ℕ → Bool
same_key [] [] = true
same_key (x ∷ xs) (y ∷ ys) = (x == y) && same_key xs ys
same_key xs ys = false

abbrev less_key : List ℕ → List ℕ → Bool
less_key (x ∷ xs) (y ∷ ys) = ltb x y || ((x == y) && less_key xs ys)
less_key xs ys = false

abbrev put : List ℕ → Offer → Entries → Entries
put k o [] = (k, (o, false)) ∷ []
put k o ((j, e) ∷ m) =
    let rest = put k o m in
    if same_key j k
    then (k, (o, false)) ∷ m
    else if less_key k j
    then (k, (o, false)) ∷ (j, e) ∷ m
    else (j, e) ∷ rest

abbrev take_out : List ℕ → Entries → Entries × Option Offer
take_out k [] = ([], none)
take_out k ((j, e) ∷ m) =
    let (m', found) = take_out k m in if same_key j k then (m, some e.0) else ((j, e) ∷ m', found)

abbrev mark : Bool → List ℕ → Entries → Entries × Option Offer
mark to k [] = ([], none)
mark to k ((j, (o, now)) ∷ m) =
    let (m', found) = mark to k m in
    if same_key j k
    then ((j, (o, to)) ∷ m, if (if to then not now else now) then some o else none)
    else ((j, (o, now)) ∷ m', found)

abbrev sweep : Entries → Entries × List (List ℕ × Offer)
sweep [] = ([], [])
sweep ((j, (o, gone)) ∷ m) =
    let (m', deleted) = sweep m in
    if gone then (m', (j, o) ∷ deleted) else ((j, (o, gone)) ∷ m', deleted)

abbrev merge : Entries → Entries → Entries
merge m [] = m
merge m ((k, (o, gone)) ∷ rest) = merge (put k o m) rest

abbrev offers : Entries → List Offer
offers [] = []
offers ((k, (o, gone)) ∷ m) = o ∷ offers m

abbrev levels : Entries → List PriceLevel
levels [] = []
levels ((k, (o, gone)) ∷ m) = record { price = o.min_price; endow = o.amount } ∷ levels m

abbrev endow : Entries → ℕ
endow [] = 0
endow ((k, (o, gone)) ∷ m) = o.amount + endow m

abbrev endow_below : List ℕ → Entries → ℕ
endow_below key [] = 0
endow_below key ((k, (o, gone)) ∷ m) = (if less_key k key then o.amount else 0) + endow_below key m

abbrev split : ℕ → Entries → Option (Entries × Entries)
split n [] = if n == 0 then some ([], []) else none
split n ((k, (o, gone)) ∷ m) =
    let rest = split (n - o.amount) m in
    if leb o.amount n
    then elim rest [ none ↦ none | some (stay, go) ↦ some (stay, (k, (o, gone)) ∷ go) ]
    else some ((k, (o, gone)) ∷ m, [])

abbrev lowest : Entries → Option (List ℕ)
lowest [] = none
lowest ((k, e) ∷ m) = some k

abbrev pub list_trie : OfferTrie Entries
list_trie = record {
  empty = [];
  insert = put;
  perform_deletion = take_out;
  mark_for_deletion = mark true;
  unmark_for_deletion = mark false;
  perform_marked_deletions = sweep;
  merge_in = merge;
  do_rollback = λ t. t;
  clear_rollback = λ t. t;
  clean_singlechild_nodes = λ k t. t;
  values = offers;
  price_levels = levels;
  size = length;
  root_endow = endow;
  endow_lt_key = endow_below;
  endow_split = split;
  get_lowest_key = lowest;
}

-- Two price levels: 10 units at the price 3, and 20 at the price 5.
abbrev two_levels : List PriceLevel
two_levels = record { price = 3; endow = 10 } ∷ record { price = 5; endow = 20 } ∷ []

get_metadata-metadata_traversal_example :
    get_metadata (metadata_traversal two_levels) 4 ≡ some (offered_up_to 4 nothing two_levels)
get_metadata-metadata_traversal_example =
    get_metadata-metadata_traversal two_levels 4 (omega arith, tt) (λ e. omega (arith, e))

get_metadata-top_price_example :
    get_metadata (metadata_traversal two_levels) 5 ≡ some (offered_up_to 4 nothing two_levels)
get_metadata-top_price_example =
    get_metadata-top_price two_levels (omega arith, tt) (omega arith) (omega arith)

feasible_mult_lem_example :
    (k : ℕ) × (feasible_mult 64 60 ≡ some k)
    × (k < 64)
    × (64 - 64 / 2 ^ k ≤ 60)
    × (60 < 64 - 64 / 2 ^ (k + 1))
feasible_mult_lem_example = feasible_mult_lem 64 60 (omega arith) (omega arith)

abbrev ten : EndowAccumulator
ten = record { endow = 10; endow_times_price = 30 }

abbrev thirty : EndowAccumulator
thirty = record { endow = 30; endow_times_price = 130 * 2 ^ 24 }

full_volumes-no_smoothing_example :
    full_volumes ten ten 6 2 0
    ≡ some
        (record { sell_volume = 10 * 2 ^ price_radix; buy_volume = 10 * 2 ^ price_radix * 6 / 2 })
full_volumes-no_smoothing_example =
    full_volumes-no_smoothing ten 6 2 (omega arith) (omega arith) (omega arith) (omega arith)
      (omega arith)

ten_of_ten :
    full_volumes ten ten 6 2 0
    ≡ some (record { sell_volume = 10 * 2 ^ 24; buy_volume = 30 * 2 ^ 24 })
unfolding full_volumes wide_multiply_val_by_a_over_b
ten_of_ten = refl

full_volumes-value_example : (0 < 2) × (30 * 2 ^ 24 * 2 ≤ 10 * 2 ^ 24 * 6)
full_volumes-value_example = full_volumes-value ten ten 6 2 0 (omega arith) ten_of_ten

abbrev pair : ℕ → ℕ → OfferCategory
pair s b = record { sell_asset = s; buy_asset = b; type = sell }

abbrev two_books : MerkleWorkUnitManager Entries
two_books = record {
  work_units = Orders.new [] (pair 0 1) ∷ Orders.new [] (pair 1 0) ∷ [];
  num_assets = 2;
}

a_pair : validate_category (pair 1 0) 2 ≡ true
unfolding validate_category
a_pair = refl

two_units : length two_books.work_units ≡ Category.get_num_work_units_by_asset_count 2
unfolding Category.get_num_work_units_by_asset_count
two_units = refl

increase_num_traded_assets-look_up_idx_example :
    (m' : MerkleWorkUnitManager Entries) × (old new : ℕ) × (w : MerkleWorkUnit Entries)
    × (increase_num_traded_assets [] two_books 3 ≡ some m')
    × (look_up_idx two_books (pair 1 0) ≡ some old)
    × (look_up_idx m' (pair 1 0) ≡ some new)
    × (get_elem? two_books.work_units old ≡ some w)
    × (get_elem? m'.work_units new ≡ some w)
increase_num_traded_assets-look_up_idx_example =
    increase_num_traded_assets-look_up_idx [] two_books 3 (omega arith) (omega arith) two_units
      (pair 1 0) a_pair

increase_num_traded_assets-throws_example :
    (increase_num_traded_assets [] two_books 50000 ≡ none) ↔ ((50000 < 2) ⊎ (46341 < 50000))
increase_num_traded_assets-throws_example =
    increase_num_traded_assets-throws [] two_books 50000 two_units (omega arith)

-- Account 70, with 50 units of asset 0, is the whole table; the trie of the database is not looked at.
abbrev pub rich_account : UserAccount
rich_account = record {
  owned_assets = make 50 ∷ [];
  uncommitted_assets = [];
  sequence_number_vec = 0;
  last_committed_id = 0;
  owner = 70;
  pk = [];
}

abbrev pub one_account : MemoryDatabase ℕ
one_account = record {
  user_id_to_idx_map = (70, 0) ∷ [];
  uncommitted_idx_map = [];
  reserved_account_ids = [];
  database = rich_account ∷ [];
  uncommitted_db = [];
  commitment_trie = 0;
  account_creation_thunks = [];
}

abbrev pub an_offer : ℕ → Offer
an_offer amount = record {
  category = pair 1 0;
  offer_id = 256;
  owner = 70;
  amount = amount;
  min_price = 2 ^ 24;
}

abbrev even_terms : Terms
even_terms = record { sell_price = 1; buy_price = 1; tax_rate = 10 }

abbrev start : Accounts ℕ
start = record { db = one_account; log = [] }

cleared : (a : Accounts ℕ) × (clear_offers even_terms (an_offer 8 ∷ []) start ≡ some a)
unfolding clear_offers clear_offer a_over_b_lt_c lookup_user_id find clear_offer_full from_integral
    wide_multiply_val_by_a_over_b tax_and_round transfer_available with_account
cleared = (_, refl)

clear_offers_lem_example :
    AllFair even_terms (an_offer 8 ∷ []) × (cleared.0.log ≡ [] ++ entries (an_offer 8 ∷ []))
clear_offers_lem_example = clear_offers_lem even_terms (an_offer 8 ∷ []) start cleared.1
