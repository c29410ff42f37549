-- ===== src/MerkleTrie/Lookup.antt =====
-- Insertion followed by a lookup or by a deletion (MerkleTrie).
use speedex_parallelize.Base.{
  ℕ, ◌^◌, ◌<◌, ◌≡◌, refl, sym, ap, ◌∙◌, inl, inr, Bool, true, false, ◌||◌, some, List, [], ◌∷◌,
  arith, Bool-cases, length, IsWord,
}
use speedex_parallelize.MerkleTrie.{new_metadata, Metadata, less, Node, Entry}
use speedex_parallelize.Xdr.{Offer}
use speedex_parallelize.MerkleTrie.Digits.{less_irrefl}
use speedex_parallelize.MerkleTrie.Invariant.{entries, IsTrie, All, All-imp, entries-KeyFrom}
use speedex_parallelize.MerkleTrie.Keys.{
  same_key, same_key_refl, same_key_sound, find_value, has_key, remove, AreApart, remove-AreApart,
}
use speedex_parallelize.MerkleTrie.Ordered.{put}
use speedex_parallelize.MerkleTrie.Insert.{insert_node}
use speedex_parallelize.MerkleTrie.Insert.Laws.{insert_node_lem}
use speedex_parallelize.MerkleTrie.Read.{contains_key}
use speedex_parallelize.MerkleTrie.Read.Laws.{contains_key-has_key}
use speedex_parallelize.MerkleTrie.Delete.{delete_key}
use speedex_parallelize.MerkleTrie.Delete.Laws.{delete_key_lem}
use speedex_parallelize.MerkleTrie.Totals.{AreCounted}

-- All keys have `len` digits.
abbrev pub AreWhole : ℕ → List Entry → Type 0
AreWhole len es = All (λ e. length e.key ≡ len) es

pub entries-AreWhole : (len : ℕ) (n : Node) → IsTrie len n → AreWhole len (entries n)
entries-AreWhole len n (inl e) = rw e tt
entries-AreWhole len n (inr w) = All-imp (λ e k. k.0) (entries n) (entries-KeyFrom len n w)

pub less_connex :
    (j k : List ℕ) → length j ≡ length k → less j k ≡ false → less k j ≡ false → same_key j k ≡ true
unfolding less
less_connex [] [] e h h' = refl
less_connex [] (y ∷ k) e h h' = absurd (omega (arith, e))
less_connex (x ∷ j) [] e h h' = absurd (omega (arith, e))
less_connex (x ∷ j) (y ∷ k) e h h' = ground (arith, less_connex j k)

pub same_key_sym : (j k : List ℕ) → same_key j k ≡ same_key k j
same_key_sym [] [] = refl
same_key_sym [] (y ∷ k) = refl
same_key_sym (x ∷ j) [] = refl
same_key_sym (x ∷ j) (y ∷ k) = ground (arith, same_key_sym j k)

pub less-same_key : (j k : List ℕ) → less j k ≡ true → same_key j k ≡ false
less-same_key j k lt = elim (Bool-cases (same_key j k)) [
  | inr other ↦ other
  | inl same ↦ let e : j ≡ k = same_key_sound j k same in absurd (cc (e, lt, less_irrefl j))
]

or_or : (a b c : Bool) → (a || (b || c)) ≡ (b || (a || c))
or_or true true c = refl
or_or true false c = refl
or_or false true c = refl
or_or false false c = refl

or_twice : (a b : Bool) → (a || b) ≡ (a || (a || b))
or_twice true b = refl
or_twice false b = refl

pub has_key-put :
    (len : ℕ) (key : List ℕ) (e : Entry) (es : List Entry)
    → length e.key ≡ len
    → AreWhole len es
    → has_key key (put e es) ≡ (same_key key e.key || has_key key es)
has_key-put len key e [] full whole = refl
has_key-put len key e (f ∷ fs) full (w, whole) = elim (Bool-cases (less e.key f.key)) [
  | inl lt ↦ rw lt refl
  | inr ge ↦ elim (Bool-cases (less f.key e.key)) [
    | inl gt ↦
        rw (ge, gt, has_key-put len key e fs full whole)
          (or_or (same_key key f.key) (same_key key e.key) (has_key key fs))
    | inr le ↦
        let same : e.key ≡ f.key =
          same_key_sound e.key f.key (less_connex e.key f.key (full ∙ sym w) ge le) in
        rw (ge, le, ← ap (same_key key) same) (or_twice (same_key key e.key) (has_key key fs))
  ]
]

pub remove-put :
    (len : ℕ) (e : Entry) (es : List Entry)
    → length e.key ≡ len
    → AreWhole len es
    → has_key e.key es ≡ false
    → (remove e.key (put e es) ≡ es) × (find_value e.key (put e es) ≡ some e.value)
remove-put len e es full whole absent = go es whole (apart es absent)
  where
    apart : (es : List Entry) → has_key e.key es ≡ false → AreApart e.key es
    apart [] h = tt
    apart (f ∷ fs) h = elim (Bool-cases (same_key e.key f.key)) [
      | inl same ↦ absurd (ground (arith, h, same))
      | inr other ↦ (other, apart fs (ground (arith, h, other)))
    ]

    go :
        (es : List Entry)
        → AreWhole len es
        → AreApart e.key es
        → (remove e.key (put e es) ≡ es) × (find_value e.key (put e es) ≡ some e.value)
    go [] whole a = rw (same_key_refl e.key) (refl, refl)
    go (f ∷ fs) (w, whole) (d, a) = elim (Bool-cases (less e.key f.key)) [
      | inl lt ↦
          rw (lt, same_key_refl e.key, d) (ap (λ r. f ∷ r) (remove-AreApart e.key fs a), refl)
      | inr ge ↦ elim (Bool-cases (less f.key e.key)) [
        | inl gt ↦ let (l, r) = go fs whole a in rw (ge, gt, d) (ap (λ t. f ∷ t) l, r)
        | inr le ↦ let same = less_connex e.key f.key (full ∙ sym w) ge le in absurd (cc (same, d))
      ]
    ]

-- Take a trie, empty or not, with keys of `len` digits, two keys of that length, and an amount that is a word. After an insertion at the
-- one key the trie contains the other just when it did before or the two are the same.
pub contains_key-insert_node :
    (len : ℕ) (rollback : Bool) (key other : List ℕ) (offer : Offer) (root : Node)
    → length key ≡ len
    → length other ≡ len
    → IsWord offer.amount
    → IsTrie len root
    → (root' : Node) × (delta : Metadata) × (insert_node rollback key offer root
        ≡ some (root', delta))
      × (contains_key other root' ≡ (same_key other key || contains_key other root))
contains_key-insert_node len rollback key other offer root full full' word w =
    let (root', delta, run, w', held) = insert_node_lem len rollback key offer root full word w in
    (
      root',
      delta,
      run,
      contains_key-has_key len other root' full' (inr w')
          ∙ ap (has_key other) held
          ∙ has_key-put len other _ (entries root) full (entries-AreWhole len root w)
          ∙ ap (λ b. same_key other key || b) (sym (contains_key-has_key len other root full' w)),
    )

-- Take a trie, empty or not, with keys of `len` digits, a key of that length that it does not
-- contain, and an amount that is a word. Insert an offer at the key, and delete it again. When the
-- trie in between has fewer than 2 ^ 64 entries that each count as one in the size,
-- `MerkleTrie::perform_deletion` returns the offer, and the entries are those from before.
pub delete_key-insert_node :
    (len : ℕ) (rollback : Bool) (key : List ℕ) (offer : Offer) (root root' : Node)
    (delta : Metadata)
    → length key ≡ len
    → IsWord offer.amount
    → IsTrie len root
    → contains_key key root ≡ false
    → insert_node rollback key offer root ≡ some (root', delta)
    → AreCounted (entries root')
    → length (entries root') < 2 ^ 64
    → ((delete_key key root').1 ≡ some offer) × (entries (delete_key key root').0 ≡ entries root)
delete_key-insert_node len rollback key offer root root' delta full word w absent run counted few =
    let new : Entry = record { key = key; metadata = new_metadata rollback offer; value = offer } in
    let (r, d, run', w', held) = insert_node_lem len rollback key offer root full word w in
    let same : r ≡ root' = cc (run, run') in
    let (trie, kept, value) =
      delete_key_lem len key root' full (inr (rw (← same) w')) counted few in
    let held' : entries root' ≡ put new (entries root) = rw (← same) held in
    let (l, v) =
      remove-put len new (entries root) full (entries-AreWhole len root w)
        (sym (contains_key-has_key len key root full w) ∙ absent) in
    (value ∙ ap (find_value key) held' ∙ v, kept ∙ ap (remove key) held' ∙ l)
