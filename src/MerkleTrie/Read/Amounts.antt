-- ===== src/MerkleTrie/Read/Amounts.antt =====
-- `endow_lt_key` (MerkleTrie/Read): the sum of the amounts at lower keys.
use speedex_parallelize.Base.{
  get_elem?-below, ℕ, suc, ◌^◌, ◌≤◌, ◌<◌, ◌≡◌, refl, ap, ◌∙◌, inl, inr, true, false, List, [], ◌∷◌,
  ◌++◌, arith, ltb, ◌==◌, if◌then◌else◌, Bool-cases, Option-cases, length, get_elem?, take,
}
use speedex_parallelize.MerkleTrie.{
  match_len, less, Node, leaf, branch, Children, no_more, child, Entry,
}
use speedex_parallelize.MerkleTrie.Digits.{Starts, Continues, less-Continues, less_asym}
use speedex_parallelize.MerkleTrie.Invariant.{
  entries, entries_below, IsWellFormed, AreWellFormed, IsTrie, All, All-imp, entries-KeyFrom,
}
use speedex_parallelize.MerkleTrie.Split.Amounts.{endow_sum, endow_sum-append, endow-entries}
use speedex_parallelize.MerkleTrie.Insert.Walk.{keys_go_on}
use speedex_parallelize.MerkleTrie.Read.{endow_lt_key, endow_below}

-- The entries at keys below `key`.
abbrev pub entries_lt : List ℕ → List Entry → List Entry
entries_lt key [] = []
entries_lt key (e ∷ es) = if less e.key key then e ∷ entries_lt key es else entries_lt key es

entries_lt-append :
    (key : List ℕ) (xs ys : List Entry)
    → entries_lt key (xs ++ ys) ≡ entries_lt key xs ++ entries_lt key ys
entries_lt-append key [] ys = refl
entries_lt-append key (x ∷ xs) ys = elim (Bool-cases (less x.key key)) [
  | inl lt ↦ rw lt (ap (λ r. x ∷ r) (entries_lt-append key xs ys))
  | inr ge ↦ rw ge (entries_lt-append key xs ys)
]

entries_lt-All :
    (key : List ℕ) (es : List Entry) → All (λ e. less e.key key ≡ true) es → entries_lt key es ≡ es
entries_lt-All key [] a = refl
entries_lt-All key (e ∷ es) (lt, a) = rw lt (ap (λ r. e ∷ r) (entries_lt-All key es a))

entries_lt_none :
    (key : List ℕ) (es : List Entry) → All (λ e. less e.key key ≡ false) es → entries_lt key es ≡ []
entries_lt_none key [] a = refl
entries_lt_none key (e ∷ es) (ge, a) = rw ge (entries_lt_none key es a)

endow_sum-entries_lt :
    (key : List ℕ) (es : List Entry) → endow_sum (entries_lt key es) ≤ endow_sum es
endow_sum-entries_lt key [] = omega arith
endow_sum-entries_lt key (e ∷ es) = ground (arith, endow_sum-entries_lt key es)

-- A prefix that differs from that of the key decides the order of all keys with it.
less-take :
    (p k key : List ℕ) → Starts p k → less p (take (length p) key) ≡ true → less k key ≡ true
unfolding match_len less
less-take [] k key s h = cc
less-take (x ∷ p) [] key s h = absurd (omega (arith, s))
less-take (x ∷ p) (y ∷ k) [] s h = cc
less-take (x ∷ p) (y ∷ k) (z ∷ key) s h = ground (arith, less-take p k key)

take-less :
    (p k key : List ℕ) → Starts p k → less (take (length p) key) p ≡ true → less key k ≡ true
unfolding match_len less
take-less [] k key s h = cc
take-less (x ∷ p) [] key s h = absurd (omega (arith, s))
take-less (x ∷ p) (y ∷ k) [] s h = cc
take-less (x ∷ p) (y ∷ k) (z ∷ key) s h = ground (arith, take-less p k key)

same-take :
    (p key : List ℕ)
    → length p ≤ length key
    → less p (take (length p) key) ≡ false
    → less (take (length p) key) p ≡ false
    → Starts p key
unfolding match_len less
same-take [] key le h h' = refl
same-take (x ∷ p) [] le h h' = absurd (omega (arith, le))
same-take (x ∷ p) (z ∷ key) le h h' = ground (arith, same-take p key)

module _ (len : ℕ) (key : List ℕ) (full : length key ≡ len) where
  mutual
    unfolding endow_lt_key

    endow_lt_key-node :
        (n : Node)
        → IsWellFormed len n
        → endow_sum (entries n) < 2 ^ 63
        → endow_lt_key key n ≡ endow_sum (entries_lt key (entries n))
    endow_lt_key-node (leaf p m v) w small = elim (Bool-cases (less p key)) [
      | inl lt ↦ rw lt (omega arith)
      | inr ge ↦ rw ge refl
    ]
    endow_lt_key-node (branch p m cs) (short, many, e, ws) small =
        let w : IsWellFormed len (branch p m cs) = (short, many, e, ws) in
        let keys = entries-KeyFrom len (branch p m cs) w in
        let es = entries_below cs in
        elim (Bool-cases (less p (take (length p) key))) [
          | inl lt ↦
              let all =
                entries_lt-All key es (All-imp (λ x k. less-take p x.key key k.1 lt) es keys) in
              rw (lt, all) (endow-entries len (branch p m cs) w small)
          | inr ge ↦ elim (Bool-cases (less (take (length p) key) p)) [
            | inl gt ↦
                let nothing =
                  entries_lt_none key es
                    (All-imp (λ x k. less_asym key x.key (take-less p x.key key k.1 gt)) es keys) in
                rw (ge, gt, nothing) refl
            | inr le ↦
                let starts = same-take p key (omega (arith, short, full)) ge le in
                let (b, at) = get_elem?-below key (length p) (omega (arith, short, full)) in
                rw (ge, le, at) (endow_below-children p 0 b cs (starts, at) ws small)
          ]
        ]

    endow_below-children :
        (p : List ℕ) (least b : ℕ) (cs : Children)
        → Continues p b key
        → AreWellFormed len p least cs
        → endow_sum (entries_below cs) < 2 ^ 63
        → endow_below b key cs ≡ endow_sum (entries_lt key (entries_below cs))
    endow_below-children p least b no_more on ws small = refl
    endow_below-children p least b (child c n cs) on (le, on_n, w, ws) small =
        let amounts = endow_sum-append (entries n) (entries_below cs) in
        let rest = endow_below-children p (suc c) b cs on ws (omega (arith, small, amounts)) in
        let split =
          ap endow_sum (entries_lt-append key (entries n) (entries_below cs))
          ∙ endow_sum-append (entries_lt key (entries n)) (entries_lt key (entries_below cs)) in
        let go_on = keys_go_on len p c n on_n w in
        elim (Bool-cases (c == b)) [
          | inl same ↦
              let here = endow_lt_key-node n w (omega (arith, small, amounts)) in
              rw same (
                omega (
                  arith,
                  here,
                  rest,
                  split,
                  small,
                  amounts,
                  endow_sum-entries_lt key (entries n),
                  endow_sum-entries_lt key (entries_below cs),
                ))
          | inr other ↦ elim (Bool-cases (ltb c b)) [
            | inl below ↦
                let all = ap endow_sum (
                  entries_lt-All key (entries n) (
                    All-imp (λ x k. less-Continues p x.key key c b k on (ground (arith, below)))
                      (entries n) go_on)) in
                let here = endow-entries len n w (omega (arith, small, amounts)) in
                rw (other, below)
                  (omega (
                    arith,
                    here,
                    rest,
                    all,
                    split,
                    small,
                    amounts,
                    endow_sum-entries_lt key (entries_below cs),
                  ))
            | inr above ↦
                let nothing = ap endow_sum (
                  entries_lt_none key (entries n) (
                    All-imp
                      (λ x k.
                        less_asym key x.key
                          (less-Continues p key x.key b c on k (ground (arith, above, other))))
                      (entries n) go_on)) in
                rw (other, above) (omega (arith, rest, nothing, split))
          ]
        ]

-- Take a trie, empty or not, with keys of `len` digits, whose entries offer less than 2 ^ 63 together, and a key of that length. Then
-- `endow_lt_key` is the sum of the amounts of the entries with lower keys.
pub endow_lt_key-entries_lt :
    (len : ℕ) (key : List ℕ) (root : Node)
    → length key ≡ len
    → IsTrie len root
    → endow_sum (entries root) < 2 ^ 63
    → endow_lt_key key root ≡ endow_sum (entries_lt key (entries root))
unfolding endow_lt_key less
endow_lt_key-entries_lt len key root full (inl e) small =
    rw e (elim (Option-cases (get_elem? key 0)) [ inl at ↦ rw at refl | inr (b, at) ↦ rw at refl ])
endow_lt_key-entries_lt len key root full (inr w) small =
    endow_lt_key-node len key full root w small
