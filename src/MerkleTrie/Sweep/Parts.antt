-- ===== src/MerkleTrie/Sweep/Parts.antt =====
-- What the sweep (MerkleTrie/Sweep) makes of one leaf, one child and one branch.
use speedex_parallelize.Base.{
  ℕ, ◌>>=◌, suc, ◌≤◌, ◌≡◌, refl, sym, ap, ◌∙◌, ◌⊎◌, inl, inr, true, false, Option, some, List, [],
  ◌∷◌, ◌++◌, arith, ◌==◌, Bool-cases, length,
}
use speedex_parallelize.MerkleTrie.{
  Metadata, no_metadata, add, negate, Node, leaf, branch, Children, no_more, child, metadata_of,
  prefix_of, is_empty,
}
use speedex_parallelize.Xdr.{Offer}
use speedex_parallelize.MerkleTrie.Invariant.{
  entries, entries_below, sum, IsWellFormed, AreWellFormed,
}
use speedex_parallelize.MerkleTrie.Loose.{
  IsLoose, IsWellFormed-IsLoose, contract-IsWellFormed, entries-contract, add-contract,
  contract-Continues, AreWellFormed-from,
}
use speedex_parallelize.MerkleTrie.Sums.{add_nothing_after, add-negate, add_crosswise, sum_deltas}
use speedex_parallelize.MerkleTrie.Sweep.Marks.{
  unmarked_entries, marked_offers, unmarked_entries-append, marked_offers-append, AreUnmarked,
  unmarked_entries-AreUnmarked,
}
use speedex_parallelize.MerkleTrie.Sweep.{
  Swept, SweptBelow, untouched, sweep_leaf, sweep_branch, sweep_child,
}

-- What the sweep makes of a node: it stays, or it is to go.
pub record Kept (len : ℕ) (marks : Metadata → ℕ) (old : Node) (r : Swept) : Type 0 where
  pub kept : r.delete ≡ false
  pub loose : IsLoose len r.node
  pub held : entries r.node ≡ unmarked_entries marks (entries old)
  pub same_prefix : prefix_of r.node ≡ prefix_of old
  pub total :
      (x : Metadata) → add (metadata_of r.node) x ≡ add (add (metadata_of old) r.metadata_delta) x

pub record Gone (marks : Metadata → ℕ) (old : Node) (r : Swept) : Type 0 where
  pub gone : r.delete ≡ true
  pub nothing : unmarked_entries marks (entries old) ≡ []
  pub total : (x : Metadata) → add (add (metadata_of old) r.metadata_delta) x ≡ add no_metadata x

pub record SweptNode (len : ℕ) (marks : Metadata → ℕ) (old : Node) (result : Option Swept)
    : Type 0 where
  pub swept : Swept
  pub run : result ≡ some swept
  pub log : swept.handled ≡ marked_offers marks (entries old)
  pub rest : Gone marks old swept ⊎ Kept len marks old swept

pub record SweptChildren (len : ℕ) (marks : Metadata → ℕ) (p : List ℕ) (least : ℕ) (old : Children)
    (result : Option SweptBelow) : Type 0 where
  pub swept : SweptBelow
  pub run : result ≡ some swept
  pub log : swept.handled ≡ marked_offers marks (entries_below old)
  pub well_formed : AreWellFormed len p least swept.children
  pub held : entries_below swept.children ≡ unmarked_entries marks (entries_below old)
  pub total : sum swept.children ≡ add (sum old) swept.metadata_delta

pub untouched-SweptNode :
    (len : ℕ) (marks : Metadata → ℕ) (n : Node)
    → IsWellFormed len n
    → AreUnmarked marks (entries n)
    → SweptNode len marks n (some (untouched n))
untouched-SweptNode len marks n w a =
    let (l, r) = unmarked_entries-AreUnmarked marks (entries n) a in
    record {
      swept = untouched n;
      run = refl;
      log = sym r;
      rest = inr (record {
        kept = refl;
        loose = IsWellFormed-IsLoose len n w;
        held = sym l;
        same_prefix = refl;
        total = λ x. sym (add_nothing_after (metadata_of n) x);
      });
    }

pub sweep_leaf-SweptNode :
    (len : ℕ) (marks : Metadata → ℕ) (p : List ℕ) (m : Metadata) (v : Offer)
    → length p ≡ len
    → marks m ≤ 1
    → SweptNode len marks (leaf p m v) (sweep_leaf (marks m) p m v)
unfolding sweep_leaf
sweep_leaf-SweptNode len marks p m v w le = elim (Bool-cases (marks m == 0)) [
  | inl z ↦ rw z (untouched-SweptNode len marks (leaf p m v) w (ground arith, tt))
  | inr nz ↦
      let one : (marks m == 1) ≡ true = ground arith in
      rw (nz, one)
        (record {
          swept = record {
            node = leaf p m v;
            delete = true;
            metadata_delta = negate m;
            handled = (p, v) ∷ [];
          };
          run = refl;
          log = rw nz refl;
          rest = inl (record { gone = refl; nothing = rw nz refl; total = add-negate m });
        })
]

pub sweep_child-SweptChildren :
    (len : ℕ) (marks : Metadata → ℕ) (p : List ℕ) (least c : ℕ) (n : Node) (cs : Children)
    (here : Option Swept) (behind : Option SweptBelow)
    → AreWellFormed len p least (child c n cs)
    → SweptNode len marks n here
    → SweptChildren len marks p (suc c) cs behind
    → SweptChildren len marks p least
        (child c n cs)
        (do r ← here; rest ← behind; some (sweep_child c r rest))
unfolding sweep_child
sweep_child-SweptChildren len marks p least c n cs here behind (le, on, w, ws) h g =
    let log : h.swept.handled ++ g.swept.handled
        ≡ marked_offers marks (entries n ++ entries_below cs) =
      rw (h.log, g.log) (sym (marked_offers-append marks (entries n) (entries_below cs))) in
    elim h.rest [
      | inl gone ↦ record {
        swept = sweep_child c h.swept g.swept;
        run = rw (h.run, g.run) refl;
        log = log;
        well_formed = rw gone.gone (
            AreWellFormed-from len p least (suc c) g.swept.children (omega (arith, le))
              g.well_formed);
        held =
            rw (gone.gone, g.held)
              (sym (
                unmarked_entries-append marks (entries n) (entries_below cs)
                ∙ ap (λ es. es ++ unmarked_entries marks (entries_below cs)) gone.nothing));
        total = rw gone.gone (
            g.total
            ∙ sum_deltas (metadata_of n) h.swept.metadata_delta (sum cs) g.swept.metadata_delta
                (gone.total (add (sum cs) g.swept.metadata_delta)));
      }
      | inr k ↦ record {
        swept = sweep_child c h.swept g.swept;
        run = rw (h.run, g.run) refl;
        log = log;
        well_formed = rw k.kept (
          le,
          contract-Continues len p c h.swept.node (rw k.same_prefix on) k.loose,
          contract-IsWellFormed len h.swept.node k.loose,
          g.well_formed,
        );
        held =
            rw (k.kept, entries-contract h.swept.node, k.held, g.held)
              (sym (unmarked_entries-append marks (entries n) (entries_below cs)));
        total = rw k.kept (
            add-contract len h.swept.node (sum g.swept.children) k.loose
            ∙ k.total (sum g.swept.children)
            ∙ ap (add (add (metadata_of n) h.swept.metadata_delta)) g.total
            ∙ add_crosswise (metadata_of n) h.swept.metadata_delta (sum cs) g.swept.metadata_delta);
      }
    ]

pub sweep_branch-SweptNode :
    (len : ℕ) (marks : Metadata → ℕ) (p : List ℕ) (m : Metadata) (cs : Children)
    (below : Option SweptBelow)
    → IsWellFormed len (branch p m cs)
    → (marks m ≡ 0 → AreUnmarked marks (entries_below cs))
    → SweptChildren len marks p 0 cs below
    → SweptNode len marks (branch p m cs) (sweep_branch (marks m) p m cs below)
unfolding sweep_branch
sweep_branch-SweptNode len marks p m cs below (short, many, e, ws) early g =
    elim (Bool-cases (marks m == 0)) [
      | inl z ↦ rw z (
          untouched-SweptNode len marks (branch p m cs) (short, many, e, ws) (early (ground arith)))
      | inr nz ↦ rw nz (record {
        swept = record {
          node = branch p (add m g.swept.metadata_delta) g.swept.children;
          delete = is_empty g.swept.children;
          metadata_delta = g.swept.metadata_delta;
          handled = g.swept.handled;
        };
        run = rw g.run refl;
        log = g.log;
        rest = some_or_none g.swept.children g.well_formed g.held (rw e (sym g.total));
      })
    ]
  where
    some_or_none :
        (kept : Children)
        → AreWellFormed len p 0 kept
        → entries_below kept ≡ unmarked_entries marks (entries_below cs)
        → add m g.swept.metadata_delta ≡ sum kept
        → Gone marks (branch p m cs) (record {
          node = branch p (add m g.swept.metadata_delta) kept;
          delete = is_empty kept;
          metadata_delta = g.swept.metadata_delta;
          handled = g.swept.handled;
        })
          ⊎ Kept len marks (branch p m cs) (record {
            node = branch p (add m g.swept.metadata_delta) kept;
            delete = is_empty kept;
            metadata_delta = g.swept.metadata_delta;
            handled = g.swept.handled;
          })
    some_or_none no_more ws' held total =
        inl (record { gone = refl; nothing = sym held; total = λ x. ap (λ s. add s x) total })
    some_or_none (child c n rest) ws' held total = inr (record {
      kept = refl;
      loose = (short, omega arith, total, ws');
      held = held;
      same_prefix = refl;
      total = λ x. refl;
    })
