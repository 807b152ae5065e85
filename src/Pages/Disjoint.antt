-- ===== src/Pages/Disjoint.antt =====
-- No byte is handed out twice.
use cau_assignments.Base.{
  ◌+◌, ◌-◌, ◌*◌, ◌/◌, ◌<◌, ◌≤◌, ◌≡◌, Bool, true, false, ◌&&◌, List, [], ◌∷◌, ◌++◌, leb, ltb, arith,
  inl, inr, Bool-cases, subst, sym,
}
use cau_assignments.KernelList.Memory.{Ptr}
use cau_assignments.Threads.State.{Statics}
use cau_assignments.Pages.Ops.{Which, Memory, pool}
use cau_assignments.Pages.Take.{page_at}
use cau_assignments.Pages.Give.{Separate}
use cau_assignments.Pages.Ledger.{
  same_pool, Block, in_block, listed, NoOverlap, AllFit, Sound, listed-covered,
}
use cau_assignments.Pages.Sound.{same_pool_self, same_pool-eq, listed-AllFit}
use cau_assignments.Pages.History.{Reached, Reached-Sound}

-- The bytes of a block.
abbrev pub owns : Memory → Block → Ptr → Bool
owns s b a = let p = page_at (pool b.of s) b.index in leb p a && ltb a (p + 4096 * b.count)

NoOverlap-suffix : (cs ds : List Block) → NoOverlap (cs ++ ds) → NoOverlap ds
NoOverlap-suffix [] ds n = n
NoOverlap-suffix (c ∷ cs) ds n = NoOverlap-suffix cs ds n.1

AllFit-suffix : (s : Memory) (cs ds : List Block) → AllFit s (cs ++ ds) → AllFit s ds
AllFit-suffix s [] ds f = f
AllFit-suffix s (c ∷ cs) ds f = AllFit-suffix s cs ds f.2

pools_apart :
    (s : Memory) (x y : Which) (a : Ptr)
    → Separate s
    → same_pool x y ≡ false
    → (pool x s).base ≤ a
    → a < (pool x s).base + 4096 * (pool x s).used_map.bit_cnt
    → (pool y s).base ≤ a
    → a < (pool y s).base + 4096 * (pool y s).used_map.bit_cnt
    → ⊥
pools_apart s Which.kernel Which.kernel a h e p q r t = cc
pools_apart s Which.kernel Which.user a h e p q r t = let b = h.behind in omega arith
pools_apart s Which.user Which.kernel a h e p q r t = let b = h.behind in omega arith
pools_apart s Which.user Which.user a h e p q r t = cc

-- Two blocks of one list, in one pool or in two.
disjoint_owns :
    (s : Memory) (b c : Block) (ds : List Block) (a : Ptr)
    → Separate s
    → NoOverlap (b ∷ ds)
    → b.index + b.count ≤ (pool b.of s).used_map.bit_cnt
    → c.index + c.count ≤ (pool c.of s).used_map.bit_cnt
    → listed c ds ≡ true
    → owns s b a ≡ true
    → owns s c a ≡ true
    → ⊥
disjoint_owns s b c ds a sep apart fit fit' known mine yours =
    elim (Bool-cases (same_pool b.of c.of)) [
      | inr other ↦
          pools_apart s b.of c.of a sep other (ground arith) (ground arith) (ground arith)
            (ground arith)
      | inl same ↦
          let j = (a - (pool b.of s).base) / 4096 in
          let e = same_pool-eq b.of c.of same in
          let at : owns s (record c { of = b.of }) a ≡ true =
            subst (λ x. owns s (record c { of = x }) a ≡ true) (sym e) yours in
          let self = same_pool_self b.of in
          let in_b : in_block b.of j b ≡ true = ground (arith, self) in
          let in_c : in_block b.of j c ≡ true = ground (arith, same, at) in
          absurd (ground (arith, apart.0 b.of j in_b, listed-covered c ds b.of j known in_c))
    ]

-- After every history of calls for at least one page, in any states of the scheduler and of the locks, in
-- which a call runs up to its end or its wait for the lock and only blocks that are handed out are given
-- back: no byte belongs to two of the blocks that are handed out, if the blocks agreed with the bitmaps
-- before.
pub Reached-disjoint :
    (v : Statics) (s : Memory) (bs : List Block) (s' : Memory) (bs' cs ds : List Block)
    (b c : Block) (a : Ptr)
    → Sound s bs
    → Reached v s bs s' bs'
    → bs' ≡ cs ++ b ∷ ds
    → listed c ds ≡ true
    → owns s' b a ≡ true
    → owns s' c a ≡ false
Reached-disjoint v s bs s' bs' cs ds b c a sound r parts known mine =
    let after = Reached-Sound v s bs s' bs' sound r in
    let apart = NoOverlap-suffix cs (b ∷ ds) (subst NoOverlap parts after.no_overlap) in
    let fit = AllFit-suffix s' cs (b ∷ ds) (subst (AllFit s') parts after.all_fit) in
    let fit' = listed-AllFit s' ds c.of c.index c.count known fit.2 in
    elim (Bool-cases (owns s' c a)) [
      | inr out ↦ out
      | inl yours ↦
          absurd (disjoint_owns s' b c ds a after.separate apart fit.1 fit'.1 known mine yours)
    ]
