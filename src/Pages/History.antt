-- ===== src/Pages/History.antt =====
-- Histories of calls of the page allocator.
use cau_assignments.Base.{
  ℕ, ◌+◌, ◌*◌, ◌≤◌, ◌≡◌, Bool, true, false, not, List, ◌∷◌, ◌==◌, if◌then◌else◌, arith, inl, inr,
  Bool-cases, ap, ◌∙◌, sym, subst,
}
use cau_assignments.Base.Run.{ok, panic}
use cau_assignments.KernelList.Memory.{Ptr, null}
use cau_assignments.Threads.State.{Statics}
use cau_assignments.Threads.Synch.{Machine}
use cau_assignments.Strings.Ops.{Bytes}
use cau_assignments.Strings.Fill.{filled}
use cau_assignments.Bitmap.Bit.{member}
use cau_assignments.Bitmap.Range.{any_in, any_in-true}
use cau_assignments.Pages.Ops.{
  Which, Memory, Flags, Got, pool, pool_of, search_pool, palloc_get_multiple, palloc_free_multiple,
}
use cau_assignments.Pages.Calls.{
  with_machine, pool-with_machine, search_pool-Searched, palloc_get_multiple-Called,
}
use cau_assignments.Pages.Take.{page_at, with_map, zeroed}
use cau_assignments.Pages.Give.{pool-InMemory, palloc_free_multiple_lem}
use cau_assignments.Pages.Ledger.{Block, listed, drop_block, Sound, listed-covered}
use cau_assignments.Pages.Sound.{
  elsewhere, Sound-elsewhere, Sound-take, Sound-give, listed-AllFit, same_pool_self,
}

zeroed-Sound :
    (f : Flags) (p : Ptr) (cnt : ℕ) (s : Memory) (bs : List Block)
    → Sound s bs
    → Sound (zeroed f p cnt s) bs
zeroed-Sound f p cnt s bs a = elim (Bool-cases f.pal_zero) [
  | inl asked ↦ rw asked (Sound-elsewhere s bs s.machine (filled p 0 (4096 * cnt) s.bytes) a)
  | inr unasked ↦ rw unasked a
]

-- The blocks behind a call that returns the address `p`, which is that of the page `i` unless it is `NULL`.
abbrev pub with_block : Flags → ℕ → ℕ → Ptr → List Block → List Block
with_block f i cnt p bs =
    if p == null then bs else record { of = pool_of f; index = i; count = cnt } ∷ bs

same_pages : (p p' : Ptr) → Got.pages p ≡ Got.pages p' → p ≡ p'
same_pages p p' h = cc

with_machine-Sound :
    (w : Machine) (s : Memory) (bs : List Block) → Sound s bs → Sound (with_machine w s) bs
with_machine-Sound w s bs a = Sound-elsewhere s bs w s.bytes a

search-Sound :
    (v : Statics) (f : Flags) (cnt i : ℕ) (p : Ptr) (s s' : Memory) (bs : List Block)
    → Sound s bs
    → (cnt == 0) ≡ false
    → search_pool v f (pool_of f) cnt s ≡ ok (Got.pages p) s'
    → ((p == null) ≡ false → p ≡ page_at (pool (pool_of f) s) i)
    → Sound s' (with_block f i cnt p bs)
search-Sound v f cnt i p s s' bs a some_pages call at =
    let x = pool_of f in
    let mem = pool-InMemory s x a.separate in
    let pos = mem.positive in
    let (w, r) = search_pool-Searched v f x cnt s s' (Got.pages p) mem some_pages call in
    elim r [
      | inr (e, same) ↦ rw (same_pages p null e, same) (with_machine-Sound w s bs a)
      | inl (i', b, g, fills, e, same) ↦
          let e' = same_pages p (page_at (pool x s) i') e in
          let real : (p == null) ≡ false = ground (arith, e') in
          let here : i' ≡ i = omega (arith, e', at real) in
          let below = g.below in
          let sound = Sound-take s bs x i' cnt b a (ground arith) (ground arith) g.group fills in
          let new : List Block = record { of = x; index = i'; count = cnt } ∷ bs in
          rw real (
            subst (λ j. Sound s' (record { of = x; index = j; count = cnt } ∷ bs)) here
              (subst (λ z. Sound z new) (sym same)
                (zeroed-Sound f (page_at (pool x s) i') cnt (with_machine w (with_map x b s)) new
                  (with_machine-Sound w (with_map x b s) new sound))))
    ]

take-Sound :
    (v : Statics) (f : Flags) (cnt i : ℕ) (p : Ptr) (s s' : Memory) (bs : List Block)
    → Sound s bs
    → (cnt == 0) ≡ false
    → palloc_get_multiple v f cnt s ≡ ok (Got.pages p) s'
    → ((p == null) ≡ false → p ≡ page_at (pool (pool_of f) s) i)
    → Sound s' (with_block f i cnt p bs)
take-Sound v f cnt i p s s' bs a some_pages call at =
    let (w, r) = palloc_get_multiple-Called v f cnt s s' (Got.pages p) some_pages call in
    elim r [
      | inl search ↦
          search-Sound v f cnt i p (with_machine w s) s' bs (with_machine-Sound w s bs a) some_pages
            search
            (λ real. at real ∙ ap (λ q. page_at q i) (sym (pool-with_machine (pool_of f) w s)))
      | inr (old, e, same) ↦ cc
    ]

wait-Sound :
    (v : Statics) (f : Flags) (cnt : ℕ) (old : Bool) (s s' : Memory) (bs : List Block)
    → Sound s bs
    → (cnt == 0) ≡ false
    → palloc_get_multiple v f cnt s ≡ ok (Got.in_lock old) s'
    → Sound s' bs
wait-Sound v f cnt old s s' bs a some_pages call =
    let (w, r) = palloc_get_multiple-Called v f cnt s s' (Got.in_lock old) some_pages call in
    elim r [
      | inr (_, e, same) ↦ rw same (with_machine-Sound w s bs a)
      | inl search ↦
          let (w', r') =
            search_pool-Searched v f (pool_of f) cnt (with_machine w s) s' (Got.in_lock old)
              (pool-InMemory (with_machine w s) (pool_of f) (with_machine-Sound w s bs a).separate)
              some_pages search in
          elim r' [ inl (i, b, g, fills, e, same) ↦ cc | inr (e, same) ↦ cc ]
    ]

-- A page of a block that is handed out is in use.
all_used :
    (s : Memory) (bs : List Block) (x : Which) (i cnt : ℕ)
    → Sound s bs
    → listed (record { of = x; index = i; count = cnt }) bs ≡ true
    → i + cnt ≤ (pool x s).used_map.bit_cnt
    → any_in (member (pool x s).used_map) i cnt false ≡ false
all_used s bs x i cnt a known fits =
    elim (Bool-cases (any_in (member (pool x s).used_map) i cnt false)) [
      | inr none ↦ none
      | inl one ↦
          let (j, w, e) = any_in-true (member (pool x s).used_map) cnt i false one in
          absurd (
            ground (
              arith,
              a.exact x j (ground arith),
              listed-covered (record { of = x; index = i; count = cnt }) bs x j known
                  (ground (arith, same_pool_self x)),
            ))
    ]

-- While the blocks agree with the bitmaps, `palloc_free_multiple` of a block that is handed out does not
-- panic, and they agree without it.
pub palloc_free_multiple-Sound :
    (s : Memory) (bs : List Block) (x : Which) (i cnt : ℕ)
    → Sound s bs
    → let b : Block = record { of = x; index = i; count = cnt } in
      listed b bs ≡ true
      → (s' : Memory) × (palloc_free_multiple (page_at (pool x s) i) cnt s ≡ ok tt s')
        × Sound s' (drop_block b bs)
palloc_free_multiple-Sound s bs x i cnt a known =
    let (pos, fits) = listed-AllFit s bs x i cnt known a.all_fit in
    let (b, fills, runs) = palloc_free_multiple_lem s x i cnt a.separate (ground arith) fits in
    let used = all_used s bs x i cnt a known fits in
    let p = page_at (pool x s) i in
    let m = filled p 0xcc (4096 * cnt) s.bytes in
    let e = with_map x b s in
    (
      elsewhere e.machine m e,
      runs ∙ ap (λ t. if not t then ok tt (elsewhere e.machine m e) else panic) used,
      Sound-elsewhere e _ e.machine m (Sound-give s bs x i cnt b a known fills),
    )

-- One call, in any state of the scheduler and of the lock of the pool: `palloc_get_multiple` returns, or waits
-- for the lock; a thread that has waited goes on with the lock; `palloc_free_multiple` returns. Or
-- anything else happens in the machine and to the contents of memory, such as another thread's turn.
pub data Step (v : Statics) (s : Memory) (bs : List Block) : Memory → List Block → Type 0 where
  takes :
      (f : Flags) (cnt i : ℕ) (p : Ptr) (s' : Memory)
      → (cnt == 0) ≡ false
      → palloc_get_multiple v f cnt s ≡ ok (Got.pages p) s'
      → ((p == null) ≡ false → p ≡ page_at (pool (pool_of f) s) i)
      → Step v s bs s' (with_block f i cnt p bs)
  waits :
      (f : Flags) (cnt : ℕ) (old : Bool) (s' : Memory)
      → (cnt == 0) ≡ false
      → palloc_get_multiple v f cnt s ≡ ok (Got.in_lock old) s'
      → Step v s bs s' bs
  goes_on :
      (f : Flags) (cnt i : ℕ) (p : Ptr) (s' : Memory)
      → (cnt == 0) ≡ false
      → search_pool v f (pool_of f) cnt s ≡ ok (Got.pages p) s'
      → ((p == null) ≡ false → p ≡ page_at (pool (pool_of f) s) i)
      → Step v s bs s' (with_block f i cnt p bs)
  gives :
      (x : Which) (i cnt : ℕ) (s' : Memory)
      → listed (record { of = x; index = i; count = cnt }) bs ≡ true
      → palloc_free_multiple (page_at (pool x s) i) cnt s ≡ ok tt s'
      → Step v s bs s' (drop_block (record { of = x; index = i; count = cnt }) bs)
  others : (w : Machine) (m : Bytes) → Step v s bs (elsewhere w m s) bs

pub data Reached (v : Statics) (s : Memory) (bs : List Block) : Memory → List Block → Type 0 where
  here : Reached v s bs s bs
  next :
      {t u : Memory} {cs ds : List Block}
      → Reached v s bs t cs
      → Step v t cs u ds
      → Reached v s bs u ds

Step-Sound :
    (v : Statics) (s s' : Memory) (bs bs' : List Block)
    → Sound s bs
    → Step v s bs s' bs'
    → Sound s' bs'
Step-Sound v s s' bs bs' a (takes f cnt i p _ some_pages call at) =
    take-Sound v f cnt i p s s' bs a some_pages call at
Step-Sound v s s' bs bs' a (waits f cnt old _ some_pages call) =
    wait-Sound v f cnt old s s' bs a some_pages call
Step-Sound v s s' bs bs' a (goes_on f cnt i p _ some_pages call at) =
    search-Sound v f cnt i p s s' bs a some_pages call at
Step-Sound v s s' bs bs' a (gives x i cnt _ known call) =
    let (t, runs, sound) = palloc_free_multiple-Sound s bs x i cnt a known in
    let same : t ≡ s' = ground (arith, runs, call) in
    subst (λ z. Sound z (drop_block (record { of = x; index = i; count = cnt }) bs)) same sound
Step-Sound v s s' bs bs' a (others w m) = Sound-elsewhere s bs w m a

-- After every history of calls for at least one page, in any states of the scheduler and of the locks, in
-- which a call runs up to its end or its wait for the lock and only blocks that are handed out are given
-- back: the bitmaps of the pools have exactly the pages of the blocks that are handed out, no two
-- of these overlap, and each lies in its pool, if all this was so before.
pub Reached-Sound :
    (v : Statics) (s : Memory) (bs : List Block) (s' : Memory) (bs' : List Block)
    → Sound s bs
    → Reached v s bs s' bs'
    → Sound s' bs'
Reached-Sound v s bs s' bs' a here = a
Reached-Sound v s bs s' bs' a (next {t} {cs} r st) =
    Step-Sound v t s' cs bs' (Reached-Sound v s bs t cs a r) st
