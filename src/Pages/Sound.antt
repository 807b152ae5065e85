-- ===== src/Pages/Sound.antt =====
-- Taking and giving back keep the blocks and the bitmaps in agreement.
use cau_assignments.Base.{
  ℕ, ◌+◌, ◌<◌, ◌≤◌, ◌≡◌, refl, true, false, List, [], ◌∷◌, if◌then◌else◌, arith, inl, inr,
  Bool-cases, ap, ◌∙◌, sym, subst,
}
use cau_assignments.Threads.Synch.{Machine}
use cau_assignments.Strings.Ops.{Bytes}
use cau_assignments.Bitmap.Ops.{Bitmap}
use cau_assignments.Bitmap.Bit.{member}
use cau_assignments.Bitmap.Range.{Filled, within, any_in, any_in-false}
use cau_assignments.Pages.Ops.{Which, Memory, pool}
use cau_assignments.Pages.Take.{with_map}
use cau_assignments.Pages.Give.{Separate}
use cau_assignments.Pages.Ledger.{
  same_pool, Block, covered, same_block, listed, drop_block, NoOverlap, AllFit, Sound,
  covered-drop_block, drop_block-NoOverlap, drop_block-AllFit,
}

-- The pools of a memory, whatever the rest of it.
abbrev pub elsewhere : Machine → Bytes → Memory → Memory
elsewhere w m s = record s { machine = w; bytes = m }

pool-elsewhere :
    (x : Which) (w : Machine) (m : Bytes) (s : Memory) → pool x (elsewhere w m s) ≡ pool x s
pool-elsewhere Which.kernel w m s = refl
pool-elsewhere Which.user w m s = refl

AllFit-same :
    (s s' : Memory) (bs : List Block)
    → ((x : Which) → (pool x s').used_map.bit_cnt ≡ (pool x s).used_map.bit_cnt)
    → AllFit s bs
    → AllFit s' bs
AllFit-same s s' [] same f = tt
AllFit-same s s' (b ∷ bs) same f =
    (f.0, subst (λ n. b.index + b.count ≤ n) (sym (same b.of)) f.1, AllFit-same s s' bs same f.2)

pub Sound-elsewhere :
    (s : Memory) (bs : List Block) (w : Machine) (m : Bytes)
    → Sound s bs
    → Sound (elsewhere w m s) bs
Sound-elsewhere s bs w m a = record {
  separate = record {
    kernel = a.separate.kernel;
    user = a.separate.user;
    behind = a.separate.behind;
  };
  exact = λ x.
      subst (λ p. (j : ℕ) → j < p.used_map.bit_cnt → member p.used_map j ≡ covered x j bs)
        (sym (pool-elsewhere x w m s)) (a.exact x);
  no_overlap = a.no_overlap;
  all_fit =
      AllFit-same s (elsewhere w m s) bs
        (λ x. ap (λ p. p.used_map.bit_cnt) (pool-elsewhere x w m s)) a.all_fit;
}

bit_cnt-with_map :
    (x y : Which) (b : Bitmap) (s : Memory)
    → b.bit_cnt ≡ (pool x s).used_map.bit_cnt
    → (pool y (with_map x b s)).used_map.bit_cnt ≡ (pool y s).used_map.bit_cnt
bit_cnt-with_map Which.kernel Which.kernel b s e = e
bit_cnt-with_map Which.kernel Which.user b s e = refl
bit_cnt-with_map Which.user Which.kernel b s e = refl
bit_cnt-with_map Which.user Which.user b s e = e

Separate-with_map :
    (x : Which) (b : Bitmap) (s : Memory)
    → b.bit_cnt ≡ (pool x s).used_map.bit_cnt
    → Separate s
    → Separate (with_map x b s)
Separate-with_map Which.kernel b s e a =
    let k = a.kernel in
    let behind = a.behind in
    let room = k.room in
    record {
      kernel = record { aligned = k.aligned; positive = k.positive; room = omega (arith, e) };
      user = a.user;
      behind = omega (arith, e);
    }
Separate-with_map Which.user b s e a =
    let u = a.user in
    let room = u.room in
    record {
      kernel = a.kernel;
      user = record { aligned = u.aligned; positive = u.positive; room = omega (arith, e) };
      behind = a.behind;
    }

-- The pages of the bitmap that changed, and those of the other pool.
Exact : Which → Bitmap → Memory → List Block → Type 0
Exact x b s bs =
    (y : Which) (j : ℕ)
    → j < (pool y s).used_map.bit_cnt
    → (if same_pool y x then member b j else member (pool y s).used_map j) ≡ covered y j bs

Exact-with_map :
    (x y : Which) (b : Bitmap) (s : Memory) (bs : List Block)
    → b.bit_cnt ≡ (pool x s).used_map.bit_cnt
    → Exact x b s bs
    → (j : ℕ) → j < (pool y (with_map x b s)).used_map.bit_cnt
    → member (pool y (with_map x b s)).used_map j ≡ covered y j bs
unfolding Exact
Exact-with_map Which.kernel Which.kernel b s bs e h j lt = h Which.kernel j (omega (arith, e))
Exact-with_map Which.kernel Which.user b s bs e h j lt = h Which.user j lt
Exact-with_map Which.user Which.kernel b s bs e h j lt = h Which.kernel j lt
Exact-with_map Which.user Which.user b s bs e h j lt = h Which.user j (omega (arith, e))

Sound-with_map :
    (x : Which) (b : Bitmap) (s : Memory) (bs bs' : List Block)
    → Sound s bs
    → b.bit_cnt ≡ (pool x s).used_map.bit_cnt
    → Exact x b s bs'
    → NoOverlap bs'
    → AllFit s bs'
    → Sound (with_map x b s) bs'
Sound-with_map x b s bs bs' a e exact apart fit = record {
  separate = Separate-with_map x b s e a.separate;
  exact = λ y. Exact-with_map x y b s bs' e exact;
  no_overlap = apart;
  all_fit = AllFit-same s (with_map x b s) bs' (λ y. bit_cnt-with_map x y b s e) fit;
}

pub same_pool-eq : (x y : Which) → same_pool x y ≡ true → x ≡ y
same_pool-eq Which.kernel Which.kernel h = refl
same_pool-eq Which.kernel Which.user h = cc
same_pool-eq Which.user Which.kernel h = cc
same_pool-eq Which.user Which.user h = refl

pub same_pool_self : (x : Which) → same_pool x x ≡ true
same_pool_self Which.kernel = refl
same_pool_self Which.user = refl

Exact-Exact :
    (x : Which) (b : Bitmap) (s : Memory) (bs : List Block)
    → ((j : ℕ) → j < (pool x s).used_map.bit_cnt → member b j ≡ covered x j bs)
    → ((y : Which) (j : ℕ)
        → same_pool y x ≡ false
        → j < (pool y s).used_map.bit_cnt
        → member (pool y s).used_map j ≡ covered y j bs)
    → Exact x b s bs
unfolding Exact
Exact-Exact Which.kernel b s bs here there Which.kernel j lt = here j lt
Exact-Exact Which.kernel b s bs here there Which.user j lt = there Which.user j refl lt
Exact-Exact Which.user b s bs here there Which.kernel j lt = there Which.kernel j refl lt
Exact-Exact Which.user b s bs here there Which.user j lt = here j lt

pub Sound-take :
    (s : Memory) (bs : List Block) (x : Which) (i cnt : ℕ) (b : Bitmap)
    → Sound s bs
    → 0 < cnt
    → i + cnt ≤ (pool x s).used_map.bit_cnt
    → any_in (member (pool x s).used_map) i cnt true ≡ false
    → Filled (pool x s).used_map i cnt true b
    → Sound (with_map x b s) (record { of = x; index = i; count = cnt } ∷ bs)
Sound-take s bs x i cnt b a pos fits group fills =
    let m = (pool x s).used_map in
    let new : Block = record { of = x; index = i; count = cnt } in
    let free = λ (j : ℕ) (h : within i cnt j ≡ true).
      sym (a.exact x j (ground arith)) ∙ any_in-false (member m) cnt i true j group h in
    Sound-with_map x b s bs (new ∷ bs) a fills.same_size
      (Exact-Exact x b s (new ∷ bs)
        (λ j lt. ground (arith, same_pool_self x, fills.members j, a.exact x j lt))
        (λ y j other lt. ground (arith, other, a.exact y j lt)))
      (
        λ y j h. rw (same_pool-eq y x (ground (arith, h))) (free j (ground (arith, h))),
        a.no_overlap,
      )
      (pos, fits, a.all_fit)

pub listed-AllFit :
    (s : Memory) (bs : List Block) (x : Which) (i cnt : ℕ)
    → listed (record { of = x; index = i; count = cnt }) bs ≡ true
    → AllFit s bs
    → (0 < cnt) × (i + cnt ≤ (pool x s).used_map.bit_cnt)
listed-AllFit s [] x i cnt h f = ground arith
listed-AllFit s (c ∷ cs) x i cnt h f =
    elim (Bool-cases (same_block (record { of = x; index = i; count = cnt }) c)) [
      | inl same ↦
          let e : x ≡ c.of = same_pool-eq x c.of (ground (arith, same)) in
          let n = f.0 in (ground (arith, same, n), rw e (ground (arith, same, f.1)))
      | inr other ↦ listed-AllFit s cs x i cnt (ground (arith, h, other)) f.2
    ]

pub Sound-give :
    (s : Memory) (bs : List Block) (x : Which) (i cnt : ℕ) (b : Bitmap)
    → Sound s bs
    → listed (record { of = x; index = i; count = cnt }) bs ≡ true
    → Filled (pool x s).used_map i cnt false b
    → Sound (with_map x b s) (drop_block (record { of = x; index = i; count = cnt }) bs)
Sound-give s bs x i cnt b a known fills =
    let old : Block = record { of = x; index = i; count = cnt } in
    let left = λ (y : Which) (j : ℕ). covered-drop_block old bs y j known a.no_overlap in
    Sound-with_map x b s bs (drop_block old bs) a fills.same_size
      (Exact-Exact x b s (drop_block old bs)
        (λ j lt. ground (arith, same_pool_self x, fills.members j, a.exact x j lt, left x j))
        (λ y j other lt. ground (arith, other, a.exact y j lt, left y j)))
      (drop_block-NoOverlap old bs known a.no_overlap) (drop_block-AllFit s old bs a.all_fit)
