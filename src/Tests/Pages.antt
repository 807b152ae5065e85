-- ===== src/Tests/Pages.antt =====
-- Tests of the page allocator, with two blocks of the kernel pool handed out.
use cau_assignments.Base.{
  ℕ, zero, suc, ◌+◌, ◌*◌, subst, inl, inr, ◌<◌, ◌≡◌, refl, true, false, not, List, [], ◌∷◌, ◌⊎◌,
  arith, if◌then◌else◌,
}
use cau_assignments.Base.Run.{ok, panic}
use cau_assignments.Bitmap.Ops.{Bitmap, bool_eq}
use cau_assignments.Bitmap.Bit.{member}
use cau_assignments.Bitmap.Range.{Filled, any_in}
use cau_assignments.Bitmap.Scan.{FirstGroup, group_limit}
use cau_assignments.Pages.Ops.{
  Which, Memory, Flags, Got, pool, palloc_get_multiple, palloc_free_multiple, palloc_init,
}
use cau_assignments.Pages.Take.{
  Unlocked, Taken, Refused, page_at, with_map, zeroed, palloc_get_multiple_lem,
}
use cau_assignments.Pages.Give.{Separate, palloc_free_multiple_lem}
use cau_assignments.Pages.Ledger.{Block, in_block, covered, Sound}
use cau_assignments.Pages.History.{
  Reached, here, next, takes, gives, Reached-Sound, palloc_free_multiple-Sound,
}
use cau_assignments.Pages.Disjoint.{owns, Reached-disjoint}
use cau_assignments.Pages.Start.{Fresh, palloc_init-Sound}
use cau_assignments.Strings.Fill.{filled}
use cau_assignments.Tests.Bits.{sample, holds_below_lem, bool_eq_lem}
use cau_assignments.Tests.Sample.{family_test-Family}
use cau_assignments.Tests.Scheduler.{v}
use cau_assignments.Tests.Spawn
use cau_assignments.Tests.Yield.{q}

abbrev s : Memory
s = record {
  machine = Spawn.s.machine;
  kernel_pool = record { lock = 0x80; used_map = sample; base = 0x100000 };
  user_pool = record {
    lock = 0xa0;
    used_map = record { bit_cnt = 4; bits = λ i. 0 };
    base = 0x200000;
  };
  bytes = λ p. 0;
}

abbrev two_pages : Block
two_pages = record { of = Which.kernel; index = 0; count = 2 }

abbrev one_page : Block
one_page = record { of = Which.kernel; index = 4; count = 1 }

abbrev blocks : List Block
blocks = two_pages ∷ one_page ∷ []

agree :
    (x : Which) (j : ℕ)
    → j < (pool x s).used_map.bit_cnt
    → member (pool x s).used_map j ≡ covered x j blocks
agree Which.kernel j lt =
    bool_eq_lem _ _
      (holds_below_lem 8 (λ i. bool_eq (member sample i) (covered Which.kernel i blocks)) j refl lt)
agree Which.user j lt = bool_eq_lem _ _ (
    holds_below_lem 4 (λ i. bool_eq (member s.user_pool.used_map i) (covered Which.user i blocks)) j
      refl lt)

s-Separate : Separate s
s-Separate = record {
  kernel = record { aligned = refl; positive = omega arith; room = omega arith };
  user = record { aligned = refl; positive = omega arith; room = omega arith };
  behind = omega arith;
}

blocks_apart :
    (x : Which) (j : ℕ) → in_block x j two_pages ≡ true → covered x j (one_page ∷ []) ≡ false
blocks_apart Which.kernel j h = ground arith
blocks_apart Which.user j h = ground arith

s-Sound : Sound s blocks
s-Sound = record {
  separate = s-Separate;
  exact = agree;
  no_overlap = (blocks_apart, (λ x j h. refl, tt));
  all_fit = (omega arith, omega arith, (omega arith, omega arith, tt));
}

s-Unlocked : Unlocked v q s.machine 0x80
s-Unlocked = record {
  caller = record { thread = refl; runs = refl; intr = refl };
  no_handler = refl;
  real = refl;
  unheld = refl;
  available = refl;
  no_waiters = family_test-Family s.machine.kernel.mem Spawn.before refl;
}

abbrev flags : Flags
flags = record { pal_assert = false; pal_zero = true; pal_user = false }

palloc_get_multiple_lem_example :
    ((i : ℕ) × (b : Bitmap) × Taken v flags 2 s i b) ⊎ Refused v flags 2 s
palloc_get_multiple_lem_example =
    palloc_get_multiple_lem v q flags 2 s s-Unlocked s-Separate.kernel refl

-- Page 3 is free, so that pages 3 and 4 cannot be given back.
palloc_free_multiple_lem_example :
    (b : Bitmap) × Filled sample 3 2 false b
    × (palloc_free_multiple 0x103000 2 s ≡ (
        if not (any_in (member sample) 3 2 false)
        then ok tt
            (record (with_map Which.kernel b s) { bytes = filled 0x103000 0xcc 8192 s.bytes })
        else panic))
palloc_free_multiple_lem_example =
    palloc_free_multiple_lem s Which.kernel 3 2 s-Separate refl (omega arith)

true_not_false : true ≡ false → ⊥
true_not_false h = cc

false_not_true : false ≡ true → ⊥
false_not_true h = cc

-- The first two free pages are taken: 2 and 3.
abbrev new_pages : Block
new_pages = record { of = Which.kernel; index = 2; count = 2 }

pages_2_and_3 : (i : ℕ) → FirstGroup sample 0 (group_limit sample 2) 2 false i → i ≡ 2
pages_2_and_3 zero g = absurd (true_not_false g.group)
pages_2_and_3 (suc zero) g = absurd (true_not_false g.group)
pages_2_and_3 (suc (suc zero)) g = refl
pages_2_and_3 (suc (suc (suc i))) g =
    absurd (false_not_true (g.first 2 (omega arith) (omega arith)))

abbrev with_pages : Bitmap → Memory
with_pages b = zeroed flags 0x102000 2 (with_map Which.kernel b s)

took : (b : Bitmap) × (palloc_get_multiple v flags 2 s ≡ ok (Got.pages 0x102000) (with_pages b))
took = elim palloc_get_multiple_lem_example [
  | inl found ↦
      let (i, b, (g, fills, runs)) = found in
      (
        b,
        subst
            (λ k.
              palloc_get_multiple v flags 2 s
              ≡ ok (Got.pages (0x100000 + 4096 * k))
                  (zeroed flags (0x100000 + 4096 * k) 2 (with_map Which.kernel b s)))
            (pages_2_and_3 i g) runs,
      )
  | inr failed ↦ absurd (false_not_true (failed.0 2 (omega arith) (omega arith)))
]

abbrev s1 : Memory
s1 = with_pages took.0

taken : Reached v s blocks s1 (new_pages ∷ blocks)
taken = next here (takes flags 2 2 0x102000 s1 refl took.1 (λ real. refl))

-- The first block is given back.
freed :
    (s' : Memory) × (palloc_free_multiple (page_at (pool Which.kernel s1) 0) 2 s1 ≡ ok tt s')
    × Sound s' (new_pages ∷ one_page ∷ [])
freed =
    palloc_free_multiple-Sound s1 (new_pages ∷ blocks) Which.kernel 0 2
      (Reached-Sound v s blocks s1 (new_pages ∷ blocks) s-Sound taken) refl

given : Reached v s blocks freed.0 (new_pages ∷ one_page ∷ [])
given = next taken (gives Which.kernel 0 2 freed.0 refl freed.1)

Reached-Sound_example : Sound freed.0 (new_pages ∷ one_page ∷ [])
Reached-Sound_example = Reached-Sound v s blocks freed.0 (new_pages ∷ one_page ∷ []) s-Sound given

-- A byte of the pages that were taken.
Reached-disjoint_example : owns s1 one_page 0x103fff ≡ false
Reached-disjoint_example =
    Reached-disjoint v s blocks s1 (new_pages ∷ blocks) [] blocks new_pages one_page 0x103fff
      s-Sound taken refl refl refl

palloc_init-Sound_example :
    (s' : Memory) × (palloc_init 100 0xc0100000 0xc0400000 (λ i. 0xffffffff) (λ i. 5) s ≡ ok tt s')
    × Sound s' []
    × (Fresh Which.kernel 0xc0100000 668 s s' × Fresh Which.user 0xc039c000 100 s s')
palloc_init-Sound_example =
    palloc_init-Sound 100 0xc0100000 0xc0400000 (λ i. 0xffffffff) (λ i. 5) s refl refl (omega arith)
      (omega arith) refl (omega arith) (omega arith)
