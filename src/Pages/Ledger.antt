-- ===== src/Pages/Ledger.antt =====
-- The blocks of pages that are handed out, and how they agree with the bitmaps of the pools.
use cau_assignments.Base.{
  ℕ, ◌+◌, ◌<◌, ◌≤◌, ◌≡◌, refl, Bool, true, false, not, ◌&&◌, ◌||◌, List, [], ◌∷◌, ◌==◌,
  if◌then◌else◌, arith, inl, inr, Bool-cases,
}
use cau_assignments.Bitmap.Bit.{member}
use cau_assignments.Bitmap.Range.{within}
use cau_assignments.Pages.Ops.{Which, Memory, pool}
use cau_assignments.Pages.Give.{Separate}

abbrev pub same_pool : Which → Which → Bool
same_pool Which.kernel Which.kernel = true
same_pool Which.kernel Which.user = false
same_pool Which.user Which.kernel = false
same_pool Which.user Which.user = true

pub record Block : Type 0 where
  pub of : Which
  pub index : ℕ
  pub count : ℕ

-- Does the page belong to the block, or to one of the blocks?
abbrev pub in_block : Which → ℕ → Block → Bool
in_block x j b = same_pool x b.of && within b.index b.count j

abbrev pub covered : Which → ℕ → List Block → Bool
covered x j [] = false
covered x j (b ∷ bs) = in_block x j b || covered x j bs

abbrev pub same_block : Block → Block → Bool
same_block b c = same_pool b.of c.of && ((b.index == c.index) && (b.count == c.count))

abbrev pub listed : Block → List Block → Bool
listed b [] = false
listed b (c ∷ cs) = same_block b c || listed b cs

-- The blocks without this one.
abbrev pub drop_block : Block → List Block → List Block
drop_block b [] = []
drop_block b (c ∷ cs) = if same_block b c then cs else c ∷ drop_block b cs

-- No page belongs to two blocks.
abbrev pub NoOverlap : List Block → Type 0
NoOverlap [] = Unit {0}
NoOverlap (b ∷ bs) =
    ((x : Which) (j : ℕ) → in_block x j b ≡ true → covered x j bs ≡ false) × NoOverlap bs

-- Each block has pages, and they are pages of its pool.
abbrev pub AllFit : Memory → List Block → Type 0
AllFit s [] = Unit {0}
AllFit s (b ∷ bs) =
    (0 < b.count) × (b.index + b.count ≤ (pool b.of s).used_map.bit_cnt) × AllFit s bs

pub record Sound (s : Memory) (bs : List Block) : Type 0 where
  pub separate : Separate s
  pub exact :
      (x : Which) (j : ℕ)
      → j < (pool x s).used_map.bit_cnt
      → member (pool x s).used_map j ≡ covered x j bs
  pub no_overlap : NoOverlap bs
  pub all_fit : AllFit s bs

pub same_block-in_block :
    (b c : Block) (x : Which) (j : ℕ) → same_block b c ≡ true → in_block x j b ≡ in_block x j c
same_block-in_block b c Which.kernel j h = elim (Bool-cases (same_pool b.of c.of)) [
  | inl e ↦ ground arith
  | inr e ↦ ground arith
]
same_block-in_block b c Which.user j h = ground arith

pub listed-covered :
    (b : Block) (bs : List Block) (x : Which) (j : ℕ)
    → listed b bs ≡ true
    → in_block x j b ≡ true
    → covered x j bs ≡ true
listed-covered b [] x j h k = ground arith
listed-covered b (c ∷ cs) x j h k = elim (Bool-cases (same_block b c)) [
  | inl same ↦ ground (arith, same_block-in_block b c x j same)
  | inr other ↦ ground (arith, listed-covered b cs x j)
]

-- Dropping a block uncovers its pages.
pub covered-drop_block :
    (b : Block) (bs : List Block) (x : Which) (j : ℕ)
    → listed b bs ≡ true
    → NoOverlap bs
    → covered x j (drop_block b bs) ≡ (covered x j bs && not (in_block x j b))
covered-drop_block b [] x j h n = refl
covered-drop_block b (c ∷ cs) x j h n = elim (Bool-cases (same_block b c)) [
  | inl same ↦ ground (arith, same_block-in_block b c x j same, n.0 x j)
  | inr other ↦ ground (
    arith,
    covered-drop_block b cs x j (ground arith) n.1,
    listed-covered b cs x j (ground arith),
    n.0 x j,
  )
]

pub drop_block-NoOverlap :
    (b : Block) (bs : List Block) → listed b bs ≡ true → NoOverlap bs → NoOverlap (drop_block b bs)
drop_block-NoOverlap b [] h n = tt
drop_block-NoOverlap b (c ∷ cs) h n = elim (Bool-cases (same_block b c)) [
  | inl same ↦ rw same n.1
  | inr other ↦ rw other (
    λ x j k. ground (arith, covered-drop_block b cs x j (ground arith) n.1, n.0 x j k),
    drop_block-NoOverlap b cs (ground arith) n.1,
  )
]

pub drop_block-AllFit :
    (s : Memory) (b : Block) (bs : List Block) → AllFit s bs → AllFit s (drop_block b bs)
drop_block-AllFit s b [] f = tt
drop_block-AllFit s b (c ∷ cs) f = elim (Bool-cases (same_block b c)) [
  | inl same ↦ rw same f.2
  | inr other ↦ rw other (f.0, f.1, drop_block-AllFit s b cs f.2)
]
