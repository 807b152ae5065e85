-- ===== src/Strings/Copy.antt =====
-- What `memcpy` and `memmove` leave in memory.
use cau_assignments.Base.{
  ℕ, zero, suc, ◌+◌, ◌-◌, ◌≤◌, ◌<◌, ◌≡◌, true, false, ◌&&◌, ◌||◌, ◌==◌, ltb, leb, if◌then◌else◌,
  arith, ◌∙◌, inl, inr, Bool-cases, ap,
}
use cau_assignments.Base.Run.{ok}
use cau_assignments.Strings.Ops.{Bytes, store, usable, copy_up, copy_down, memcpy, memmove}

-- The block of `size` bytes at `dst` is what the one at `src` was; other bytes are as they were.
abbrev pub Copied : ℕ → ℕ → ℕ → Bytes → Bytes → Type 0
Copied dst src size m m' =
    (p : ℕ) → m' p ≡ (if leb dst p && ltb p (dst + size) then m (src + (p - dst)) else m p)

up-step :
    (dst src size : ℕ) (m m' : Bytes)
    → (leb dst src || leb (src + suc size) dst) ≡ true
    → Copied (dst + 1) (src + 1) size (store dst (m src) m) m'
    → Copied dst src (suc size) m m'
up-step dst src size m m' apart c p = elim (Bool-cases (p == dst)) [
  | inl e ↦ ground (arith, c p)
  | inr e ↦
      let same : dst < p → src + 1 + (p - (dst + 1)) ≡ src + (p - dst) = λ h. omega (arith, h) in
      let step : (leb dst p && ltb p (dst + suc size))
          ≡ (leb (dst + 1) p && ltb p (dst + 1 + size)) =
        ground arith in
      ground (arith, c p, same)
]

pub copy_up_lem :
    (size dst src : ℕ) (m : Bytes)
    → (leb dst src || leb (src + size) dst) ≡ true
    → (m' : Bytes) × (copy_up size dst src m ≡ ok (dst + size) m') × Copied dst src size m m'
unfolding copy_up
copy_up_lem zero dst src m apart = (m, ap (λ d. ok d m) (omega arith), λ p. ground arith)
copy_up_lem (suc size) dst src m apart =
    let (m', runs, c) = copy_up_lem size (dst + 1) (src + 1) (store dst (m src) m) (ground arith) in
    (m', runs ∙ ap (λ d. ok d m') (omega arith), up-step dst src size m m' apart c)

down-step :
    (dst src size : ℕ) (m m' : Bytes)
    → src ≤ dst
    → Copied dst src size (store (dst + size) (m (src + size)) m) m'
    → Copied dst src (suc size) m m'
down-step dst src size m m' le c p = elim (Bool-cases (p == dst + size)) [
  | inl e ↦
      let last : p ≡ dst + size → src + (p - dst) ≡ src + size = λ h. omega (arith, h) in
      ground (arith, c p, last)
  | inr e ↦ ground (arith, c p)
]

copy_down_lem :
    (size dst src : ℕ) (m : Bytes)
    → src ≤ dst
    → (m' : Bytes) × (copy_down size (dst + size) (src + size) m ≡ ok dst m')
      × Copied dst src size m m'
unfolding copy_down
copy_down_lem zero dst src m le = (m, ap (λ d. ok d m) (omega arith), λ p. ground arith)
copy_down_lem (suc size) dst src m le =
    let (m', runs, c) = copy_down_lem size dst src (store (dst + size) (m (src + size)) m) le in
    let back_dst : dst + suc size - 1 ≡ dst + size = omega arith in
    let back_src : src + suc size - 1 ≡ src + size = omega arith in
    (m', rw (back_dst, back_src) runs, down-step dst src size m m' le c)

memcpy-runs :
    (dst src size : ℕ) (m m' : Bytes)
    → usable dst size ≡ true
    → usable src size ≡ true
    → copy_up size dst src m ≡ ok (dst + size) m'
    → memcpy dst src size m ≡ ok dst m'
unfolding memcpy
memcpy-runs dst src size m m' hd hs runs = ground (arith, runs)

-- `memcpy` copies a block to one that it does not overlap and returns `dst`. A null pointer is
-- allowed for a block of no bytes only.
pub memcpy_lem :
    (dst src size : ℕ) (m : Bytes)
    → usable dst size ≡ true
    → usable src size ≡ true
    → (leb (dst + size) src || leb (src + size) dst) ≡ true
    → (m' : Bytes) × (memcpy dst src size m ≡ ok dst m') × Copied dst src size m m'
memcpy_lem dst src size m hd hs apart =
    let (m', runs, c) = copy_up_lem size dst src m (ground arith) in
    (m', memcpy-runs dst src size m m' hd hs runs, c)

move-up :
    (dst src size r : ℕ) (m m' : Bytes)
    → usable dst size ≡ true
    → usable src size ≡ true
    → ltb dst src ≡ true
    → copy_up size dst src m ≡ ok r m'
    → memmove dst src size m ≡ ok r m'
unfolding memmove
move-up dst src size r m m' hd hs lt runs = ground (arith, runs)

move-down :
    (dst src size r : ℕ) (m m' : Bytes)
    → usable dst size ≡ true
    → usable src size ≡ true
    → ltb dst src ≡ false
    → copy_down size (dst + size) (src + size) m ≡ ok r m'
    → memmove dst src size m ≡ ok r m'
unfolding memmove
move-down dst src size r m m' hd hs lt runs = ground (arith, runs)

-- `memmove` copies a block, also to one that it overlaps. It returns the end of the destination if
-- this lies below the source, else its start. A null pointer is allowed for a block of no bytes only.
pub memmove_lem :
    (dst src size : ℕ) (m : Bytes)
    → usable dst size ≡ true
    → usable src size ≡ true
    → (m' : Bytes) × (memmove dst src size m ≡ ok (if ltb dst src then dst + size else dst) m')
      × Copied dst src size m m'
memmove_lem dst src size m hd hs = elim (Bool-cases (ltb dst src)) [
  | inl lt ↦
      let (m', runs, c) = copy_up_lem size dst src m (ground arith) in
      (m', rw lt (move-up dst src size (dst + size) m m' hd hs lt runs), c)
  | inr ge ↦
      let (m', runs, c) = copy_down_lem size dst src m (ground arith) in
      (m', rw ge (move-down dst src size dst m m' hd hs ge runs), c)
]
