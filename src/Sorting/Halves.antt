-- ===== src/Sorting/Halves.antt =====
-- One round of `binary_search` of lib/stdlib.c, by addresses and by elements.
use native.Mathlib.Nat.{add-mul, mul-lt-mul_of_pos_right, div-eq_of_eq-mul_left}
use cau_assignments.Base.{
  ℕ, suc, ◌+◌, ◌-◌, ◌*◌, ◌/◌, ◌<◌, ◌≡◌, refl, ap, ◌∙◌, arith, true, ltb, lt→ltb,
}
use cau_assignments.Base.Run.{Run, ok}
use cau_assignments.Strings.Ops.{Bytes, Sign, null, minus, zero_sign, plus}
use cau_assignments.Sorting.Ops.{Compare, search_loop}

pub search_loop-empty :
    (compare : Compare) (m : Bytes) (key fuel first size : ℕ)
    → search_loop compare (suc fuel) key first first size m ≡ ok null m
unfolding search_loop
search_loop-empty compare m key fuel first size = ground arith

module _ (compare : Compare) (m : Bytes) (key fuel first last size : ℕ) where
  -- What a round goes on with, by the middle element and the result of the comparison.
  abbrev pub next : ℕ → Sign → Run Bytes ℕ
  next mid minus = search_loop compare fuel key first mid size m
  next mid plus = search_loop compare fuel key (mid + size) last size m
  next mid zero_sign = ok mid m

  module _ (less : ltb first last ≡ true) where
    search_loop-middle :
        (x : Sign)
        → compare m key (first + (last - first) / size / 2 * size) ≡ x
        → search_loop compare (suc fuel) key first last size m
          ≡ next (first + (last - first) / size / 2 * size) x
    unfolding search_loop
    search_loop-middle minus e = rw (less, e) refl
    search_loop-middle plus e = rw (less, e) refl
    search_loop-middle zero_sign e = rw (less, e) refl

    pub search_loop-next :
        (mid : ℕ) (x : Sign)
        → first + (last - first) / size / 2 * size ≡ mid
        → compare m key mid ≡ x
        → search_loop compare (suc fuel) key first last size m ≡ next mid x
    search_loop-next mid x half e =
        search_loop-middle x (ap (compare m key) half ∙ e) ∙ ap (λ y. next y x) half

module _ (array size : ℕ) (pos : 0 < size) where
  -- The address behind `k` elements.
  abbrev pub behind : ℕ → ℕ
  behind k = array + k * size

  behind-less : (lo hi : ℕ) → lo < hi → behind lo < behind hi
  behind-less lo hi lt = let le = mul-lt-mul_of_pos_right lt pos in omega (arith, le)

  behind-add : (lo d : ℕ) → behind lo + d * size ≡ behind (lo + d)
  behind-add lo d = let e = add-mul lo d size in omega (arith, e)

  span : (lo d : ℕ) → (behind (lo + d) - behind lo) / size ≡ d
  span lo d = let e = add-mul lo d size in div-eq_of_eq-mul_left pos (omega (arith, e))

  module _ (lo d : ℕ) where
    abbrev middle : ℕ
    middle = lo + suc d / 2

    pub goes_on : ltb (behind lo) (behind (lo + suc d)) ≡ true
    goes_on = lt→ltb (behind lo) (behind (lo + suc d)) (behind-less lo (lo + suc d) (omega arith))

    pub halved : behind lo + (behind (lo + suc d) - behind lo) / size / 2 * size ≡ behind middle
    halved = ap (λ x. behind lo + x / 2 * size) (span lo (suc d)) ∙ behind-add lo (suc d / 2)
