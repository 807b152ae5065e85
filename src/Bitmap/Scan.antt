-- ===== src/Bitmap/Scan.antt =====
-- Looking for a group of bits with a value: `bitmap_scan` and `bitmap_scan_and_flip`.
use cau_assignments.Base.{
  ℕ, zero, suc, ◌+◌, ◌-◌, ◌^◌, ◌<◌, ◌≤◌, ◌≡◌, refl, Bool, true, false, not, ◌==◌, leb, arith, ◌⊎◌,
  inl, inr, Bool-cases, ap, ◌∙◌, subst,
}
use cau_assignments.Base.Run.{ok}
use cau_assignments.Bitmap.Ops.{
  Bitmap, bitmap_error, bitmap_contains, bitmap_set_multiple, scan_loop, bitmap_scan,
  bitmap_scan_and_flip,
}
use cau_assignments.Bitmap.Bit.{member}
use cau_assignments.Bitmap.Range.{
  Fits, Filled, any_in, bitmap_contains_lem, bitmap_set_multiple_lem,
}

-- Not all of the `cnt` bits from `i` on have the value.
abbrev pub is_mixed : Bitmap → ℕ → Bool → ℕ → Bool
is_mixed b cnt v i = any_in (member b) i cnt (not v)

-- The first group among those that start at `start` or behind, up to `limit`.
pub record FirstGroup (b : Bitmap) (start limit cnt : ℕ) (v : Bool) (i : ℕ) : Type 0 where
  pub from : start ≤ i
  pub below : i < limit
  pub group : is_mixed b cnt v i ≡ false
  pub first : (k : ℕ) → start ≤ k → k < i → is_mixed b cnt v k ≡ true

abbrev pub NoGroup : Bitmap → ℕ → ℕ → ℕ → Bool → Type 0
NoGroup b start limit cnt v = (k : ℕ) → start ≤ k → k < limit → is_mixed b cnt v k ≡ true

abbrev pub Scans : Bitmap → ℕ → ℕ → ℕ → Bool → ℕ → Type 0
Scans b start limit cnt v r =
    FirstGroup b start limit cnt v r ⊎ ((r ≡ bitmap_error) × NoGroup b start limit cnt v)

scan-found :
    (b : Bitmap) (n i cnt : ℕ) (v : Bool)
    → bitmap_contains i cnt (not v) b ≡ ok false b
    → scan_loop (suc n) i cnt v b ≡ ok i b
unfolding scan_loop
scan-found b n i cnt v e = rw e refl

scan-next :
    (b : Bitmap) (n i cnt : ℕ) (v : Bool)
    → bitmap_contains i cnt (not v) b ≡ ok true b
    → scan_loop (suc n) i cnt v b ≡ scan_loop n (i + 1) cnt v b
unfolding scan_loop
scan-next b n i cnt v e = rw e refl

Scans-next :
    (b : Bitmap) (i limit cnt : ℕ) (v : Bool) (r : ℕ)
    → is_mixed b cnt v i ≡ true
    → Scans b (i + 1) limit cnt v r
    → Scans b i limit cnt v r
Scans-next b i limit cnt v r mixed (inl g) =
    let p = g.from in
    inl (record {
      from = omega arith;
      below = g.below;
      group = g.group;
      first = λ k le lt. elim (Bool-cases (k == i)) [
        | inl here ↦ ground arith
        | inr later ↦ g.first k (ground arith) lt
      ];
    })
Scans-next b i limit cnt v r mixed (inr (e, none)) = inr (
  e,
  λ k le lt. elim (Bool-cases (k == i)) [
    | inl here ↦ ground arith
    | inr later ↦ none k (ground arith) lt
  ],
)

scan_loop_lem :
    (n : ℕ) (b : Bitmap) (i cnt : ℕ) (v : Bool)
    → i + n + cnt ≤ b.bit_cnt + 1
    → b.bit_cnt < 2 ^ 32
    → (r : ℕ) × (scan_loop n i cnt v b ≡ ok r b) × Scans b i (i + n) cnt v r
unfolding scan_loop
scan_loop_lem zero b i cnt v fits size =
    (bitmap_error, refl, inr (refl, λ k le lt. absurd (omega arith)))
scan_loop_lem (suc n) b i cnt v fits size =
    let f : Fits b i cnt = record { inside = omega arith; size = size } in
    let tests = bitmap_contains_lem b i cnt (not v) f in
    elim (Bool-cases (is_mixed b cnt v i)) [
      | inl mixed ↦
          let (r, runs, s) = scan_loop_lem n b (i + 1) cnt v (omega arith) size in
          (
            r,
            scan-next b n i cnt v (tests ∙ ap (λ x. ok x b) mixed) ∙ runs,
            Scans-next b i (i + suc n) cnt v r mixed
                (subst (λ l. Scans b (i + 1) l cnt v r) (omega arith) s),
          )
      | inr group ↦ (
        i,
        scan-found b n i cnt v (tests ∙ ap (λ x. ok x b) group),
        inl (record {
          from = omega arith;
          below = omega arith;
          group = group;
          first = λ k le lt. absurd (omega arith);
        }),
      )
    ]

scan_end : (b : Bitmap) (i cnt : ℕ) (v : Bool) → scan_loop 0 i cnt v b ≡ ok bitmap_error b
unfolding scan_loop
scan_end b i cnt v = refl

-- A group of `cnt` bits in `b` starts below this.
abbrev pub group_limit : Bitmap → ℕ → ℕ
group_limit b cnt = b.bit_cnt + 1 - cnt

Scans-limit :
    (b : Bitmap) (start l l' cnt : ℕ) (v : Bool) (r : ℕ)
    → ((k : ℕ) → start ≤ k → k < l → k < l')
    → ((k : ℕ) → start ≤ k → k < l' → k < l)
    → Scans b start l cnt v r
    → Scans b start l' cnt v r
Scans-limit b start l l' cnt v r down up (inl g) =
    inl (record { from = g.from; below = down r g.from g.below; group = g.group; first = g.first })
Scans-limit b start l l' cnt v r down up (inr (e, none)) =
    inr (e, λ k le lt. none k le (up k le lt))

-- From a place that the bitmap has, `bitmap_scan` ends and returns the first place of a group of `cnt` bits
-- that all have the value and that the bitmap has room for, or `BITMAP_ERROR` if there is none.
pub bitmap_scan_lem :
    (b : Bitmap) (start cnt : ℕ) (v : Bool)
    → start ≤ b.bit_cnt
    → b.bit_cnt < 2 ^ 32
    → (r : ℕ) × (bitmap_scan start cnt v b ≡ ok r b) × Scans b start (group_limit b cnt) cnt v r
unfolding bitmap_scan
bitmap_scan_lem b start cnt v le size = elim (Bool-cases (leb cnt b.bit_cnt)) [
  | inr big ↦ (bitmap_error, ground arith, inr (refl, λ k p lt. absurd (ground arith)))
  | inl room ↦ elim (Bool-cases (leb start (b.bit_cnt - cnt))) [
    | inl before ↦
        let n = b.bit_cnt - cnt + 1 - start in
        let (r, runs, s) = scan_loop_lem n b start cnt v (ground arith) size in
        (
          r,
          ground (arith, runs),
          Scans-limit b start (start + n) (group_limit b cnt) cnt v r (λ k p lt. ground arith)
              (λ k p lt. ground arith) s,
        )
    | inr behind ↦
        let none : b.bit_cnt - cnt + 1 - start ≡ 0 = ground arith in
        (
          bitmap_error,
          ground (arith, none, scan_end b start cnt v),
          inr (refl, λ k p lt. absurd (ground arith)),
        )
  ]
]

-- What `bitmap_scan_and_flip` leaves.
abbrev pub Flips : Bitmap → ℕ → ℕ → Bool → ℕ → Bitmap → Type 0
Flips b start cnt v r b' =
    (FirstGroup b start (group_limit b cnt) cnt v r × Filled b r cnt (not v) b')
    ⊎ ((r ≡ bitmap_error) × NoGroup b start (group_limit b cnt) cnt v × (b' ≡ b))

flip-found :
    (b b' : Bitmap) (start cnt r : ℕ) (v : Bool)
    → bitmap_scan start cnt v b ≡ ok r b
    → (r == bitmap_error) ≡ false
    → bitmap_set_multiple r cnt (not v) b ≡ ok tt b'
    → bitmap_scan_and_flip start cnt v b ≡ ok r b'
unfolding bitmap_scan_and_flip
flip-found b b' start cnt r v scans found sets = ground (arith, scans, found, sets)

flip-error :
    (b : Bitmap) (start cnt r : ℕ) (v : Bool)
    → bitmap_scan start cnt v b ≡ ok r b
    → r ≡ bitmap_error
    → bitmap_scan_and_flip start cnt v b ≡ ok r b
unfolding bitmap_scan_and_flip
flip-error b start cnt r v scans none = ground (arith, scans, none)

-- From a place that the bitmap has, `bitmap_scan_and_flip` ends; it finds the first group of `cnt` bits that
-- all have the value and gives these, and no other, the other value; or it returns
-- `BITMAP_ERROR`, there being no such group, and changes nothing.
pub bitmap_scan_and_flip_lem :
    (b : Bitmap) (start cnt : ℕ) (v : Bool)
    → start ≤ b.bit_cnt
    → b.bit_cnt < 2 ^ 32 - 1
    → (r : ℕ) × (b' : Bitmap) × (bitmap_scan_and_flip start cnt v b ≡ ok r b')
      × Flips b start cnt v r b'
bitmap_scan_and_flip_lem b start cnt v le size =
    let (r, scans, s) = bitmap_scan_lem b start cnt v le (omega arith) in
    elim s [
      | inl g ↦
          let p = g.below in
          let f : Fits b r cnt = record { inside = omega arith; size = omega arith } in
          let (b', sets, filled) = bitmap_set_multiple_lem b r cnt (not v) f in
          (r, b', flip-found b b' start cnt r v scans (ground arith) sets, inl (g, filled))
      | inr (e, none) ↦ (r, b, flip-error b start cnt r v scans e, inr (e, none, refl))
    ]
