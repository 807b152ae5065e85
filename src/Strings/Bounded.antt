-- ===== src/Strings/Bounded.antt =====
-- `strlen` measures a string, and `strlcpy` copies as much of one as fits.
use cau_assignments.Base.{
  ℕ, zero, suc, ◌+◌, ◌-◌, ◌≤◌, ◌<◌, ◌≡◌, true, false, ◌&&◌, ◌||◌, ◌==◌, ltb, leb, if◌then◌else◌,
  arith, ap,
}
use cau_assignments.Base.Run.{ok}
use cau_assignments.Strings.Ops.{
  Bytes, store, null, smaller, memcpy, end_loop, strlen, copy_end, strlcpy,
}
use cau_assignments.Strings.Copy.{memcpy_lem}

-- `len` bytes that are not zero, and a zero byte.
pub record IsString (m : Bytes) (p len : ℕ) : Type 0 where
  pub inside : (i : ℕ) → i < len → (m (p + i) == 0) ≡ false
  pub zero_byte : m (p + len) ≡ 0

end_loop_lem :
    (n p len : ℕ) (m : Bytes) → IsString m p len → len < n → end_loop n p m ≡ ok (p + len) m
unfolding end_loop
end_loop_lem zero p len m s lt = absurd (omega arith)
end_loop_lem (suc n) p zero m s lt =
    let z = s.zero_byte in let at : p + 0 ≡ p = omega arith in ground (arith, ap m at)
end_loop_lem (suc n) p (suc len) m s lt =
    let first = s.inside 0 (omega arith) in
    let at : p + 0 ≡ p = omega arith in
    let rest : IsString m (p + 1) len = record {
      inside = λ i h.
          let e : p + (i + 1) ≡ p + 1 + i = omega arith in
          ground (arith, s.inside (i + 1) (omega (arith, h)), ap m e);
      zero_byte =
          let e : p + suc len ≡ p + 1 + len = omega arith in ground (arith, s.zero_byte, ap m e);
    } in
    let next = end_loop_lem n (p + 1) len m rest (omega arith) in
    let sum : p + 1 + len ≡ p + suc len = omega arith in ground (arith, ap m at, next)

-- With more rounds than the string has characters, `strlen` returns how many it has.
pub strlen_lem :
    (n p len : ℕ) (m : Bytes)
    → (p == null) ≡ false
    → IsString m p len
    → len < n
    → strlen n p m ≡ ok len m
unfolding strlen
strlen_lem n p len m real s lt =
    let runs = end_loop_lem n p len m s lt in
    let d : p + len - p ≡ len = omega arith in ground (arith, runs)

-- `count` bytes of the source and a zero byte at `dst`, and nothing else.
abbrev pub CopiedString : ℕ → ℕ → ℕ → Bytes → Bytes → Type 0
CopiedString dst src count m m' =
    (p : ℕ)
    → m' p ≡ (
        if p == dst + count
        then 0
        else (if leb dst p && ltb p (dst + count) then m (src + (p - dst)) else m p))

copy_end-runs :
    (dst src count : ℕ) (m m' : Bytes)
    → memcpy dst src count m ≡ ok dst m'
    → copy_end dst src count m ≡ ok tt (store (dst + count) 0 m')
unfolding copy_end
copy_end-runs dst src count m m' runs = ground (arith, runs)

strlcpy-runs :
    (n dst src size len : ℕ) (m m' : Bytes)
    → (dst == null) ≡ false
    → (src == null) ≡ false
    → 0 < size
    → strlen n src m ≡ ok len m
    → copy_end dst src (smaller len (size - 1)) m ≡ ok tt m'
    → strlcpy n dst src size m ≡ ok len m'
unfolding strlcpy
strlcpy-runs n dst src size len m m' hd hs lt measures copies = ground (arith, measures, copies)

copied-IsString :
    (dst src len count : ℕ) (m m' : Bytes)
    → IsString m src len
    → count ≤ len
    → CopiedString dst src count m m'
    → IsString m' dst count
copied-IsString dst src len count m m' s le c = record {
  inside = λ i h.
      let e : src + (dst + i - dst) ≡ src + i = omega arith in
      ground (arith, c (dst + i), ap m e, s.inside i (omega (arith, h)));
  zero_byte = ground (arith, c (dst + count));
}

-- With more rounds than the source has characters, and for a destination of at least one byte that
-- the source does not overlap, `strlcpy` returns the length of the source and leaves at the
-- destination a string: the source, or its first `size - 1` characters if it is longer. No other
-- byte changes.
pub strlcpy_lem :
    (n dst src size len : ℕ) (m : Bytes)
    → (dst == null) ≡ false
    → (src == null) ≡ false
    → 0 < size
    → (leb (dst + size) src || leb (src + len + 1) dst) ≡ true
    → IsString m src len
    → len < n
    → (m' : Bytes) × (strlcpy n dst src size m ≡ ok len m')
      × IsString m' dst (smaller len (size - 1))
      × CopiedString dst src (smaller len (size - 1)) m m'
strlcpy_lem n dst src size len m hd hs pos apart s lt =
    let count = smaller len (size - 1) in
    let le : count ≤ len = ground arith in
    let fits : count < size = ground arith in
    let (m', runs, c) = memcpy_lem dst src count m (ground arith) (ground arith) (ground arith) in
    let c' : CopiedString dst src count m (store (dst + count) 0 m') = λ p. ground (arith, c p) in
    (
      store (dst + count) 0 m',
      strlcpy-runs n dst src size len m _ hd hs pos (strlen_lem n src len m hs s lt)
          (copy_end-runs dst src count m m' runs),
      copied-IsString dst src len count m _ s le c',
      c',
    )
