-- ===== src/Tests/Blocks.antt =====
-- Tests of blocks and strings: the bytes "abc" at address 16.
use cau_assignments.Base.{
  ℕ, ◌+◌, ◌≡◌, refl, arith, get_or, [], ◌∷◌, ◌-◌, zero, suc, ◌<◌, ◌==◌, false,
}
use cau_assignments.Base.Run.{ok}
use cau_assignments.Strings.Ops.{Bytes, memmove, strlcpy}
use cau_assignments.Strings.Copy.{Copied, memmove_lem}
use cau_assignments.Strings.Bounded.{IsString, CopiedString, strlcpy_lem}

abbrev m : Bytes
m = λ p. get_or (97 ∷ 98 ∷ 99 ∷ []) (p - 16) 0

m-IsString : IsString m 16 3
m-IsString = record { inside = inside; zero_byte = refl }
  where
    inside : (i : ℕ) → i < 3 → (m (16 + i) == 0) ≡ false
    inside zero h = refl
    inside (suc zero) h = refl
    inside (suc (suc zero)) h = refl
    inside (suc (suc (suc i))) h = absurd (omega (arith, h))

-- The blocks overlap.
memmove_lem_example : (m' : Bytes) × (memmove 17 16 3 m ≡ ok 17 m') × Copied 17 16 3 m m'
memmove_lem_example = memmove_lem 17 16 3 m refl refl

-- Three bytes of room for a string of three characters.
strlcpy_lem_example :
    (m' : Bytes) × (strlcpy 4 32 16 3 m ≡ ok 3 m') × IsString m' 32 2 × CopiedString 32 16 2 m m'
strlcpy_lem_example =
    strlcpy_lem 4 32 16 3 3 m refl refl (omega arith) refl m-IsString (omega arith)
