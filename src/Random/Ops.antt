-- ===== src/Random/Ops.antt =====
-- lib/random.c, the RC4 generator. The processor is little-endian; `unsigned` and `unsigned long` have 32
-- bits.
use cau_assignments.Base.{ℕ, zero, suc, ◌+◌, ◌*◌, ◌/◌, ◌%◌, ◌^◌, Bool, true, not, if◌then◌else◌}
use cau_assignments.Base.Run.{Cmd, ◌>>◌, gets, modify}
use cau_assignments.Strings.Ops.{Bytes, store}

-- The static variables, and the bytes of memory that the caller passes.
pub record Generator : Type 0 where
  pub s : ℕ → ℕ
  pub s_i : ℕ
  pub s_j : ℕ
  pub inited : Bool
  pub bytes : Bytes

-- `swap_byte (s + i, s + j)`
unfoldable pub swap_byte : ℕ → ℕ → (ℕ → ℕ) → ℕ → ℕ
swap_byte i j s = store j (s i) (store i (s j) s)

-- The byte `seedp[i]` of the seed.
abbrev pub seedp : ℕ → ℕ → ℕ
seedp seed i = seed / 256 ^ i % 256

-- `for (i = 0; i < 256; i++) s[i] = i;`: the rounds that are left, and `i`.
unfoldable pub identity_loop : ℕ → ℕ → (ℕ → ℕ) → ℕ → ℕ
identity_loop zero i s = s
identity_loop (suc n) i s = identity_loop n (i + 1) (store i i s)

-- The second loop of `random_init`: the rounds that are left, `i` and `j`.
unfoldable pub mix_loop : ℕ → ℕ → ℕ → ℕ → (ℕ → ℕ) → ℕ → ℕ
mix_loop zero seed i j s = s
mix_loop (suc n) seed i j s =
    let j' = (j + (s i + seedp seed (i % 4))) % 256 in mix_loop n seed (i + 1) j' (swap_byte i j' s)

unfoldable pub random_init : ℕ → Generator → Generator
random_init seed g = record g {
  s = mix_loop 256 seed 0 0 (identity_loop 256 0 g.s);
  s_i = 0;
  s_j = 0;
  inited = true;
}

-- One round of the loop of `random_bytes`.
unfoldable pub random_byte : ℕ → Generator → Generator
random_byte buf g =
    let i = (g.s_i + 1) % 256 in
    let j = (g.s_j + g.s i) % 256 in
    let s = swap_byte i j g.s in
    let s_k = (s i + s j) % 256 in
    record g { s = s; s_i = i; s_j = j; bytes = store buf (s s_k) g.bytes }

unfoldable pub bytes_loop : ℕ → ℕ → Generator → Generator
bytes_loop zero buf g = g
bytes_loop (suc size) buf g = bytes_loop size (buf + 1) (random_byte buf g)

-- `if (!inited) random_init (0);`
unfoldable pub started : Generator → Generator
started g = if not g.inited then random_init 0 g else g

unfoldable pub random_bytes : ℕ → ℕ → Generator → Generator
random_bytes buf size g = bytes_loop size buf (started g)

-- `ul` is the address of the variable.
unfoldable pub random_ulong : ℕ → Cmd Generator ℕ
random_ulong ul = do
  modify (random_bytes ul 4)
  gets (λ g.
      g.bytes ul + 2 ^ 8 * g.bytes (ul + 1) + 2 ^ 16 * g.bytes (ul + 2) + 2 ^ 24 * g.bytes (ul + 3))
