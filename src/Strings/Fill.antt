-- ===== src/Strings/Fill.antt =====
-- `memset` of lib/string.c.
use cau_assignments.Base.{
  ℕ, zero, suc, ◌+◌, ◌%◌, ◌^◌, ◌≡◌, true, ◌&&◌, leb, ltb, if◌then◌else◌, arith, ◌∙◌, fun_ext, ap,
}
use cau_assignments.Base.Run.{ok}
use cau_assignments.Strings.Ops.{Bytes, store, usable, set_loop, memset}

-- The memory with `size` bytes from `dst` on set to the low byte of `value`.
abbrev pub filled : ℕ → ℕ → ℕ → Bytes → Bytes
filled dst value size m = λ p. if leb dst p && ltb p (dst + size) then value % 2 ^ 8 else m p

set_loop_lem :
    (size dst value : ℕ) (m : Bytes) → set_loop size dst value m ≡ ok tt (filled dst value size m)
unfolding set_loop
set_loop_lem zero dst value m = ap (ok tt) (fun_ext λ p. ground arith)
set_loop_lem (suc size) dst value m =
    set_loop_lem size (dst + 1) value (store dst (value % 2 ^ 8) m)
    ∙ ap (ok tt) (fun_ext λ p. ground arith)

-- `memset` sets the bytes of a block, and no other byte, and returns `dst`.
pub memset_lem :
    (dst value size : ℕ) (m : Bytes)
    → usable dst size ≡ true
    → memset dst value size m ≡ ok dst (filled dst value size m)
unfolding memset
memset_lem dst value size m real = ground (arith, real, set_loop_lem size dst value m)
