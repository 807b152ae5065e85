-- ===== src/Strings/Ops.antt =====
-- The functions of lib/string.c on blocks, and those that measure, compare and copy strings. An
-- object does not reach over the end of the address space, so pointers are plain numbers. A loop up to the
-- end of a string runs on fuel; one that counts down `size` needs none.
use cau_assignments.Base.{
  ℕ, zero, suc, ◌+◌, ◌-◌, ◌%◌, ◌^◌, Bool, not, ◌&&◌, ◌||◌, ◌==◌, ltb, if◌then◌else◌,
}
use cau_assignments.Base.Run.{Cmd, pure, out_of_fuel, ◌>>=◌, ◌>>◌, assert, gets, modify}

-- The byte at each address.
abbrev pub Bytes : Type 0
Bytes = ℕ → ℕ

abbrev pub store : ℕ → ℕ → Bytes → Bytes
store a b m = λ p. if p == a then b else m p

abbrev pub null : ℕ
null = 0

-- `p != NULL || size == 0`
abbrev pub usable : ℕ → ℕ → Bool
usable p size = not (p == null) || (size == 0)

-- `while (size-- > 0) *dst++ = *src++;`, with `dst` behind the loop.
unfoldable pub copy_up : ℕ → ℕ → ℕ → Cmd Bytes ℕ
copy_up zero dst src = pure dst
copy_up (suc size) dst src = do
  b ← gets (λ m. m src)
  modify (store dst b)
  copy_up size (dst + 1) (src + 1)

-- `while (size-- > 0) *--dst = *--src;`, with `dst` behind the loop.
unfoldable pub copy_down : ℕ → ℕ → ℕ → Cmd Bytes ℕ
copy_down zero dst src = pure dst
copy_down (suc size) dst src = do
  b ← gets (λ m. m (src - 1))
  modify (store (dst - 1) b)
  copy_down size (dst - 1) (src - 1)

unfoldable pub memcpy : ℕ → ℕ → ℕ → Cmd Bytes ℕ
memcpy dst src size = do
  assert (usable dst size)
  assert (usable src size)
  copy_up size dst src
  pure dst

unfoldable pub memmove : ℕ → ℕ → ℕ → Cmd Bytes ℕ
memmove dst src size = do
  assert (usable dst size)
  assert (usable src size)
  if ltb dst src then copy_up size dst src else copy_down size (dst + size) (src + size)

-- The sign of a comparison.
pub data Sign : Type 0 where
  minus zero_sign plus : Sign

abbrev pub sign_of : ℕ → ℕ → Sign
sign_of a b = if ltb a b then minus else (if ltb b a then plus else zero_sign)

abbrev differing : ℕ → ℕ → Sign
differing a b = if ltb b a then plus else minus

compare_loop : ℕ → ℕ → ℕ → Cmd Bytes Sign
compare_loop zero a b = pure zero_sign
compare_loop (suc size) a b = do
  x ← gets (λ m. m a)
  y ← gets (λ m. m b)
  if x == y then compare_loop size (a + 1) (b + 1) else pure (differing x y)

unfoldable pub memcmp : ℕ → ℕ → ℕ → Cmd Bytes Sign
unfolding compare_loop
memcmp a b size = do assert (usable a size); assert (usable b size); compare_loop size a b

strcmp_loop : ℕ → ℕ → ℕ → Cmd Bytes Sign
strcmp_loop zero a b = λ m. out_of_fuel
strcmp_loop (suc n) a b = do
  x ← gets (λ m. m a)
  y ← gets (λ m. m b)
  if not (x == 0) && (x == y) then strcmp_loop n (a + 1) (b + 1) else pure (sign_of x y)

unfoldable pub strcmp : ℕ → ℕ → ℕ → Cmd Bytes Sign
unfolding strcmp_loop
strcmp n a b = do assert (not (a == null)); assert (not (b == null)); strcmp_loop n a b

unfoldable pub set_loop : ℕ → ℕ → ℕ → Cmd Bytes (Unit {0})
set_loop zero dst value = pure tt
set_loop (suc size) dst value = do modify (store dst (value % 2 ^ 8)); set_loop size (dst + 1) value

unfoldable pub memset : ℕ → ℕ → ℕ → Cmd Bytes ℕ
unfolding set_loop
memset dst value size = do assert (usable dst size); set_loop size dst value; pure dst

-- The loop of `strlen`, with the end of the string.
unfoldable pub end_loop : ℕ → ℕ → Cmd Bytes ℕ
end_loop zero p = λ m. out_of_fuel
end_loop (suc n) p = do b ← gets (λ m. m p); if b == 0 then pure p else end_loop n (p + 1)

unfoldable pub strlen : ℕ → ℕ → Cmd Bytes ℕ
strlen n string = do assert (not (string == null)); p ← end_loop n string; pure (p - string)

strnlen_loop : ℕ → ℕ → ℕ → ℕ → Cmd Bytes ℕ
strnlen_loop zero string maxlen length = λ m. out_of_fuel
strnlen_loop (suc n) string maxlen length = do
  b ← gets (λ m. m (string + length))
  if not (b == 0) && ltb length maxlen
      then strnlen_loop n string maxlen (length + 1)
      else pure length

unfoldable pub strnlen : ℕ → ℕ → ℕ → Cmd Bytes ℕ
unfolding strnlen_loop
strnlen n string maxlen = strnlen_loop n string maxlen 0

-- The smaller one, as the test `a < b` picks it.
abbrev pub smaller : ℕ → ℕ → ℕ
smaller a b = if ltb a b then a else b

-- The part of `strlcpy` and `strlcat` that writes: `count` bytes and the zero byte behind them.
unfoldable pub copy_end : ℕ → ℕ → ℕ → Cmd Bytes (Unit {0})
copy_end dst src count = do memcpy dst src count; modify (store (dst + count) 0)

unfoldable pub strlcpy : ℕ → ℕ → ℕ → ℕ → Cmd Bytes ℕ
strlcpy n dst src size = do
  assert (not (dst == null))
  assert (not (src == null))
  src_len ← strlen n src
  (if ltb 0 size then copy_end dst src (smaller src_len (size - 1)) else pure tt)
  pure src_len

unfoldable pub strlcat : ℕ → ℕ → ℕ → ℕ → Cmd Bytes ℕ
strlcat n dst src size = do
  assert (not (dst == null))
  assert (not (src == null))
  src_len ← strlen n src
  dst_len ← strlen n dst
  (if ltb 0 size && ltb dst_len size
      then copy_end (dst + dst_len) src (smaller src_len (size - dst_len - 1))
      else pure tt)
  pure ((src_len + dst_len) % 2 ^ 32)
