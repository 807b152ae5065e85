-- ===== src/Strings/Search.antt =====
-- The functions of lib/string.c that look for characters. `n` is the fuel of every loop to the end
-- of a string.
use cau_assignments.Base.{
  ℕ, zero, suc, ◌+◌, ◌-◌, ◌%◌, ◌^◌, Bool, true, false, not, ◌==◌, leb, if◌then◌else◌,
}
use cau_assignments.Base.Run.{Cmd, pure, out_of_fuel, ◌>>=◌, ◌>>◌, assert, gets}
use cau_assignments.Strings.Ops.{Bytes, null, usable, Sign, zero_sign, minus, plus, memcmp, strlen}

memchr_loop : ℕ → ℕ → ℕ → Cmd Bytes ℕ
memchr_loop zero block ch = pure null
memchr_loop (suc size) block ch = do
  b ← gets (λ m. m block)
  if b == ch then pure block else memchr_loop size (block + 1) ch

unfoldable pub memchr : ℕ → ℕ → ℕ → Cmd Bytes ℕ
unfolding memchr_loop
memchr block ch size = do assert (usable block size); memchr_loop size block (ch % 2 ^ 8)

strchr_loop : ℕ → ℕ → ℕ → Cmd Bytes ℕ
strchr_loop zero string c = λ m. out_of_fuel
strchr_loop (suc n) string c = do
  b ← gets (λ m. m string)
  if b == c then pure string else if b == 0 then pure null else strchr_loop n (string + 1) c

unfoldable pub strchr : ℕ → ℕ → ℕ → Cmd Bytes ℕ
unfolding strchr_loop
strchr n string c = do assert (not (string == null)); strchr_loop n string (c % 2 ^ 8)

-- `strchr (set, c) != NULL`
abbrev pub among : ℕ → ℕ → ℕ → Cmd Bytes Bool
among n set c = do p ← strchr n set c; pure (not (p == null))

-- The loops of `strcspn` and `strspn`, which stop at a character that is, or is not, in `set`.
span_loop : ℕ → ℕ → Bool → ℕ → ℕ → ℕ → Cmd Bytes ℕ
span_loop k zero wanted string set length = λ m. out_of_fuel
span_loop k (suc n) wanted string set length = do
  b ← gets (λ m. m (string + length))
  if b == 0 then pure length else do
    found ← among k set b
    if (if wanted then not found else found)
        then pure length
        else span_loop k n wanted string set (length + 1)

unfoldable pub strcspn : ℕ → ℕ → ℕ → Cmd Bytes ℕ
unfolding span_loop
strcspn n string stop = span_loop n n false string stop 0

unfoldable pub strspn : ℕ → ℕ → ℕ → Cmd Bytes ℕ
unfolding span_loop
strspn n string skip = span_loop n n true string skip 0

strpbrk_loop : ℕ → ℕ → ℕ → ℕ → Cmd Bytes ℕ
strpbrk_loop k zero string stop = λ m. out_of_fuel
strpbrk_loop k (suc n) string stop = do
  b ← gets (λ m. m string)
  if b == 0 then pure null else do
    found ← among k stop b
    if found then pure string else strpbrk_loop k n (string + 1) stop

unfoldable pub strpbrk : ℕ → ℕ → ℕ → Cmd Bytes ℕ
unfolding strpbrk_loop
strpbrk n string stop = strpbrk_loop n n string stop

strrchr_loop : ℕ → ℕ → ℕ → ℕ → Cmd Bytes ℕ
strrchr_loop zero string c p = λ m. out_of_fuel
strrchr_loop (suc n) string c p = do
  b ← gets (λ m. m string)
  if b == 0 then pure p else strrchr_loop n (string + 1) c (if b == c then string else p)

unfoldable pub strrchr : ℕ → ℕ → ℕ → Cmd Bytes ℕ
unfolding strrchr_loop
strrchr n string c = strrchr_loop n string (c % 2 ^ 8) null

abbrev is_zero_sign : Sign → Bool
is_zero_sign zero_sign = true
is_zero_sign minus = false
is_zero_sign plus = false

-- `count` places are left to try, from `haystack + i` on.
strstr_loop : ℕ → ℕ → ℕ → ℕ → ℕ → Cmd Bytes ℕ
strstr_loop zero haystack needle needle_len i = pure null
strstr_loop (suc count) haystack needle needle_len i = do
  s ← memcmp (haystack + i) needle needle_len
  if is_zero_sign s
      then pure (haystack + i)
      else strstr_loop count haystack needle needle_len (i + 1)

unfoldable pub strstr : ℕ → ℕ → ℕ → Cmd Bytes ℕ
unfolding strstr_loop
strstr n haystack needle = do
  haystack_len ← strlen n haystack
  needle_len ← strlen n needle
  if leb needle_len haystack_len
      then strstr_loop (haystack_len - needle_len + 1) haystack needle needle_len 0
      else pure null
