-- ===== src/Strings/Tokens.antt =====
-- `strtok_r` (lib/string.c).
use cau_assignments.Base.{ℕ, zero, suc, ◌+◌, Bool, true, false, not, ◌==◌, if◌then◌else◌}
use cau_assignments.Base.Run.{Cmd, pure, out_of_fuel, ◌>>=◌, ◌>>◌, assert, gets, modify}
use cau_assignments.Strings.Ops.{Bytes, store, null}
use cau_assignments.Strings.Search.{among}

-- The result, and what is left in `*save_ptr`, a variable of the caller.
pub record Token : Type 0 where
  pub token : ℕ
  pub save : ℕ

-- Skips delimiters. At the end of the string there is no token, and `s` is saved.
skip_loop : ℕ → ℕ → ℕ → ℕ → Cmd Bytes (Bool × ℕ)
skip_loop k zero delimiters s = λ m. out_of_fuel
skip_loop k (suc n) delimiters s = do
  b ← gets (λ m. m s)
  found ← among k delimiters b
  if found
      then (if b == 0 then pure (false, s) else skip_loop k n delimiters (s + 1))
      else pure (true, s)

-- Skips what is no delimiter.
token_loop : ℕ → ℕ → ℕ → ℕ → Cmd Bytes ℕ
token_loop k zero delimiters s = λ m. out_of_fuel
token_loop k (suc n) delimiters s = do
  b ← gets (λ m. m s)
  found ← among k delimiters b
  if found then pure s else token_loop k n delimiters (s + 1)

-- Ends the token at `s`.
cut_token : ℕ → ℕ → Cmd Bytes Token
cut_token token s = do
  b ← gets (λ m. m s)
  if b == 0
      then pure (record { token = token; save = s })
      else (do modify (store s 0); pure (record { token = token; save = s + 1 }))

unfoldable pub strtok_r : ℕ → ℕ → ℕ → ℕ → Cmd Bytes Token
unfolding skip_loop token_loop cut_token
strtok_r n string delimiters saved = do
  assert (not (delimiters == null))
  s ← pure (if string == null then saved else string)
  assert (not (s == null))
  r ← skip_loop n n delimiters s
  if r.0
      then (do end ← token_loop n n delimiters (r.1); cut_token (r.1) end)
      else pure (record { token = null; save = r.1 })
