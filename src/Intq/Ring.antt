-- ===== src/Intq/Ring.antt =====
-- The circular buffer of an interrupt queue stands for the bytes from `tail` up to `head`.
use cau_assignments.Base.{
  ℕ, zero, suc, ◌+◌, ◌-◌, ◌%◌, ◌<◌, ◌≡◌, refl, false, List, [], ◌∷◌, ◌++◌, ◌==◌, arith, length,
  if◌then◌else◌, sym, ◌∙◌, ap,
}
use cau_assignments.Intq.Ops.{Intq, next, is_empty, is_full}

-- So many bytes from a position on.
abbrev pub bytes : (ℕ → ℕ) → ℕ → ℕ → List ℕ
bytes buf pos zero = []
bytes buf pos (suc n) = buf pos ∷ bytes buf (next pos) n

abbrev pub count : Intq → ℕ
count q = (q.head + 64 - q.tail) % 64

pub record Contains (q : Intq) (xs : List ℕ) : Type 0 where
  pub head_lt : q.head < 64
  pub tail_lt : q.tail < 64
  pub content : bytes q.buf q.tail (count q) ≡ xs

-- The buffer after `byte` was written at `head`.
abbrev pub written : Intq → ℕ → ℕ → ℕ
written q byte i = if i == q.head then byte else q.buf i

abbrev pub put : ℕ → Intq → Intq
put byte q = record q { buf = written q byte; head = next q.head }

abbrev pub dropped : Intq → Intq
dropped q = record q { tail = next q.tail }

length-bytes : (buf : ℕ → ℕ) (pos n : ℕ) → length (bytes buf pos n) ≡ n
length-bytes buf pos zero = refl
length-bytes buf pos (suc n) = ap suc (length-bytes buf (next pos) n)

bytes-snoc :
    (q : Intq) (byte pos n : ℕ)
    → pos < 64
    → n < 64
    → (pos + n) % 64 ≡ q.head
    → bytes (written q byte) pos (n + 1) ≡ bytes q.buf pos n ++ byte ∷ []
bytes-snoc q byte pos zero lt few e = ground arith
bytes-snoc q byte pos (suc n) lt few e =
    let ne : (pos == q.head) ≡ false = ground arith in
    ground (arith, ne, bytes-snoc q byte (next pos) n (omega arith) (omega arith) (omega arith))

Contains-length : (q : Intq) (xs : List ℕ) → Contains q xs → length xs ≡ count q
Contains-length q xs c = ap length (sym c.content) ∙ length-bytes q.buf q.tail (count q)

pub Contains-is_empty : (q : Intq) (xs : List ℕ) → Contains q xs → is_empty q ≡ (length xs == 0)
Contains-is_empty q xs c =
    let n = Contains-length q xs c in let h = c.head_lt in let t = c.tail_lt in ground arith

pub Contains-is_full : (q : Intq) (xs : List ℕ) → Contains q xs → is_full q ≡ (length xs == 63)
Contains-is_full q xs c =
    let n = Contains-length q xs c in let h = c.head_lt in let t = c.tail_lt in ground arith

pub Contains-put :
    (q : Intq) (xs : List ℕ) (byte : ℕ)
    → Contains q xs
    → is_full q ≡ false
    → Contains (put byte q) (xs ++ byte ∷ [])
Contains-put q xs byte c space =
    let h = c.head_lt in
    let t = c.tail_lt in
    let few : count q < 63 = ground arith in
    let n : count (put byte q) ≡ count q + 1 = ground arith in
    record {
      head_lt = omega arith;
      tail_lt = t;
      content =
          ap (bytes (written q byte) q.tail) n
          ∙ bytes-snoc q byte q.tail (count q) t (omega arith) (omega arith)
          ∙ ap (λ zs. zs ++ byte ∷ []) c.content;
    }

pub Contains-dropped :
    (q : Intq) (x : ℕ) (xs : List ℕ)
    → Contains q (x ∷ xs)
    → (q.buf q.tail ≡ x) × Contains (dropped q) xs
Contains-dropped q x xs c =
    let h = c.head_lt in
    let t = c.tail_lt in
    let some : suc (length xs) ≡ count q = Contains-length q (x ∷ xs) c in
    let n : count q ≡ suc (count (dropped q)) = omega arith in
    let all : q.buf q.tail ∷ bytes q.buf (next q.tail) (count (dropped q)) ≡ x ∷ xs =
      sym (ap (bytes q.buf q.tail) n) ∙ c.content in
    (
      ground (arith, all),
      record { head_lt = h; tail_lt = omega arith; content = ground (arith, all) },
    )
