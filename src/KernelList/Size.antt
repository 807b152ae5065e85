-- ===== src/KernelList/Size.antt =====
-- `list_size` counts the elements.
use cau_assignments.Base.{
  ℕ, zero, suc, ◌+◌, ◌%◌, ◌^◌, ◌<◌, ◌≡◌, false, List, [], ◌∷◌, ◌++◌, ◌==◌, arith, length, subst,
  sym, append_assoc, ap, ◌∙◌,
}
use cau_assignments.Base.Run.{ok}
use cau_assignments.KernelList.Memory.{Ptr, Mem}
use cau_assignments.KernelList.Ops.{tail, list_next, list_end}
use cau_assignments.KernelList.Lists.{IsList, first}
use cau_assignments.KernelList.Step.{list_next_lem, list_begin_lem, list_end_lem, elem-ne-tail}
use cau_assignments.KernelList.Walk.{size_loop, list_size}

size-end :
    (l : Ptr) (n : ℕ) (e : Ptr) (cnt : ℕ) (m : Mem)
    → list_end l m ≡ ok e m
    → size_loop l (suc n) e cnt m ≡ ok cnt m
unfolding size_loop
size-end l n e cnt m stop = ground (arith, stop)

size-next :
    (l : Ptr) (n : ℕ) (e e' end : Ptr) (cnt : ℕ) (m : Mem)
    → list_end l m ≡ ok end m
    → (e == end) ≡ false
    → list_next e m ≡ ok e' m
    → size_loop l (suc n) e cnt m ≡ size_loop l n e' ((cnt + 1) % 2 ^ 32) m
unfolding size_loop
size-next l n e e' end cnt m stop ne next = ground (arith, stop, next)

size_loop_lem :
    (m : Mem) (l : Ptr) (ys xs : List Ptr) (n cnt : ℕ)
    → IsList m l (xs ++ ys)
    → length ys < n
    → cnt < 2 ^ 32
    → size_loop l n (first ys (tail l)) cnt m ≡ ok ((cnt + length ys) % 2 ^ 32) m
size_loop_lem m l ys xs zero cnt is lt small = absurd (omega arith)
size_loop_lem m l [] xs (suc n) cnt is lt small =
    size-end l n (tail l) cnt m (list_end_lem m l _ is) ∙ ap (λ c. ok c m) (omega arith)
size_loop_lem m l (y ∷ ys) xs (suc n) cnt is lt small =
    size-next l n y (first ys (tail l)) (tail l) cnt m (list_end_lem m l _ is)
      (elem-ne-tail m l xs y ys is) (list_next_lem m l xs y ys is)
    ∙ size_loop_lem m l ys (xs ++ y ∷ []) n ((cnt + 1) % 2 ^ 32)
        (subst (IsList m l) (sym (append_assoc xs (y ∷ []) ys)) is) (omega arith) (omega arith)
    ∙ ap (λ c. ok c m) (omega arith)

-- With more rounds than elements, `list_size` returns the number of elements as a 32-bit integer.
pub list_size_lem :
    (m : Mem) (l : Ptr) (xs : List Ptr) (n : ℕ)
    → IsList m l xs
    → length xs < n
    → list_size n l m ≡ ok (length xs % 2 ^ 32) m
unfolding list_size
list_size_lem m l xs n is lt =
    rw (list_begin_lem m l xs is)
      (size_loop_lem m l xs [] n 0 is lt (omega arith) ∙ ap (λ c. ok (c % 2 ^ 32) m) (omega arith))
