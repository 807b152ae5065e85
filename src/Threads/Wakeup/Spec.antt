-- ===== src/Threads/Wakeup/Spec.antt =====
-- What `thread_wakeup` computes on the lists of threads.
use cau_assignments.Base.{
  ℕ, zero, suc, ◌≡◌, refl, Bool, true, false, not, ◌&&◌, List, [], ◌∷◌, ◌++◌, append_assoc,
  append-nil, arith, ◌==◌, if◌then◌else◌, ◌∙◌, Bool-cases, inl, inr,
}
use cau_assignments.Base.Words.{le_int64, gt_int64}
use cau_assignments.KernelList.Memory.{Ptr}
use cau_assignments.Threads.View.{Queues, append_level}

abbrev pub with_sleeping : List Ptr → Queues → Queues
with_sleeping s q = record q { sleeping = s }

-- The queues after the threads `todo` were looked at, those of `done` being kept.
unfoldable pub wake : (Ptr → Bool) → (Ptr → ℕ) → List Ptr → List Ptr → Queues → Queues
wake due prio done [] q = with_sleeping done q
wake due prio done (t ∷ todo) q =
    wake due prio (if due t then done else done ++ t ∷ []) todo
      (if due t then append_level (prio t) t q else q)

-- The tick to wake up at after `todo` was looked at.
unfoldable pub next_tick : (Ptr → Bool) → (Ptr → ℕ) → ℕ → List Ptr → ℕ
next_tick due tick n [] = n
next_tick due tick n (t ∷ todo) =
    next_tick due tick (if due t then n else (if gt_int64 n (tick t) then tick t else n)) todo

-- The threads that are due.
unfoldable pub keep : (Ptr → Bool) → List Ptr → List Ptr
keep p [] = []
keep p (t ∷ ts) = let r = keep p ts in if p t then t ∷ r else r

-- A thread whose tick has come.
abbrev pub is_due : ℕ → (Ptr → ℕ) → Ptr → Bool
is_due now tick t = le_int64 (tick t) now

pub append_level-sleeping :
    (p : ℕ) (t : Ptr) (s : List Ptr) (q : Queues)
    → append_level p t (with_sleeping s q) ≡ with_sleeping s (append_level p t q)
unfolding append_level
append_level-sleeping zero t s q = refl
append_level-sleeping (suc zero) t s q = refl
append_level-sleeping (suc (suc zero)) t s q = refl
append_level-sleeping (suc (suc (suc zero))) t s q = refl
append_level-sleeping (suc (suc (suc (suc n)))) t s q = refl

module _ (due : Ptr → Bool) (prio : Ptr → ℕ) (done : List Ptr) (t : Ptr) (todo : List Ptr)
    (q : Queues) where
  pub wake-due :
      due t ≡ true
      → wake due prio done (t ∷ todo) q ≡ wake due prio done todo (append_level (prio t) t q)
  unfolding wake
  wake-due d = rw d

  pub wake-later :
      due t ≡ false → wake due prio done (t ∷ todo) q ≡ wake due prio (done ++ t ∷ []) todo q
  unfolding wake
  wake-later d = rw d

-- The queues after every thread of `todo` was looked at, level by level: the due threads of each
-- priority are appended to its queue, the others are kept behind `done`.
unfoldable pub woken_queues : (Ptr → Bool) → (Ptr → ℕ) → List Ptr → List Ptr → Queues → Queues
woken_queues due prio done todo q =
    let at = λ (p : ℕ) (t : Ptr). due t && (prio t == p) in
    record {
      fq0 = q.fq0 ++ keep (at 0) todo;
      fq1 = q.fq1 ++ keep (at 1) todo;
      fq2 = q.fq2 ++ keep (at 2) todo;
      fq3 = q.fq3 ++ keep (at 3) todo;
      sleeping = done ++ keep (λ t. not (due t)) todo;
      all = q.all;
    }

module _ (due : Ptr → Bool) (prio : Ptr → ℕ) (done : List Ptr) (t : Ptr) (todo : List Ptr)
    (q : Queues) where
  pub woken_queues-due :
      (p : ℕ)
      → prio t ≡ p
      → due t ≡ true
      → woken_queues due prio done todo (append_level p t q)
        ≡ woken_queues due prio done (t ∷ todo) q
  unfolding woken_queues keep append_level
  woken_queues-due zero e d = rw (d, e) (simp append_assoc)
  woken_queues-due (suc zero) e d = rw (d, e) (simp append_assoc)
  woken_queues-due (suc (suc zero)) e d = rw (d, e) (simp append_assoc)
  woken_queues-due (suc (suc (suc zero))) e d = rw (d, e) (simp append_assoc)
  woken_queues-due (suc (suc (suc (suc n)))) e d = rw (d, e) (ground arith)

  pub woken_queues-later :
      due t ≡ false
      → woken_queues due prio (done ++ t ∷ []) todo q ≡ woken_queues due prio done (t ∷ todo) q
  unfolding woken_queues keep
  woken_queues-later d = rw d (simp append_assoc)

pub wake_levels :
    (due : Ptr → Bool) (prio : Ptr → ℕ) (done todo : List Ptr) (q : Queues)
    → wake due prio done todo q ≡ woken_queues due prio done todo q
wake_levels due prio done [] q = unfold wake woken_queues keep in (simp append-nil)
wake_levels due prio done (t ∷ todo) q = elim (Bool-cases (due t)) [
  | inl d ↦
      wake-due due prio done t todo q d
      ∙ wake_levels due prio done todo (append_level (prio t) t q)
      ∙ woken_queues-due due prio done t todo q (prio t) refl d
  | inr d ↦
      wake-later due prio done t todo q d
      ∙ wake_levels due prio (done ++ t ∷ []) todo q
      ∙ woken_queues-later due prio done t todo q d
]
