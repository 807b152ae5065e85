-- ===== src/Threads/Frames.antt =====
-- The stack frames that `thread_create` builds, and the identifier it takes.
use cau_assignments.Base.{ℕ, ◌+◌, ◌-◌, ◌%◌, ◌^◌, ◌<◌, ◌≡◌, refl, true, arith, ap, ◌∙◌}
use cau_assignments.Base.Run.{ok}
use cau_assignments.KernelList.Memory.{Ptr, null, update}
use cau_assignments.Threads.State.{Statics, set_thread}
use cau_assignments.Threads.Ops.{is_thread}
use cau_assignments.Threads.Create.{Loaded, Linked, alloc_frame, stack_frames}

abbrev pub with_stack : Ptr → Ptr → Loaded → Loaded
with_stack t sp s =
    let k = s.machine.kernel in
    record s {
      machine = record s.machine { kernel = set_thread t (record (k.threads t) { stack = sp }) k };
    }

alloc_frame_lem :
    (s : Loaded) (t sp size : ℕ)
    → is_thread s.machine.kernel t ≡ true
    → (size % 4) ≡ 0
    → (s.machine.kernel.threads t).stack ≡ sp + size
    → sp + size < 2 ^ 32
    → alloc_frame t size s ≡ ok sp (with_stack t sp s)
unfolding alloc_frame
alloc_frame_lem s t sp size real four e lt =
    let wraps : ((s.machine.kernel.threads t).stack + 2 ^ 32 - size) % 2 ^ 32 ≡ sp = omega arith in
    ground (arith, wraps)

-- The words that are stored: the frames for `kernel_thread`, `switch_entry` and `switch_threads`.
abbrev pub entry_words : Ptr → Ptr → Ptr → (Ptr → ℕ) → Ptr → ℕ
entry_words kf function aux word =
    update (update (update word kf null) (kf + 4) function) (kf + 8) aux

abbrev pub frames : Linked → Ptr → Ptr → Ptr → (Ptr → ℕ) → Ptr → ℕ
frames at sf function aux word =
    update
      (update (update (entry_words (sf + 32) function aux word) (sf + 28) at.kernel_thread)
        (sf + 16) at.switch_entry)
      (sf + 8) 0

abbrev pub with_word : (Ptr → ℕ) → Loaded → Loaded
with_word f s = record s { word = f }

stack_frames-runs :
    (v : Statics) (at : Linked) (s s1 s2 s3 : Loaded) (t kf ef sf function aux : Ptr)
    → alloc_frame t 12 s ≡ ok kf s1
    → alloc_frame t 4 (with_word (entry_words kf function aux s1.word) s1) ≡ ok ef s2
    → alloc_frame t 28 (with_word (update s2.word ef at.kernel_thread) s2) ≡ ok sf s3
    → stack_frames v at t function aux s
      ≡ ok tt (with_word (update (update s3.word (sf + 16) at.switch_entry) (sf + 8) 0) s3)
unfolding stack_frames
stack_frames-runs v at s s1 s2 s3 t kf ef sf function aux a b c = rw (a, b, c) refl

stack_thrice :
    (s : Loaded) (t a b c : Ptr) (f g h : Ptr → ℕ)
    → with_word h (with_stack t c (with_word g (with_stack t b (with_word f (with_stack t a s)))))
      ≡ with_word h (with_stack t c s)
stack_thrice s t a b c f g h = ground arith

-- With room for them the three frames end at the stack pointer, 44 bytes in all.
pub stack_frames_lem :
    (v : Statics) (at : Linked) (s : Loaded) (t sf function aux : Ptr)
    → is_thread s.machine.kernel t ≡ true
    → (s.machine.kernel.threads t).stack ≡ sf + 44
    → sf + 44 < 2 ^ 32
    → stack_frames v at t function aux s
      ≡ ok tt (with_word (frames at sf function aux s.word) (with_stack t sf s))
stack_frames_lem v at s t sf function aux real e lt =
    let s1 = with_stack t (sf + 32) s in
    let s1' = with_word (entry_words (sf + 32) function aux s.word) s1 in
    let s2 = with_stack t (sf + 28) s1' in
    let s2' = with_word (update s2.word (sf + 28) at.kernel_thread) s2 in
    let a = alloc_frame_lem s t (sf + 32) 12 real refl (omega (arith, e)) (omega arith) in
    let b = alloc_frame_lem s1' t (sf + 28) 4 (ground arith) refl (ground arith) (omega arith) in
    let c = alloc_frame_lem s2' t sf 28 (ground arith) refl (ground arith) (omega arith) in
    stack_frames-runs v at s s1 s2 (with_stack t sf s2') t (sf + 32) (sf + 28) sf function aux a b c
    ∙ ap (ok tt) (stack_thrice s t (sf + 32) (sf + 28) sf s1'.word s2'.word _)
