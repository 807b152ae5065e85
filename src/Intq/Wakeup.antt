-- ===== src/Intq/Wakeup.antt =====
-- No wake-up is lost: the byte that arrives after a reader went to sleep makes it ready again.
use cau_assignments.Base.{ℕ, ◌<◌, ◌≡◌, refl, true, false, [], ◌∷◌, List, ◌==◌, arith, subst}
use cau_assignments.Base.Run.{ok}
use cau_assignments.KernelList.Memory.{Ptr, null}
use cau_assignments.Threads.State.{Statics, is_ready, is_blocked}
use cau_assignments.Threads.Ops.{is_thread}
use cau_assignments.Threads.Synch.{lock_sema}
use cau_assignments.Threads.Locks.{InThread}
use cau_assignments.Threads.View.{Queues, Holds, pick, Unlisted, append_level}
use cau_assignments.Intq.Ops.{System, Outcome, intq_getc, intq_putc}
use cau_assignments.Intq.Ring.{Contains}
use cau_assignments.Intq.Wait.{asleep, awake, intq_getc-in_wait, intq_putc-awake}

Unlisted-pick :
    (v : Statics) (t idle : Ptr) (a b c d s l : List Ptr)
    → let q : Queues = record { fq0 = a; fq1 = b; fq2 = c; fq3 = d; sleeping = s; all = l } in
      Unlisted v q t → Unlisted v (pick q idle).1 t
unfolding pick
Unlisted-pick v t idle (x ∷ r) b c d s l out = ground arith
Unlisted-pick v t idle [] (x ∷ r) c d s l out = ground arith
Unlisted-pick v t idle [] [] (x ∷ r) d s l out = ground arith
Unlisted-pick v t idle [] [] [] (x ∷ r) s l out = ground arith
Unlisted-pick v t idle [] [] [] [] s l out = out

-- An interrupt handler starts.
abbrev pub interrupted : System → System
interrupted s =
    let k = s.machine.kernel in
    record s {
      machine = record s.machine { kernel = record k { in_external_intr = true; intr_on = false } };
    }

-- The thread `t` of `s` reads and sleeps, and a handler puts `b`: where this leads.
pub record Delivered (v : Statics) (l : Ptr) (s : System) (q : Queues) (b : ℕ) : Type 0 where
  pub sleeping : System
  pub delivered : System
  pub reads : intq_getc v l s ≡ ok Outcome.in_wait sleeping
  pub puts : intq_putc v l b (interrupted sleeping) ≡ ok (Outcome.done tt) delivered
  pub ready : is_ready (delivered.machine.kernel.threads s.machine.kernel.current).status ≡ true
  pub queues :
      let k = s.machine.kernel in
      Holds v
        (append_level (k.threads k.current).priority k.current (pick q k.idle_thread).1)
        delivered.machine.kernel.mem
  pub content : Contains delivered.queue (b ∷ [])
  pub none_waits : delivered.queue.not_empty ≡ null

-- In a running thread of one of the four levels that is on no list, with interrupts off, the queue
-- empty, its lock free and another thread to run, `intq_getc` puts the thread to sleep; the first
-- byte that a handler puts then makes this very thread ready, at the end of the feedback queue of
-- its priority, with the byte in the queue for it and no thread noted as waiting for data.
pub intq_putc-intq_getc :
    (v : Statics) (l : Ptr) (s : System) (q : Queues) (b : ℕ)
    → let k = s.machine.kernel in
      Holds v q k.mem
      → InThread s.machine
      → k.in_external_intr ≡ false
      → k.intr_on ≡ false
      → (l == null) ≡ false
      → s.machine.holder l ≡ null
      → s.machine.value (lock_sema l) ≡ 1
      → Contains s.queue []
      → is_thread k (pick q k.idle_thread).0 ≡ true
      → (k.current == (pick q k.idle_thread).0) ≡ false
      → Unlisted v q k.current
      → (k.threads k.current).priority < 4
      → Delivered v l s q b
intq_putc-intq_getc v l s q b h i handler off real free one none next other out lt =
    let k = s.machine.kernel in
    let (m, reads, h1) = intq_getc-in_wait v l s q h i handler off real free one none next in
    let s2 = interrupted (asleep l s q m) in
    let q' = (pick q k.idle_thread).1 in
    let out' =
      Unlisted-pick v k.current k.idle_thread q.fq0 q.fq1 q.fq2 q.fq3 q.sleeping q.all out in
    let t = i.thread in
    let x = s2.machine.kernel.threads k.current in
    let same : x.priority ≡ (k.threads k.current).priority = ground (arith, other) in
    let blocked : is_blocked x.status ≡ true = ground (arith, other) in
    let stays : is_thread s2.machine.kernel k.current ≡ true = ground (arith, other) in
    let sleeps : Contains s2.queue [] = record {
      head_lt = none.head_lt;
      tail_lt = none.tail_lt;
      content = none.content;
    } in
    let (m', puts, h2, c) =
      intq_putc-awake v l s2 q' [] b h1 refl sleeps (omega arith) out' stays blocked
        (omega (arith, same)) in
    record {
      sleeping = asleep l s q m;
      delivered = awake k.current b s2 m';
      reads = reads;
      puts = puts;
      ready = ground arith;
      queues = subst (λ p. Holds v (append_level p k.current q') m') same h2;
      content = c;
      none_waits = refl;
    }
