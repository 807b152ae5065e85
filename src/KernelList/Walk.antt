-- ===== src/KernelList/Walk.antt =====
-- The functions of lib/kernel/list.c that walk along lists: size, order, extrema and reversal. A loop
-- runs on fuel. `less` is the caller's comparison with its argument `aux`.
use cau_assignments.Base.{
  ℕ, zero, suc, ◌+◌, ◌%◌, ◌^◌, Bool, true, false, not, ◌&&◌, ◌==◌, ltb, if◌then◌else◌,
}
use cau_assignments.Base.Run.{Cmd, pure, out_of_fuel, ◌>>=◌, ◌>>◌, assert}
use cau_assignments.KernelList.Memory.{Ptr, Mem, get_prev, get_next, set_prev, set_next}
use cau_assignments.KernelList.Ops.{
  head, tail, non_null, list_begin, list_end, list_next, list_prev, list_empty, list_insert,
  list_splice, list_remove, list_push_back,
}

-- The loop of `list_size`.
unfoldable pub size_loop : Ptr → ℕ → Ptr → ℕ → Cmd Mem ℕ
size_loop l zero e cnt = λ m. out_of_fuel
size_loop l (suc n) e cnt = do
  end ← list_end l
  if e == end then pure cnt else do e' ← list_next e; size_loop l n e' ((cnt + 1) % 2 ^ 32)

unfoldable pub list_size : ℕ → Ptr → Cmd Mem ℕ
list_size n l = do b ← list_begin l; size_loop l n b 0

-- The loop of `list_reverse`.
reverse_loop : Ptr → ℕ → Ptr → Cmd Mem (Unit {0})
reverse_loop l zero e = λ m. out_of_fuel
reverse_loop l (suc n) e = do
  end ← list_end l
  if e == end then pure tt else do
    p ← get_prev e
    q ← get_next e
    set_prev e q
    set_next e p
    e' ← get_prev e
    reverse_loop l n e'

unfoldable pub list_reverse : ℕ → Ptr → Cmd Mem (Unit {0})
unfolding reverse_loop
list_reverse n l = do
  empty ← list_empty l
  if empty then pure tt else do
    b ← list_begin l
    reverse_loop l n b
    h ← get_next (head l)
    t ← get_prev (tail l)
    set_next (head l) t
    set_prev (tail l) h
    front ← get_next (head l)
    back ← get_prev (tail l)
    p ← get_prev front
    q ← get_next back
    set_prev front q
    set_next back p

module _ (less : Ptr → Ptr → Bool) where
  -- The loop of `is_sorted`.
  sorted_loop : ℕ → Ptr → Ptr → Cmd Mem Bool
  sorted_loop zero a b = λ m. out_of_fuel
  sorted_loop (suc n) a b = do
    a' ← list_next a
    if a' == b
        then pure true
        else do p ← list_prev a'; if less a' p then pure false else sorted_loop n a' b

  unfoldable pub is_sorted : ℕ → Ptr → Ptr → Cmd Mem Bool
  unfolding sorted_loop
  is_sorted n a b = if a == b then pure true else sorted_loop n a b

  -- The loop of `find_end_of_run`.
  run_loop : ℕ → Ptr → Ptr → Cmd Mem Ptr
  run_loop zero a b = λ m. out_of_fuel
  run_loop (suc n) a b = do
    a' ← list_next a
    if a' == b then pure a' else do p ← list_prev a'; if less a' p then pure a' else run_loop n a' b

  unfoldable pub find_end_of_run : ℕ → Ptr → Ptr → Cmd Mem Ptr
  unfolding run_loop
  find_end_of_run n a b = do
    assert (non_null a)
    assert (non_null b)
    assert (not (a == b))
    run_loop n a b

  -- The loop of `inplace_merge`.
  merge_loop : ℕ → Ptr → Ptr → Ptr → Cmd Mem (Unit {0})
  merge_loop zero a0 a1b0 b1 = λ m. out_of_fuel
  merge_loop (suc n) a0 a1b0 b1 =
      if not (a0 == a1b0) && not (a1b0 == b1)
      then (if not (less a1b0 a0) then (do a0' ← list_next a0; merge_loop n a0' a1b0 b1) else (do
        a1b0' ← list_next a1b0
        p ← list_prev a1b0'
        list_splice a0 p a1b0'
        merge_loop n a0 a1b0' b1))
      else pure tt

  unfoldable pub inplace_merge : ℕ → Ptr → Ptr → Ptr → Cmd Mem (Unit {0})
  unfolding merge_loop
  inplace_merge n a0 a1b0 b1 = do
    assert (non_null a0)
    assert (non_null a1b0)
    assert (non_null b1)
    s0 ← is_sorted n a0 a1b0
    assert s0
    s1 ← is_sorted n a1b0 b1
    assert s1
    merge_loop n a0 a1b0 b1

  -- One pass of `list_sort`, from `a0` on, with `output_run_cnt`. The loops inside get `k` rounds.
  sort_pass : Ptr → ℕ → ℕ → Ptr → ℕ → Cmd Mem ℕ
  sort_pass l k zero a0 runs = λ m. out_of_fuel
  sort_pass l k (suc n) a0 runs = do
    end ← list_end l
    if a0 == end then pure runs else do
      a1b0 ← find_end_of_run k a0 end
      if a1b0 == end then pure ((runs + 1) % 2 ^ 32) else do
        b1 ← find_end_of_run k a1b0 end
        inplace_merge k a0 a1b0 b1
        sort_pass l k n b1 ((runs + 1) % 2 ^ 32)

  sort_loop : Ptr → ℕ → ℕ → Cmd Mem (Unit {0})
  unfolding sort_pass
  sort_loop l k zero = λ m. out_of_fuel
  sort_loop l k (suc n) = do
    b ← list_begin l
    runs ← sort_pass l k k b 0
    if ltb 1 runs then sort_loop l k n else pure tt

  unfoldable pub list_sort : ℕ → Ptr → Cmd Mem (Unit {0})
  unfolding sort_loop
  list_sort n l = do
    assert (non_null l)
    sort_loop l n n
    b ← list_begin l
    end ← list_end l
    s ← is_sorted n b end
    assert s

  -- The loop of `list_insert_ordered`: the place for `elem`.
  unfoldable pub place_loop : Ptr → Ptr → ℕ → Ptr → Cmd Mem Ptr
  place_loop l elem zero e = λ m. out_of_fuel
  place_loop l elem (suc n) e = do
    end ← list_end l
    if e == end
        then pure e
        else if less elem e
        then pure e
        else do e' ← list_next e; place_loop l elem n e'

  unfoldable pub list_insert_ordered : ℕ → Ptr → Ptr → Cmd Mem (Unit {0})
  list_insert_ordered n l elem = do
    assert (non_null l)
    assert (non_null elem)
    b ← list_begin l
    e ← place_loop l elem n b
    list_insert e elem

  -- The loop of `list_unique`.
  unique_loop : Ptr → Ptr → ℕ → Ptr → Cmd Mem (Unit {0})
  unique_loop l duplicates zero elem = λ m. out_of_fuel
  unique_loop l duplicates (suc n) elem = do
    next ← list_next elem
    end ← list_end l
    if next == end
        then pure tt
        else if not (less elem next) && not (less next elem)
        then (do
          list_remove next
          (if non_null duplicates then list_push_back duplicates next else pure tt)
          unique_loop l duplicates n elem)
        else unique_loop l duplicates n next

  unfoldable pub list_unique : ℕ → Ptr → Ptr → Cmd Mem (Unit {0})
  unfolding unique_loop
  list_unique n l duplicates = do
    assert (non_null l)
    empty ← list_empty l
    if empty then pure tt else do b ← list_begin l; unique_loop l duplicates n b

  -- The loop of `list_max`.
  unfoldable pub max_loop : Ptr → ℕ → Ptr → Ptr → Cmd Mem Ptr
  max_loop l zero e max = λ m. out_of_fuel
  max_loop l (suc n) e max = do
    end ← list_end l
    if e == end
        then pure max
        else do e' ← list_next e; max_loop l n e' (if less max e then e else max)

  unfoldable pub list_max : ℕ → Ptr → Cmd Mem Ptr
  list_max n l = do
    max ← list_begin l
    end ← list_end l
    if max == end then pure max else do e ← list_next max; max_loop l n e max

  -- The loop of `list_min`.
  min_loop : Ptr → ℕ → Ptr → Ptr → Cmd Mem Ptr
  min_loop l zero e min = λ m. out_of_fuel
  min_loop l (suc n) e min = do
    end ← list_end l
    if e == end
        then pure min
        else do e' ← list_next e; min_loop l n e' (if less e min then e else min)

  unfoldable pub list_min : ℕ → Ptr → Cmd Mem Ptr
  unfolding min_loop
  list_min n l = do
    min ← list_begin l
    end ← list_end l
    if min == end then pure min else do e ← list_next min; min_loop l n e min
