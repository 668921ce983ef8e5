-- ===== src/Mlfqs.antt =====
-- pintos/src/threads/thread.c: the multi-level feedback queue scheduler's priority, recent_cpu and
-- load_avg, in the fixed-point numbers of FixedPoint.
pub mod Bounds
mod Tests
use operation_system.Base.{
  ℕ, ◌+◌, Bool, true, false, not, Option, none, some, List, [], ◌∷◌, ltb, if◌then◌else◌, length,
  assert, ◌>>=◌, ◌>>◌,
}
use operation_system.Base.Int.{ℤ, pos, negsuc, ◌*ℤ◌, ltb_ℤ, to_int32}
use operation_system.FixedPoint.{
  fp_from_int, fp_to_int_trunc, fp_to_int_round, fp_sub, fp_add_int, fp_mul, fp_mul_int, fp_div,
  fp_div_int,
}
use operation_system.Kernel.{Kernel, Thread, prio, pri_min, pri_max, set_thread}
use operation_system.Interrupt.{intr_disable, intr_set_level}
use operation_system.Sched.{is_idle, thread_current, thread_yield}

-- The bounds PRI_MIN and PRI_MAX, which make the priority a natural number.
abbrev pub clamp_priority : ℤ → ℕ
clamp_priority (pos n) = if ltb pri_max n then pri_max else n
clamp_priority (negsuc n) = pri_min

unfoldable pub mlfqs_priority : ℤ → ℤ → ℕ
mlfqs_priority recent_cpu nice = clamp_priority (
    fp_to_int_trunc (
      fp_sub (fp_sub (fp_from_int (pos pri_max)) (fp_div_int recent_cpu (pos 4)))
        (fp_from_int (to_int32 (nice *ℤ pos 2)))))

unfoldable pub thread_priority_calc_mlfqs : ℕ → Kernel → Kernel
unfolding mlfqs_priority
thread_priority_calc_mlfqs t k =
    let th = k.threads t in
    if is_idle k t
    then k
    else set_thread t (record th { priority = mlfqs_priority th.recent_cpu th.nice }) k

unfoldable pub decay : ℤ → ℤ
decay load_avg =
    fp_div (fp_mul_int load_avg (pos 2)) (fp_add_int (fp_mul_int load_avg (pos 2)) (pos 1))

unfoldable pub thread_recent_cpu_calc_mlfqs : ℕ → Kernel → Kernel
unfolding decay
thread_recent_cpu_calc_mlfqs t k =
    let th = k.threads t in
    let recent = fp_add_int (fp_mul (decay k.load_avg) th.recent_cpu) th.nice in
    if is_idle k t then k else set_thread t (record th { recent_cpu = recent }) k

unfoldable pub load_avg_calc_mlfqs : Kernel → Option Kernel
load_avg_calc_mlfqs k = do
  cur ← thread_current k
  let waiting = length k.ready_list
  let ready_threads = if is_idle k cur then waiting else waiting + 1
  some (record k {
    load_avg =
        fp_div_int (fp_add_int (fp_mul_int k.load_avg (pos 59)) (pos ready_threads)) (pos 60);
  })

unfoldable pub thread_recent_cpu_incre : ℕ → Kernel → Kernel
thread_recent_cpu_incre t k =
    let th = k.threads t in
    if is_idle k t
    then k
    else set_thread t (record th { recent_cpu = fp_add_int th.recent_cpu (pos 1) }) k

-- Up to the switch if it yields.
unfoldable pub thread_set_nice : ℤ → Kernel → Option Kernel
unfolding thread_priority_calc_mlfqs intr_disable intr_set_level
thread_set_nice nice k = do
  let (old_level, k1) = intr_disable k
  cur ← thread_current k1
  let k2 =
      thread_priority_calc_mlfqs cur (set_thread cur (record (k1.threads cur) { nice = nice }) k1)
  elim k2.ready_list [
    | [] ↦ intr_set_level old_level k2
    | nextt ∷ _ ↦
        if ltb (prio k2 cur) (prio k2 nextt) then thread_yield k2 else intr_set_level old_level k2
  ]

unfoldable pub thread_get_nice : Kernel → Option ℤ
thread_get_nice k = do cur ← thread_current (intr_disable k).1; some (k.threads cur).nice

unfoldable pub thread_get_priority : Kernel → Option ℕ
thread_get_priority k = do cur ← thread_current (intr_disable k).1; some (prio k cur)

unfoldable pub thread_get_load_avg : Kernel → ℤ
thread_get_load_avg k = fp_to_int_round (fp_mul_int k.load_avg (pos 100))

unfoldable pub thread_get_recent_cpu : Kernel → Option ℤ
thread_get_recent_cpu k = do
  cur ← thread_current (intr_disable k).1
  some (fp_to_int_round (fp_mul_int (k.threads cur).recent_cpu (pos 100)))
