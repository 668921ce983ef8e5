-- ===== src/Mlfqs/Tests.antt =====
-- The feedback queue scheduler at concrete numbers.
use operation_system.Base.{◌/◌, ◌+◌, ℕ, ◌*◌, ◌≡◌, refl, ◌≤◌, some, arith}
use operation_system.Base.Int.{◌/ℤ◌, ◌-ℤ◌, ◌*ℤ◌, to_int32, pos, negsuc}
use operation_system.FixedPoint.{fp_to_int_trunc, fp_div_int, fp_sub, fp_from_int, fp_f}
use operation_system.Kernel.{Kernel, pri_max}
use operation_system.Sched.{thread_current}
use operation_system.Sched.Sample.{sample}
use operation_system.Mlfqs.{mlfqs_priority, load_avg_calc_mlfqs}
use operation_system.Mlfqs.Bounds.{
  ready_threads, mlfqs_priority-antitone, load_avg_calc_mlfqs-bound,
}

mlfqs_priority-antitone_example :
    (mlfqs_priority (pos 200_000) (pos 5) ≤ mlfqs_priority (pos 100_000) (negsuc 4))
    × (mlfqs_priority (pos 100_000) (negsuc 4) ≤ pri_max)
mlfqs_priority-antitone_example =
    mlfqs_priority-antitone (pos 100_000) (pos 200_000) (negsuc 4) (pos 5)
      (omega arith, omega arith) (omega arith, omega arith) (omega arith) (omega arith)
      (omega arith) (omega arith)

abbrev loaded : Kernel
loaded = record sample { load_avg = pos 20_000 }

current_lem : thread_current loaded ≡ some 1
unfolding thread_current
current_lem = refl

load_avg_calc_mlfqs-bound_example :
    (b : ℕ) × (load_avg_calc_mlfqs loaded ≡ some (record loaded { load_avg = pos b }))
    × (b ≡ (59 * 20_000 + ready_threads loaded * fp_f) / 60)
    × (b ≤ 3 * fp_f)
load_avg_calc_mlfqs-bound_example =
    load_avg_calc_mlfqs-bound 3 20_000 loaded (omega arith) current_lem refl (omega arith)
      (omega arith)

-- A nice value that thread_set_nice() does not refuse, for which the formula overflows.
mlfqs_priority-overflow : mlfqs_priority (pos 0) (pos 70_000) ≡ 63
unfolding mlfqs_priority fp_from_int fp_sub fp_div_int fp_to_int_trunc to_int32 ◌*ℤ◌ ◌-ℤ◌ ◌/ℤ◌
mlfqs_priority-overflow = refl
