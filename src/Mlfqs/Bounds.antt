-- ===== src/Mlfqs/Bounds.antt =====
-- The feedback queue scheduler's numbers: bounds and monotonicity.
use operation_system.Base.{
  ℕ, ◌+◌, ◌*◌, ◌/◌, ◌^◌, ◌≤◌, ◌<◌, ◌≡◌, refl, some, arith, if◌then◌else◌, length,
}
use operation_system.Base.Int.{
  ℤ, pos, negsuc, ◌+ℤ◌, ◌-ℤ◌, ◌*ℤ◌, ◌/ℤ◌, ◌≤ℤ◌, to_int32, -ℤ_parts, abs, IsInt, to_int32_fits,
}
use operation_system.FixedPoint.{
  fp_f, fp_from_int, fp_to_int_trunc, fp_sub, fp_add_int, fp_mul_int, fp_div, fp_div_int,
}
use operation_system.Kernel.{Kernel, pri_max}
use operation_system.Sched.{is_idle, thread_current}
use operation_system.Mlfqs.{clamp_priority, mlfqs_priority, decay, load_avg_calc_mlfqs}

-- Division by the two divisors of the formula keeps the order.
quarter-mono : (a b : ℤ) → a ≤ℤ b → a /ℤ pos 4 ≤ℤ b /ℤ pos 4
unfolding ◌/ℤ◌
quarter-mono (pos a) (pos b) h = omega arith
quarter-mono (pos a) (negsuc b) h = absurd (omega arith)
quarter-mono (negsuc a) (pos b) h = ground arith
quarter-mono (negsuc a) (negsuc b) h = ground arith

trunc-mono : (a b : ℤ) → a ≤ℤ b → fp_to_int_trunc a ≤ℤ fp_to_int_trunc b
unfolding ◌/ℤ◌ fp_to_int_trunc
trunc-mono (pos a) (pos b) h = omega arith
trunc-mono (pos a) (negsuc b) h = absurd (omega arith)
trunc-mono (negsuc a) (pos b) h = ground arith
trunc-mono (negsuc a) (negsuc b) h = ground arith

sub-antitone : (c a b : ℤ) → a ≤ℤ b → c -ℤ b ≤ℤ c -ℤ a
sub-antitone c a b h = omega (arith, -ℤ_parts c a, -ℤ_parts c b)

sub-mono : (a b c d : ℤ) → a ≤ℤ b → c ≤ℤ d → a -ℤ d ≤ℤ b -ℤ c
sub-mono a b c d h g = omega (arith, -ℤ_parts a d, -ℤ_parts b c)

-- The nice value in fixed point, twice.
abbrev cost : ℤ → ℤ
cost n = n *ℤ pos (2 * fp_f)

cost-mono : (m n : ℤ) → m ≤ℤ n → cost m ≤ℤ cost n
unfolding ◌*ℤ◌
cost-mono (pos m) (pos n) h = ground arith
cost-mono (pos m) (negsuc n) h = absurd (omega arith)
cost-mono (negsuc m) (pos n) h = ground arith
cost-mono (negsuc m) (negsuc n) h = ground arith

clamp-le : (a : ℤ) → clamp_priority a ≤ pri_max
clamp-le (pos a) = ground arith
clamp-le (negsuc a) = omega arith

clamp_mono : (a b : ℤ) → a ≤ℤ b → clamp_priority a ≤ clamp_priority b
clamp_mono (pos a) (pos b) h = ground arith
clamp_mono (pos a) (negsuc b) h = absurd (omega arith)
clamp_mono (negsuc a) b h = omega arith

abbrev less_cpu : ℤ → ℤ
less_cpu r = pos (pri_max * fp_f) -ℤ r /ℤ pos 4

abbrev raw : ℤ → ℤ → ℤ
raw r m = less_cpu r -ℤ cost m

-- The nice values for which no step of the priority's formula overflows.
abbrev pub max_nice : ℕ
max_nice = 49_120

cost_lem : (m : ℤ) → abs m ≤ max_nice → fp_from_int (to_int32 (m *ℤ pos 2)) ≡ cost m
unfolding fp_from_int to_int32 ◌*ℤ◌
cost_lem (pos m) h = ground arith
cost_lem (negsuc m) h = ground arith

cost-le : (m : ℤ) → abs m ≤ max_nice → abs (cost m) ≤ max_nice * 2 * fp_f
unfolding ◌*ℤ◌
cost-le (pos m) h = ground arith
cost-le (negsuc m) h = ground arith

quarter-le : (r : ℤ) → IsInt r → abs (r /ℤ pos 4) ≤ 2 ^ 29
unfolding ◌/ℤ◌
quarter-le (pos r) h = ground arith
quarter-le (negsuc r) h = ground arith

sub_fits : (a b : ℤ) → abs a + abs b < 2 ^ 31 → to_int32 (a -ℤ b) ≡ a -ℤ b
unfolding ◌-ℤ◌
sub_fits a b h = to_int32_fits (a -ℤ b) (ground arith)

sub-le : (a b : ℤ) → abs (a -ℤ b) ≤ abs a + abs b
unfolding ◌-ℤ◌
sub-le a b = ground arith

top_lem : fp_from_int (pos pri_max) ≡ pos (pri_max * fp_f)
unfolding fp_from_int to_int32 ◌*ℤ◌
top_lem = refl

-- Without an overflow the priority is the clamped formula on integers.
exact_lem :
    (r m : ℤ)
    → IsInt r
    → abs m ≤ max_nice
    → mlfqs_priority r m ≡ clamp_priority (fp_to_int_trunc (raw r m))
unfolding mlfqs_priority fp_sub fp_div_int
exact_lem r m i h =
    let less : to_int32 (pos (pri_max * fp_f) -ℤ r /ℤ pos 4) ≡ less_cpu r =
      sub_fits (pos (pri_max * fp_f)) (r /ℤ pos 4) (omega (arith, quarter-le r i)) in
    let all : to_int32 (less_cpu r -ℤ cost m) ≡ raw r m =
      sub_fits (less_cpu r) (cost m)
        (omega (arith, quarter-le r i, cost-le m h, sub-le (pos (pri_max * fp_f)) (r /ℤ pos 4))) in
    rw (top_lem, cost_lem m h, less, all) refl

-- For values of recent_cpu in the range of `int` and nice values from -49,120 to 49,120, where
-- nothing overflows, a thread's priority never goes up with its recent_cpu or its nice value, and is
-- at most PRI_MAX.
pub mlfqs_priority-antitone :
    (r s m n : ℤ)
    → IsInt r
    → IsInt s
    → abs m ≤ max_nice
    → abs n ≤ max_nice
    → r ≤ℤ s
    → m ≤ℤ n
    → (mlfqs_priority s n ≤ mlfqs_priority r m) × (mlfqs_priority r m ≤ pri_max)
mlfqs_priority-antitone r s m n ir is im in_n h g =
    rw (exact_lem r m ir im, exact_lem s n is in_n)
      (
        clamp_mono (fp_to_int_trunc (raw s n)) (fp_to_int_trunc (raw r m)) (
            trunc-mono (raw s n) (raw r m) (
              sub-mono (less_cpu s) (less_cpu r) (cost m) (cost n)
                (sub-antitone (pos (pri_max * fp_f)) (r /ℤ pos 4) (s /ℤ pos 4) (quarter-mono r s h))
                (cost-mono m n g))),
        clamp-le (fp_to_int_trunc (raw r m)),
      )

twice-pos : (a : ℕ) → a * 2 < 2 ^ 31 → fp_mul_int (pos a) (pos 2) ≡ pos (a * 2)
unfolding fp_mul_int ◌*ℤ◌ to_int32
twice-pos a h = ground arith

plus_one-pos : (b : ℕ) → b + fp_f < 2 ^ 31 → fp_add_int (pos b) (pos 1) ≡ pos (b + fp_f)
unfolding fp_add_int ◌+ℤ◌ ◌*ℤ◌ to_int32
plus_one-pos b h = ground arith

fp_div-pos : (b c q : ℕ) → b * fp_f / c ≡ q → q < fp_f → fp_div (pos b) (pos c) ≡ pos q
unfolding fp_div ◌/ℤ◌ ◌*ℤ◌ to_int32
fp_div-pos b c q e h = ground arith

share-lt : (b : ℕ) → b * fp_f / (b + fp_f) < fp_f
share-lt b = grind arith

-- The decay factor of recent_cpu is at least 0 and below 1, for every load average from 0 on whose
-- double and one more fit an `int`.
pub decay-lt-one : (a : ℕ) → a * 2 + fp_f < 2 ^ 31 → (d : ℕ) × (decay (pos a) ≡ pos d) × (d < fp_f)
unfolding decay
decay-lt-one a h = (
  a * 2 * fp_f / (a * 2 + fp_f),
  rw (twice-pos a (omega arith), plus_one-pos (a * 2) h)
      (fp_div-pos (a * 2) _ _ refl (share-lt (a * 2))),
  share-lt (a * 2),
)

load-pos :
    (a n : ℕ)
    → a * 59 + n * fp_f < 2 ^ 31
    → fp_div_int (fp_add_int (fp_mul_int (pos a) (pos 59)) (pos n)) (pos 60)
      ≡ pos ((a * 59 + n * fp_f) / 60)
unfolding fp_div_int fp_add_int fp_mul_int ◌+ℤ◌ ◌*ℤ◌ ◌/ℤ◌ to_int32
load-pos a n h = ground arith

-- The threads on the ready list, and the running one unless it is the idle thread.
abbrev pub ready_threads : Kernel → ℕ
ready_threads k = if is_idle k k.current then length k.ready_list else length k.ready_list + 1

-- load_avg_calc_mlfqs where thread_current()'s assertions hold, for a number n of at most 2184: if
-- the load average is from 0 to n and at most n threads are ready or running, the idle thread not
-- counted, then nothing overflows, the new load average is 59/60 of the old one and 1/60 of the
-- number of those threads, rounded down, it is again from 0 to n, and nothing else changes.
pub load_avg_calc_mlfqs-bound :
    (n a : ℕ) (k : Kernel)
    → n ≤ 2184
    → thread_current k ≡ some k.current
    → k.load_avg ≡ pos a
    → a ≤ n * fp_f
    → ready_threads k ≤ n
    → (b : ℕ) × (load_avg_calc_mlfqs k ≡ some (record k { load_avg = pos b }))
      × (b ≡ (59 * a + ready_threads k * fp_f) / 60)
      × (b ≤ n * fp_f)
unfolding load_avg_calc_mlfqs
load_avg_calc_mlfqs-bound n a k z c e h r = (
  (a * 59 + ready_threads k * fp_f) / 60,
  ground (arith, load-pos a (length k.ready_list), load-pos a (length k.ready_list + 1)),
  omega arith,
  omega arith,
)
