-- ===== src/Intq/Tests.antt =====
-- A queue that holds three bytes round the end of the buffer.
use operation_system.Base.{◌+◌, ℕ, ◌≡◌, refl, false, none, some, [], ◌∷◌, ◌++◌, arith}
use operation_system.Intq.{Intq, next, is_full, wake_waiter, intq_getc_ready, intq_putc_ready}
use operation_system.Intq.Queue.{IsValid, contents, intq_putc-appends, intq_getc-oldest}
use operation_system.Sched.Sample.{sample_off}

abbrev three : Intq
three = record {
  lock = 100;
  not_full = none;
  not_empty = none;
  buf = λ i. i + 7;
  head = 1;
  tail = 62;
}

three-IsValid : IsValid three
three-IsValid = record { head_in = omega arith; tail_in = omega arith }

nobody : wake_waiter none sample_off ≡ some sample_off
unfolding wake_waiter
nobody = refl

three_not_full : is_full three ≡ false
unfolding next
three_not_full = refl

intq_putc-appends_example :
    (q' : Intq) × (intq_putc_ready three 65 sample_off ≡ some (q', sample_off))
    × IsValid q'
    × (contents q' ≡ contents three ++ (65 ∷ []))
    × (q'.not_empty ≡ none)
intq_putc-appends_example = intq_putc-appends 65 sample_off three-IsValid refl three_not_full nobody

intq_getc-oldest_example :
    (byte : ℕ) × (q' : Intq) × (intq_getc_ready three sample_off ≡ some (byte, q', sample_off))
    × IsValid q'
    × (contents three ≡ byte ∷ contents q')
    × (q'.not_full ≡ none)
intq_getc-oldest_example = intq_getc-oldest sample_off three-IsValid refl refl nobody
