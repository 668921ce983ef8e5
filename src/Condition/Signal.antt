-- ===== src/Condition/Signal.antt =====
-- cond_signal: the choice among the waiters, and where it fails.
use operation_system.Base.{◌⊎◌, ℕ, ◌≡◌, none, List, [], ◌∷◌, arith}
use operation_system.Kernel.{Kernel}
use operation_system.Condition.{cond_sema_priority_greater, cond_signal}

-- With two or more threads in cond_wait() cond_signal() fails an assertion if the first or the
-- second of them has put its semaphore on the list and not yet slept on it: the comparison asks for
-- the front of that semaphore's empty list of waiters.
pub cond_signal-panics :
    (c lock v w : ℕ) (ws : List ℕ) (k : Kernel)
    → k.conds c ≡ v ∷ w ∷ ws
    → ((k.semas v).waiters ≡ []) ⊎ ((k.semas w).waiters ≡ [])
    → cond_signal c lock k ≡ none
unfolding cond_signal cond_sema_priority_greater
cond_signal-panics c lock v w ws k e h = ground arith
