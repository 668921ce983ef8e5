-- ===== src/Condition/Tests.antt =====
-- Two threads have put their semaphores 10 and 11 on condition 300 and do not yet sleep on them.
use operation_system.Base.{◌≡◌, refl, inl, none, some, [], ◌∷◌}
use operation_system.Kernel.{Kernel}
use operation_system.Condition.{cond_signal}
use operation_system.Condition.Signal.{cond_signal-panics}
use operation_system.Sched.Sample.{sample}

abbrev waiting : Kernel
waiting = record sample { conds = λ c. 10 ∷ 11 ∷ []; holder = λ l. some 1 }

cond_signal-panics_example : cond_signal 300 100 waiting ≡ none
cond_signal-panics_example = cond_signal-panics 300 100 10 11 [] waiting refl (inl refl)
