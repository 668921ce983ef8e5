-- ===== src/Semaphore/Tests.antt =====
-- Semaphores at a concrete state: threads 4 and 5 wait, and 4 is above 5.
use operation_system.Base.{
  ℕ, ◌+◌, ◌%◌, ◌^◌, ◌≡◌, refl, ◌≤◌, ◌<◌, true, some, List, [], ◌∷◌, ◌++◌, All, has,
}
use operation_system.Kernel.{Kernel, ready, prio}
use operation_system.Semaphore.{sema_post}
use operation_system.Semaphore.Wake.{sema_post-wakes_highest}
use operation_system.Sched.Sample.{sample_off}

abbrev waited : Kernel
waited = record sample_off { semas = λ s. record { value = 0; waiters = 5 ∷ 4 ∷ [] } }

sema_post-wakes_highest_example :
    (k' : Kernel) × (t : ℕ) × (front back : List ℕ) × (sema_post 100 waited ≡ some k')
    × (5 ∷ 4 ∷ [] ≡ front ++ (t ∷ back))
    × All (λ u. prio waited u < prio waited t) front
    × All (λ u. prio waited u ≤ prio waited t) back
    × ((k'.threads t).status ≡ ready)
    × (has t k'.ready_list ≡ true)
    × ((k'.semas 100).waiters ≡ front ++ back)
    × ((k'.semas 100).value ≡ (0 + 1) % 2 ^ 32)
sema_post-wakes_highest_example =
    sema_post-wakes_highest 100 5 (4 ∷ []) waited refl ((refl, refl), ((refl, refl), tt))
      (λ e. refl)
