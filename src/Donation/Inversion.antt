-- ===== src/Donation/Inversion.antt =====
-- A donation to a thread that is on the ready list.
use operation_system.Base.{ℕ, ◌<◌, ◌≡◌, refl, ◌≢◌, true, some, List, ◌∷◌, arith, has}
use operation_system.Kernel.{Kernel, prio}
use operation_system.Sched.{next_thread_to_run}
use operation_system.Donation.{donate_priority_update}
use operation_system.Donation.Update.{Donor, donate_priority_update-max}

ready_list-update : (t : ℕ) (k : Kernel) → (donate_priority_update t k).ready_list ≡ k.ready_list
unfolding donate_priority_update
ready_list-update t k = refl

front_lem :
    (u : ℕ) (us : List ℕ) (k : Kernel)
    → k.ready_list ≡ u ∷ us
    → next_thread_to_run k ≡ some (u, record k { ready_list = us })
unfolding next_thread_to_run
front_lem u us k e = ground arith

-- Where a ready thread behind the front of the ready list gets a donation above the priority of the
-- front, the next thread to run after donate_priority_update() is still the front, and the thread
-- that stays ready has a higher priority.
pub next_thread_to_run-donate_priority_update :
    (t d u : ℕ) (us : List ℕ) (k : Kernel)
    → k.ready_list ≡ u ∷ us
    → has t us ≡ true
    → u ≢ t
    → Donor d (k.threads t).donate_priority
    → prio k u < prio k d
    → let k' = donate_priority_update t k in
      (j : Kernel) × (next_thread_to_run k' ≡ some (u, j))
      × (has t j.ready_list ≡ true)
      × (prio k' u < prio k' t)
next_thread_to_run-donate_priority_update t d u us k e h n g lt =
    let (_, least, _, same) = donate_priority_update-max t k in
    (
      _,
      front_lem u us (donate_priority_update t k) (rw (ready_list-update t k) e),
      h,
      omega (arith, least d g, same u n),
    )
