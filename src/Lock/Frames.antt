-- ===== src/Lock/Frames.antt =====
-- What the parts of the lock operations do to the lock's value and holder.
use operation_system.Base.{
  [], ◌∷◌, ◌++◌, ℕ, ◌+◌, ◌%◌, ◌^◌, ◌<◌, ◌≡◌, true, Option, none, some, arith, Option-cases, inl,
  inr, ap, update, >>=-eq-some, erase,
}
use operation_system.Kernel.{blocked, set_status, IntrLevel, Kernel, intr_off}
use operation_system.KernelList.{list_min}
use operation_system.Interrupt.{intr_set_level}
use operation_system.Sched.{
  thread_current, next_thread_to_run, thread_schedule_tail, schedule, thread_block, thread_unblock,
}
use operation_system.Donation.{donate_priority_update}
use operation_system.Donation.Release.{drop_donations-frame}
use operation_system.Semaphore.{
  finished, asleep, sema_down_round, sema_try_down, wake_one, sema_post, set_sema,
  thread_priority_greater,
}
use operation_system.Lock.{lock_take, end_donations, lock_clear}

-- The semaphores and the holders are as before.
pub record Same (k k' : Kernel) : Type 0 where
  pub semas : k'.semas ≡ k.semas
  pub holder : k'.holder ≡ k.holder

next-Same : (k : Kernel) (r : ℕ × Kernel) → next_thread_to_run k ≡ some r → Same k r.1
unfolding next_thread_to_run
next-Same k r e = ground arith

tail-Same : (prev : Option ℕ) (k k' : Kernel) → thread_schedule_tail prev k ≡ some k' → Same k k'
unfolding thread_schedule_tail
tail-Same prev k k' e = ground arith

schedule-Same : (k k' : Kernel) → schedule k ≡ some k' → Same k k'
unfolding schedule
schedule-Same k k' e = ground arith

block-Same : (k k' : Kernel) → thread_block k ≡ some k' → Same k k'
unfolding thread_block
block-Same k k' e = ground (arith, schedule-Same (set_status k.current blocked k) k')

set_level-Same : (k k' : Kernel) (i : IntrLevel) → intr_set_level i k ≡ some k' → Same k k'
unfolding intr_set_level
set_level-Same k k' i e = ground arith

unblock-Same : (t : ℕ) (k k' : Kernel) → thread_unblock t k ≡ some k' → Same k k'
unfolding thread_unblock intr_set_level
unblock-Same t k k' e = ground arith

-- The lock's value changes by the operation, and the holder stays.
module _ (l : ℕ) (k k' : Kernel) where
  pub down-finished :
      sema_down_round l k ≡ some (finished k')
      → (0 < (k.semas l).value)
        × ((k.semas l).value ≡ (k'.semas l).value + 1)
        × (k'.holder ≡ k.holder)
        × (k'.current ≡ k.current)
  unfolding sema_down_round
  down-finished e = (ground arith, ground arith, ground arith, ground arith)

  pub down-asleep :
      sema_down_round l k ≡ some (asleep k')
      → ((k.semas l).value ≡ 0) × ((k'.semas l).value ≡ 0) × (k'.holder ≡ k.holder)
  unfolding sema_down_round thread_current
  down-asleep e = ground (
    arith,
    block-Same
        (set_sema l (record (k.semas l) { waiters = (k.semas l).waiters ++ (k.current ∷ []) }) k)
        k',
  )

  pub try_down-took :
      sema_try_down l k ≡ some (true, k')
      → ((k.semas l).value ≡ (k'.semas l).value + 1)
        × (k'.holder ≡ k.holder)
        × (k'.current ≡ k.current)
  unfolding sema_try_down intr_set_level
  try_down-took e = (ground arith, ground arith, ground arith)

  pub take-holder :
      lock_take l k ≡ some k'
      → (k.holder l ≡ none)
        × (k'.holder ≡ update k.holder l (some k.current))
        × (k'.semas ≡ k.semas)
  unfolding lock_take thread_current
  take-holder e = (ground arith, ground arith, ground arith)

  wake-Same :
      wake_one l k ≡ some k' → ((k'.semas l).value ≡ (k.semas l).value) × (k'.holder ≡ k.holder)
  unfolding wake_one
  wake-Same e = elim (Option-cases (list_min (thread_priority_greater k) (k.semas l).waiters)) [
    | inl q ↦ ground arith
    | inr (t, q) ↦ ground (
      arith,
      unblock-Same t (set_sema l (record (k.semas l) { waiters = erase t (k.semas l).waiters }) k)
          k',
    )
  ]

module _ (l : ℕ) (k k' : Kernel) where
  pub post-value :
      sema_post l k ≡ some k'
      → ((k'.semas l).value ≡ ((k.semas l).value + 1) % 2 ^ 32) × (k'.holder ≡ k.holder)
  unfolding sema_post
  post-value e =
      let (k1, q, r) =
        >>=-eq-some (wake_one l k)
          (λ k1.
            some
              (set_sema l (record (k1.semas l) { value = ((k1.semas l).value + 1) % 2 ^ 32 }) k1))
          e in
      let (v, h) = wake-Same l k k1 q in (ground arith, ground arith)

pub end_donations-Same : (l cur : ℕ) (k : Kernel) → Same k (end_donations l cur k)
unfolding end_donations donate_priority_update
end_donations-Same l cur k =
    ground (arith, drop_donations-frame l (k.threads cur).donate_priority cur k)

pub clear-holder :
    (l : ℕ) (k k' : Kernel)
    → lock_clear l k ≡ some k'
    → (k.holder l ≡ some k.current) × (k'.holder ≡ update k.holder l none) × (k'.semas ≡ k.semas)
unfolding lock_clear thread_current intr_set_level
clear-holder l k k' e = (
  ground arith,
  ground (arith, ap (λ h. update h l none) same.holder),
  ground (arith, same.semas),
)
  where
    same :
        Same
          (record k { intr_level = intr_off })
          (end_donations l k.current (record k { intr_level = intr_off }))
    same = end_donations-Same l k.current (record k { intr_level = intr_off })
