-- ===== src/Donation.antt =====
-- pintos/src/threads/synch.c and thread.c: priority donation. Each lock that a thread waits for
-- puts an entry on the holder's list, and the priorities along the chain of holders are renewed.
pub mod Update
pub mod Chain
pub mod Release
pub mod Inversion
mod Tests
use operation_system.Base.{
  ℕ, zero, suc, Bool, true, false, not, Option, none, some, List, [], ◌∷◌, ltb, ◌==◌, if◌then◌else◌,
  assert, ◌>>=◌, ◌>>◌,
}
use operation_system.Kernel.{Kernel, Thread, DonateElem, prio, set_thread}
use operation_system.KernelList.{insert_ordered}
use operation_system.Interrupt.{intr_disable, intr_set_level}
use operation_system.Sched.{thread_current, thread_yield}

-- The loop of donate_priority_update.
unfoldable pub donation_max : Kernel → ℕ → List DonateElem → ℕ
donation_max k new_priority [] = new_priority
donation_max k new_priority (d ∷ ds) =
    donation_max k (if ltb new_priority (prio k d.donor) then prio k d.donor else new_priority) ds

unfoldable pub donate_priority_update : ℕ → Kernel → Kernel
unfolding donation_max
donate_priority_update t k =
    set_thread t
      (record (k.threads t) {
        priority = donation_max k (k.threads t).base_priority (k.threads t).donate_priority;
      })
      k

-- priority_greater of synch.c: donors in descending order of priority.
unfoldable pub donor_greater : Kernel → DonateElem → DonateElem → Bool
donor_greater k a b = ltb (prio k b.donor) (prio k a.donor)

-- The while loop of lock_acquire along waiting_lock and holder, from the thread `t`; `none` if it
-- has not ended after `fuel` rounds.
unfoldable pub donate_chain : ℕ → Option ℕ → Kernel → Option Kernel
donate_chain zero t k = none
donate_chain (suc fuel) none k = some k
donate_chain (suc fuel) (some t) k =
    let k1 = donate_priority_update t k in
    elim (k1.threads t).waiting_lock [
      | none ↦ some k1
      | some l ↦ donate_chain fuel (k1.holder l) k1
    ]

-- The current thread's entry on the list of the thread that holds `lock`.
unfoldable pub donate : ℕ → ℕ → ℕ → Kernel → Kernel
unfolding donor_greater
donate lock cur owner k =
    let k1 = set_thread cur (record (k.threads cur) { waiting_lock = some lock }) k in
    let th = k1.threads owner in
    set_thread owner
      (record th {
        donate_priority =
            insert_ordered (donor_greater k1) (record { lock = lock; donor = cur })
              th.donate_priority;
      })
      k1

-- `if (de->donor->waiting_lock == lock) de->donor->waiting_lock = NULL`.
unfoldable pub clear_waiting : ℕ → ℕ → Kernel → Kernel
clear_waiting lock donor k = elim (k.threads donor).waiting_lock [
  | none ↦ k
  | some l ↦
      if l == lock then set_thread donor (record (k.threads donor) { waiting_lock = none }) k else k
]

-- The loop of lock_release: the entries that stay, and the state with the donors for `lock` no
-- longer waiting.
unfoldable pub drop_donations : ℕ → List DonateElem → Kernel → List DonateElem × Kernel
drop_donations lock [] k = ([], k)
drop_donations lock (d ∷ ds) k =
    let kept =
      drop_donations lock ds (if d.lock == lock then clear_waiting lock d.donor k else k) in
    (if d.lock == lock then kept.0 else d ∷ kept.0, kept.1)

-- thread_set_priority, up to the switch if it yields.
unfoldable pub thread_set_priority : ℕ → Kernel → Option Kernel
unfolding donate_priority_update intr_disable intr_set_level
thread_set_priority new_priority k =
    let changed : Option Kernel = (do
      let (old_level, k1) = intr_disable k
      cur ← thread_current k1
      let k2 =
          donate_priority_update cur
            (set_thread cur (record (k1.threads cur) { base_priority = new_priority }) k1)
      elim k2.ready_list [
        | [] ↦ intr_set_level old_level k2
        | nextt ∷ _ ↦
            if ltb (prio k2 cur) (prio k2 nextt)
            then thread_yield k2
            else intr_set_level old_level k2
      ]) in
    if k.thread_mlfqs then some k else changed
