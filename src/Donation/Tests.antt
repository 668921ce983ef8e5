-- ===== src/Donation/Tests.antt =====
-- Donation at concrete states: thread 3 has the donors 1 and 4.
use operation_system.Base.{
  ◌<◌, true, has, ℕ, ◌≡◌, refl, ◌≢◌, ◌≤◌, ◌⊎◌, inl, inr, none, some, List, [], ◌∷◌, arith, ◌==◌,
  if◌then◌else◌,
}
use operation_system.Kernel.{Kernel, DonateElem, prio}
use operation_system.Donation.{donate_priority_update, donate_chain}
use operation_system.Donation.Inversion.{next_thread_to_run-donate_priority_update}
use operation_system.Sched.{next_thread_to_run}
use operation_system.Donation.Update.{here, Donor, donate_priority_update-max}
use operation_system.Donation.Chain.{WaitsFor, donate_chain-circular}
use operation_system.Sched.Sample.{sample, sample_thread}

abbrev donors : List DonateElem
donors = (record { lock = 100; donor = 4 }) ∷ (record { lock = 200; donor = 1 }) ∷ []

abbrev donated : Kernel
donated = record sample {
  threads = λ t.
      if t == 3
      then record (sample_thread 3) { donate_priority = donors }
      else if t == 4
      then record (sample_thread 4) { waiting_lock = some 100 }
      else sample_thread t;
}

donate_priority_update-max_example :
    let k' = donate_priority_update 3 donated in
    (20 ≤ prio k' 3)
    × ((u : ℕ) → Donor u donors → prio donated u ≤ prio k' 3)
    × ((prio k' 3 ≡ 20) ⊎ ((u : ℕ) × Donor u donors × (prio k' 3 ≡ prio donated u)))
    × ((u : ℕ) → u ≢ 3 → prio k' u ≡ prio donated u)
donate_priority_update-max_example = donate_priority_update-max 3 donated

-- Thread 3 holds lock 3 and waits for lock 4, thread 4 the other way round.
abbrev circular : Kernel
circular = record sample {
  threads = λ t. record (sample_thread t) { waiting_lock = some (if t == 3 then 4 else 3) };
  holder = λ l. some l;
}

abbrev InCircle : ℕ → Type 0
InCircle u = (u ≡ 3) ⊎ (u ≡ 4)

circle : (u : ℕ) → InCircle u → (h : ℕ) × WaitsFor circular u h × InCircle h
circle u (inl e) = (4, (4, ground arith, refl), inr refl)
circle u (inr e) = (3, (3, ground arith, refl), inl refl)

donate_chain-circular_example : donate_chain 1000 (some 3) circular ≡ none
donate_chain-circular_example = donate_chain-circular InCircle 1000 3 circular circle (inl refl)

next_thread_to_run-donate_priority_update_example :
    let k' = donate_priority_update 3 donated in
    (j : Kernel) × (next_thread_to_run k' ≡ some (2, j))
    × (has 3 j.ready_list ≡ true)
    × (prio k' 2 < prio k' 3)
next_thread_to_run-donate_priority_update_example =
    next_thread_to_run-donate_priority_update 3 4 2 (3 ∷ []) donated refl refl (λ e. cc) (here refl)
      (omega arith)
