-- ===== src/Sched/Switch.antt =====
-- The context switch restores the invariant.
use operation_system.Base.{
  ℕ, ◌≤◌, ◌≡◌, refl, ◌≢◌, true, false, List, [], ◌∷◌, arith, has, count, has-count,
}
use operation_system.Kernel.{Kernel, ready, thread_magic}
use operation_system.Sched.Invariant.{IsValid, IsHandover, front_or, rest, switched}

has-rest : (t : ℕ) (l : List ℕ) → has t (rest l) ≡ true → has t l ≡ true
has-rest t [] h = h
has-rest t (x ∷ l) h = ground arith

has-rest_ne :
    (idle t : ℕ) (l : List ℕ) → has t l ≡ true → t ≢ front_or idle l → has t (rest l) ≡ true
has-rest_ne idle t [] h n = h
has-rest_ne idle t (x ∷ l) h n = ground arith

count-rest : (t : ℕ) (l : List ℕ) → count t (rest l) ≤ count t l
count-rest t [] = omega arith
count-rest t (x ∷ l) = omega arith

not-has-rest_front :
    (idle : ℕ) (l : List ℕ)
    → count (front_or idle l) l ≤ 1
    → has idle l ≡ false
    → has (front_or idle l) (rest l) ≡ false
not-has-rest_front idle [] c h = h
not-has-rest_front idle (x ∷ l) c h = ground (arith, has-count x l)

module _ {idle : ℕ} {k : Kernel} (h : IsHandover idle k) where
  abbrev next : ℕ
  next = front_or idle k.ready_list

  front_magic : (l : List ℕ) → k.ready_list ≡ l → (k.threads (front_or idle l)).magic ≡ thread_magic
  front_magic [] e = h.idle_magic
  front_magic (t ∷ ts) e = ground (arith, h.magic t)

  switched-queued :
      (t : ℕ) → has t (rest k.ready_list) ≡ true → ((switched next k).threads t).status ≡ ready
  switched-queued t p = ground (
    arith,
    h.queued t (has-rest t k.ready_list p),
    not-has-rest_front idle k.ready_list (h.once next) h.idle_off,
  )

  switched-magic :
      (t : ℕ)
      → has t (rest k.ready_list) ≡ true
      → ((switched next k).threads t).magic ≡ thread_magic
  switched-magic t p = ground (arith, h.magic t (has-rest t k.ready_list p))

  switched_complete :
      (t : ℕ)
      → ((switched next k).threads t).status ≡ ready
      → t ≢ idle
      → has t (rest k.ready_list) ≡ true
  switched_complete t p n = ground (arith, h.complete t, has-rest_ne idle t k.ready_list)

  pub switched-IsValid : IsValid idle (switched next k)
  switched-IsValid = record {
    run_queue = record {
      idle_thread = h.idle_thread;
      idle_magic = ground (arith, h.idle_magic);
      idle_off = ground (arith, h.idle_off, has-rest idle k.ready_list);
      queued = switched-queued;
      magic = switched-magic;
      once = λ t. omega (arith, h.once t, count-rest t k.ready_list);
      complete = switched_complete;
    };
    cur_magic = ground (arith, front_magic k.ready_list refl);
    cur_running = ground arith;
    only_running = λ t p. ground (arith, h.none_running t);
  }
