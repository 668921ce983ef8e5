-- ===== src/Intq/Queue.antt =====
-- A valid interrupt queue behaves as a FIFO of at most 63 bytes.
use operation_system.Base.{
  ℕ, zero, suc, ◌+◌, ◌-◌, ◌%◌, ◌≤◌, ◌<◌, ◌≡◌, refl, false, none, some, List, [], ◌∷◌, ◌++◌, arith,
  ◌==◌, update, length, ap, ap₂, ◌∙◌,
}
use operation_system.Kernel.{Kernel, intr_off}
use operation_system.Intq.{
  Intq, intq_bufsize, next, is_empty, is_full, wake_waiter, intq_getc_ready, intq_putc_ready,
}

-- Both positions lie in the buffer.
pub record IsValid (q : Intq) : Type 0 where
  pub head_in : q.head < intq_bufsize
  pub tail_in : q.tail < intq_bufsize

-- How many bytes are held.
abbrev pub held : Intq → ℕ
held q = (q.head + intq_bufsize - q.tail) % intq_bufsize

-- The `n` bytes from position `i` on, round the buffer.
abbrev pub bytes : (ℕ → ℕ) → ℕ → ℕ → List ℕ
bytes buf i zero = []
bytes buf i (suc n) = buf i ∷ bytes buf ((i + 1) % intq_bufsize) n

-- The bytes held, oldest first.
abbrev pub contents : Intq → List ℕ
contents q = bytes q.buf q.tail (held q)

bytes-update :
    (buf : ℕ → ℕ) (h b i n : ℕ)
    → i < intq_bufsize
    → h < intq_bufsize
    → n ≤ (h + intq_bufsize - i) % intq_bufsize
    → bytes (update buf h b) i n ≡ bytes buf i n
bytes-update buf h b i zero hi hh hn = refl
bytes-update buf h b i (suc n) hi hh hn =
    ap₂ ◌∷◌ (ground arith)
      (bytes-update buf h b ((i + 1) % intq_bufsize) n (omega arith) hh (omega arith))

bytes-snoc :
    (buf : ℕ → ℕ) (h b i n : ℕ)
    → i < intq_bufsize
    → h < intq_bufsize
    → n ≡ (h + intq_bufsize - i) % intq_bufsize
    → n < 63
    → bytes (update buf h b) i (suc n) ≡ bytes buf i n ++ (b ∷ [])
bytes-snoc buf h b i zero hi hh e s = ap (λ x. x ∷ []) (ground arith)
bytes-snoc buf h b i (suc n) hi hh e s =
    ap₂ ◌∷◌ (ground arith)
      (bytes-snoc buf h b ((i + 1) % intq_bufsize) n (omega arith) hh (omega arith) (omega arith))

bytes-split :
    (buf : ℕ → ℕ) (i n : ℕ)
    → 0 < n
    → bytes buf i n ≡ buf i ∷ bytes buf ((i + 1) % intq_bufsize) (n - 1)
bytes-split buf i zero h = absurd (omega arith)
bytes-split buf i (suc n) h = ap (λ m. buf i ∷ bytes buf ((i + 1) % intq_bufsize) m) (omega arith)

length-bytes : (buf : ℕ → ℕ) (i n : ℕ) → length (bytes buf i n) ≡ n
length-bytes buf i zero = refl
length-bytes buf i (suc n) = ap suc (length-bytes buf ((i + 1) % intq_bufsize) n)

-- The tests of the code are those of a queue of at most 63 bytes: empty exactly when nothing is
-- held, full exactly when 63 bytes are, and never more.
pub contents-bounds :
    {q : Intq}
    → IsValid q
    → (is_empty q ≡ (length (contents q) == 0))
      × (is_full q ≡ (length (contents q) == 63))
      × (length (contents q) ≤ 63)
unfolding next
contents-bounds {q} v =
    rw (length-bytes q.buf q.tail (held q)) (ground arith, ground arith, omega arith)

-- With interrupts off, on a valid queue that is not full and whose waiter, if any, can be woken,
-- intq_putc() fails no assertion, adds the byte at the end of the contents, keeps the queue valid
-- and leaves nobody waiting for it to fill.
pub intq_putc-appends :
    {q : Intq} (byte : ℕ) (k : Kernel) {k1 : Kernel}
    → IsValid q
    → k.intr_level ≡ intr_off
    → is_full q ≡ false
    → wake_waiter q.not_empty k ≡ some k1
    → (q' : Intq) × (intq_putc_ready q byte k ≡ some (q', k1))
      × IsValid q'
      × (contents q' ≡ contents q ++ (byte ∷ []))
      × (q'.not_empty ≡ none)
unfolding intq_putc_ready next
intq_putc-appends {q} byte k {k1} v off full w = (
  record q { buf = update q.buf q.head byte; head = next q.head; not_empty = none },
  ground arith,
  omega (arith, v.tail_in),
  ap (bytes (update q.buf q.head byte) q.tail) grown
      ∙ bytes-snoc q.buf q.head byte q.tail (held q) v.tail_in v.head_in refl (ground arith),
  refl,
)
  where
    grown : ((q.head + 1) % intq_bufsize + intq_bufsize - q.tail) % intq_bufsize ≡ suc (held q)
    grown = ground arith

-- With interrupts off, on a valid queue that is not empty and whose waiter, if any, can be woken,
-- intq_getc() fails no assertion, returns the oldest byte, leaves the others in order, keeps the
-- queue valid and leaves nobody waiting for room.
pub intq_getc-oldest :
    {q : Intq} (k : Kernel) {k1 : Kernel}
    → IsValid q
    → k.intr_level ≡ intr_off
    → is_empty q ≡ false
    → wake_waiter q.not_full k ≡ some k1
    → (byte : ℕ) × (q' : Intq) × (intq_getc_ready q k ≡ some (byte, q', k1))
      × IsValid q'
      × (contents q ≡ byte ∷ contents q')
      × (q'.not_full ≡ none)
unfolding intq_getc_ready next
intq_getc-oldest {q} k {k1} v off e w = (
  q.buf q.tail,
  record q { tail = next q.tail; not_full = none },
  ground arith,
  omega (arith, v.head_in),
  bytes-split q.buf q.tail (held q) (ground arith)
      ∙ ap (λ n. q.buf q.tail ∷ bytes q.buf ((q.tail + 1) % intq_bufsize) n) shrunk,
  refl,
)
  where
    shrunk : held q - 1 ≡ (q.head + intq_bufsize - (q.tail + 1) % intq_bufsize) % intq_bufsize
    shrunk = ground arith
