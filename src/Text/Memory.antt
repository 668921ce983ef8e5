-- ===== src/Text/Memory.antt =====
-- Moving bytes, and copying strings into memory.
use operation_system.Base.{
  ==→eq, ltb→le, Bool-cases, ℕ, zero, suc, ◌+◌, ◌-◌, ◌≤◌, ◌<◌, ◌≡◌, refl, ◌&&◌, List, [], ◌∷◌,
  arith, leb, ltb, ◌==◌, if◌then◌else◌, update, ap, ◌∙◌, sym, ◌⊎◌, inl, inr, ◌↔◌, fun_ext,
}
use operation_system.Base.Int.{pos}
use operation_system.Text.{
  char_at, compare_char, copy_down, copy_up, memcpy, memmove, strcmp, strlcpy, strlen, write_string,
}

-- Memory with `size` bytes at `dst` from a given place, the others as they were.
abbrev pub moved : (dst src size : ℕ) → (ℕ → ℕ) → ℕ → ℕ
moved dst src size mem i = if leb dst i && ltb i (dst + size) then mem (src + (i - dst)) else mem i

copy_up_lem :
    (size dst src : ℕ) (mem : ℕ → ℕ) (i : ℕ)
    → (dst ≤ src) ⊎ (src + size ≤ dst)
    → copy_up size dst src mem i ≡ moved dst src size mem i
unfolding copy_up
copy_up_lem zero dst src mem i h = ground arith
copy_up_lem (suc n) dst src mem i h =
    copy_up_lem n (dst + 1) (src + 1) (update mem dst (mem src)) i (ground arith)
    ∙ ground (arith, shift n dst src mem i)
  where
    shift :
        (n dst src : ℕ) (mem : ℕ → ℕ) (i : ℕ)
        → dst < i
        → mem (src + 1 + (i - (dst + 1))) ≡ mem (src + (i - dst))
    shift n dst src mem i h = ap mem (omega arith)

copy_down_lem :
    (size dst src : ℕ) (mem : ℕ → ℕ) (i : ℕ)
    → src ≤ dst
    → copy_down size dst src mem i ≡ moved dst src size mem i
unfolding copy_down
copy_down_lem zero dst src mem i h = ground arith
copy_down_lem (suc n) dst src mem i h =
    copy_down_lem n dst src (update mem (dst + n) (mem (src + n))) i h
    ∙ ground (arith, shift n dst src mem i)
  where
    shift :
        (n dst src : ℕ) (mem : ℕ → ℕ) (i : ℕ) → dst + n ≡ i → mem (src + n) ≡ mem (src + (i - dst))
    shift n dst src mem i h = ap mem (omega arith)

-- After memmove() the bytes at `dst` are those that were at `src`, also where the two overlap, and all
-- others are as before.
pub memmove-moved :
    (dst src size : ℕ) (mem : ℕ → ℕ) (i : ℕ) → memmove dst src size mem i ≡ moved dst src size mem i
unfolding memmove
memmove-moved dst src size mem i = elim (Bool-cases (ltb dst src)) [
  | inl e ↦ rw e (copy_up_lem size dst src mem i (ground arith))
  | inr e ↦ rw e (copy_down_lem size dst src mem i (ltb→le dst src e))
]

-- Where the source does not lie before the destination and overlap it, memcpy() and memmove() leave
-- the same memory.
pub memcpy-memmove :
    (dst src size : ℕ) (mem : ℕ → ℕ)
    → (dst ≤ src) ⊎ (src + size ≤ dst)
    → memcpy dst src size mem ≡ memmove dst src size mem
unfolding memcpy
memcpy-memmove dst src size mem h =
    fun_ext (λ i. copy_up_lem size dst src mem i h ∙ sym (memmove-moved dst src size mem i))

-- memory holds the string and its null byte from address `b` on.
abbrev pub Holds : List ℕ → (b : ℕ) → (ℕ → ℕ) → Type 0
Holds s b mem = (i : ℕ) → i ≤ strlen s → mem (b + i) ≡ char_at s i

Holds-tail : (c : ℕ) (s : List ℕ) (b : ℕ) (mem : ℕ → ℕ) → Holds (c ∷ s) b mem → Holds s (b + 1) mem
unfolding strlen
Holds-tail c s b mem h = λ i l. ap mem (omega arith) ∙ h (suc i) (omega arith)

Holds-cons :
    (c : ℕ) (s : List ℕ) (b : ℕ) (mem : ℕ → ℕ)
    → c ≡ mem b
    → Holds s (b + 1) mem
    → Holds (c ∷ s) b mem
unfolding strlen
Holds-cons c s b mem e h zero l = ap mem (omega arith) ∙ sym e
Holds-cons c s b mem e h (suc i) l = ap mem (omega arith) ∙ h i (omega arith)

equal : (s : List ℕ) (b : ℕ) (mem : ℕ → ℕ) → strcmp s b mem ≡ pos 0 → Holds s b mem
unfolding strcmp strlen
equal [] b mem e = λ i l. ap mem (omega arith) ∙ zero_lem b mem e
  where
    zero_lem : (b : ℕ) (mem : ℕ → ℕ) → compare_char 0 (mem b) ≡ pos 0 → mem b ≡ 0
    zero_lem b mem h = ground arith
equal (c ∷ s) b mem e = elim (Bool-cases (c == mem b)) [
  | inl q ↦ Holds-cons c s b mem (==→eq c (mem b) q) (equal s (b + 1) mem (ground arith))
  | inr q ↦ absurd (ground arith)
]

start : (b : ℕ) (mem : ℕ → ℕ) {c : ℕ} → mem (b + 0) ≡ c → mem b ≡ c
start b mem e = ap mem (omega arith) ∙ e

-- strcmp() reads no further than the end of the first string.
pub strcmp_ext :
    (s : List ℕ) (b : ℕ) (mem mem' : ℕ → ℕ)
    → ((i : ℕ) → i ≤ strlen s → mem (b + i) ≡ mem' (b + i))
    → strcmp s b mem ≡ strcmp s b mem'
unfolding strcmp strlen
strcmp_ext [] b mem mem' h = rw (start b mem (h 0 (omega arith)), start b mem' refl) refl
strcmp_ext (c ∷ s) b mem mem' h = ground (
  arith,
  start b mem (h 0 (omega arith)),
  start b mem' refl,
  strcmp_ext s (b + 1) mem mem'
      (λ i l. ap mem (omega arith) ∙ (h (suc i) (omega arith) ∙ ap mem' (omega arith))),
)

same : (s : List ℕ) (b : ℕ) (mem : ℕ → ℕ) → Holds s b mem → strcmp s b mem ≡ pos 0
unfolding strcmp strlen
same [] b mem h = ground (arith, start b mem (h 0 (omega arith)))
same (c ∷ s) b mem h =
    ground (arith, start b mem (h 0 (omega arith)), same s (b + 1) mem (Holds-tail c s b mem h))

-- strcmp() returns 0 exactly if the other is the same string.
pub strcmp-Holds : (s : List ℕ) (b : ℕ) (mem : ℕ → ℕ) → (strcmp s b mem ≡ pos 0) ↔ Holds s b mem
unfolding strcmp strlen
strcmp-Holds s b mem = (equal s b mem, same s b mem)

-- How many characters strlcpy() copies.
abbrev copied : ℕ → ℕ → ℕ
copied src_len size = if ltb src_len (size - 1) then src_len else size - 1

char_at_eq : (s : List ℕ) (i j : ℕ) → i ≡ j → char_at s i ≡ char_at s j
char_at_eq s i j e = ap (char_at s) e

write_string_lem :
    (s : List ℕ) (n dst : ℕ) (mem : ℕ → ℕ) (i : ℕ)
    → write_string s n dst mem i
      ≡ (if leb dst i && ltb i (dst + n) then char_at s (i - dst) else mem i)
unfolding write_string
write_string_lem s zero dst mem i = ground arith
write_string_lem [] (suc n) dst mem i =
    write_string_lem [] n (dst + 1) (update mem dst 0) i ∙ ground arith
write_string_lem (c ∷ s) (suc n) dst mem i =
    write_string_lem s n (dst + 1) (update mem dst c) i ∙ ground (arith, first i, later i)
  where
    first : (i : ℕ) → dst ≡ i → char_at (c ∷ s) (i - dst) ≡ c
    first i h = char_at_eq (c ∷ s) (i - dst) 0 (omega arith)

    later : (i : ℕ) → dst < i → char_at (c ∷ s) (i - dst) ≡ char_at s (i - (dst + 1))
    later i h = char_at_eq (c ∷ s) (i - dst) (suc (i - (dst + 1))) (omega arith)

pub char_at-strlen : (s : List ℕ) → char_at s (strlen s) ≡ 0
unfolding strlen
char_at-strlen [] = refl
char_at-strlen (c ∷ s) = char_at-strlen s

-- strlcpy() returns the length of the string; of memory it writes just the bytes from `dst` on that
-- take as many characters as fit before a null byte in `size` bytes, and that null byte.
pub strlcpy-bytes :
    (dst : ℕ) (src : List ℕ) (size : ℕ) (mem : ℕ → ℕ) (i : ℕ)
    → ((strlcpy dst src size mem).0 ≡ strlen src)
      × ((strlcpy dst src size mem).1 i ≡ (
          if leb dst i && (leb i (dst + strlen src) && ltb i (dst + size))
          then (if i + 1 == dst + size then 0 else char_at src (i - dst))
          else mem i))
unfolding strlcpy
strlcpy-bytes dst src size mem i = (
  refl,
  ground (
    arith,
    write_string_lem src (copied (strlen src) size) dst mem i,
    char_at-strlen src,
    back i,
  ),
)
  where
    back : (i : ℕ) → dst + strlen src ≡ i → char_at src (i - dst) ≡ char_at src (strlen src)
    back i h = ap (char_at src) (omega arith)
