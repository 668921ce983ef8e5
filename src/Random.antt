-- ===== src/Random.antt =====
-- pintos/src/lib/random.c: the pseudo-random bytes. The state is the static variables; bytes wrap.
use operation_system.Base.{
  ℕ, zero, suc, ◌+◌, ◌*◌, ◌/◌, ◌%◌, ◌^◌, Bool, true, if◌then◌else◌, List, [], ◌∷◌, update,
}

pub record Random : Type 0 where
  pub s : ℕ → ℕ
  pub s_i : ℕ
  pub s_j : ℕ
  pub inited : Bool

unfoldable pub swap_byte : (a b : ℕ) → (ℕ → ℕ) → ℕ → ℕ
swap_byte a b s = update (update s a (s b)) b (s a)

-- Byte `i % 4` of the seed.
abbrev pub seed_byte : (seed i : ℕ) → ℕ
seed_byte seed i = seed / 256 ^ (i % 4) % 256

-- The loop of random_init with `n` rounds left, at `i`.
unfoldable pub mix : (n i j seed : ℕ) → (ℕ → ℕ) → ℕ → ℕ
unfolding swap_byte
mix zero i j seed s = s
mix (suc n) i j seed s =
    let j1 = (j + (s i + seed_byte seed i)) % 256 in mix n (i + 1) j1 seed (swap_byte i j1 s)

unfoldable pub random_init : (seed : ℕ) → Random
unfolding mix
random_init seed = record { s = mix 256 0 0 seed (λ i. i); s_i = 0; s_j = 0; inited = true }

-- A round of the loop of random_bytes: the byte and the state.
unfoldable pub next_byte : Random → ℕ × Random
unfolding swap_byte
next_byte r =
    let i = (r.s_i + 1) % 256 in
    let j = (r.s_j + r.s i) % 256 in
    let s1 = swap_byte i j r.s in (s1 ((s1 i + s1 j) % 256), record r { s = s1; s_i = i; s_j = j })

unfoldable pub bytes_from : (size : ℕ) → Random → List ℕ × Random
unfolding next_byte
bytes_from zero r = ([], r)
bytes_from (suc size) r =
    let (b, r1) = next_byte r in let (bytes, r2) = bytes_from size r1 in (b ∷ bytes, r2)

unfoldable pub random_bytes : (size : ℕ) → Random → List ℕ × Random
unfolding random_init bytes_from
random_bytes size r = bytes_from size (if r.inited then r else random_init 0)

abbrev pub word_of : List ℕ → ℕ
word_of [] = 0
word_of (b ∷ bytes) = b + 256 * word_of bytes

unfoldable pub random_ulong : Random → ℕ × Random
unfolding random_bytes
random_ulong r = let (bytes, r1) = random_bytes 4 r in (word_of bytes, r1)
