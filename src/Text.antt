-- ===== src/Text.antt =====
-- pintos/src/lib/string.c: memory is a function from the address to the byte. A string is the sequence
-- of its characters before the null byte; a pointer into it is the number of the characters before.
-- Characters are unsigned, and a character argument has been converted already. The assertions that
-- pointers are not null are left out; a block function is the memory that it leaves.
pub mod Memory
pub mod Search
pub mod Token
mod Tests
use operation_system.Base.{
  ℕ, zero, suc, ◌+◌, ◌-◌, Bool, true, false, not, ◌&&◌, Option, none, some, List, [], ◌∷◌, map, leb,
  ltb, ◌==◌, if◌then◌else◌, update,
}
use operation_system.Base.Int.{ℤ, pos, negsuc}

-- The loops upwards and downwards, on the bytes that are left.
unfoldable pub copy_up : (size dst src : ℕ) → (ℕ → ℕ) → ℕ → ℕ
copy_up zero dst src mem = mem
copy_up (suc size) dst src mem = copy_up size (dst + 1) (src + 1) (update mem dst (mem src))

unfoldable pub copy_down : (size dst src : ℕ) → (ℕ → ℕ) → ℕ → ℕ
copy_down zero dst src mem = mem
copy_down (suc size) dst src mem =
    copy_down size dst src (update mem (dst + size) (mem (src + size)))

unfoldable pub memcpy : (dst src size : ℕ) → (ℕ → ℕ) → ℕ → ℕ
unfolding copy_up
memcpy dst src size mem = copy_up size dst src mem

unfoldable pub memmove : (dst src size : ℕ) → (ℕ → ℕ) → ℕ → ℕ
unfolding copy_up copy_down
memmove dst src size mem =
    if ltb dst src then copy_up size dst src mem else copy_down size dst src mem

-- The pointer that memmove() returns: the forward loop has moved it on.
abbrev pub memmove_result : (dst src size : ℕ) → ℕ
memmove_result dst src size = if ltb dst src then dst + size else dst

unfoldable pub memset : (dst value size : ℕ) → (ℕ → ℕ) → ℕ → ℕ
memset dst value zero mem = mem
memset dst value (suc size) mem = memset (dst + 1) value size (update mem dst value)

unfoldable pub memcmp : (a b size : ℕ) → (ℕ → ℕ) → ℤ
memcmp a b zero mem = pos 0
memcmp a b (suc size) mem =
    if not (mem a == mem b)
    then (if ltb (mem b) (mem a) then pos 1 else negsuc 0)
    else memcmp (a + 1) (b + 1) size mem

-- The address of the byte.
unfoldable pub memchr : (block ch size : ℕ) → (ℕ → ℕ) → Option ℕ
memchr block ch zero mem = none
memchr block ch (suc size) mem =
    if mem block == ch then some block else memchr (block + 1) ch size mem

-- The byte of a string, its null byte too, at a position.
abbrev pub char_at : List ℕ → ℕ → ℕ
char_at [] i = 0
char_at (c ∷ s) zero = c
char_at (c ∷ s) (suc i) = char_at s i

unfoldable pub strlen : List ℕ → ℕ
strlen [] = 0
strlen (c ∷ s) = suc (strlen s)

-- `maxlen` counts what is left.
unfoldable pub strnlen : List ℕ → ℕ → ℕ
strnlen [] maxlen = 0
strnlen (c ∷ s) zero = 0
strnlen (c ∷ s) (suc maxlen) = suc (strnlen s maxlen)

-- `*a < *b ? -1 : *a > *b`
abbrev pub compare_char : ℕ → ℕ → ℤ
compare_char a b = if ltb a b then negsuc 0 else if ltb b a then pos 1 else pos 0

-- The second string lies in memory at address `b`.
unfoldable pub strcmp : List ℕ → (b : ℕ) → (ℕ → ℕ) → ℤ
strcmp [] b mem = compare_char 0 (mem b)
strcmp (c ∷ s) b mem = if c == mem b then strcmp s (b + 1) mem else compare_char c (mem b)

-- A position that a later character found, one further.
abbrev pub next_position : Option ℕ → Option ℕ
next_position none = none
next_position (some i) = some (suc i)

unfoldable pub strchr : List ℕ → (c : ℕ) → Option ℕ
strchr [] c = if 0 == c then some 0 else none
strchr (x ∷ s) c = if x == c then some 0 else next_position (strchr s c)

-- strchr() does not return a null pointer.
abbrev pub is_in : ℕ → List ℕ → Bool
is_in c s = elim (strchr s c) [ none ↦ false | some i ↦ true ]

unfoldable pub strcspn : List ℕ → (stop : List ℕ) → ℕ
unfolding strchr
strcspn [] stop = 0
strcspn (c ∷ s) stop = if is_in c stop then 0 else suc (strcspn s stop)

unfoldable pub strpbrk : List ℕ → (stop : List ℕ) → Option ℕ
unfolding strchr
strpbrk [] stop = none
strpbrk (c ∷ s) stop = if is_in c stop then some 0 else next_position (strpbrk s stop)

-- The loop of strrchr at position `i`, with the last one found.
unfoldable pub last_from : List ℕ → (c i : ℕ) → Option ℕ → Option ℕ
last_from [] c i p = p
last_from (x ∷ s) c i p = last_from s c (i + 1) (if x == c then some i else p)

unfoldable pub strrchr : List ℕ → (c : ℕ) → Option ℕ
unfolding last_from
strrchr s c = last_from s c 0 none

unfoldable pub strspn : List ℕ → (skip : List ℕ) → ℕ
unfolding strchr
strspn [] skip = 0
strspn (c ∷ s) skip = if not (is_in c skip) then 0 else suc (strspn s skip)

-- memcmp() of so many characters of a string, from a position on, and those of another is 0.
unfoldable pub has_prefix : List ℕ → List ℕ → Bool
has_prefix s [] = true
has_prefix [] (c ∷ needle) = c == 0 && has_prefix [] needle
has_prefix (x ∷ s) (c ∷ needle) = x == c && has_prefix s needle

-- The string from a position on.
abbrev pub string_from : ℕ → List ℕ → List ℕ
string_from zero s = s
string_from (suc i) [] = []
string_from (suc i) (c ∷ s) = string_from i s

-- The loop of strstr, `n` positions from `i` on.
unfoldable pub find_from : (n i : ℕ) (haystack needle : List ℕ) → Option ℕ
unfolding has_prefix
find_from zero i haystack needle = none
find_from (suc n) i haystack needle =
    if has_prefix (string_from i haystack) needle
    then some i
    else find_from n (i + 1) haystack needle

unfoldable pub strstr : (haystack needle : List ℕ) → Option ℕ
unfolding strlen find_from
strstr haystack needle =
    if leb (strlen needle) (strlen haystack)
    then find_from (strlen haystack - strlen needle + 1) 0 haystack needle
    else none

unfoldable pub skip_delimiters : List ℕ → (delimiters : List ℕ) → List ℕ
unfolding strchr
skip_delimiters [] delimiters = []
skip_delimiters (c ∷ s) delimiters =
    if is_in c delimiters then skip_delimiters s delimiters else c ∷ s

-- The characters up to the next delimiter, and the string after that one.
unfoldable pub take_token : List ℕ → (delimiters : List ℕ) → List ℕ × List ℕ
unfolding strchr
take_token [] delimiters = ([], [])
take_token (c ∷ s) delimiters =
    let rest = take_token s delimiters in
    if is_in c delimiters then ([], s) else (c ∷ rest.0, rest.1)

-- `s` is the string, or the one that was saved; the result is the token and the string to save.
unfoldable pub strtok_r : List ℕ → (delimiters : List ℕ) → Option (List ℕ) × List ℕ
unfolding skip_delimiters take_token
strtok_r s delimiters = elim (skip_delimiters s delimiters) [
  | [] ↦ (none, [])
  | c ∷ rest ↦ (some (take_token (c ∷ rest) delimiters).0, (take_token (c ∷ rest) delimiters).1)
]

-- memcpy() from a string to memory.
unfoldable pub write_string : List ℕ → (n dst : ℕ) → (ℕ → ℕ) → ℕ → ℕ
write_string s zero dst mem = mem
write_string [] (suc n) dst mem = write_string [] n (dst + 1) (update mem dst 0)
write_string (c ∷ s) (suc n) dst mem = write_string s n (dst + 1) (update mem dst c)

-- The length of the string and the memory.
unfoldable pub strlcpy : (dst : ℕ) (src : List ℕ) (size : ℕ) → (ℕ → ℕ) → ℕ × (ℕ → ℕ)
unfolding strlen write_string
strlcpy dst src size mem =
    let src_len = strlen src in
    let dst_len = if ltb src_len (size - 1) then src_len else size - 1 in
    (
      src_len,
      if ltb 0 size then update (write_string src dst_len dst mem) (dst + dst_len) 0 else mem,
    )

-- The string that is at `dst` already is given as well.
unfoldable pub strlcat : (dst : ℕ) (old : List ℕ) (src : List ℕ) (size : ℕ) → (ℕ → ℕ) → ℕ × (ℕ → ℕ)
unfolding strlen write_string
strlcat dst old src size mem =
    let src_len = strlen src in
    let dst_len = strlen old in
    let left = size - dst_len - 1 in
    let copy_cnt = if ltb src_len left then src_len else left in
    (
      src_len + dst_len,
      if ltb 0 size && ltb dst_len size
          then update (write_string src copy_cnt (dst + dst_len) mem) (dst + dst_len + copy_cnt) 0
          else mem,
    )
