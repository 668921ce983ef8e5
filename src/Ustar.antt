-- ===== src/Ustar.antt =====
-- pintos/src/lib/ustar.c: headers of archives. A header is the function from the offset to its byte, 512
-- of them; a file name is the sequence of its characters. Messages to the console are left out.
mod Tests
use operation_system.Base.{
  ℕ, zero, suc, ◌+◌, ◌-◌, ◌*◌, ◌/◌, ◌%◌, ◌^◌, Bool, true, false, not, ◌&&◌, ◌||◌, Option, none,
  some, List, [], ◌∷◌, length, leb, ltb, ◌==◌, if◌then◌else◌, update,
}
use operation_system.Text.{has_prefix, memset, strlcpy, strlen}

abbrev pub ustar_header_size : ℕ
ustar_header_size = 512

-- `struct ustar_header`: where the members that are used stand.
abbrev pub mode_at : ℕ
mode_at = 100

abbrev pub uid_at : ℕ
uid_at = 108

abbrev pub gid_at : ℕ
gid_at = 116

abbrev pub size_at : ℕ
size_at = 124

abbrev pub mtime_at : ℕ
mtime_at = 136

abbrev pub chksum_at : ℕ
chksum_at = 148

abbrev pub typeflag_at : ℕ
typeflag_at = 156

abbrev pub magic_at : ℕ
magic_at = 257

abbrev pub version_at : ℕ
version_at = 263

abbrev pub uname_at : ℕ
uname_at = 265

abbrev pub gname_at : ℕ
gname_at = 297

abbrev pub prefix_at : ℕ
prefix_at = 345

-- `enum ustar_type` but for the end of an archive.
abbrev pub ustar_regular : ℕ
ustar_regular = 48

abbrev pub ustar_directory : ℕ
ustar_directory = 53

-- The sum of `n` bytes from offset `i` on, with the checksum's own field as spaces.
unfoldable pub sum_from : (n i : ℕ) → (ℕ → ℕ) → (chksum : ℕ) → ℕ
sum_from zero i header chksum = chksum
sum_from (suc n) i header chksum =
    sum_from n (i + 1) header
      ((chksum + (if leb chksum_at i && ltb i (chksum_at + 8) then 32 else header i)) % 2 ^ 32)

unfoldable pub calculate_chksum : (ℕ → ℕ) → ℕ
unfolding sum_from
calculate_chksum header = sum_from ustar_header_size 0 header 0

-- The name starts with "/", "./" or "../".
abbrev pub is_antisocial : List ℕ → Bool
is_antisocial s =
    has_prefix s (47 ∷ [])
    || (has_prefix s (46 ∷ (47 ∷ [])) || has_prefix s (46 ∷ (46 ∷ (47 ∷ []))))

-- `strchr (file_name, '/') + 1`, of a name with a '/'.
abbrev pub after_slash : List ℕ → List ℕ
after_slash [] = []
after_slash (c ∷ s) = if c == 47 then s else after_slash s

-- The loop of strip_antisocial_prefixes, which takes at least a character each time.
unfoldable pub strip_from : (fuel : ℕ) → List ℕ → List ℕ
unfolding has_prefix
strip_from zero s = s
strip_from (suc fuel) s = if is_antisocial s then strip_from fuel (after_slash s) else s

-- The name is empty or "..".
abbrev pub is_dots : List ℕ → Bool
is_dots [] = true
is_dots (a ∷ []) = false
is_dots (a ∷ (b ∷ [])) = (a == 46) && (b == 46)
is_dots (a ∷ (b ∷ (c ∷ s))) = false

unfoldable pub strip_antisocial_prefixes : List ℕ → List ℕ
unfolding strip_from
strip_antisocial_prefixes file_name =
    let stripped = strip_from (length file_name) file_name in
    if is_dots stripped then 46 ∷ [] else stripped

-- Digit `i` from the right of a number in octal, as a character.
abbrev pub octal_digit : (value i : ℕ) → ℕ
octal_digit value i = 48 + value / 8 ^ i % 8

-- What snprintf() with "%07o" or "%011o" writes for a number of so few digits: `n` digits from offset
-- `at` on and a null byte.
abbrev pub write_octal : (n at value : ℕ) → (ℕ → ℕ) → ℕ → ℕ
write_octal n at value h i =
    if leb at i && ltb i (at + n)
    then octal_digit value (at + n - 1 - i)
    else if i == at + n
    then 0
    else h i

abbrev pub write_text : (at : ℕ) (text : List ℕ) (size : ℕ) → (ℕ → ℕ) → ℕ → ℕ
write_text at text size h = (strlcpy at text size h).1

-- "0000000", "ustar" and "root"
abbrev pub zeros : List ℕ
zeros = 48 ∷ (48 ∷ (48 ∷ (48 ∷ (48 ∷ (48 ∷ (48 ∷ []))))))

abbrev pub ustar_magic : List ℕ
ustar_magic = 117 ∷ (115 ∷ (116 ∷ (97 ∷ (114 ∷ []))))

abbrev pub root_name : List ℕ
root_name = 114 ∷ (111 ∷ (111 ∷ (116 ∷ [])))

-- The header but for its checksum. The source writes `size` bytes of `mtime`, as many as it has.
unfoldable pub fill_header : (file_name : List ℕ) (type size : ℕ) → (ℕ → ℕ) → ℕ → ℕ
unfolding memset strlcpy
fill_header file_name type size header =
    let h0 = memset 0 0 ustar_header_size header in
    let h1 = write_text 0 file_name 100 h0 in
    let h2 = write_octal 7 mode_at (if type == ustar_regular then 420 else 493) h1 in
    let h3 = write_text gid_at zeros 8 (write_text uid_at zeros 8 h2) in
    let h4 = write_octal 11 mtime_at 1136102400 (write_octal 11 size_at size h3) in
    let h5 = write_text magic_at ustar_magic 6 (update h4 typeflag_at type) in
    let h6 = update (update h5 version_at 48) (version_at + 1) 48 in
    write_text uname_at root_name 32 (write_text gname_at root_name 32 h6)

-- The header, or `none` for the result false.
unfoldable pub ustar_make_header : (file_name : List ℕ) (type size : ℕ) → (ℕ → ℕ) → Option (ℕ → ℕ)
unfolding strip_antisocial_prefixes strlen fill_header calculate_chksum
ustar_make_header file_name type size header =
    let name = strip_antisocial_prefixes file_name in
    let h = fill_header name type size header in
    if ltb 99 (strlen name) then none else some (write_octal 7 chksum_at (calculate_chksum h) h)

-- The loop of parse_octal_field with `n` bytes left, at offset `ofs`; `none` is the result false.
unfoldable pub parse_octal_from : (n ofs : ℕ) (s : ℕ → ℕ) (value : ℕ) → Option ℕ
parse_octal_from zero ofs s value = none
parse_octal_from (suc n) ofs s value =
    let c = s ofs in
    let rest = parse_octal_from n (ofs + 1) s (c - 48 + value * 8) in
    if leb 48 c && leb c 55
    then (if ltb ((2 ^ 32 - 1) / 8) value then none else rest)
    else if (c == 32) || (c == 0)
    then (if ltb 0 ofs then some value else none)
    else none

unfoldable pub parse_octal_field : (s : ℕ → ℕ) (size : ℕ) → Option ℕ
unfolding parse_octal_from
parse_octal_field s size = parse_octal_from size 0 s 0

unfoldable pub is_all_zeros : (cnt at : ℕ) → (ℕ → ℕ) → Bool
is_all_zeros zero at block = true
is_all_zeros (suc cnt) at block = (block at == 0) && is_all_zeros cnt (at + 1) block

-- The messages, and the two kinds of success.
pub data Parsed : Type 0 where
  not_ustar bad_version bad_chksum chksum_mismatch : Parsed
  name_too_long unimplemented_type bad_size file_too_large : Parsed
  archive_end : Parsed
  member : (file_name : List ℕ) → (type size : ℕ) → Parsed

-- The characters from an offset to the null byte, of at most `n`.
abbrev pub text_at : (n at : ℕ) → (ℕ → ℕ) → List ℕ
text_at zero at h = []
text_at (suc n) at h = if h at == 0 then [] else h at ∷ text_at n (at + 1) h

-- memcmp() of the magic number and the 6 bytes of "ustar" is 0.
abbrev pub is_ustar : (ℕ → ℕ) → Bool
is_ustar h =
    (h 257 == 117)
    && ((h 258 == 115) && ((h 259 == 116) && ((h 260 == 97) && ((h 261 == 114) && (h 262 == 0)))))

abbrev pub parse_size : (ℕ → ℕ) → Parsed
parse_size h =
    let name = strip_antisocial_prefixes (text_at 100 0 h) in
    if h typeflag_at == ustar_regular
    then elim (parse_octal_field (λ i. h (size_at + i)) 12) [
      | none ↦ bad_size
      | some size ↦ if ltb (2 ^ 31 - 1) size then file_too_large else member name ustar_regular size
    ]
    else member name (h typeflag_at) 0

abbrev pub parse_checked : (ℕ → ℕ) → Parsed
parse_checked h =
    if not (h 99 == 0) || not (h prefix_at == 0)
    then name_too_long
    else if not (h typeflag_at == ustar_regular) && not (h typeflag_at == ustar_directory)
    then unimplemented_type
    else parse_size h

unfoldable pub ustar_parse_header : (ℕ → ℕ) → Parsed
unfolding is_all_zeros parse_octal_field calculate_chksum strip_antisocial_prefixes
ustar_parse_header h =
    let checked : Parsed = elim (parse_octal_field (λ i. h (chksum_at + i)) 8) [
      | none ↦ bad_chksum
      | some chksum ↦
          if not (chksum == calculate_chksum h) then chksum_mismatch else parse_checked h
    ] in
    if is_all_zeros ustar_header_size 0 h
    then archive_end
    else if not (is_ustar h)
    then not_ustar
    else if not (h version_at == 48) || not (h (version_at + 1) == 48)
    then bad_version
    else checked
