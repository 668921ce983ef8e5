-- ===== src/FileSystem/Directory/Add.antt =====
-- dir_add writes an entry that lookup finds.
use operation_system.Base.{
  ltb→lt, ◌⊎◌, ℕ, zero, suc, ◌+◌, ◌-◌, ◌*◌, ◌^◌, ◌≤◌, ◌<◌, ◌≡◌, refl, ◌≢◌, Bool, true, false, not,
  ◌&&◌, Option, some, List, arith, leb, ltb, ◌==◌, if◌then◌else◌, ap, sym, ◌∙◌, Bool-cases, inl,
  inr, update,
}
use operation_system.Block.{block_foreign}
use operation_system.Inode.{min_of}
use operation_system.Inode.Read.{OnDevice, available}
use operation_system.Inode.Write.{file_byte-HasWritten, inode_write_at-HasWritten}
use operation_system.Text.{char_at, strlen}
use operation_system.Text.Memory.{char_at-strlen, strcmp-Holds, strlcpy-bytes}
use operation_system.FileSystem.{read_inode, FileSystem, write_inode}
use operation_system.FileSystem.InodeTable.{bytes_word}
use operation_system.FileSystem.Directory.{
  entry_size, free_from, in_use, is_named, is_zero, name_max, name_offset, new_entry,
}
use operation_system.FileSystem.Directory.Lookup.{
  full_lem, OnDevice-same, SameDisk, SameDisk-trans, entry_byte, entry_byte_same, entry_cnt,
  entry_cnt_same, read_entry, whole_lem,
}

-- The new entry is in use, has the name, and leads to the sector.
module _ (name : List ℕ) (sector : ℕ) (e : ℕ → ℕ) (short : strlen name ≤ name_max) where
  pub entry-in_use : in_use (new_entry name sector e) ≡ true
  entry-in_use = ground (arith, (strlcpy-bytes 4 name 15 (update e 19 1) 19).1)

  name_byte : (i : ℕ) → i ≤ strlen name → new_entry name sector e (name_offset + i) ≡ char_at name i
  name_byte i l =
      ground (arith, (strlcpy-bytes 4 name 15 (update e 19 1) (4 + i)).1, place i, last i)
    where
      place : (i : ℕ) → char_at name (4 + i - 4) ≡ char_at name i
      place i = ap (char_at name) (omega arith)

      last : (i : ℕ) → i ≡ strlen name → char_at name i ≡ 0
      last i h = ap (char_at name) h ∙ char_at-strlen name

  pub entry-is_named : is_named name (new_entry name sector e) ≡ true
  entry-is_named = ground (
    arith,
    entry-in_use,
    ap is_zero ((strcmp-Holds name name_offset (new_entry name sector e)).1 name_byte),
  )

  pub entry-sector : sector < 2 ^ 32 → bytes_word (new_entry name sector e) 0 ≡ sector
  entry-sector h = omega arith

-- What the write of entry `k` comes to.
abbrev pub WriteEntry : FileSystem → (inode k : ℕ) (e : ℕ → ℕ) → Type 0
WriteEntry fs inode k e =
    (n : ℕ) × (fs1 : FileSystem) × (write_inode true inode e entry_size (k * entry_size) fs
      ≡ some (n, fs1))
    × ((n == entry_size) ≡ ltb k (entry_cnt fs inode))
    × (k < entry_cnt fs inode → (j : ℕ) → j < entry_size → entry_byte fs1 inode k j ≡ e j)
    × ((i j : ℕ)
        → i < entry_cnt fs inode
        → (i == k) ≡ false
        → j < entry_size
        → entry_byte fs1 inode i j ≡ entry_byte fs inode i j)
    × (fs1.inodes ≡ fs.inodes)
    × (fs1.device.size ≡ fs.device.size)

pick_in :
    {A : Type 0} (from n p : ℕ) (a b : A)
    → from ≤ p
    → p < from + n
    → (if leb from p && ltb p (from + n) then a else b) ≡ a
pick_in from n p a b l u = ground arith

pick_out :
    {A : Type 0} (from n p : ℕ) (a b : A)
    → (p < from) ⊎ (from + n ≤ p)
    → (if leb from p && ltb p (from + n) then a else b) ≡ b
pick_out from n p a b h = ground arith

pub write_entry :
    (fs : FileSystem) (inode k : ℕ) (e : ℕ → ℕ)
    → OnDevice (fs.inodes inode) fs.device
    → fs.device.type ≢ block_foreign
    → (fs.inodes inode).deny_write_cnt ≡ 0
    → WriteEntry fs inode k e
unfolding write_inode
write_entry fs inode k e o t z =
    let (dev, q, w) =
      inode_write_at-HasWritten (fs.inodes inode) e entry_size (k * entry_size) fs.device o t z in
    let n = available (fs.inodes inode) entry_size (k * entry_size) in
    let at = file_byte-HasWritten (fs.inodes inode) (k * entry_size) 0 n e fs.device dev w in
    (
      n,
      record fs { device = dev },
      rw q refl,
      whole_lem (fs.inodes inode).disk.length k,
      λ h j l.
          at (k * entry_size + j)
          ∙ (pick_in (k * entry_size) n (k * entry_size + j) _ _ (omega arith)
                (room j n l (full_lem (fs.inodes inode).disk.length k h))
              ∙ ap e (omega arith)),
      λ i j h d l.
          at (i * entry_size + j)
          ∙ pick_out (k * entry_size) n (i * entry_size + j) _ _
              (apart i j n (most (fs.inodes inode).disk.length) d l),
      refl,
      w.size,
    )
  where
    room : (j n : ℕ) → j < 20 → n ≡ 20 → k * 20 + j < k * 20 + n
    room j n l h = omega arith

    most : (len : ℕ) → min_of 20 (len - k * 20) ≤ 20
    most len = ground arith

    apart :
        (i j n : ℕ)
        → n ≤ 20
        → (i == k) ≡ false
        → j < 20
        → (i * 20 + j < k * 20) ⊎ (k * 20 + n ≤ i * 20 + j)
    apart i j n h d l = elim (Bool-cases (ltb i k)) [
      | inl e ↦ inl (omega (arith, ltb→lt i k e))
      | inr e ↦ let more : k < i = ground arith in inr (omega arith)
    ]

module _ (fuel inode : ℕ) (e e1 : ℕ → ℕ) (ofs n : ℕ) (fs fs1 : FileSystem)
    (q : read_inode true inode e entry_size ofs fs ≡ some (n, e1, fs1)) where
  free-here :
      ((n == entry_size) && in_use e1) ≡ false
      → free_from (suc fuel) true inode e ofs fs ≡ some (e1, ofs, fs1)
  unfolding free_from
  free-here w = rw (q, w) refl

  free-next :
      ((n == entry_size) && in_use e1) ≡ true
      → free_from (suc fuel) true inode e ofs fs
        ≡ free_from fuel true inode e1 (ofs + entry_size) fs1
  unfolding free_from
  free-next w = rw (q, w) refl

-- What the search for a free slot comes to: its number, which is free, or the number of the entries.
abbrev pub FreeOutcome : FileSystem → (inode : ℕ) → Option ((ℕ → ℕ) × ℕ × FileSystem) → Type 0
FreeOutcome fs0 inode r =
    (k : ℕ) × (e : ℕ → ℕ) × (fs' : FileSystem) × (r ≡ some (e, k * entry_size, fs'))
    × (k ≤ entry_cnt fs0 inode)
    × (k < entry_cnt fs0 inode → in_use (entry_byte fs0 inode k) ≡ false)
    × SameDisk fs0 fs'

in_use_eq : (e e' : ℕ → ℕ) → e 19 ≡ e' 19 → in_use e ≡ in_use e'
in_use_eq e e' h = ap (λ u. not (u == 0)) h

pub free_from_lem :
    (fs0 : FileSystem) (inode fuel k : ℕ) (e : ℕ → ℕ) (fs : FileSystem)
    → OnDevice (fs0.inodes inode) fs0.device
    → SameDisk fs0 fs
    → k ≤ entry_cnt fs0 inode
    → entry_cnt fs0 inode < k + fuel
    → FreeOutcome fs0 inode (free_from fuel true inode e (k * entry_size) fs)
free_from_lem fs0 inode zero k e fs o s l f = absurd (omega arith)
free_from_lem fs0 inode (suc fuel) k e fs o s l f =
    let (n, e1, fs1, q, w, same, t) = read_entry fs inode k e (OnDevice-same fs0 fs s inode o) in
    let count_same = ap (λ c. ltb k c) (entry_cnt_same fs0 fs s inode) in
    let bytes : ltb k (entry_cnt fs0 inode) ≡ true → in_use e1 ≡ in_use (entry_byte fs0 inode k) =
      λ h. in_use_eq e1 (entry_byte fs0 inode k) (
        same (count_same ∙ h) 19 (omega arith)
        ∙ ap (λ g. g 19) (entry_byte_same fs0 fs s inode k)) in
    let now = SameDisk-trans fs0 fs fs1 s t in
    elim (Bool-cases ((n == entry_size) && in_use e1)) [
      | inr h ↦ (
        k,
        e1,
        fs1,
        free-here fuel inode e e1 (k * entry_size) n fs fs1 q h,
        l,
        λ u.
            sym (bytes (lt→ltb k (entry_cnt fs0 inode) u))
            ∙ not_full (n == entry_size) (in_use e1) h
                (w ∙ (count_same ∙ lt→ltb k (entry_cnt fs0 inode) u)),
        now,
      )
      | inl h ↦
          let inside = sym count_same ∙ (sym w ∙ first_of (n == entry_size) (in_use e1) h) in
          let (k', e', fs', r, a, b, c) =
            free_from_lem fs0 inode fuel (k + 1) e1 fs1 o now
              (omega (arith, ltb→lt k (entry_cnt fs0 inode) inside)) (omega arith) in
          (
            k',
            e',
            fs',
            free-next fuel inode e e1 (k * entry_size) n fs fs1 q h
                ∙ (ap (λ p. free_from fuel true inode e1 p fs1) (omega arith) ∙ r),
            a,
            b,
            c,
          )
    ]
  where
    lt→ltb : (a b : ℕ) → a < b → ltb a b ≡ true
    lt→ltb a b h = ground arith

    not_full : (a b : Bool) → (a && b) ≡ false → a ≡ true → b ≡ false
    not_full a b h q = ground arith

    first_of : (a b : Bool) → (a && b) ≡ true → a ≡ true
    first_of a b h = ground arith
