-- ===== src/FileSystem/Directory/Find.antt =====
-- dir_add changes one free entry, which lookup then finds.
use operation_system.Base.{
  ==→eq, ltb→le, ltb→lt, ℕ, ◌+◌, ◌*◌, ◌/◌, ◌^◌, ◌≤◌, ◌<◌, ◌≡◌, refl, ◌≢◌, Bool, true, false, ◌||◌,
  Option, none, some, List, arith, ltb, ◌==◌, ap, sym, subst, ◌∙◌, Bool-cases, inl, inr,
}
use operation_system.Block.{block_foreign}
use operation_system.Inode.Read.{OnDevice}
use operation_system.Text.{strlen}
use operation_system.FileSystem.{FileSystem, write_inode}
use operation_system.FileSystem.InodeTable.{bytes_word}
use operation_system.FileSystem.Directory.{
  Dir, dir_add, entry_rounds, entry_size, free_from, in_use, is_named, lookup, name_max, new_entry,
}
use operation_system.FileSystem.Directory.Add.{
  entry-is_named, entry-sector, free_from_lem, write_entry,
}
use operation_system.FileSystem.Directory.Lookup.{
  Looked, OnDevice-same, SameDisk, entry_byte, entry_byte_same, entry_cnt, entry_cnt_same,
  is_named_ext, lookup-Looked,
}

module _ (dir : Dir) (name : List ℕ) (sector : ℕ) (e : ℕ → ℕ) (fs fs1 : FileSystem)
    (size : ((strlen name == 0) || ltb name_max (strlen name)) ≡ false) where
  dir_add-exists :
      (entry : (ℕ → ℕ) × ℕ)
      → lookup true dir name e fs ≡ some (some entry, fs1)
      → dir_add true dir name sector e fs ≡ some (false, fs1)
  unfolding dir_add
  dir_add-exists entry l = rw (size, l) refl

  dir_add-writes :
      (e2 : ℕ → ℕ) (ofs n : ℕ) (fs2 fs3 : FileSystem)
      → lookup true dir name e fs ≡ some (none, fs1)
      → free_from (entry_rounds dir.inode fs1) true dir.inode e 0 fs1 ≡ some (e2, ofs, fs2)
      → write_inode true dir.inode (new_entry name sector e2) entry_size ofs fs2 ≡ some (n, fs3)
      → dir_add true dir name sector e fs ≡ some (n == entry_size, fs3)
  unfolding dir_add
  dir_add-writes e2 ofs n fs2 fs3 l f w = rw (size, l, f, w) refl

-- What dir_add() leaves. On success an entry that was free is in use with the name and leads to the
-- sector, the name was in no entry before, and the other entries are as before; else all are.
abbrev pub Added : (fs fs' : FileSystem) (inode : ℕ) (name : List ℕ) (sector : ℕ) → Bool → Type 0
Added fs fs' inode name sector true =
    (k : ℕ) × (k < entry_cnt fs inode)
    × (in_use (entry_byte fs inode k) ≡ false)
    × (is_named name (entry_byte fs' inode k) ≡ true)
    × (bytes_word (entry_byte fs' inode k) 0 ≡ sector)
    × ((i : ℕ) → i < entry_cnt fs inode → is_named name (entry_byte fs inode i) ≡ false)
    × ((i j : ℕ)
        → i < entry_cnt fs inode
        → (i == k) ≡ false
        → j < entry_size
        → entry_byte fs' inode i j ≡ entry_byte fs inode i j)
Added fs fs' inode name sector false =
    (i j : ℕ)
    → i < entry_cnt fs inode
    → j < entry_size
    → entry_byte fs' inode i j ≡ entry_byte fs inode i j

word_eq :
    (e e' : ℕ → ℕ) → ((j : ℕ) → j < entry_size → e j ≡ e' j) → bytes_word e 0 ≡ bytes_word e' 0
word_eq e e' h =
    omega (arith, h 0 (omega arith), h 1 (omega arith), h 2 (omega arith), h 3 (omega arith))

module _ (fs fs2 fs3 : FileSystem) (inode : ℕ) (name : List ℕ) (sector k : ℕ) (e2 : ℕ → ℕ)
    (s : SameDisk fs fs2) where
  old_entry : (i j : ℕ) → entry_byte fs2 inode i j ≡ entry_byte fs inode i j
  old_entry i j = ap (λ g. g j) (entry_byte_same fs fs2 s inode i)

  abbrev OthersKept : Type 0
  OthersKept =
      (i j : ℕ)
      → i < entry_cnt fs2 inode
      → (i == k) ≡ false
      → j < entry_size
      → entry_byte fs3 inode i j ≡ entry_byte fs2 inode i j

  write-Added :
      (ok : Bool)
      → ok ≡ ltb k (entry_cnt fs2 inode)
      → strlen name ≤ name_max
      → sector < 2 ^ 32
      → Looked fs inode name none
      → (k < entry_cnt fs inode → in_use (entry_byte fs inode k) ≡ false)
      → (k < entry_cnt fs2 inode
          → (j : ℕ) → j < entry_size
          → entry_byte fs3 inode k j ≡ new_entry name sector e2 j)
      → OthersKept
      → Added fs fs3 inode name sector ok
  write-Added true h short small y f w r =
      let inside2 : k < entry_cnt fs2 inode = ltb→lt k (entry_cnt fs2 inode) (sym h) in
      let inside : k < entry_cnt fs inode =
        subst (λ c. k < c) (entry_cnt_same fs fs2 s inode) inside2 in
      (
        k,
        inside,
        f inside,
        is_named_ext name (entry_byte fs3 inode k) (new_entry name sector e2) short (w inside2)
            ∙ entry-is_named name sector e2 short,
        word_eq (entry_byte fs3 inode k) (new_entry name sector e2) (w inside2)
            ∙ entry-sector name sector e2 short small,
        y,
        λ i j u d v.
            r i j (subst (λ c. i < c) (sym (entry_cnt_same fs fs2 s inode)) u) d v ∙ old_entry i j,
      )
  write-Added false h short small y f w r = λ i j u v.
      let u2 = subst (λ c. i < c) (sym (entry_cnt_same fs fs2 s inode)) u in
      r i j u2 (ground (arith, ltb→le k (entry_cnt fs2 inode) (sym h))) v ∙ old_entry i j

-- With memory for the bounce buffer, for a directory whose sectors lie on a device that is not foreign
-- and whose inode may be written, a name of 1 to 14 characters and a sector number of 32 bits, dir_add()
-- ends; on success an entry that was free has the name and the sector, the name was in no entry, and
-- every other entry is as before; on failure all entries are. The inodes in memory and the size of the
-- device are as before.
pub dir_add-Added :
    (dir : Dir) (name : List ℕ) (sector : ℕ) (e : ℕ → ℕ) (fs : FileSystem)
    → 0 < strlen name
    → strlen name ≤ name_max
    → sector < 2 ^ 32
    → OnDevice (fs.inodes dir.inode) fs.device
    → fs.device.type ≢ block_foreign
    → (fs.inodes dir.inode).deny_write_cnt ≡ 0
    → (ok : Bool) × (fs' : FileSystem) × (dir_add true dir name sector e fs ≡ some (ok, fs'))
      × Added fs fs' dir.inode name sector ok
      × (fs'.inodes ≡ fs.inodes)
      × (fs'.device.size ≡ fs.device.size)
dir_add-Added dir name sector e fs nonempty short small o t z =
    let (found, fs1, l, y, s) = lookup-Looked dir name e fs short o in go found fs1 l y s
  where
    size : ((strlen name == 0) || ltb name_max (strlen name)) ≡ false
    size = ground arith

    go :
        (found : Option ((ℕ → ℕ) × ℕ)) (fs1 : FileSystem)
        → lookup true dir name e fs ≡ some (found, fs1)
        → Looked fs dir.inode name found
        → SameDisk fs fs1
        → (ok : Bool) × (fs' : FileSystem) × (dir_add true dir name sector e fs ≡ some (ok, fs'))
          × Added fs fs' dir.inode name sector ok
          × (fs'.inodes ≡ fs.inodes)
          × (fs'.device.size ≡ fs.device.size)
    go (some entry) fs1 l y s = (
      false,
      fs1,
      dir_add-exists dir name sector e fs fs1 size entry l,
      λ i j h u. ap (λ g. g j) (entry_byte_same fs fs1 s dir.inode i),
      s.inodes,
      s.size,
    )
    go none fs1 l y s =
        let (k, e2, fs2, q, a, b, s2) =
          free_from_lem fs dir.inode (entry_rounds dir.inode fs1) 0 e fs1 o s (omega arith)
            (omega (arith, entry_cnt_same fs fs1 s dir.inode)) in
        let (n, fs3, w, c, written, kept, same_inodes, same_size) =
          write_entry fs2 dir.inode k (new_entry name sector e2)
            (OnDevice-same fs fs2 s2 dir.inode o) (subst (λ y. y ≢ block_foreign) (sym s2.type) t)
            (ap (λ f. (f dir.inode).deny_write_cnt) s2.inodes ∙ z) in
        (
          n == entry_size,
          fs3,
          dir_add-writes dir name sector e fs fs1 size e2 (k * entry_size) n fs2 fs3 l q w,
          write-Added fs fs2 fs3 dir.inode name sector k e2 s2 (n == entry_size) c short small y b
              written kept,
          same_inodes ∙ s2.inodes,
          same_size ∙ s2.size,
        )

-- An entry that was added is what a lookup gives.
found_lem :
    (fs fs' : FileSystem) (inode : ℕ) (name : List ℕ) (sector : ℕ) (entry : ℕ → ℕ) (ofs : ℕ)
    → strlen name ≤ name_max
    → fs'.inodes ≡ fs.inodes
    → Added fs fs' inode name sector true
    → Looked fs' inode name (some (entry, ofs))
    → bytes_word entry 0 ≡ sector
found_lem fs fs' inode name sector entry ofs short same (k, inside, free, named, leads, fresh, kept)
      (j, at, within, match, bytes, first) =
    elim (Bool-cases (j == k)) [
      | inl h ↦
          word_eq entry (entry_byte fs' inode j) bytes
          ∙ (ap (λ i. bytes_word (entry_byte fs' inode i) 0) (==→eq j k h) ∙ leads)
      | inr h ↦
          let old : j < entry_cnt fs inode =
            subst (λ f. j < (f inode).disk.length / entry_size) same within in
          let clash =
            is_named_ext name (entry_byte fs' inode j) (entry_byte fs inode j) short
              (λ i u. kept j i old h u) in
          absurd (ground (arith, match, clash, fresh j old))
    ]

find_lem :
    (dir : Dir) (name : List ℕ) (sector : ℕ) (into : ℕ → ℕ) (fs fs' : FileSystem) (ok : Bool)
    → strlen name ≤ name_max
    → OnDevice (fs'.inodes dir.inode) fs'.device
    → fs'.inodes ≡ fs.inodes
    → Added fs fs' dir.inode name sector ok
    → ok ≡ true
    → (entry : ℕ → ℕ) × (ofs : ℕ) × (fs'' : FileSystem) × (lookup true dir name into fs'
        ≡ some (some (entry, ofs), fs''))
      × (bytes_word entry 0 ≡ sector)
find_lem dir name sector into fs fs' false short o same a h = absurd (ground arith)
find_lem dir name sector into fs fs' true short o same a h =
    let (found, fs'', q, l, s) = lookup-Looked dir name into fs' short o in go found fs'' q l
  where
    go :
        (found : Option ((ℕ → ℕ) × ℕ)) (fs'' : FileSystem)
        → lookup true dir name into fs' ≡ some (found, fs'')
        → Looked fs' dir.inode name found
        → (entry : ℕ → ℕ) × (ofs : ℕ) × (fs'' : FileSystem) × (lookup true dir name into fs'
            ≡ some (some (entry, ofs), fs''))
          × (bytes_word entry 0 ≡ sector)
    go none fs'' q l =
        let (k, inside, free, named, leads, fresh, kept) = a in
        let within : k < entry_cnt fs' dir.inode =
          subst (λ f. k < (f dir.inode).disk.length / entry_size) (sym same) inside in
        absurd (ground (arith, l k within, named))
    go (some (entry, ofs)) fs'' q l =
        (entry, ofs, fs'', q, found_lem fs fs' dir.inode name sector entry ofs short same a l)

-- With memory for the bounce buffer, for a directory whose sectors lie on a device that is not foreign
-- and whose inode may be written, a name of 1 to 14 characters and a sector number of 32 bits, dir_add()
-- ends, and where it succeeds lookup() then finds an entry of the name that leads to the sector.
pub lookup-dir_add :
    (dir : Dir) (name : List ℕ) (sector : ℕ) (e into : ℕ → ℕ) (fs : FileSystem)
    → 0 < strlen name
    → strlen name ≤ name_max
    → sector < 2 ^ 32
    → OnDevice (fs.inodes dir.inode) fs.device
    → fs.device.type ≢ block_foreign
    → (fs.inodes dir.inode).deny_write_cnt ≡ 0
    → (ok : Bool) × (fs' : FileSystem) × (dir_add true dir name sector e fs ≡ some (ok, fs'))
      × (ok ≡ true
          → (entry : ℕ → ℕ) × (ofs : ℕ) × (fs'' : FileSystem) × (lookup true dir name into fs'
              ≡ some (some (entry, ofs), fs''))
            × (bytes_word entry 0 ≡ sector))
lookup-dir_add dir name sector e into fs nonempty short small o t z =
    let (ok, fs', q, a, i, d) = dir_add-Added dir name sector e fs nonempty short small o t z in
    (
      ok,
      fs',
      q,
      find_lem dir name sector into fs fs' ok short
          (subst (λ f. OnDevice (f dir.inode) fs'.device) (sym i)
            (λ p h. subst (λ m. (fs.inodes dir.inode).disk.start + p / 512 < m) (sym d) (o p h)))
          i a,
    )
