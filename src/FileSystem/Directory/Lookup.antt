-- ===== src/FileSystem/Directory/Lookup.antt =====
-- lookup finds the first entry of the name.
use operation_system.Base.{
  ap₂, ltb→le, ltb→lt, ℕ, zero, suc, ◌+◌, ◌-◌, ◌*◌, ◌/◌, ◌≤◌, ◌<◌, ◌≡◌, refl, true, false, not,
  ◌&&◌, Option, none, some, List, arith, leb, ltb, ◌==◌, if◌then◌else◌, ap, sym, subst, ◌∙◌,
  Bool-cases, inl, inr,
}
use operation_system.Inode.{min_of}
use operation_system.Inode.Read.{OnDevice, available, file_byte, inode_read_at-HasRead}
use operation_system.Text.{strlen}
use operation_system.FileSystem.{FileSystem, read_inode}
use operation_system.FileSystem.Directory.{
  Dir, entry_rounds, entry_size, name_max, is_named, is_zero, lookup, lookup_from, name_offset,
}
use operation_system.Text.Memory.{strcmp_ext}

-- Byte `j` of entry `k` of a directory.
abbrev pub entry_byte : FileSystem → (inode k : ℕ) → ℕ → ℕ
entry_byte fs inode k j = file_byte fs.device.sectors (fs.inodes inode) (k * entry_size + j)

-- How many whole entries a directory has.
abbrev pub entry_cnt : FileSystem → ℕ → ℕ
entry_cnt fs inode = (fs.inodes inode).disk.length / entry_size

-- Only the count of the reads differs.
pub record SameDisk (fs fs' : FileSystem) : Type 0 where
  pub inodes : fs'.inodes ≡ fs.inodes
  pub sectors : fs'.device.sectors ≡ fs.device.sectors
  pub size : fs'.device.size ≡ fs.device.size
  pub type : fs'.device.type ≡ fs.device.type

pub SameDisk-refl : (fs : FileSystem) → SameDisk fs fs
SameDisk-refl fs = record { inodes = refl; sectors = refl; size = refl; type = refl }

pub SameDisk-trans : (a b c : FileSystem) → SameDisk a b → SameDisk b c → SameDisk a c
SameDisk-trans a b c f g = record {
  inodes = g.inodes ∙ f.inodes;
  sectors = g.sectors ∙ f.sectors;
  size = g.size ∙ f.size;
  type = g.type ∙ f.type;
}

-- What the read of entry `k` comes to.
abbrev pub ReadEntry : FileSystem → (inode k : ℕ) (e : ℕ → ℕ) → Type 0
ReadEntry fs inode k e =
    (n : ℕ) × (e1 : ℕ → ℕ) × (fs1 : FileSystem) × (read_inode true inode e entry_size
        (k * entry_size) fs
      ≡ some (n, e1, fs1))
    × ((n == entry_size) ≡ ltb k (entry_cnt fs inode))
    × (ltb k (entry_cnt fs inode) ≡ true
        → (j : ℕ) → j < entry_size
        → e1 j ≡ entry_byte fs inode k j)
    × SameDisk fs fs1

pub full_lem : (len k : ℕ) → k < len / 20 → min_of 20 (len - k * 20) ≡ 20
full_lem len k h = ground (arith, room)
  where
    room : k * 20 + 20 ≤ len
    room = omega arith

short_lem : (len k : ℕ) → len / 20 ≤ k → min_of 20 (len - k * 20) < 20
short_lem len k h = ground (arith, room)
  where
    room : len < k * 20 + 20
    room = omega arith

pub whole_lem : (len k : ℕ) → (min_of 20 (len - k * 20) == 20) ≡ ltb k (len / 20)
whole_lem len k = elim (Bool-cases (ltb k (len / 20))) [
  | inl e ↦ rw e (rw (full_lem len k (ltb→lt k (len / 20) e)) refl)
  | inr e ↦ rw e (less_lem (min_of 20 (len - k * 20)) (short_lem len k (ltb→le k (len / 20) e)))
]
  where
    less_lem : (n : ℕ) → n < 20 → (n == 20) ≡ false
    less_lem n h = ground arith

pub read_entry :
    (fs : FileSystem) (inode k : ℕ) (e : ℕ → ℕ)
    → OnDevice (fs.inodes inode) fs.device
    → ReadEntry fs inode k e
unfolding read_inode
read_entry fs inode k e o =
    let (out, dev, q, r) =
      inode_read_at-HasRead (fs.inodes inode) e entry_size (k * entry_size) fs.device o in
    (
      available (fs.inodes inode) entry_size (k * entry_size),
      out,
      record fs { device = dev },
      rw q refl,
      whole_lem (fs.inodes inode).disk.length k,
      λ h j l.
          r.bytes j
          ∙ (inside_lem j (available (fs.inodes inode) entry_size (k * entry_size)) l
                (full_lem (fs.inodes inode).disk.length k (ltb→lt k (entry_cnt fs inode) h))
              ∙ ap (file_byte fs.device.sectors (fs.inodes inode)) (omega arith)),
      record { inodes = refl; sectors = r.sectors; size = r.size; type = r.type },
    )
  where
    inside_lem :
        (j n : ℕ)
        → j < entry_size
        → n ≡ 20
        → (if leb 0 j && ltb j (0 + n)
            then file_byte fs.device.sectors (fs.inodes inode) (k * entry_size + (j - 0))
            else e j)
          ≡ file_byte fs.device.sectors (fs.inodes inode) (k * entry_size + (j - 0))
    inside_lem j n l h = ground arith

pub is_named_ext :
    (name : List ℕ) (e e' : ℕ → ℕ)
    → strlen name ≤ name_max
    → ((j : ℕ) → j < entry_size → e j ≡ e' j)
    → is_named name e ≡ is_named name e'
is_named_ext name e e' h q =
    ap₂ (λ u c. not (u == 0) && is_zero c) (q 19 (omega arith))
      (strcmp_ext name name_offset e e' (λ i l. q (name_offset + i) (omega arith)))

module _ (fs fs' : FileSystem) (s : SameDisk fs fs') (inode : ℕ) where
  pub entry_byte_same : (k : ℕ) → entry_byte fs' inode k ≡ entry_byte fs inode k
  entry_byte_same k =
      ap (λ b. λ j. file_byte b (fs'.inodes inode) (k * entry_size + j)) s.sectors
      ∙ ap (λ f. λ j. file_byte fs.device.sectors (f inode) (k * entry_size + j)) s.inodes

  pub entry_cnt_same : entry_cnt fs' inode ≡ entry_cnt fs inode
  entry_cnt_same = ap (λ f. (f inode).disk.length / entry_size) s.inodes

  pub OnDevice-same : OnDevice (fs.inodes inode) fs.device → OnDevice (fs'.inodes inode) fs'.device
  OnDevice-same o =
      subst (λ f. OnDevice (f inode) fs'.device) (sym s.inodes)
        (λ p h. subst (λ m. (fs.inodes inode).disk.start + p / 512 < m) (sym s.size) (o p h))

module _ (fuel inode : ℕ) (name : List ℕ) (e e1 : ℕ → ℕ) (ofs n : ℕ) (fs fs1 : FileSystem)
    (q : read_inode true inode e entry_size ofs fs ≡ some (n, e1, fs1)) where
  lookup-end :
      (n == entry_size) ≡ false → lookup_from (suc fuel) true inode name e ofs fs ≡ some (none, fs1)
  unfolding lookup_from
  lookup-end w = rw (q, w) refl

  lookup-found :
      (n == entry_size) ≡ true
      → is_named name e1 ≡ true
      → lookup_from (suc fuel) true inode name e ofs fs ≡ some (some (e1, ofs), fs1)
  unfolding lookup_from
  lookup-found w m = rw (q, w, m) refl

  lookup-next :
      (n == entry_size) ≡ true
      → is_named name e1 ≡ false
      → lookup_from (suc fuel) true inode name e ofs fs
        ≡ lookup_from fuel true inode name e1 (ofs + entry_size) fs1
  unfolding lookup_from
  lookup-next w m = rw (q, w, m) refl

-- What a lookup in a directory comes to: the first entry in use with the name, its bytes and its
-- offset; or none where there is no such entry.
abbrev pub Looked : FileSystem → (inode : ℕ) (name : List ℕ) → Option ((ℕ → ℕ) × ℕ) → Type 0
Looked fs inode name none =
    (k : ℕ) → k < entry_cnt fs inode → is_named name (entry_byte fs inode k) ≡ false
Looked fs inode name (some (e, ofs)) =
    (k : ℕ) × (ofs ≡ k * entry_size)
    × (k < entry_cnt fs inode)
    × (is_named name (entry_byte fs inode k) ≡ true)
    × ((j : ℕ) → j < entry_size → e j ≡ entry_byte fs inode k j)
    × ((i : ℕ) → i < k → is_named name (entry_byte fs inode i) ≡ false)

-- What a call of the loop comes to, for the directory as it was at first.
abbrev LookupOutcome :
    FileSystem → (inode : ℕ) (name : List ℕ) → Option (Option ((ℕ → ℕ) × ℕ) × FileSystem) → Type 0
LookupOutcome fs0 inode name r =
    (found : Option ((ℕ → ℕ) × ℕ)) × (fs' : FileSystem) × (r ≡ some (found, fs'))
    × Looked fs0 inode name found
    × SameDisk fs0 fs'

module _ (fs0 : FileSystem) (inode : ℕ) (name : List ℕ) (short : strlen name ≤ name_max)
    (o : OnDevice (fs0.inodes inode) fs0.device) where
  lookup_from_lem :
      (fuel k : ℕ) (e : ℕ → ℕ) (fs : FileSystem)
      → SameDisk fs0 fs
      → k ≤ entry_cnt fs0 inode
      → entry_cnt fs0 inode < k + fuel
      → ((i : ℕ) → i < k → is_named name (entry_byte fs0 inode i) ≡ false)
      → LookupOutcome fs0 inode name (lookup_from fuel true inode name e (k * entry_size) fs)
  lookup_from_lem zero k e fs s l f b = absurd (omega arith)
  lookup_from_lem (suc fuel) k e fs s l f b =
      let (n, e1, fs1, q, w, same, t) = read_entry fs inode k e (OnDevice-same fs0 fs s inode o) in
      let whole : (n == entry_size) ≡ ltb k (entry_cnt fs0 inode) =
        w ∙ ap (λ c. ltb k c) (entry_cnt_same fs0 fs s inode) in
      let bytes : ltb k (entry_cnt fs0 inode) ≡ true
          → (j : ℕ) → j < entry_size
          → e1 j ≡ entry_byte fs0 inode k j =
        λ h j u.
          same (ap (λ c. ltb k c) (entry_cnt_same fs0 fs s inode) ∙ h) j u
          ∙ ap (λ g. g j) (entry_byte_same fs0 fs s inode k) in
      let now = SameDisk-trans fs0 fs fs1 s t in
      elim (Bool-cases (ltb k (entry_cnt fs0 inode))) [
        | inr h ↦ (
          none,
          fs1,
          lookup-end fuel inode name e e1 (k * entry_size) n fs fs1 q (whole ∙ h),
          λ i u. b i (ground arith),
          now,
        )
        | inl h ↦
            let named = is_named_ext name e1 (entry_byte fs0 inode k) short (bytes h) in
            elim (Bool-cases (is_named name (entry_byte fs0 inode k))) [
              | inl m ↦ (
                some (e1, k * entry_size),
                fs1,
                lookup-found fuel inode name e e1 (k * entry_size) n fs fs1 q (whole ∙ h)
                    (named ∙ m),
                (k, refl, ltb→lt k (entry_cnt fs0 inode) h, m, bytes h, b),
                now,
              )
              | inr m ↦
                  let (found, fs2, r, y, z) =
                    lookup_from_lem fuel (k + 1) e1 fs1 now (ground arith) (omega arith)
                      (λ i u. before i k u m b) in
                  (
                    found,
                    fs2,
                    lookup-next fuel inode name e e1 (k * entry_size) n fs fs1 q (whole ∙ h)
                          (named ∙ m)
                        ∙ (ap (λ p. lookup_from fuel true inode name e1 p fs1) (omega arith) ∙ r),
                    y,
                    z,
                  )
            ]
      ]
    where
      before :
          (i k : ℕ)
          → i < k + 1
          → is_named name (entry_byte fs0 inode k) ≡ false
          → ((i : ℕ) → i < k → is_named name (entry_byte fs0 inode i) ≡ false)
          → is_named name (entry_byte fs0 inode i) ≡ false
      before i k u m b = elim (Bool-cases (ltb i k)) [
        | inl e ↦ b i (ltb→lt i k e)
        | inr e ↦
            let last : k ≡ i = omega (arith, ltb→le i k e) in
            subst (λ j. is_named name (entry_byte fs0 inode j) ≡ false) last m
      ]

-- With memory for the bounce buffer, for a directory whose sectors lie on the device, and a name of at
-- most 14 characters, lookup() ends and gives the first entry in use with that name, its 20 bytes and
-- its offset, or false where there is no such entry; the inodes and the sectors are as before.
pub lookup-Looked :
    (dir : Dir) (name : List ℕ) (e : ℕ → ℕ) (fs : FileSystem)
    → strlen name ≤ name_max
    → OnDevice (fs.inodes dir.inode) fs.device
    → (found : Option ((ℕ → ℕ) × ℕ)) × (fs' : FileSystem) × (lookup true dir name e fs
        ≡ some (found, fs'))
      × Looked fs dir.inode name found
      × SameDisk fs fs'
unfolding lookup
lookup-Looked dir name e fs short o =
    lookup_from_lem fs dir.inode name short o (entry_rounds dir.inode fs) 0 e fs (SameDisk-refl fs)
      (omega arith) (omega arith) (λ i u. absurd (omega arith))
