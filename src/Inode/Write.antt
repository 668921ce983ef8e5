-- ===== src/Inode/Write.antt =====
-- inode_write_at writes the bytes of the file, and no other byte of the device.
use operation_system.Base.{
  subst, ◌*◌, ℕ, zero, suc, ◌+◌, ◌-◌, ◌/◌, ◌%◌, ◌^◌, ◌≤◌, ◌<◌, ◌≡◌, refl, ◌≢◌, Bool, true, ◌&&◌,
  some, arith, leb, ltb, ◌==◌, if◌then◌else◌, ap, sym, ◌∙◌, Bool-cases, inl, inr, update,
}
use operation_system.Block.{Block, block_foreign, block_sector_size, block_read, block_write}
use operation_system.Inode.{
  Inode, chunk_size, memcpy, byte_to_sector, write_chunk, write_from, inode_read_at, inode_write_at,
}
use operation_system.Inode.Read.{
  file_byte, OnDevice, available, chunk_bounds, inode_read_at-HasRead,
}

-- Byte `j` of sector `s` is byte number `pos` of the file.
abbrev pub at_byte : Inode → (s j pos : ℕ) → Bool
at_byte inode s j pos =
    (s == inode.disk.start + pos / block_sector_size) && (j == pos % block_sector_size)

-- The file position of byte `j` of sector `s`, if it is in the file.
abbrev pub position : Inode → (s j : ℕ) → ℕ
position inode s j = (s - inode.disk.start) * block_sector_size + j

-- Byte `j` of sector `s` is one of the `n` bytes of the file from `offset` on.
abbrev pub is_target : Inode → (offset n s j : ℕ) → Bool
is_target inode offset n s j =
    leb inode.disk.start s
    && (leb offset (position inode s j) && ltb (position inode s j) (offset + n))

-- What a write leaves: `n` bytes of the buffer from `at` on in the file from `offset` on, and every
-- other byte of every sector as it was.
pub record HasWritten (inode : Inode) (offset at n : ℕ) (buffer : ℕ → ℕ) (dev dev' : Block)
    : Type 0 where
  pub bytes :
      (s j : ℕ)
      → j < block_sector_size
      → dev'.sectors s j ≡ (
          if is_target inode offset n s j
          then buffer (at + (position inode s j - offset))
          else dev.sectors s j)
  pub size : dev'.size ≡ dev.size
  pub type : dev'.type ≡ dev.type

module _ (inode : Inode) (chunk offset at : ℕ) (buffer : ℕ → ℕ) (dev : Block) where
  abbrev place : ℕ
  place = inode.disk.start + offset / 512

  abbrev whole : ℕ → ℕ
  whole = λ i. buffer (at + i)

  abbrev patched : ℕ → ℕ
  patched = memcpy (dev.sectors place) (offset % 512) buffer at chunk

  -- The device with the sector written, after `reads` more reads.
  abbrev written : (ℕ → ℕ) → ℕ → Block
  written bytes reads = record dev {
    sectors = update dev.sectors place bytes;
    read_cnt = reads;
    write_cnt = (dev.write_cnt + 1) % 2 ^ 64;
  }

  whole_lem :
      offset < inode.disk.length
      → place < dev.size
      → dev.type ≢ block_foreign
      → offset % 512 ≡ 0
      → chunk ≡ 512
      → write_chunk true inode chunk offset at buffer dev ≡ some (some (written whole dev.read_cnt))
  unfolding write_chunk block_write byte_to_sector
  whole_lem h s t z c = ground arith

  patched_lem :
      offset < inode.disk.length
      → place < dev.size
      → dev.type ≢ block_foreign
      → chunk < 512
      → write_chunk true inode chunk offset at buffer dev
        ≡ some (some (written patched ((dev.read_cnt + 1) % 2 ^ 64)))
  unfolding write_chunk block_read block_write byte_to_sector
  patched_lem h s t c = ground arith

  target_lem :
      (s j : ℕ)
      → j < 512
      → chunk ≤ 512 - offset % 512
      → is_target inode offset chunk s j
        ≡ ((s == place) && (leb (offset % 512) j && ltb j (offset % 512 + chunk)))
  target_lem s j h c = ground arith

  index_lem : (j : ℕ) → offset % 512 ≤ j → position inode place j - offset ≡ j - offset % 512
  index_lem j h = omega arith

  whole-HasWritten :
      (reads : ℕ)
      → offset % 512 ≡ 0
      → chunk ≡ 512
      → HasWritten inode offset at chunk buffer dev (written whole reads)
  whole-HasWritten reads z c = record {
    bytes = λ s j h. ground (arith, target_lem s j h, index_lem j);
    size = refl;
    type = refl;
  }

  patched-HasWritten :
      (reads : ℕ)
      → chunk ≤ 512 - offset % 512
      → HasWritten inode offset at chunk buffer dev (written patched reads)
  patched-HasWritten reads c = record {
    bytes = λ s j h. ground (arith, target_lem s j h, index_lem j);
    size = refl;
    type = refl;
  }

-- One round writes its chunk.
write_chunk-HasWritten :
    (inode : Inode) (chunk offset at : ℕ) (buffer : ℕ → ℕ) (dev : Block)
    → offset < inode.disk.length
    → inode.disk.start + offset / 512 < dev.size
    → dev.type ≢ block_foreign
    → chunk ≤ 512 - offset % 512
    → (dev' : Block) × (write_chunk true inode chunk offset at buffer dev ≡ some (some dev'))
      × HasWritten inode offset at chunk buffer dev dev'
write_chunk-HasWritten inode chunk offset at buffer dev h s t c = elim (Bool-cases (chunk == 512)) [
  | inl e ↦ (
    _,
    whole_lem inode chunk offset at buffer dev h s t (ground arith) (ground arith),
    whole-HasWritten inode chunk offset at buffer dev dev.read_cnt (ground arith) (ground arith),
  )
  | inr e ↦ (
    _,
    patched_lem inode chunk offset at buffer dev h s t (ground arith),
    patched-HasWritten inode chunk offset at buffer dev ((dev.read_cnt + 1) % 2 ^ 64) c,
  )
]

write_from-stop :
    (fuel : ℕ) (inode : Inode) (size offset at : ℕ) (buffer : ℕ → ℕ) (dev : Block)
    → available inode size offset ≡ 0
    → write_from (suc fuel) true inode size offset at buffer dev ≡ some (at, dev)
unfolding write_from
write_from-stop fuel inode size offset at buffer dev h = ground arith

write_from-step :
    (fuel : ℕ) (inode : Inode) (size offset at chunk : ℕ) (buffer : ℕ → ℕ) (dev dev1 : Block)
    → chunk ≡ chunk_size inode size offset
    → 0 < available inode size offset
    → write_chunk true inode chunk offset at buffer dev ≡ some (some dev1)
    → write_from (suc fuel) true inode size offset at buffer dev
      ≡ write_from fuel true inode (size - chunk) (offset + chunk) (at + chunk) buffer dev1
unfolding write_from
write_from-step fuel inode size offset at chunk buffer dev dev1 c h e = ground arith

HasWritten-join :
    (inode : Inode) (offset at m n : ℕ) (b : ℕ → ℕ) (d d1 d2 : Block)
    → HasWritten inode offset at m b d d1
    → HasWritten inode (offset + m) (at + m) n b d1 d2
    → HasWritten inode offset at (m + n) b d d2
HasWritten-join inode offset at m n b d d1 d2 f g = record {
  bytes = λ s j h. ground (arith, f.bytes s j h, g.bytes s j h, ap b (shift (position inode s j)));
  size = g.size ∙ f.size;
  type = g.type ∙ f.type;
}
  where
    shift : (p : ℕ) → at + m + (p - (offset + m)) ≡ at + (m + (p - (offset + m)))
    shift p = omega arith

HasWritten-nothing :
    (inode : Inode) (offset at n : ℕ) (buffer : ℕ → ℕ) (dev : Block)
    → n ≡ 0
    → HasWritten inode offset at n buffer dev dev
HasWritten-nothing inode offset at n buffer dev e = record {
  bytes = λ s j h. ground arith;
  size = refl;
  type = refl;
}

write_from_lem :
    (fuel : ℕ) (inode : Inode) (size offset at : ℕ) (buffer : ℕ → ℕ) (dev : Block)
    → size < fuel
    → OnDevice inode dev
    → dev.type ≢ block_foreign
    → (dev' : Block) × (write_from fuel true inode size offset at buffer dev
        ≡ some (at + available inode size offset, dev'))
      × HasWritten inode offset at (available inode size offset) buffer dev dev'
write_from_lem zero inode size offset at buffer dev f o t = absurd (omega arith)
write_from_lem (suc fuel) inode size offset at buffer dev f o t =
    elim (Bool-cases (available inode size offset == 0)) [
      | inl e ↦
          let z : available inode size offset ≡ 0 = ground arith in
          (
            dev,
            write_from-stop fuel inode size offset at buffer dev z
                ∙ ap (λ n. some (n, dev)) (omega (arith, z)),
            HasWritten-nothing inode offset at (available inode size offset) buffer dev z,
          )
      | inr e ↦
          let some_left : 0 < available inode size offset = ground arith in
          let c = chunk_size inode size offset in
          let (pos, le, fits, inside, total) = chunk_bounds inode size offset some_left in
          let (d1, w, one) =
            write_chunk-HasWritten inode c offset at buffer dev inside (o offset inside) t fits in
          let (d2, q, g) =
            write_from_lem fuel inode (size - c) (offset + c) (at + c) buffer d1 (omega arith)
              (λ p h. subst (λ m. inode.disk.start + p / 512 < m) (sym one.size) (o p h))
              (subst (λ y. y ≢ block_foreign) (sym one.type) t) in
          (
            d2,
            write_from-step fuel inode size offset at c buffer dev d1 refl some_left w
                ∙ (q ∙ ap (λ n. some (n, d2)) (omega (arith, total))),
            subst (λ n. HasWritten inode offset at n buffer dev d2) (sym total)
                (HasWritten-join inode offset at c (available inode (size - c) (offset + c)) buffer
                  dev d1 d2 one g),
          )
    ]

-- With memory for the bounce buffer, the sectors of the file on a device that is not foreign, and
-- writes not denied, inode_write_at() panics nowhere and ends; it returns the number of bytes asked
-- for or left in the file from the offset on, the lesser of the two; just these bytes of the file
-- are now those at the start of the buffer, and every other byte of every sector is as before.
pub inode_write_at-HasWritten :
    (inode : Inode) (buffer : ℕ → ℕ) (size offset : ℕ) (dev : Block)
    → OnDevice inode dev
    → dev.type ≢ block_foreign
    → inode.deny_write_cnt ≡ 0
    → (dev' : Block) × (inode_write_at true inode buffer size offset dev
        ≡ some (available inode size offset, dev'))
      × HasWritten inode offset 0 (available inode size offset) buffer dev dev'
unfolding inode_write_at
inode_write_at-HasWritten inode buffer size offset dev o t z =
    let (d, q, g) = write_from_lem (suc size) inode size offset 0 buffer dev (omega arith) o t in
    (d, ground arith, g)

-- The bytes of the file after a write.
pub file_byte-HasWritten :
    (inode : Inode) (offset at n : ℕ) (buffer : ℕ → ℕ) (dev dev' : Block)
    → HasWritten inode offset at n buffer dev dev'
    → (pos : ℕ)
    → file_byte dev'.sectors inode pos ≡ (
        if leb offset pos && ltb pos (offset + n)
        then buffer (at + (pos - offset))
        else file_byte dev.sectors inode pos)
file_byte-HasWritten inode offset at n buffer dev dev' w pos = ground (
  arith,
  w.bytes (inode.disk.start + pos / 512) (pos % 512) (omega arith),
  ap (λ p. buffer (at + (p - offset))) back,
  back,
)
  where
    back : position inode (inode.disk.start + pos / 512) (pos % 512) ≡ pos
    back = omega arith

-- With memory for both bounce buffers, the sectors of the file on a device that is not foreign, and
-- writes not denied, what inode_write_at() has written inode_read_at() reads back: of the same size
-- at the same offset it returns the same count, and so many bytes at the start of its buffer are
-- those of the buffer that was written.
pub inode_read_at-inode_write_at :
    (inode : Inode) (buffer into : ℕ → ℕ) (size offset : ℕ) (dev : Block)
    → OnDevice inode dev
    → dev.type ≢ block_foreign
    → inode.deny_write_cnt ≡ 0
    → (n : ℕ) × (dev1 dev2 : Block) × (out : ℕ → ℕ) × (inode_write_at true inode buffer size offset
          dev
        ≡ some (n, dev1))
      × (inode_read_at true inode into size offset dev1 ≡ some (n, out, dev2))
      × (n ≡ available inode size offset)
      × ((i : ℕ) → i < n → out i ≡ buffer i)
inode_read_at-inode_write_at inode buffer into size offset dev o t z =
    let (dev1, e, w) = inode_write_at-HasWritten inode buffer size offset dev o t z in
    let (out, dev2, q, r) =
      inode_read_at-HasRead inode into size offset dev1
        (λ p h. subst (λ m. inode.disk.start + p / 512 < m) (sym w.size) (o p h)) in
    (
      available inode size offset,
      dev1,
      dev2,
      out,
      e,
      q,
      refl,
      λ i h. ground (
        arith,
        r.bytes i,
        file_byte-HasWritten inode offset 0 (available inode size offset) buffer dev dev1 w
            (offset + (i - 0)),
        ap buffer (same i),
      ),
    )
  where
    same : (i : ℕ) → 0 + (offset + (i - 0) - offset) ≡ i
    same i = omega arith
