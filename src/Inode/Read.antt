-- ===== src/Inode/Read.antt =====
-- inode_read_at reads the bytes of the file.
use operation_system.Base.{
  ℕ, zero, suc, ◌+◌, ◌-◌, ◌/◌, ◌%◌, ◌^◌, ◌≤◌, ◌<◌, ◌≡◌, refl, true, ◌&&◌, Option, some, arith, leb,
  ltb, ◌==◌, if◌then◌else◌, ap, sym, subst, ◌∙◌, Bool-cases, inl, inr,
}
use operation_system.Block.{Block, block_sector_size, block_read}
use operation_system.Inode.{
  Inode, min_of, chunk_size, memcpy, byte_to_sector, read_chunk, read_from, inode_read_at,
}

-- Byte number `pos` of the file, in the sectors of the device.
abbrev pub file_byte : (ℕ → ℕ → ℕ) → Inode → ℕ → ℕ
file_byte sectors inode pos =
    sectors (inode.disk.start + pos / block_sector_size) (pos % block_sector_size)

-- The sectors of the file lie on the device.
abbrev pub OnDevice : Inode → Block → Type 0
OnDevice inode dev =
    (pos : ℕ) → pos < inode.disk.length → inode.disk.start + pos / block_sector_size < dev.size

-- How many of `size` bytes from `offset` on are in the file.
abbrev pub available : Inode → (size offset : ℕ) → ℕ
available inode size offset = min_of size (inode.disk.length - offset)

-- What a read leaves: `n` bytes of the file from `offset` on in the buffer from `at` on, and a device
-- with the same sectors.
pub record HasRead (inode : Inode) (offset at n : ℕ) (buffer : ℕ → ℕ) (dev : Block)
    (buffer' : ℕ → ℕ) (dev' : Block) : Type 0 where
  pub bytes :
      (i : ℕ)
      → buffer' i ≡ (
          if leb at i && ltb i (at + n)
          then file_byte dev.sectors inode (offset + (i - at))
          else buffer i)
  pub sectors : dev'.sectors ≡ dev.sectors
  pub size : dev'.size ≡ dev.size
  pub type : dev'.type ≡ dev.type

same_sector : (offset i : ℕ) → i < 512 - offset % 512 → (offset + i) / 512 ≡ offset / 512
same_sector offset i h = omega arith

next_byte : (offset i : ℕ) → i < 512 - offset % 512 → (offset + i) % 512 ≡ offset % 512 + i
next_byte offset i h = omega arith

-- A byte of the sector is a byte of the file.
pub sector_byte :
    (sectors : ℕ → ℕ → ℕ) (inode : Inode) (offset i : ℕ)
    → i < 512 - offset % 512
    → sectors (inode.disk.start + offset / 512) (offset % 512 + i)
      ≡ file_byte sectors inode (offset + i)
sector_byte sectors inode offset i h = rw (same_sector offset i h, next_byte offset i h) refl

module _ (inode : Inode) (chunk offset at : ℕ) (buffer : ℕ → ℕ) (dev : Block) where
  abbrev copied : ℕ → ℕ
  copied = memcpy buffer at (dev.sectors (inode.disk.start + offset / 512)) (offset % 512) chunk

  abbrev counted : Block
  counted = record dev { read_cnt = (dev.read_cnt + 1) % 2 ^ 64 }

  read_chunk_lem :
      offset < inode.disk.length
      → inode.disk.start + offset / 512 < dev.size
      → read_chunk true inode chunk offset at buffer dev ≡ some (some (copied, counted))
  unfolding read_chunk block_read byte_to_sector
  read_chunk_lem h s = ground arith

  copied-HasRead :
      chunk ≤ 512 - offset % 512 → HasRead inode offset at chunk buffer dev copied counted
  copied-HasRead h = record {
    bytes = λ i. ground (arith, sector_byte dev.sectors inode offset (i - at));
    sectors = refl;
    size = refl;
    type = refl;
  }

read_from-stop :
    (fuel : ℕ) (inode : Inode) (size offset at : ℕ) (buffer : ℕ → ℕ) (dev : Block)
    → available inode size offset ≡ 0
    → read_from (suc fuel) true inode size offset at buffer dev ≡ some (at, buffer, dev)
unfolding read_from
read_from-stop fuel inode size offset at buffer dev h = ground arith

read_from-step :
    (fuel : ℕ) (inode : Inode) (size offset at chunk : ℕ) (buffer buffer1 : ℕ → ℕ)
    (dev dev1 : Block)
    → chunk ≡ chunk_size inode size offset
    → 0 < available inode size offset
    → read_chunk true inode chunk offset at buffer dev ≡ some (some (buffer1, dev1))
    → read_from (suc fuel) true inode size offset at buffer dev
      ≡ read_from fuel true inode (size - chunk) (offset + chunk) (at + chunk) buffer1 dev1
unfolding read_from
read_from-step fuel inode size offset at chunk buffer buffer1 dev dev1 c h e = ground arith

HasRead-join :
    (inode : Inode) (offset at m n : ℕ) (b b1 b2 : ℕ → ℕ) (d d1 d2 : Block)
    → HasRead inode offset at m b d b1 d1
    → HasRead inode (offset + m) (at + m) n b1 d1 b2 d2
    → HasRead inode offset at (m + n) b d b2 d2
HasRead-join inode offset at m n b b1 b2 d d1 d2 f g = record {
  bytes = λ i. ground (
    arith,
    f.bytes i,
    g.bytes i,
    ap (λ s. file_byte s inode (offset + m + (i - (at + m)))) f.sectors,
    ap (file_byte d.sectors inode) (shift i),
  );
  sectors = g.sectors ∙ f.sectors;
  size = g.size ∙ f.size;
  type = g.type ∙ f.type;
}
  where
    shift : (i : ℕ) → offset + m + (i - (at + m)) ≡ offset + (m + (i - (at + m)))
    shift i = omega arith

-- What a call of the loop comes to.
abbrev pub ReadOutcome :
    (inode : Inode) (size offset at : ℕ) (buffer : ℕ → ℕ) (dev : Block)
    → Option (ℕ × (ℕ → ℕ) × Block)
    → Type 0
ReadOutcome inode size offset at buffer dev r =
    (buffer' : ℕ → ℕ) × (dev' : Block) × (r
      ≡ some (at + available inode size offset, buffer', dev'))
    × HasRead inode offset at (available inode size offset) buffer dev buffer' dev'

HasRead-nothing :
    (inode : Inode) (offset at n : ℕ) (buffer : ℕ → ℕ) (dev : Block)
    → n ≡ 0
    → HasRead inode offset at n buffer dev buffer dev
HasRead-nothing inode offset at n buffer dev e = record {
  bytes = λ i. ground arith;
  sectors = refl;
  size = refl;
  type = refl;
}

pub chunk_bounds :
    (inode : Inode) (size offset : ℕ)
    → 0 < available inode size offset
    → (0 < chunk_size inode size offset)
      × (chunk_size inode size offset ≤ size)
      × (chunk_size inode size offset ≤ 512 - offset % 512)
      × (offset < inode.disk.length)
      × (available inode size offset
          ≡ chunk_size inode size offset
            + available inode
                (size - chunk_size inode size offset)
                (offset + chunk_size inode size offset))
chunk_bounds inode size offset h =
    (ground arith, ground arith, ground arith, ground arith, ground arith)

read_from_lem :
    (fuel : ℕ) (inode : Inode) (size offset at : ℕ) (buffer : ℕ → ℕ) (dev : Block)
    → size < fuel
    → OnDevice inode dev
    → ReadOutcome inode size offset at buffer dev
        (read_from fuel true inode size offset at buffer dev)
read_from_lem zero inode size offset at buffer dev f o = absurd (omega arith)
read_from_lem (suc fuel) inode size offset at buffer dev f o =
    elim (Bool-cases (available inode size offset == 0)) [
      | inl e ↦
          let z : available inode size offset ≡ 0 = ground arith in
          (
            buffer,
            dev,
            read_from-stop fuel inode size offset at buffer dev z
                ∙ ap (λ n. some (n, buffer, dev)) (omega (arith, z)),
            HasRead-nothing inode offset at (available inode size offset) buffer dev z,
          )
      | inr e ↦
          let some_left : 0 < available inode size offset = ground arith in
          let c = chunk_size inode size offset in
          let (pos, le, fits, inside, total) = chunk_bounds inode size offset some_left in
          let one = copied-HasRead inode c offset at buffer dev fits in
          let (b2, d2, q, g) =
            read_from_lem fuel inode (size - c) (offset + c) (at + c)
              (copied inode c offset at buffer dev) (counted inode c offset at buffer dev)
              (omega arith) o in
          (
            b2,
            d2,
            read_from-step fuel inode size offset at c buffer (copied inode c offset at buffer dev)
                  dev (counted inode c offset at buffer dev) refl some_left
                  (read_chunk_lem inode c offset at buffer dev inside (o offset inside))
                ∙ (q ∙ ap (λ n. some (n, b2, d2)) (omega (arith, total))),
            subst (λ n. HasRead inode offset at n buffer dev b2 d2) (sym total)
                (HasRead-join inode offset at c (available inode (size - c) (offset + c)) buffer
                  (copied inode c offset at buffer dev) b2 dev
                  (counted inode c offset at buffer dev) d2 one g),
          )
    ]

-- With memory for the bounce buffer, and the sectors of the file on the device, inode_read_at()
-- panics nowhere and ends; it returns the number of bytes asked for or left in the file from the
-- offset on, the lesser of the two, and has put just these bytes of the file at the start of the
-- buffer; the rest of the buffer and the sectors of the device are as before.
pub inode_read_at-HasRead :
    (inode : Inode) (buffer : ℕ → ℕ) (size offset : ℕ) (dev : Block)
    → OnDevice inode dev
    → (buffer' : ℕ → ℕ) × (dev' : Block) × (inode_read_at true inode buffer size offset dev
        ≡ some (available inode size offset, buffer', dev'))
      × HasRead inode offset 0 (available inode size offset) buffer dev buffer' dev'
unfolding inode_read_at
inode_read_at-HasRead inode buffer size offset dev o =
    let (b, d, q, g) = read_from_lem (suc size) inode size offset 0 buffer dev (omega arith) o in
    (b, d, q ∙ ap (λ n. some (n, b, d)) (omega arith), g)
