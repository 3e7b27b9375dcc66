-- ===== src/Fat/Dir.antt =====
-- ATS/myfat/fat_dir.c: walking over the entries of a directory and looking for one.
pub mod Slots
pub mod Bytes
pub mod First
pub mod Search
use ats_ldd.Base.{
  ℕ, zero, suc, ◌+◌, ◌-◌, ◌*◌, ◌/◌, ◌%◌, ◌^◌, Bool, true, false, List, [], ◌∷◌, Result, ok, err,
  oops, enoent, Option, none, some, if◌then◌else◌, ◌==◌, ltb, not, ◌&&◌, ◌||◌,
}
use ats_ldd.Fat.Volume.{Geometry, Device, Volume, blocksize}
use ats_ldd.Fat.Cluster.{FatInode, fat_bmap, last_block}

-- The volume with the bytes of its data area, by block and offset, and the calls of
-- `mark_buffer_dirty_inode` for blocks of directories.
pub record Disk : Type 0 where
  pub vol : Volume
  pub byte : ℕ → ℕ → ℕ
  pub marks : List ℕ

-- `sizeof (struct msdos_dir_entry)`, `MSDOS_NAME`, `DELETED_FLAG`, `ATTR_VOLUME` and `ATTR_DIR` of
-- the FAT format, and the offset of `attr` in an entry.
abbrev pub entry_size : ℕ
entry_size = 32

abbrev pub msdos_name : ℕ
msdos_name = 11

abbrev pub deleted_flag : ℕ
deleted_flag = 229

abbrev pub attr_offset : ℕ
attr_offset = 11

-- `attr & ATTR_VOLUME` and `attr & ATTR_DIR`, bits 3 and 4.
abbrev pub has_volume : ℕ → Bool
has_volume attr = attr / 2 ^ 3 % 2 == 1

abbrev pub has_dir : ℕ → Bool
has_dir attr = attr / 2 ^ 4 % 2 == 1

-- `dir_per_block_bits` and `dir_per_block`, as `fat_fill_super` sets them.
abbrev pub dir_per_block_bits : Geometry → ℕ
dir_per_block_bits g = g.blocksize_bits - 5

abbrev pub dir_per_block : Geometry → ℕ
dir_per_block g = 2 ^ dir_per_block_bits g

-- The address of an entry: the block and the offset in it.
abbrev pub Address : Type 0
Address = ℕ × ℕ

-- The number of the entry in its block is below `dir_per_block`, so that `|` is a sum.
unfoldable pub fat_make_i_pos : Geometry → Address → ℕ
fat_make_i_pos g a = a.0 * 2 ^ dir_per_block_bits g + a.1 / entry_size

-- `*pos`, and `*bh` with `*de`; `none` for a NULL buffer.
pub record Cursor : Type 0 where
  pub pos : ℕ
  pub here : Option Address

-- What a call of `fat_get_entry` gives: an entry, -1 with the position, or no return.
pub data Fetched : Type 0 where
  entry : Cursor → Fetched
  no_entry : ℕ → Fetched
  crashed : Fetched

-- A block that cannot be read is skipped, so that the rounds are at most the blocks of the
-- directory and one more.
pub fat__get_entry : Device → Geometry → ℕ → Disk → FatInode → ℕ → Fetched × Disk
fat__get_entry d g zero k dir pos = (crashed, k)
fat__get_entry d g (suc n) k dir pos =
    let iblock = pos / blocksize g in
    let (r, v) = fat_bmap d g k.vol dir iblock in
    let k' = record k { vol = v } in
    elim r [
      | err e ↦ (no_entry pos, k')
      | oops ↦ (crashed, k')
      | ok (phys, mapped) ↦
          let skip = fat__get_entry d g n k' dir ((iblock + 1) * blocksize g) in
          if phys == 0
          then (no_entry pos, k')
          else if d.bread phys
          then (
            entry (record { pos = pos + entry_size; here = some (phys, pos % blocksize g) }),
            k',
          )
          else skip
    ]

unfoldable pub fat_get_entry : Device → Geometry → Disk → FatInode → Cursor → Fetched × Disk
fat_get_entry d g k dir c =
    let slow = fat__get_entry d g (last_block g dir + 1) k dir c.pos in
    elim (c.here) [
      | none ↦ slow
      | some (b, o) ↦
          if ltb (o / entry_size) (dir_per_block g - 1)
          then (entry (record { pos = c.pos + entry_size; here = some (b, o + entry_size) }), k)
          else slow
    ]

-- `IS_FREE (de->name)`
unfoldable pub is_free : Disk → Address → Bool
is_free k a = (k.byte a.0 a.1 == 0) || (k.byte a.0 a.1 == deleted_flag)

unfoldable pub attr_at : Disk → Address → ℕ
attr_at k a = k.byte a.0 (a.1 + attr_offset)

-- Neither free nor a long name or a volume label.
unfoldable pub is_short : Disk → Address → Bool
is_short k a = not (is_free k a) && not (has_volume (attr_at k a))

-- The loop of `fat_get_short_entry`, and how it ends: on an entry, with -ENOENT, or not.
pub fat_get_short_entry : Device → Geometry → ℕ → Disk → FatInode → Cursor → Fetched × Disk
fat_get_short_entry d g zero k dir c = (crashed, k)
fat_get_short_entry d g (suc n) k dir c =
    let (f, k') = fat_get_entry d g k dir c in
    elim f [
      | no_entry pos ↦ (no_entry pos, k')
      | crashed ↦ (crashed, k')
      | entry c' ↦
          let rest = fat_get_short_entry d g n k' dir c' in
          elim (c'.here) [
            | none ↦ (crashed, k')
            | some a ↦ if is_short k' a then (entry c', k') else rest
          ]
    ]

-- As many rounds as a directory has entries, and one more.
abbrev pub rounds : Geometry → FatInode → ℕ
rounds g dir = last_block g dir * dir_per_block g + 1

-- A search begins before the first entry, with no buffer.
abbrev pub at_start : Cursor
at_start = record { pos = 0; here = none }

subdirs_loop : Device → Geometry → ℕ → Disk → FatInode → Cursor → ℕ → Result ℕ × Disk
subdirs_loop d g zero k dir c count = (oops, k)
subdirs_loop d g (suc n) k dir c count =
    let (f, k') = fat_get_short_entry d g (rounds g dir) k dir c in
    elim f [
      | no_entry pos ↦ (ok count, k')
      | crashed ↦ (oops, k')
      | entry c' ↦ elim (c'.here) [
        | none ↦ (oops, k')
        | some a ↦
            subdirs_loop d g n k' dir c' (if has_dir (attr_at k' a) then count + 1 else count)
      ]
    ]

unfoldable pub fat_subdirs : Device → Geometry → Disk → FatInode → Result ℕ × Disk
unfolding subdirs_loop
fat_subdirs d g k dir = subdirs_loop d g (rounds g dir) k dir at_start 0

-- `struct fat_slot_info`
pub record SlotInfo : Type 0 where
  pub i_pos : ℕ
  pub slot_off : ℕ
  pub nr_slots : ℕ
  pub here : Address

-- `!strncmp (de->name, name, n)` from an offset on: up to a 0, if there is one.
unfoldable pub same_name : Disk → ℕ → ℕ → ℕ → List ℕ → Bool
same_name k b o zero name = true
same_name k b o (suc n) [] = k.byte b o == 0
same_name k b o (suc n) (c ∷ cs) =
    let rest = same_name k b (o + 1) n cs in
    if not (k.byte b o == c) then false else if c == 0 then true else rest

scan_loop : Device → Geometry → ℕ → Disk → FatInode → List ℕ → Cursor → Result SlotInfo × Disk
scan_loop d g zero k dir name c = (oops, k)
scan_loop d g (suc n) k dir name c =
    let (f, k') = fat_get_short_entry d g (rounds g dir) k dir c in
    elim f [
      | no_entry pos ↦ (err enoent, k')
      | crashed ↦ (oops, k')
      | entry c' ↦
          let rest = scan_loop d g n k' dir name c' in
          elim (c'.here) [
            | none ↦ (oops, k')
            | some a ↦
                if same_name k' a.0 a.1 msdos_name name
                then (
                  ok (record {
                    i_pos = fat_make_i_pos g a;
                    slot_off = c'.pos - entry_size;
                    nr_slots = 1;
                    here = a;
                  }),
                  k',
                )
                else rest
          ]
    ]

unfoldable pub fat_scan : Device → Geometry → Disk → FatInode → List ℕ → Result SlotInfo × Disk
unfolding scan_loop
fat_scan d g k dir name = scan_loop d g (rounds g dir) k dir name at_start

-- `unsigned char` arithmetic.
unfoldable pub checksum_step : ℕ → ℕ → ℕ
checksum_step s c = (s * 2 ^ 7 + s / 2 + c) % 2 ^ 8

checksum_loop : ℕ → List ℕ → ℕ
checksum_loop s [] = s
checksum_loop s (c ∷ cs) = checksum_loop (checksum_step s c) cs

-- The checksum of a name of eleven bytes.
unfoldable pub fat_checksum : List ℕ → ℕ
unfolding checksum_loop
fat_checksum [] = 0
fat_checksum (c ∷ cs) = checksum_loop c cs
