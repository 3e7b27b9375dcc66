-- ===== src/Inode/Write.antt =====
-- ATS/myfat/fat_inode.c: writing an inode out to the directory entry of its file.
pub mod Entry
pub mod Again
mod Tests
use ats_ldd.Base.{
  ℕ, ◌+◌, ◌-◌, ◌*◌, ◌/◌, ◌%◌, ◌^◌, Bool, true, false, not, ◌&&◌, ◌||◌, List, [], ◌∷◌, Option, none,
  some, Result, ok, err, eio, Errno, if◌then◌else◌, ◌==◌, ltb, leb,
}
use ats_ldd.Fat.Volume.{Geometry, Device}
use ats_ldd.Fat.Dir.{Disk, Address, dir_per_block, dir_per_block_bits, entry_size, attr_offset}
use ats_ldd.Fat.Unlink.{mark}
use ats_ldd.Fat.Fresh.{copy_bytes}
use ats_ldd.Time.{FatTime, fat_time_unix2fat}
use ats_ldd.Inode.{Bits, s_isdir, fat_make_attrs}
use ats_ldd.Inode.Fill.{VfsInode, InodeOptions}

-- The fields of an entry, by their offsets in it.
abbrev pub put8 : (ℕ → ℕ) → ℕ → ℕ → ℕ → ℕ
put8 entry c x c' = if c == c' then x else entry c'

abbrev pub put16 : (ℕ → ℕ) → ℕ → ℕ → ℕ → ℕ
put16 entry c w = put8 (put8 entry c (w % 2 ^ 8)) (c + 1) (w / 2 ^ 8 % 2 ^ 8)

abbrev pub put32 : (ℕ → ℕ) → ℕ → ℕ → ℕ → ℕ
put32 entry c w = put16 (put16 entry c (w % 2 ^ 16)) (c + 2) (w / 2 ^ 16)

-- An attribute byte as a number.
abbrev pub bit : Bits → ℕ → ℕ
bit a i = if a i then 2 ^ i else 0

unfoldable pub number_of : Bits → ℕ
number_of a = bit a 0 + bit a 1 + bit a 2 + bit a 3 + bit a 4 + bit a 5 + bit a 6 + bit a 7

-- The entry, from what it was.
unfoldable pub entry_of : InodeOptions → VfsInode → (ℕ → ℕ) → ℕ → ℕ
entry_of opt i entry =
    let mtime = fat_time_unix2fat (opt.zone) (i.i_mtime) in
    let ctime = fat_time_unix2fat (opt.zone) (i.i_ctime) in
    let atime = fat_time_unix2fat (opt.zone) (i.i_atime) in
    let sized = put32 entry 28 (if s_isdir (i.i_mode) then 0 else i.node.i_size % 2 ^ 32) in
    let named =
      put8 sized attr_offset (number_of (fat_make_attrs (opt.modes) (i.i_mode) (i.i_attrs))) in
    let started =
      put16 (put16 named 26 (i.node.i_logstart % 2 ^ 16)) 20 (i.node.i_logstart / 2 ^ 16) in
    let dated = put16 (put16 started 22 mtime.time) 24 mtime.date in
    if opt.isvfat
    then put16 (put8 (put16 (put16 dated 14 ctime.time) 16 ctime.date) 13 ctime.time_cs) 18
        atime.date
    else dated

abbrev pub answer : Option Errno → Result (Unit {0})
answer none = ok tt
answer (some e) = err e

-- The block of a position, and the offset of its entry there.
abbrev pub address_of : Geometry → ℕ → Address
address_of g i_pos = (i_pos / 2 ^ dir_per_block_bits g, i_pos % dir_per_block g * entry_size)

-- From `raw_entry` on.
unfoldable pub write_entry :
    Device → InodeOptions → Bool → VfsInode → Disk → Address → Result (Unit {0}) × Disk
unfolding entry_of
write_entry d opt wait i k a = (
  answer (if wait then d.sync_dirty a.0 else none),
  mark
      (record k {
        byte = copy_bytes k.byte a.0 a.1 (entry_of opt i (λ c. k.byte a.0 (a.1 + c))) 0 entry_size;
      })
      a.0,
)

-- The rounds of `retry`. `moves` are the positions that the inode has when the lock is taken; there
-- is none where it does not move any more.
unfoldable pub write_loop :
    Device
    → Geometry
    → InodeOptions
    → Bool
    → VfsInode
    → Disk
    → ℕ
    → List ℕ
    → Result (Unit {0}) × Disk
unfolding write_entry
write_loop d g opt wait i k i_pos [] =
    if i_pos == 0
    then (ok tt, k)
    else if not (d.bread (i_pos / 2 ^ dir_per_block_bits g))
    then (err eio, k)
    else write_entry d opt wait i k (address_of g i_pos)
write_loop d g opt wait i k i_pos (q ∷ moves) =
    let rest = write_loop d g opt wait i k q moves in
    if i_pos == 0
    then (ok tt, k)
    else if not (d.bread (i_pos / 2 ^ dir_per_block_bits g))
    then (err eio, k)
    else if i_pos == q
    then write_entry d opt wait i k (address_of g i_pos)
    else rest

unfoldable pub fat_write_inode :
    Device → Geometry → InodeOptions → Bool → List ℕ → VfsInode → Disk → Result (Unit {0}) × Disk
unfolding write_loop
fat_write_inode d g opt wait moves i k =
    if i.node.is_root then (ok tt, k) else write_loop d g opt wait i k i.i_pos moves

unfoldable pub fat_sync_inode :
    Device → Geometry → InodeOptions → List ℕ → VfsInode → Disk → Result (Unit {0}) × Disk
unfolding fat_write_inode
fat_sync_inode d g opt moves i k = fat_write_inode d g opt true moves i k
