-- ===== src/Fat/Unlink.antt =====
-- ATS/myfat/fat_dir.c: taking the entries of a file out of its directory.
pub mod Wipe
pub mod Removed
pub mod Gone
use ats_ldd.Base.{
  ℕ, zero, suc, ◌+◌, ◌-◌, ◌*◌, ◌/◌, ◌%◌, ◌^◌, Bool, true, false, List, [], ◌∷◌, Result, ok, err,
  oops, Errno, eio, Option, none, some, if◌then◌else◌, ◌==◌,
}
use ats_ldd.Fat.Volume.{Geometry, Device, blocksize, store}
use ats_ldd.Fat.Cluster.{FatInode}
use ats_ldd.Fat.Dir.{
  Disk, Fetched, entry, no_entry, crashed, SlotInfo, entry_size, deleted_flag, fat_get_entry,
}

-- What ends the change of a directory: `fat_sync_inode`, whose answer is not looked at, or
-- `mark_inode_dirty`.
pub data Flush : Type 0 where
  sync_inode mark_dirty : Flush

-- The fields of a directory's inode that the change of its entries writes.
pub record Stamp : Type 0 where
  pub i_version : ℕ
  pub i_mtime : ℕ
  pub i_atime : ℕ
  pub flushes : List Flush

-- `de->name[0] = DELETED_FLAG` for the entry `e` of block `b`.
unfoldable pub delete : (ℕ → ℕ → ℕ) → ℕ → ℕ → ℕ → ℕ → ℕ
delete m b e = store m b (e * entry_size) deleted_flag

-- From an entry of block `b` to the end of the block, which is `left` entries away; and how many of
-- the entries remain.
pub wipe_up : (ℕ → ℕ → ℕ) → ℕ → ℕ → ℕ → ℕ → (ℕ → ℕ → ℕ) × ℕ
wipe_up m b e zero nr = (m, nr)
wipe_up m b e (suc left) zero = (m, 0)
wipe_up m b e (suc left) (suc nr) = wipe_up (delete m b e) b (e + 1) left nr

-- Down from the last of the first `n` entries of block `b`.
pub wipe_down : (ℕ → ℕ → ℕ) → ℕ → ℕ → ℕ → (ℕ → ℕ → ℕ) × ℕ
wipe_down m b zero nr = (m, nr)
wipe_down m b (suc e) zero = (m, 0)
wipe_down m b (suc e) (suc nr) = wipe_down (delete m b e) b e nr

-- `mark_buffer_dirty_inode`, and `sync_dirty_buffer` for a directory that asks for it.
unfoldable pub mark : Disk → ℕ → Disk
mark k b = record k { marks = b ∷ k.marks }

unfoldable pub sync_dir : Device → FatInode → ℕ → Option Errno
sync_dir d dir b = if dir.is_dirsync then d.sync_dirty b else none

-- Each round takes an entry at least, so that the rounds are at most the entries.
pub __fat_remove_entries : Device → Geometry → ℕ → Disk → FatInode → ℕ → ℕ → Result ℕ × Disk
unfolding wipe_up
__fat_remove_entries d g rounds k dir pos zero = (ok 0, k)
__fat_remove_entries d g zero k dir pos (suc nr) = (oops, k)
__fat_remove_entries d g (suc rounds) k dir pos (suc nr) =
    let (f, k') = fat_get_entry d g k dir (record { pos = pos; here = none }) in
    elim f [
      | no_entry p ↦ (err eio, k')
      | crashed ↦ (oops, k')
      | entry c ↦ elim (c.here) [
        | none ↦ (oops, k')
        | some (b, o) ↦
            let (m, left) =
              wipe_up k'.byte b (o / entry_size) ((blocksize g - o) / entry_size) (suc nr) in
            let k2 = mark (record k' { byte = m }) b in
            let rest =
              __fat_remove_entries d g rounds k2 dir
                (c.pos + (suc nr - left) * entry_size - entry_size) left in
            elim (sync_dir d dir b) [ some e ↦ (err e, k2) | none ↦ rest ]
      ]
    ]

-- `CURRENT_TIME_SEC` is an argument. The second stage's error is only printed.
unfoldable pub fat_remove_entries :
    Device → Geometry → ℕ → Disk → FatInode → Stamp → SlotInfo → Result ℕ × Disk × Stamp
unfolding wipe_down
fat_remove_entries d g now k dir st s =
    let (m, left) = wipe_down k.byte s.here.0 (s.here.1 / entry_size + 1) s.nr_slots in
    let k1 = mark (record k { byte = m }) s.here.0 in
    let version = (st.i_version + 1) % 2 ^ 64 in
    let (r, k2) =
      if left == 0 then (ok 0, k1) else __fat_remove_entries d g left k1 dir s.slot_off left in
    let stamped : Stamp = record {
      i_version = version;
      i_mtime = now;
      i_atime = now;
      flushes = (if dir.is_dirsync then sync_inode else mark_dirty) ∷ st.flushes;
    } in
    elim (sync_dir d dir s.here.0) [
      | some e ↦ (err e, k1, st)
      | none ↦ elim r [
        | ok n ↦ (ok 0, k2, stamped)
        | err e ↦ (ok 0, k2, stamped)
        | oops ↦ (oops, k2, st)
      ]
    ]
