-- ===== src/Fat/Link.antt =====
-- `fat_add_entries` of ATS/myfat/fat_dir.c: entering a file into a directory.
pub mod Placed
pub mod Entered
use ats_ldd.Base.{
  ℕ, zero, suc, ◌+◌, ◌-◌, ◌*◌, ◌/◌, ◌%◌, ◌^◌, min, Bool, true, false, List, [], ◌∷◌, ◌++◌, Result,
  ok, err, oops, Errno, eio, enospc, Option, none, some, if◌then◌else◌, ◌==◌, leb, not, ◌&&◌,
  length, take, drop,
}
use ats_ldd.Fat.Volume.{Geometry, Device, Volume, blocksize, fat_fs_error}
use ats_ldd.Fat.Free.{fat_free_clusters}
use ats_ldd.Fat.Cluster.{FatInode}
use ats_ldd.Fat.Extend.{fat_chain_add}
use ats_ldd.Fat.Dir.{
  Disk, Address, Cursor, Fetched, entry, no_entry, crashed, SlotInfo, entry_size, is_free,
  fat_get_entry, fat_make_i_pos, rounds, at_start,
}
use ats_ldd.Fat.Unlink.{mark, sync_dir, __fat_remove_entries}
use ats_ldd.Fat.Fresh.{copy_bytes, sync_bhs, fat_add_new_entries}

-- `FAT_MAX_DIR_SIZE` of the FAT format.
abbrev pub fat_max_dir_size : ℕ
fat_max_dir_size = 2 ^ 21

-- The run of free entries that the first stage holds: how many, and their blocks, the last one
-- twice (`prev`).
pub record Run : Type 0 where
  pub free_slots : ℕ
  pub bhs : List ℕ
  pub prev : Option ℕ

abbrev pub no_run : Run
no_run = record { free_slots = 0; bhs = []; prev = none }

-- One free entry more, in block `b`.
unfoldable pub longer : Run → ℕ → Run
longer r b =
    let new : Run = record {
      free_slots = r.free_slots + 1;
      bhs = r.bhs ++ (b ∷ []);
      prev = some b;
    } in
    elim (r.prev) [
      | none ↦ new
      | some p ↦ if p == b then record r { free_slots = r.free_slots + 1 } else new
    ]

-- How the first stage ends: at the label `found` from the loop, behind the loop, or with -ENOSPC;
-- or it does not.
pub data Searched : Type 0 where
  enough : Run → ℕ → Address → Searched
  at_end : Run → ℕ → Searched
  too_large : Searched
  stuck : Searched

pub search_loop : Device → Geometry → ℕ → Disk → FatInode → ℕ → Run → Cursor → Searched × Disk
search_loop d g zero k dir nr r c = (stuck, k)
search_loop d g (suc n) k dir nr r c =
    let (f, k') = fat_get_entry d g k dir c in
    elim f [
      | no_entry pos ↦ (at_end r pos, k')
      | crashed ↦ (stuck, k')
      | entry c' ↦ elim (c'.here) [
        | none ↦ (stuck, k')
        | some a ↦
            let r' = longer r a.0 in
            let go_on = search_loop d g n k' dir nr (if is_free k' a then r' else no_run) c' in
            if leb fat_max_dir_size c'.pos
            then (too_large, k')
            else if is_free k' a && r'.free_slots == nr
            then (enough r' c'.pos a, k')
            else go_on
      ]
    ]

-- The part of the entries that goes into blocks of the run: from byte `from` on, `size` bytes.
pub record Part : Type 0 where
  pub disk : Disk
  pub offset : ℕ
  pub from : ℕ
  pub size : ℕ

unfoldable pub fill_block : Geometry → (ℕ → ℕ) → Part → ℕ → Part
fill_block g slots p b =
    let copy = min (blocksize g - p.offset) p.size in
    record {
      disk =
          mark (record (p.disk) { byte = copy_bytes p.disk.byte b p.offset slots p.from copy }) b;
      offset = 0;
      from = p.from + copy;
      size = p.size - copy;
    }

-- "Fill the long name slots."
pub fill_long : Geometry → (ℕ → ℕ) → Part → List ℕ → Part
fill_long g slots p [] = p
fill_long g slots p (b ∷ bs) = fill_long g slots (fill_block g slots p b) bs

-- The second stage: `err`, and the part that is left.
unfoldable pub fill_run :
    Device → Geometry → FatInode → (ℕ → ℕ) → Run → ℕ → Part → Option Errno × Part
unfolding fill_block fill_long
fill_run d g dir slots r nr_slots p =
    let long_bhs = length r.bhs - (if nr_slots == 0 then 1 else 0) in
    let p1 = fill_long g slots p (take long_bhs r.bhs) in
    let synced = if long_bhs == 0 then none else sync_bhs d dir (take long_bhs r.bhs) in
    elim synced [
      | some e ↦ (some e, p1)
      | none ↦ elim (drop long_bhs r.bhs) [
        | [] ↦ (none, p1)
        | b ∷ bs ↦ (sync_dir d dir b, fill_block g slots p1 b)
      ]
    ]

-- `error_remove:`
unfoldable pub take_back :
    Device → Geometry → Errno → Disk → FatInode → ℕ → ℕ → Result SlotInfo × Disk × FatInode
take_back d g e k dir pos free_slots =
    let (r, k') = __fat_remove_entries d g free_slots k dir pos free_slots in
    if free_slots == 0
    then (err e, k, dir)
    else (elim r [ ok _ ↦ err e | err _ ↦ err e | oops ↦ oops ], k', dir)

-- The size of a directory grows by whole clusters; a size that is none is rounded up first.
unfoldable pub grow_dir : Geometry → ℕ → Volume → FatInode → Option (Volume × FatInode)
grow_dir g nr_cluster v dir =
    let grown = λ (i : FatInode). record i {
      i_size = i.i_size + nr_cluster * 2 ^ g.cluster_bits;
      mmu_private = i.mmu_private + nr_cluster * 2 ^ g.cluster_bits;
    } in
    if dir.i_size % 2 ^ g.cluster_bits == 0 then some (v, grown dir) else elim (fat_fs_error g v) [
      | none ↦ none
      | some v' ↦ some (
        v',
        grown (record dir {
          i_size = (dir.i_size + 2 ^ g.cluster_bits - 1) / 2 ^ g.cluster_bits * 2 ^ g.cluster_bits;
        }),
      )
    ]

-- The third stage, for the `nr_slots` entries from byte `from` on that the run has no place for.
unfoldable pub extend_dir :
    Device
    → Geometry
    → Bool
    → Option Errno
    → Disk
    → FatInode
    → (ℕ → ℕ)
    → ℕ
    → ℕ
    → ℕ
    → ℕ
    → ℕ
    → Result SlotInfo × Disk × FatInode
unfolding take_back grow_dir
extend_dir d g needs_sync sync_inode k dir slots from nr_slots total pos free_slots =
    let (added, k1) = fat_add_new_entries d g needs_sync k dir (λ i. slots (from + i)) nr_slots in
    elim added [
      | err e ↦ take_back d g e k1 dir pos free_slots
      | oops ↦ (oops, k1, dir)
      | ok (cluster, nr_cluster, a) ↦
          let (linked, dir', v) = fat_chain_add d g sync_inode cluster nr_cluster k1.vol dir in
          let k2 = record k1 { vol = v } in
          elim linked [
            | oops ↦ (oops, k2, dir')
            | err e ↦
                let (freed, v') = fat_free_clusters d g v cluster in
                elim freed [
                  | oops ↦ (oops, record k2 { vol = v' }, dir')
                  | ok _ ↦ take_back d g e (record k2 { vol = v' }) dir' pos free_slots
                  | err _ ↦ take_back d g e (record k2 { vol = v' }) dir' pos free_slots
                ]
            | ok _ ↦ elim (grow_dir g nr_cluster v dir') [
              | none ↦ (oops, k2, dir')
              | some (v', dir2) ↦ (
                ok (record {
                  i_pos = fat_make_i_pos g a;
                  slot_off = pos;
                  nr_slots = total;
                  here = a;
                }),
                record k2 { vol = v' },
                dir2,
              )
            ]
          ]
    ]

-- From the label `found` on, with the run and the last entry read, if there is one.
unfoldable pub place :
    Device
    → Geometry
    → Bool
    → Option Errno
    → Disk
    → FatInode
    → (ℕ → ℕ)
    → ℕ
    → Run
    → ℕ
    → Option Address
    → Result SlotInfo × Disk × FatInode
unfolding fill_run extend_dir
place d g needs_sync sync_inode k dir slots total r end last =
    let pos = end - r.free_slots * entry_size in
    let nr_slots = total - r.free_slots in
    let p : Part = record {
      disk = k;
      offset = pos % blocksize g;
      from = 0;
      size = r.free_slots * entry_size;
    } in
    let (e, p') = if r.free_slots == 0 then (none, p) else fill_run d g dir slots r nr_slots p in
    let extended =
      extend_dir d g needs_sync sync_inode p'.disk dir slots p'.from nr_slots total pos
        r.free_slots in
    elim e [
      | some x ↦ take_back d g x p'.disk dir pos r.free_slots
      | none ↦ if not (nr_slots == 0) then extended else elim last [
        | none ↦ (oops, p'.disk, dir)
        | some a ↦ (
          ok (record { i_pos = fat_make_i_pos g a; slot_off = pos; nr_slots = total; here = a }),
          p'.disk,
          dir,
        )
      ]
    ]

-- `slots` are the bytes of the `nr_slots` new entries, one at least. `needs_sync` is the answer of
-- `inode_needs_sync`, and `sync_inode` that of `fat_sync_inode`.
unfoldable pub fat_add_entries :
    Device
    → Geometry
    → Bool
    → Option Errno
    → Disk
    → FatInode
    → (ℕ → ℕ)
    → ℕ
    → Result SlotInfo × Disk × FatInode
unfolding place search_loop
fat_add_entries d g needs_sync sync_inode k dir slots nr_slots =
    let (s, k') = search_loop d g (rounds g dir) k dir nr_slots no_run at_start in
    elim s [
      | stuck ↦ (oops, k', dir)
      | too_large ↦ (err enospc, k', dir)
      | enough r pos a ↦ place d g needs_sync sync_inode k' dir slots nr_slots r pos (some a)
      | at_end r pos ↦
          if dir.is_root && not (g.fat_bits == 32)
          then (err enospc, k', dir)
          else if not dir.is_root && dir.i_start == 0
          then (err eio, k', dir)
          else place d g needs_sync sync_inode k' dir slots nr_slots r pos none
    ]
