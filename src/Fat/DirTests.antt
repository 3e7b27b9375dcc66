-- ===== src/Fat/DirTests.antt =====
-- A small directory on which the walks, the removal and the entering run: three blocks of two
-- entries, with a file, a deleted entry, a directory and three entries that were never used.
use ats_ldd.Base.{
  ℕ, zero, suc, ◌+◌, ◌-◌, ◌*◌, ◌^◌, ◌<◌, ◌≡◌, refl, true, false, ◌&&◌, List, [], ◌∷◌, ok, err,
  enoent, none, some, if◌then◌else◌, ◌==◌, ltb, get_or, arith,
}
use ats_ldd.Fat.Volume.{Geometry, Device, Volume, errors_cont, written, ent_eof, fat_sync_bhs}
use ats_ldd.Fat.Entry.{entry_value, fat_ent_read_block, fat32_ent_get, fat_ent_next, fat32_ent_put}
use ats_ldd.Fat.Mirror.{sync_and_mirror, fat_collect_bhs, fat_mirror_bhs, mirror_loop, copy_blocks}
use ats_ldd.Fat.Entry.Table.{table, InRange}
use ats_ldd.Fat.Chain.{Chain, last, link}
use ats_ldd.Fat.Alloc.{fat_alloc_clusters, alloc_loop, start_scan, scan_block, visit}
use ats_ldd.Fat.Cluster.{FatInode, fat_clus_to_blknr}
use ats_ldd.Fat.Cluster.Blocks.{HasChain}
use ats_ldd.Fat.Dir.{Disk, SlotInfo, fat_scan, fat_subdirs, is_free, is_short, attr_at, same_name}
use ats_ldd.Fat.Dir.Slots.{IsMapped, HasChain-IsMapped, chain_blocks, slot_at, entry_count}
use ats_ldd.Fat.Dir.First.{first, both, count_if}
use ats_ldd.Fat.Dir.Search.{
  short_at, named_at, dir_at, slot_info, fat_scan_first, fat_subdirs_count,
}
use ats_ldd.Fat.Unlink.{Stamp, fat_remove_entries, sync_dir}
use ats_ldd.Fat.Unlink.Wipe.{hit, Syncs}
use ats_ldd.Fat.Unlink.Removed.{stamped, fat_remove_entries_wipes}
use ats_ldd.Fat.Unlink.Gone.{fat_scan-removed}
use ats_ldd.Fat.Fresh.{fat_alloc_new_dir, sync_bhs}
use ats_ldd.Fat.Fresh.Blank.{
  Gets, in_blocks, IsDotEntry, dot_name, dot_dot_name, fat_alloc_new_dir_blank,
}
use ats_ldd.Fat.Link.{fat_add_entries}
use ats_ldd.Fat.Link.Placed.{free_at, with_entry, fat_add_entries_first_free}
use ats_ldd.Fat.Link.Entered.{fat_scan-added}
use ats_ldd.Time.{FatTime}
use ats_ldd.Inode.Fill.{VfsInode, InodeOptions, file_ops, fat_read_root}
use ats_ldd.Inode.Fill.Root.{DirChain, fat_read_root-HasChain}

abbrev disk : Geometry
disk = record {
  blocksize_bits = 6;
  spc_bits = 0;
  cluster_bits = 6;
  fats = 2;
  fat_bits = 32;
  fatent_shift = 2;
  fat_start = 1;
  fat_length = 1;
  data_start = 5;
  max_cluster = 8;
  maxbytes = 2 ^ 8 - 1;
  errors = errors_cont;
  synchronous = false;
}

abbrev device : Device
device = record {
  bread = λ b. true;
  getblk = λ b. true;
  write = λ b. written;
  sync_dirty = λ b. none;
  max_buf = 8;
}

abbrev volume : Volume
volume = record {
  word = λ b o. if o == 8 then 3 else if o == 12 then 5 else if o == 20 then ent_eof else 0;
  dirty = [];
  discards = [];
  prev_free = 2;
  free_clusters = 3;
  free_clus_valid = true;
  s_dirt = false;
  rdonly = false;
}

abbrev dir : FatInode
dir = record {
  i_start = 2;
  i_logstart = 2;
  i_size = 192;
  i_blocks = 0;
  mmu_private = 192;
  nr_caches = 0;
  cache_valid_id = 1;
  is_root = false;
  is_dir = true;
  is_dirsync = false;
}

-- The name of one letter, and the entry with it.
abbrev letter : ℕ → List ℕ
letter c = c ∷ 32 ∷ 32 ∷ 32 ∷ 32 ∷ 32 ∷ 32 ∷ 32 ∷ 32 ∷ 32 ∷ 32 ∷ []

abbrev entry_of : ℕ → ℕ → ℕ → ℕ
entry_of c attr o = if o == 11 then attr else get_or (letter c) o 0

abbrev before_run : Disk
before_run = record {
  vol = volume;
  byte = λ b o.
      if b == 5
      then (if ltb o 32 then entry_of 65 32 o else if o == 32 then 229 else 0)
      else if b == 6 && ltb o 32
      then entry_of 66 16 o
      else 0;
  marks = [];
}

abbrev blocks : ℕ → ℕ
blocks = chain_blocks disk (2 ∷ 3 ∷ 5 ∷ [])

dir-Chain : Chain (table disk volume) 2 (2 ∷ 3 ∷ 5 ∷ [])
unfolding table entry_value
dir-Chain =
    link refl (omega arith) (omega arith) (link refl (omega arith) (omega arith) (last refl))

dir_inside : (i : ℕ) → i < 3 → InRange disk (get_or (2 ∷ 3 ∷ 5 ∷ []) i 0)
dir_inside zero h = (omega arith, omega arith)
dir_inside (suc zero) h = (omega arith, omega arith)
dir_inside (suc (suc zero)) h = (omega arith, omega arith)
dir_inside (suc (suc (suc i))) h = absurd (omega arith)

dir-IsMapped : IsMapped device disk volume dir blocks
dir-IsMapped =
    HasChain-IsMapped device disk volume dir (2 ∷ 3 ∷ 5 ∷ []) (λ b. refl)
      (record {
        fat32 = record { shift = refl; bits = refl; big_blocks = omega arith; few = omega arith };
        bits = refl;
        fits = omega arith;
        unit = omega arith;
      })
      (record {
        some_cluster = omega arith;
        chain = dir-Chain;
        short = omega arith;
        inside = dir_inside;
        sized = omega arith;
      })
      (omega arith) (omega arith)

fat_scan_first_example : fat_scan device disk before_run dir (letter 66) ≡ (
  elim (first
      (both (short_at disk blocks before_run) (named_at disk blocks before_run (letter 66)))
      0
      6) [ none ↦ err enoent | some j ↦ ok (slot_info disk blocks j) ],
  before_run,
)
fat_scan_first_example = fat_scan_first device disk before_run dir blocks (letter 66) dir-IsMapped

scanned :
    fat_scan device disk before_run dir (letter 66) ≡ (ok (slot_info disk blocks 2), before_run)
unfolding is_short is_free attr_at same_name slot_at
scanned = fat_scan_first_example

not_scanned : fat_scan device disk before_run dir (letter 67) ≡ (err enoent, before_run)
unfolding is_short is_free attr_at same_name slot_at
not_scanned = fat_scan_first device disk before_run dir blocks (letter 67) dir-IsMapped

fat_subdirs_count_example : fat_subdirs device disk before_run dir ≡ (
  ok (count_if (both (short_at disk blocks before_run) (dir_at disk blocks before_run)) 0 6),
  before_run,
)
fat_subdirs_count_example = fat_subdirs_count device disk before_run dir blocks dir-IsMapped

one_subdir : fat_subdirs device disk before_run dir ≡ (ok 1, before_run)
unfolding is_short is_free attr_at slot_at
one_subdir = fat_subdirs_count_example

dir-Syncs : Syncs device dir
unfolding sync_dir
dir-Syncs b = refl

abbrev fresh_stamp : Stamp
fresh_stamp = record { i_version = 1; i_mtime = 0; i_atime = 0; flushes = [] }

-- A file of two entries in two blocks.
abbrev two_slots : SlotInfo
two_slots = record { i_pos = 12; slot_off = 32; nr_slots = 2; here = slot_at disk blocks 2 }

fat_remove_entries_wipes_example :
    (let r = fat_remove_entries device disk 99 before_run dir fresh_stamp two_slots in
      (r.0 ≡ ok 0)
      × (r.2 ≡ stamped dir 99 fresh_stamp)
      × (r.1.vol ≡ volume)
      × ((b o : ℕ)
          → r.1.byte b o
            ≡ (if hit (slot_at disk blocks) (2 + 1 - 2) 2 b o then 229 else before_run.byte b o)))
fat_remove_entries_wipes_example =
    fat_remove_entries_wipes device disk 99 before_run dir blocks fresh_stamp two_slots 2 2
      dir-IsMapped dir-Syncs (record { last = refl; first = refl; many = refl }) (omega arith)
      (omega arith)

fat_scan-removed_example :
    (let k' =
        (fat_remove_entries device disk 99 before_run dir fresh_stamp
          (slot_info disk blocks 2)).1 in
      fat_scan device disk k' dir (letter 66) ≡ (
        elim (first
            (both (short_at disk blocks before_run) (named_at disk blocks before_run (letter 66)))
            3
            (6 - 3)) [ none ↦ err enoent | some i ↦ ok (slot_info disk blocks i) ],
        k',
      ))
fat_scan-removed_example =
    fat_scan-removed device disk 99 before_run dir blocks fresh_stamp (letter 66) 2 dir-IsMapped
      dir-Syncs scanned

first_free : first (free_at disk blocks before_run) 0 6 ≡ some 1
unfolding is_free slot_at
first_free = refl

fat_add_entries_first_free_example :
    fat_add_entries device disk true none before_run dir (entry_of 67 32) 1
    ≡ (ok (slot_info disk blocks 1), with_entry disk blocks before_run (entry_of 67 32) 1, dir)
fat_add_entries_first_free_example =
    fat_add_entries_first_free device disk true none before_run dir blocks (entry_of 67 32) 1
      dir-IsMapped dir-Syncs (omega arith) first_free

spelled : (u : ℕ) → u < 11 → entry_of 67 32 u ≡ get_or (letter 67) u 0
spelled u h = ground arith

fat_scan-added_example :
    (let (r, k', dir') = fat_add_entries device disk true none before_run dir (entry_of 67 32) 1 in
      fat_scan device disk k' dir' (letter 67) ≡ (r, k'))
fat_scan-added_example =
    fat_scan-added device disk true none before_run dir blocks (entry_of 67 32) (letter 67) 1
      dir-IsMapped dir-Syncs (omega arith)
      (record {
        used = omega arith;
        kept = omega arith;
        short = refl;
        full = refl;
        spelled = spelled;
      })
      not_scanned first_free

abbrev noon : FatTime
noon = record { time = 24576; date = 33; time_cs = 0 }

dir-Gets : Gets device dir
unfolding sync_bhs
dir-Gets = record { gets = λ b. refl; syncs = λ bhs. refl }

allocated : (v : Volume) × (fat_alloc_clusters device disk volume true 1 ≡ (ok (4 ∷ []), v))
unfolding fat_alloc_clusters alloc_loop start_scan fat_ent_read_block scan_block visit fat32_ent_get
    entry_value fat_ent_next fat32_ent_put sync_and_mirror fat_sync_bhs fat_collect_bhs
    fat_mirror_bhs mirror_loop copy_blocks
allocated = ((fat_alloc_clusters device disk volume true 1).1, refl)

fat_alloc_new_dir_blank_example :
    (let (r, k') = fat_alloc_new_dir device disk true false noon before_run dir in
      let first_block = fat_clus_to_blknr disk 4 in
      (r ≡ ok 4)
      × (k'.vol ≡ allocated.0)
      × IsDotEntry false noon k' (first_block, 0) dot_name 4
      × IsDotEntry false noon k' (first_block, 32) dot_dot_name 2
      × ((b o : ℕ)
          → (first_block == b && ltb o 64) ≡ false
          → k'.byte b o ≡ (if in_blocks disk first_block 1 b o then 0 else before_run.byte b o)))
fat_alloc_new_dir_blank_example =
    fat_alloc_new_dir_blank device disk true false noon before_run dir 4 allocated.0 dir-Gets
      (omega arith) (omega arith) (omega arith) (omega arith) (omega arith) (omega arith)
      allocated.1

abbrev plain : InodeOptions
plain = record {
  modes = record { fs_fmask = λ i. false; fs_dmask = λ i. false; rodir = false };
  fs_uid = 0;
  fs_gid = 0;
  showexec = false;
  sys_immutable = false;
  isvfat = false;
  zone = record { west = 0; east = 0 };
}

abbrev new_inode : VfsInode
new_inode = record {
  node = record dir { i_start = 0; i_size = 0 };
  i_pos = 0;
  i_uid = 0;
  i_gid = 0;
  i_version = 1;
  i_generation = 0;
  i_mode = λ i. false;
  i_attrs = λ i. false;
  i_immutable = false;
  i_nlink = 1;
  i_mtime = record { tv_sec = 0; tv_nsec = 0 };
  i_atime = record { tv_sec = 0; tv_nsec = 0 };
  i_ctime = record { tv_sec = 0; tv_nsec = 0 };
  ops = file_ops;
}

dir-DirChain : DirChain disk volume 2 (2 ∷ 3 ∷ 5 ∷ [])
dir-DirChain = record {
  chain = dir-Chain;
  some_cluster = omega arith;
  inside = dir_inside;
  short = omega arith;
  few = omega arith;
  small = omega arith;
}

fat_read_root-HasChain_example :
    (let (r, i', k') = fat_read_root device disk plain 2 before_run new_inode in
      (r ≡ ok tt)
      × (k' ≡ before_run)
      × (i'.node.i_size ≡ 3 * 2 ^ 6)
      × HasChain disk volume i'.node (2 ∷ 3 ∷ 5 ∷ [])
      × (i'.i_nlink
          ≡ count_if
              (both (short_at disk blocks before_run) (dir_at disk blocks before_run))
              0
              (entry_count disk i'.node)
            + 2))
fat_read_root-HasChain_example =
    fat_read_root-HasChain device disk plain 2 before_run new_inode (2 ∷ 3 ∷ 5 ∷ []) (λ b. refl)
      (record {
        fat32 = record { shift = refl; bits = refl; big_blocks = omega arith; few = omega arith };
        bits = refl;
        fits = omega arith;
        unit = omega arith;
      })
      (omega arith) (omega arith) dir-DirChain
