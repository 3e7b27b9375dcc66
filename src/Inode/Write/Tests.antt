-- ===== src/Inode/Write/Tests.antt =====
-- Writing out and building the inode of a file, on blocks of two entries.
use ats_ldd.Base.{
  ℕ, ◌+◌, ◌*◌, ◌^◌, ◌≤◌, ◌<◌, ◌≡◌, ◌≢◌, ◌⊎◌, refl, true, false, [], ◌∷◌, ok, err, eio, enomem,
  Option, none, some, ltb, ◌==◌, ◌%◌, arith,
}
use ats_ldd.Fat.Volume.{Geometry, Device, errors_cont, written, undefined}
use ats_ldd.Fat.Dir.{Disk, attr_at, entry_size, fat_make_i_pos}
use ats_ldd.Time.{fat_time_unix2fat, fat_time_fat2unix}
use ats_ldd.Fat.Fresh.{copy_bytes}
use ats_ldd.Inode.{fat_iget, s_isdir, s_ifreg, fat_make_attrs, fat_mode_can_hold_ro, any_write}
use ats_ldd.Inode.Fill.{VfsInode, InodeOptions, file_ops, fat_fill_inode, epoch}
use ats_ldd.Fat.Unlink.{mark}
use ats_ldd.Inode.Write.{answer, fat_write_inode, fat_sync_inode, number_of}
use ats_ldd.Inode.Find.{Fresh}
use ats_ldd.Inode.Build.{Inodes, fat_build_inode, fat_build_inode-twice}
use ats_ldd.Inode.Write.Again.{fat_write_inode-fat_fill_inode}

abbrev device : Device
device = record {
  bread = λ b. ltb b 9;
  getblk = λ b. true;
  write = λ b. written;
  sync_dirty = λ b. none;
  max_buf = 8;
}

abbrev geometry : Geometry
geometry = record {
  blocksize_bits = 6;
  spc_bits = 0;
  cluster_bits = 6;
  fats = 2;
  fat_bits = 32;
  fatent_shift = 2;
  fat_start = 1;
  fat_length = 1;
  data_start = 3;
  max_cluster = 8;
  maxbytes = 255;
  errors = errors_cont;
  synchronous = false;
}

abbrev options : InodeOptions
options = record {
  modes = record { fs_fmask = λ i. false; fs_dmask = λ i. false; rodir = false };
  fs_uid = 0;
  fs_gid = 0;
  showexec = false;
  sys_immutable = false;
  isvfat = true;
  zone = record { west = 0; east = 0 };
}

abbrev disk : Disk
disk = record {
  vol = record {
    word = λ b o. 0;
    dirty = [];
    discards = [];
    prev_free = 2;
    free_clusters = undefined;
    free_clus_valid = false;
    s_dirt = false;
    rdonly = false;
  };
  byte = λ b o. 65;
  marks = [];
}

-- The inode of the second entry of block 5.
abbrev file : VfsInode
file = record {
  node = record {
    i_start = 70000;
    i_logstart = 70000;
    i_size = 1234567;
    i_blocks = 0;
    mmu_private = 0;
    nr_caches = 0;
    cache_valid_id = 1;
    is_root = false;
    is_dir = false;
    is_dirsync = false;
  };
  i_pos = 11;
  i_uid = 0;
  i_gid = 0;
  i_version = 1;
  i_generation = 0;
  i_mode = s_ifreg;
  i_attrs = λ i. i == 5;
  i_immutable = false;
  i_nlink = 1;
  i_mtime = record { tv_sec = 1300000000; tv_nsec = 0 };
  i_atime = epoch;
  i_ctime = epoch;
  ops = file_ops;
}

-- The attributes, the number of the first cluster and the size, in the entry.
written_bytes :
    (let k = (fat_write_inode device geometry options true [] file disk).1 in
      (k.byte 5 43 ≡ 33)
      × (k.byte 5 52 ≡ 1)
      × (k.byte 5 58 ≡ 112)
      × (k.byte 5 59 ≡ 17)
      × (k.byte 5 60 ≡ 135)
      × (k.byte 5 31 ≡ 65)
      × (k.byte 5 64 ≡ 65))
unfolding fat_write_inode mark copy_bytes number_of fat_make_attrs s_isdir s_ifreg
    fat_mode_can_hold_ro any_write
written_bytes = (refl, refl, refl, refl, refl, refl, refl)

-- The inode was moved to an entry of a block that cannot be read.
moved_away : (fat_sync_inode device geometry options (30 ∷ []) file disk).0 ≡ err eio
unfolding fat_sync_inode
moved_away = refl

no_dir : s_isdir s_ifreg ≡ false
unfolding s_isdir s_ifreg
no_dir = refl

position : 11 ≡ fat_make_i_pos geometry (5, 1 * entry_size)
unfolding fat_make_i_pos
position = refl

fat_write_inode-fat_fill_inode_example :
    (let (r, k') = fat_write_inode device geometry options true [] file disk in
      let (r', i', k'') = fat_fill_inode device geometry options 7 k' file (5, 1 * entry_size) in
      (r ≡ answer none)
      × ((b' o' : ℕ)
          → (◌≢◌ {A = ℕ} 5 b') ⊎ ((o' < 1 * entry_size) ⊎ (1 * entry_size + entry_size ≤ o'))
          → k'.byte b' o' ≡ 65)
      × (r' ≡ ok tt)
      × (k'' ≡ k')
      × (i'.node.i_start ≡ 70000)
      × (i'.node.i_logstart ≡ 70000)
      × (i'.node.i_size ≡ 1234567)
      × (i'.i_mtime
          ≡ fat_time_fat2unix
              (options.zone)
              (record (fat_time_unix2fat (options.zone) (file.i_mtime)) { time_cs = 0 }))
      × (i'.ops ≡ file_ops))
fat_write_inode-fat_fill_inode_example =
    fat_write_inode-fat_fill_inode device geometry options true file disk 5 1 7 file refl
      (omega arith) position (omega arith) refl refl no_dir refl (omega arith) (omega arith)

abbrev no_inodes : Inodes
no_inodes = record {
  table = record { bucket = λ h. []; i_pos = λ i. 0; i_count = λ i. 0; igrab = λ i. true };
  content = λ i. file;
}

abbrev hash : ℕ → ℕ
hash pos = pos % 2 ^ 8

built :
    (fat_build_inode device geometry options hash 7 (some (4, file)) no_inodes disk (5, 32) 11).0
    ≡ ok 4
unfolding fat_build_inode fat_iget fat_fill_inode attr_at
built = refl

no_memory :
    (fat_build_inode device geometry options hash 7 none no_inodes disk (5, 32) 11).0 ≡ err enomem
unfolding fat_build_inode fat_iget
no_memory = refl

new-Fresh :
    (i : ℕ) (inode : VfsInode)
    → ◌≡◌ {A = Option (ℕ × VfsInode)} (some (4, file)) (some (i, inode))
    → Fresh (no_inodes.table) i × (no_inodes.table.igrab i ≡ true)
new-Fresh i inode e = ((λ h. refl), refl)

fat_build_inode-twice_example :
    (let t1 =
        (fat_build_inode device geometry options hash 7
          (some (4, file))
          no_inodes
          disk
          (5, 32)
          11).1 in
      let (r, t2, k2) = fat_build_inode device geometry options hash 8 none t1 disk (5, 32) 11 in
      ((fat_iget hash (t1.table) 11).0 ≡ some 4)
      × (r ≡ ok 4)
      × (t2 ≡ record t1 { table = (fat_iget hash (t1.table) 11).1 })
      × (k2 ≡ disk))
fat_build_inode-twice_example =
    fat_build_inode-twice device geometry options hash 7 8 (some (4, file)) none no_inodes disk disk
      (5, 32) (5, 32) 11 4 new-Fresh built
