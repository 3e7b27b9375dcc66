-- ===== src/Inode/Fill.antt =====
-- ATS/myfat/fat_inode.c: what an inode is filled with, from the directory entry of a file or for
-- the root directory.
pub mod Root
use ats_ldd.Base.{
  ℕ, zero, suc, ◌+◌, ◌-◌, ◌*◌, ◌/◌, ◌%◌, ◌^◌, Bool, true, false, not, ◌&&◌, ◌||◌, List, [], ◌∷◌,
  Result, ok, err, oops, if◌then◌else◌, ◌==◌, ltb,
}
use ats_ldd.Fat.Volume.{Geometry, Device, Volume, ent_eof}
use ats_ldd.Fat.Cluster.{FatInode, fat_get_cluster}
use ats_ldd.Fat.Dir.{Disk, Address, is_free, attr_at, same_name, fat_subdirs}
use ats_ldd.Time.{Zone, Timespec, FatTime, fat_time_fat2unix}
use ats_ldd.Inode.{Bits, Options, dir_bit, s_irwxugo, s_iruwugo, fat_make_mode, fat_save_attrs}

-- `inode->i_op` and `i_fop`
pub data Operations : Type 0 where
  dir_ops file_ops : Operations

-- `struct inode` and `struct fat_inode_info`; the part that the cluster code reads is `node`.
pub record VfsInode : Type 0 where
  pub node : FatInode
  pub i_pos : ℕ
  pub i_uid : ℕ
  pub i_gid : ℕ
  pub i_version : ℕ
  pub i_generation : ℕ
  pub i_mode : Bits
  pub i_attrs : Bits
  pub i_immutable : Bool
  pub i_nlink : ℕ
  pub i_mtime : Timespec
  pub i_atime : Timespec
  pub i_ctime : Timespec
  pub ops : Operations

-- The options that an inode depends on, next to those of its mode.
pub record InodeOptions : Type 0 where
  pub modes : Options
  pub fs_uid : ℕ
  pub fs_gid : ℕ
  pub showexec : Bool
  pub sys_immutable : Bool
  pub isvfat : Bool
  pub zone : Zone

-- An `int` that is stored in a `loff_t`, by their bits.
unfoldable pub sign_extended : ℕ → ℕ
sign_extended x = let w = x % 2 ^ 32 in if ltb w (2 ^ 31) then w else w + (2 ^ 64 - 2 ^ 32)

-- The size of a directory is that of all its clusters.
unfoldable pub fat_calc_dir_size :
    Device → Geometry → Volume → FatInode → Result (Unit {0}) × FatInode × Volume
unfolding sign_extended
fat_calc_dir_size d g v node =
    let empty = record node { i_size = 0 } in
    if node.i_start == 0
    then (ok tt, empty, v)
    else (let (ret, fclus, dclus, v') = fat_get_cluster d g v empty ent_eof in
        elim ret [
          | err e ↦ (err e, empty, v')
          | oops ↦ (oops, empty, v')
          | ok _ ↦ (
            ok tt,
            record empty { i_size = sign_extended ((fclus + 1) * 2 ^ g.cluster_bits) },
            v',
          )
        ])

-- The blocks of 512 bytes in the clusters of the file.
abbrev pub blocks_of : Geometry → ℕ → ℕ
blocks_of g size =
    (size + (2 ^ g.cluster_bits - 1)) / 2 ^ g.cluster_bits * 2 ^ g.cluster_bits / 2 ^ 9

-- `ATTR_DIR` as an attribute byte, and the attribute byte `n`.
abbrev pub attr_dir : Bits
attr_dir i = i == dir_bit

abbrev pub bits_of : ℕ → Bits
bits_of n i = n / 2 ^ i % 2 == 1

abbrev pub epoch : Timespec
epoch = record { tv_sec = 0; tv_nsec = 0 }

-- The inode as far as `fat_read_root` sets it before the size, on FAT32.
unfoldable pub root_start : InodeOptions → ℕ → VfsInode → VfsInode
root_start opt root_cluster i = record i {
  i_pos = 0;
  i_uid = opt.fs_uid;
  i_gid = opt.fs_gid;
  i_version = (i.i_version + 1) % 2 ^ 64;
  i_generation = 0;
  i_mode = fat_make_mode (opt.modes) attr_dir s_irwxugo;
  ops = dir_ops;
  node = record (i.node) { i_start = root_cluster };
}

unfoldable pub root_end : Geometry → InodeOptions → VfsInode → VfsInode
root_end g opt i = record i {
  node = record (i.node) {
    i_blocks = blocks_of g i.node.i_size;
    i_logstart = 0;
    mmu_private = i.node.i_size;
  };
  i_attrs = fat_save_attrs (opt.modes) (i.i_mode) attr_dir;
  i_mtime = epoch;
  i_atime = epoch;
  i_ctime = epoch;
}

-- The root directory of a FAT32 volume.
unfoldable pub fat_read_root :
    Device → Geometry → InodeOptions → ℕ → Disk → VfsInode → Result (Unit {0}) × VfsInode × Disk
unfolding root_start root_end fat_calc_dir_size
fat_read_root d g opt root_cluster k inode =
    let i1 = root_start opt root_cluster inode in
    let (r, node, v) = fat_calc_dir_size d g k.vol i1.node in
    let i2 = record i1 { node = node } in
    let k1 = record k { vol = v } in
    let i3 = root_end g opt i2 in
    let (count, k2) = fat_subdirs d g k1 i3.node in
    elim r [
      | err e ↦ (err e, i2, k1)
      | oops ↦ (oops, i2, k1)
      | ok _ ↦ elim count [
        | ok n ↦ (ok tt, record i3 { i_nlink = n + 2 }, k2)
        | err e ↦ (oops, i3, k2)
        | oops ↦ (oops, i3, k2)
      ]
    ]

-- Little-endian words of an entry.
unfoldable pub le16 : Disk → Address → ℕ → ℕ
le16 k a o = k.byte a.0 (a.1 + o) + k.byte a.0 (a.1 + (o + 1)) * 2 ^ 8

unfoldable pub le32 : Disk → Address → ℕ → ℕ
unfolding le16
le32 k a o = le16 k a o + le16 k a (o + 2) * 2 ^ 16

-- Whether the extension at `a` is "EXE", "COM" or "BAT".
unfoldable pub is_exec : Disk → Address → Bool
is_exec k a =
    same_name k a.0 (a.1 + 8) 3 (69 ∷ 88 ∷ 69 ∷ [])
    || (same_name k a.0 (a.1 + 8) 3 (67 ∷ 79 ∷ 77 ∷ [])
        || same_name k a.0 (a.1 + 8) 3 (66 ∷ 65 ∷ 84 ∷ []))

-- `de->start`, and `de->starthi` on FAT32.
unfoldable pub start_of : Geometry → Disk → Address → ℕ
unfolding le16
start_of g k a = le16 k a 26 + (if g.fat_bits == 32 then le16 k a 20 * 2 ^ 16 else 0)

-- The end of `fat_fill_inode`: flags, attributes, blocks and times.
unfoldable pub fill_end : Geometry → InodeOptions → Disk → Address → VfsInode → VfsInode
unfolding le16
fill_end g opt k a i =
    let attrs = bits_of (attr_at k a) in
    let time = λ (t date cs : ℕ).
      fat_time_fat2unix (opt.zone) (record { time = t; date = date; time_cs = cs }) in
    let mtime = time (le16 k a 22) (le16 k a 24) 0 in
    record i {
      node = record (i.node) { i_blocks = blocks_of g i.node.i_size };
      i_immutable = i.i_immutable || (attrs 2 && opt.sys_immutable);
      i_attrs = fat_save_attrs (opt.modes) (i.i_mode) attrs;
      i_mtime = mtime;
      i_ctime =
          if opt.isvfat then time (le16 k a 14) (le16 k a 16) (k.byte a.0 (a.1 + 13)) else mtime;
      i_atime = if opt.isvfat then time 0 (le16 k a 18) 0 else mtime;
    }

-- The inode of the entry at `a`. `seconds` is what `get_seconds` answers.
unfoldable pub fat_fill_inode :
    Device
    → Geometry
    → InodeOptions
    → ℕ
    → Disk
    → VfsInode
    → Address
    → Result (Unit {0}) × VfsInode × Disk
unfolding fill_end start_of le32 is_exec fat_calc_dir_size
fat_fill_inode d g opt seconds k inode a =
    let attrs = bits_of (attr_at k a) in
    let start = start_of g k a in
    let i1 = record inode {
      i_pos = 0;
      i_uid = opt.fs_uid;
      i_gid = opt.fs_gid;
      i_version = (inode.i_version + 1) % 2 ^ 64;
      node = record (inode.node) { i_start = start; i_logstart = start };
    } in
    let dir = record i1 {
      i_generation = seconds % 2 ^ 32 / 2 * 2;
      i_mode = fat_make_mode (opt.modes) attrs s_irwxugo;
      ops = dir_ops;
    } in
    let (r, node, v) = fat_calc_dir_size d g k.vol dir.node in
    let k1 = record k { vol = v } in
    let sized = record dir { node = record node { mmu_private = node.i_size } } in
    let (count, k2) = fat_subdirs d g k1 sized.node in
    let size = le32 k a 28 in
    let file = record i1 {
      i_generation = seconds % 2 ^ 32 / 2 * 2 + 1;
      i_mode =
          fat_make_mode (opt.modes) attrs
            (if opt.showexec && not (is_exec k a) then s_iruwugo else s_irwxugo);
      ops = file_ops;
      node = record (i1.node) { i_size = size; mmu_private = size };
    } in
    if attrs dir_bit && not (is_free k a)
    then elim r [
      | err e ↦ (err e, record dir { node = node }, k1)
      | oops ↦ (oops, record dir { node = node }, k1)
      | ok _ ↦ elim count [
        | ok n ↦ (ok tt, fill_end g opt k2 a (record sized { i_nlink = n }), k2)
        | err e ↦ (oops, sized, k2)
        | oops ↦ (oops, sized, k2)
      ]
    ]
    else (ok tt, fill_end g opt k a file, k)
