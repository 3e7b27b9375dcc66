-- ===== src/Mount.antt =====
-- ATS/myfat/sb_mgr.c: mounting a volume.
pub mod Options
pub mod Early
pub mod Ready
pub mod Layout
pub mod Root
mod Tests
use ats_ldd.Base.{
  ℕ, ◌+◌, ◌-◌, ◌*◌, ◌/◌, ◌%◌, ◌^◌, min, Bool, true, false, not, ◌&&◌, List, [], Option, none, some,
  Result, ok, err, oops, and_then, eio, einval, enomem, if◌then◌else◌, ◌==◌, ltb, leb,
}
use ats_ldd.Fat.Volume.{Geometry, Device, Volume, OnError, undefined, start_ent}
use ats_ldd.Fat.Entry.{fat_ent_access_init}
use ats_ldd.Fat.Dir.{Disk}
use ats_ldd.Time.{Zone}
use ats_ldd.Inode.Fill.{VfsInode, InodeOptions, bits_of, fat_read_root}
use ats_ldd.Mount.Options.{Piece, MountOptions, Caller, parse_options}

-- `MAX_FAT32` of the FAT format, which `MAX_FAT` is on FAT32.
abbrev pub max_fat32 : ℕ
max_fat32 = 0x0ffffff6

-- The fields of `struct fat_boot_sector` that are read, as numbers.
pub record BootSector : Type 0 where
  pub sector_size : ℕ
  pub sec_per_clus : ℕ
  pub reserved : ℕ
  pub fats : ℕ
  pub dir_entries : ℕ
  pub sectors : ℕ
  pub media : ℕ
  pub fat_length : ℕ
  pub total_sect : ℕ
  pub fat32_length : ℕ
  pub root_cluster : ℕ
  pub info_sector : ℕ

-- `struct fat_boot_fsinfo`; `is_fsinfo` is `IS_FSINFO` of it.
pub record BootFsInfo : Type 0 where
  pub is_fsinfo : Bool
  pub free_clusters : ℕ
  pub next_cluster : ℕ

-- The functions of the kernel on numbers: `fat_valid_media`, `is_power_of_2` and `ffs`.
pub record Numbers : Type 0 where
  pub fat_valid_media : ℕ → Bool
  pub is_power_of_2 : ℕ → Bool
  pub ffs : ℕ → ℕ

-- What the kernel answers while a volume is mounted. `boot` is what `sb_bread` of block 0 gives with
-- blocks of a size, and `fsinfo` the same of a sector.
pub record Mounting : Type 0 where
  pub kzalloc : Bool
  pub min_blocksize : ℕ
  pub set_blocksize : Bool
  pub boot : ℕ → Option BootSector
  pub fsinfo : ℕ → ℕ → Option BootFsInfo
  pub load_nls_disk : Bool
  pub load_nls_io : Bool
  pub fat_inode : Bool
  pub root_inode : Option VfsInode
  pub d_alloc_root : Bool

-- The checks of the first block. The sector size is a `u16`.
unfoldable pub check_boot : Numbers → BootSector → Bool
check_boot num b =
    let size = b.sector_size % 2 ^ 16 in
    not (b.reserved == 0)
    && (not (b.fats == 0)
        && (num.fat_valid_media b.media
            && ((num.is_power_of_2 size && (leb 512 size && leb size 4096))
                && num.is_power_of_2 (b.sec_per_clus))))

-- The block size, which is that of the sectors, and the boot sector that is read with it.
unfoldable pub take_blocksize : Mounting → ℕ → BootSector → Result (ℕ × BootSector)
take_blocksize m size b =
    if ltb size m.min_blocksize
    then err eio
    else if ltb m.min_blocksize size
    then (if not m.set_blocksize
        then err eio
        else elim (m.boot size) [ none ↦ err eio | some b' ↦ ok (size, b') ])
    else ok (m.min_blocksize, b)

-- `free_clusters`, `free_clus_valid` and `prev_free`.
pub record FreeInfo : Type 0 where
  pub free_clusters : ℕ
  pub free_clus_valid : Bool
  pub prev_free : ℕ

abbrev pub no_info : FreeInfo
no_info = record { free_clusters = undefined; free_clus_valid = false; prev_free = start_ent }

-- `fsinfo_sector`, and what its sector says.
abbrev pub fsinfo_sector : BootSector → ℕ
fsinfo_sector b = if b.info_sector == 0 then 1 else b.info_sector

unfoldable pub read_fsinfo : Bool → BootFsInfo → FreeInfo
read_fsinfo usefree i = if not i.is_fsinfo then no_info else record {
  free_clusters = i.free_clusters % 2 ^ 32;
  free_clus_valid = usefree;
  prev_free = i.next_cluster % 2 ^ 32;
}

-- `dir_start`, and with it `data_start`, for blocks of `size` bytes and a table of `fat_length`.
abbrev pub data_start_of : ℕ → ℕ → BootSector → ℕ
data_start_of size fat_length b =
    (b.reserved + b.fats * fat_length + b.dir_entries * 32 / size % 2 ^ 32) % 2 ^ 64

-- `total_clusters` before and after it is bounded by the table.
unfoldable pub clusters_on_disk : ℕ → ℕ → ℕ → BootSector → ℕ
clusters_on_disk size spc fat_length b =
    let total_sectors = if b.sectors == 0 then b.total_sect else b.sectors in
    (total_sectors + 2 ^ 64 - data_start_of size fat_length b) % 2 ^ 64 / spc % 2 ^ 32

unfoldable pub total_clusters : ℕ → ℕ → ℕ → BootSector → ℕ
unfolding clusters_on_disk
total_clusters size spc fat_length b =
    let fat_clusters = fat_length * size * 8 % 2 ^ 64 / 32 % 2 ^ 32 in
    min (clusters_on_disk size spc fat_length b) ((fat_clusters + 2 ^ 32 - start_ent) % 2 ^ 32)

-- The checks of what was read.
unfoldable pub bound_info : ℕ → FreeInfo → FreeInfo
bound_info total i =
    let prev = i.prev_free % (total + start_ent) in
    record i {
      free_clusters =
          if not (i.free_clusters == undefined) && ltb total i.free_clusters
          then undefined
          else i.free_clusters;
      prev_free = if ltb prev start_ent then start_ent else prev;
    }

unfoldable pub geometry_of : Numbers → OnError → Bool → ℕ → ℕ → BootSector → ℕ → Geometry
unfolding fat_ent_access_init
geometry_of num errors synchronous size spc b total = fat_ent_access_init (record {
  blocksize_bits = num.ffs size - 1;
  spc_bits = num.ffs spc - 1;
  cluster_bits = num.ffs (size * spc % 2 ^ 32) - 1;
  fats = b.fats;
  fat_bits = 32;
  fatent_shift = 0;
  fat_start = b.reserved;
  fat_length = b.fat32_length;
  data_start = data_start_of size b.fat32_length b;
  max_cluster = total + start_ent;
  maxbytes = 0xffffffff;
  errors = errors;
  synchronous = synchronous;
})

-- From the cluster size to the checks: the geometry and what is known of free clusters. `spc` is the
-- number of sectors in a cluster.
unfoldable pub layout :
    Numbers → Mounting → MountOptions → Bool → ℕ → ℕ → BootSector → Result (Geometry × FreeInfo)
layout num m opts synchronous size spc b =
    let total = total_clusters size spc b.fat32_length b in
    let checked : FreeInfo → Result (Geometry × FreeInfo) = λ i.
      if not (b.dir_entries % (size / 32) == 0)
      then err einval
      else if ltb max_fat32 total
      then err einval
      else ok (geometry_of num opts.errors synchronous size spc b total, bound_info total i) in
    if b.fat_length == 0 && not (b.fat32_length == 0)
    then elim (m.fsinfo size (fsinfo_sector b)) [
      | none ↦ err eio
      | some i ↦ checked (read_fsinfo opts.usefree i)
    ]
    else err einval

-- The mounted volume.
pub record Mounted : Type 0 where
  pub geometry : Geometry
  pub options : MountOptions
  pub disk : Disk
  pub root : VfsInode

-- The options that an inode depends on; `sys_tz` is the time zone of the kernel.
unfoldable pub inode_options : Zone → MountOptions → InodeOptions
inode_options sys_tz o = record {
  modes = record { fs_fmask = bits_of o.fs_fmask; fs_dmask = bits_of o.fs_dmask; rodir = o.rodir };
  fs_uid = o.fs_uid;
  fs_gid = o.fs_gid;
  showexec = o.showexec;
  sys_immutable = o.sys_immutable;
  isvfat = o.isvfat;
  zone = if o.tz_utc then record { west = 0; east = 0 } else sys_tz;
}

-- The volume after the checks. `words` and `bytes` are what the disk holds, `rdonly` says whether it
-- is mounted read-only.
unfoldable pub mounted_disk : (ℕ → ℕ → ℕ) → (ℕ → ℕ → ℕ) → Bool → FreeInfo → Disk
mounted_disk words bytes rdonly i = record {
  vol = record {
    word = words;
    dirty = [];
    discards = [];
    prev_free = i.prev_free;
    free_clusters = i.free_clusters;
    free_clus_valid = i.free_clus_valid;
    s_dirt = false;
    rdonly = rdonly;
  };
  byte = bytes;
  marks = [];
}

-- What stands after `fat_read_root`.
unfoldable pub with_root :
    Mounting → Geometry → MountOptions → Result (Unit {0}) × VfsInode × Disk → Result Mounted
with_root m g opts (ok _, root, k) =
    if not m.d_alloc_root
    then err enomem
    else ok (record { geometry = g; options = opts; disk = k; root = root })
with_root m g opts (err e, root, k) = err e
with_root m g opts (oops, root, k) = oops

-- From `load_nls` on: the inode of the root.
unfoldable pub mount_root :
    Device → Mounting → Zone → Geometry → MountOptions → ℕ → Disk → Result Mounted
mount_root d m sys_tz g opts root_cluster k =
    if not m.load_nls_disk
    then err einval
    else if opts.isvfat && not m.load_nls_io
    then err einval
    else if not m.fat_inode
    then err enomem
    else elim (m.root_inode) [
      | none ↦ err enomem
      | some i ↦ with_root m g opts (fat_read_root d g (inode_options sys_tz opts) root_cluster k i)
    ]

unfoldable pub fat_fill_super :
    Device
    → Numbers
    → Mounting
    → Zone
    → Caller
    → Bool
    → Bool
    → Bool
    → Option (List Piece)
    → (ℕ → ℕ → ℕ)
    → (ℕ → ℕ → ℕ)
    → Result Mounted
fat_fill_super d num m sys_tz c synchronous rdonly isvfat options words bytes =
    if not m.kzalloc
    then err enomem
    else and_then (parse_options c isvfat options) λ opts. elim (m.boot m.min_blocksize) [
      | none ↦ err eio
      | some b ↦
          if not (check_boot num b)
          then err einval
          else and_then (take_blocksize m (b.sector_size % 2 ^ 16) b) λ (size, b').
            and_then (layout num m opts synchronous size b.sec_per_clus b') λ (g, i).
              mount_root d m sys_tz g opts b'.root_cluster (mounted_disk words bytes rdonly i)
    ]
