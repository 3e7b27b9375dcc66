-- ===== src/Fat/Cluster.antt =====
-- ATS/myfat/fat_cache.c and fat_cache.h: from the clusters of a file to those of the disk.
pub mod Locate
pub mod Blocks
use ats_ldd.Base.{
  ℕ, zero, suc, ◌+◌, ◌-◌, ◌*◌, ◌^◌, ◌%◌, ◌/◌, Bool, true, false, Result, ok, err, oops, Option,
  none, some, if◌then◌else◌, ◌==◌, ltb, leb,
}
use ats_ldd.Fat.Volume.{
  Geometry, Device, Volume, blocksize, sec_per_clus, fs_error_eio, ent_free, ent_eof, start_ent,
}
use ats_ldd.Fat.Entry.{fatent_next_sb}

-- `struct fat_inode_info` with the fields of its `vfs_inode` that the driver reads.
pub record FatInode : Type 0 where
  pub i_start : ℕ
  pub i_logstart : ℕ
  pub i_size : ℕ
  pub i_blocks : ℕ
  pub mmu_private : ℕ
  pub nr_caches : ℕ
  pub cache_valid_id : ℕ
  pub is_root : Bool
  pub is_dir : Bool
  pub is_dirsync : Bool

-- The cache of a file is emptied, and its copies lose their identifier; 0 is kept for "valid".
unfoldable pub fat_cache_inval_inode : FatInode → FatInode
fat_cache_inval_inode i =
    let id = (i.cache_valid_id + 1) % 2 ^ 32 in
    record i { nr_caches = 0; cache_valid_id = if id == 0 then (id + 1) % 2 ^ 32 else id }

-- The most clusters that a file can have.
abbrev pub limit : Geometry → ℕ
limit g = g.maxbytes / 2 ^ g.cluster_bits

-- `ret`, `*fclus`, `*dclus`, and the volume.
abbrev pub Located : Type 0
Located = Result ℕ × ℕ × ℕ × Volume

-- The loop of `fat_get_cluster`, on the rounds that are left: `*fclus` grows by one in each.
pub cluster_loop : Device → Geometry → Volume → ℕ → ℕ → ℕ → Located
cluster_loop d g v zero fclus dclus = (ok 0, fclus, dclus, v)
cluster_loop d g v (suc n) fclus dclus =
    if ltb (limit g) fclus
    then (let (r, v') = fs_error_eio g v in (r, fclus, dclus, v'))
    else elim (fatent_next_sb d g v dclus) [
      | err e ↦ (err e, fclus, dclus, v)
      | oops ↦ (oops, fclus, dclus, v)
      | ok nclus ↦
          let rest = cluster_loop d g v n (fclus + 1) nclus in
          if nclus == ent_free
          then (let (r, v') = fs_error_eio g v in (r, fclus, dclus, v'))
          else if nclus == ent_eof
          then (ok 0, fclus, dclus, v)
          else rest
    ]

pub fat_get_cluster : Device → Geometry → Volume → FatInode → ℕ → Located
fat_get_cluster d g v ino cluster =
    if ino.i_start == 0 then (oops, 0, 0, v) else cluster_loop d g v cluster 0 ino.i_start

pub fat_bmap_cluster : Device → Geometry → Volume → FatInode → ℕ → Result ℕ × Volume
fat_bmap_cluster d g v ino cluster =
    if ino.i_start == 0
    then (ok 0, v)
    else (let (ret, fclus, dclus, v') = fat_get_cluster d g v ino cluster in
        elim ret [
          | err e ↦ (err e, v')
          | oops ↦ (oops, v')
          | ok r ↦ if r == ent_eof then fs_error_eio g v' else (ok dclus, v')
        ])

-- `sector_t` has 64 bits.
unfoldable pub fat_clus_to_blknr : Geometry → ℕ → ℕ
fat_clus_to_blknr g clus =
    ((clus + 2 ^ 64 - start_ent) % 2 ^ 64 * sec_per_clus g + g.data_start) % 2 ^ 64

-- The blocks that the size of the file takes.
abbrev pub last_block : Geometry → FatInode → ℕ
last_block g ino = (ino.i_size + (blocksize g - 1)) / blocksize g

-- The answer, `*phys` and `*mapped_blocks`, and the volume. Past the last block nothing is mapped,
-- with `create` or without.
pub fat_bmap : Device → Geometry → Volume → FatInode → ℕ → Result (ℕ × ℕ) × Volume
fat_bmap d g v ino sector =
    if leb (last_block g ino) sector
    then (ok (0, 0), v)
    else (let offset = sector % sec_per_clus g in
        let (r, v') =
          fat_bmap_cluster d g v ino (sector / 2 ^ (g.cluster_bits - g.blocksize_bits)) in
        elim r [
          | err e ↦ (err e, v')
          | oops ↦ (oops, v')
          | ok cluster ↦ (
            if cluster == 0
                then ok (0, 0)
                else ok (
                  fat_clus_to_blknr g cluster + offset,
                  (if ltb (last_block g ino - sector) (sec_per_clus g - offset)
                      then last_block g ino - sector
                      else sec_per_clus g - offset),
                ),
            v',
          )
        ])
