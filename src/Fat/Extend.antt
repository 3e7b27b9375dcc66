-- ===== src/Fat/Extend.antt =====
-- `fat_chain_add` and `fat_clusters_flush` of ATS/myfat/fat_misc.c.
pub mod Longer
use ats_ldd.Base.{
  ℕ, ◌+◌, ◌-◌, ◌*◌, ◌/◌, ◌%◌, ◌^◌, Bool, true, Result, ok, err, oops, Errno, eio, Option, none,
  some, if◌then◌else◌, ◌==◌, not, ◌&&◌,
}
use ats_ldd.Fat.Volume.{Geometry, Device, Volume, fat_fs_error, ent_eof, undefined}
use ats_ldd.Fat.Entry.{fatent_init, fat_ent_read}
use ats_ldd.Fat.Mirror.{fat_ent_write}
use ats_ldd.Fat.Cluster.{FatInode, fat_cache_inval_inode, fat_get_cluster}

-- `new_fclus` and `last`, both 0 for a file without clusters.
unfoldable pub find_last : Device → Geometry → Volume → FatInode → Result (ℕ × ℕ) × Volume
find_last d g v ino =
    if ino.i_start == 0
    then (ok (0, 0), v)
    else (let (ret, fclus, dclus, v') = fat_get_cluster d g v ino ent_eof in
        elim ret [ err e ↦ (err e, v') | oops ↦ (oops, v') | ok _ ↦ (ok (fclus + 1, dclus), v') ])

-- The new cluster is linked to the last one, with `wait = 1`, or becomes the first one.
-- `sync_inode` is the answer of `fat_sync_inode` of fat_inode.c, which writes the inode out.
unfoldable pub add_last :
    Device
    → Geometry
    → Option Errno
    → ℕ
    → ℕ
    → Volume
    → FatInode
    → Result (Unit {0}) × FatInode × Volume
add_last d g sync_inode last new_dclus v ino =
    if not (last == 0)
    then (let (ret, fe, v') = fat_ent_read d g v fatent_init last in
        elim ret [
          | err e ↦ (err e, ino, v')
          | oops ↦ (oops, ino, v')
          | ok _ ↦ (let (r, v'') = fat_ent_write d g v' fe new_dclus true in (r, ino, v''))
        ])
    else (let ino' = record ino { i_start = new_dclus; i_logstart = new_dclus } in
        elim (if ino.is_dir && ino.is_dirsync then sync_inode else none) [
          | some e ↦ (err e, ino', v)
          | none ↦ (ok tt, ino', v)
        ])

-- The end: the count of blocks is checked and grows; it has 64 bits.
unfoldable pub count_blocks :
    Geometry → ℕ → ℕ → Volume → FatInode → Result (Unit {0}) × FatInode × Volume
count_blocks g new_fclus nr_cluster v ino =
    let unit = 2 ^ (g.cluster_bits - 9) in
    let counted =
      λ (i : FatInode). record i { i_blocks = (i.i_blocks + nr_cluster * unit) % 2 ^ 64 } in
    if new_fclus == ino.i_blocks / unit then (ok tt, counted ino, v) else elim (fat_fs_error g v) [
      | none ↦ (oops, ino, v)
      | some v' ↦ (ok tt, counted (fat_cache_inval_inode ino), v')
    ]

unfoldable pub fat_chain_add :
    Device
    → Geometry
    → Option Errno
    → ℕ
    → ℕ
    → Volume
    → FatInode
    → Result (Unit {0}) × FatInode × Volume
unfolding find_last add_last count_blocks
fat_chain_add d g sync_inode new_dclus nr_cluster v ino =
    let (found, v1) = find_last d g v ino in
    elim found [
      | err e ↦ (err e, ino, v1)
      | oops ↦ (oops, ino, v1)
      | ok (new_fclus, last) ↦
          let (r, ino', v2) = add_last d g sync_inode last new_dclus v1 ino in
          elim r [
            | err e ↦ (err e, ino', v2)
            | oops ↦ (oops, ino', v2)
            | ok _ ↦ count_blocks g new_fclus nr_cluster v2 ino'
          ]
    ]

-- The fields of `struct fat_boot_fsinfo`, and whether `IS_FSINFO` accepts its signatures.
pub record FsInfo : Type 0 where
  pub is_fsinfo : Bool
  pub free_clusters : ℕ
  pub next_cluster : ℕ
  pub dirtied : Bool

-- `fsinfo_sector` is the first argument.
unfoldable pub fat_clusters_flush :
    ℕ → Device → Geometry → Volume → FsInfo → Result (Unit {0}) × FsInfo
fat_clusters_flush fsinfo_sector d g v fs =
    if not (g.fat_bits == 32)
    then (ok tt, fs)
    else if not (d.bread fsinfo_sector)
    then (err eio, fs)
    else if not fs.is_fsinfo
    then (ok tt, fs)
    else (
      ok tt,
      record fs {
        free_clusters = if v.free_clusters == undefined then fs.free_clusters else v.free_clusters;
        next_cluster = if v.prev_free == undefined then fs.next_cluster else v.prev_free;
        dirtied = true;
      },
    )
