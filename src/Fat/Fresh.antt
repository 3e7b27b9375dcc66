-- ===== src/Fat/Fresh.antt =====
-- New clusters for a directory: `fat_zeroed_cluster`, `fat_alloc_new_dir` and `fat_add_new_entries`
-- of ATS/myfat/fat_dir.c.
pub mod Blank
use ats_ldd.Base.{
  ℕ, zero, suc, ◌+◌, ◌-◌, ◌*◌, ◌/◌, ◌%◌, ◌^◌, min, Bool, true, false, List, [], ◌∷◌, ◌++◌, Result,
  ok, err, oops, Errno, enomem, Option, none, some, if◌then◌else◌, ◌==◌, ltb, leb, ◌&&◌, length,
  get_or,
}
use ats_ldd.Fat.Volume.{Geometry, Device, Volume, blocksize, sec_per_clus, fat_sync_bhs}
use ats_ldd.Fat.Free.{fat_free_clusters}
use ats_ldd.Fat.Alloc.{fat_alloc_clusters}
use ats_ldd.Fat.Cluster.{FatInode, fat_clus_to_blknr}
use ats_ldd.Fat.Dir.{Disk, Address, entry_size, fat_make_i_pos}
use ats_ldd.Fat.Unlink.{mark}
use ats_ldd.Time.{FatTime}

-- `memcpy (bh->b_data + offset, slots, n)` from byte `from` of the slots on, in block `b`.
unfoldable pub copy_bytes : (ℕ → ℕ → ℕ) → ℕ → ℕ → (ℕ → ℕ) → ℕ → ℕ → ℕ → ℕ → ℕ
copy_bytes m b offset slots from n b' o =
    if (b == b') && (leb offset o && ltb o (offset + n))
    then slots (from + (o - offset))
    else m b' o

-- `memset (bh->b_data + offset, 0, n)`
abbrev pub zero_bytes : (ℕ → ℕ → ℕ) → ℕ → ℕ → ℕ → ℕ → ℕ → ℕ
zero_bytes m b offset n = copy_bytes m b offset (λ i. 0) 0 n

-- `fat_sync_bhs` for a directory that asks for it.
unfoldable pub sync_bhs : Device → FatInode → List ℕ → Option Errno
sync_bhs d dir bhs = if dir.is_dirsync then fat_sync_bhs d bhs else none

-- The loop over the unused blocks, `left` of them from `blknr` on; `bhs` are the buffers held.
pub zero_loop : Device → Geometry → Disk → FatInode → ℕ → ℕ → ℕ → List ℕ → Option Errno × Disk
zero_loop d g k dir nr_bhs blknr zero bhs = (sync_bhs d dir bhs, k)
zero_loop d g k dir nr_bhs blknr (suc left) bhs =
    let k' = mark (record k { byte = zero_bytes k.byte blknr 0 (blocksize g) }) blknr in
    let held = bhs ++ (blknr ∷ []) in
    let after_flush = zero_loop d g k' dir nr_bhs (blknr + 1) left [] in
    let rest = zero_loop d g k' dir nr_bhs (blknr + 1) left held in
    if d.getblk blknr
    then (if length held == nr_bhs
        then elim (sync_bhs d dir held) [ some e ↦ (some e, k') | none ↦ after_flush ]
        else rest)
    else (some enomem, k)

-- `nr_used` is the length of `bhs`.
unfoldable pub fat_zeroed_cluster :
    Device → Geometry → Disk → FatInode → ℕ → List ℕ → ℕ → Option Errno × Disk
unfolding zero_loop
fat_zeroed_cluster d g k dir blknr bhs nr_bhs =
    zero_loop d g k dir nr_bhs (blknr + length bhs) (sec_per_clus g - length bhs) bhs

-- `error_free:` of both functions: the chain is given back.
unfoldable pub give_back : {A : Type 0} → Device → Geometry → Errno → Disk → ℕ → Result A × Disk
give_back d g e k cluster =
    let (r, v) = fat_free_clusters d g k.vol cluster in
    (elim r [ ok _ ↦ err e | err _ ↦ err e | oops ↦ oops ], record k { vol = v })

-- The low and the high byte of a 16-bit word.
abbrev pub word_bytes : ℕ → List ℕ
word_bytes w = w % 2 ^ 8 ∷ w / 2 ^ 8 % 2 ^ 8 ∷ []

-- "." or "..", filled up with blanks to eleven bytes.
abbrev pub dots : Bool → List ℕ
dots two = 46 ∷ (if two then 46 else 32) ∷ 32 ∷ 32 ∷ 32 ∷ 32 ∷ 32 ∷ 32 ∷ 32 ∷ 32 ∷ 32 ∷ []

-- An entry of a new directory, in the order of the fields of `struct msdos_dir_entry`: name, attr,
-- lcase, ctime_cs, ctime, cdate, adate, starthi, time, date, start, size.
pub dot_entry : Bool → Bool → FatTime → ℕ → List ℕ
dot_entry two isvfat t start =
    dots two
    ++ (16 ∷ 0 ∷ (if isvfat then t.time_cs else 0) ∷ [])
    ++ word_bytes (if isvfat then t.time else 0)
    ++ word_bytes (if isvfat then t.date else 0)
    ++ word_bytes (if isvfat then t.date else 0)
    ++ word_bytes (start / 2 ^ 16)
    ++ word_bytes t.time
    ++ word_bytes t.date
    ++ word_bytes start
    ++ (0 ∷ 0 ∷ 0 ∷ 0 ∷ [])

-- The new directory gets "." for its own cluster and ".." for that of `dir`. `needs_sync` is the
-- answer of `inode_needs_sync`, and `t` what `fat_time_unix2fat` gives for the time.
unfoldable pub fat_alloc_new_dir :
    Device → Geometry → Bool → Bool → FatTime → Disk → FatInode → Result ℕ × Disk
fat_alloc_new_dir d g needs_sync isvfat t k dir =
    let (r, v) = fat_alloc_clusters d g k.vol needs_sync 1 in
    let k1 = record k { vol = v } in
    elim r [
      | err e ↦ (err e, k1)
      | oops ↦ (oops, k1)
      | ok clusters ↦
          let cluster = get_or clusters 0 0 in
          let blknr = fat_clus_to_blknr g cluster in
          let bytes = dot_entry false isvfat t cluster ++ dot_entry true isvfat t dir.i_logstart in
          let filled = copy_bytes k1.byte blknr 0 (λ i. get_or bytes i 0) 0 (2 * entry_size) in
          let k2 =
            mark
              (record k1 {
                byte = zero_bytes filled blknr (2 * entry_size) (blocksize g - 2 * entry_size);
              })
              blknr in
          let (e, k3) = fat_zeroed_cluster d g k2 dir blknr (blknr ∷ []) d.max_buf in
          if d.getblk blknr
          then elim e [ some x ↦ give_back d g x k3 cluster | none ↦ (ok cluster, k3) ]
          else give_back d g enomem k1 cluster
    ]

-- How the filling of new clusters goes on, with the buffers, the bytes left and the last `copy`.
pub record Filling : Type 0 where
  pub disk : Disk
  pub bhs : List ℕ
  pub from : ℕ
  pub size : ℕ
  pub copy : ℕ

-- The inner loop, over the `left` blocks of a cluster from `blknr` on; it ends early when all is
-- copied. A buffer that is forgotten in the end keeps its bytes.
pub fill_blocks : Device → Geometry → (ℕ → ℕ) → ℕ → ℕ → Filling → Option Errno × Filling
fill_blocks d g slots blknr zero s = (none, s)
fill_blocks d g slots blknr (suc left) s =
    let copy = min s.size (blocksize g) in
    let s' : Filling = record {
      disk =
          mark (record (s.disk) { byte = copy_bytes s.disk.byte blknr 0 slots s.from copy }) blknr;
      bhs = s.bhs ++ (blknr ∷ []);
      from = s.from + copy;
      size = s.size - copy;
      copy = copy;
    } in
    let rest = fill_blocks d g slots (blknr + 1) left s' in
    if d.getblk blknr then (if s'.size == 0 then (none, s') else rest) else (some enomem, s)

-- The outer loop, over the clusters; and `start_blknr`.
pub fill_clusters : Device → Geometry → (ℕ → ℕ) → List ℕ → ℕ → Filling → Option Errno × ℕ × Filling
fill_clusters d g slots [] start s = (none, start, s)
fill_clusters d g slots (c ∷ cs) start s =
    let blknr = fat_clus_to_blknr g c in
    let (e, s') = fill_blocks d g slots blknr (sec_per_clus g) s in
    let rest = fill_clusters d g slots cs blknr s' in
    elim e [ some x ↦ (some x, blknr, s') | none ↦ rest ]

-- `slots` are the bytes of the new entries. On success: the first cluster, `*nr_cluster`, and the
-- address of the last entry.
unfoldable pub fat_add_new_entries :
    Device → Geometry → Bool → Disk → FatInode → (ℕ → ℕ) → ℕ → Result (ℕ × ℕ × Address) × Disk
fat_add_new_entries d g needs_sync k dir slots nr_slots =
    let size = nr_slots * entry_size in
    let nr_cluster = (size + (2 ^ g.cluster_bits - 1)) / 2 ^ g.cluster_bits in
    let (r, v) = fat_alloc_clusters d g k.vol needs_sync nr_cluster in
    let k1 = record k { vol = v } in
    let start : Filling = record { disk = k1; bhs = []; from = 0; size = size; copy = 0 } in
    if ltb 2 nr_cluster then (oops, k) else elim r [
      | err e ↦ (err e, k1)
      | oops ↦ (oops, k1)
      | ok clusters ↦
          let (filled, start_blknr, s) = fill_clusters d g slots clusters 0 start in
          let last = get_or (s.bhs) (length s.bhs - 1) 0 in
          let k2 = record (s.disk) {
            byte = zero_bytes s.disk.byte last s.copy (blocksize g - s.copy);
          } in
          let (e, k3) = fat_zeroed_cluster d g k2 dir start_blknr s.bhs d.max_buf in
          elim filled [
            | some x ↦ give_back d g x s.disk (get_or clusters 0 0)
            | none ↦ elim e [
              | some x ↦ give_back d g x k3 (get_or clusters 0 0)
              | none ↦ (ok (get_or clusters 0 0, nr_cluster, (last, s.copy - entry_size)), k3)
            ]
          ]
    ]
