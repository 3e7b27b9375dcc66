-- ===== src/Fat/Cluster/Locate.antt =====
-- `fat_get_cluster` of ATS/myfat/fat_cache.c against the chain of the file.
use ats_ldd.Base.{
  ℕ, zero, suc, ◌+◌, ◌-◌, ◌^◌, ◌≤◌, ◌<◌, min, ◌≡◌, ◌≢◌, ◌⊎◌, inl, inr, true, List, ok, ◌==◌, ltb,
  length, get_or, arith, ne→==, Bool-cases,
}
use ats_ldd.Fat.Volume.{Geometry, Device, Volume, fs_error_eio, ent_free, ent_eof}
use ats_ldd.Fat.Entry.{fatent_next_sb}
use ats_ldd.Fat.Entry.Table.{table, block_of, IsFat32, next_lem, table_small}
use ats_ldd.Fat.Chain.{Chain, last, link, after, GoesOn, Chain-length}
use ats_ldd.Fat.Cluster.{FatInode, limit, cluster_loop, fat_get_cluster, fat_bmap_cluster}

-- Every block can be read.
abbrev pub AllReadable : Device → Type 0
AllReadable d = (b : ℕ) → d.bread b ≡ true

module _ (d : Device) (g : Geometry) (v : Volume) (fat : IsFat32 g) where
  next_readable : AllReadable d → (c : ℕ) → c < 2 ^ 29 → fatent_next_sb d g v c ≡ ok (table g v c)
  next_readable all c h = ground (arith, next_lem d g v c fat h, all (block_of g c))

  loop-Chain :
      (n f c : ℕ) (cs : List ℕ)
      → AllReadable d
      → c < 2 ^ 29
      → Chain (table g v) c cs
      → f + length cs ≤ limit g + 1
      → cluster_loop d g v n f c
        ≡ (ok 0, f + min n (length cs - 1), get_or cs (min n (length cs - 1)) 0, v)
  unfolding cluster_loop
  loop-Chain zero f c cs all w (last h) k = ground arith
  loop-Chain zero f c cs all w (link e p q r) k = ground arith
  loop-Chain (suc n) f c cs all w (last h) k = ground (arith, next_readable all c w)
  loop-Chain (suc n) f c cs all w (link {d = d'} {cs = ds} e p q r) k =
      let small : d' < 2 ^ 29 = omega (arith, e, table_small g v c) in
      ground (arith, next_readable all c w, Chain-length r, loop-Chain n (f + 1) d' ds all small r)

  -- What the loop finds after `k` steps, whatever the table holds.
  record Found (n f c r f' c' : ℕ) (v' : Volume) (k : ℕ) : Type 0 where
    zero_ret : r ≡ 0
    same : v' ≡ v
    count : f' ≡ f + k
    there : c' ≡ after (table g v) k c
    goes : GoesOn (table g v) k c
    stop : (k ≡ n) ⊎ ((k < n) × (table g v c' ≡ ent_eof))

  loop_Found :
      (n f c r f' c' : ℕ) (v' : Volume)
      → AllReadable d
      → c < 2 ^ 29
      → cluster_loop d g v n f c ≡ (ok r, f', c', v')
      → (k : ℕ) × Found n f c r f' c' v' k
  unfolding cluster_loop fs_error_eio
  loop_Found zero f c r f' c' v' all w h = (0, ground arith)
  loop_Found (suc n) f c r f' c' v' all w h = elim (Bool-cases (ltb (limit g) f)) [
    | inl over ↦ absurd (ground arith)
    | inr fine ↦ elim (Bool-cases (table g v c == ent_free)) [
      | inl z ↦ absurd (ground (arith, next_readable all c w))
      | inr nz ↦ elim (Bool-cases (table g v c == ent_eof)) [
        | inl e ↦ (0, ground (arith, next_readable all c w))
        | inr ne ↦
            let (k, r) =
              loop_Found n (f + 1) (table g v c) r f' c' v' all (table_small g v c)
                (ground (arith, next_readable all c w)) in
            (suc k, ground arith)
      ]
    ]
  ]

  loop_detected :
      (m n f c : ℕ)
      → AllReadable d
      → c < 2 ^ 29
      → GoesOn (table g v) m c
      → f + m ≡ limit g + 1
      → m < n
      → (fc : ℕ) × (dc : ℕ) × (cluster_loop d g v n f c
          ≡ (let (r, v') = fs_error_eio g v in (r, fc, dc, v')))
  unfolding cluster_loop
  loop_detected m zero f c all w go k h = absurd (omega arith)
  loop_detected zero (suc n) f c all w go k h = (f, c, ground arith)
  loop_detected (suc m) (suc n) f c all w go k h =
      let (fc, dc, e) =
        loop_detected m n (f + 1) (table g v c) all (table_small g v c) go.2 (omega arith)
          (omega arith) in
      (fc, dc, ground (arith, next_readable all c w))

-- On a FAT32 volume whose blocks can all be read, and for a file whose first cluster is below
-- `2 ^ 29`, `fat_get_cluster` for cluster `k` of a file with the chain `cs`, of at most `limit + 1`
-- clusters, returns 0, changes nothing, and answers the position and the disk cluster of `k`, or of
-- the last cluster of the file if `k` lies past its end.
pub fat_get_cluster-Chain :
    (d : Device) (g : Geometry) (v : Volume) (ino : FatInode) (cs : List ℕ) (k : ℕ)
    → AllReadable d
    → IsFat32 g
    → ino.i_start < 2 ^ 29
    → ino.i_start ≢ 0
    → Chain (table g v) ino.i_start cs
    → length cs ≤ limit g + 1
    → fat_get_cluster d g v ino k
      ≡ (ok 0, min k (length cs - 1), get_or cs (min k (length cs - 1)) 0, v)
unfolding fat_get_cluster
fat_get_cluster-Chain d g v ino cs k all fat w nz ch len =
    ground (arith, loop-Chain d g v fat k 0 ino.i_start cs all w ch)

-- On a FAT32 volume whose blocks can all be read, and for a file whose first cluster is below
-- `2 ^ 29`, and whatever the table holds: if `fat_get_cluster` for cluster `k` returns a value,
-- this is 0, the volume is unchanged, `*dclus` is the cluster that `*fclus` steps along the table
-- lead to, none of them through a free entry or an end mark, and either `*fclus` is `k` or it is
-- less and the entry of `*dclus` is the end mark.
pub fat_get_cluster_sound :
    (d : Device) (g : Geometry) (v : Volume) (ino : FatInode) (k r fclus dclus : ℕ) (v' : Volume)
    → AllReadable d
    → IsFat32 g
    → ino.i_start < 2 ^ 29
    → fat_get_cluster d g v ino k ≡ (ok r, fclus, dclus, v')
    → (r ≡ 0)
      × (v' ≡ v)
      × (dclus ≡ after (table g v) fclus ino.i_start)
      × GoesOn (table g v) fclus ino.i_start
      × ((fclus ≡ k) ⊎ ((fclus < k) × (table g v dclus ≡ ent_eof)))
unfolding fat_get_cluster
fat_get_cluster_sound d g v ino k r fclus dclus v' all fat w h =
    elim (Bool-cases (ino.i_start == 0)) [
      | inl z ↦ absurd (ground arith)
      | inr nz ↦
          let (n, found) =
            loop_Found d g v fat k 0 ino.i_start r fclus dclus v' all w (ground arith) in
          let e : fclus ≡ n = omega (arith, found.count) in
          (found.zero_ret, found.same, rw e found.there, rw e found.goes, rw e found.stop)
    ]

-- On a FAT32 volume whose blocks can all be read, and for a file whose first cluster is below
-- `2 ^ 29`, `fat_get_cluster` for a cluster beyond `limit + 1` of a file whose table entries go on
-- for `limit + 1` steps, as those of a cyclic chain do, ends with the file system error and, unless
-- that panics, `-EIO`.
pub fat_get_cluster-detects_loop :
    (d : Device) (g : Geometry) (v : Volume) (ino : FatInode) (k : ℕ)
    → AllReadable d
    → IsFat32 g
    → ino.i_start < 2 ^ 29
    → ino.i_start ≢ 0
    → GoesOn (table g v) (limit g + 1) ino.i_start
    → limit g + 1 < k
    → (fclus : ℕ) × (dclus : ℕ) × (fat_get_cluster d g v ino k
        ≡ (let (r, v') = fs_error_eio g v in (r, fclus, dclus, v')))
unfolding fat_get_cluster
fat_get_cluster-detects_loop d g v ino k all fat w nz go h =
    let (fc, dc, e) =
      loop_detected d g v fat (limit g + 1) k 0 ino.i_start all w go (omega arith) h in
    (fc, dc, rw (ne→== _ _ nz) e)

-- On a FAT32 volume whose blocks can all be read, and for a file whose first cluster is below
-- `2 ^ 29`, `fat_bmap_cluster` answers a request for a cluster at or past the end of the chain with
-- the last cluster of the file, and reports no error.
pub fat_bmap_cluster-past_end :
    (d : Device) (g : Geometry) (v : Volume) (ino : FatInode) (cs : List ℕ) (k : ℕ)
    → AllReadable d
    → IsFat32 g
    → ino.i_start < 2 ^ 29
    → ino.i_start ≢ 0
    → Chain (table g v) ino.i_start cs
    → length cs ≤ limit g + 1
    → length cs ≤ k
    → fat_bmap_cluster d g v ino k ≡ (ok (get_or cs (length cs - 1) 0), v)
unfolding fat_bmap_cluster
fat_bmap_cluster-past_end d g v ino cs k all fat w nz ch len h =
    let e : min k (length cs - 1) ≡ length cs - 1 = omega arith in
    let located = fat_get_cluster-Chain d g v ino cs k all fat w nz ch len in
    ground (arith, located, e)

pub fat_bmap_cluster-Chain :
    (d : Device) (g : Geometry) (v : Volume) (ino : FatInode) (cs : List ℕ) (k : ℕ)
    → AllReadable d
    → IsFat32 g
    → ino.i_start < 2 ^ 29
    → ino.i_start ≢ 0
    → Chain (table g v) ino.i_start cs
    → length cs ≤ limit g + 1
    → k < length cs
    → fat_bmap_cluster d g v ino k ≡ (ok (get_or cs k 0), v)
unfolding fat_bmap_cluster
fat_bmap_cluster-Chain d g v ino cs k all fat w nz ch len h =
    let e : min k (length cs - 1) ≡ k = omega arith in
    let located = fat_get_cluster-Chain d g v ino cs k all fat w nz ch len in
    ground (arith, located, e)
