-- ===== src/Fat/Tests.antt =====
-- A small volume on which the operations of the FAT driver run: eight clusters, four entries to a
-- block, and one file on the clusters 2, 3 and 5.
use ats_ldd.Base.{
  ℕ, ◌++◌, zero, suc, ◌+◌, ◌-◌, ◌*◌, ◌^◌, ◌%◌, ◌/◌, ◌≤◌, ◌<◌, min, ◌≡◌, ◌≢◌, oops, ◌⊎◌, inr, refl,
  true, false, List, [], ◌∷◌, ok, err, enospc, none, if◌then◌else◌, ◌==◌, get_or, has, All, arith,
}
use ats_ldd.Fat.Extend.{fat_chain_add}
use ats_ldd.Fat.Extend.Longer.{fat_chain_add-Chain}
use ats_ldd.Fat.Volume.{
  Geometry, Device, Volume, errors_cont, written, ent_eof, ent_free, undefined, fs_error_eio,
}
use ats_ldd.Fat.Entry.{fat_ent_blocknr, entry_value}
use ats_ldd.Fat.Entry.Table.{table, IsFat32, InRange}
use ats_ldd.Fat.Mirror.{fat_mirror_bhs}
use ats_ldd.Fat.Mirror.Copies.{IsHealthy, IsCovered, Primary, OnlyWords, fat_mirror_bhs-copies}
use ats_ldd.Fat.Chain.{Chain, last, link, after, GoesOn}
use ats_ldd.Fat.Free.{fat_free_clusters}
use ats_ldd.Fat.Free.Release.{fat_free_clusters-Chain}
use ats_ldd.Fat.Free.Ends.{fat_free_clusters-ends}
use ats_ldd.Fat.Alloc.{fat_alloc_clusters}
use ats_ldd.Fat.Alloc.Outcome.{Allocated, Full, fat_alloc_clusters-outcome}
use ats_ldd.Fat.Cluster.{FatInode, fat_get_cluster, fat_bmap_cluster, fat_bmap}
use ats_ldd.Fat.Cluster.Locate.{
  fat_get_cluster-Chain, fat_get_cluster_sound, fat_get_cluster-detects_loop,
  fat_bmap_cluster-past_end,
}
use ats_ldd.Fat.Cluster.Blocks.{
  IsLaidOut, HasChain, block_number, index_of, fat_bmap-HasChain, fat_bmap_injective,
}

abbrev small_disk : Geometry
small_disk = record {
  blocksize_bits = 4;
  spc_bits = 1;
  cluster_bits = 5;
  fats = 2;
  fat_bits = 32;
  fatent_shift = 2;
  fat_start = 1;
  fat_length = 2;
  data_start = 5;
  max_cluster = 8;
  maxbytes = 2 ^ 8 - 1;
  errors = errors_cont;
  synchronous = false;
}

abbrev good_device : Device
good_device = record {
  bread = λ b. true;
  getblk = λ b. true;
  write = λ b. written;
  sync_dirty = λ b. none;
  max_buf = 8;
}

-- Entry `c` stands at byte `4 * c` of the table.
abbrev words_of : (ℕ → ℕ) → ℕ → ℕ → ℕ
words_of entries b o = if b == 0 then 0 else entries ((b - 1) * 4 + o / 4)

abbrev one_file : ℕ → ℕ
one_file c = if c == 2 then 3 else if c == 3 then 5 else if c == 5 then ent_eof else 0

abbrev ring_file : ℕ → ℕ
ring_file c = if c == 2 then 3 else if c == 3 then 2 else 0

abbrev mounted : (ℕ → ℕ) → Volume
mounted entries = record {
  word = words_of entries;
  dirty = [];
  discards = [];
  prev_free = 2;
  free_clusters = 3;
  free_clus_valid = true;
  s_dirt = false;
  rdonly = false;
}

abbrev file : FatInode
file = record {
  i_start = 2;
  i_logstart = 2;
  i_size = 90;
  i_blocks = 0;
  mmu_private = 90;
  nr_caches = 0;
  cache_valid_id = 1;
  is_root = false;
  is_dir = false;
  is_dirsync = false;
}

good : IsHealthy good_device
good = record { reads = λ b. refl; gets = λ b. refl; writes = λ b. refl; syncs = λ b. refl }

fat32 : IsFat32 small_disk
fat32 = record { shift = refl; bits = refl; big_blocks = omega arith; few = omega arith }

covered : IsCovered small_disk
covered = record { room = omega arith }

file-Chain : Chain (table small_disk (mounted one_file)) 2 (2 ∷ 3 ∷ 5 ∷ [])
unfolding table entry_value
file-Chain =
    link refl (omega arith) (omega arith) (link refl (omega arith) (omega arith) (last refl))

file_clusters : All (InRange small_disk) (2 ∷ 3 ∷ 5 ∷ [])
file_clusters =
    ((omega arith, omega arith), ((omega arith, omega arith), ((omega arith, omega arith), tt)))

file_inside : (i : ℕ) → i < 3 → InRange small_disk (get_or (2 ∷ 3 ∷ 5 ∷ []) i 0)
file_inside zero h = (omega arith, omega arith)
file_inside (suc zero) h = (omega arith, omega arith)
file_inside (suc (suc zero)) h = (omega arith, omega arith)
file_inside (suc (suc (suc i))) h = absurd (omega arith)

file-HasChain : HasChain small_disk (mounted one_file) file (2 ∷ 3 ∷ 5 ∷ [])
file-HasChain = record {
  some_cluster = omega arith;
  chain = file-Chain;
  short = omega arith;
  inside = file_inside;
  sized = omega arith;
}

laid_out : IsLaidOut small_disk
laid_out = record {
  fat32 = record { shift = refl; bits = refl; big_blocks = omega arith; few = omega arith };
  bits = refl;
  fits = omega arith;
  unit = omega arith;
}

fat_alloc_clusters-outcome_example :
    ((cs : List ℕ) × (v' : Volume) × (fat_alloc_clusters good_device small_disk
          (mounted one_file)
          true
          2
        ≡ (ok cs, v'))
      × Allocated small_disk (mounted one_file) 2 cs v')
    ⊎ ((fat_alloc_clusters good_device small_disk (mounted one_file) true 2
          ≡ (err enospc, mounted one_file))
        × (true ≡ true)
        × (3 < 2))
    ⊎ ((cs : List ℕ) × (v' : Volume) × (fat_alloc_clusters good_device small_disk
            (mounted one_file)
            true
            2
          ≡ (err enospc, v'))
        × Full small_disk (mounted one_file) 2 cs v')
fat_alloc_clusters-outcome_example =
    fat_alloc_clusters-outcome good_device small_disk (mounted one_file) true 2 good fat32 covered
      (omega arith) (omega arith) (omega arith) (omega arith)

fat_free_clusters-Chain_example :
    (v' : Volume) × (fat_free_clusters good_device small_disk (mounted one_file) 2 ≡ (ok tt, v'))
    × ((y : ℕ)
        → y < 8
        → table small_disk v' y
          ≡ (if has y (2 ∷ 3 ∷ 5 ∷ []) then ent_free else table small_disk (mounted one_file) y))
    × (v'.free_clusters ≡ (if 3 == undefined then undefined else 3 + 3))
    × (v'.prev_free ≡ 2)
fat_free_clusters-Chain_example =
    fat_free_clusters-Chain good_device small_disk (mounted one_file) 2 (2 ∷ 3 ∷ 5 ∷ []) good fat32
      covered file-Chain file_clusters (omega arith) (inr (omega arith))

fat_mirror_bhs-copies_example :
    (v' : Volume) × (fat_mirror_bhs good_device small_disk (2 ∷ []) (mounted one_file) ≡ (none, v'))
    × OnlyWords (mounted one_file) v'
    × ((b o : ℕ) → Primary small_disk b → v'.word b o ≡ words_of one_file b o)
    × ((j b o : ℕ)
        → has b (2 ∷ []) ≡ true
        → 1 ≤ j
        → j < 2
        → v'.word (2 * j + b) o ≡ words_of one_file b o)
fat_mirror_bhs-copies_example =
    fat_mirror_bhs-copies good_device small_disk (2 ∷ []) (mounted one_file) good
      ((omega arith, omega arith), tt)

located_five :
    fat_get_cluster good_device small_disk (mounted one_file) file 7
    ≡ (ok 0, 2, 5, mounted one_file)
located_five =
    fat_get_cluster-Chain good_device small_disk (mounted one_file) file (2 ∷ 3 ∷ 5 ∷ []) 7
      (λ b. refl) laid_out.fat32 (omega arith) (omega arith) file-Chain (omega arith)

fat_get_cluster_sound_example :
    (◌≡◌ {A = ℕ} 0 0)
    × (mounted one_file ≡ mounted one_file)
    × (5 ≡ after (table small_disk (mounted one_file)) 2 2)
    × GoesOn (table small_disk (mounted one_file)) 2 2
    × ((◌≡◌ {A = ℕ} 2 7) ⊎ ((2 < 7) × (table small_disk (mounted one_file) 5 ≡ ent_eof)))
fat_get_cluster_sound_example =
    fat_get_cluster_sound good_device small_disk (mounted one_file) file 7 0 2 5 (mounted one_file)
      (λ b. refl) laid_out.fat32 (omega arith) located_five

ring-GoesOn :
    (n : ℕ)
    → GoesOn (table small_disk (mounted ring_file)) n 2
      × GoesOn (table small_disk (mounted ring_file)) n 3
unfolding table entry_value
ring-GoesOn zero = (tt, tt)
ring-GoesOn (suc n) =
    ((omega arith, omega arith, (ring-GoesOn n).1), (omega arith, omega arith, (ring-GoesOn n).0))

fat_get_cluster-detects_loop_example :
    (fclus : ℕ) × (dclus : ℕ) × (fat_get_cluster good_device small_disk (mounted ring_file) file 20
      ≡ (let (r, v') = fs_error_eio small_disk (mounted ring_file) in (r, fclus, dclus, v')))
fat_get_cluster-detects_loop_example =
    fat_get_cluster-detects_loop good_device small_disk (mounted ring_file) file 20 (λ b. refl)
      laid_out.fat32 (omega arith) (omega arith) (ring-GoesOn 8).0 (omega arith)

fat_bmap_cluster-past_end_example :
    fat_bmap_cluster good_device small_disk (mounted one_file) file 6
    ≡ (ok (get_or (2 ∷ 3 ∷ 5 ∷ []) (3 - 1) 0), mounted one_file)
fat_bmap_cluster-past_end_example =
    fat_bmap_cluster-past_end good_device small_disk (mounted one_file) file (2 ∷ 3 ∷ 5 ∷ []) 6
      (λ b. refl) laid_out.fat32 (omega arith) (omega arith) file-Chain (omega arith) (omega arith)

fat_bmap-HasChain_example : fat_bmap good_device small_disk (mounted one_file) file 3 ≡ (
  ok (
    block_number small_disk (get_or (2 ∷ 3 ∷ 5 ∷ []) (index_of small_disk 3) 0) + 3 % 2,
    min (2 - 3 % 2) (6 - 3),
  ),
  mounted one_file,
)
fat_bmap-HasChain_example =
    fat_bmap-HasChain good_device small_disk (mounted one_file) file (2 ∷ 3 ∷ 5 ∷ []) 3 (λ b. refl)
      laid_out file-HasChain (omega arith)

fat_bmap_injective_example : ◌≡◌ {A = ℕ} 3 3
fat_bmap_injective_example =
    fat_bmap_injective good_device small_disk (mounted one_file) file (2 ∷ 3 ∷ 5 ∷ []) 3 3 8 1 8 1
      (λ b. refl) laid_out file-HasChain (omega arith) (omega arith) fat_bmap-HasChain_example
      fat_bmap-HasChain_example refl

-- One more chain, on the cluster 6.
abbrev two_chains : ℕ → ℕ
two_chains c = if c == 6 then ent_eof else one_file c

abbrev counted_file : FatInode
counted_file = record file { i_blocks = 3 }

old-Chain : Chain (table small_disk (mounted two_chains)) 2 (2 ∷ 3 ∷ 5 ∷ [])
unfolding table entry_value
old-Chain =
    link refl (omega arith) (omega arith) (link refl (omega arith) (omega arith) (last refl))

new-Chain : Chain (table small_disk (mounted two_chains)) 6 (6 ∷ [])
unfolding table entry_value
new-Chain = last refl

fat_chain_add-Chain_example :
    (v' : Volume) × (fat_chain_add good_device small_disk none 6 1 (mounted two_chains) counted_file
      ≡ (ok tt, record counted_file { i_blocks = (3 + 1 * 2 ^ (5 - 9)) % 2 ^ 64 }, v'))
    × Chain (table small_disk v') 2 ((2 ∷ 3 ∷ 5 ∷ []) ++ (6 ∷ []))
    × ((y : ℕ)
        → y < 8
        → has y (2 ∷ 3 ∷ 5 ∷ []) ≡ false
        → table small_disk v' y ≡ table small_disk (mounted two_chains) y)
fat_chain_add-Chain_example =
    fat_chain_add-Chain good_device small_disk none (mounted two_chains) counted_file
      (2 ∷ 3 ∷ 5 ∷ []) (6 ∷ []) 6 1 good fat32 covered (omega arith) old-Chain file_clusters
      (omega arith) (omega arith) refl new-Chain
      ((omega arith, omega arith), ((omega arith, omega arith), tt)) (refl, tt)

fat_free_clusters-ends_example :
    (fat_free_clusters good_device small_disk (mounted ring_file) 2).0 ≢ oops
fat_free_clusters-ends_example =
    fat_free_clusters-ends good_device small_disk (mounted ring_file) 2 good fat32 covered
      (λ e. absurd (ground arith))

-- The offset of entry 0x40000005 is that of entry 5, as an `int`.
bytes_wrap : fat_ent_blocknr small_disk 1073741829 ≡ fat_ent_blocknr small_disk 5
unfolding fat_ent_blocknr
bytes_wrap = refl
