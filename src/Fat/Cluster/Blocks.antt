-- ===== src/Fat/Cluster/Blocks.antt =====
-- `fat_bmap` of ATS/myfat/fat_cache.c: which blocks of the disk a file occupies.
use ats_ldd.Base.{
  dec_lt, sym, ℕ, ◌+◌, ◌-◌, ◌*◌, ◌^◌, ◌%◌, ◌/◌, ◌≤◌, ◌<◌, min, ◌≡◌, ◌≢◌, List, ok, length, get_or,
  arith, ap,
}
use native.Mathlib.Nat.{mod-eq_of_lt, div-lt_iff_lt-mul, div-add-mod}
use ats_ldd.Fat.Volume.{Geometry, Device, Volume, sec_per_clus}
use ats_ldd.Fat.Entry.Table.{table, IsFat32, InRange, InRange-int}
use ats_ldd.Fat.Chain.{Chain, Chain-first, Chain-length, Chain-injective}
use ats_ldd.Fat.Cluster.{FatInode, limit, fat_bmap, last_block, fat_clus_to_blknr}
use ats_ldd.Fat.Cluster.Locate.{AllReadable, fat_bmap_cluster-Chain}

-- The layout that `fat_fill_super` leaves: a FAT32 volume, where a cluster is a power of two of
-- blocks, and the data area ends below `2 ^ 64`.
pub record IsLaidOut (g : Geometry) : Type 0 where
  pub fat32 : IsFat32 g
  pub bits : g.cluster_bits ≡ g.blocksize_bits + g.spc_bits
  pub fits : g.max_cluster * sec_per_clus g + g.data_start < 2 ^ 64
  pub unit : 1 ≤ sec_per_clus g

-- A file whose size agrees with its chain `cs` of clusters of the data area.
pub record HasChain (g : Geometry) (v : Volume) (ino : FatInode) (cs : List ℕ) : Type 0 where
  pub some_cluster : ino.i_start ≢ 0
  pub chain : Chain (table g v) ino.i_start cs
  pub short : length cs ≤ limit g + 1
  pub inside : (i : ℕ) → i < length cs → InRange g (get_or cs i 0)
  pub sized : last_block g ino ≤ length cs * sec_per_clus g

-- Its first cluster is one of these.
pub HasChain-int :
    {g : Geometry} {v : Volume} {ino : FatInode} {cs : List ℕ}
    → IsFat32 g
    → HasChain g v ino cs
    → ino.i_start < 2 ^ 29
HasChain-int {g} {cs = cs} f h =
    let at = Chain-first h.chain in
    let pos = Chain-length h.chain in
    omega (arith, at, InRange-int g (get_or cs 0 0) f (h.inside 0 pos).1)

-- The block of a cluster, without the wrap.
abbrev pub block_number : Geometry → ℕ → ℕ
block_number g c = (c - 2) * sec_per_clus g + g.data_start

clus_to_blknr-InRange :
    (g : Geometry) (c : ℕ) → IsLaidOut g → InRange g c → fat_clus_to_blknr g c ≡ block_number g c
unfolding fat_clus_to_blknr
clus_to_blknr-InRange g c l h =
    let small : c ≤ c * sec_per_clus g = grind arith in
    let below : c * sec_per_clus g ≤ g.max_cluster * sec_per_clus g = grind arith in
    let less : (c - 2) * sec_per_clus g ≤ c * sec_per_clus g = grind arith in
    let word : (c + 2 ^ 64 - 2) % 2 ^ 64 ≡ c - 2 = omega arith in
    rw word (mod-eq_of_lt (omega arith))

-- the cluster of the file that holds a sector
abbrev pub index_of : Geometry → ℕ → ℕ
index_of g s = s / sec_per_clus g

index_lt : (g : Geometry) (n s : ℕ) → 1 ≤ sec_per_clus g → s < n * sec_per_clus g → index_of g s < n
index_lt g n s h k = (div-lt_iff_lt-mul h).1 k

-- On a volume whose blocks can all be read and for a file that has a chain, `fat_bmap` maps each
-- sector below the last block of the file to the sector of the same offset in the cluster that the
-- chain has for it; the run of blocks that it announces ends with the cluster or with the file.
pub fat_bmap-HasChain :
    (d : Device) (g : Geometry) (v : Volume) (ino : FatInode) (cs : List ℕ) (s : ℕ)
    → AllReadable d
    → IsLaidOut g
    → HasChain g v ino cs
    → s < last_block g ino
    → fat_bmap d g v ino s ≡ (
      ok (
        block_number g (get_or cs (index_of g s) 0) + s % sec_per_clus g,
        min (sec_per_clus g - s % sec_per_clus g) (last_block g ino - s),
      ),
      v,
    )
unfolding fat_bmap
fat_bmap-HasChain d g v ino cs s all l f h =
    let e : g.cluster_bits - g.blocksize_bits ≡ g.spc_bits = omega arith in
    let k : index_of g s < length cs = index_lt g (length cs) s l.unit (omega arith) in
    let c =
      fat_bmap_cluster-Chain d g v ino cs (index_of g s) all l.fat32 (HasChain-int l.fat32 f)
        f.some_cluster f.chain f.short k in
    let r : InRange g (get_or cs (index_of g s) 0) = f.inside (index_of g s) k in
    ground (
      arith,
      ap (λ (x : ℕ). s / 2 ^ x) e,
      c,
      clus_to_blknr-InRange g (get_or cs (index_of g s) 0) l r,
    )

-- Nothing is mapped from the last block on.
pub fat_bmap_past :
    (d : Device) (g : Geometry) (v : Volume) (ino : FatInode) (s : ℕ)
    → last_block g ino ≤ s
    → fat_bmap d g v ino s ≡ (ok (0, 0), v)
unfolding fat_bmap
fat_bmap_past d g v ino s h = ground arith

-- Blocks of different clusters or at different offsets are different.
block_quotient :
    (n a b i j base : ℕ) → i < n → a * n + base + i ≡ b * n + base + j → a ≤ b → j < n → a ≡ b
block_quotient n a b i j base hi e h hj = elim (dec_lt a b) [
  | yes lt ↦ let step : (a + 1) * n ≤ b * n = grind arith in absurd (omega arith)
  | no ge ↦ omega arith
]

block_injective :
    (n a b i j base : ℕ) → i < n → j < n → a * n + base + i ≡ b * n + base + j → (a ≡ b) × (i ≡ j)
block_injective n a b i j base hi hj e =
    let same : a ≡ b = elim (dec_lt b a) [
      | yes gt ↦ sym (block_quotient n b a j i base hj (sym e) (omega arith) hi)
      | no le ↦ block_quotient n a b i j base hi e (omega arith) hj
    ] in
    (same, omega (arith, ap (λ (x : ℕ). x * n) same))

sector_parts : (n s t : ℕ) → s / n ≡ t / n → s % n ≡ t % n → s ≡ t
sector_parts n s t q r = omega (arith, div-add-mod s n, div-add-mod t n, ap (λ (k : ℕ). n * k) q)

-- On a volume whose blocks can all be read and for a file that has a chain, `fat_bmap` maps
-- different sectors below the last block of the file to different blocks of the disk.
pub fat_bmap_injective :
    (d : Device) (g : Geometry) (v : Volume) (ino : FatInode) (cs : List ℕ) (s t p m q n : ℕ)
    → AllReadable d
    → IsLaidOut g
    → HasChain g v ino cs
    → s < last_block g ino
    → t < last_block g ino
    → fat_bmap d g v ino s ≡ (ok (p, m), v)
    → fat_bmap d g v ino t ≡ (ok (q, n), v)
    → p ≡ q
    → s ≡ t
fat_bmap_injective d g v ino cs s t p m q n all l f hs ht es et e =
    let cs_s : index_of g s < length cs = index_lt g (length cs) s l.unit (omega arith) in
    let cs_t : index_of g t < length cs = index_lt g (length cs) t l.unit (omega arith) in
    let in_s : InRange g (get_or cs (index_of g s) 0) = f.inside (index_of g s) cs_s in
    let in_t : InRange g (get_or cs (index_of g t) 0) = f.inside (index_of g t) cs_t in
    let at_s = fat_bmap-HasChain d g v ino cs s all l f hs in
    let at_t = fat_bmap-HasChain d g v ino cs t all l f ht in
    let apart =
      block_injective (sec_per_clus g) (get_or cs (index_of g s) 0 - 2)
        (get_or cs (index_of g t) 0 - 2) (s % sec_per_clus g) (t % sec_per_clus g) g.data_start
        (omega arith) (omega arith) (ground (arith, at_s, at_t)) in
    sector_parts (sec_per_clus g) s t
      (Chain-injective (index_of g s) (index_of g t) f.chain cs_s cs_t (omega arith)) apart.1
