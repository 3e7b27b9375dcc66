-- ===== src/Inode/Fill/Root.antt =====
-- The root directory that `fat_read_root` of ATS/myfat/fat_inode.c reads.
use ats_ldd.Base.{
  ℕ, zero, suc, ◌+◌, ◌-◌, ◌*◌, ◌/◌, ◌^◌, ◌≤◌, ◌<◌, min, ◌≡◌, ◌≢◌, refl, ap, ◌∙◌, List, ok, length,
  get_or, arith,
}
use native.Mathlib.Nat.{one-le-pow, pow-succ', add-mul-div_right, div-eq_of_lt}
use ats_ldd.Fat.Volume.{Geometry, Device, Volume, blocksize, sec_per_clus, ent_eof}
use ats_ldd.Fat.Entry.Table.{table, IsFat32, InRange, InRange-int}
use ats_ldd.Fat.Chain.{Chain, Chain-first, Chain-length}
use ats_ldd.Fat.Cluster.{FatInode, limit, fat_get_cluster}
use ats_ldd.Fat.Cluster.Locate.{AllReadable, fat_get_cluster-Chain}
use ats_ldd.Fat.Cluster.Blocks.{IsLaidOut, HasChain}
use ats_ldd.Fat.Dir.{Disk, fat_subdirs}
use ats_ldd.Fat.Dir.Slots.{HasChain-IsMapped, chain_blocks, entry_count}
use ats_ldd.Fat.Dir.First.{count_if, both}
use ats_ldd.Fat.Dir.Search.{short_at, dir_at, fat_subdirs_count}
use ats_ldd.Inode.Fill.{
  VfsInode, InodeOptions, sign_extended, fat_calc_dir_size, root_start, root_end, fat_read_root,
}

-- A chain that a directory may have.
pub record DirChain (g : Geometry) (v : Volume) (start : ℕ) (cs : List ℕ) : Type 0 where
  pub chain : Chain (table g v) start cs
  pub some_cluster : start ≢ 0
  pub inside : (i : ℕ) → i < length cs → InRange g (get_or cs i 0)
  pub short : length cs ≤ limit g + 1
  pub few : length cs ≤ ent_eof
  pub small : length cs * 2 ^ g.cluster_bits < 2 ^ 31

sign_lem : (x : ℕ) → x < 2 ^ 31 → sign_extended x ≡ x
unfolding sign_extended
sign_lem x h = ground arith

calc_step :
    (d : Device) (g : Geometry) (v : Volume) (node : FatInode) (fclus dclus : ℕ)
    → 0 < node.i_start
    → fat_get_cluster d g v (record node { i_size = 0 }) ent_eof ≡ (ok 0, fclus, dclus, v)
    → fat_calc_dir_size d g v node
      ≡ (ok tt, record node { i_size = sign_extended ((fclus + 1) * 2 ^ g.cluster_bits) }, v)
unfolding fat_calc_dir_size
calc_step d g v node fclus dclus h run = ground arith

DirChain-int :
    {g : Geometry} {v : Volume} {start : ℕ} {cs : List ℕ}
    → IsFat32 g
    → DirChain g v start cs
    → start < 2 ^ 29
DirChain-int {g} {cs = cs} f c =
    let at = Chain-first c.chain in
    let pos = Chain-length c.chain in
    omega (arith, at, InRange-int g (get_or cs 0 0) f (c.inside 0 pos).1)

calc_lem :
    (d : Device) (g : Geometry) (v : Volume) (node : FatInode) (cs : List ℕ)
    → AllReadable d
    → IsFat32 g
    → DirChain g v node.i_start cs
    → fat_calc_dir_size d g v node
      ≡ (ok tt, record node { i_size = length cs * 2 ^ g.cluster_bits }, v)
unfolding fat_calc_dir_size
calc_lem d g v node cs all f c =
    let run =
      fat_get_cluster-Chain d g v (record node { i_size = 0 }) cs ent_eof all f (DirChain-int f c)
        c.some_cluster c.chain c.short in
    let pos = Chain-length c.chain in
    let last : min ent_eof (length cs - 1) + 1 ≡ length cs = omega (arith, c.few) in
    let size : (min ent_eof (length cs - 1) + 1) * 2 ^ g.cluster_bits
        ≡ length cs * 2 ^ g.cluster_bits =
      ap (λ (x : ℕ). x * 2 ^ g.cluster_bits) last in
    let signed : sign_extended ((min ent_eof (length cs - 1) + 1) * 2 ^ g.cluster_bits)
        ≡ length cs * 2 ^ g.cluster_bits =
      ap sign_extended size ∙ sign_lem (length cs * 2 ^ g.cluster_bits) c.small in
    let go : 0 < node.i_start = omega (arith, c.some_cluster) in
    calc_step d g v node (min ent_eof (length cs - 1)) (get_or cs (min ent_eof (length cs - 1)) 0)
      go run
    ∙ ap (λ (x : ℕ). (ok tt, record node { i_size = x }, v)) signed

pub pow_lem : (a b : ℕ) → 2 ^ (a + b) ≡ 2 ^ a * 2 ^ b
pow_lem a zero = let same : a + 0 ≡ a = omega arith in ap (λ (x : ℕ). 2 ^ x) same ∙ omega arith
pow_lem a (suc b) =
    let rest = pow_lem a b in
    let same : a + suc b ≡ suc (a + b) = omega arith in
    let up : 2 ^ (a + suc b) ≡ 2 * 2 ^ (a + b) = ap (λ (x : ℕ). 2 ^ x) same ∙ pow-succ' 2 (a + b) in
    let right : 2 ^ suc b ≡ 2 * 2 ^ b = pow-succ' 2 b in grind arith

-- The blocks of whole clusters.
whole_blocks :
    (g : Geometry)
    → IsLaidOut g
    → (n : ℕ) → (n * 2 ^ g.cluster_bits + (blocksize g - 1)) / blocksize g ≡ n * sec_per_clus g
whole_blocks g l n =
    let pow : 2 ^ g.cluster_bits ≡ 2 ^ g.blocksize_bits * 2 ^ g.spc_bits =
      ap (λ (x : ℕ). 2 ^ x) l.bits ∙ pow_lem g.blocksize_bits g.spc_bits in
    let pos : 0 < blocksize g = one-le-pow g.blocksize_bits 2 (omega arith) in
    let parts : n * 2 ^ g.cluster_bits + (blocksize g - 1)
        ≡ blocksize g - 1 + n * sec_per_clus g * blocksize g =
      grind arith in
    let less : (blocksize g - 1) / blocksize g ≡ 0 = div-eq_of_lt (omega arith) in
    ap (λ (x : ℕ). x / blocksize g) parts
    ∙ (add-mul-div_right (blocksize g - 1) (n * sec_per_clus g) pos ∙ omega (arith, less))

-- What `fat_read_root` makes of the inode.
abbrev pub root_inode : Geometry → InodeOptions → ℕ → ℕ → VfsInode → VfsInode
root_inode g opt root size i =
    let s = root_start opt root i in
    root_end g opt (record s { node = record (s.node) { i_size = size } })

-- The inode after the size, with its cluster list.
root_HasChain :
    (d : Device) (g : Geometry) (opt : InodeOptions) (root : ℕ) (k : Disk) (i : VfsInode)
    (cs : List ℕ)
    → IsLaidOut g
    → DirChain g k.vol root cs
    → HasChain g k.vol (root_inode g opt root (length cs * 2 ^ g.cluster_bits) i).node cs
unfolding root_start root_end
root_HasChain d g opt root k i cs l c = record {
  some_cluster = c.some_cluster;
  chain = c.chain;
  short = c.short;
  inside = c.inside;
  sized = omega (arith, whole_blocks g l (length cs));
}

read_root_run :
    (d : Device) (g : Geometry) (opt : InodeOptions) (root : ℕ) (k : Disk) (i : VfsInode)
    (size n : ℕ)
    → fat_calc_dir_size d g k.vol (root_start opt root i).node
      ≡ (ok tt, record ((root_start opt root i).node) { i_size = size }, k.vol)
    → fat_subdirs d g k (root_inode g opt root size i).node ≡ (ok n, k)
    → fat_read_root d g opt root k i
      ≡ (ok tt, record (root_inode g opt root size i) { i_nlink = n + 2 }, k)
unfolding fat_read_root
read_root_run d g opt root k i size n calc count = ground arith

-- On a volume whose blocks can all be read, for a root directory whose clusters are a chain of the
-- data area that a directory may have: `fat_read_root` returns 0 and leaves the disk as it is; the
-- inode has the size of the clusters and the chain, and its links are the subdirectories among its
-- entries and two more.
pub fat_read_root-HasChain :
    (d : Device) (g : Geometry) (opt : InodeOptions) (root : ℕ) (k : Disk) (i : VfsInode)
    (cs : List ℕ)
    → AllReadable d
    → IsLaidOut g
    → 1 ≤ g.data_start
    → 5 ≤ g.blocksize_bits
    → DirChain g k.vol root cs
    → (let (r, i', k') = fat_read_root d g opt root k i in
        (r ≡ ok tt)
        × (k' ≡ k)
        × (i'.node.i_size ≡ length cs * 2 ^ g.cluster_bits)
        × HasChain g k.vol i'.node cs
        × (i'.i_nlink
            ≡ count_if
                (both (short_at g (chain_blocks g cs) k) (dir_at g (chain_blocks g cs) k))
                0
                (entry_count g i'.node)
              + 2))
unfolding root_start root_end
fat_read_root-HasChain d g opt root k i cs all l first bits c =
    let size : ℕ = length cs * 2 ^ g.cluster_bits in
    let held : HasChain g k.vol (root_inode g opt root size i).node cs =
      root_HasChain d g opt root k i cs l c in
    let mapped =
      HasChain-IsMapped d g k.vol (root_inode g opt root size i).node cs all l held first bits in
    let count =
      fat_subdirs_count d g k (root_inode g opt root size i).node (chain_blocks g cs) mapped in
    let calc = calc_lem d g k.vol (root_start opt root i).node cs all l.fat32 c in
    rw (read_root_run d g opt root k i size _ calc count) (refl, refl, refl, held, refl)
