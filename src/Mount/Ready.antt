-- ===== src/Mount/Ready.antt =====
-- The layout that `fat_fill_super` of ATS/myfat/sb_mgr.c computes, and what the functions on the table
-- and on files ask of it.
use native.Mathlib.Nat.{mod-eq_of_lt, mod-lt, mul-le-mul, one-le-pow, pow-le-pow_right}
use ats_ldd.Base.{
  ℕ, ◌+◌, ◌-◌, ◌*◌, ◌/◌, ◌%◌, ◌^◌, ◌≤◌, ◌<◌, ◌≡◌, ◌≢◌, ◌⊎◌, refl, sym, ap, ◌∙◌, inl, inr, min, Bool,
  true, not, ◌&&◌, ok, ◌==◌, ltb, arith, Bool-cases, Option-cases,
}
use ats_ldd.Fat.Volume.{Geometry, Volume, OnError, undefined, start_ent}
use ats_ldd.Fat.Entry.{fat_ent_access_init}
use ats_ldd.Fat.Entry.Table.{IsFat32}
use ats_ldd.Fat.Mirror.Copies.{IsCovered}
use ats_ldd.Fat.Cluster.Blocks.{IsLaidOut}
use ats_ldd.Inode.Fill.Root.{pow_lem}
use ats_ldd.Mount.Options.{MountOptions}
use ats_ldd.Mount.{
  Numbers, Mounting, BootSector, FreeInfo, max_fat32, layout, total_clusters, clusters_on_disk,
  bound_info, geometry_of, read_fsinfo, fsinfo_sector, mounted_disk, data_start_of,
}

-- What the kernel says of its functions on numbers.
pub record IsNumbers (num : Numbers) : Type 0 where
  pub power : (n : ℕ) → num.is_power_of_2 n ≡ true → (k : ℕ) × (n ≡ 2 ^ k)
  pub first_set : (k : ℕ) → k < 32 → num.ffs (2 ^ k) ≡ k + 1

-- The fields of the boot sector have the widths of the format.
pub record HasWidths (b : BootSector) : Type 0 where
  pub size : b.sector_size < 2 ^ 16
  pub spc : b.sec_per_clus < 2 ^ 8
  pub reserved : b.reserved < 2 ^ 16
  pub fats : b.fats < 2 ^ 8
  pub dir_entries : b.dir_entries < 2 ^ 16
  pub fat32_length : b.fat32_length < 2 ^ 32

-- What the operations on a mounted volume ask of it.
pub record IsReady (g : Geometry) (v : Volume) : Type 0 where
  pub fat32 : IsFat32 g
  pub laid_out : IsLaidOut g
  pub covered : IsCovered g
  pub entries : 5 ≤ g.blocksize_bits
  pub first : 1 ≤ g.data_start
  pub prev_free : start_ent ≤ v.prev_free
  pub prev_inside : start_ent < g.max_cluster → v.prev_free < g.max_cluster
  pub count : (v.free_clusters ≡ undefined) ⊎ (v.free_clusters + start_ent ≤ g.max_cluster)

-- The counters are brought into range.
bound_lem :
    (total : ℕ) (i : FreeInfo)
    → (start_ent ≤ (bound_info total i).prev_free)
      × (start_ent < total + start_ent → (bound_info total i).prev_free < total + start_ent)
      × (((bound_info total i).free_clusters ≡ undefined)
          ⊎ ((bound_info total i).free_clusters + start_ent ≤ total + start_ent))
unfolding bound_info
bound_lem total i =
    let l = mod-lt i.prev_free {m = total + start_ent} (omega arith) in
    let count : ((bound_info total i).free_clusters ≡ undefined)
        ⊎ ((bound_info total i).free_clusters + start_ent ≤ total + start_ent) =
      elim (Bool-cases (not (i.free_clusters == undefined) && ltb total i.free_clusters)) [
        | inl y ↦ inl (rw y refl)
        | inr y ↦ elim (Bool-cases (i.free_clusters == undefined)) [
          | inl z ↦ inl (ground arith)
          | inr z ↦ inr (ground arith)
        ]
      ] in
    (ground (arith, l), (λ h. ground (arith, l)), count)

-- The table has a word for each cluster.
covered_words :
    (c x : ℕ)
    → 512 ≤ x
    → x < 2 ^ 44
    → min c ((x * 8 % 2 ^ 64 / 32 % 2 ^ 32 + 2 ^ 32 - 2) % 2 ^ 32) ≤ max_fat32
    → (min c ((x * 8 % 2 ^ 64 / 32 % 2 ^ 32 + 2 ^ 32 - 2) % 2 ^ 32) + 2) * 4 ≤ x
covered_words c x l u h = omega arith

covered_lem :
    (size spc : ℕ) (s : BootSector)
    → 512 ≤ s.fat32_length * size
    → s.fat32_length * size < 2 ^ 44
    → total_clusters size spc s.fat32_length s ≤ max_fat32
    → (total_clusters size spc s.fat32_length s + 2) * 4 ≤ s.fat32_length * size
unfolding total_clusters
covered_lem size spc s l u h =
    covered_words (clusters_on_disk size spc s.fat32_length s) (s.fat32_length * size) l u h

pub layout_inv :
    (num : Numbers) (m : Mounting) (opts : MountOptions) (synchronous : Bool) (size spc : ℕ)
    (b : BootSector) (r : Geometry × FreeInfo)
    → layout num m opts synchronous size spc b ≡ ok r
    → (i : FreeInfo) × (b.fat32_length ≢ 0)
      × (total_clusters size spc b.fat32_length b ≤ max_fat32)
      × (r ≡ (
        geometry_of num opts.errors synchronous size spc b
            (total_clusters size spc b.fat32_length b),
        bound_info (total_clusters size spc b.fat32_length b) i,
      ))
unfolding layout
layout_inv num m opts synchronous size spc b r h =
    elim (Bool-cases (b.fat_length == 0 && not (b.fat32_length == 0))) [
      | inr y ↦ absurd (ground arith)
      | inl y ↦ elim (Option-cases (m.fsinfo size (fsinfo_sector b))) [
        | inl z ↦ absurd (ground arith)
        | inr (x, z) ↦ (read_fsinfo opts.usefree x, ground arith, ground arith, ground arith)
      ]
    ]

module _ (num : Numbers) (n : IsNumbers num) (errors : OnError) (synchronous : Bool) (a c : ℕ)
    (b : BootSector) (w : HasWidths b) where
  abbrev size : ℕ
  size = 2 ^ a

  abbrev spc : ℕ
  spc = 2 ^ c

  abbrev total : ℕ
  total = total_clusters size spc b.fat32_length b

  abbrev geometry : Geometry
  geometry = geometry_of num errors synchronous size spc b total

  pub clusters_lem : geometry.max_cluster ≡ total + start_ent
  unfolding geometry_of fat_ent_access_init
  clusters_lem = refl

  pub ready_lem :
      9 ≤ a
      → a ≤ 12
      → c ≤ 7
      → b.fat32_length ≢ 0
      → 1 ≤ b.reserved
      → total < max_fat32
      → (i : FreeInfo) (words bytes : ℕ → ℕ → ℕ) (rdonly : Bool)
      → IsReady geometry (mounted_disk words bytes rdonly (bound_info total i)).vol
  unfolding geometry_of fat_ent_access_init mounted_disk
  ready_lem la ua uc long reserved few i words bytes rdonly =
      let sa : num.ffs size - 1 ≡ a = omega (arith, n.first_set a (omega arith)) in
      let sc : num.ffs spc - 1 ≡ c = omega (arith, n.first_set c (omega arith)) in
      let low : 512 ≤ size = pow-le-pow_right {n = 2} (omega arith) {i = 9} la in
      let high : size ≤ 4096 = pow-le-pow_right {n = 2} (omega arith) {j = 12} ua in
      let part : spc ≤ 128 = pow-le-pow_right {n = 2} (omega arith) {j = 7} uc in
      let one : 1 ≤ spc = one-le-pow c 2 (omega arith) in
      let cluster : size * spc ≤ 4096 * 128 = mul-le-mul high part in
      let whole : size * spc % 2 ^ 32 ≡ 2 ^ (a + c) =
        mod-eq_of_lt (omega arith) ∙ sym (pow_lem a c) in
      let sb : num.ffs (size * spc % 2 ^ 32) - 1 ≡ a + c =
        ap (λ x. num.ffs x - 1) whole ∙ omega (arith, n.first_set (a + c) (omega arith)) in
      let eb : 2 ^ (num.ffs size - 1) ≡ size = ap (λ (x : ℕ). 2 ^ x) sa in
      let ec : 2 ^ (num.ffs spc - 1) ≡ spc = ap (λ (x : ℕ). 2 ^ x) sc in
      let one_size : 1 * 512 ≤ b.fat32_length * size = mul-le-mul {n₁ = 1} (omega arith) low in
      let most : b.fat32_length * size ≤ (2 ^ 32 - 1) * 4096 =
        mul-le-mul {n₂ = 2 ^ 32 - 1} (omega (arith, w.fat32_length)) high in
      let tables : b.fats * b.fat32_length ≤ (2 ^ 8 - 1) * (2 ^ 32 - 1) =
        mul-le-mul {n₂ = 2 ^ 8 - 1} {m₂ = 2 ^ 32 - 1} (omega (arith, w.fats))
          (omega (arith, w.fat32_length)) in
      let area : (total + start_ent) * spc ≤ 2 ^ 28 * 128 =
        mul-le-mul {n₂ = 2 ^ 28} (omega arith) part in
      let start : data_start_of size b.fat32_length b
          ≡ b.reserved + b.fats * b.fat32_length + b.dir_entries * 32 / size % 2 ^ 32 =
        mod-eq_of_lt (omega (arith, w.reserved)) in
      let (lo, hi, count) = bound_lem total i in
      record {
        fat32 = record { shift = refl; bits = refl; big_blocks = omega arith; few = omega arith };
        laid_out = record {
          fat32 = record { shift = refl; bits = refl; big_blocks = omega arith; few = omega arith };
          bits = omega arith;
          fits = rw ec (omega (arith, w.reserved));
          unit = one-le-pow (num.ffs spc - 1) 2 (omega arith);
        };
        covered = record {
          room = rw eb (covered_lem size spc b (omega arith) (omega arith) (omega arith));
        };
        entries = omega arith;
        first = omega arith;
        prev_free = lo;
        prev_inside = hi;
        count = count;
      }
