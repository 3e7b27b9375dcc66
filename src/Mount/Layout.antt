-- ===== src/Mount/Layout.antt =====
-- What `fat_fill_super` of ATS/myfat/sb_mgr.c accepts.
use native.Mathlib.Nat.{one-le-pow, pow-le-pow_right, two-pow-succ}
use ats_ldd.Base.{
  ℕ, ◌+◌, ◌%◌, ◌^◌, ◌≤◌, ◌<◌, ◌≡◌, ◌⊎◌, sym, ap, ap₂, subst, ◌∙◌, inl, inr, Bool, true, not, ◌&&◌,
  Option, some, Result, ok, err, oops, einval, enomem, and_then, and_then-ok, guard-ok, dec_le, suc,
  ltb, arith, Bool-cases, Option-cases, List,
}
use ats_ldd.Fat.Volume.{Geometry, Device, start_ent}
use ats_ldd.Fat.Dir.{Disk}
use mathlib.Core.Option.{some-injective}
use ats_ldd.Inode.Fill.{VfsInode, fat_read_root}
use ats_ldd.Time.{Zone}
use ats_ldd.Mount.Options.{Piece, MountOptions, Caller, parse_options}
use ats_ldd.Mount.{
  Numbers, Mounting, BootSector, FreeInfo, max_fat32, check_boot, take_blocksize, layout,
  total_clusters, bound_info, mounted_disk, mount_root, with_root, inode_options, fat_fill_super,
  Mounted,
}
use ats_ldd.Mount.Ready.{HasWidths, IsReady, ready_lem, clusters_lem, layout_inv, IsNumbers}

exp-le : (j k : ℕ) → 2 ^ j ≤ 2 ^ k → j ≤ k
exp-le j k h = elim (dec_le j k) [
  | yes l ↦ l
  | no l ↦
      let up : 2 ^ suc k ≤ 2 ^ j =
        pow-le-pow_right {n = 2} (omega arith) {i = suc k} (omega arith) in
      let one = one-le-pow k 2 (omega arith) in absurd (omega (arith, two-pow-succ k))
]

small_exp : (c : ℕ) → 2 ^ c < 2 ^ 8 → c ≤ 7
small_exp c h = elim (dec_le c 7) [
  | yes l ↦ l
  | no l ↦
      absurd (omega (arith, pow-le-pow_right {n = 2} (omega arith) {i = 8} {j = c} (omega arith)))
]

-- The parts of `check_boot`.
checked_lem :
    (num : Numbers) (b : BootSector)
    → IsNumbers num
    → HasWidths b
    → check_boot num b ≡ true
    → (1 ≤ b.reserved)
      × ((a : ℕ) × (b.sector_size % 2 ^ 16 ≡ 2 ^ a) × (9 ≤ a) × (a ≤ 12))
      × ((c : ℕ) × (b.sec_per_clus ≡ 2 ^ c) × (c ≤ 7))
unfolding check_boot
checked_lem num b n w h =
    let size : ℕ = b.sector_size % 2 ^ 16 in
    let (a, ea) = n.power size (ground arith) in
    let (c, ec) = n.power b.sec_per_clus (ground arith) in
    let low : 512 ≤ size = ground arith in
    let high : size ≤ 4096 = ground arith in
    (
      ground arith,
      (a, ea, exp-le 9 a (omega arith), exp-le a 12 (omega arith)),
      (c, ec, small_exp c (omega (arith, w.spc))),
    )

-- The block size is the sector size.
take_lem :
    (m : Mounting) (size : ℕ) (b : BootSector) (r : ℕ × BootSector)
    → take_blocksize m size b ≡ ok r
    → (r ≡ (size, b)) ⊎ ((b' : BootSector) × (m.boot size ≡ some b') × (r ≡ (size, b')))
unfolding take_blocksize
take_lem m size b r h = elim (Bool-cases (ltb size m.min_blocksize)) [
  | inl y ↦ absurd (ground arith)
  | inr y ↦ elim (Bool-cases (ltb m.min_blocksize size)) [
    | inr z ↦ let same : m.min_blocksize ≡ size = ground arith in inl (ground arith)
    | inl z ↦ elim (Bool-cases m.set_blocksize) [
      | inr s ↦ absurd (ground arith)
      | inl s ↦ elim (Option-cases (m.boot size)) [
        | inl o ↦ absurd (ground arith)
        | inr (b', o) ↦ inr (b', o, ground arith)
      ]
    ]
  ]
]

with_root-ok :
    (m : Mounting) (g : Geometry) (opts : MountOptions) (o : Result (Unit {0}) × VfsInode × Disk)
    (r : Mounted)
    → with_root m g opts o ≡ ok r
    → (r.geometry ≡ g) × (r.options ≡ opts)
unfolding with_root
with_root-ok m g opts (err e, root, k) r h = absurd (ground arith)
with_root-ok m g opts (oops, root, k) r h = absurd (ground arith)
with_root-ok m g opts (ok _, root, k) r h =
    let (_, h1) = guard-ok (not m.d_alloc_root) enomem _ h in (ground arith, ground arith)

mount_root-ok :
    (d : Device) (m : Mounting) (sys_tz : Zone) (g : Geometry) (opts : MountOptions) (root : ℕ)
    (k : Disk) (r : Mounted)
    → mount_root d m sys_tz g opts root k ≡ ok r
    → (r.geometry ≡ g) × (r.options ≡ opts)
unfolding mount_root
mount_root-ok d m sys_tz g opts root k r h =
    let (_, h1) = guard-ok (not m.load_nls_disk) einval _ h in
    let (_, h2) = guard-ok (opts.isvfat && not m.load_nls_io) einval _ h1 in
    let (_, h3) = guard-ok (not m.fat_inode) enomem _ h2 in
    elim (Option-cases (m.root_inode)) [
      | inl z ↦ absurd (ground arith)
      | inr (i, z) ↦
          with_root-ok m g opts (fat_read_root d g (inode_options sys_tz opts) root k i) r
            (rw z at h3)
    ]

-- From the boot sector on that was checked.
finish_ok :
    (d : Device) (num : Numbers) (m : Mounting) (sys_tz : Zone) (synchronous rdonly : Bool)
    (words bytes : ℕ → ℕ → ℕ) (b : BootSector) (r : Mounted) (opts : MountOptions)
    → IsNumbers num
    → HasWidths b
    → (a e : ℕ) → 9 ≤ a
    → a ≤ 12
    → e ≤ 7
    → 1 ≤ b.reserved
    → r.geometry.max_cluster < max_fat32 + start_ent
    → (spc : ℕ) → spc ≡ 2 ^ e
    → (sb : ℕ × BootSector) → sb ≡ (2 ^ a, b)
    → and_then (layout num m opts synchronous sb.0 spc sb.1) (λ gi.
      mount_root d m sys_tz gi.0 opts sb.1.root_cluster (mounted_disk words bytes rdonly gi.1))
      ≡ ok r
    → (i : FreeInfo) × IsReady r.geometry (mounted_disk words bytes rdonly i).vol
      × (mount_root d m sys_tz r.geometry r.options b.root_cluster
            (mounted_disk words bytes rdonly i)
          ≡ ok r)
finish_ok d num m sys_tz synchronous rdonly words bytes b r opts n w a e la ua ue first few spc' es
      sb eb h =
    let h1 =
      ap₂
        (λ (x : ℕ) (y : ℕ × BootSector). and_then (layout num m opts synchronous y.0 x y.1) (λ gi.
          mount_root d m sys_tz gi.0 opts y.1.root_cluster (mounted_disk words bytes rdonly gi.1)))
        (sym es) (sym eb)
      ∙ h in
    let (gi, laid, h2) = and_then-ok (layout num m opts synchronous (2 ^ a) (2 ^ e) b) _ h1 in
    let (raw, long, small, parts) = layout_inv num m opts synchronous (2 ^ a) (2 ^ e) b gi laid in
    let total : ℕ = total_clusters (2 ^ a) (2 ^ e) b.fat32_length b in
    let h3 =
      ap
        (λ (x : Geometry × FreeInfo).
          mount_root d m sys_tz x.0 opts b.root_cluster (mounted_disk words bytes rdonly x.1))
        (sym parts)
      ∙ h2 in
    let (same_g, same_o) = mount_root-ok d m sys_tz _ opts b.root_cluster _ r h3 in
    let at : r.geometry.max_cluster ≡ total + start_ent =
      ap (λ (x : Geometry). x.max_cluster) same_g
      ∙ clusters_lem num n opts.errors synchronous a e b w in
    (
      bound_info total raw,
      subst (λ x. IsReady x (mounted_disk words bytes rdonly (bound_info total raw)).vol)
          (sym same_g)
          (ready_lem num n opts.errors synchronous a e b w la ua ue long first (omega arith) raw
            words bytes rdonly),
      ap₂
            (λ (x : Geometry) (o : MountOptions).
              mount_root d m sys_tz x o b.root_cluster
                (mounted_disk words bytes rdonly (bound_info total raw)))
            same_g same_o
          ∙ h3,
    )

-- Where `fat_fill_super` succeeds, the boot sector reads the same with blocks of every size, its
-- fields have their widths, and the volume has fewer clusters than `MAX_FAT32`: what it hands to the
-- reading of the root is a volume that the operations can work on.
pub fat_fill_super-IsReady :
    (d : Device) (num : Numbers) (m : Mounting) (sys_tz : Zone) (c : Caller)
    (synchronous rdonly isvfat : Bool) (options : Option (List Piece)) (words bytes : ℕ → ℕ → ℕ)
    (b : BootSector) (r : Mounted)
    → fat_fill_super d num m sys_tz c synchronous rdonly isvfat options words bytes ≡ ok r
    → IsNumbers num
    → ((size : ℕ) → m.boot size ≡ some b)
    → HasWidths b
    → r.geometry.max_cluster < max_fat32 + start_ent
    → (i : FreeInfo) × IsReady r.geometry (mounted_disk words bytes rdonly i).vol
      × (mount_root d m sys_tz r.geometry r.options b.root_cluster
            (mounted_disk words bytes rdonly i)
          ≡ ok r)
unfolding fat_fill_super
fat_fill_super-IsReady d num m sys_tz c synchronous rdonly isvfat options words bytes b r h n boot w
      few =
    let (alloc, h1) = guard-ok (not m.kzalloc) enomem _ h in
    let (opts, parsed, h2) = and_then-ok (parse_options c isvfat options) _ h1 in
    let h3 = rw (boot m.min_blocksize) at h2 in
    let (checks, h4) = guard-ok (not (check_boot num b)) einval _ h3 in
    let (first, (a, ea, la, ua), (e, ee, ue)) = checked_lem num b n w (ground arith) in
    let (sb, took, h5) = and_then-ok (take_blocksize m (b.sector_size % 2 ^ 16) b) _ h4 in
    let same : sb ≡ (b.sector_size % 2 ^ 16, b) =
      elim (take_lem m (b.sector_size % 2 ^ 16) b sb took) [
        | inl y ↦ y
        | inr (b', there, y) ↦
            let eb : b' ≡ b = some-injective _ _ (sym there ∙ boot (b.sector_size % 2 ^ 16)) in
            y ∙ ap (λ x. (b.sector_size % 2 ^ 16, x)) eb
      ] in
    finish_ok d num m sys_tz synchronous rdonly words bytes b r opts n w a e la ua ue first few
      b.sec_per_clus ee sb (same ∙ ap (λ x. (x, b)) ea) h5
