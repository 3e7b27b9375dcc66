-- ===== src/Mount/Tests.antt =====
-- Mounting of a small volume, and options.
use ats_ldd.Base.{
  ℕ, zero, suc, ◌+◌, ◌-◌, ◌^◌, ◌≤◌, ◌<◌, ◌≡◌, refl, ap, ◌∙◌, inl, inr, Bool, true, false, ◌&&◌,
  ◌||◌, [], ◌∷◌, Option, none, some, Result, ok, err, eio, einval, if◌then◌else◌, ◌==◌, leb, arith,
  Bool-cases, Option-cases, ==_iff, ℕ_discrete, get_or,
}
use ats_ldd.Fat.Volume.{Geometry, Device, written, undefined, errors_ro}
use ats_ldd.Fat.Entry.{entry_value}
use ats_ldd.Fat.Entry.Table.{table}
use ats_ldd.Fat.Chain.{last}
use ats_ldd.Fat.Cluster.Blocks.{IsLaidOut}
use ats_ldd.Inode.Fill.Root.{DirChain}
use ats_ldd.Mount.Root.{with_read_root, mount_root-DirChain}
use ats_ldd.Fat.Dir.{Disk}
use ats_ldd.Time.{Zone}
use ats_ldd.Inode.Fill.{VfsInode, dir_ops, epoch}
use ats_ldd.Mount.Options.{
  not_write_bits, Token, Piece, MountOptions, Caller, opt_uid, go_on, opt_quiet, option_loop,
  apply_token, token_of, defaults, finish_options, parse_options,
}
use ats_ldd.Mount.Early.{TakesNumber, uid, parse_options-bad_number}
use ats_ldd.Mount.{
  Numbers, Mounting, BootSector, FreeInfo, Mounted, check_boot, take_blocksize, layout,
  total_clusters, read_fsinfo, bound_info, geometry_of, mounted_disk, mount_root, fat_fill_super,
}
use ats_ldd.Mount.Ready.{IsNumbers, HasWidths, IsReady}
use ats_ldd.Mount.Layout.{fat_fill_super-IsReady}

-- The exponent of a power of two below `2 ^ k`.
exponent : ℕ → ℕ → Option ℕ
exponent n zero = none
exponent n (suc k) = let rest = exponent n k in if n == 2 ^ k then some k else rest

exponent_lem : (n k e : ℕ) → exponent n k ≡ some e → n ≡ 2 ^ e
unfolding exponent
exponent_lem n zero e h = absurd (ground arith)
exponent_lem n (suc k) e h = elim (Bool-cases (n == 2 ^ k)) [
  | inl y ↦ (==_iff n (2 ^ k)).0 y ∙ ap (λ (x : ℕ). 2 ^ x) (ground arith)
  | inr y ↦ exponent_lem n k e (ground arith)
]

abbrev numbers : Numbers
numbers = record {
  fat_valid_media = λ m. leb 248 m || m == 240;
  is_power_of_2 = λ n. elim (exponent n 32) [ none ↦ false | some k ↦ true ];
  ffs = λ n. elim (exponent n 32) [ none ↦ 0 | some k ↦ k + 1 ];
}

all_below : ℕ → (ℕ → Bool) → Bool
all_below zero p = true
all_below (suc n) p = p n && all_below n p

all_below_sound : (n : ℕ) (p : ℕ → Bool) (k : ℕ) → all_below n p ≡ true → k < n → p k ≡ true
unfolding all_below
all_below_sound zero p k h l = absurd (omega arith)
all_below_sound (suc n) p k h l = elim (ℕ_discrete k n) [
  | yes e ↦ ground (arith, ap p e)
  | no ne ↦ all_below_sound n p k (ground arith) (omega arith)
]

first_set_all : all_below 32 (λ k. numbers.ffs (2 ^ k) == k + 1) ≡ true
unfolding all_below exponent
first_set_all = refl

numbers-IsNumbers : IsNumbers numbers
numbers-IsNumbers = record {
  power = λ n h. elim (Option-cases (exponent n 32)) [
    | inl z ↦ absurd (ground arith)
    | inr (k, z) ↦ (k, exponent_lem n 32 k z)
  ];
  first_set =
      λ k h. (==_iff (numbers.ffs (2 ^ k)) (k + 1)).0 (all_below_sound 32 _ k first_set_all h);
}

-- A volume of 100 sectors with two tables of a sector each, and two sectors in a cluster.
abbrev boot_sector : BootSector
boot_sector = record {
  sector_size = 512;
  sec_per_clus = 2;
  reserved = 32;
  fats = 2;
  dir_entries = 0;
  sectors = 0;
  media = 248;
  fat_length = 0;
  total_sect = 100;
  fat32_length = 1;
  root_cluster = 2;
  info_sector = 1;
}

widths : HasWidths boot_sector
widths = record {
  size = omega arith;
  spc = omega arith;
  reserved = omega arith;
  fats = omega arith;
  dir_entries = omega arith;
  fat32_length = omega arith;
}

abbrev new_inode : VfsInode
new_inode = record {
  node = record {
    i_start = 0;
    i_logstart = 0;
    i_size = 0;
    i_blocks = 0;
    mmu_private = 0;
    nr_caches = 0;
    cache_valid_id = 1;
    is_root = true;
    is_dir = true;
    is_dirsync = false;
  };
  i_pos = 0;
  i_uid = 0;
  i_gid = 0;
  i_version = 1;
  i_generation = 0;
  i_mode = λ i. false;
  i_attrs = λ i. false;
  i_immutable = false;
  i_nlink = 1;
  i_mtime = epoch;
  i_atime = epoch;
  i_ctime = epoch;
  ops = dir_ops;
}

abbrev device : Device
device = record {
  bread = λ b. true;
  getblk = λ b. true;
  write = λ b. written;
  sync_dirty = λ b. none;
  max_buf = 8;
}

-- The root directory has the cluster 2 only, and its entries are free.
abbrev words : ℕ → ℕ → ℕ
words b o = if b == 32 && o == 8 then 0x0fffffff else 0

abbrev bytes : ℕ → ℕ → ℕ
bytes b o = 0

abbrev mounting : BootSector → Mounting
mounting b = record {
  kzalloc = true;
  min_blocksize = 512;
  set_blocksize = true;
  boot = λ size. some b;
  fsinfo =
      λ size sector. some (record { is_fsinfo = true; free_clusters = 2000; next_cluster = 40 });
  load_nls_disk = true;
  load_nls_io = true;
  fat_inode = true;
  root_inode = some new_inode;
  d_alloc_root = true;
}

abbrev caller : Caller
caller = record { uid = 1; gid = 2; umask = 18; default_codepage = 437 }

abbrev utc : Zone
utc = record { west = 0; east = 0 }

abbrev plain : Option Token → Option ℕ → Piece
plain t n = record { in_fat = t; in_own = none; number = n; text = none }

abbrev mount_it : BootSector → Result Mounted
mount_it b =
    fat_fill_super device numbers (mounting b) utc caller false false true
      (some (plain (some opt_uid) (some 7) ∷ [])) words bytes

abbrev options : MountOptions
options = record (defaults caller true) { fs_uid = 7; allow_utime = not_write_bits 18 }

abbrev geometry : Geometry
geometry = geometry_of numbers errors_ro false 512 2 boot_sector 33

abbrev disk : Disk
disk =
    mounted_disk words bytes false
      (record { free_clusters = undefined; free_clus_valid = false; prev_free = 5 })

abbrev mounted : Mounted
mounted = with_read_root device utc geometry options 2 disk new_inode

geometry_values :
    (geometry.max_cluster ≡ 35)
    × (geometry.data_start ≡ 34)
    × (geometry.blocksize_bits ≡ 9)
    × (geometry.spc_bits ≡ 1)
    × (geometry.cluster_bits ≡ 10)
unfolding geometry_of exponent
geometry_values = (refl, refl, refl, refl, refl)

parsed : parse_options caller true (some (plain (some opt_uid) (some 7) ∷ [])) ≡ ok options
unfolding parse_options option_loop apply_token token_of finish_options defaults
parsed = refl

checked : check_boot numbers boot_sector ≡ true
unfolding check_boot exponent
checked = refl

took : take_blocksize (mounting boot_sector) 512 boot_sector ≡ ok (512, boot_sector)
unfolding take_blocksize
took = refl

laid :
    layout numbers (mounting boot_sector) options false 512 2 boot_sector
    ≡ ok (geometry, record { free_clusters = undefined; free_clus_valid = false; prev_free = 5 })
unfolding layout total_clusters bound_info read_fsinfo defaults geometry_of
laid = refl

to_root :
    mount_it boot_sector ≡ mount_root device (mounting boot_sector) utc geometry options 2 disk
unfolding fat_fill_super
to_root = rw (parsed, checked, took, laid) refl

at_zero : (i : ℕ) → i < 1 → (2 ≤ get_or (2 ∷ []) i 0) × (get_or (2 ∷ []) i 0 < 35)
at_zero zero l = (omega arith, omega arith)
at_zero (suc i) l = absurd (omega arith)

root_chain : DirChain geometry disk.vol 2 (2 ∷ [])
unfolding geometry_of exponent table mounted_disk entry_value
root_chain = record {
  chain = last refl;
  some_cluster = omega arith;
  inside = λ i l. at_zero i l;
  short = omega arith;
  few = omega arith;
  small = omega arith;
}

laid_out : IsLaidOut geometry
unfolding geometry_of exponent
laid_out = record {
  fat32 = record { shift = refl; bits = refl; big_blocks = omega arith; few = omega arith };
  bits = refl;
  fits = omega arith;
  unit = omega arith;
}

mount_runs : mount_it boot_sector ≡ ok mounted
mount_runs =
    to_root
    ∙ mount_root-DirChain device (mounting boot_sector) utc geometry options 2 disk new_inode
        (2 ∷ []) refl refl refl refl refl (λ b. refl) laid_out (omega (arith, geometry_values.1))
        (omega (arith, geometry_values.2)) root_chain

fat_fill_super-IsReady_example :
    (i : FreeInfo) × IsReady geometry (mounted_disk words bytes false i).vol
    × (mount_root device
          (mounting boot_sector)
          utc
          geometry
          options
          2
          (mounted_disk words bytes false i)
        ≡ ok mounted)
fat_fill_super-IsReady_example =
    fat_fill_super-IsReady device numbers (mounting boot_sector) utc caller false false true
      (some (plain (some opt_uid) (some 7) ∷ [])) words bytes boot_sector mounted mount_runs
      numbers-IsNumbers (λ size. refl) widths (omega (arith, geometry_values.0))

one_option :
    option_loop true (plain (some opt_quiet) none ∷ []) (defaults caller true)
    ≡ go_on (record (defaults caller true) { quiet = true })
unfolding option_loop apply_token token_of
one_option = refl

uid_option : TakesNumber (token_of (plain (some opt_uid) none))
unfolding token_of
uid_option = uid

parse_options-bad_number_example :
    parse_options caller true
      (some (plain (some opt_quiet) none ∷ plain (some opt_uid) none ∷ plain none none ∷ []))
    ≡ ok (record (defaults caller true) { quiet = true })
parse_options-bad_number_example =
    parse_options-bad_number caller true (plain (some opt_quiet) none ∷ [])
      (plain (some opt_uid) none) (plain none none ∷ [])
      (record (defaults caller true) { quiet = true }) one_option uid_option refl

unknown_option : parse_options caller true (some (plain none none ∷ [])) ≡ err einval
unfolding parse_options option_loop apply_token token_of defaults
unknown_option = refl

-- With a sector size that is not a power of two, and with a sector size below that of the device.
bad_size : mount_it (record boot_sector { sector_size = 513 }) ≡ err einval
unfolding fat_fill_super check_boot exponent
bad_size = rw parsed refl

small_size :
    take_blocksize (record (mounting boot_sector) { min_blocksize = 1024 }) 512 boot_sector
    ≡ err eio
unfolding take_blocksize
small_size = refl

-- A file system that says FAT16, and a volume with more clusters than the numbers of the format.
other_fat :
    layout numbers
      (mounting boot_sector)
      options
      false
      512
      2
      (record boot_sector { fat_length = 9 })
    ≡ err einval
unfolding layout total_clusters defaults
other_fat = refl

too_many :
    layout numbers
      (mounting boot_sector)
      options
      false
      512
      1
      (record boot_sector { fat32_length = 2 ^ 22; total_sect = 2 ^ 32 - 1 })
    ≡ err einval
unfolding layout total_clusters defaults
too_many = refl
