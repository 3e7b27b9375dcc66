-- ===== src/Inode/Write/Entry.antt =====
-- What `fat_fill_inode` of ATS/myfat/fat_inode.c reads of an entry that `fat_write_inode` wrote.
use native.Mathlib.Nat.{mod-lt}
use ats_ldd.Base.{
  ℕ, ◌+◌, ◌-◌, ◌*◌, ◌/◌, ◌%◌, ◌^◌, ◌≤◌, ◌<◌, ◌≡◌, ◌≢◌, ◌⊎◌, refl, ap, false, arith, Bool-cases, inl,
  inr,
}
use ats_ldd.Fat.Dir.{entry_size}
use ats_ldd.Fat.Fresh.{copy_bytes}
use ats_ldd.Time.{Zone, Timespec, fat_time_unix2fat}
use ats_ldd.Inode.{Bits, dir_bit, s_isdir, fat_make_attrs}
use ats_ldd.Inode.Fill.{VfsInode, InodeOptions, bits_of}
use ats_ldd.Inode.Write.{number_of, entry_of}

pub copied_at :
    (m : ℕ → ℕ → ℕ) (b o : ℕ) (entry : ℕ → ℕ) (c : ℕ)
    → c < entry_size
    → copy_bytes m b o entry 0 entry_size b (o + c) ≡ entry c
unfolding copy_bytes
copied_at m b o entry c h =
    let back : 0 + (o + c - o) ≡ c = omega arith in let there = ap entry back in ground arith

pub copied_apart :
    (m : ℕ → ℕ → ℕ) (b o : ℕ) (entry : ℕ → ℕ) (b' o' : ℕ)
    → (b ≢ b') ⊎ ((o' < o) ⊎ (o + entry_size ≤ o'))
    → copy_bytes m b o entry 0 entry_size b' o' ≡ m b' o'
unfolding copy_bytes
copied_apart m b o entry b' o' h = ground arith

-- Bit 4 of a byte.
pub bit_4 : (a : Bits) → bits_of (number_of a) dir_bit ≡ a dir_bit
unfolding number_of
bit_4 a = ground arith

time_word : (z : Zone) (t : Timespec) → (fat_time_unix2fat z t).time < 2 ^ 16
unfolding fat_time_unix2fat
time_word z t =
    let second : ℕ = t.tv_sec + z.east * 60 - z.west * 60 in
    let hour = mod-lt (second / 3600) {m = 24} (omega arith) in
    let minute = mod-lt (second / 60) {m = 60} (omega arith) in
    let rest = mod-lt second {m = 60} (omega arith) in ground arith

date_word : (z : Zone) (t : Timespec) → (fat_time_unix2fat z t).date < 2 ^ 16
unfolding fat_time_unix2fat
date_word z t = ground arith

-- The fields of the entry that was written.
pub entry_fields :
    (opt : InodeOptions) (i : VfsInode) (old : ℕ → ℕ)
    → (let e = entry_of opt i old in
        let t = fat_time_unix2fat (opt.zone) (i.i_mtime) in
        (e 11 ≡ number_of (fat_make_attrs (opt.modes) (i.i_mode) (i.i_attrs)))
        × (e 20 + e 21 * 2 ^ 8 ≡ i.node.i_logstart / 2 ^ 16 % 2 ^ 16)
        × (e 26 + e 27 * 2 ^ 8 ≡ i.node.i_logstart % 2 ^ 16)
        × (e 22 + e 23 * 2 ^ 8 ≡ t.time)
        × (e 24 + e 25 * 2 ^ 8 ≡ t.date))
unfolding entry_of
entry_fields opt i old =
    let t = time_word (opt.zone) (i.i_mtime) in
    let d = date_word (opt.zone) (i.i_mtime) in
    elim (Bool-cases (opt.isvfat)) [
      | inl y ↦ rw y (refl, omega arith, omega arith, omega arith, omega arith)
      | inr y ↦ rw y (refl, omega arith, omega arith, omega arith, omega arith)
    ]

pub entry_size_lem :
    (opt : InodeOptions) (i : VfsInode) (old : ℕ → ℕ)
    → s_isdir (i.i_mode) ≡ false
    → i.node.i_size < 2 ^ 32
    → (let e = entry_of opt i old in
        (e 28 + e 29 * 2 ^ 8) + (e 30 + e 31 * 2 ^ 8) * 2 ^ 16 ≡ i.node.i_size)
unfolding entry_of
entry_size_lem opt i old d l = elim (Bool-cases (opt.isvfat)) [
  | inl y ↦ rw y (rw d (omega arith))
  | inr y ↦ rw y (rw d (omega arith))
]
