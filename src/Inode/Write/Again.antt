-- ===== src/Inode/Write/Again.antt =====
-- A file whose inode `fat_write_inode` of ATS/myfat/fat_inode.c wrote, filled again from its entry.
use native.Mathlib.Nat.{
  mod-eq_of_lt, div-eq_of_lt, add-mul-div_right, add-mul-mod_self_right, one-le-pow,
}
use ats_ldd.Base.{
  ℕ, ◌+◌, ◌*◌, ◌/◌, ◌%◌, ◌^◌, ◌≤◌, ◌<◌, ◌≡◌, ◌≢◌, ◌⊎◌, refl, ap, ap₂, ◌∙◌, Bool, true, false, [],
  none, ok, if◌then◌else◌, arith,
}
use ats_ldd.Fat.Volume.{Geometry, Device}
use ats_ldd.Fat.Dir.{
  Disk, Address, attr_at, fat_make_i_pos, dir_per_block, entry_size, dir_per_block_bits,
}
use ats_ldd.Time.{fat_time_unix2fat, fat_time_fat2unix}
use ats_ldd.Inode.{dir_bit, s_isdir, fat_make_attrs}
use ats_ldd.Inode.Fill.{
  VfsInode, InodeOptions, bits_of, le16, le32, start_of, fat_fill_inode, file_ops,
}
use ats_ldd.Fat.Unlink.{mark}
use ats_ldd.Inode.Write.{entry_of, answer, address_of, write_entry, write_loop, fat_write_inode}
use ats_ldd.Inode.Write.Entry.{copied_at, copied_apart, bit_4, entry_fields, entry_size_lem}

address_lem :
    (g : Geometry) (b e : ℕ)
    → e < dir_per_block g
    → address_of g (fat_make_i_pos g (b, e * entry_size)) ≡ (b, e * entry_size)
unfolding fat_make_i_pos
address_lem g b e h =
    let pos : 0 < dir_per_block g = one-le-pow (dir_per_block_bits g) 2 (omega arith) in
    let same : b * dir_per_block g + e * entry_size / entry_size ≡ e + b * dir_per_block g =
      omega arith in
    let block : (e + b * dir_per_block g) / dir_per_block g ≡ b =
      add-mul-div_right e b pos ∙ omega (arith, div-eq_of_lt h) in
    let number : (e + b * dir_per_block g) % dir_per_block g ≡ e =
      add-mul-mod_self_right e b (dir_per_block g) ∙ mod-eq_of_lt h in
    ap (address_of g) same ∙ ap₂ (λ (x y : ℕ). (x, y * entry_size)) block number

stays_lem :
    (d : Device) (g : Geometry) (opt : InodeOptions) (wait : Bool) (i : VfsInode) (k : Disk)
    (i_pos : ℕ)
    → i_pos ≢ 0
    → d.bread ((address_of g i_pos).0) ≡ true
    → write_loop d g opt wait i k i_pos [] ≡ write_entry d opt wait i k (address_of g i_pos)
unfolding write_loop
stays_lem d g opt wait i k i_pos pos reads = ground arith

write_run :
    (d : Device) (g : Geometry) (opt : InodeOptions) (wait : Bool) (i : VfsInode) (k : Disk)
    (a : Address)
    → i.node.is_root ≡ false
    → i.i_pos ≢ 0
    → address_of g i.i_pos ≡ a
    → d.bread a.0 ≡ true
    → fat_write_inode d g opt wait [] i k ≡ write_entry d opt wait i k a
unfolding fat_write_inode
write_run d g opt wait i k a root pos at reads =
    let there : d.bread ((address_of g i.i_pos).0) ≡ true =
      ap (λ (x : Address). d.bread x.0) at ∙ reads in
    rw root (stays_lem d g opt wait i k i.i_pos pos there ∙ ap (write_entry d opt wait i k) at)

-- What `fat_fill_inode` makes of an entry that is no directory.
fill_run :
    (d : Device) (g : Geometry) (opt : InodeOptions) (seconds : ℕ) (k : Disk) (fresh : VfsInode)
    (a : Address)
    → bits_of (attr_at k a) dir_bit ≡ false
    → (let (r, i', k') = fat_fill_inode d g opt seconds k fresh a in
        (r ≡ ok tt)
        × (k' ≡ k)
        × (i'.node.i_start ≡ start_of g k a)
        × (i'.node.i_logstart ≡ start_of g k a)
        × (i'.node.i_size ≡ le32 k a 28)
        × (i'.i_mtime
            ≡ fat_time_fat2unix
                (opt.zone)
                (record { time = le16 k a 22; date = le16 k a 24; time_cs = 0 }))
        × (i'.ops ≡ file_ops))
unfolding fat_fill_inode
fill_run d g opt seconds k fresh a h = rw h (refl, refl, refl, refl, refl, refl, refl)

status_lem :
    (d : Device) (opt : InodeOptions) (wait : Bool) (i : VfsInode) (k : Disk) (a : Address)
    → (write_entry d opt wait i k a).0 ≡ answer (if wait then d.sync_dirty a.0 else none)
unfolding write_entry
status_lem d opt wait i k a = refl

-- The entry on the disk after it was written.
module _ (d : Device) (g : Geometry) (opt : InodeOptions) (wait : Bool) (i : VfsInode) (k : Disk)
    (b o : ℕ) (file : s_isdir (i.i_mode) ≡ false) (plain : i.i_attrs dir_bit ≡ false)
    (size : i.node.i_size < 2 ^ 32) (start : i.node.i_logstart < 2 ^ 32) where
  abbrev after : Disk
  after = (write_entry d opt wait i k (b, o)).1

  abbrev entry : ℕ → ℕ
  entry = entry_of opt i (λ c. k.byte b (o + c))

  byte_lem : (c : ℕ) → c < entry_size → after.byte b (o + c) ≡ entry c
  unfolding write_entry mark
  byte_lem c h = copied_at k.byte b o entry c h

  attr_lem : fat_make_attrs (opt.modes) (i.i_mode) (i.i_attrs) dir_bit ≡ false
  unfolding fat_make_attrs
  attr_lem = rw (file, plain) (ground arith)

  no_dir : bits_of (attr_at after (b, o)) dir_bit ≡ false
  unfolding attr_at
  no_dir =
      let (attr, _, _, _, _) = entry_fields opt i (λ c. k.byte b (o + c)) in
      ap (λ (x : ℕ). bits_of x dir_bit) (byte_lem 11 (omega arith) ∙ attr)
      ∙ (bit_4 (fat_make_attrs (opt.modes) (i.i_mode) (i.i_attrs)) ∙ attr_lem)

  word_lem : (c : ℕ) → c + 1 < entry_size → le16 after (b, o) c ≡ entry c + entry (c + 1) * 2 ^ 8
  unfolding le16
  word_lem c h = ap₂ (λ (x y : ℕ). x + y * 2 ^ 8) (byte_lem c (omega arith)) (byte_lem (c + 1) h)

  start_lem : g.fat_bits ≡ 32 → start_of g after (b, o) ≡ i.node.i_logstart
  unfolding start_of
  start_lem bits =
      let (_, high, low, _, _) = entry_fields opt i (λ c. k.byte b (o + c)) in
      let h : le16 after (b, o) 20 ≡ i.node.i_logstart / 2 ^ 16 % 2 ^ 16 =
        word_lem 20 (omega arith) ∙ high in
      let l : le16 after (b, o) 26 ≡ i.node.i_logstart % 2 ^ 16 = word_lem 26 (omega arith) ∙ low in
      rw bits (ap₂ (λ (x y : ℕ). x + y * 2 ^ 16) l h ∙ omega arith)

  size_lem : le32 after (b, o) 28 ≡ i.node.i_size
  unfolding le32
  size_lem =
      let s = entry_size_lem opt i (λ c. k.byte b (o + c)) file size in
      let l = word_lem 28 (omega arith) in
      let h = word_lem 30 (omega arith) in ap₂ (λ (x y : ℕ). x + y * 2 ^ 16) l h ∙ s

  time_lem :
      fat_time_fat2unix
        (opt.zone)
        (record { time = le16 after (b, o) 22; date = le16 after (b, o) 24; time_cs = 0 })
      ≡ fat_time_fat2unix
          (opt.zone)
          (record (fat_time_unix2fat (opt.zone) (i.i_mtime)) { time_cs = 0 })
  time_lem =
      let (_, _, _, time, date) = entry_fields opt i (λ c. k.byte b (o + c)) in
      ap₂ (λ (x y : ℕ). fat_time_fat2unix (opt.zone) (record { time = x; date = y; time_cs = 0 }))
        (word_lem 22 (omega arith) ∙ time) (word_lem 24 (omega arith) ∙ date)

  apart_lem :
      (b' o' : ℕ) → (b ≢ b') ⊎ ((o' < o) ⊎ (o + entry_size ≤ o')) → after.byte b' o' ≡ k.byte b' o'
  unfolding write_entry mark
  apart_lem b' o' h = copied_apart k.byte b o entry b' o' h

  again_lem :
      (seconds : ℕ) (fresh : VfsInode)
      → g.fat_bits ≡ 32
      → (let (r, i', k') = fat_fill_inode d g opt seconds after fresh (b, o) in
          (r ≡ ok tt)
          × (k' ≡ after)
          × (i'.node.i_start ≡ i.node.i_logstart)
          × (i'.node.i_logstart ≡ i.node.i_logstart)
          × (i'.node.i_size ≡ i.node.i_size)
          × (i'.i_mtime
              ≡ fat_time_fat2unix
                  (opt.zone)
                  (record (fat_time_unix2fat (opt.zone) (i.i_mtime)) { time_cs = 0 }))
          × (i'.ops ≡ file_ops))
  again_lem seconds fresh bits =
      let (r, same, first, logged, size', mtime, ops) =
        fill_run d g opt seconds after fresh (b, o) no_dir in
      (
        r,
        same,
        first ∙ start_lem bits,
        logged ∙ start_lem bits,
        size' ∙ size_lem,
        mtime ∙ time_lem,
        ops,
      )

-- For a file of a FAT32 volume that is not the root, whose inode has the position of an entry in a
-- readable block, is not moved meanwhile, and has a size and a first cluster of 32 bits:
-- `fat_write_inode` returns what the block layer answers, or 0 where it does not wait, and changes
-- no byte outside of the entry; and `fat_fill_inode` makes of that entry a file with the same first
-- cluster and size, and the time of its last change as far as the format can hold it.
pub fat_write_inode-fat_fill_inode :
    (d : Device) (g : Geometry) (opt : InodeOptions) (wait : Bool) (i : VfsInode) (k : Disk)
    (b e seconds : ℕ) (fresh : VfsInode)
    → g.fat_bits ≡ 32
    → e < dir_per_block g
    → i.i_pos ≡ fat_make_i_pos g (b, e * entry_size)
    → i.i_pos ≢ 0
    → i.node.is_root ≡ false
    → d.bread b ≡ true
    → s_isdir (i.i_mode) ≡ false
    → i.i_attrs dir_bit ≡ false
    → i.node.i_size < 2 ^ 32
    → i.node.i_logstart < 2 ^ 32
    → (let (r, k') = fat_write_inode d g opt wait [] i k in
        let (r', i', k'') = fat_fill_inode d g opt seconds k' fresh (b, e * entry_size) in
        (r ≡ answer (if wait then d.sync_dirty b else none))
        × ((b' o' : ℕ)
            → (b ≢ b') ⊎ ((o' < e * entry_size) ⊎ (e * entry_size + entry_size ≤ o'))
            → k'.byte b' o' ≡ k.byte b' o')
        × (r' ≡ ok tt)
        × (k'' ≡ k')
        × (i'.node.i_start ≡ i.node.i_logstart)
        × (i'.node.i_logstart ≡ i.node.i_logstart)
        × (i'.node.i_size ≡ i.node.i_size)
        × (i'.i_mtime
            ≡ fat_time_fat2unix
                (opt.zone)
                (record (fat_time_unix2fat (opt.zone) (i.i_mtime)) { time_cs = 0 }))
        × (i'.ops ≡ file_ops))
fat_write_inode-fat_fill_inode d g opt wait i k b e seconds fresh bits few at pos root reads file
      plain size start =
    let here = ap (address_of g) at ∙ address_lem g b e few in
    let run = write_run d g opt wait i k (b, e * entry_size) root pos here reads in
    let status = status_lem d opt wait i k (b, e * entry_size) in
    let apart = apart_lem d g opt wait i k b (e * entry_size) file plain size start in
    let (r, same, first, logged, size', mtime, ops) =
      again_lem d g opt wait i k b (e * entry_size) file plain size start seconds fresh bits in
    rw run (status, apart, r, same, first, logged, size', mtime, ops)
