-- ===== src/Inode.antt =====
-- ATS/myfat/fat_inode.h and fat_inode.c: the attributes of an inode and the table that finds inodes
-- by the place of their directory entries.
pub mod Attr
pub mod Find
pub mod Reached
pub mod Fill
pub mod Write
pub mod Build
mod Tests
use ats_ldd.Base.{
  ℕ, zero, suc, ◌+◌, Bool, true, false, not, ◌&&◌, ◌||◌, List, [], ◌∷◌, Option, none, some,
  if◌then◌else◌, ◌==◌, ltb,
}

-- A machine word by its bits, the lowest one first.
abbrev pub Bits : Type 0
Bits = ℕ → Bool

-- The bits of `ATTR_RO`, `ATTR_HIDDEN`, `ATTR_SYS`, `ATTR_VOLUME`, `ATTR_DIR` and `ATTR_ARCH` in an
-- attribute byte.
abbrev pub ro_bit : ℕ
ro_bit = 0

abbrev pub dir_bit : ℕ
dir_bit = 4

-- `ATTR_UNUSED`: hidden, system, volume label and archive.
unfoldable pub attr_unused : Bits
attr_unused i = (i == 1) || (i == 2) || (i == 3) || (i == 5)

-- `S_IWUGO`, the three permissions to write; `S_IFDIR` and `S_IFREG`.
unfoldable pub s_iwugo : Bits
s_iwugo i = (i == 7) || (i == 4) || (i == 1)

unfoldable pub s_ifdir : Bits
s_ifdir i = i == 14

unfoldable pub s_ifreg : Bits
s_ifreg i = i == 15

-- `S_IRWXUGO`, and `S_IRUGO|S_IWUGO`.
unfoldable pub s_irwxugo : Bits
s_irwxugo i = ltb i 9

unfoldable pub s_iruwugo : Bits
s_iruwugo i = ltb i 9 && not ((i == 0) || (i == 3) || (i == 6))

abbrev pub bits_and : Bits → Bits → Bits
bits_and a b i = a i && b i

abbrev pub bits_or : Bits → Bits → Bits
bits_or a b i = a i || b i

abbrev pub bits_not : Bits → Bits
bits_not a i = not (a i)

-- `mask & S_IWUGO`, as a condition.
unfoldable pub any_write : Bits → Bool
any_write a = a 7 || a 4 || a 1

-- `S_ISDIR`, of the format bits 12 to 15.
unfoldable pub s_isdir : Bits → Bool
s_isdir m = not (m 12) && not (m 13) && m 14 && not (m 15)

-- The mount options that the mode depends on.
pub record Options : Type 0 where
  pub fs_fmask : Bits
  pub fs_dmask : Bits
  pub rodir : Bool

unfoldable pub fat_make_mode : Options → Bits → Bits → Bits
fat_make_mode o attrs mode =
    let held =
      if attrs ro_bit && not (attrs dir_bit && not o.rodir)
      then bits_and mode (bits_not s_iwugo)
      else mode in
    if attrs dir_bit
    then bits_or (bits_and held (bits_not o.fs_dmask)) s_ifdir
    else bits_or (bits_and held (bits_not o.fs_fmask)) s_ifreg

unfoldable pub fat_mode_can_hold_ro : Options → Bits → Bool
fat_mode_can_hold_ro o i_mode =
    if s_isdir i_mode
    then (if not o.rodir then false else any_write (bits_not o.fs_dmask))
    else any_write (bits_not o.fs_fmask)

-- `i_attrs`
unfoldable pub fat_save_attrs : Options → Bits → Bits → Bits
fat_save_attrs o i_mode attrs =
    if fat_mode_can_hold_ro o i_mode
    then bits_and attrs attr_unused
    else bits_and attrs (bits_or attr_unused (λ i. i == ro_bit))

unfoldable pub fat_make_attrs : Options → Bits → Bits → Bits
fat_make_attrs o i_mode i_attrs i =
    i_attrs i
    || (s_isdir i_mode && i == dir_bit)
    || (fat_mode_can_hold_ro o i_mode && not (any_write i_mode) && i == ro_bit)

-- The inodes of the volume: the buckets of `inode_hashtable` with the numbers of the inodes in
-- them, and for each inode `i_pos`, `i_count` and what `igrab` answers, which is no when it is on
-- its way out.
pub record InodeTable : Type 0 where
  pub bucket : ℕ → List ℕ
  pub i_pos : ℕ → ℕ
  pub i_count : ℕ → ℕ
  pub igrab : ℕ → Bool

abbrev pub set : (ℕ → ℕ) → ℕ → ℕ → ℕ → ℕ
set f i x i' = if i == i' then x else f i'

-- `hlist_del_init`, from whichever bucket holds the inode.
pub remove : ℕ → List ℕ → List ℕ
remove i [] = []
remove i (x ∷ xs) = let rest = remove i xs in if i == x then rest else x ∷ rest

-- The first inode of a bucket with the position that `igrab` grants.
pub find_grabbed : (ℕ → Bool) → (ℕ → ℕ) → ℕ → List ℕ → Option ℕ
find_grabbed igrab at pos [] = none
find_grabbed igrab at pos (i ∷ is) =
    let rest = find_grabbed igrab at pos is in if at i == pos && igrab i then some i else rest

-- `hash` is `fat_hash`, which calls the kernel's `hash_32`.
unfoldable pub fat_iget : (ℕ → ℕ) → InodeTable → ℕ → Option ℕ × InodeTable
unfolding find_grabbed
fat_iget hash t pos = elim (find_grabbed (t.igrab) (t.i_pos) pos (t.bucket (hash pos))) [
  | none ↦ (none, t)
  | some i ↦ (some i, record t { i_count = set (t.i_count) i (t.i_count i + 1) })
]

unfoldable pub fat_detach : InodeTable → ℕ → InodeTable
unfolding remove
fat_detach t i = record t { bucket = λ h. remove i (t.bucket h); i_pos = set (t.i_pos) i 0 }

unfoldable pub fat_attach : (ℕ → ℕ) → InodeTable → ℕ → ℕ → InodeTable
fat_attach hash t i pos = record t {
  bucket = λ h. if hash pos == h then i ∷ t.bucket h else t.bucket h;
  i_pos = set (t.i_pos) i pos;
}
