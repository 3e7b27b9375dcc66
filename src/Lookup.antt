-- ===== src/Lookup.antt =====
-- ATS/myfat/msdos_inode.c and ATS/myfat/msdos_dentry.c: finding the inode of a name, and the names
-- that the kernel's cache of directory entries holds for the same.
pub mod Names
mod Tests
use ats_ldd.Base.{
  ℕ, zero, suc, ◌/◌, ◌%◌, Bool, true, false, not, ◌&&◌, List, [], ◌∷◌, Option, none, some, Result,
  ok, err, oops, enoent, if◌then◌else◌, ◌==◌,
}
use ats_ldd.Fat.Volume.{Geometry, Device}
use ats_ldd.Fat.Cluster.{FatInode}
use ats_ldd.Fat.Dir.{Disk, SlotInfo, attr_at, fat_scan}
use ats_ldd.Inode.Fill.{VfsInode, InodeOptions}
use ats_ldd.Inode.Build.{Inodes, fat_build_inode}
use ats_ldd.Name.{NameOptions, msdos_format_name}

-- Whether two names have the same length and `memcmp` gives 0 for them.
unfoldable pub same_bytes : List ℕ → List ℕ → Bool
same_bytes [] [] = true
same_bytes [] (y ∷ ys) = false
same_bytes (x ∷ xs) [] = false
same_bytes (x ∷ xs) (y ∷ ys) = x == y && same_bytes xs ys

-- `qstr->hash`, where `hash` is what it was.
unfoldable pub msdos_hash : (List ℕ → ℕ) → NameOptions → ℕ → List ℕ → ℕ
msdos_hash full_name_hash o hash name = elim (msdos_format_name o name) [
  | ok formatted ↦ full_name_hash formatted
  | err e ↦ hash
  | oops ↦ hash
]

-- Whether `msdos_cmp` returns 0.
unfoldable pub msdos_cmp : NameOptions → List ℕ → List ℕ → Bool
msdos_cmp o a b = elim (msdos_format_name o a) [
  | err e ↦ same_bytes a b
  | oops ↦ same_bytes a b
  | ok a' ↦ elim (msdos_format_name o b) [
    | err e ↦ same_bytes a b
    | oops ↦ same_bytes a b
    | ok b' ↦ same_bytes a' b'
  ]
]

-- `name[0] == '.'`
unfoldable pub is_dotted : List ℕ → Bool
is_dotted [] = false
is_dotted (c ∷ cs) = c == 46

-- `attr & ATTR_HIDDEN`, bit 1.
abbrev pub has_hidden : ℕ → Bool
has_hidden attr = attr / 2 % 2 == 1

-- Whether the hidden attribute is as the name says.
unfoldable pub fits_name : NameOptions → List ℕ → Disk → SlotInfo → Bool
fits_name o name k s =
    if not o.dots_ok
    then true
    else if is_dotted name
    then has_hidden (attr_at k s.here)
    else not (has_hidden (attr_at k s.here))

unfoldable pub msdos_find :
    Device → Geometry → NameOptions → Disk → FatInode → List ℕ → Result SlotInfo × Disk
msdos_find d g o k dir name = elim (msdos_format_name o name) [
  | err e ↦ (err enoent, k)
  | oops ↦ (err enoent, k)
  | ok formatted ↦
      let (r, k') = fat_scan d g k dir formatted in
      elim r [
        | err e ↦ (err e, k')
        | oops ↦ (oops, k')
        | ok s ↦ (if fits_name o name k' s then ok s else err enoent, k')
      ]
]

-- The inode for `d_splice_alias`, none for NULL.
unfoldable pub msdos_lookup :
    Device
    → Geometry
    → NameOptions
    → InodeOptions
    → (ℕ → ℕ)
    → ℕ
    → Option (ℕ × VfsInode)
    → Inodes
    → Disk
    → FatInode
    → List ℕ
    → Result (Option ℕ) × Inodes × Disk
unfolding msdos_find
msdos_lookup d g o opt hash seconds new t k dir name =
    let (r, k1) = msdos_find d g o k dir name in
    elim r [
      | oops ↦ (oops, t, k1)
      | err e ↦ elim e [ enoent ↦ (ok none, t, k1) | e' ↦ (err e', t, k1) ]
      | ok s ↦
          let (inode, t', k2) = fat_build_inode d g opt hash seconds new t k1 s.here s.i_pos in
          elim inode [
            | ok i ↦ (ok (some i), t', k2)
            | err e ↦ (err e, t', k2)
            | oops ↦ (oops, t', k2)
          ]
    ]
