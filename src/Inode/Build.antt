-- ===== src/Inode/Build.antt =====
-- `fat_build_inode` of ATS/myfat/fat_inode.c: the inode of an entry, from the table or a new one.
use ats_ldd.Base.{
  ℕ, ◌≡◌, refl, sym, ap, ◌∙◌, Option, none, some, Result, ok, err, oops, enomem, if◌then◌else◌,
  ◌==◌, arith, true, ==_refl, Option-cases, inl, inr,
}
use ats_ldd.Fat.Volume.{Geometry, Device}
use ats_ldd.Fat.Dir.{Disk, Address}
use ats_ldd.Inode.{InodeTable, find_grabbed, fat_iget, fat_attach}
use ats_ldd.Inode.Fill.{VfsInode, InodeOptions, fat_fill_inode}
use ats_ldd.Inode.Find.{Fresh, fat_iget-fat_attach}

-- The inodes: the table, and what each is filled with.
pub record Inodes : Type 0 where
  pub table : InodeTable
  pub content : ℕ → VfsInode

-- The inode, `fat_attach` of it included, from what `fat_fill_inode` gives.
unfoldable pub enter_filled :
    (ℕ → ℕ) → Inodes → ℕ → ℕ → Result (Unit {0}) × VfsInode × Disk → Result ℕ × Inodes × Disk
enter_filled hash t i i_pos (err e, filled, k) = (err e, t, k)
enter_filled hash t i i_pos (oops, filled, k) = (oops, t, k)
enter_filled hash t i i_pos (ok _, filled, k) = (
  ok i,
  record t {
    table = fat_attach hash (t.table) i i_pos;
    content = λ j. if i == j then record filled { i_pos = i_pos } else t.content j;
  },
  k,
)

-- `new` is what `new_inode` answers: the number of an inode, and the inode.
unfoldable pub fat_build_inode :
    Device
    → Geometry
    → InodeOptions
    → (ℕ → ℕ)
    → ℕ
    → Option (ℕ × VfsInode)
    → Inodes
    → Disk
    → Address
    → ℕ
    → Result ℕ × Inodes × Disk
unfolding enter_filled
fat_build_inode d g opt hash seconds new t k de i_pos =
    let (found, table) = fat_iget hash (t.table) i_pos in
    elim found [
      | some i ↦ (ok i, record t { table = table }, k)
      | none ↦ elim new [
        | none ↦ (err enomem, t, k)
        | some (i, inode) ↦
            enter_filled hash t i i_pos
              (fat_fill_inode d g opt seconds k (record inode { i_version = 1 }) de)
      ]
    ]

entered_lem :
    (hash : ℕ → ℕ) (t : Inodes) (i i_pos : ℕ) (out : Result (Unit {0}) × VfsInode × Disk) (j : ℕ)
    → Fresh (t.table) i
    → t.table.igrab i ≡ true
    → (enter_filled hash t i i_pos out).0 ≡ ok j
    → (fat_iget hash ((enter_filled hash t i i_pos out).1.table) i_pos).0 ≡ some j
unfolding enter_filled
entered_lem hash t i i_pos (err e, filled, k) j fresh grab h = absurd (ground arith)
entered_lem hash t i i_pos (oops, filled, k) j fresh grab h = absurd (ground arith)
entered_lem hash t i i_pos (ok _, filled, k) j fresh grab h =
    let found = fat_iget-fat_attach hash (t.table) i i_pos i_pos fresh grab in
    let same = ==_refl i_pos in ground arith

iget_twice :
    (hash : ℕ → ℕ) (t : InodeTable) (p : ℕ)
    → (fat_iget hash ((fat_iget hash t p).1) p).0 ≡ (fat_iget hash t p).0
unfolding fat_iget
iget_twice hash t p = elim (Option-cases (find_grabbed (t.igrab) (t.i_pos) p (t.bucket (hash p)))) [
  | inl y ↦ ground arith
  | inr (i, y) ↦ ground arith
]

-- What is in the table is found again.
held_lem :
    (d : Device) (g : Geometry) (opt : InodeOptions) (hash : ℕ → ℕ) (seconds : ℕ)
    (new : Option (ℕ × VfsInode)) (t : Inodes) (k : Disk) (de : Address) (i_pos j : ℕ)
    → (fat_iget hash (t.table) i_pos).0 ≡ some j
    → (let (r, t', k') = fat_build_inode d g opt hash seconds new t k de i_pos in
        (r ≡ ok j) × (t' ≡ record t { table = (fat_iget hash (t.table) i_pos).1 }) × (k' ≡ k))
unfolding fat_build_inode
held_lem d g opt hash seconds new t k de i_pos j h = rw (h, fat_build_inode) (refl, refl, refl)

-- So it is after it was found.
again_lem :
    (d : Device) (g : Geometry) (opt : InodeOptions) (hash : ℕ → ℕ) (seconds : ℕ)
    (new : Option (ℕ × VfsInode)) (t : Inodes) (k : Disk) (de : Address) (i_pos i j : ℕ)
    → (fat_iget hash (t.table) i_pos).0 ≡ some i
    → (fat_build_inode d g opt hash seconds new t k de i_pos).0 ≡ ok j
    → (fat_iget hash ((fat_build_inode d g opt hash seconds new t k de i_pos).1.table) i_pos).0
      ≡ some j
again_lem d g opt hash seconds new t k de i_pos i j h e =
    let (r, same, _) = held_lem d g opt hash seconds new t k de i_pos i h in
    let equal : i ≡ j = ground (arith, sym r ∙ e) in
    ap (λ (x : Inodes). (fat_iget hash (x.table) i_pos).0) same
    ∙ (iget_twice hash (t.table) i_pos ∙ (h ∙ ap some equal))

built_lem :
    (d : Device) (g : Geometry) (opt : InodeOptions) (hash : ℕ → ℕ) (seconds : ℕ)
    (new : Option (ℕ × VfsInode)) (t : Inodes) (k : Disk) (de : Address) (i_pos j : ℕ)
    → ((i : ℕ) (inode : VfsInode)
        → new ≡ some (i, inode)
        → Fresh (t.table) i × (t.table.igrab i ≡ true))
    → (fat_iget hash (t.table) i_pos).0 ≡ none
    → (fat_build_inode d g opt hash seconds new t k de i_pos).0 ≡ ok j
    → (fat_iget hash ((fat_build_inode d g opt hash seconds new t k de i_pos).1.table) i_pos).0
      ≡ some j
unfolding fat_build_inode
built_lem d g opt hash seconds none t k de i_pos j fresh h e = absurd (ground arith)
built_lem d g opt hash seconds (some (i, inode)) t k de i_pos j fresh h e =
    let (apart, grab) = fresh i inode refl in
    rw (h, fat_build_inode)
      (entered_lem hash t i i_pos
        (fat_fill_inode d g opt seconds k (record inode { i_version = 1 }) de) j apart grab
        (rw (h, fat_build_inode) at e))

-- Where `new_inode` answers an inode that is in no bucket and that `igrab` grants, if any: when
-- `fat_build_inode` succeeds, `fat_iget` finds its inode at the position, and another
-- `fat_build_inode` for the position, with whatever arguments, gives the same inode, makes none, and
-- does not touch the disk.
pub fat_build_inode-twice :
    (d : Device) (g : Geometry) (opt : InodeOptions) (hash : ℕ → ℕ) (seconds seconds' : ℕ)
    (new new' : Option (ℕ × VfsInode)) (t : Inodes) (k k' : Disk) (de de' : Address) (i_pos j : ℕ)
    → ((i : ℕ) (inode : VfsInode)
        → new ≡ some (i, inode)
        → Fresh (t.table) i × (t.table.igrab i ≡ true))
    → (fat_build_inode d g opt hash seconds new t k de i_pos).0 ≡ ok j
    → (let t1 = (fat_build_inode d g opt hash seconds new t k de i_pos).1 in
        let (r, t2, k2) = fat_build_inode d g opt hash seconds' new' t1 k' de' i_pos in
        ((fat_iget hash (t1.table) i_pos).0 ≡ some j)
        × (r ≡ ok j)
        × (t2 ≡ record t1 { table = (fat_iget hash (t1.table) i_pos).1 })
        × (k2 ≡ k'))
fat_build_inode-twice d g opt hash seconds seconds' new new' t k k' de de' i_pos j fresh e =
    let t1 : Inodes = (fat_build_inode d g opt hash seconds new t k de i_pos).1 in
    let there : (fat_iget hash (t1.table) i_pos).0 ≡ some j =
      elim (Option-cases ((fat_iget hash (t.table) i_pos).0)) [
        | inl y ↦ built_lem d g opt hash seconds new t k de i_pos j fresh y e
        | inr (i, y) ↦ again_lem d g opt hash seconds new t k de i_pos i j y e
      ] in
    let (r, same, disk) = held_lem d g opt hash seconds' new' t1 k' de' i_pos j there in
    (there, r, same, disk)
