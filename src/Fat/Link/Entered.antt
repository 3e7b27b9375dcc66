-- ===== src/Fat/Link/Entered.antt =====
-- A file that `fat_add_entries` enters is found by `fat_scan`, both of ATS/myfat/fat_dir.c.
use ats_ldd.Base.{
  ℕ, suc, ◌+◌, ◌-◌, ◌*◌, ◌^◌, ◌<◌, ◌≡◌, ◌≢◌, inl, inr, refl, sym, ap, ap₂, subst, ◌∙◌, Bool, true,
  false, ◌&&◌, List, [], ◌∷◌, Result, ok, err, Errno, enoent, Option, none, some, ◌==◌, leb, ltb,
  arith, Bool-cases, length, get_or,
}
use ats_ldd.Fat.Volume.{Geometry, Device}
use ats_ldd.Fat.Cluster.{FatInode}
use ats_ldd.Fat.Dir.{
  Disk, Address, SlotInfo, is_free, is_short, attr_at, has_volume, same_name, fat_scan,
}
use ats_ldd.Fat.Dir.Bytes.{SameBytes, same_name-SameBytes}
use ats_ldd.Fat.Dir.Slots.{IsMapped, entry_count, slot_at, slots_apart}
use ats_ldd.Fat.Dir.First.{first, both, first-range, first-gain}
use ats_ldd.Fat.Dir.Search.{short_at, named_at, slot_info, fat_scan_first}
use ats_ldd.Fat.Unlink.{mark}
use ats_ldd.Fat.Unlink.Wipe.{Syncs}
use ats_ldd.Fat.Fresh.{copy_bytes}
use ats_ldd.Fat.Link.{fat_add_entries}
use ats_ldd.Fat.Link.Placed.{free_at, with_entry, fat_add_entries_first_free}

-- The bytes of one entry that is in use, is no long name or volume label, and bears the name `name`
-- of eleven bytes.
pub record Names (slots : ℕ → ℕ) (name : List ℕ) : Type 0 where
  pub used : slots 0 ≢ 0
  pub kept : slots 0 ≢ 229
  pub short : has_volume (slots 11) ≡ false
  pub full : length name ≡ 11
  pub spelled : (u : ℕ) → u < 11 → slots u ≡ get_or name u 0

copied :
    (m : ℕ → ℕ → ℕ) (b o : ℕ) (slots : ℕ → ℕ) (u : ℕ)
    → u < 32
    → copy_bytes m b o slots 0 32 b (o + u) ≡ slots u
unfolding copy_bytes
copied m b o slots u h =
    let at : 0 + (o + u - o) ≡ u = omega arith in
    let inside : (b == b && (leb o (o + u) && ltb (o + u) (o + 32))) ≡ true = ground arith in
    rw inside (ap slots at)

not_copied :
    (m : ℕ → ℕ → ℕ) (b o : ℕ) (slots : ℕ → ℕ) (b' o' : ℕ)
    → ((e : ℕ) → e < 32 → b' ≡ b → o' ≢ o + e)
    → copy_bytes m b o slots 0 32 b' o' ≡ m b' o'
unfolding copy_bytes
not_copied m b o slots b' o' h = elim (Bool-cases (b == b' && (leb o o' && ltb o' (o + 32)))) [
  | inr out ↦ rw out refl
  | inl on ↦ absurd (h (o' - o) (ground arith) (ground arith) (ground arith))
]

-- A name that is spelled in a block is the name that is compared.
same_name-spelled :
    (k : Disk) (b o : ℕ) (name : List ℕ)
    → ((u : ℕ) → u < length name → k.byte b (o + u) ≡ get_or name u 0)
    → same_name k b o (length name) name ≡ true
unfolding same_name
same_name-spelled k b o [] h = refl
same_name-spelled k b o (c ∷ cs) h =
    let here : k.byte b o ≡ c = ap (k.byte b) (omega arith) ∙ h 0 (omega arith) in
    let rest =
      same_name-spelled k b (o + 1) cs
        (λ u l. ap (k.byte b) (omega arith) ∙ h (suc u) (omega arith)) in
    ground arith

module _ {d : Device} {g : Geometry} {dir : FatInode} {blocks : ℕ → ℕ} (k : Disk) (slots : ℕ → ℕ)
    (j : ℕ) (mapped : IsMapped d g k.vol dir blocks) (inside : j < entry_count g dir) where
  abbrev slot : ℕ → Address
  slot = slot_at g blocks

  abbrev k' : Disk
  k' = with_entry g blocks k slots j

  same_lem : (i : ℕ) → i < entry_count g dir → i ≢ j → SameBytes k k' (slot i)
  unfolding mark
  same_lem i h ne c l =
      not_copied k.byte (slot j).0 (slot j).1 slots (slot i).0 ((slot i).1 + c)
        (λ e he same. slots_apart mapped i j c e h inside ne l he same)

  new_lem : (u : ℕ) → u < 32 → k'.byte (slot j).0 ((slot j).1 + u) ≡ slots u
  unfolding mark
  new_lem u h = copied k.byte (slot j).0 (slot j).1 slots u h

  short_new : {name : List ℕ} → Names slots name → short_at g blocks k' j ≡ true
  unfolding is_short is_free attr_at
  short_new n =
      let first_byte : k'.byte (slot j).0 (slot j).1 ≡ slots 0 =
        ap (k'.byte (slot j).0) (omega arith) ∙ new_lem 0 (omega arith) in
      let attr = new_lem 11 (omega arith) in ground arith

  named_new : (name : List ℕ) → Names slots name → named_at g blocks k' name j ≡ true
  named_new name n =
      subst (λ (x : ℕ). same_name k' (slot j).0 (slot j).1 x name ≡ true) (n.full)
        (same_name-spelled k' (slot j).0 (slot j).1 name
          (λ u l. new_lem u (omega arith) ∙ n.spelled u (omega arith)))

not_found :
    (g : Geometry) (blocks : ℕ → ℕ) (k : Disk) (o : Option ℕ)
    → ◌≡◌ {A = Result SlotInfo × Disk}
        (elim o [ none ↦ err enoent | some i ↦ ok (slot_info g blocks i) ], k)
        (err enoent, k)
    → o ≡ none
not_found g blocks k none e = refl
not_found g blocks k (some i) e = absurd (ground arith)

-- In a directory whose blocks are mapped apart and can be read, whose size is below
-- `FAT_MAX_DIR_SIZE`, and where the writes that it asks for reach the disk: where `fat_scan` does
-- not find a name of eleven bytes and some entry is free, `fat_scan` finds the name after
-- `fat_add_entries` entered an entry with it, and describes it as `fat_add_entries` did.
pub fat_scan-added :
    (d : Device) (g : Geometry) (needs_sync : Bool) (sync_inode : Option Errno) (k : Disk)
    (dir : FatInode) (blocks : ℕ → ℕ) (slots : ℕ → ℕ) (name : List ℕ) (j : ℕ)
    → IsMapped d g k.vol dir blocks
    → Syncs d dir
    → entry_count g dir * 32 < 2 ^ 21
    → Names slots name
    → fat_scan d g k dir name ≡ (err enoent, k)
    → first (free_at g blocks k) 0 (entry_count g dir) ≡ some j
    → (let (r, k', dir') = fat_add_entries d g needs_sync sync_inode k dir slots 1 in
        fat_scan d g k' dir' name ≡ (r, k'))
unfolding mark
fat_scan-added d g needs_sync sync_inode k dir blocks slots name j mapped syncs small n h free =
    let (l, u, y) = first-range (free_at g blocks k) 0 (entry_count g dir) j free in
    let k' : Disk = with_entry g blocks k slots j in
    let p = both (short_at g blocks k) (named_at g blocks k name) in
    let q = both (short_at g blocks k') (named_at g blocks k' name) in
    let absent : first p 0 (entry_count g dir) ≡ none =
      not_found g blocks k _ (sym (fat_scan_first d g k dir blocks name mapped) ∙ h) in
    let added =
      fat_add_entries_first_free d g needs_sync sync_inode k dir blocks slots j mapped syncs small
        free in
    let new : q j ≡ true =
      ap₂ (λ (x z : Bool). x && z) (short_new k slots j mapped (omega arith) n)
        (named_new k slots j mapped (omega arith) name n) in
    let now : first q 0 (entry_count g dir) ≡ some j =
      first-gain p q 0 (entry_count g dir) j absent new l u (λ m ne a b.
        same_name-SameBytes k k' (slot_at g blocks m) name
          (same_lem k slots j mapped (omega arith) m (omega arith) ne)) in
    let found : fat_scan d g k' dir name ≡ (ok (slot_info g blocks j), k') =
      fat_scan_first d g k' dir blocks name mapped
      ∙ ap
          (λ (o : Option ℕ).
            (elim o [ none ↦ err enoent | some i ↦ ok (slot_info g blocks i) ], k'))
          now in
    rw added found
