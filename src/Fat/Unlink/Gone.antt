-- ===== src/Fat/Unlink/Gone.antt =====
-- A removed entry is not found any more: `fat_remove_entries` followed by `fat_scan`, both of
-- ATS/myfat/fat_dir.c.
use ats_ldd.Base.{
  ℕ, suc, ◌+◌, ◌-◌, ◌*◌, ◌≤◌, ◌<◌, ◌≡◌, ◌≢◌, inl, inr, refl, sym, ap, subst, ◌∙◌, Bool, false, ◌&&◌,
  List, Result, ok, err, enoent, Option, none, some, if◌then◌else◌, arith, Bool-cases,
}
use ats_ldd.Fat.Volume.{Geometry, Device, Volume}
use ats_ldd.Fat.Cluster.{FatInode}
use ats_ldd.Fat.Dir.{Disk, Address, SlotInfo, is_free, is_short, fat_scan}
use ats_ldd.Fat.Dir.Bytes.{SameBytes, same_name-SameBytes}
use ats_ldd.Fat.Dir.Slots.{IsMapped, entry_count, slot_at, slots_apart}
use ats_ldd.Fat.Dir.First.{first, both, first-range, first-drop}
use ats_ldd.Fat.Dir.Search.{short_at, named_at, slot_info, fat_scan_first}
use ats_ldd.Fat.Unlink.{Stamp, fat_remove_entries}
use ats_ldd.Fat.Unlink.Wipe.{name_byte, hit, Syncs}
use ats_ldd.Fat.Unlink.Removed.{fat_remove_entries_wipes}

module _ {d : Device} {g : Geometry} {v : Volume} {dir : FatInode} {blocks : ℕ → ℕ}
    (mapped : IsMapped d g v dir blocks) where
  abbrev slot : ℕ → Address
  slot = slot_at g blocks

  -- The bytes of another entry are not the first byte of this one.
  apart_lem :
      (i j c : ℕ)
      → i < entry_count g dir
      → j < entry_count g dir
      → i ≢ j
      → c < 32
      → name_byte slot j (slot i).0 ((slot i).1 + c) ≡ false
  apart_lem i j c hi hj ne hc = elim (Bool-cases (name_byte slot j (slot i).0 ((slot i).1 + c))) [
    | inr off ↦ off
    | inl on ↦
        let block : (slot i).0 ≡ (slot j).0 = ground arith in
        absurd (slots_apart mapped i j c 0 hi hj ne hc (omega arith) block (ground arith))
  ]

  module _ (k k' : Disk) (j : ℕ) (inside : j < entry_count g dir)
      (wiped : (b o : ℕ) → k'.byte b o ≡ (if hit slot j 1 b o then 229 else k.byte b o)) where
    same_lem : (i : ℕ) → i < entry_count g dir → i ≢ j → SameBytes k k' (slot i)
    same_lem i h ne c l =
        let off = apart_lem i j c h inside ne l in
        let w = wiped (slot i).0 ((slot i).1 + c) in ground arith

    short_gone : short_at g blocks k' j ≡ false
    unfolding is_short is_free
    short_gone = let w = wiped (slot j).0 (slot j).1 in ground arith

found_at :
    (g : Geometry) (blocks : ℕ → ℕ) (k : Disk) (j : ℕ) (o : Option ℕ)
    → ◌≡◌ {A = Result SlotInfo × Disk}
        (elim o [ none ↦ err enoent | some i ↦ ok (slot_info g blocks i) ], k)
        (ok (slot_info g blocks j), k)
    → o ≡ some j
found_at g blocks k j none e = absurd (ground arith)
found_at g blocks k j (some i) e =
    let same : i * 32 ≡ j * 32 = ground arith in ap some (omega arith)

-- In a directory whose blocks are mapped apart and can be read, and where the writes that it asks
-- for reach the disk, after `fat_scan` found entry `j` and `fat_remove_entries` removed it,
-- `fat_scan` for the same name gives the next entry after `j` that was short and bore the name, and
-- -ENOENT when there was none.
pub fat_scan-removed :
    (d : Device) (g : Geometry) (now : ℕ) (k : Disk) (dir : FatInode) (blocks : ℕ → ℕ) (st : Stamp)
    (name : List ℕ) (j : ℕ)
    → IsMapped d g k.vol dir blocks
    → Syncs d dir
    → fat_scan d g k dir name ≡ (ok (slot_info g blocks j), k)
    → (let k' = (fat_remove_entries d g now k dir st (slot_info g blocks j)).1 in
        fat_scan d g k' dir name ≡ (
          elim (first
              (both (short_at g blocks k) (named_at g blocks k name))
              (suc j)
              (entry_count g dir - suc j)) [
                | none ↦ err enoent
                | some i ↦ ok (slot_info g blocks i)
              ],
          k',
        ))
fat_scan-removed d g now k dir blocks st name j mapped syncs h =
    let p = both (short_at g blocks k) (named_at g blocks k name) in
    let at : first p 0 (entry_count g dir) ≡ some j =
      found_at g blocks k j _ (sym (fat_scan_first d g k dir blocks name mapped) ∙ h) in
    let (l, u, y) = first-range p 0 (entry_count g dir) j at in
    let (r, stamp, vol, wiped) =
      fat_remove_entries_wipes d g now k dir blocks st (slot_info g blocks j) j 1 mapped syncs
        (record { last = refl; first = ap (λ (x : ℕ). x * 32) (omega arith); many = refl })
        (omega arith) (omega arith) in
    let k' : Disk = (fat_remove_entries d g now k dir st (slot_info g blocks j)).1 in
    let q = both (short_at g blocks k') (named_at g blocks k' name) in
    let only : (b o : ℕ)
        → k'.byte b o ≡ (if hit (slot_at g blocks) j 1 b o then 229 else k.byte b o) =
      λ b o.
        wiped b o
        ∙ ap (λ (x : ℕ). if hit (slot_at g blocks) x 1 b o then 229 else k.byte b o)
            (omega arith) in
    let gone : q j ≡ false =
      ap (λ (x : Bool). x && named_at g blocks k' name j)
        (short_gone mapped k k' j (omega arith) only) in
    let same : (m : ℕ) → m ≢ j → 0 ≤ m → m < 0 + entry_count g dir → q m ≡ p m = λ m ne a b.
      same_name-SameBytes k k' (slot_at g blocks m) name
        (same_lem mapped k k' j (omega arith) only m (omega arith) ne) in
    let left : 0 + entry_count g dir - suc j ≡ entry_count g dir - suc j = omega arith in
    let next : first q 0 (entry_count g dir) ≡ first p (suc j) (entry_count g dir - suc j) =
      first-drop p q 0 (entry_count g dir) j at gone same ∙ ap (first p (suc j)) left in
    fat_scan_first d g k' dir blocks name
      (subst (λ (x : Volume). IsMapped d g x dir blocks) (sym vol) mapped)
    ∙ ap (λ (o : Option ℕ). (elim o [ none ↦ err enoent | some i ↦ ok (slot_info g blocks i) ], k'))
        next
