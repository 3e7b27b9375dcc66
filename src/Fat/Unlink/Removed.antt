-- ===== src/Fat/Unlink/Removed.antt =====
-- `fat_remove_entries` of ATS/myfat/fat_dir.c marks the entries of a file, and nothing else.
use ats_ldd.Base.{
  ℕ, zero, suc, ◌+◌, ◌-◌, ◌*◌, ◌/◌, ◌%◌, ◌^◌, ◌≤◌, ◌<◌, ◌≡◌, refl, ap, subst, ◌∙◌, ◌∷◌, Result, ok,
  none, if◌then◌else◌, ◌==◌, arith,
}
use native.Mathlib.Nat.{div-add-mod, mod-lt}
use ats_ldd.Fat.Volume.{Geometry, Device}
use ats_ldd.Fat.Cluster.{FatInode}
use ats_ldd.Fat.Dir.{Disk, SlotInfo, entry_size, dir_per_block}
use ats_ldd.Fat.Dir.Slots.{IsMapped, entry_count, slot_at, dir_per_block_pos}
use ats_ldd.Fat.Unlink.{
  Stamp, sync_inode, mark_dirty, wipe_down, mark, sync_dir, __fat_remove_entries,
  fat_remove_entries,
}
use ats_ldd.Fat.Unlink.Wipe.{
  hit, Wiped, Wiped-before, wipe_down_lem, slot_from, Syncs, __fat_remove_entries_lem,
}

-- The second stage with nothing left does nothing.
second_lem :
    (d : Device) (g : Geometry) (k : Disk) (dir : FatInode) (pos left : ℕ)
    → (if left == 0 then (ok 0, k) else __fat_remove_entries d g left k dir pos left)
      ≡ __fat_remove_entries d g left k dir pos left
unfolding __fat_remove_entries
second_lem d g k dir pos zero = refl
second_lem d g k dir pos (suc left) = ground arith

-- What the removal leaves of the inode.
abbrev pub stamped : FatInode → ℕ → Stamp → Stamp
stamped dir now st = record {
  i_version = (st.i_version + 1) % 2 ^ 64;
  i_mtime = now;
  i_atime = now;
  flushes = (if dir.is_dirsync then sync_inode else mark_dirty) ∷ st.flushes;
}

remove_run :
    (d : Device) (g : Geometry) (now : ℕ) (k k' : Disk) (dir : FatInode) (st : Stamp) (s : SlotInfo)
    → sync_dir d dir s.here.0 ≡ none
    → (let w = wipe_down k.byte s.here.0 (s.here.1 / entry_size + 1) s.nr_slots in
        let k1 = mark (record k { byte = w.0 }) s.here.0 in
        __fat_remove_entries d g w.1 k1 dir s.slot_off w.1 ≡ (ok 0, k'))
    → fat_remove_entries d g now k dir st s ≡ (ok 0, k', stamped dir now st)
unfolding fat_remove_entries
remove_run d g now k k' dir st s synced e =
    let w = wipe_down k.byte s.here.0 (s.here.1 / entry_size + 1) s.nr_slots in
    let second = second_lem d g (mark (record k { byte = w.0 }) s.here.0) dir s.slot_off w.1 in
    ground arith

-- A file of `n` entries of which `j` is the last, as `fat_scan` describes it.
pub record Describes (g : Geometry) (blocks : ℕ → ℕ) (s : SlotInfo) (j n : ℕ) : Type 0 where
  pub last : s.here ≡ slot_at g blocks j
  pub first : s.slot_off ≡ (j + 1 - n) * entry_size
  pub many : s.nr_slots ≡ n

-- Both stages, from entry `j` of a file down to the first of its `n` entries.
stages :
    (d : Device) (g : Geometry) (k : Disk) (dir : FatInode) (blocks : ℕ → ℕ) (j n : ℕ)
    → IsMapped d g k.vol dir blocks
    → Syncs d dir
    → j < entry_count g dir
    → n ≤ j + 1
    → (k' : Disk) × (let a = slot_at g blocks j in
        let w = wipe_down k.byte a.0 (a.1 / entry_size + 1) n in
        __fat_remove_entries d g w.1
          (mark (record k { byte = w.0 }) a.0)
          dir
          ((j + 1 - n) * entry_size)
          w.1
        ≡ (ok 0, k'))
      × (k'.vol ≡ k.vol)
      × Wiped (slot_at g blocks) k.byte k'.byte (j + 1 - n) n
unfolding slot_at mark
stages d g k dir blocks j n mapped syncs h l =
    let p : ℕ = dir_per_block g in
    let i : ℕ = p * (j / p) in
    let e : ℕ = j % p * 32 / 32 + 1 in
    let parts : i + j % p ≡ j = div-add-mod j p in
    let small : j % p < p = mod-lt j (dir_per_block_pos g) in
    let (t, te, w, used, full) =
      wipe_down_lem (slot_at g blocks) e n i (blocks (j / p)) k.byte
        (λ u hu. slot_from mapped syncs (j / p) u (omega arith)) in
    let left : ℕ = (wipe_down k.byte (blocks (j / p)) e n).1 in
    let m : ℕ → ℕ → ℕ = (wipe_down k.byte (blocks (j / p)) e n).0 in
    let k1 : Disk = mark (record k { byte = m }) (blocks (j / p)) in
    let (k', run, vol, w2) =
      __fat_remove_entries_lem mapped syncs left left (j + 1 - n) k1 refl (omega arith)
        (omega arith) in
    let from : i + e - t ≡ j + 1 - n + left = omega arith in
    let all : left + t ≡ n = used in
    (
      k',
      run,
      vol,
      subst (λ (x : ℕ). Wiped (slot_at g blocks) k.byte k'.byte (j + 1 - n) x) all
          (Wiped-before (slot_at g blocks) k.byte m k'.byte (j + 1 - n) left t
            (subst (λ (x : ℕ). Wiped (slot_at g blocks) k.byte m x t) from w) w2),
    )

-- In a directory whose blocks are mapped apart and can be read, and where the writes that it asks
-- for reach the disk, `fat_remove_entries` of a file whose last entry is `j` and which has `n`
-- entries, in one block or in several, returns 0; it marks the `n` entries up to `j` as deleted,
-- leaves all other bytes and the table as they are, and stamps the inode.
pub fat_remove_entries_wipes :
    (d : Device) (g : Geometry) (now : ℕ) (k : Disk) (dir : FatInode) (blocks : ℕ → ℕ) (st : Stamp)
    (s : SlotInfo) (j n : ℕ)
    → IsMapped d g k.vol dir blocks
    → Syncs d dir
    → Describes g blocks s j n
    → j < entry_count g dir
    → n ≤ j + 1
    → (let r = fat_remove_entries d g now k dir st s in
        (r.0 ≡ ok 0)
        × (r.2 ≡ stamped dir now st)
        × (r.1.vol ≡ k.vol)
        × ((b o : ℕ)
            → r.1.byte b o
              ≡ (if hit (slot_at g blocks) (j + 1 - n) n b o then 229 else k.byte b o)))
unfolding slot_at mark
fat_remove_entries_wipes d g now k dir blocks st s j n mapped syncs is h l =
    let (k', e, v, w) = removed in
    let run = remove_run d g now k k' dir st s (syncs _) e in
    (
      ap (λ (x : Result ℕ × Disk × Stamp). x.0) run,
      ap (λ (x : Result ℕ × Disk × Stamp). x.2) run,
      ap (λ (x : Result ℕ × Disk × Stamp). x.1.vol) run ∙ v,
      λ b o. ap (λ (x : Result ℕ × Disk × Stamp). x.1.byte b o) run ∙ w b o,
    )
  where
    removed :
        (k' : Disk) × (let w = wipe_down k.byte s.here.0 (s.here.1 / entry_size + 1) s.nr_slots in
          __fat_remove_entries d g w.1 (mark (record k { byte = w.0 }) s.here.0) dir s.slot_off w.1
          ≡ (ok 0, k'))
        × (k'.vol ≡ k.vol)
        × Wiped (slot_at g blocks) k.byte k'.byte (j + 1 - n) n
    removed = rw is.last (rw is.first (rw is.many (stages d g k dir blocks j n mapped syncs h l)))
