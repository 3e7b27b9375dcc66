-- ===== src/Fat/Link/Placed.antt =====
-- Where `fat_add_entries` of ATS/myfat/fat_dir.c puts a file of one entry.
use ats_ldd.Base.{
  ℕ, zero, suc, ◌+◌, ◌-◌, ◌*◌, ◌/◌, ◌%◌, ◌^◌, ◌≤◌, ◌<◌, ◌≡◌, refl, ap, ap₂, ◌∙◌, Bool, [], ◌∷◌, ok,
  Errno, Option, none, some, if◌then◌else◌, arith,
}
use native.Mathlib.Nat.{mod-lt}
use ats_ldd.Fat.Volume.{Geometry, Device, blocksize}
use ats_ldd.Fat.Cluster.{FatInode}
use ats_ldd.Fat.Dir.{
  Disk, Address, Cursor, entry, no_entry, entry_size, is_free, fat_get_entry, fat_make_i_pos,
  rounds, at_start, dir_per_block,
}
use ats_ldd.Fat.Dir.Slots.{
  IsMapped, entry_count, slot_at, before, next_lem, end_lem, position_parts, dir_per_block_pos,
  blocksize-dir_per_block,
}
use ats_ldd.Fat.Dir.First.{first}
use ats_ldd.Fat.Dir.Search.{slot_info, see_if}
use ats_ldd.Fat.Unlink.{mark, sync_dir}
use ats_ldd.Fat.Unlink.Wipe.{Syncs}
use ats_ldd.Fat.Fresh.{copy_bytes}
use ats_ldd.Fat.Link.{
  Run, Part, no_run, longer, Searched, enough, at_end, search_loop, place, fill_run, fill_long,
  fill_block, fat_add_entries,
}

abbrev pub free_at : Geometry → (ℕ → ℕ) → Disk → ℕ → Bool
free_at g blocks k i = is_free k (slot_at g blocks i)

-- The run of one entry in block `b`.
abbrev run_of : ℕ → Run
run_of b = record { free_slots = 1; bhs = b ∷ []; prev = some b }

search_end :
    (d : Device) (g : Geometry) (f : ℕ) (k : Disk) (dir : FatInode) (c : Cursor) {pos : ℕ}
    {k' : Disk}
    → fat_get_entry d g k dir c ≡ (no_entry pos, k')
    → search_loop d g (suc f) k dir 1 no_run c ≡ (at_end no_run pos, k')
unfolding search_loop
search_end d g f k dir c e = ground arith

search_step :
    (d : Device) (g : Geometry) (f : ℕ) (k : Disk) (dir : FatInode) (c : Cursor) {pos : ℕ}
    {a : Address} {k' : Disk}
    → fat_get_entry d g k dir c ≡ (entry (record { pos = pos; here = some a }), k')
    → pos < 2 ^ 21
    → search_loop d g (suc f) k dir 1 no_run c ≡ (
        if is_free k' a
        then (enough (run_of a.0) pos a, k')
        else search_loop d g f k' dir 1 no_run (record { pos = pos; here = some a }))
unfolding search_loop longer
search_step d g f k dir c e h = ground arith

abbrev part_at : Disk → ℕ → Part
part_at k o = record { disk = k; offset = o; from = 0; size = 32 }

fill_one :
    (d : Device) (g : Geometry) (dir : FatInode) (slots : ℕ → ℕ) (k : Disk) (o b : ℕ)
    → fill_run d g dir slots (run_of b) 0 (part_at k o)
      ≡ (sync_dir d dir b, fill_block g slots (part_at k o) b)
unfolding fill_run fill_long
fill_one d g dir slots k o b = refl

fill_whole :
    (g : Geometry) (slots : ℕ → ℕ) (k : Disk) (o b : ℕ)
    → o + 32 ≤ blocksize g
    → (fill_block g slots (part_at k o) b).disk
      ≡ mark (record k { byte = copy_bytes k.byte b o slots 0 32 }) b
unfolding fill_block
fill_whole g slots k o b h =
    ap (λ (x : ℕ). mark (record k { byte = copy_bytes k.byte b o slots 0 x }) b) {y = 32}
      (omega arith)

place_one :
    (d : Device) (g : Geometry) (needs_sync : Bool) (sync_inode : Option Errno) (k : Disk)
    (dir : FatInode) (slots : ℕ → ℕ) (end b : ℕ) (a : Address) (p : Part)
    → fill_run d g dir slots (run_of b) 0 (part_at k ((end - 32) % blocksize g)) ≡ (none, p)
    → place d g needs_sync sync_inode k dir slots 1 (run_of b) end (some a) ≡ (
      ok (record { i_pos = fat_make_i_pos g a; slot_off = end - 32; nr_slots = 1; here = a }),
      p.disk,
      dir,
    )
unfolding place
place_one d g needs_sync sync_inode k dir slots end b a p e = ground arith

-- The run is full: one entry is written, at the end of the position.
place_lem :
    (d : Device) (g : Geometry) (needs_sync : Bool) (sync_inode : Option Errno) (k : Disk)
    (dir : FatInode) (slots : ℕ → ℕ) (pos b o : ℕ)
    → sync_dir d dir b ≡ none
    → pos % blocksize g ≡ o
    → o + 32 ≤ blocksize g
    → place d g needs_sync sync_inode k dir slots 1 (run_of b) (pos + 32) (some (b, o)) ≡ (
      ok (record { i_pos = fat_make_i_pos g (b, o); slot_off = pos; nr_slots = 1; here = (b, o) }),
      mark (record k { byte = copy_bytes k.byte b o slots 0 32 }) b,
      dir,
    )
place_lem d g needs_sync sync_inode k dir slots pos b o synced off room =
    let back : pos + 32 - 32 ≡ pos = omega arith in
    let at : (pos + 32 - 32) % blocksize g ≡ o = ap (λ (x : ℕ). x % blocksize g) back ∙ off in
    let filled : fill_run d g dir slots (run_of b) 0 (part_at k ((pos + 32 - 32) % blocksize g))
        ≡ (none, fill_block g slots (part_at k o) b) =
      ap (λ (x : ℕ). fill_run d g dir slots (run_of b) 0 (part_at k x)) at
      ∙ (fill_one d g dir slots k o b
          ∙ ap (λ (x : Option Errno). (x, fill_block g slots (part_at k o) b)) synced) in
    place_one d g needs_sync sync_inode k dir slots (pos + 32) b (b, o)
      (fill_block g slots (part_at k o) b) filled
    ∙ ap₂
        (λ (x : ℕ) (y : Disk). (
          ok (record {
            i_pos = fat_make_i_pos g (b, o);
            slot_off = x;
            nr_slots = 1;
            here = (b, o);
          }),
          y,
          dir,
        ))
        back (fill_whole g slots k o b room)

add_run :
    (d : Device) (g : Geometry) (needs_sync : Bool) (sync_inode : Option Errno) (k : Disk)
    (dir : FatInode) (slots : ℕ → ℕ) (r : Run) (pos : ℕ) (a : Address)
    → search_loop d g (rounds g dir) k dir 1 no_run at_start ≡ (enough r pos a, k)
    → fat_add_entries d g needs_sync sync_inode k dir slots 1
      ≡ place d g needs_sync sync_inode k dir slots 1 r pos (some a)
unfolding fat_add_entries
add_run d g needs_sync sync_inode k dir slots r pos a e = ground arith

module _ {d : Device} {g : Geometry} {dir : FatInode} {blocks : ℕ → ℕ} (k : Disk)
    (mapped : IsMapped d g k.vol dir blocks) (small : entry_count g dir * 32 < 2 ^ 21) where
  abbrev reached : Option ℕ → Searched × Disk
  reached none = (at_end no_run (entry_count g dir * entry_size), k)
  reached (some j) =
      (enough (run_of (slot_at g blocks j).0) (suc j * entry_size) (slot_at g blocks j), k)

  search_lem :
      (n i f : ℕ)
      → i + n ≡ entry_count g dir
      → n < f
      → search_loop d g f k dir 1 no_run (before g blocks i)
        ≡ reached (first (free_at g blocks k) i n)
  unfolding before
  search_lem n i zero e h = absurd (omega arith)
  search_lem zero i (suc f) e h =
      search_end d g f k dir (before g blocks i) (end_lem mapped i k refl (omega arith))
      ∙ ap (λ (x : ℕ). (at_end no_run (x * entry_size), k)) (omega arith)
  search_lem (suc n) i (suc f) e h =
      let rest = search_lem n (suc i) f (omega arith) (omega arith) in
      search_step d g f k dir (before g blocks i) (next_lem mapped i k refl (omega arith))
        (omega arith)
      ∙ see_if reached (free_at g blocks k i) i (first (free_at g blocks k) (suc i) n) refl rest

-- The disk with the bytes of `slots` in entry `j`.
abbrev pub with_entry : Geometry → (ℕ → ℕ) → Disk → (ℕ → ℕ) → ℕ → Disk
with_entry g blocks k slots j =
    let a = slot_at g blocks j in
    mark (record k { byte = copy_bytes k.byte a.0 a.1 slots 0 entry_size }) a.0

-- In a directory whose blocks are mapped apart and can be read, whose size is below
-- `FAT_MAX_DIR_SIZE`, and where the writes that it asks for reach the disk: where some entry is
-- free, `fat_add_entries` of one entry returns; it copies the entry over the first free one, by
-- number, writes nothing else, leaves the inode, and reports the place where it is.
pub fat_add_entries_first_free :
    (d : Device) (g : Geometry) (needs_sync : Bool) (sync_inode : Option Errno) (k : Disk)
    (dir : FatInode) (blocks : ℕ → ℕ) (slots : ℕ → ℕ) (j : ℕ)
    → IsMapped d g k.vol dir blocks
    → Syncs d dir
    → entry_count g dir * 32 < 2 ^ 21
    → first (free_at g blocks k) 0 (entry_count g dir) ≡ some j
    → fat_add_entries d g needs_sync sync_inode k dir slots 1
      ≡ (ok (slot_info g blocks j), with_entry g blocks k slots j, dir)
unfolding fat_add_entries before slot_at
fat_add_entries_first_free d g needs_sync sync_inode k dir blocks slots j mapped syncs small h =
    let (q, r) = position_parts (dir_per_block g) j (dir_per_block_pos g) in
    let size = blocksize-dir_per_block g mapped.entries in
    let off : j * 32 % blocksize g ≡ j % dir_per_block g * 32 =
      ap (λ (x : ℕ). j * 32 % x) size ∙ r in
    let found =
      search_lem k mapped small (entry_count g dir) 0 (rounds g dir) (omega arith) (omega arith)
      ∙ ap (reached k mapped small) h in
    let pos : suc j * 32 ≡ j * 32 + 32 = omega arith in
    let put =
      place_lem d g needs_sync sync_inode k dir slots (j * 32) (blocks (j / dir_per_block g))
        (j % dir_per_block g * 32) (syncs _) off (omega (arith, mod-lt j (dir_per_block_pos g))) in
    add_run d g needs_sync sync_inode k dir slots (run_of (blocks (j / dir_per_block g)))
      (suc j * 32) (slot_at g blocks j) found
    ∙ (ap
          (λ (x : ℕ).
            place d g needs_sync sync_inode k dir slots 1 (run_of (blocks (j / dir_per_block g))) x
              (some (slot_at g blocks j)))
          pos
        ∙ put)
