-- ===== src/Fat/Dir/Search.antt =====
-- The walks over a directory of ATS/myfat/fat_dir.c against a search of the entries by number.
use ats_ldd.Base.{
  ℕ, zero, suc, ◌+◌, ◌-◌, ◌*◌, ◌<◌, ◌≡◌, refl, sym, ap, ◌∙◌, Bool, true, false, List, Result, ok,
  err, enoent, Option, none, some, if◌then◌else◌, arith,
}
use ats_ldd.Fat.Volume.{Geometry, Device}
use ats_ldd.Fat.Cluster.{FatInode}
use ats_ldd.Fat.Dir.{
  Disk, Address, Cursor, Fetched, entry, no_entry, fat_get_entry, fat_get_short_entry, entry_size,
  msdos_name, rounds, is_short, has_dir, attr_at, subdirs_loop, fat_subdirs, SlotInfo, same_name,
  fat_make_i_pos, scan_loop, fat_scan,
}
use ats_ldd.Fat.Dir.Slots.{IsMapped, entry_count, slot_at, before, next_lem, end_lem}
use ats_ldd.Fat.Dir.First.{
  first, count_if, both, first-range, first-both-none, first-both-some, count_if-both-none,
  count_if-both-some,
}

-- The tests of the walks, by the number of the entry.
abbrev pub short_at : Geometry → (ℕ → ℕ) → Disk → ℕ → Bool
short_at g blocks k i = is_short k (slot_at g blocks i)

abbrev pub dir_at : Geometry → (ℕ → ℕ) → Disk → ℕ → Bool
dir_at g blocks k i = has_dir (attr_at k (slot_at g blocks i))

abbrev pub named_at : Geometry → (ℕ → ℕ) → Disk → List ℕ → ℕ → Bool
named_at g blocks k name i = let a = slot_at g blocks i in same_name k a.0 a.1 msdos_name name

-- What `fat_scan` says of entry `i`.
abbrev pub slot_info : Geometry → (ℕ → ℕ) → ℕ → SlotInfo
slot_info g blocks i = record {
  i_pos = fat_make_i_pos g (slot_at g blocks i);
  slot_off = i * entry_size;
  nr_slots = 1;
  here = slot_at g blocks i;
}

-- A choice of what is seen is what is seen of the choice.
pub see_if {ℓ} :
    {A : Type ℓ} (see : Option ℕ → A) (b : Bool) {x y : A} (j : ℕ) (o : Option ℕ)
    → x ≡ see (some j)
    → y ≡ see o
    → (if b then x else y) ≡ see (if b then some j else o)
see_if see true j o e r = e
see_if see false j o e r = r

-- One round of each walk, by what the call in it gives.
module _ (d : Device) (g : Geometry) (dir : FatInode) (f : ℕ) (k : Disk) (c : Cursor) where
  short_end :
      {pos : ℕ} {k' : Disk}
      → fat_get_entry d g k dir c ≡ (no_entry pos, k')
      → fat_get_short_entry d g (suc f) k dir c ≡ (no_entry pos, k')
  unfolding fat_get_short_entry
  short_end e = ground arith

  short_step :
      {pos : ℕ} {a : Address} {k' : Disk}
      → fat_get_entry d g k dir c ≡ (entry (record { pos = pos; here = some a }), k')
      → fat_get_short_entry d g (suc f) k dir c ≡ (
          if is_short k' a
          then (entry (record { pos = pos; here = some a }), k')
          else fat_get_short_entry d g f k' dir (record { pos = pos; here = some a }))
  unfolding fat_get_short_entry
  short_step e = ground arith

  scan_end :
      {pos : ℕ} {k' : Disk} (name : List ℕ)
      → fat_get_short_entry d g (rounds g dir) k dir c ≡ (no_entry pos, k')
      → scan_loop d g (suc f) k dir name c ≡ (err enoent, k')
  unfolding scan_loop
  scan_end name e = ground arith

  scan_step :
      {pos : ℕ} {a : Address} {k' : Disk} (name : List ℕ)
      → fat_get_short_entry d g (rounds g dir) k dir c
        ≡ (entry (record { pos = pos; here = some a }), k')
      → scan_loop d g (suc f) k dir name c ≡ (
          if same_name k' a.0 a.1 msdos_name name
          then (
            ok (record {
              i_pos = fat_make_i_pos g a;
              slot_off = pos - entry_size;
              nr_slots = 1;
              here = a;
            }),
            k',
          )
          else scan_loop d g f k' dir name (record { pos = pos; here = some a }))
  unfolding scan_loop
  scan_step name e = ground arith

  subdirs_end :
      {pos : ℕ} (count : ℕ) {k' : Disk}
      → fat_get_short_entry d g (rounds g dir) k dir c ≡ (no_entry pos, k')
      → subdirs_loop d g (suc f) k dir c count ≡ (ok count, k')
  unfolding subdirs_loop
  subdirs_end count e = ground arith

  subdirs_step :
      {pos : ℕ} (count : ℕ) {a : Address} {k' : Disk}
      → fat_get_short_entry d g (rounds g dir) k dir c
        ≡ (entry (record { pos = pos; here = some a }), k')
      → subdirs_loop d g (suc f) k dir c count
        ≡ subdirs_loop d g f k' dir
            (record { pos = pos; here = some a })
            ((if has_dir (attr_at k' a) then 1 else 0) + count)
  unfolding subdirs_loop
  subdirs_step count e = ground arith

module _ {d : Device} {g : Geometry} {dir : FatInode} {blocks : ℕ → ℕ} (k : Disk)
    (mapped : IsMapped d g k.vol dir blocks) where
  -- The end of a walk that looks for a short entry.
  abbrev arrived : Option ℕ → Fetched × Disk
  arrived none = (no_entry (entry_count g dir * entry_size), k)
  arrived (some j) = (entry (before g blocks (suc j)), k)

  short_lem :
      (n i f : ℕ)
      → i + n ≡ entry_count g dir
      → n < f
      → fat_get_short_entry d g f k dir (before g blocks i)
        ≡ arrived (first (short_at g blocks k) i n)
  unfolding before
  short_lem n i zero e h = absurd (omega arith)
  short_lem zero i (suc f) e h =
      short_end d g dir f k (before g blocks i) (end_lem mapped i k refl (omega arith))
      ∙ ap (λ (x : ℕ). (no_entry (x * entry_size), k)) (omega arith)
  short_lem (suc n) i (suc f) e h =
      let rest = short_lem n (suc i) f (omega arith) (omega arith) in
      short_step d g dir f k (before g blocks i) (next_lem mapped i k refl (omega arith))
      ∙ see_if arrived (short_at g blocks k i) i (first (short_at g blocks k) (suc i) n) refl rest

  -- What the searches see of one call.
  get_short_lem :
      (n i : ℕ)
      → i + n ≡ entry_count g dir
      → fat_get_short_entry d g (rounds g dir) k dir (before g blocks i)
        ≡ arrived (first (short_at g blocks k) i n)
  get_short_lem n i e = short_lem n i (rounds g dir) e (omega arith)

  abbrev found : Option ℕ → Result SlotInfo × Disk
  found none = (err enoent, k)
  found (some j) = (ok (slot_info g blocks j), k)

  scan_loop_lem :
      (name : List ℕ) (f n i : ℕ)
      → i + n ≡ entry_count g dir
      → n < f
      → scan_loop d g f k dir name (before g blocks i)
        ≡ found (first (both (short_at g blocks k) (named_at g blocks k name)) i n)
  unfolding scan_loop before
  scan_loop_lem name zero n i e h = absurd (omega arith)
  scan_loop_lem name (suc f) n i e h =
      go (λ (m j : ℕ). scan_loop_lem name f m (suc j)) (first (short_at g blocks k) i n) refl
    where
      p : ℕ → Bool
      p = both (short_at g blocks k) (named_at g blocks k name)

      go :
          ((m j : ℕ)
            → suc j + m ≡ entry_count g dir
            → m < f
            → scan_loop d g f k dir name (before g blocks (suc j)) ≡ found (first p (suc j) m))
          → (x : Option ℕ) → first (short_at g blocks k) i n ≡ x
          → scan_loop d g (suc f) k dir name (before g blocks i) ≡ found (first p i n)
      go again none r =
          scan_end d g dir f k (before g blocks i) name (get_short_lem n i e ∙ ap arrived r)
          ∙ sym (ap found (first-both-none (short_at g blocks k) (named_at g blocks k name) i n r))
      go again (some j) r =
          let (l, u, s) = first-range (short_at g blocks k) i n j r in
          let m : ℕ = i + n - suc j in
          let rest = again m j (omega arith) (omega arith) in
          let split =
            first-both-some (short_at g blocks k) (named_at g blocks k name) i n j m r
              (omega arith) in
          scan_step d g dir f k (before g blocks i) name (get_short_lem n i e ∙ ap arrived r)
          ∙ (see_if found (named_at g blocks k name j) j (first p (suc j) m)
                (ap
                  (λ (x : ℕ). (
                    ok (record {
                      i_pos = fat_make_i_pos g (slot_at g blocks j);
                      slot_off = x;
                      nr_slots = 1;
                      here = slot_at g blocks j;
                    }),
                    k,
                  ))
                  (omega arith))
                rest
              ∙ sym (ap found split))

  subdirs_loop_lem :
      (f n i count : ℕ)
      → i + n ≡ entry_count g dir
      → n < f
      → subdirs_loop d g f k dir (before g blocks i) count
        ≡ (ok (count_if (both (short_at g blocks k) (dir_at g blocks k)) i n + count), k)
  unfolding before
  subdirs_loop_lem zero n i count e h = absurd (omega arith)
  subdirs_loop_lem (suc f) n i count e h =
      go (λ (m j c : ℕ). subdirs_loop_lem f m (suc j) c) (first (short_at g blocks k) i n) refl
    where
      p : ℕ → Bool
      p = both (short_at g blocks k) (dir_at g blocks k)

      go :
          ((m j c : ℕ)
            → suc j + m ≡ entry_count g dir
            → m < f
            → subdirs_loop d g f k dir (before g blocks (suc j)) c
              ≡ (ok (count_if p (suc j) m + c), k))
          → (x : Option ℕ) → first (short_at g blocks k) i n ≡ x
          → subdirs_loop d g (suc f) k dir (before g blocks i) count
            ≡ (ok (count_if p i n + count), k)
      go again none r =
          let nothing = count_if-both-none (short_at g blocks k) (dir_at g blocks k) i n r in
          subdirs_end d g dir f k (before g blocks i) count (get_short_lem n i e ∙ ap arrived r)
          ∙ ap (λ (x : ℕ). (ok x, k)) (omega arith)
      go again (some j) r =
          let (l, u, s) = first-range (short_at g blocks k) i n j r in
          let m : ℕ = i + n - suc j in
          let split =
            count_if-both-some (short_at g blocks k) (dir_at g blocks k) i n j m r (omega arith) in
          subdirs_step d g dir f k (before g blocks i) count (get_short_lem n i e ∙ ap arrived r)
          ∙ (again m j _ (omega arith) (omega arith) ∙ ap (λ (x : ℕ). (ok x, k)) (omega arith))

-- In a directory whose blocks are mapped apart and can be read, `fat_scan` returns, leaves the disk
-- as it is, and gives the first entry, by number, that is short and bears the name, with its
-- address, its offset and one slot; without such an entry it gives -ENOENT.
pub fat_scan_first :
    (d : Device) (g : Geometry) (k : Disk) (dir : FatInode) (blocks : ℕ → ℕ) (name : List ℕ)
    → IsMapped d g k.vol dir blocks
    → fat_scan d g k dir name ≡ (
      elim (first (both (short_at g blocks k) (named_at g blocks k name)) 0 (entry_count g dir)) [
        | none ↦ err enoent
        | some j ↦ ok (slot_info g blocks j)
      ],
      k,
    )
unfolding fat_scan before
fat_scan_first d g k dir blocks name mapped =
    scan_loop_lem k mapped name (rounds g dir) (entry_count g dir) 0 (omega arith) (omega arith)
    ∙ spread (first (both (short_at g blocks k) (named_at g blocks k name)) 0 (entry_count g dir))
  where
    spread :
        (o : Option ℕ)
        → found k mapped o ≡ (elim o [ none ↦ err enoent | some j ↦ ok (slot_info g blocks j) ], k)
    spread none = refl
    spread (some j) = refl

-- In a directory whose blocks are mapped apart and can be read, `fat_subdirs` returns, leaves the
-- disk as it is, and counts the entries that are short and have the directory attribute.
pub fat_subdirs_count :
    (d : Device) (g : Geometry) (k : Disk) (dir : FatInode) (blocks : ℕ → ℕ)
    → IsMapped d g k.vol dir blocks
    → fat_subdirs d g k dir
      ≡ (ok (count_if (both (short_at g blocks k) (dir_at g blocks k)) 0 (entry_count g dir)), k)
unfolding fat_subdirs before
fat_subdirs_count d g k dir blocks mapped =
    subdirs_loop_lem k mapped (rounds g dir) (entry_count g dir) 0 0 (omega arith) (omega arith)
    ∙ ap (λ (x : ℕ). (ok x, k)) (omega arith)
