-- ===== src/Fat/Dir/Slots.antt =====
-- The entries of a directory by their numbers, and `fat_get_entry` of ATS/myfat/fat_dir.c as the
-- step from one to the next.
use ats_ldd.Base.{
  ℕ, zero, suc, ◌+◌, ◌-◌, ◌*◌, ◌/◌, ◌%◌, ◌^◌, ◌≤◌, ◌<◌, ◌≡◌, ◌≢◌, sym, ap, ap₂, ◌∙◌, true, List, ok,
  none, some, get_or, arith, dec_lt,
}
use native.Mathlib.Nat.{
  div-add-mod, mul-div-mul_left, div-lt_iff_lt-mul, mul-div_left, mul-mod_left,
}
use native.Mathlib.Numerals.{towards_suc, add-one}
use ats_ldd.Fat.Volume.{Geometry, Device, Volume, blocksize, sec_per_clus}
use ats_ldd.Fat.Cluster.Locate.{AllReadable}
use ats_ldd.Fat.Cluster.{FatInode, fat_bmap, last_block}
use ats_ldd.Fat.Cluster.Blocks.{
  IsLaidOut, HasChain, fat_bmap-HasChain, fat_bmap_past, fat_bmap_injective, block_number, index_of,
}
use ats_ldd.Fat.Dir.{
  Disk, Cursor, Address, entry, no_entry, fat__get_entry, fat_get_entry, dir_per_block, entry_size,
  at_start,
}

-- What the walks over a directory rely on: its blocks can be read and are mapped, different ones to
-- different blocks of the disk, none of them to block 0.
pub record IsMapped (d : Device) (g : Geometry) (v : Volume) (dir : FatInode) (blocks : ℕ → ℕ)
    : Type 0 where
  pub reads : (b : ℕ) → d.bread b ≡ true
  pub maps :
      (s : ℕ) → s < last_block g dir → (m : ℕ) × (fat_bmap d g v dir s ≡ (ok (blocks s, m), v))
  pub there : (s : ℕ) → s < last_block g dir → 1 ≤ blocks s
  pub apart : (s t : ℕ) → s < last_block g dir → t < last_block g dir → blocks s ≡ blocks t → s ≡ t
  pub entries : 5 ≤ g.blocksize_bits

-- The blocks of a directory that has a chain.
abbrev pub chain_blocks : Geometry → List ℕ → ℕ → ℕ
chain_blocks g cs s = block_number g (get_or cs (index_of g s) 0) + s % sec_per_clus g

-- A directory that has a chain is such a directory, where the data area begins after block 0.
pub HasChain-IsMapped :
    (d : Device) (g : Geometry) (v : Volume) (dir : FatInode) (cs : List ℕ)
    → AllReadable d
    → IsLaidOut g
    → HasChain g v dir cs
    → 1 ≤ g.data_start
    → 5 ≤ g.blocksize_bits
    → IsMapped d g v dir (chain_blocks g cs)
HasChain-IsMapped d g v dir cs all l c first bits = record {
  reads = all;
  maps = λ s h. (_, fat_bmap-HasChain d g v dir cs s all l c h);
  there = λ s h. omega arith;
  apart = λ s t hs ht.
      fat_bmap_injective d g v dir cs s t _ _ _ _ all l c hs ht
        (fat_bmap-HasChain d g v dir cs s all l c hs) (fat_bmap-HasChain d g v dir cs t all l c ht);
  entries = bits;
}

-- How many entries a directory has.
abbrev pub entry_count : Geometry → FatInode → ℕ
entry_count g dir = last_block g dir * dir_per_block g

-- The address of entry `i`.
unfoldable pub slot_at : Geometry → (ℕ → ℕ) → ℕ → Address
slot_at g blocks i = (blocks (i / dir_per_block g), i % dir_per_block g * entry_size)

-- Before entry `i`, after a walk from the start.
unfoldable pub before : Geometry → (ℕ → ℕ) → ℕ → Cursor
before g blocks zero = at_start
before g blocks (suc i) = record { pos = suc i * entry_size; here = some (slot_at g blocks i) }

pub blocksize-dir_per_block :
    (g : Geometry) → 5 ≤ g.blocksize_bits → blocksize g ≡ 32 * dir_per_block g
blocksize-dir_per_block g h =
    let e : g.blocksize_bits ≡ g.blocksize_bits - 5 + 5 = omega arith in
    ap (λ (x : ℕ). 2 ^ x) e ∙ five (g.blocksize_bits - 5)
  where
    five : (n : ℕ) → 2 ^ (n + 5) ≡ 32 * 2 ^ n
    five n = simp towards_suc (omega arith)

pub dir_per_block_pos : (g : Geometry) → 1 ≤ dir_per_block g
dir_per_block_pos g = pos (g.blocksize_bits - 5)
  where
    pos : (n : ℕ) → 1 ≤ 2 ^ n
    pos zero = omega arith
    pos (suc n) = let h : 1 ≤ 2 ^ n = pos n in omega arith

-- Block and offset of the position of entry `i`.
pub position_parts :
    (n i : ℕ) → 1 ≤ n → (i * 32 / (32 * n) ≡ i / n) × (i * 32 % (32 * n) ≡ i % n * 32)
position_parts n i h =
    let q : 32 * i / (32 * n) ≡ i / n = mul-div-mul_left i n (omega arith) in
    let c : i * 32 ≡ 32 * i = omega arith in
    (ap (λ (x : ℕ). x / (32 * n)) c ∙ q, ap (λ (x : ℕ). x % (32 * n)) c ∙ rest q)
  where
    assoc : (x : ℕ) → 32 * n * x ≡ 32 * (n * x)
    assoc x = omega arith

    rest : 32 * i / (32 * n) ≡ i / n → 32 * i % (32 * n) ≡ i % n * 32
    rest q = omega (
      arith,
      div-add-mod (32 * i) (32 * n),
      div-add-mod i n,
      ap (λ (x : ℕ). 32 * n * x) q,
      assoc (i / n),
    )

-- The next number in the same block.
pub next_parts : (n i : ℕ) → i % n < n - 1 → (suc i / n ≡ i / n) × (suc i % n ≡ i % n + 1)
next_parts n i h = grind (arith, div-add-mod)

last_offset : (n i l : ℕ) → 1 ≤ n → suc i ≡ l * n → n - 1 ≤ i % n
last_offset n i l h e = elim (dec_lt (i % n) (n - 1)) [
  | no ge ↦ omega arith
  | yes lt ↦
      let (q, r) = next_parts n i lt in
      let whole : l * n % n ≡ 0 = mul-mod_left l n in
      absurd (omega (arith, ap (λ (x : ℕ). x % n) e))
]

fetch_lem :
    (d : Device) (g : Geometry) (f : ℕ) (k : Disk) (dir : FatInode) (pos phys m : ℕ)
    → fat_bmap d g k.vol dir (pos / blocksize g) ≡ (ok (phys, m), k.vol)
    → 1 ≤ phys
    → d.bread phys ≡ true
    → fat__get_entry d g (suc f) k dir pos
      ≡ (entry (record { pos = pos + entry_size; here = some (phys, pos % blocksize g) }), k)
unfolding fat__get_entry
fetch_lem d g f k dir pos phys m e h r = ground arith

past_lem :
    (d : Device) (g : Geometry) (f : ℕ) (k : Disk) (dir : FatInode) (pos : ℕ)
    → last_block g dir ≤ pos / blocksize g
    → fat__get_entry d g (suc f) k dir pos ≡ (no_entry pos, k)
unfolding fat__get_entry
past_lem d g f k dir pos h =
    let e = fat_bmap_past d g k.vol dir (pos / blocksize g) h in ground arith

-- The walk in a block.
inside_lem :
    (d : Device) (g : Geometry) (k : Disk) (dir : FatInode) (pos b o : ℕ)
    → o / entry_size < dir_per_block g - 1
    → fat_get_entry d g k dir (record { pos = pos; here = some (b, o) })
      ≡ (entry (record { pos = pos + entry_size; here = some (b, o + entry_size) }), k)
unfolding fat_get_entry
inside_lem d g k dir pos b o h = ground arith

over_lem :
    (d : Device) (g : Geometry) (k : Disk) (dir : FatInode) (pos b o : ℕ)
    → dir_per_block g - 1 ≤ o / entry_size
    → fat_get_entry d g k dir (record { pos = pos; here = some (b, o) })
      ≡ fat__get_entry d g (last_block g dir + 1) k dir pos
unfolding fat_get_entry
over_lem d g k dir pos b o h = ground arith

module _ {d : Device} {g : Geometry} {v : Volume} {dir : FatInode} {blocks : ℕ → ℕ}
    (mapped : IsMapped d g v dir blocks) where
  slow_lem :
      (f i : ℕ) (k : Disk)
      → k.vol ≡ v
      → i < entry_count g dir
      → fat__get_entry d g (f + 1) k dir (i * entry_size)
        ≡ (entry (record { pos = suc i * entry_size; here = some (slot_at g blocks i) }), k)
  unfolding slot_at
  slow_lem f i k e h =
      let size : blocksize g ≡ 32 * dir_per_block g = blocksize-dir_per_block g mapped.entries in
      let (q, r) = position_parts (dir_per_block g) i (dir_per_block_pos g) in
      let l : i / dir_per_block g < last_block g dir =
        (div-lt_iff_lt-mul (dir_per_block_pos g)).1 h in
      let (m, run) = mapped.maps (i / dir_per_block g) l in
      let block : i * entry_size / blocksize g ≡ i / dir_per_block g =
        ap (λ (x : ℕ). i * 32 / x) size ∙ q in
      let offset : i * entry_size % blocksize g ≡ i % dir_per_block g * 32 =
        ap (λ (x : ℕ). i * 32 % x) size ∙ r in
      let found : fat_bmap d g k.vol dir (i * entry_size / blocksize g)
          ≡ (ok (blocks (i / dir_per_block g), m), k.vol) =
        rw e (rw block run) in
      rw add-one (
        fetch_lem d g f k dir (i * entry_size) (blocks (i / dir_per_block g)) m found
          (mapped.there _ l) (mapped.reads _)
        ∙ ap₂
            (λ (x y : ℕ).
              (entry (record { pos = x; here = some (blocks (i / dir_per_block g), y) }), k))
            (omega arith) offset)

  -- One call goes from before an entry to before the next one, and reads the entry.
  pub next_lem :
      (i : ℕ) (k : Disk)
      → k.vol ≡ v
      → i < entry_count g dir
      → fat_get_entry d g k dir (before g blocks i) ≡ (entry (before g blocks (suc i)), k)
  unfolding before slot_at fat_get_entry
  next_lem zero k e h = slow_lem (last_block g dir) 0 k e h
  next_lem (suc i) k e h =
      let o : i % dir_per_block g * 32 / 32 ≡ i % dir_per_block g = omega arith in
      elim (dec_lt (i % dir_per_block g) (dir_per_block g - 1)) [
        | yes l ↦
            let (q, r) = next_parts (dir_per_block g) i l in
            inside_lem d g k dir (suc i * entry_size) (blocks (i / dir_per_block g))
              (i % dir_per_block g * 32) (omega arith)
            ∙ ap₂ (λ (x : ℕ) (y : Address). (entry (record { pos = x; here = some y }), k))
                (omega arith) (ap₂ (λ (x y : ℕ). (blocks x, y)) (sym q) (omega arith))
        | no n ↦
            over_lem d g k dir (suc i * entry_size) (blocks (i / dir_per_block g))
              (i % dir_per_block g * 32) (omega arith)
            ∙ slow_lem (last_block g dir) (suc i) k e h
      ]

  -- Without a buffer the entry at the position is read.
  pub get_lem :
      (i : ℕ) (k : Disk)
      → k.vol ≡ v
      → i < entry_count g dir
      → fat_get_entry d g k dir (record { pos = i * entry_size; here = none })
        ≡ (entry (record { pos = suc i * entry_size; here = some (slot_at g blocks i) }), k)
  unfolding fat_get_entry
  get_lem i k e h = slow_lem (last_block g dir) i k e h

  -- From the end of the directory on there is no entry.
  pub end_lem :
      (n : ℕ) (k : Disk)
      → k.vol ≡ v
      → n ≡ entry_count g dir
      → fat_get_entry d g k dir (before g blocks n) ≡ (no_entry (n * entry_size), k)
  unfolding before slot_at fat_get_entry
  end_lem zero k e h =
      let none_left : last_block g dir ≡ 0 = grind (arith, dir_per_block_pos g) in
      rw add-one (past_lem d g (last_block g dir) k dir 0 (omega arith))
  end_lem (suc i) k e h =
      let n : ℕ = dir_per_block g in
      let n_pos = dir_per_block_pos g in
      let (q, r) = position_parts n (suc i) n_pos in
      let last : n - 1 ≤ i % n = last_offset n i (last_block g dir) n_pos h in
      let block : suc i * 32 / blocksize g ≡ last_block g dir =
        ap (λ (x : ℕ). suc i * 32 / x) (blocksize-dir_per_block g mapped.entries)
        ∙ q
        ∙ (ap (λ (x : ℕ). x / n) h ∙ mul-div_left (last_block g dir) n_pos) in
      let o : i % n * 32 / 32 ≡ i % n = omega arith in
      over_lem d g k dir (suc i * entry_size) (blocks (i / n)) (i % n * 32) (omega arith)
      ∙ rw add-one (past_lem d g (last_block g dir) k dir (suc i * entry_size) (omega arith))

  -- Different entries have no byte in common.
  pub slots_apart :
      (i j c e : ℕ)
      → i < entry_count g dir
      → j < entry_count g dir
      → i ≢ j
      → c < 32
      → e < 32
      → (slot_at g blocks i).0 ≡ (slot_at g blocks j).0
      → (slot_at g blocks i).1 + c ≢ (slot_at g blocks j).1 + e
  unfolding slot_at
  slots_apart i j c e hi hj ne hc he same off =
      let p : ℕ = dir_per_block g in
      let si : i / p < last_block g dir = (div-lt_iff_lt-mul (dir_per_block_pos g)).1 hi in
      let sj : j / p < last_block g dir = (div-lt_iff_lt-mul (dir_per_block_pos g)).1 hj in
      let q : i / p ≡ j / p = mapped.apart (i / p) (j / p) si sj same in
      ne (omega (arith, ap (λ (x : ℕ). p * x) q, div-add-mod i p, div-add-mod j p))
