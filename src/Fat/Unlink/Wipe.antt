-- ===== src/Fat/Unlink/Wipe.antt =====
-- Which bytes `fat_remove_entries` of ATS/myfat/fat_dir.c writes.
use ats_ldd.Base.{
  ℕ, zero, suc, ◌+◌, ◌-◌, ◌*◌, ◌/◌, ◌%◌, ◌≤◌, ◌<◌, ◌≡◌, ◌⊎◌, inl, inr, refl, sym, ap, ap₂, subst,
  ◌∙◌, Bool, false, ◌&&◌, ◌||◌, ok, none, some, if◌then◌else◌, ◌==◌, arith,
}
use native.Mathlib.Nat.{zero-add, add-zero}
use native.Mathlib.Nat.{mul-mod_right, mul-div_right}
use ats_ldd.Fat.Volume.{Geometry, Device, Volume, blocksize}
use ats_ldd.Fat.Cluster.{FatInode}
use ats_ldd.Fat.Dir.{Disk, Address, entry, entry_size, deleted_flag, dir_per_block, fat_get_entry}
use ats_ldd.Fat.Dir.Slots.{
  IsMapped, entry_count, slot_at, get_lem, next_parts, dir_per_block_pos, blocksize-dir_per_block,
}
use ats_ldd.Fat.Unlink.{delete, wipe_up, wipe_down, mark, sync_dir, __fat_remove_entries}

module _ (slot : ℕ → Address) where
  -- Whether byte `o` of block `b` is the first one of entry `i`.
  abbrev pub name_byte : ℕ → ℕ → ℕ → Bool
  name_byte i b o = (slot i).0 == b && (slot i).1 == o

  -- Whether it is the first one of an entry from `a` on, of `n`.
  abbrev pub hit : ℕ → ℕ → ℕ → ℕ → Bool
  hit a zero b o = false
  hit a (suc n) b o = name_byte a b o || hit (suc a) n b o

  -- The `n` entries from `a` on are marked as deleted, and nothing else is written.
  abbrev pub Wiped : (ℕ → ℕ → ℕ) → (ℕ → ℕ → ℕ) → ℕ → ℕ → Type 0
  Wiped m m' a n = (b o : ℕ) → m' b o ≡ (if hit a n b o then deleted_flag else m b o)

  hit-add : (a n p b o : ℕ) → hit a (n + p) b o ≡ (hit a n b o || hit (a + n) p b o)
  hit-add a zero p b o = rw zero-add (rw add-zero refl)
  hit-add a (suc n) p b o =
      let rest = hit-add (suc a) n p b o in
      let same : hit (suc a + n) p b o ≡ hit (a + suc n) p b o =
        ap (λ (x : ℕ). hit x p b o) (omega arith) in
      let succ : suc n + p ≡ suc (n + p) = omega arith in
      let step : hit a (suc n + p) b o ≡ hit a (suc (n + p)) b o =
        ap (λ (x : ℕ). hit a x b o) succ in
      ground arith

  hit-last : (a n b o : ℕ) → hit a (suc n) b o ≡ (hit a n b o || name_byte (a + n) b o)
  hit-last a zero b o =
      let same : name_byte (a + 0) b o ≡ name_byte a b o =
        ap (λ (x : ℕ). name_byte x b o) (omega arith) in
      ground arith
  hit-last a (suc n) b o =
      let rest = hit-last (suc a) n b o in
      let same : name_byte (suc a + n) b o ≡ name_byte (a + suc n) b o =
        ap (λ (x : ℕ). name_byte x b o) (omega arith) in
      ground arith

  -- One entry more, before or after.
  Wiped-first :
      (m m' : ℕ → ℕ → ℕ) (a n b e : ℕ)
      → slot a ≡ (b, e * 32)
      → Wiped (delete m b e) m' (suc a) n
      → Wiped m m' a (suc n)
  unfolding delete
  Wiped-first m m' a n b e s w x o =
      let here : name_byte a x o ≡ (b == x && e * 32 == o) =
        ap (λ (p : Address). p.0 == x && p.1 == o) s in
      let rest = w x o in ground arith

  Wiped-last :
      (m m' : ℕ → ℕ → ℕ) (a n b e : ℕ)
      → slot (a + n) ≡ (b, e * 32)
      → Wiped (delete m b e) m' a n
      → Wiped m m' a (suc n)
  unfolding delete
  Wiped-last m m' a n b e s w x o =
      let here : name_byte (a + n) x o ≡ (b == x && e * 32 == o) =
        ap (λ (p : Address). p.0 == x && p.1 == o) s in
      let split = hit-last a n x o in let rest = w x o in ground arith

  Wiped-add :
      (m m' m2 : ℕ → ℕ → ℕ) (a n p : ℕ)
      → Wiped m m' a n
      → Wiped m' m2 (a + n) p
      → Wiped m m2 a (n + p)
  Wiped-add m m' m2 a n p w v b o =
      let split = hit-add a n p b o in let one = w b o in let two = v b o in ground arith

  pub Wiped-before :
      (m m' m2 : ℕ → ℕ → ℕ) (a n p : ℕ)
      → Wiped m m' (a + n) p
      → Wiped m' m2 a n
      → Wiped m m2 a (n + p)
  Wiped-before m m' m2 a n p w v b o =
      let split = hit-add a n p b o in let one = w b o in let two = v b o in ground arith

  wipe_up_lem :
      (left nr i e b : ℕ) (m : ℕ → ℕ → ℕ)
      → ((u : ℕ) → u < left → slot (i + u) ≡ (b, (e + u) * 32))
      → (t : ℕ) × Wiped m (wipe_up m b e left nr).0 i t
        × ((wipe_up m b e left nr).1 + t ≡ nr)
        × ((t ≡ left) ⊎ ((wipe_up m b e left nr).1 ≡ 0))
  unfolding wipe_up
  wipe_up_lem zero nr i e b m s = (0, (λ x o. refl), omega arith, inl refl)
  wipe_up_lem (suc left) zero i e b m s = (0, (λ x o. refl), refl, inr refl)
  wipe_up_lem (suc left) (suc nr) i e b m s =
      let (t, w, l, c) = wipe_up_lem left nr (suc i) (e + 1) b (delete m b e) (λ u h.
        ap slot (omega arith)
        ∙ s (suc u) (omega arith)
        ∙ ap (λ (x : ℕ). (b, x * 32)) (omega arith)) in
      let here : slot i ≡ (b, e * 32) =
        ap slot (omega arith) ∙ s 0 (omega arith) ∙ ap (λ (x : ℕ). (b, x * 32)) (omega arith) in
      (suc t, Wiped-first m _ i t b e here w, omega arith, full t c)
    where
      full : {l : ℕ} (t : ℕ) → (t ≡ left) ⊎ (l ≡ 0) → (suc t ≡ suc left) ⊎ (l ≡ 0)
      full t (inl y) = inl (omega arith)
      full t (inr y) = inr y

  pub wipe_down_lem :
      (e nr i b : ℕ) (m : ℕ → ℕ → ℕ)
      → ((u : ℕ) → u < e → slot (i + u) ≡ (b, u * 32))
      → (t : ℕ) × (t ≤ e)
        × Wiped m (wipe_down m b e nr).0 (i + e - t) t
        × ((wipe_down m b e nr).1 + t ≡ nr)
        × ((t ≡ e) ⊎ ((wipe_down m b e nr).1 ≡ 0))
  unfolding wipe_down
  wipe_down_lem zero nr i b m s = (0, omega arith, (λ x o. refl), omega arith, inl refl)
  wipe_down_lem (suc e) zero i b m s = (0, omega arith, (λ x o. refl), refl, inr refl)
  wipe_down_lem (suc e) (suc nr) i b m s =
      let (t, u, w, l, c) = wipe_down_lem e nr i b (delete m b e) (λ u h. s u (omega arith)) in
      let here : slot (i + e - t + t) ≡ (b, e * 32) = ap slot (omega arith) ∙ s e (omega arith) in
      let from : i + suc e - suc t ≡ i + e - t = omega arith in
      (
        suc t,
        omega arith,
        subst (λ (x : ℕ). Wiped m (wipe_down (delete m b e) b e nr).0 x (suc t)) (sym from)
            (Wiped-last m (wipe_down (delete m b e) b e nr).0 (i + e - t) t b e here w),
        omega arith,
        full t c,
      )
    where
      full : {l : ℕ} (t : ℕ) → (t ≡ e) ⊎ (l ≡ 0) → (suc t ≡ suc e) ⊎ (l ≡ 0)
      full t (inl y) = inl (omega arith)
      full t (inr y) = inr y

-- The writes to a directory reach the disk, where the directory asks for that.
abbrev pub Syncs : Device → FatInode → Type 0
Syncs d dir = (b : ℕ) → sync_dir d dir b ≡ none

round_lem :
    (d : Device) (g : Geometry) (rounds nr pos : ℕ) (k : Disk) (dir : FatInode) (c b o : ℕ)
    → fat_get_entry d g k dir (record { pos = pos; here = none })
      ≡ (entry (record { pos = c; here = some (b, o) }), k)
    → sync_dir d dir b ≡ none
    → __fat_remove_entries d g (suc rounds) k dir pos (suc nr) ≡ (
        let w = wipe_up k.byte b (o / entry_size) ((blocksize g - o) / entry_size) (suc nr) in
        __fat_remove_entries d g rounds
          (mark (record k { byte = w.0 }) b)
          dir
          (c + (suc nr - w.1) * entry_size - entry_size)
          w.1)
unfolding __fat_remove_entries
round_lem d g rounds nr pos k dir c b o e s = ground arith

-- The numbers after one in the same block.
block_parts : (n a u : ℕ) → u + a % n < n → ((a + u) / n ≡ a / n) × ((a + u) % n ≡ a % n + u)
block_parts n a zero h =
    let same : a + 0 ≡ a = omega arith in
    (ap (λ (x : ℕ). x / n) same, ap (λ (x : ℕ). x % n) same ∙ omega arith)
block_parts n a (suc u) h =
    let (q, o) = block_parts n a u (omega arith) in
    let (q2, o2) = next_parts n (a + u) (omega arith) in
    let same : a + suc u ≡ suc (a + u) = omega arith in
    (ap (λ (x : ℕ). x / n) same ∙ (q2 ∙ q), ap (λ (x : ℕ). x % n) same ∙ omega arith)

module _ {d : Device} {g : Geometry} {v : Volume} {dir : FatInode} {blocks : ℕ → ℕ}
    (mapped : IsMapped d g v dir blocks) (syncs : Syncs d dir) where
  abbrev slot : ℕ → Address
  slot = slot_at g blocks

  -- The entries of a block.
  slot_above :
      (a u : ℕ)
      → u + a % dir_per_block g < dir_per_block g
      → slot (a + u) ≡ (blocks (a / dir_per_block g), (a % dir_per_block g + u) * 32)
  unfolding slot_at
  slot_above a u h =
      let (q, o) = block_parts (dir_per_block g) a u h in ap₂ (λ (x y : ℕ). (blocks x, y * 32)) q o

  pub __fat_remove_entries_lem :
      (rounds nr a : ℕ) (k : Disk)
      → k.vol ≡ v
      → nr ≤ rounds
      → a + nr ≤ entry_count g dir
      → (k' : Disk) × (__fat_remove_entries d g rounds k dir (a * entry_size) nr ≡ (ok 0, k'))
        × (k'.vol ≡ v)
        × Wiped slot k.byte k'.byte a nr
  unfolding __fat_remove_entries mark slot_at
  __fat_remove_entries_lem rounds zero a k e h l = (k, refl, e, λ b o. refl)
  __fat_remove_entries_lem zero (suc nr) a k e h l = absurd (omega arith)
  __fat_remove_entries_lem (suc rounds) (suc nr) a k e h l =
      let n : ℕ = dir_per_block g in
      let n_pos : 1 ≤ n = dir_per_block_pos g in
      let size = blocksize-dir_per_block g mapped.entries in
      let small : a % n < n = omega arith in
      let b : ℕ = blocks (a / n) in
      let o : ℕ = a % n * 32 in
      let left : ℕ = (blocksize g - o) / 32 in
      let left_is : left ≡ n - a % n = omega arith in
      let e_is : o / 32 ≡ a % n = omega arith in
      let (t, w, used, full) =
        wipe_up_lem slot left (suc nr) a (o / 32) b k.byte
          (λ u h. slot_above a u (omega arith) ∙ ap (λ (x : ℕ). (b, x * 32)) (omega arith)) in
      let one : 1 ≤ t = one_full t (omega arith) used full in
      let l2 : ℕ = (wipe_up k.byte b (o / 32) left (suc nr)).1 in
      let m : ℕ → ℕ → ℕ = (wipe_up k.byte b (o / 32) left (suc nr)).0 in
      let k2 : Disk = mark (record k { byte = m }) b in
      let run =
        round_lem d g rounds nr (a * 32) k dir (suc a * 32) b o (get_lem mapped a k e (omega arith))
          (syncs b) in
      let pos : suc a * 32 + (suc nr - l2) * 32 - 32 ≡ (a + t) * 32 = omega arith in
      let all : t + l2 ≡ suc nr = omega arith in
      let (k', result, vol, w2) =
        __fat_remove_entries_lem rounds l2 (a + t) k2 e (omega arith) (omega arith) in
      (
        k',
        run ∙ (ap (λ (x : ℕ). __fat_remove_entries d g rounds k2 dir x l2) pos ∙ result),
        vol,
        subst (λ (x : ℕ). Wiped slot k.byte k'.byte a x) all
            (Wiped-add slot k.byte m k'.byte a t l2 w w2),
      )
    where
      one_full : {l left : ℕ} (t : ℕ) → 1 ≤ left → l + t ≡ suc nr → (t ≡ left) ⊎ (l ≡ 0) → 1 ≤ t
      one_full t h e (inl y) = omega arith
      one_full t h e (inr y) = omega arith

  -- The entries of the block that entry `j` stands in.
  pub slot_from :
      (q u : ℕ) → u < dir_per_block g → slot (dir_per_block g * q + u) ≡ (blocks q, u * 32)
  unfolding slot_at
  slot_from q u h =
      let n : ℕ = dir_per_block g in
      let start : n * q % n ≡ 0 = mul-mod_right n q in
      let whole : n * q / n ≡ q = mul-div_right q (dir_per_block_pos g) in
      let (x, y) = block_parts n (n * q) u (omega arith) in
      ap₂ (λ (b o : ℕ). (blocks b, o * 32)) (x ∙ whole) (y ∙ omega arith)
