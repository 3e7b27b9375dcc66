-- ===== src/Fat/Mirror/Copies.antt =====
-- What `fat_mirror_bhs` of ATS/myfat/fat_entry.c leaves in the copies of the table.
use ats_ldd.Base.{
  ℕ, zero, suc, ◌+◌, ◌-◌, ◌*◌, ◌/◌, ◌^◌, ◌≤◌, ◌<◌, ◌≡◌, ◌≢◌, refl, Bool, true, List, [], ◌∷◌, none,
  if◌then◌else◌, leb, ◌&&◌, has, All, All-has, arith, Bool-cases, inl, inr, ℕ_discrete, subst, ap,
  ◌∙◌,
}
use native.Mathlib.Nat.{div-lt_iff_lt-mul}
use ats_ldd.Fat.Volume.{
  Geometry, Device, Volume, written, blocksize, fat_sync_bhs-written, copy_block,
}
use ats_ldd.Fat.Entry.{entry_value}
use ats_ldd.Fat.Entry.Table.{table, block_of, offset_of, IsFat32}
use ats_ldd.Fat.Mirror.{copy_blocks, mirror_loop, fat_mirror_bhs, sync_and_mirror}

-- No call of the block layer fails.
pub record IsHealthy (d : Device) : Type 0 where
  pub reads : (b : ℕ) → d.bread b ≡ true
  pub gets : (b : ℕ) → d.getblk b ≡ true
  pub writes : (b : ℕ) → d.write b ≡ written
  pub syncs : (b : ℕ) → d.sync_dirty b ≡ none

-- A block of the first table.
abbrev pub Primary : Geometry → ℕ → Type 0
Primary g b = (g.fat_start ≤ b) × (b < g.fat_start + g.fat_length)

-- The volume with other contents and marks.
abbrev pub OnlyWords : Volume → Volume → Type 0
OnlyWords v v' = v' ≡ record v { word = v'.word; dirty = v'.dirty }

module _ (d : Device) (g : Geometry) (healthy : IsHealthy d) where
  copy_blocks_lem :
      (base : ℕ) (bs : List ℕ) (v : Volume)
      → g.fat_length ≤ base
      → All (Primary g) bs
      → (v' : Volume) × (copy_blocks d g base bs v ≡ (none, v'))
        × OnlyWords v v'
        × ((x o : ℕ)
            → v'.word x o
              ≡ (if leb base x && has (x - base) bs then v.word (x - base) o else v.word x o))
  unfolding copy_blocks
  copy_blocks_lem base [] v k p = (v, refl, refl, λ x o. ground arith)
  copy_blocks_lem base (b ∷ bs) v k p =
      let v1 : Volume = record v {
        word = copy_block v.word (base + b) b;
        dirty = (base + b) ∷ v.dirty;
      } in
      let (w, run, only, words) = copy_blocks_lem base bs v1 k p.1 in
      (
        w,
        ground (arith, healthy.gets (base + b), healthy.syncs (base + b)),
        only,
        λ x o. copied w words x o,
      )
    where
      copied :
          (w : Volume)
          → ((x o : ℕ)
              → w.word x o ≡ (
                  if leb base x && has (x - base) bs
                  then copy_block v.word (base + b) b (x - base) o
                  else copy_block v.word (base + b) b x o))
          → (x o : ℕ)
          → w.word x o
            ≡ (if leb base x && has (x - base) (b ∷ bs) then v.word (x - base) o else v.word x o)
      copied w words x o = elim (Bool-cases (has (x - base) bs)) [
        | inl old ↦ ground (arith, words x o, All-has (Primary g) bs (x - base) p.1 old)
        | inr new ↦ ground (arith, words x o)
      ]

  -- Where block `b` of the table stands in copy `j`.
  abbrev pub copy_of : ℕ → ℕ → ℕ
  copy_of j b = g.fat_length * j + b

  -- What `n` rounds of the loop from copy `k` on leave.
  record Mirrored (n k : ℕ) (bs : List ℕ) (v v' : Volume) : Type 0 where
    only : OnlyWords v v'
    before : (j b o : ℕ) → Primary g b → j < k → v'.word (copy_of j b) o ≡ v.word (copy_of j b) o
    done : (j b o : ℕ) → has b bs ≡ true → k ≤ j → j < k + n → v'.word (copy_of j b) o ≡ v.word b o

  -- A block of copy `j` is no block of a later copy.
  copy_apart : (j k b b' : ℕ) → Primary g b → Primary g b' → j < k → copy_of j b ≢ copy_of k b'
  copy_apart j k b b' p q h e =
      let step : g.fat_length * (j + 1) ≤ g.fat_length * k = grind arith in omega arith

  -- One round, for copy `k`, leaves the earlier copies and the table, and makes copy `k`.
  abbrev Round : ℕ → List ℕ → Volume → Volume → Type 0
  Round k bs v v1 =
      (x o : ℕ)
      → v1.word x o ≡ (
          if leb (g.fat_length * k) x && has (x - g.fat_length * k) bs
          then v.word (x - g.fat_length * k) o
          else v.word x o)

  round_before :
      (k : ℕ) (bs : List ℕ) (v v1 : Volume)
      → All (Primary g) bs
      → Round k bs v v1
      → (j b o : ℕ) → Primary g b
      → j < k
      → v1.word (copy_of j b) o ≡ v.word (copy_of j b) o
  round_before k bs v v1 p words j b o q l =
      elim (Bool-cases
        (leb (g.fat_length * k) (copy_of j b) && has (copy_of j b - g.fat_length * k) bs)) [
          | inr miss ↦ ground (arith, words (copy_of j b) o)
          | inl hit ↦
              let there : has (copy_of j b - g.fat_length * k) bs ≡ true = ground arith in
              let b' = All-has (Primary g) bs (copy_of j b - g.fat_length * k) p there in
              absurd (copy_apart j k b (copy_of j b - g.fat_length * k) q b' l (ground arith))
        ]

  round_table :
      (k : ℕ) (bs : List ℕ) (v v1 : Volume)
      → 1 ≤ k
      → All (Primary g) bs
      → Round k bs v v1
      → (b o : ℕ) → Primary g b
      → v1.word b o ≡ v.word b o
  round_table k bs v v1 h p words b o q =
      let zeroth : copy_of 0 b ≡ b = omega arith in
      subst (λ x. v1.word x o ≡ v.word x o) zeroth (round_before k bs v v1 p words 0 b o q h)

  round_at :
      (k : ℕ) (bs : List ℕ) (v v1 : Volume)
      → Round k bs v v1
      → (b o : ℕ) → has b bs ≡ true
      → v1.word (copy_of k b) o ≡ v.word b o
  round_at k bs v v1 words b o i =
      let back : copy_of k b - g.fat_length * k ≡ b = omega arith in
      let w = words (copy_of k b) o in ground (arith, back, w)

  mirror_lem :
      (n k : ℕ) (bs : List ℕ) (v : Volume)
      → 1 ≤ k
      → All (Primary g) bs
      → (v' : Volume) × (mirror_loop d g n k bs v ≡ (none, v')) × Mirrored n k bs v v'
  unfolding mirror_loop
  mirror_lem zero k bs v h p = (
    v,
    refl,
    record { only = refl; before = λ j b o q l. refl; done = λ j b o m l l'. absurd (omega arith) },
  )
  mirror_lem (suc n) k bs v h p =
      let far : g.fat_length ≤ g.fat_length * k = grind arith in
      let (v1, run1, only1, words) = copy_blocks_lem (g.fat_length * k) bs v far p in
      let (v2, run2, m) = mirror_lem n (k + 1) bs v1 (omega arith) p in
      (
        v2,
        ground (arith, run1, run2),
        record {
          only = ground (arith, only1, m.only);
          before = λ j b o q l.
              ground (arith, m.before j b o q, round_before k bs v v1 p words j b o q l);
          done = λ j b o i l l'. elim (ℕ_discrete k j) [
            | yes e ↦
                subst (λ x. v2.word (copy_of x b) o ≡ v.word b o) e
                  (m.before k b o (All-has (Primary g) bs b p i) (omega arith)
                    ∙ round_at k bs v v1 words b o i)
            | no ne ↦
                m.done j b o i (omega arith) (omega arith)
                ∙ round_table k bs v v1 h p words b o (All-has (Primary g) bs b p i)
          ];
        },
      )

-- When no call of the block layer fails and the given blocks are blocks of the table,
-- `fat_mirror_bhs` returns 0, leaves the table itself and all but contents and dirty marks of the
-- volume alone, and makes each of these blocks the same in each of the `fats - 1` copies.
pub fat_mirror_bhs-copies :
    (d : Device) (g : Geometry) (bs : List ℕ) (v : Volume)
    → IsHealthy d
    → All (Primary g) bs
    → (v' : Volume) × (fat_mirror_bhs d g bs v ≡ (none, v'))
      × OnlyWords v v'
      × ((b o : ℕ) → Primary g b → v'.word b o ≡ v.word b o)
      × ((j b o : ℕ)
          → has b bs ≡ true
          → 1 ≤ j
          → j < g.fats
          → v'.word (g.fat_length * j + b) o ≡ v.word b o)
unfolding fat_mirror_bhs
fat_mirror_bhs-copies d g bs v healthy p =
    let (v', run, m) = mirror_lem d g healthy (g.fats - 1) 1 bs v (omega arith) p in
    (
      v',
      run,
      m.only,
      λ b o q. table_kept v' m b o q,
      λ j b o i l l'. m.done j b o i l (omega arith),
    )
  where
    table_kept :
        (v' : Volume)
        → Mirrored d g healthy (g.fats - 1) 1 bs v v'
        → (b o : ℕ) → Primary g b
        → v'.word b o ≡ v.word b o
    table_kept v' m b o q =
        let zeroth : g.fat_length * 0 + b ≡ b = omega arith in
        subst (λ x. v'.word x o ≡ v.word x o) zeroth (m.before 0 b o q (omega arith))

-- The volume as far as the table and its counters are concerned.
pub record SameTable (g : Geometry) (v v' : Volume) : Type 0 where
  pub values : (c : ℕ) → c < g.max_cluster → table g v' c ≡ table g v c
  pub only : OnlyWords v v'

-- The table has a word for each cluster.
pub record IsCovered (g : Geometry) : Type 0 where
  pub room : g.max_cluster * 4 ≤ g.fat_length * blocksize g

pub block_of-Primary :
    (g : Geometry) (c : ℕ) → IsFat32 g → IsCovered g → c < g.max_cluster → Primary g (block_of g c)
block_of-Primary g c f cov h =
    let four : c * 2 ^ g.fatent_shift ≡ c * 4 = ap (λ (x : ℕ). c * 2 ^ x) f.shift in
    let pos : 0 < blocksize g = grind arith in
    let below : c * 4 / blocksize g < g.fat_length =
      (div-lt_iff_lt-mul pos).1 (omega (arith, cov.room)) in
    let same : c * 2 ^ g.fatent_shift / blocksize g ≡ c * 4 / blocksize g =
      ap (λ (x : ℕ). x / blocksize g) four in
    omega arith

pub sync_and_mirror-SameTable :
    (d : Device) (g : Geometry) (w : Bool) (bs : List ℕ) (v : Volume)
    → IsHealthy d
    → IsFat32 g
    → IsCovered g
    → All (Primary g) bs
    → (v' : Volume) × (sync_and_mirror d g w bs v ≡ (none, v')) × SameTable g v v'
unfolding sync_and_mirror table
sync_and_mirror-SameTable d g w bs v healthy f cov p =
    let (v', run, only, kept, copied) = fat_mirror_bhs-copies d g bs v healthy p in
    (
      v',
      ground (arith, run, fat_sync_bhs-written d bs healthy.writes),
      record {
        only = only;
        values = λ c h.
            ap entry_value (kept (block_of g c) (offset_of g c) (block_of-Primary g c f cov h));
      },
    )
