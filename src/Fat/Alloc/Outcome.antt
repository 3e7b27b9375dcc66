-- ===== src/Fat/Alloc/Outcome.antt =====
-- What `fat_alloc_clusters` of ATS/myfat/fat_entry.c returns.
use ats_ldd.Base.{
  ℕ, ◌+◌, ◌/◌, ◌≤◌, ◌<◌, ◌≡◌, ◌⊎◌, refl, ◌∙◌, Bool, true, false, List, [], ◌∷◌, ok, err, Errno,
  enospc, if◌then◌else◌, ◌==◌, ltb, ◌&&◌, not, has, length, get_or, arith, Bool-cases, inl, inr,
  All, All-has,
}
use ats_ldd.Fat.Volume.{Geometry, Device, Volume, ent_free, undefined}
use ats_ldd.Fat.Entry.{fatent_init, fatent_set_entry}
use ats_ldd.Fat.Entry.Table.{table, IsFat32, InRange}
use ats_ldd.Fat.Mirror.Copies.{IsHealthy, IsCovered, SameTable, sync_and_mirror-SameTable}
use ats_ldd.Fat.Chain.{Chain-injective, Chain-congr}
use ats_ldd.Fat.Chain.Grow.{last_or}
use ats_ldd.Fat.Free.Release.{fat_free_clusters-Chain}
use ats_ldd.Fat.Alloc.{
  Scan, note_full, undo, start_scan, finish_alloc, alloc_loop, fat_alloc_clusters,
}
use ats_ldd.Fat.Alloc.Invariant.{ChainOf, n_less}
use ats_ldd.Fat.Alloc.Search.{Inv, Complete}
use ats_ldd.Fat.Alloc.Rounds.{Exhausted, Ended, alloc_loop_lem}

-- `cs` are new clusters, linked in this order and ended.
pub record Allocated (g : Geometry) (v : Volume) (nr : ℕ) (cs : List ℕ) (v' : Volume) : Type 0 where
  pub number : length cs ≡ nr
  pub chain : ChainOf (table g v') cs
  pub fresh : All (λ y. InRange g y × (table g v y ≡ ent_free)) cs
  pub others : (y : ℕ) → y < g.max_cluster → has y cs ≡ false → table g v' y ≡ table g v y
  pub prev : v'.prev_free ≡ last_or cs v.prev_free
  pub count : v'.free_clusters ≡ n_less nr v.free_clusters

-- The table is as before and `cs`, fewer than `nr`, are the free clusters of the volume, each once.
pub record Full (g : Geometry) (v : Volume) (nr : ℕ) (cs : List ℕ) (v' : Volume) : Type 0 where
  pub few : length cs < nr
  pub fresh : All (λ y. InRange g y × (table g v y ≡ ent_free)) cs
  pub all : (y : ℕ) → InRange g y → table g v y ≡ ent_free → has y cs ≡ true
  pub once : (i j : ℕ) → i < length cs → j < length cs → get_or cs i 0 ≡ get_or cs j 0 → i ≡ j
  pub restored : (y : ℕ) → y < g.max_cluster → table g v' y ≡ table g v y
  pub count : v'.free_clusters ≡ length cs

ChainOf-once :
    (next : ℕ → ℕ) (cs : List ℕ)
    → ChainOf next cs
    → (i j : ℕ) → i < length cs
    → j < length cs
    → get_or cs i 0 ≡ get_or cs j 0
    → i ≡ j
ChainOf-once next [] ch i j h k e = absurd (omega arith)
ChainOf-once next (c ∷ cs) ch i j h k e = Chain-injective i j ch h k e

All-InRange :
    (g : Geometry) (v : Volume) (cs : List ℕ)
    → All (λ y. InRange g y × (table g v y ≡ ent_free)) cs
    → All (InRange g) cs
All-InRange g v [] h = tt
All-InRange g v (c ∷ cs) h = (h.0.0, All-InRange g v cs h.1)

note_full-table : (g : Geometry) (v : Volume) (y : ℕ) → table g (note_full v) y ≡ table g v y
unfolding note_full table
note_full-table g v y = refl

finish_full :
    (d : Device) (g : Geometry) (w : Bool) (s : Scan)
    → finish_alloc d g w (err enospc, record s { vol = note_full s.vol })
      ≡ undo d g enospc s.clusters (note_full s.vol)
unfolding finish_alloc
finish_full d g w s = refl

module _ (d : Device) (g : Geometry) (healthy : IsHealthy d) (f : IsFat32 g)
    (cov : IsCovered g) where
  start_Inv :
      (v : Volume) (nr : ℕ)
      → 1 ≤ nr
      → 1 ≤ v.prev_free
      → v.prev_free < g.max_cluster
      → Inv g v (v.prev_free + 1) nr (v.prev_free + 1) (start_scan v)
  unfolding start_scan fatent_init
  start_Inv v nr n l h = record {
    core = record {
      chain = tt;
      fresh = tt;
      others = λ y k. refl;
      bhs = tt;
      prev = refl;
      count = refl;
    };
    prev = refl;
    few = n;
    seen = λ y r z. inl (omega arith, omega arith);
    low = omega arith;
    high = omega arith;
    counted = omega arith;
    short = omega arith;
  }

  start_entry :
      (v : Volume) → v.prev_free < g.max_cluster → (start_scan v).fatent.entry ≡ v.prev_free + 1
  unfolding start_scan fatent_init fatent_set_entry
  start_entry v h = omega (arith, f.few)

  start_counted :
      (v : Volume)
      → 1 ≤ v.prev_free
      → v.prev_free < g.max_cluster
      → (start_scan v).count ≤ g.max_cluster
  unfolding start_scan
  start_counted v l h = omega arith

  start_fuel : (v : Volume) → g.max_cluster < (start_scan v).count + (g.max_cluster + 1)
  unfolding start_scan
  start_fuel v = omega arith

  note_full-chain :
      (v : Volume) (cs : List ℕ) → ChainOf (table g v) cs → ChainOf (table g (note_full v)) cs
  unfolding note_full table
  note_full-chain v cs ch = ch

  note_full-count : (v : Volume) → (note_full v).free_clusters ≡ 0
  unfolding note_full
  note_full-count v = refl

  SameTable-chain :
      (v v' : Volume) (cs : List ℕ)
      → SameTable g v v'
      → ChainOf (table g v) cs
      → All (InRange g) cs
      → ChainOf (table g v') cs
  SameTable-chain v v' [] same ch h = tt
  SameTable-chain v v' (c ∷ cs) same ch h =
      Chain-congr ch (λ y k. same.values y (All-has (InRange g) (c ∷ cs) y h k).1)

  search_lem :
      (v : Volume) (nr : ℕ)
      → 1 ≤ nr
      → 1 ≤ v.prev_free
      → v.prev_free < g.max_cluster
      → Ended d g healthy f cov v
          (v.prev_free + 1)
          nr
          (alloc_loop d g nr (g.max_cluster + 1) (start_scan v))
  unfolding Ended
  search_lem v nr n l h =
      alloc_loop_lem d g healthy f cov v (v.prev_free + 1) nr (g.max_cluster + 1) (v.prev_free + 1)
        (start_scan v) (omega arith) (start_Inv v nr n l h) (start_counted v l h)
        (inr (start_entry v h)) (start_fuel v)

  undo_lem :
      (e : Errno) (cs : List ℕ) (w : Volume)
      → ChainOf (table g w) cs
      → All (InRange g) cs
      → length cs ≤ g.max_cluster
      → w.free_clusters ≡ 0
      → (v' : Volume) × (undo d g e cs w ≡ (err e, v'))
        × ((y : ℕ)
            → y < g.max_cluster
            → table g v' y ≡ (if has y cs then ent_free else table g w y))
        × (v'.free_clusters ≡ length cs)
  unfolding undo
  undo_lem e [] w ch h l z = (w, refl, λ y k. ground arith, z)
  undo_lem e (c ∷ cs) w ch h l z =
      let (v', run, values, count, prev) =
        fat_free_clusters-Chain d g w c (c ∷ cs) healthy f cov ch h l
          (inr (omega (arith, f.few))) in
      (v', ground (arith, run), values, ground (arith, count))

  full_lem :
      (v : Volume) (nr : ℕ) (s : Scan)
      → Exhausted d g healthy f cov v (v.prev_free + 1) nr s
      → (v' : Volume) × (undo d g enospc s.clusters (note_full s.vol) ≡ (err enospc, v'))
        × Full g v nr s.clusters v'
  full_lem v nr s x =
      let chain : ChainOf (table g (note_full s.vol)) s.clusters =
        note_full-chain s.vol s.clusters x.core.chain in
      let (v', run, values, count) =
        undo_lem enospc s.clusters (note_full s.vol) chain (All-InRange g v s.clusters x.core.fresh)
          x.short (note_full-count s.vol) in
      (
        v',
        run,
        record {
          few = x.few;
          fresh = x.core.fresh;
          all = λ y r z. elim (Bool-cases (has y s.clusters)) [
            | inl there ↦ there
            | inr away ↦ absurd (x.none_free y r (x.core.others y away ∙ z))
          ];
          once = ChainOf-once (table g s.vol) s.clusters x.core.chain;
          restored = λ y k. ground (
            arith,
            values y k,
            note_full-table g s.vol y,
            x.core.others y,
            All-has (λ y. InRange g y × (table g v y ≡ ent_free)) s.clusters y x.core.fresh,
          );
          count = count;
        },
      )

  complete_lem :
      (v : Volume) (nr : ℕ) (needs_sync : Bool) (s : Scan)
      → Complete d g healthy f cov v (v.prev_free + 1) nr s
      → (v' : Volume) × (finish_alloc d g needs_sync (ok tt, s) ≡ (ok s.clusters, v'))
        × Allocated g v nr s.clusters v'
  unfolding finish_alloc Complete
  complete_lem v nr w s (core, n) =
      let (v', run, same) = sync_and_mirror-SameTable d g w s.bhs s.vol healthy f cov core.bhs in
      (
        v',
        ground (arith, run),
        record {
          number = n;
          chain =
              SameTable-chain s.vol v' s.clusters same core.chain
                (All-InRange g v s.clusters core.fresh);
          fresh = core.fresh;
          others = λ y k a. same.values y k ∙ core.others y a;
          prev = ground (arith, same.only, core.prev);
          count = ground (arith, same.only, core.count, n);
        },
      )

-- When no call of the block layer fails, on a FAT32 volume whose table has a word for each cluster,
-- with `prev_free` a cluster and `1 ≤ nr ≤ MAX_BUF_PER_PAGE / 2`, `fat_alloc_clusters` does one of
-- three things. It returns `nr` clusters that were free, which the table now links to a chain in
-- the order returned, with every other entry as before, `prev_free` the last of them and the count
-- of free clusters less by `nr`. Or it returns -ENOSPC with nothing changed, because the valid
-- count of free clusters is below `nr`. Or it returns -ENOSPC with the table as before, the volume
-- has less than `nr` free clusters, and the count of free clusters is now their exact number.
pub fat_alloc_clusters-outcome :
    (d : Device) (g : Geometry) (v : Volume) (needs_sync : Bool) (nr : ℕ)
    → IsHealthy d
    → IsFat32 g
    → IsCovered g
    → 1 ≤ v.prev_free
    → v.prev_free < g.max_cluster
    → 1 ≤ nr
    → nr ≤ d.max_buf / 2
    → ((cs : List ℕ) × (v' : Volume) × (fat_alloc_clusters d g v needs_sync nr ≡ (ok cs, v'))
        × Allocated g v nr cs v')
      ⊎ ((fat_alloc_clusters d g v needs_sync nr ≡ (err enospc, v))
          × (v.free_clus_valid ≡ true)
          × (v.free_clusters < nr))
      ⊎ ((cs : List ℕ) × (v' : Volume) × (fat_alloc_clusters d g v needs_sync nr ≡ (err enospc, v'))
          × Full g v nr cs v')
unfolding fat_alloc_clusters Ended
fat_alloc_clusters-outcome d g v w nr healthy f cov l h n m =
    elim (Bool-cases
      (not (v.free_clusters == undefined) && v.free_clus_valid && ltb v.free_clusters nr)) [
        | inl known ↦ inr (inl (ground arith, ground arith, ground arith))
        | inr look ↦ elim (search_lem d g healthy f cov v nr n l h) [
          | inl (s, run, done) ↦
              let (v', fin, all) = complete_lem d g healthy f cov v nr w s done in
              inl (s.clusters, v', ground (arith, run, fin), all)
          | inr (s, run, x) ↦
              let (v', fin, all) = full_lem d g healthy f cov v nr s x in
              inr (inr (s.clusters, v', ground (arith, run, fin, finish_full d g w s), all))
        ]
      ]
