-- ===== src/Fat/Alloc/Rounds.antt =====
-- The rounds of `fat_alloc_clusters` (ATS/myfat/fat_entry.c), from block to block of the table.
use ats_ldd.Base.{
  ℕ, zero, suc, ◌+◌, ◌-◌, ◌≤◌, ◌<◌, ◌≡◌, ◌≢◌, ◌⊎◌, sym, subst, ok, err, enospc, if◌then◌else◌, leb,
  length, arith, Bool-cases, inl, inr,
}
use ats_ldd.Fat.Volume.{Geometry, Device, Volume, ent_free, start_ent}
use ats_ldd.Fat.Entry.{fatent_set_entry}
use ats_ldd.Fat.Entry.Table.{table, IsFat32, InRange, read_block_lem}
use ats_ldd.Fat.Mirror.Copies.{IsHealthy, IsCovered}
use ats_ldd.Fat.Alloc.{Scan, alloc_loop, note_full, Stopped}
use ats_ldd.Fat.Alloc.Invariant.{Core}
use ats_ldd.Fat.Alloc.Search.{Ahead, Inv, Complete, Searched, Inv-fatent, scan_block_lem}

module _ (d : Device) (g : Geometry) (healthy : IsHealthy d) (f : IsFat32 g) (cov : IsCovered g)
    (v0 : Volume) (e0 nr : ℕ) where
  -- How the search ends: with all clusters, or with every entry counted and none of them free.
  pub record Exhausted (s : Scan) : Type 0 where
    pub core : Core g v0 s
    pub few : length s.clusters < nr
    pub short : length s.clusters ≤ g.max_cluster
    pub none_free : (y : ℕ) → InRange g y → table g s.vol y ≢ ent_free

  unfoldable pub Ended : Stopped → Type 0
  Ended r =
      ((s' : Scan) × (r ≡ (ok tt, s')) × Complete d g healthy f cov v0 e0 nr s')
      ⊎ ((s' : Scan) × (r ≡ (err enospc, record s' { vol = note_full s'.vol })) × Exhausted s')

  none_ahead :
      (k p y : ℕ)
      → 2 ≤ e0
      → k + 2 ≡ g.max_cluster
      → p ≤ g.max_cluster
      → InRange g y
      → Ahead e0 g.max_cluster k p y
      → ⊥
  none_ahead k p y two k2 hi r (inl (e, inl l)) = omega arith
  none_ahead k p y two k2 hi r (inl (e, inr l)) = omega arith
  none_ahead k p y two k2 hi r (inr (e, l, m)) = omega arith

  wrapped :
      (k y : ℕ)
      → InRange g y
      → Ahead e0 g.max_cluster k g.max_cluster y
      → Ahead e0 g.max_cluster k 2 y
  wrapped k y r (inl (e, inl l)) = inr (omega arith, r.0, l)
  wrapped k y r (inl (e, inr l)) = absurd (omega arith)
  wrapped k y r (inr (e, l, m)) = absurd (omega arith)

  -- The entry that a round begins with.
  first_entry : ℕ → ℕ
  first_entry p = if leb g.max_cluster p then start_ent else p

  Inv-first :
      (p : ℕ) (s : Scan)
      → s.count < g.max_cluster
      → Inv g v0 e0 nr p s
      → Inv g v0 e0 nr (first_entry p) s
  unfolding first_entry
  Inv-first p s m inv = elim (Bool-cases (leb g.max_cluster p)) [
    | inr inside ↦ subst (λ q. Inv g v0 e0 nr q s) (ground arith) inv
    | inl end ↦
        let at_end : p ≡ g.max_cluster = ground (arith, inv.high) in
        subst (λ q. Inv g v0 e0 nr q s) (ground arith)
          (record {
            core = inv.core;
            prev = inv.prev;
            few = inv.few;
            seen = λ y r z.
                wrapped (s.count - 2) y r
                  (subst (λ q. Ahead e0 g.max_cluster (s.count - 2) q y) at_end (inv.seen y r z));
            low = omega arith;
            high = omega (arith, inv.counted);
            counted = inv.counted;
            short = inv.short;
          })
  ]

  first_entry_lt :
      (p : ℕ) (s : Scan)
      → s.count < g.max_cluster
      → Inv g v0 e0 nr p s
      → first_entry p < g.max_cluster
  unfolding first_entry
  first_entry_lt p s m inv = ground (arith, inv.counted)

  -- A round of the outer loop, given what the rounds after it do.
  round_lem :
      (fuel : ℕ) (s : Scan)
      → Inv g v0 e0 nr s.fatent.entry s
      → s.count < g.max_cluster
      → ((p' : ℕ) (s' : Scan)
          → Inv g v0 e0 nr p' s'
          → s.count < s'.count
          → s'.count ≤ g.max_cluster
          → ((s'.count ≡ g.max_cluster) ⊎ (s'.fatent.entry ≡ p'))
          → Ended (alloc_loop d g nr fuel s'))
      → Ended (alloc_loop d g nr (suc fuel) s)
  unfolding alloc_loop Ended first_entry Searched fatent_set_entry
  round_lem fuel s inv m deeper =
      let e : ℕ = first_entry s.fatent.entry in
      let (fe, run, a) =
        read_block_lem d g (fatent_set_entry s.fatent e) f (first_entry_lt s.fatent.entry s m inv)
          (healthy.reads _) in
      let t : Scan = record s { fatent = fe } in
      let left : g.max_cluster - s.count ≡ suc (g.max_cluster - s.count - 1) = omega arith in
      elim (scan_block_lem d g healthy f cov v0 e0 nr (g.max_cluster - s.count - 1) e t
        (Inv-fatent d g healthy f cov v0 e0 nr (Inv-first s.fatent.entry s m inv) fe) a
        (first_entry_lt s.fatent.entry s m inv) (omega arith)) [
          | inl (s', go, done) ↦ inl (s', ground (arith, run, go, left), done)
          | inr (s', p', go, inv', l, h, w) ↦
              let same : alloc_loop d g nr (suc fuel) s ≡ alloc_loop d g nr fuel s' =
                ground (arith, run, go, left) in
              subst Ended (sym same) (deeper p' s' inv' l h w)
        ]

  pub alloc_loop_lem :
      (fuel p : ℕ) (s : Scan)
      → 2 ≤ e0
      → Inv g v0 e0 nr p s
      → s.count ≤ g.max_cluster
      → (s.count ≡ g.max_cluster) ⊎ (s.fatent.entry ≡ p)
      → g.max_cluster < s.count + fuel
      → Ended (alloc_loop d g nr fuel s)
  unfolding alloc_loop Ended
  alloc_loop_lem zero p s two inv m w l = absurd (omega arith)
  alloc_loop_lem (suc fuel) p s two inv m w l = elim (Bool-cases (leb g.max_cluster s.count)) [
    | inl all ↦ inr (
      s,
      ground arith,
      record {
        core = inv.core;
        few = inv.few;
        short = omega (arith, inv.short);
        none_free = λ y r z.
            none_ahead (s.count - 2) p y two (ground (arith, inv.counted)) inv.high r
              (inv.seen y r z);
      },
    )
    | inr more ↦
        let at : s.fatent.entry ≡ p = ground arith in
        round_lem fuel s (subst (λ q. Inv g v0 e0 nr q s) (sym at) inv) (ground arith)
          (λ p' s' i l' h w'. alloc_loop_lem fuel p' s' two i h w' (omega arith))
  ]
