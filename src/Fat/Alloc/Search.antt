-- ===== src/Fat/Alloc/Search.antt =====
-- The loops of `fat_alloc_clusters` (ATS/myfat/fat_entry.c) over the entries of the table.
use ats_ldd.Base.{
  ℕ, zero, suc, ◌+◌, ◌-◌, ◌≤◌, ◌<◌, ◌≡◌, ◌≢◌, ◌⊎◌, refl, sym, ap, subst, ◌∙◌, false, [], ◌∷◌, ◌==◌,
  length, length-append, arith, Bool-cases, inl, inr,
}
use ats_ldd.Fat.Volume.{Geometry, Device, Volume, ent_free}
use ats_ldd.Fat.Entry.{FatEntry}
use ats_ldd.Fat.Entry.Table.{table, IsFat32, IsAt, InRange, get_lem, fat_ent_next_lem}
use ats_ldd.Fat.Mirror.Copies.{IsHealthy, IsCovered}
use ats_ldd.Fat.Alloc.{Scan, Round, out, again, visit, scan_block}
use ats_ldd.Fat.Alloc.Invariant.{PrevAt, Core, take_lem, PrevAt-snoc, Core-count, Core-fatent}

-- Entry `y` is still to be visited, when the search has begun at `e0`, has visited `k` entries of a
-- table of `m`, and goes on at `p`.
abbrev pub Ahead : ℕ → ℕ → ℕ → ℕ → ℕ → Type 0
Ahead e0 m k p y =
    ((k + e0 ≡ p) × ((y < e0) ⊎ (p ≤ y))) ⊎ ((k + e0 + 2 ≡ m + p) × (p ≤ y) × (y < e0))

-- The search goes on at entry `p`, and every entry that is free now is still to be visited.
pub record Inv (g : Geometry) (v0 : Volume) (e0 nr p : ℕ) (s : Scan) : Type 0 where
  pub core : Core g v0 s
  pub prev : PrevAt g s.prev_ent s.clusters
  pub few : length s.clusters < nr
  pub seen :
      (y : ℕ) → InRange g y → table g s.vol y ≡ ent_free → Ahead e0 g.max_cluster (s.count - 2) p y
  pub low : 2 ≤ p
  pub high : p ≤ g.max_cluster
  pub counted : 2 ≤ s.count
  pub short : length s.clusters + 2 ≤ s.count

module _ (d : Device) (g : Geometry) (healthy : IsHealthy d) (f : IsFat32 g) (cov : IsCovered g)
    (v0 : Volume) (e0 nr : ℕ) where
  -- The search has found the last cluster that is wanted.
  unfoldable pub Complete : Scan → Type 0
  Complete s = Core g v0 s × (length s.clusters ≡ nr)

  Visited : ℕ → Scan → Round → Type 0
  Visited p s r =
      ((s' : Scan) × (r ≡ out s') × Complete s')
      ⊎ ((s' : Scan) × (r ≡ again s')
          × Inv g v0 e0 nr (p + 1) s'
          × (s'.count ≡ s.count + 1)
          × IsAt g s'.fatent p)

  passed :
      (k p y : ℕ) → y ≢ p → Ahead e0 g.max_cluster k p y → Ahead e0 g.max_cluster (k + 1) (p + 1) y
  passed k p y ne (inl h) = inl (omega arith, omega arith)
  passed k p y ne (inr h) = inr (omega arith)

  advance :
      (s : Scan) (p y : ℕ)
      → Inv g v0 e0 nr p s
      → y ≢ p
      → Ahead e0 g.max_cluster (s.count - 2) p y
      → Ahead e0 g.max_cluster (s.count + 1 - 2) (p + 1) y
  advance s p y inv ne h =
      let k : s.count - 2 + 1 ≡ s.count + 1 - 2 = omega (arith, inv.counted) in
      subst (λ k. Ahead e0 g.max_cluster k (p + 1) y) k (passed (s.count - 2) p y ne h)

  visit_lem :
      (p : ℕ) (s : Scan)
      → Inv g v0 e0 nr p s
      → IsAt g s.fatent p
      → p < g.max_cluster
      → Visited p s (visit nr s)
  unfolding visit Visited Complete
  visit_lem p s inv a h = elim (Bool-cases (table g s.vol p == ent_free)) [
    | inr used ↦ inr (
      record s { count = s.count + 1 },
      ground (arith, get_lem g s.vol s.fatent p a),
      (record {
        core = Core-count inv.core s.prev_ent (s.count + 1);
        prev = inv.prev;
        few = inv.few;
        seen = λ y r z. advance s p y inv (λ e. not_here used e z) (inv.seen y r z);
        low = omega (arith, inv.low);
        high = omega arith;
        counted = omega (arith, inv.counted);
        short = omega (arith, inv.short);
      }),
      refl,
      a,
    )
    | inl free ↦
        let (s1, run, took) =
          take_lem g f cov v0 s p inv.core inv.prev a (inv.low, h) (ground arith) in
        let grown : length s1.clusters ≡ length s.clusters + 1 =
          ap length took.clusters ∙ length-append s.clusters (p ∷ []) in
        let stands : IsAt g s1.fatent p = subst (λ e. IsAt g e p) (sym took.fatent) a in
        elim (Bool-cases (length s1.clusters == nr)) [
          | inl full ↦
              inl (s1, ground (arith, get_lem g s.vol s.fatent p a, run), (took.core, ground arith))
          | inr more ↦ inr (
            record s1 { prev_ent = s1.fatent; count = s1.count + 1 },
            ground (arith, get_lem g s.vol s.fatent p a, run),
            (record {
              core = Core-count took.core s1.fatent (s1.count + 1);
              prev =
                  subst (PrevAt g s1.fatent) (sym took.clusters)
                    (PrevAt-snoc g s1.fatent s.clusters p stands);
              few = ground (arith, grown, inv.few);
              seen = λ y r z.
                  subst (λ c. Ahead e0 g.max_cluster (c + 1 - 2) (p + 1) y) (sym took.counted)
                    (advance s p y inv (λ e. took.taken (ap (table g s1.vol) (sym e) ∙ z))
                      (inv.seen y r (took.still y z)));
              low = omega (arith, inv.low);
              high = omega arith;
              counted = omega (arith, inv.counted, took.counted);
              short = omega (arith, inv.short, took.counted, grown);
            }),
            ap (λ (c : ℕ). c + 1) took.counted,
            stands,
          )
        ]
  ]
    where
      not_here :
          {y : ℕ} → (table g s.vol p == ent_free) ≡ false → y ≡ p → table g s.vol y ≡ ent_free → ⊥
      not_here {y} used e z =
          let here : table g s.vol y ≡ table g s.vol p = ap (table g s.vol) e in ground arith

  -- Where the inner loop leaves the search.
  unfoldable pub Searched : Scan → Round → Type 0
  Searched s r =
      ((s' : Scan) × (r ≡ out s') × Complete s')
      ⊎ ((s' : Scan) × (p' : ℕ) × (r ≡ again s')
          × Inv g v0 e0 nr p' s'
          × (s.count < s'.count)
          × (s'.count ≤ g.max_cluster)
          × ((s'.count ≡ g.max_cluster) ⊎ (s'.fatent.entry ≡ p')))

  pub Inv-fatent :
      {p : ℕ} {s : Scan}
      → Inv g v0 e0 nr p s
      → (fe : FatEntry) → Inv g v0 e0 nr p (record s { fatent = fe })
  Inv-fatent i fe = record {
    core = Core-fatent i.core fe;
    prev = i.prev;
    few = i.few;
    seen = i.seen;
    low = i.low;
    high = i.high;
    counted = i.counted;
    short = i.short;
  }

  Searched-later : (s t : Scan) (r : Round) → s.count < t.count → Searched t r → Searched s r
  unfolding Searched
  Searched-later s t r h (inl x) = inl x
  Searched-later s t r h (inr (s', p', e, i, l, m, w)) = inr (s', p', e, i, omega arith, m, w)

  scan_next :
      (left p : ℕ) (s s' : Scan)
      → visit nr s ≡ again s'
      → Inv g v0 e0 nr (p + 1) s'
      → s'.count ≡ s.count + 1
      → IsAt g s'.fatent p
      → s.count + suc left ≡ g.max_cluster
      → ((fe : FatEntry)
          → IsAt g fe (p + 1)
          → p + 1 < g.max_cluster
          → s'.count < g.max_cluster
          → Searched (record s' { fatent = fe }) (scan_block g nr left (record s' { fatent = fe })))
      → Searched s (scan_block g nr (suc left) s)
  unfolding scan_block Searched
  scan_next left p s s' run inv c a l deeper = elim (Bool-cases (s'.count == g.max_cluster)) [
    | inl full ↦
        inr (s', p + 1, ground (arith, run), inv, omega arith, omega arith, inl (ground arith))
    | inr more ↦
        let (b, fe, step, e, on) = fat_ent_next_lem g s'.fatent p f a in
        elim (Bool-cases b) [
          | inr end ↦ inr (
            record s' { fatent = fe },
            p + 1,
            ground (arith, run, step),
            Inv-fatent inv fe,
            omega arith,
            omega arith,
            inr e,
          )
          | inl inside ↦
              let t : Scan = record s' { fatent = fe } in
              let same : scan_block g nr (suc left) s ≡ scan_block g nr left t =
                ground (arith, run, step) in
              subst (Searched s) (sym same) (
                Searched-later s t (scan_block g nr left t) (omega arith)
                  (deeper fe (on inside).0 (on inside).1 (ground (arith, l, c))))
        ]
  ]

  pub scan_block_lem :
      (left p : ℕ) (s : Scan)
      → Inv g v0 e0 nr p s
      → IsAt g s.fatent p
      → p < g.max_cluster
      → s.count + suc left ≡ g.max_cluster
      → Searched s (scan_block g nr (suc left) s)
  unfolding scan_block Searched Visited
  scan_block_lem zero p s inv a h l = elim (visit_lem p s inv a h) [
    | inl (s', run, done) ↦ inl (s', ground (arith, run), done)
    | inr (s', run, inv', c, a') ↦
        scan_next zero p s s' run inv' c a' l (λ fe at r m. absurd (omega arith))
  ]
  scan_block_lem (suc left) p s inv a h l = elim (visit_lem p s inv a h) [
    | inl (s', run, done) ↦ inl (s', ground (arith, run), done)
    | inr (s', run, inv', c, a') ↦ scan_next (suc left) p s s' run inv' c a' l (λ fe at r m.
        scan_block_lem left (p + 1) (record s' { fatent = fe }) (Inv-fatent inv' fe) at r
          (omega arith))
  ]
