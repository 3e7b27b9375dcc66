-- ===== src/Fat/Free/Release.antt =====
-- `fat_free_clusters` of ATS/myfat/fat_entry.c on the chain of a file.
use ats_ldd.Base.{
  ℕ, zero, suc, ◌+◌, ◌^◌, ◌%◌, ◌≤◌, ◌<◌, ◌≡◌, ◌≢◌, ◌⊎◌, refl, sym, ap, subst, ◌∙◌, true, List, [],
  ◌∷◌, ◌++◌, none, ok, if◌then◌else◌, ◌==◌, ltb, has, length, All, All-has, arith, Bool-cases, inl,
  inr,
}
use ats_ldd.Fat.Volume.{Geometry, Device, Volume, undefined, ent_free, ent_eof}
use ats_ldd.Fat.Entry.{FatEntry, fatent_init, fat_ent_read}
use ats_ldd.Fat.Entry.Table.{table, block_of, IsFat32, IsAt, InRange, put_lem, read_lem}
use ats_ldd.Fat.Mirror.{bhs_of, fat_collect_bhs}
use ats_ldd.Fat.Mirror.Copies.{
  IsHealthy, IsCovered, Primary, SameTable, sync_and_mirror-SameTable, block_of-Primary,
}
use ats_ldd.Fat.Chain.{Chain, last, link, Chain-length, Chain-fresh, Chain-congr}
use ats_ldd.Fat.Free.{
  Freeing, discard_run, count_free, flush_full, free_entry, free_loop, fat_free_clusters,
}

All-snoc : (P : ℕ → Type 0) (xs : List ℕ) (b : ℕ) → All P xs → P b → All P (xs ++ (b ∷ []))
All-snoc P [] b h p = (p, tt)
All-snoc P (x ∷ xs) b h p = (h.0, All-snoc P xs b h.1 p)

-- Collecting keeps the buffers blocks of the table.
pub collect-Primary :
    (g : Geometry) (bs : List ℕ) (fe : FatEntry) (c : ℕ)
    → All (Primary g) bs
    → IsAt g fe c
    → Primary g (block_of g c)
    → All (Primary g) (fat_collect_bhs bs fe)
unfolding fat_collect_bhs
collect-Primary g bs fe c h a p =
    rw (a.block, fat_collect_bhs)
      (elim (Bool-cases (has (block_of g c) bs)) [
        | inl old ↦ rw old h
        | inr new ↦ rw new (All-snoc (Primary g) bs (block_of g c) h p)
      ])

-- The count of free clusters after one more.
abbrev pub one_more : ℕ → ℕ
one_more n = if n == undefined then n else (n + 1) % 2 ^ 32

-- What freeing the entry of `c` does to the table and its counters.
pub record FreedOne (g : Geometry) (c : ℕ) (s s' : Freeing) : Type 0 where
  pub values :
      (y : ℕ)
      → y < g.max_cluster
      → table g s'.vol y ≡ (if c == y then ent_free else table g s.vol y)
  pub count : s'.vol.free_clusters ≡ one_more s.vol.free_clusters
  pub prev : s'.vol.prev_free ≡ s.vol.prev_free
  pub bhs : All (Primary g) s'.bhs

discard-keeps :
    (g : Geometry) (x : ℕ) (s : Freeing)
    → ((y : ℕ) → table g (discard_run g x s).vol y ≡ table g s.vol y)
      × ((discard_run g x s).fatent ≡ s.fatent)
      × ((discard_run g x s).bhs ≡ s.bhs)
      × ((discard_run g x s).vol.free_clusters ≡ s.vol.free_clusters)
      × ((discard_run g x s).vol.prev_free ≡ s.vol.prev_free)
unfolding discard_run table
discard-keeps g x s = ((λ y. ground arith), ground arith, ground arith, ground arith, ground arith)

count-table : (g : Geometry) (v : Volume) (y : ℕ) → table g (count_free v) y ≡ table g v y
unfolding count_free table
count-table g v y = ground arith

count-count : (v : Volume) → (count_free v).free_clusters ≡ one_more v.free_clusters
unfolding count_free
count-count v = ground arith

count-prev : (v : Volume) → (count_free v).prev_free ≡ v.prev_free
unfolding count_free
count-prev v = ground arith

-- The count after `n` more.
abbrev pub n_more : ℕ → ℕ → ℕ
n_more zero k = k
n_more (suc n) k = n_more n (one_more k)

n_more-undefined : (n k : ℕ) → k ≡ undefined → n_more n k ≡ undefined
n_more-undefined zero k e = e
n_more-undefined (suc n) k e = n_more-undefined n (one_more k) (ground arith)

n_more-add : (n k : ℕ) → k + n < undefined → n_more n k ≡ k + n
n_more-add zero k h = omega arith
n_more-add (suc n) k h =
    let step : one_more k ≡ k + 1 = ground arith in
    omega (arith, step, n_more-add n (one_more k) (omega (arith, step)))

module _ (d : Device) (g : Geometry) (healthy : IsHealthy d) (f : IsFat32 g)
    (cov : IsCovered g) where
  flush_lem :
      (s : Freeing)
      → All (Primary g) s.bhs
      → (s' : Freeing) × (flush_full d g s ≡ (none, s'))
        × SameTable g s.vol s'.vol
        × All (Primary g) s'.bhs
        × (s'.fatent ≡ s.fatent)
  unfolding flush_full
  flush_lem s p = elim (Bool-cases (ltb (d.max_buf) (length s.bhs + length (bhs_of s.fatent)))) [
    | inl full ↦
        let (v', run, same) =
          sync_and_mirror-SameTable d g g.synchronous s.bhs s.vol healthy f cov p in
        (record s { vol = v'; bhs = [] }, ground (arith, run), same, tt, refl)
    | inr room ↦ (s, ground arith, record { values = λ c h. refl; only = refl }, p, refl)
  ]

  free_entry_lem :
      (s : Freeing) (c x : ℕ)
      → All (Primary g) s.bhs
      → InRange g c
      → IsAt g s.fatent c
      → (s' : Freeing) × (free_entry d g x s ≡ (ok tt, s')) × FreedOne g c s s'
  unfolding free_entry
  free_entry_lem s c x p h a =
      let s1 = discard_run g x s in
      let (values1, fatent1, bhs1, count1, prev1) = discard-keeps g x s in
      let at1 : IsAt g s1.fatent c = subst (λ e. IsAt g e c) (sym fatent1) a in
      let (v2, run2, put) = put_lem g s1.vol s1.fatent c ent_free f at1 (omega arith) in
      let s3 : Freeing = record s1 { vol = count_free v2 } in
      let (s4, run4, same4, p4, fatent4) = flush_lem s3 (subst (All (Primary g)) (sym bhs1) p) in
      let at4 : IsAt g s4.fatent c = subst (λ e. IsAt g e c) (sym fatent4) at1 in
      (
        record s4 { bhs = fat_collect_bhs s4.bhs s4.fatent },
        ground (arith, run2, run4),
        record {
          values =
              λ y k. ground (arith, same4.values y k, count-table g v2 y, put.values y, values1 y);
          count = ground (arith, same4.only, count-count v2, put.rest, count1);
          prev = ground (arith, same4.only, count-prev v2, put.rest, prev1);
          bhs = collect-Primary g s4.bhs s4.fatent c p4 at4 (block_of-Primary g c f cov h.1);
        },
      )

  -- What freeing the clusters of a chain does.
  record Freed (cs : List ℕ) (s s' : Freeing) : Type 0 where
    values :
        (y : ℕ)
        → y < g.max_cluster
        → table g s'.vol y ≡ (if has y cs then ent_free else table g s.vol y)
    count : s'.vol.free_clusters ≡ n_more (length cs) s.vol.free_clusters
    prev : s'.vol.prev_free ≡ s.vol.prev_free
    bhs : All (Primary g) s'.bhs

  -- One round, from the entry of `c` on.
  pub round_lem :
      (s : Freeing) (c : ℕ)
      → All (Primary g) s.bhs
      → InRange g c
      → let (r, fe, v) = fat_ent_read d g s.vol s.fatent c in
        (r ≡ ok (table g s.vol c))
        × ((s' : Freeing) × (free_entry d g (table g s.vol c) (record s { vol = v; fatent = fe })
              ≡ (ok tt, s'))
            × FreedOne g c s s')
  round_lem s c p h =
      let (r, fe, v) = fat_ent_read d g s.vol s.fatent c in
      let (run, a, same) = read_lem d g s.vol s.fatent c f h (healthy.reads (block_of g c)) in
      let s0 : Freeing = record s { vol = v; fatent = fe } in
      let (s', run', one) = free_entry_lem s0 c (table g s.vol c) p h a in
      (
        run,
        (
          s',
          run',
          record {
            values = λ y k. ground (arith, one.values y k, ap (λ w. table g w y) same);
            count = ground (arith, one.count, same);
            prev = ground (arith, one.prev, same);
            bhs = one.bhs;
          },
        ),
      )

  release_lem :
      (n : ℕ) (s : Freeing) (c : ℕ) (cs : List ℕ)
      → All (Primary g) s.bhs
      → Chain (table g s.vol) c cs
      → All (InRange g) cs
      → length cs ≤ n
      → (s' : Freeing) × (free_loop d g n c s ≡ (ok tt, s')) × Freed cs s s'
  unfolding free_loop
  release_lem zero s c cs p ch h l = absurd (omega (arith, Chain-length ch))
  release_lem (suc n) s c cs p (last e) h l =
      let (run, (s', run', one)) = round_lem s c p h.0 in
      (
        s',
        ground (arith, run, run', e),
        record {
          values = λ y k. ground (arith, one.values y k);
          count = one.count;
          prev = one.prev;
          bhs = one.bhs;
        },
      )
  release_lem (suc n) s c cs p (link {d = d'} {cs = ds} e nf ne ch) h l =
      let (run, (s1, run1, one)) = round_lem s c p h.0 in
      let rest : Chain (table g s1.vol) d' ds =
        Chain-congr ch (λ y k. kept s1 one e nf ne ch h y k) in
      let (s', run', all) = release_lem n s1 d' ds one.bhs rest h.1 (omega arith) in
      (
        s',
        ground (arith, run, run1, run', e),
        record {
          values = λ y k. ground (arith, all.values y k, one.values y k);
          count = ground (arith, all.count, one.count);
          prev = all.prev ∙ one.prev;
          bhs = all.bhs;
        },
      )
    where
      kept :
          (s1 : Freeing)
          → FreedOne g c s s1
          → table g s.vol c ≡ d'
          → d' ≢ ent_free
          → d' ≢ ent_eof
          → Chain (table g s.vol) d' ds
          → All (InRange g) (c ∷ ds)
          → (y : ℕ) → has y ds ≡ true
          → table g s1.vol y ≡ table g s.vol y
      kept s1 one e nf ne ch h y k =
          ground (arith, one.values y, All-has (InRange g) ds y h.1 k, Chain-fresh c e nf ne ch)

-- When no call of the block layer fails, on a FAT32 volume whose table has a word for each cluster:
-- for the chain `cs` of at most `max_cluster` clusters of the data area that starts at `c`, and
-- with a count of free clusters that is undefined or that stays below the mark for it when the
-- length of `cs` is added, `fat_free_clusters` returns 0, makes the entries of `cs` free, leaves
-- every other entry and `prev_free` alone, and adds the length of `cs` to a count that is not
-- undefined.
pub fat_free_clusters-Chain :
    (d : Device) (g : Geometry) (v : Volume) (c : ℕ) (cs : List ℕ)
    → IsHealthy d
    → IsFat32 g
    → IsCovered g
    → Chain (table g v) c cs
    → All (InRange g) cs
    → length cs ≤ g.max_cluster
    → (v.free_clusters ≡ undefined) ⊎ (v.free_clusters + length cs < undefined)
    → (v' : Volume) × (fat_free_clusters d g v c ≡ (ok tt, v'))
      × ((y : ℕ) → y < g.max_cluster → table g v' y ≡ (if has y cs then ent_free else table g v y))
      × (v'.free_clusters
          ≡ (if v.free_clusters == undefined then undefined else v.free_clusters + length cs))
      × (v'.prev_free ≡ v.prev_free)
unfolding fat_free_clusters
fat_free_clusters-Chain d g v c cs healthy f cov ch h l room =
    let start : Freeing = record { vol = v; fatent = fatent_init; bhs = []; first_cl = c } in
    let (s, run, all) =
      release_lem d g healthy f cov (g.max_cluster + 1) start c cs tt ch h (omega arith) in
    let (v', run', same) =
      sync_and_mirror-SameTable d g g.synchronous s.bhs s.vol healthy f cov all.bhs in
    (
      v',
      ground (arith, run, run'),
      (λ y k. same.values y k ∙ all.values y k),
      counted s.vol.free_clusters v'.free_clusters all.count (ground (arith, same.only)) room,
      ground (arith, same.only, all.prev),
    )
  where
    counted :
        (a b : ℕ)
        → a ≡ n_more (length cs) v.free_clusters
        → b ≡ a
        → ((v.free_clusters ≡ undefined) ⊎ (v.free_clusters + length cs < undefined))
        → b ≡ (if v.free_clusters == undefined then undefined else v.free_clusters + length cs)
    counted a b e k (inl r) = ground (arith, n_more-undefined (length cs) v.free_clusters r)
    counted a b e k (inr r) = ground (arith, n_more-add (length cs) v.free_clusters r)
