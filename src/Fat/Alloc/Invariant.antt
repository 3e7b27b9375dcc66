-- ===== src/Fat/Alloc/Invariant.antt =====
-- What the loops of `fat_alloc_clusters` (ATS/myfat/fat_entry.c) keep while they look for free
-- entries.
use ats_ldd.Base.{
  ℕ, zero, suc, ◌+◌, ◌-◌, ◌^◌, ◌%◌, ◌≡◌, ◌≢◌, refl, sym, ap, subst, fun_ext, ◌∙◌, true, false, List,
  [], ◌∷◌, ◌++◌, none, ok, if◌then◌else◌, ◌==◌, has, length, All, arith, Bool-cases, inl, inr,
}
use ats_ldd.Fat.Volume.{Geometry, Volume, undefined, ent_free, ent_eof}
use ats_ldd.Fat.Entry.{FatEntry}
use ats_ldd.Fat.Entry.Table.{table, IsFat32, IsAt, InRange, Put, put_lem}
use ats_ldd.Fat.Mirror.{fat_collect_bhs}
use ats_ldd.Fat.Mirror.Copies.{IsCovered, Primary, block_of-Primary}
use ats_ldd.Fat.Chain.{Chain, last, Chain-not_free}
use ats_ldd.Fat.Chain.Grow.{
  last_or, Chain-snoc, last_or-snoc, last_or-has, has_ne, grown, has-snoc_self,
}
use ats_ldd.Fat.Free.Release.{collect-Primary}
use ats_ldd.Fat.Alloc.{Scan, link_prev, take_entry, note_alloc}

-- The clusters that have been taken form a chain.
abbrev pub ChainOf : (ℕ → ℕ) → List ℕ → Type 0
ChainOf next [] = Unit
ChainOf next (c ∷ cs) = Chain next c (c ∷ cs)

-- `prev_ent` stands on the last of them.
abbrev pub PrevAt : Geometry → FatEntry → List ℕ → Type 0
PrevAt g fe [] = fe.bh ≡ none
PrevAt g fe (c ∷ cs) = IsAt g fe (last_or cs c)

pub ChainOf-not_free :
    (next : ℕ → ℕ) (cs : List ℕ) (y : ℕ) → ChainOf next cs → has y cs ≡ true → next y ≢ ent_free
ChainOf-not_free next [] y ch h = absurd (ground arith)
ChainOf-not_free next (c ∷ cs) y ch h = Chain-not_free y ch h

module _ (g : Geometry) (f : IsFat32 g) where
  -- The new entry `e` is linked to the last cluster, if there is one.
  record Linked (cs : List ℕ) (v v1 : Volume) (e : ℕ) (v2 : Volume) : Type 0 where
    chain : ChainOf (table g v2) (cs ++ (e ∷ []))
    values : (y : ℕ) → has y (cs ++ (e ∷ [])) ≡ false → table g v2 y ≡ table g v y
    rest : v2 ≡ record v1 { word = v2.word; dirty = v2.dirty }

  has-snoc_false :
      (y e : ℕ) (cs : List ℕ)
      → has y (cs ++ (e ∷ [])) ≡ false
      → (has y cs ≡ false) × ((e == y) ≡ false)
  has-snoc_false y e [] h = ground arith
  has-snoc_false y e (c ∷ cs) h = ground (arith, has-snoc_false y e cs)

  fresh_away :
      (cs : List ℕ) (v : Volume) (e : ℕ)
      → table g v e ≡ ent_free
      → ChainOf (table g v) cs
      → has e cs ≡ false
  fresh_away cs v e z ch = elim (Bool-cases (has e cs)) [
    | inl there ↦ absurd (ChainOf-not_free (table g v) cs e ch there z)
    | inr away ↦ away
  ]

  link_lem :
      (cs : List ℕ) (pe : FatEntry) (v v1 : Volume) (e : ℕ)
      → InRange g e
      → table g v e ≡ ent_free
      → PrevAt g pe cs
      → ChainOf (table g v) cs
      → ((y : ℕ) → table g v1 y ≡ (if e == y then ent_eof else table g v y))
      → (v2 : Volume) × (link_prev v1 pe e ≡ ok v2) × Linked cs v v1 e v2
  unfolding link_prev
  link_lem [] pe v v1 e h z p ch one = (
    v1,
    ground arith,
    record {
      chain = last (ground (arith, one e));
      values = λ y k. ground (arith, one y);
      rest = refl;
    },
  )
  link_lem (c ∷ cs) pe v v1 e h z p ch one =
      let (v2, run, put) = put_lem g v1 pe (last_or cs c) e f p (omega (arith, f.few)) in
      let grows : (y : ℕ) → table g v2 y ≡ grown (table g v) (last_or cs c) e y =
        λ y. ground (arith, put.values y, one y, f.few) in
      let away : has e (c ∷ cs) ≡ false = fresh_away (c ∷ cs) v e z ch in
      (
        v2,
        ground (arith, run, p.block),
        record {
          chain = Chain-snoc e ch (omega arith) (omega (arith, f.few)) away (λ y k. grows y);
          values = λ y k. ground (
            arith,
            grows y,
            has-snoc_false y e (c ∷ cs) k,
            has_ne (last_or cs c) y (c ∷ cs) (last_or-has cs c),
          );
          rest = ground (arith, put.rest);
        },
      )

-- The count of free clusters after one less.
abbrev pub one_less : ℕ → ℕ
one_less n = if n == undefined then n else (n + 2 ^ 32 - 1) % 2 ^ 32

abbrev pub n_less : ℕ → ℕ → ℕ
n_less zero k = k
n_less (suc n) k = one_less (n_less n k)

-- What the clusters taken so far have done to the volume `v0`.
pub record Core (g : Geometry) (v0 : Volume) (s : Scan) : Type 0 where
  pub chain : ChainOf (table g s.vol) s.clusters
  pub fresh : All (λ y. InRange g y × (table g v0 y ≡ ent_free)) s.clusters
  pub others : (y : ℕ) → has y s.clusters ≡ false → table g s.vol y ≡ table g v0 y
  pub bhs : All (Primary g) s.bhs
  pub prev : s.vol.prev_free ≡ last_or s.clusters v0.prev_free
  pub count : s.vol.free_clusters ≡ n_less (length s.clusters) v0.free_clusters

-- A taken entry, `p`.
pub record Took (g : Geometry) (v0 : Volume) (p : ℕ) (s s' : Scan) : Type 0 where
  pub core : Core g v0 s'
  pub clusters : s'.clusters ≡ s.clusters ++ (p ∷ [])
  pub fatent : s'.fatent ≡ s.fatent
  pub counted : s'.count ≡ s.count
  pub taken : table g s'.vol p ≢ ent_free
  pub still : (y : ℕ) → table g s'.vol y ≡ ent_free → table g s.vol y ≡ ent_free

note_alloc-table : (g : Geometry) (v : Volume) (e y : ℕ) → table g (note_alloc v e) y ≡ table g v y
unfolding note_alloc table
note_alloc-table g v e y = refl

All-snoc' : (P : ℕ → Type 0) (xs : List ℕ) (b : ℕ) → All P xs → P b → All P (xs ++ (b ∷ []))
All-snoc' P [] b h p = (p, tt)
All-snoc' P (x ∷ xs) b h p = (h.0, All-snoc' P xs b h.1 p)

n_less-snoc :
    (cs : List ℕ) (e k : ℕ) → n_less (length (cs ++ (e ∷ []))) k ≡ one_less (n_less (length cs) k)
n_less-snoc [] e k = refl
n_less-snoc (c ∷ cs) e k = ap one_less (n_less-snoc cs e k)

ChainOf-congr :
    (next next' : ℕ → ℕ) (cs : List ℕ)
    → ((y : ℕ) → next' y ≡ next y)
    → ChainOf next cs
    → ChainOf next' cs
ChainOf-congr next next' cs same ch = subst (λ n. ChainOf n cs) (sym (fun_ext same)) ch

abbrev taken_scan : Scan → ℕ → Volume → Scan
taken_scan s p v2 = record s {
  vol = note_alloc v2 p;
  bhs = fat_collect_bhs s.bhs s.fatent;
  clusters = s.clusters ++ (p ∷ []);
}

note_alloc-count : (v : Volume) (e : ℕ) → (note_alloc v e).free_clusters ≡ one_less v.free_clusters
unfolding note_alloc
note_alloc-count v e = refl

note_alloc-prev : (v : Volume) (e : ℕ) → (note_alloc v e).prev_free ≡ e
unfolding note_alloc
note_alloc-prev v e = refl

module _ (g : Geometry) (f : IsFat32 g) (cov : IsCovered g) (v0 : Volume) where
  took_lem :
      (s : Scan) (p : ℕ) (v1 v2 : Volume)
      → Core g v0 s
      → IsAt g s.fatent p
      → InRange g p
      → table g s.vol p ≡ ent_free
      → Put g s.vol p ent_eof v1
      → Linked g f s.clusters s.vol v1 p v2
      → Took g v0 p s (taken_scan s p v2)
  took_lem s p v1 v2 core a h z put linked =
      let away : has p s.clusters ≡ false = fresh_away g f s.clusters s.vol p z core.chain in
      let tables : (y : ℕ) → table g (note_alloc v2 p) y ≡ table g v2 y = note_alloc-table g v2 p in
      let chain : ChainOf (table g (note_alloc v2 p)) (s.clusters ++ (p ∷ [])) =
        ChainOf-congr (table g v2) (table g (note_alloc v2 p)) (s.clusters ++ (p ∷ [])) tables
          linked.chain in
      record {
        core = record {
          chain = chain;
          fresh =
              All-snoc' (λ y. InRange g y × (table g v0 y ≡ ent_free)) s.clusters p core.fresh
                (h, sym (core.others p away) ∙ z);
          others = λ y k.
              tables y ∙ linked.values y k ∙ core.others y (has-snoc_false g f y p s.clusters k).0;
          bhs = collect-Primary g s.bhs s.fatent p core.bhs a (block_of-Primary g p f cov h.1);
          prev = note_alloc-prev v2 p ∙ sym (last_or-snoc s.clusters v0.prev_free p);
          count = ground (
            arith,
            note_alloc-count v2 p,
            linked.rest,
            put.rest,
            core.count,
            n_less-snoc s.clusters p v0.free_clusters,
          );
        };
        clusters = refl;
        fatent = refl;
        counted = refl;
        taken =
            ChainOf-not_free (table g (note_alloc v2 p)) (s.clusters ++ (p ∷ [])) p chain
              (has-snoc_self p s.clusters);
        still = λ y e. elim (Bool-cases (has y (s.clusters ++ (p ∷ [])))) [
          | inl there ↦ absurd (
              ChainOf-not_free (table g (note_alloc v2 p)) (s.clusters ++ (p ∷ [])) y chain there e)
          | inr out ↦ sym (linked.values y out) ∙ sym (tables y) ∙ e
        ];
      }

  pub take_lem :
      (s : Scan) (p : ℕ)
      → Core g v0 s
      → PrevAt g s.prev_ent s.clusters
      → IsAt g s.fatent p
      → InRange g p
      → table g s.vol p ≡ ent_free
      → (s' : Scan) × (take_entry s ≡ ok s') × Took g v0 p s s'
  unfolding take_entry
  take_lem s p core prev a h z =
      let (v1, run1, put) = put_lem g s.vol s.fatent p ent_eof f a (omega arith) in
      let (v2, run2, linked) =
        link_lem g f s.clusters s.prev_ent s.vol v1 p h z prev core.chain put.values in
      (
        taken_scan s p v2,
        ground (arith, run1, run2, a.entry),
        took_lem s p v1 v2 core a h z put linked,
      )

-- The walker that took the last cluster stands on it.
pub PrevAt-snoc :
    (g : Geometry) (fe : FatEntry) (cs : List ℕ) (e : ℕ)
    → IsAt g fe e
    → PrevAt g fe (cs ++ (e ∷ []))
PrevAt-snoc g fe [] e a = a
PrevAt-snoc g fe (c ∷ cs) e a = subst (λ x. IsAt g fe x) (sym (last_or-snoc cs c e)) a

-- The count and the previous walker do not matter to the volume.
pub Core-count :
    {g : Geometry} {v0 : Volume} {s : Scan}
    → Core g v0 s
    → (pe : FatEntry) (n : ℕ) → Core g v0 (record s { prev_ent = pe; count = n })
Core-count c pe n = record {
  chain = c.chain;
  fresh = c.fresh;
  others = c.others;
  bhs = c.bhs;
  prev = c.prev;
  count = c.count;
}

pub Core-fatent :
    {g : Geometry} {v0 : Volume} {s : Scan}
    → Core g v0 s
    → (fe : FatEntry) → Core g v0 (record s { fatent = fe })
Core-fatent c fe = record {
  chain = c.chain;
  fresh = c.fresh;
  others = c.others;
  bhs = c.bhs;
  prev = c.prev;
  count = c.count;
}
