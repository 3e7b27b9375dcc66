-- ===== src/Fat/Alloc.antt =====
-- `fat_alloc_clusters` of ATS/myfat/fat_entry.c.
pub mod Invariant
pub mod Search
pub mod Rounds
pub mod Outcome
use ats_ldd.Base.{
  ℕ, zero, suc, ◌+◌, ◌-◌, ◌*◌, ◌/◌, ◌^◌, ◌%◌, Bool, true, false, List, [], ◌∷◌, ◌++◌, Result, ok,
  err, oops, Errno, enospc, Option, none, some, if◌then◌else◌, ◌==◌, ltb, leb, not, length, ◌&&◌,
}
use ats_ldd.Fat.Volume.{Geometry, Device, Volume, ent_free, ent_eof, start_ent, undefined}
use ats_ldd.Fat.Entry.{
  FatEntry, fatent_init, fatent_set_entry, fat32_ent_get, fat32_ent_put, fat_ent_next,
  fat_ent_read_block,
}
use ats_ldd.Fat.Mirror.{sync_and_mirror, fat_collect_bhs}
use ats_ldd.Fat.Free.{fat_free_clusters}

-- The variables of the loops; `clusters` is `cluster[0 .. idx_clus)`.
pub record Scan : Type 0 where
  pub vol : Volume
  pub fatent : FatEntry
  pub prev_ent : FatEntry
  pub bhs : List ℕ
  pub clusters : List ℕ
  pub count : ℕ

-- How a round ends: at `out:` with no error, in the next round, or with a fault.
pub data Round : Type 0 where
  out : Scan → Round
  again : Scan → Round
  fault : Scan → Round

unfoldable pub note_alloc : Volume → ℕ → Volume
note_alloc v entry = record v {
  prev_free = entry;
  free_clusters =
      if v.free_clusters == undefined
      then v.free_clusters
      else (v.free_clusters + 2 ^ 32 - 1) % 2 ^ 32;
  s_dirt = true;
}

-- `if (prev_ent.nr_bhs) fat32_ent_put(&prev_ent, entry);`
unfoldable pub link_prev : Volume → FatEntry → ℕ → Result Volume
link_prev v prev entry = elim (prev.bh) [ none ↦ ok v | some _ ↦ fat32_ent_put v prev entry ]

-- A free entry is found: it becomes the end of the chain.
unfoldable pub take_entry : Scan → Result Scan
unfolding note_alloc link_prev
take_entry s = elim (fat32_ent_put s.vol s.fatent ent_eof) [
  | err e ↦ err e
  | oops ↦ oops
  | ok v ↦ elim (link_prev v s.prev_ent s.fatent.entry) [
    | err e ↦ err e
    | oops ↦ oops
    | ok v' ↦ ok (record s {
      vol = note_alloc v' s.fatent.entry;
      bhs = fat_collect_bhs s.bhs s.fatent;
      clusters = s.clusters ++ (s.fatent.entry ∷ []);
    })
  ]
]

-- The body of the inner loop up to `count++`.
unfoldable pub visit : ℕ → Scan → Round
unfolding take_entry
visit nr s = elim (fat32_ent_get s.vol s.fatent) [
  | err e ↦ fault s
  | oops ↦ fault s
  | ok x ↦
      if x == ent_free
      then elim (take_entry s) [
        | err e ↦ fault s
        | oops ↦ fault s
        | ok s' ↦
            if length s'.clusters == nr
            then out s'
            else again (record s' { prev_ent = s'.fatent; count = s'.count + 1 })
      ]
      else again (record s { count = s.count + 1 })
]

-- The inner loop, on the number of entries that are left to count.
unfoldable pub scan_block : Geometry → ℕ → ℕ → Scan → Round
scan_block g nr zero s = again s
scan_block g nr (suc left) s = elim (visit nr s) [
  | out s' ↦ out s'
  | fault s' ↦ fault s'
  | again s' ↦
      let next : Round = elim (fat_ent_next g s'.fatent) [
        | err e ↦ fault s'
        | oops ↦ fault s'
        | ok (more, fe) ↦
            let rest = scan_block g nr left (record s' { fatent = fe }) in
            if more then rest else again (record s' { fatent = fe })
      ] in
      if s'.count == g.max_cluster then again s' else next
]

-- All entries have been counted.
unfoldable pub note_full : Volume → Volume
note_full v = record v { free_clusters = 0; free_clus_valid = true; s_dirt = true }

-- `err`, and the variables at `out:`.
abbrev pub Stopped : Type 0
Stopped = Result (Unit {0}) × Scan

-- The outer loop. A round counts at least one entry, so that `max_cluster` rounds are enough.
unfoldable pub alloc_loop : Device → Geometry → ℕ → ℕ → Scan → Stopped
alloc_loop d g nr zero s = (oops, s)
alloc_loop d g nr (suc n) s =
    let entry = if leb g.max_cluster s.fatent.entry then start_ent else s.fatent.entry in
    let (r, fe) = fat_ent_read_block d g (fatent_set_entry s.fatent entry) in
    let s0 = record s { fatent = fe } in
    let round : Stopped = elim r [
      | err e ↦ (err e, s0)
      | oops ↦ (oops, s0)
      | ok _ ↦ elim (scan_block g nr (g.max_cluster - s.count) s0) [
        | out s' ↦ (ok tt, s')
        | fault s' ↦ (oops, s')
        | again s' ↦ alloc_loop d g nr n s'
      ]
    ] in
    if leb g.max_cluster s.count then (err enospc, record s { vol = note_full s.vol }) else round

-- A chain that could not be completed is freed again.
unfoldable pub undo : Device → Geometry → Errno → List ℕ → Volume → Result (List ℕ) × Volume
undo d g e [] v = (err e, v)
undo d g e (c ∷ cs) v =
    let (r, v') = fat_free_clusters d g v c in
    (elim r [ ok _ ↦ err e | err _ ↦ err e | oops ↦ oops ], v')

unfoldable pub start_scan : Volume → Scan
unfolding fatent_init fatent_set_entry
start_scan v = record {
  vol = v;
  fatent = fatent_set_entry fatent_init ((v.prev_free + 1) % 2 ^ 32);
  prev_ent = fatent_init;
  bhs = [];
  clusters = [];
  count = start_ent;
}

-- From `out:` on.
unfoldable pub finish_alloc : Device → Geometry → Bool → Stopped → Result (List ℕ) × Volume
unfolding undo
finish_alloc d g needs_sync (oops, s) = (oops, s.vol)
finish_alloc d g needs_sync (err e, s) = undo d g e s.clusters s.vol
finish_alloc d g needs_sync (ok _, s) =
    let (e, v') = sync_and_mirror d g needs_sync s.bhs s.vol in
    elim e [ some e' ↦ undo d g e' s.clusters v' | none ↦ (ok s.clusters, v') ]

-- The clusters that `cluster[0 .. nr_cluster)` holds on success. `needs_sync` is the answer of
-- `inode_needs_sync`.
unfoldable pub fat_alloc_clusters : Device → Geometry → Volume → Bool → ℕ → Result (List ℕ) × Volume
unfolding finish_alloc
fat_alloc_clusters d g v needs_sync nr =
    if ltb (d.max_buf / 2) nr
    then (oops, v)
    else if not (v.free_clusters == undefined) && v.free_clus_valid && ltb v.free_clusters nr
    then (err enospc, v)
    else finish_alloc d g needs_sync (alloc_loop d g nr (g.max_cluster + 1) (start_scan v))
