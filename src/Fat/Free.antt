-- ===== src/Fat/Free.antt =====
-- `fat_free_clusters` of ATS/myfat/fat_entry.c.
pub mod Release
pub mod Ends
use ats_ldd.Base.{
  ℕ, zero, suc, ◌+◌, ◌-◌, ◌*◌, ◌^◌, ◌%◌, Bool, true, false, List, [], ◌∷◌, Result, ok, err, oops,
  Errno, eio, Option, none, some, if◌then◌else◌, ◌==◌, ltb, length,
}
use ats_ldd.Fat.Volume.{
  Geometry, Device, Volume, sec_per_clus, fs_error_eio, ent_free, ent_eof, undefined,
}
use ats_ldd.Fat.Entry.{FatEntry, fatent_init, fat_ent_read, fat32_ent_put}
use ats_ldd.Fat.Mirror.{sync_and_mirror, bhs_of, fat_collect_bhs}
use ats_ldd.Fat.Cluster.{fat_clus_to_blknr}

-- The variables of the loop.
pub record Freeing : Type 0 where
  pub vol : Volume
  pub fatent : FatEntry
  pub bhs : List ℕ
  pub first_cl : ℕ

-- One discard for a run of neighbouring clusters, at its end.
unfoldable pub discard_run : Geometry → ℕ → Freeing → Freeing
discard_run g cluster s =
    if cluster == s.fatent.entry + 1
    then s
    else (let nr_clus = s.fatent.entry + 1 - s.first_cl in
        let request : ℕ × ℕ = (fat_clus_to_blknr g s.first_cl, nr_clus * sec_per_clus g) in
        let v' = record (s.vol) { discards = request ∷ s.vol.discards } in
        record s { vol = v'; first_cl = cluster })

unfoldable pub count_free : Volume → Volume
count_free v =
    if v.free_clusters == undefined
    then v
    else record v { free_clusters = (v.free_clusters + 1) % 2 ^ 32; s_dirt = true }

-- The buffers are written out when the array is full.
unfoldable pub flush_full : Device → Geometry → Freeing → Option Errno × Freeing
flush_full d g s =
    if ltb (d.max_buf) (length s.bhs + length (bhs_of s.fatent))
    then (let (e, v') = sync_and_mirror d g g.synchronous s.bhs s.vol in
        elim e [
          | some e' ↦ (some e', record s { vol = v' })
          | none ↦ (none, record s { vol = v'; bhs = [] })
        ])
    else (none, s)

-- The body of the loop after the entry of the cluster has been read as `cluster`.
unfoldable pub free_entry : Device → Geometry → ℕ → Freeing → Result (Unit {0}) × Freeing
unfolding discard_run count_free flush_full
free_entry d g cluster s =
    let s1 = discard_run g cluster s in
    elim (fat32_ent_put s1.vol s1.fatent ent_free) [
      | err e ↦ (err e, s1)
      | oops ↦ (oops, s1)
      | ok v ↦
          let (e, s2) = flush_full d g (record s1 { vol = count_free v }) in
          elim e [
            | some e' ↦ (err e', s2)
            | none ↦ (ok tt, record s2 { bhs = fat_collect_bhs s2.bhs s2.fatent })
          ]
    ]

-- The loop; every round frees an entry that was not free, so that `max_cluster` rounds and one more
-- are enough.
pub free_loop : Device → Geometry → ℕ → ℕ → Freeing → Result (Unit {0}) × Freeing
free_loop d g zero cluster s = (oops, s)
free_loop d g (suc n) cluster s =
    let (r, fe, v) = fat_ent_read d g s.vol s.fatent cluster in
    let s0 = record s { vol = v; fatent = fe } in
    elim r [
      | err e ↦ (err e, s0)
      | oops ↦ (oops, s0)
      | ok next ↦
          if next == ent_free
          then (let (r', v') = fs_error_eio g v in (r', record s0 { vol = v' }))
          else (let (r', s') = free_entry d g next s0 in
              let rest = free_loop d g n next s' in
              elim r' [
                | err e ↦ (err e, s')
                | oops ↦ (oops, s')
                | ok _ ↦ if next == ent_eof then (ok tt, s') else rest
              ])
    ]

unfoldable pub fat_free_clusters : Device → Geometry → Volume → ℕ → Result (Unit {0}) × Volume
fat_free_clusters d g v cluster =
    let start : Freeing = record { vol = v; fatent = fatent_init; bhs = []; first_cl = cluster } in
    let (r, s) = free_loop d g (g.max_cluster + 1) cluster start in
    elim r [
      | err e ↦ (err e, s.vol)
      | oops ↦ (oops, s.vol)
      | ok _ ↦
          let (e, v') = sync_and_mirror d g g.synchronous s.bhs s.vol in
          elim e [ some e' ↦ (err e', v') | none ↦ (ok tt, v') ]
    ]
