-- ===== src/Fat/Free/Ends.antt =====
-- `fat_free_clusters` of ATS/myfat/fat_entry.c ends, whatever the table holds.
use ats_ldd.Base.{
  ℕ, zero, suc, ◌+◌, ◌≤◌, ◌<◌, ◌≡◌, ◌≢◌, ◌⊎◌, inl, inr, refl, ap, ◌∙◌, Bool, not, [], Result, ok,
  err, oops, if◌then◌else◌, Errno, eio, ◌==◌, All, arith, dec_lt, ℕ_discrete, none, some,
}
use ats_ldd.Fat.Volume.{
  Geometry, Device, Volume, errors_panic, fat_fs_error, fs_error_eio, ent_free, ent_eof,
}
use ats_ldd.Fat.Entry.{FatEntry, fatent_init, fat_ent_read}
use ats_ldd.Fat.Entry.Table.{table, IsFat32, InRange}
use ats_ldd.Fat.Mirror.{sync_and_mirror}
use ats_ldd.Fat.Mirror.Copies.{IsHealthy, IsCovered, Primary}
use ats_ldd.Fat.Dir.First.{count_if, count_if-le, count_if-drop}
use ats_ldd.Fat.Free.{Freeing, free_entry, free_loop, fat_free_clusters}
use ats_ldd.Fat.Free.Release.{FreedOne, round_lem}

-- Whether an entry is in use, and how many are.
abbrev in_use : Geometry → Volume → ℕ → Bool
in_use g v c = not (table g v c == ent_free)

abbrev used : Geometry → Volume → ℕ
used g v = count_if (in_use g v) 0 g.max_cluster

-- An error, or success with buffers of the table.
abbrev Ended : Geometry → Result (Unit {0}) → Freeing → Type 0
Ended g r s = ((e : Errno) × (r ≡ err e)) ⊎ ((r ≡ ok tt) × All (Primary g) s.bhs)

error_lem :
    (g : Geometry) (v : Volume)
    → g.errors ≢ errors_panic
    → (fs_error_eio {A = Unit {0}} g v).0 ≡ err eio
unfolding fs_error_eio fat_fs_error
error_lem g v h = ground arith

outside_lem :
    (d : Device) (g : Geometry) (v : Volume) (fe : FatEntry) (c : ℕ)
    → g.errors ≢ errors_panic
    → (c < 2) ⊎ (g.max_cluster ≤ c)
    → (fat_ent_read d g v fe c).0 ≡ err eio
unfolding fat_ent_read fs_error_eio fat_fs_error
outside_lem d g v fe c h (inl low) = ground arith
outside_lem d g v fe c h (inr high) = ground arith

-- The rounds of the loop.
module _ (d : Device) (g : Geometry) (n : ℕ) (c : ℕ) (s : Freeing) where
  abbrev read : Freeing
  read = let (r, fe, v) = fat_ent_read d g s.vol s.fatent c in record s { vol = v; fatent = fe }

  unread_round :
      {e : Errno}
      → (fat_ent_read d g s.vol s.fatent c).0 ≡ err e
      → (free_loop d g (suc n) c s).0 ≡ err e
  unfolding free_loop
  unread_round h = ground arith

  free_round :
      g.errors ≢ errors_panic
      → (fat_ent_read d g s.vol s.fatent c).0 ≡ ok ent_free
      → (free_loop d g (suc n) c s).0 ≡ err eio
  unfolding free_loop
  free_round calm h = let e = error_lem g (fat_ent_read d g s.vol s.fatent c).2 calm in ground arith

  used_round :
      {next : ℕ} {s' : Freeing}
      → next ≢ ent_free
      → (fat_ent_read d g s.vol s.fatent c).0 ≡ ok next
      → free_entry d g next read ≡ (ok tt, s')
      → free_loop d g (suc n) c s
        ≡ (if next == ent_eof then (ok tt, s') else free_loop d g n next s')
  unfolding free_loop
  used_round ne h run = ground arith

module _ (d : Device) (g : Geometry) (healthy : IsHealthy d) (f : IsFat32 g) (cov : IsCovered g)
    (calm : g.errors ≢ errors_panic) where
  -- A freed entry is one that was in use.
  used_lem :
      (s s' : Freeing) (c : ℕ)
      → InRange g c
      → table g s.vol c ≢ ent_free
      → FreedOne g c s s'
      → used g s'.vol + 1 ≡ used g s.vol
  used_lem s s' c h ne one =
      count_if-drop (in_use g s.vol) (in_use g s'.vol) 0 g.max_cluster c (ground arith)
        (ground (arith, one.values c (h.1))) (omega arith) (omega arith)
        (λ m other a b. ground (arith, one.values m (omega arith)))

  ends_lem :
      (n : ℕ) (s : Freeing) (c : ℕ)
      → All (Primary g) s.bhs
      → used g s.vol < n
      → Ended g (free_loop d g n c s).0 (free_loop d g n c s).1
  ends_lem zero s c p l = absurd (omega arith)
  ends_lem (suc n) s c p l = elim (dec_lt c 2) [
    | yes low ↦ inl (eio, unread_round d g n c s (outside_lem d g s.vol s.fatent c calm (inl low)))
    | no a ↦ elim (dec_lt c g.max_cluster) [
      | no b ↦
          inl (
            eio,
            unread_round d g n c s (outside_lem d g s.vol s.fatent c calm (inr (omega arith))),
          )
      | yes b ↦
          let (run, (s', freed, one)) = round_lem d g healthy f cov s c p (omega arith, b) in
          elim (ℕ_discrete (table g s.vol c) ent_free) [
            | yes z ↦ inl (eio, free_round d g n c s calm (run ∙ ap ok z))
            | no nz ↦
                let less = used_lem s s' c (omega arith, b) nz one in
                let step = used_round d g n c s nz run freed in
                elim (ℕ_discrete (table g s.vol c) ent_eof) [
                  | yes last ↦
                      let done : free_loop d g (suc n) c s ≡ (ok tt, s') = ground arith in
                      rw done (inr (refl, one.bhs))
                  | no more ↦
                      let on : free_loop d g (suc n) c s ≡ free_loop d g n (table g s.vol c) s' =
                        ground arith in
                      rw on (ends_lem n s' (table g s.vol c) one.bhs (omega arith))
                ]
          ]
    ]
  ]

-- When no call of the block layer fails, on a FAT32 volume whose table has a word for each cluster
-- and that is not mounted with `errors=panic`: for every table, also one with loops or with entries
-- that point outside, and from every cluster, `fat_free_clusters` returns.
pub fat_free_clusters-ends :
    (d : Device) (g : Geometry) (v : Volume) (c : ℕ)
    → IsHealthy d
    → IsFat32 g
    → IsCovered g
    → g.errors ≢ errors_panic
    → (fat_free_clusters d g v c).0 ≢ oops
unfolding fat_free_clusters
fat_free_clusters-ends d g v c healthy f cov calm =
    let start : Freeing = record { vol = v; fatent = fatent_init; bhs = []; first_cl = c } in
    let enough = count_if-le (in_use g v) 0 g.max_cluster in
    finish (free_loop d g (g.max_cluster + 1) c start).0
      (free_loop d g (g.max_cluster + 1) c start).1
      (ends_lem d g healthy f cov calm (g.max_cluster + 1) start c tt (omega arith))
  where
    finish :
        (r : Result (Unit {0})) (s : Freeing)
        → Ended g r s
        → (elim r as (λ x. Result (Unit {0}) × Volume) [
          | err e ↦ (err e, s.vol)
          | oops ↦ (oops, s.vol)
          | ok _ ↦
              let (e, v') = sync_and_mirror d g g.synchronous s.bhs s.vol in
              elim e [ some e' ↦ (err e', v') | none ↦ (ok tt, v') ]
        ]).0
          ≢ oops
    finish r s (inl (e, h)) = λ bad. ground arith
    finish r s (inr (h, p)) = λ bad. ground arith
