-- ===== src/Fat/Extend/Longer.antt =====
-- The chain of a file after `fat_chain_add` of ATS/myfat/fat_misc.c.
use ats_ldd.Base.{
  ℕ, ◌+◌, ◌-◌, ◌*◌, ◌/◌, ◌%◌, ◌^◌, ◌≤◌, ◌<◌, min, ◌≡◌, ◌≢◌, sym, ap, subst, true, false, ok, Errno,
  Option, if◌then◌else◌, ◌==◌, List, [], ◌∷◌, ◌++◌, length, has, All, All-has, arith,
}
use ats_ldd.Fat.Volume.{Geometry, Device, Volume, ent_eof}
use ats_ldd.Fat.Entry.{fatent_init, fat_ent_read}
use ats_ldd.Fat.Entry.Table.{table, block_of, IsFat32, InRange, InRange-int, put_lem, read_lem}
use ats_ldd.Fat.Mirror.{fat_ent_write, bhs_of}
use ats_ldd.Fat.Mirror.Copies.{
  IsHealthy, IsCovered, sync_and_mirror-SameTable, block_of-Primary, Primary,
}
use ats_ldd.Fat.Chain.{last, link, Chain, Chain-length}
use ats_ldd.Fat.Chain.Grow.{end_of, end_of-has, end_of-get_or, Chain-append, has_ne}
use ats_ldd.Fat.Cluster.{FatInode, limit}
use ats_ldd.Fat.Cluster.Locate.{fat_get_cluster-Chain}
use ats_ldd.Fat.Extend.{find_last, add_last, count_blocks, fat_chain_add}

module _ (d : Device) (g : Geometry) (healthy : IsHealthy d) (f : IsFat32 g)
    (cov : IsCovered g) where
  -- An entry that is read and written with another value.
  write_lem :
      (v : Volume) (e new : ℕ)
      → InRange g e
      → InRange g new
      → let (ret, fe, v1) = fat_ent_read d g v fatent_init e in
        (ret ≡ ok (table g v e))
        × ((v' : Volume) × (fat_ent_write d g v1 fe new true ≡ (ok tt, v'))
            × ((y : ℕ) → y < g.max_cluster → table g v' y ≡ (if e == y then new else table g v y)))
  unfolding fat_ent_write
  write_lem v e new h k =
      let (ret, fe, v1) = fat_ent_read d g v fatent_init e in
      let (run, a, same) = read_lem d g v fatent_init e f h (healthy.reads (block_of g e)) in
      let (v2, run2, put) = put_lem g v1 fe e new f a (omega (arith, f.few)) in
      let blocks : bhs_of fe ≡ block_of g e ∷ [] = ground (arith, a.block) in
      let (v3, run3, kept) =
        sync_and_mirror-SameTable d g true (bhs_of fe) v2 healthy f cov
          (subst (All (Primary g)) (sym blocks) (block_of-Primary g e f cov h.1, tt)) in
      (
        run,
        (
          v3,
          ground (arith, run2, run3),
          λ y l. ground (arith, kept.values y l, put.values y, ap (λ w. table g w y) same, f.few),
        ),
      )

  -- The end of the chain is found.
  find_lem :
      (v : Volume) (ino : FatInode) (cs : List ℕ)
      → ino.i_start ≢ 0
      → ino.i_start < 2 ^ 29
      → Chain (table g v) ino.i_start cs
      → length cs ≤ limit g + 1
      → limit g < ent_eof
      → find_last d g v ino ≡ (ok (length cs, end_of cs), v)
  unfolding find_last
  find_lem v ino cs nz small ch len few =
      let n : min ent_eof (length cs - 1) ≡ length cs - 1 = omega arith in
      ground (
        arith,
        fat_get_cluster-Chain d g v ino cs ent_eof healthy.reads f small nz ch len,
        n,
        end_of-get_or ch,
        Chain-length ch,
      )

  add_lem :
      (sync_inode : Option Errno) (v : Volume) (ino : FatInode) (e new : ℕ)
      → InRange g e
      → InRange g new
      → (v' : Volume) × (add_last d g sync_inode e new v ino ≡ (ok tt, ino, v'))
        × ((y : ℕ) → y < g.max_cluster → table g v' y ≡ (if e == y then new else table g v y))
  unfolding add_last
  add_lem sync_inode v ino e new h k =
      let (ret, fe, v1) = fat_ent_read d g v fatent_init e in
      let (run, (v2, run2, values)) = write_lem v e new h k in
      (v2, ground (arith, run, run2), values)

-- The counting, where the blocks of the inode agree with its clusters.
count_lem :
    (g : Geometry) (n nr : ℕ) (v : Volume) (ino : FatInode)
    → ino.i_blocks / 2 ^ (g.cluster_bits - 9) ≡ n
    → count_blocks g n nr v ino ≡ (
      ok tt,
      record ino { i_blocks = (ino.i_blocks + nr * 2 ^ (g.cluster_bits - 9)) % 2 ^ 64 },
      v,
    )
unfolding count_blocks
count_lem g n nr v ino e = ground arith

start_int :
    {g : Geometry} {next : ℕ → ℕ} {c : ℕ} {cs : List ℕ}
    → IsFat32 g
    → Chain next c cs
    → All (InRange g) cs
    → c < 2 ^ 29
start_int {g} {c = c} f (last h) (here, rest) = InRange-int g c f here.1
start_int {g} {c = c} f (link h p q r) (here, rest) = InRange-int g c f here.1

-- When no call of the block layer fails, on a FAT32 volume whose table has a word for each cluster:
-- for a file with the chain `cs` of clusters of the data area, of at most `limit + 1`, with `limit`
-- below FAT_ENT_EOF and a count of blocks that agrees, and for another chain `ns` of clusters of
-- the data area from `new_dclus` on that has none of `cs`, `fat_chain_add` returns 0, the chain of
-- the file is `cs` followed by `ns`, the entries of clusters outside `cs` are as before, and of the
-- inode only the count of blocks has changed, by `nr_cluster` clusters.
pub fat_chain_add-Chain :
    (d : Device) (g : Geometry) (sync_inode : Option Errno) (v : Volume) (ino : FatInode)
    (cs ns : List ℕ) (new_dclus nr_cluster : ℕ)
    → IsHealthy d
    → IsFat32 g
    → IsCovered g
    → ino.i_start ≢ 0
    → Chain (table g v) ino.i_start cs
    → All (InRange g) cs
    → length cs ≤ limit g + 1
    → limit g < ent_eof
    → ino.i_blocks / 2 ^ (g.cluster_bits - 9) ≡ length cs
    → Chain (table g v) new_dclus ns
    → All (InRange g) (new_dclus ∷ ns)
    → All (λ y. has y cs ≡ false) ns
    → (v' : Volume) × (fat_chain_add d g sync_inode new_dclus nr_cluster v ino ≡ (
      ok tt,
      record ino { i_blocks = (ino.i_blocks + nr_cluster * 2 ^ (g.cluster_bits - 9)) % 2 ^ 64 },
      v',
    ))
      × Chain (table g v') ino.i_start (cs ++ ns)
      × ((y : ℕ) → y < g.max_cluster → has y cs ≡ false → table g v' y ≡ table g v y)
unfolding fat_chain_add
fat_chain_add-Chain d g sync_inode v ino cs ns n nr healthy f cov nz ch h len few blocks chn k
      apart =
    let e : InRange g (end_of cs) = All-has (InRange g) cs (end_of cs) h (end_of-has ch) in
    let (v', run, values) = add_lem d g healthy f cov sync_inode v ino (end_of cs) n e k.0 in
    let away : (y : ℕ) → y < g.max_cluster → has y cs ≡ false → table g v' y ≡ table g v y =
      λ y l o. ground (arith, values y l, has_ne (end_of cs) y cs (end_of-has ch) o) in
    (
      v',
      ground (
        arith,
        find_lem d g healthy f cov v ino cs nz (start_int f ch h) ch len few,
        run,
        count_lem g (length cs) nr v' ino blocks,
      ),
      Chain-append ch chn (omega arith) (omega (arith, f.few))
          (λ y o. values y (All-has (InRange g) cs y h o).1)
          (λ y o.
            away y (All-has (InRange g) ns y k.1 o).1
              (All-has (λ y. has y cs ≡ false) ns y apart o)),
      away,
    )
