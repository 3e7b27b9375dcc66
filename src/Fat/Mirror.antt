-- ===== src/Fat/Mirror.antt =====
-- ATS/myfat/fat_entry.c: writing an entry out, to the table and to its copies.
pub mod Copies
use ats_ldd.Base.{
  ℕ, zero, suc, ◌+◌, ◌-◌, ◌*◌, Bool, true, false, List, [], ◌∷◌, ◌++◌, Result, ok, err, oops, Errno,
  enomem, Option, none, some, if◌then◌else◌, not, has,
}
use ats_ldd.Fat.Volume.{Geometry, Device, Volume, copy_block, fat_sync_bhs}
use ats_ldd.Fat.Entry.{FatEntry, fat32_ent_put}

-- The blocks that the loop over `n` has left to copy; `base` is `fat_length * copy`.
unfoldable pub copy_blocks : Device → Geometry → ℕ → List ℕ → Volume → Option Errno × Volume
copy_blocks d g base [] v = (none, v)
copy_blocks d g base (b ∷ bs) v =
    let c = base + b in
    let v' = record v { word = copy_block v.word c b; dirty = c ∷ v.dirty } in
    let rest = copy_blocks d g base bs v' in
    if not (d.getblk c)
    then (some enomem, v)
    else elim (if g.synchronous then d.sync_dirty c else none) [
      | some e ↦ (some e, v')
      | none ↦ rest
    ]

-- The loop over `copy`, with the rounds left.
unfoldable pub mirror_loop : Device → Geometry → ℕ → ℕ → List ℕ → Volume → Option Errno × Volume
mirror_loop d g zero copy bhs v = (none, v)
mirror_loop d g (suc n) copy bhs v =
    let (e, v') = copy_blocks d g (g.fat_length * copy) bhs v in
    elim e [ some e' ↦ (some e', v') | none ↦ mirror_loop d g n (copy + 1) bhs v' ]

unfoldable pub fat_mirror_bhs : Device → Geometry → List ℕ → Volume → Option Errno × Volume
fat_mirror_bhs d g bhs v = mirror_loop d g (g.fats - 1) 1 bhs v

-- The buffers of a walker, for the loops over `bhs[0 .. nr_bhs)`.
abbrev pub bhs_of : FatEntry → List ℕ
bhs_of fe = elim (fe.bh) [ none ↦ [] | some b ↦ b ∷ [] ]

-- `if (sync) err = fat_sync_bhs(…); if (!err) err = fat_mirror_bhs(…);`
unfoldable pub sync_and_mirror : Device → Geometry → Bool → List ℕ → Volume → Option Errno × Volume
sync_and_mirror d g wait bhs v = elim (if wait then fat_sync_bhs d bhs else none) [
  | some e ↦ (some e, v)
  | none ↦ fat_mirror_bhs d g bhs v
]

-- The answer 0 is `ok tt`.
unfoldable pub fat_ent_write :
    Device → Geometry → Volume → FatEntry → ℕ → Bool → Result (Unit {0}) × Volume
fat_ent_write d g v fe new wait = elim (fat32_ent_put v fe new) [
  | err e ↦ (err e, v)
  | oops ↦ (oops, v)
  | ok v' ↦
      let (e, v'') = sync_and_mirror d g wait (bhs_of fe) v' in
      elim e [ some e' ↦ (err e', v'') | none ↦ (ok tt, v'') ]
]

-- The buffers of the walker are added to the array, those that it does not hold yet.
unfoldable pub fat_collect_bhs : List ℕ → FatEntry → List ℕ
fat_collect_bhs bhs fe = elim (fe.bh) [
  | none ↦ bhs
  | some b ↦ if has b bhs then bhs else bhs ++ (b ∷ [])
]
