-- ===== src/Fat/Entry.antt =====
-- ATS/myfat/fat_entry.c and fat_entry.h: a `struct fat_entry` walks over the entries of the table
-- in the buffers of its blocks.
pub mod Table
use ats_ldd.Base.{
  ℕ, ◌+◌, ◌-◌, ◌*◌, ◌^◌, ◌%◌, ◌/◌, bit_or, Bool, true, false, ◌∷◌, Result, ok, err, oops, eio,
  and_then, Option, none, some, if◌then◌else◌, ◌==◌, ltb, leb, not, ◌&&◌, ◌||◌,
}
use ats_ldd.Fat.Volume.{
  Geometry, Device, Volume, blocksize, store, fs_error_eio, ent_eof, bad_fat32, start_ent,
}

-- On FAT32 only `bhs[0]` is used: `bh` is its block, with `nr_bhs = 1`, and `none` is `nr_bhs = 0`.
-- `ptr` is `u.ent32_p` as an offset into that buffer, `none` for NULL.
pub record FatEntry : Type 0 where
  pub entry : ℕ
  pub ptr : Option ℕ
  pub bh : Option ℕ

unfoldable pub fatent_init : FatEntry
fatent_init = record { entry = 0; ptr = none; bh = none }

unfoldable pub fatent_set_entry : FatEntry → ℕ → FatEntry
fatent_set_entry fe entry = record fe { entry = entry; ptr = none }

unfoldable pub fatent_brelse : FatEntry → FatEntry
fatent_brelse fe = record fe { ptr = none; bh = none }

-- The offset and the block of an entry. `bytes` is an `int`, by its bits; `>>` keeps its sign, and a
-- block that is negative wraps in `sector_t`.
unfoldable pub fat_ent_blocknr : Geometry → ℕ → ℕ × ℕ
fat_ent_blocknr g entry =
    let bytes = entry * 2 ^ g.fatent_shift % 2 ^ 32 in
    (
      bytes % blocksize g,
      if ltb bytes (2 ^ 31)
          then g.fat_start + bytes / blocksize g
          else (g.fat_start + bytes / blocksize g + 2 ^ 64 - 2 ^ 32 / blocksize g) % 2 ^ 64,
    )

unfoldable pub fat32_ent_set_ptr : FatEntry → ℕ → FatEntry
fat32_ent_set_ptr fe offset = record fe { ptr = some offset }

unfoldable pub fat_ent_bread : Device → FatEntry → ℕ → ℕ → Result (Unit {0}) × FatEntry
unfolding fat32_ent_set_ptr
fat_ent_bread d fe offset blocknr =
    if d.bread blocknr
    then (ok tt, fat32_ent_set_ptr (record fe { bh = some blocknr }) offset)
    else (err eio, record fe { bh = none })

-- `BAD_FAT32` and above are read as the end of the chain.
unfoldable pub entry_value : ℕ → ℕ
entry_value w = let next = w % 2 ^ 28 in if leb bad_fat32 next then ent_eof else next

-- Where `ent32_p` points: a block and an offset.
unfoldable pub cell : FatEntry → Option (ℕ × ℕ)
cell fe = elim (fe.bh) [
  | none ↦ none
  | some b ↦ elim (fe.ptr) [ none ↦ none | some o ↦ some (b, o) ]
]

unfoldable pub fat32_ent_get : Volume → FatEntry → Result ℕ
unfolding cell
fat32_ent_get v fe = elim (cell fe) [ none ↦ oops | some (b, o) ↦ ok (entry_value (v.word b o)) ]

-- `new | (old & ~0x0fffffff)`: the low 28 bits are those of `new`, the four above are joined.
unfoldable pub put_word : ℕ → ℕ → ℕ
put_word old new = bit_or (new / 2 ^ 28) (old / 2 ^ 28) * 2 ^ 28 + new % 2 ^ 28

unfoldable pub fat32_ent_put : Volume → FatEntry → ℕ → Result Volume
unfolding cell
fat32_ent_put v fe new = elim (cell fe) [
  | none ↦ oops
  | some (b, o) ↦
      ok (record v { word = store v.word b o (put_word (v.word b o) new); dirty = b ∷ v.dirty })
]

-- To the next entry in the buffer; `false` at the end of the block.
unfoldable pub fat32_ent_next : Geometry → FatEntry → Result (Bool × FatEntry)
fat32_ent_next g fe = elim (fe.ptr) [
  | none ↦ oops
  | some p ↦ ok (
      if ltb p (blocksize g - 4)
      then (true, record fe { entry = fe.entry + 1; ptr = some (p + 4) })
      else (false, record fe { entry = fe.entry + 1; ptr = none }))
]

unfoldable pub fat_ent_next : Geometry → FatEntry → Result (Bool × FatEntry)
unfolding fat32_ent_next
fat_ent_next g fe = and_then (fat32_ent_next g fe) λ r. ok (r.0 && ltb r.1.entry g.max_cluster, r.1)

-- The next cluster in the chain, through a buffer of its own. The entry is not checked.
unfoldable pub fatent_next_sb : Device → Geometry → Volume → ℕ → Result ℕ
unfolding fat_ent_blocknr fat_ent_bread fat32_ent_get fatent_init fatent_set_entry
fatent_next_sb d g v curent =
    let (offset, blocknr) = fat_ent_blocknr g curent in
    let (r, ent) = fat_ent_bread d (fatent_set_entry fatent_init curent) offset blocknr in
    elim r [ ok _ ↦ fat32_ent_get v ent | err _ ↦ err eio | oops ↦ oops ]

-- Does the buffer that is held include this entry?
unfoldable pub fat_ent_update_ptr : Geometry → FatEntry → ℕ → ℕ → Bool × FatEntry
unfolding fat32_ent_set_ptr
fat_ent_update_ptr g fe offset blocknr = elim (fe.bh) [
  | none ↦ (false, fe)
  | some b ↦
      if not (b == blocknr)
      then (false, fe)
      else if (g.fat_bits == 12) && leb (blocksize g) (offset + 1)
      then (false, fe)
      else (true, fat32_ent_set_ptr fe offset)
]

unfoldable pub fat_ent_read :
    Device → Geometry → Volume → FatEntry → ℕ → Result ℕ × FatEntry × Volume
unfolding fatent_brelse fatent_set_entry fat_ent_blocknr fat_ent_update_ptr fat_ent_bread
    fat32_ent_get fs_error_eio
fat_ent_read d g v fe entry =
    if ltb entry start_ent || leb g.max_cluster entry
    then (let (r, v') = fs_error_eio g v in (r, fatent_brelse fe, v'))
    else (let (offset, blocknr) = fat_ent_blocknr g entry in
        let (hit, fe') = fat_ent_update_ptr g (fatent_set_entry fe entry) offset blocknr in
        if hit
        then (fat32_ent_get v fe', fe', v)
        else (let (r, fe'') = fat_ent_bread d (fatent_brelse fe') offset blocknr in
            elim r [
              | ok _ ↦ (fat32_ent_get v fe'', fe'', v)
              | err e ↦ (err e, fe'', v)
              | oops ↦ (oops, fe'', v)
            ]))

unfoldable pub fat_ent_read_block : Device → Geometry → FatEntry → Result (Unit {0}) × FatEntry
unfolding fatent_brelse fat_ent_blocknr fat_ent_bread
fat_ent_read_block d g fe =
    let (offset, blocknr) = fat_ent_blocknr g fe.entry in
    fat_ent_bread d (fatent_brelse fe) offset blocknr

-- `fatent_shift` is set by the size of the entries; -1 on FAT12 is given by its bits.
unfoldable pub fat_ent_access_init : Geometry → Geometry
fat_ent_access_init g =
    if g.fat_bits == 32
    then record g { fatent_shift = 2 }
    else if g.fat_bits == 16
    then record g { fatent_shift = 1 }
    else if g.fat_bits == 12
    then record g { fatent_shift = 2 ^ 32 - 1 }
    else g

unfoldable pub fatent_next : Device → Geometry → Volume → ℕ → Result ℕ
unfolding fatent_next_sb
fatent_next d g v curent = fatent_next_sb d g v curent
