-- ===== src/Fat/Entry/Table.antt =====
-- The table as a function from entries to values, and what reading and writing an entry do to it.
use ats_ldd.Base.{
  ℕ_discrete, Bool, Bool-cases, inl, inr, ℕ, ◌+◌, ◌-◌, ◌*◌, ◌^◌, ◌%◌, ◌/◌, ◌≤◌, ◌<◌, bit_or,
  bit_or-bitwise, ◌≡◌, refl, ◌≢◌, true, false, ok, err, eio, none, some, if◌then◌else◌, ◌==◌, ltb,
  leb, arith, ap, ◌∷◌, ◌&&◌,
}
use native.Mathlib.Nat.{div-add-mod}
use ats_ldd.Fat.Volume.{Geometry, Device, Volume, blocksize, store, ent_eof, bad_fat32}
use ats_ldd.Fat.Entry.{
  FatEntry, fat_ent_read, fat32_ent_put, entry_value, put_word, fatent_next_sb, fat32_ent_next,
  fat_ent_next, fat32_ent_get, fat_ent_read_block, fat_ent_blocknr,
}

abbrev pub block_of : Geometry → ℕ → ℕ
block_of g c = g.fat_start + c * 2 ^ g.fatent_shift / blocksize g

abbrev pub offset_of : Geometry → ℕ → ℕ
offset_of g c = c * 2 ^ g.fatent_shift % blocksize g

-- The value of entry `c`.
unfoldable pub table : Geometry → Volume → ℕ → ℕ
table g v c = entry_value (v.word (block_of g c) (offset_of g c))

-- A FAT32 volume: `fat_ent_access_init` sets the shift, and the clusters are below the marks.
pub record IsFat32 (g : Geometry) : Type 0 where
  pub shift : g.fatent_shift ≡ 2
  pub bits : g.fat_bits ≡ 32
  pub big_blocks : 2 ≤ g.blocksize_bits
  pub few : g.max_cluster ≤ bad_fat32

-- The walker stands on entry `c`.
pub record IsAt (g : Geometry) (fe : FatEntry) (c : ℕ) : Type 0 where
  pub entry : fe.entry ≡ c
  pub block : fe.bh ≡ some (block_of g c)
  pub offset : fe.ptr ≡ some (offset_of g c)

abbrev pub InRange : Geometry → ℕ → Type 0
InRange g c = (2 ≤ c) × (c < g.max_cluster)

-- The number of bytes before an entry that an `int` can hold.
bytes_lem :
    (g : Geometry) (c : ℕ)
    → IsFat32 g
    → c < 2 ^ 29
    → (c * 2 ^ g.fatent_shift < 2 ^ 31) × (c * 2 ^ g.fatent_shift % 2 ^ 32 ≡ c * 2 ^ g.fatent_shift)
bytes_lem g c f h = rw f.shift (omega arith, omega arith)

-- So far, `fat_ent_blocknr` finds an entry where the table has it.
blocknr_lem :
    (g : Geometry) (c : ℕ)
    → IsFat32 g
    → c < 2 ^ 29
    → fat_ent_blocknr g c ≡ (offset_of g c, block_of g c)
unfolding fat_ent_blocknr
blocknr_lem g c f h =
    let (small, same) = bytes_lem g c f h in
    let inside : ltb (c * 2 ^ g.fatent_shift) (2 ^ 31) ≡ true = ground arith in
    rw (same, inside) refl

pub InRange-int : (g : Geometry) (c : ℕ) → IsFat32 g → c < g.max_cluster → c < 2 ^ 29
InRange-int g c f h = omega (arith, f.few)

pub read_lem :
    (d : Device) (g : Geometry) (v : Volume) (fe : FatEntry) (c : ℕ)
    → IsFat32 g
    → InRange g c
    → d.bread (block_of g c) ≡ true
    → let (r, fe', v') = fat_ent_read d g v fe c in (r ≡ ok (table g v c)) × IsAt g fe' c × (v' ≡ v)
unfolding fat_ent_read table
read_lem d g v fe c f h k = ground (arith, blocknr_lem g c f (InRange-int g c f h.1))

-- What an entry reads as is below `2 ^ 28`.
pub table_small : (g : Geometry) (v : Volume) (c : ℕ) → table g v c < 2 ^ 29
unfolding table entry_value
table_small g v c = ground arith

pub next_lem :
    (d : Device) (g : Geometry) (v : Volume) (c : ℕ)
    → IsFat32 g
    → c < 2 ^ 29
    → fatent_next_sb d g v c ≡ (if d.bread (block_of g c) then ok (table g v c) else err eio)
unfolding fatent_next_sb table
next_lem d g v c f h = ground (arith, blocknr_lem g c f h)

zero-bit_or : (b : ℕ) → bit_or 0 b ≡ b
zero-bit_or b = bit_or-bitwise 0 b

put_word_small : (old new : ℕ) → new < 2 ^ 28 → put_word old new % 2 ^ 28 ≡ new
unfolding put_word
put_word_small old new h = omega arith

put_word_high : (old new : ℕ) → new < 2 ^ 28 → put_word old new / 2 ^ 28 ≡ old / 2 ^ 28
unfolding put_word
put_word_high old new h =
    let z : new / 2 ^ 28 ≡ 0 = omega arith in rw z (omega (arith, zero-bit_or (old / 2 ^ 28)))

-- Different entries lie at different addresses.
address_injective : (s n a b : ℕ) → s + a * 4 / n ≡ s + b * 4 / n → a * 4 % n ≡ b * 4 % n → a ≡ b
address_injective s n a b h k =
    omega (arith, div-add-mod (a * 4) n, div-add-mod (b * 4) n, ap (λ (q : ℕ). n * q) (quotients h))
  where
    quotients : s + a * 4 / n ≡ s + b * 4 / n → a * 4 / n ≡ b * 4 / n
    quotients h = omega arith

address_ne :
    (g : Geometry)
    → IsFat32 g
    → (a b : ℕ) → a ≢ b
    → ((block_of g a == block_of g b) && (offset_of g a == offset_of g b)) ≡ false
address_ne g f a b ne = ground (arith, f.shift, address_injective g.fat_start (blocksize g) a b)

-- What a written entry reads as.
abbrev pub read_back : ℕ → ℕ
read_back new = if leb bad_fat32 new then ent_eof else new

-- What `fat32_ent_put` does to the volume.
pub record Put (g : Geometry) (v : Volume) (e new : ℕ) (v' : Volume) : Type 0 where
  pub values : (c : ℕ) → table g v' c ≡ (if e == c then read_back new else table g v c)
  pub reserved : (b o : ℕ) → v'.word b o / 2 ^ 28 ≡ v.word b o / 2 ^ 28
  pub elsewhere : (b o : ℕ) → b ≢ block_of g e → v'.word b o ≡ v.word b o
  pub rest : v' ≡ record v { word = v'.word; dirty = block_of g e ∷ v.dirty }

abbrev after_put : Geometry → Volume → ℕ → ℕ → Volume
after_put g v e new = record v {
  word =
      store v.word (block_of g e) (offset_of g e)
        (put_word (v.word (block_of g e) (offset_of g e)) new);
  dirty = block_of g e ∷ v.dirty;
}

put_values :
    (g : Geometry) (v : Volume) (e new : ℕ)
    → IsFat32 g
    → new < 2 ^ 28
    → (c : ℕ) → table g (after_put g v e new) c ≡ (if e == c then read_back new else table g v c)
unfolding table entry_value
put_values g v e new f h c = elim (ℕ_discrete e c) [
  | yes p ↦ rw (← p) (ground (arith, put_word_small (v.word (block_of g e) (offset_of g e)) new h))
  | no ne ↦ ground (arith, address_ne g f e c ne)
]

pub put_lem :
    (g : Geometry) (v : Volume) (fe : FatEntry) (e new : ℕ)
    → IsFat32 g
    → IsAt g fe e
    → new < 2 ^ 28
    → (v' : Volume) × (fat32_ent_put v fe new ≡ ok v') × Put g v e new v'
unfolding fat32_ent_put
put_lem g v fe e new f a h = (
  after_put g v e new,
  ground arith,
  record {
    values = put_values g v e new f h;
    reserved = λ b o. ground (arith, put_word_high (v.word b o) new h);
    elsewhere = λ b o ne. ground arith;
    rest = refl;
  },
)

step_address : (n a : ℕ) → a % n + 4 < n → ((a + 4) / n ≡ a / n) × ((a + 4) % n ≡ a % n + 4)
step_address n a h = grind (arith, div-add-mod)

-- One step inside the block goes on to the next entry.
pub next-IsAt :
    (g : Geometry) (fe fe' : FatEntry) (e : ℕ)
    → IsFat32 g
    → IsAt g fe e
    → fat32_ent_next g fe ≡ ok (true, fe')
    → IsAt g fe' (e + 1)
unfolding fat32_ent_next
next-IsAt g fe fe' e f a h = ground (arith, f.shift, step_address (blocksize g) (e * 4))

-- What one step answers; at the end of the block only the number goes on.
pub next_result :
    (g : Geometry) (fe : FatEntry) (e : ℕ)
    → IsAt g fe e
    → fat32_ent_next g fe
      ≡ ok (
          if ltb (offset_of g e) (blocksize g - 4)
          then (
            true,
            record { entry = e + 1; ptr = some (offset_of g e + 4); bh = some (block_of g e) },
          )
          else (false, record { entry = e + 1; ptr = none; bh = some (block_of g e) }))
unfolding fat32_ent_next
next_result g fe e a = ground arith

-- `fat_ent_next` always answers; the number goes on by one, and where the answer is "more" the
-- walker stands on the next entry, which is in range.
pub fat_ent_next_lem :
    (g : Geometry) (fe : FatEntry) (e : ℕ)
    → IsFat32 g
    → IsAt g fe e
    → (b : Bool) × (fe' : FatEntry) × (fat_ent_next g fe ≡ ok (b, fe'))
      × (fe'.entry ≡ e + 1)
      × (b ≡ true → IsAt g fe' (e + 1) × (e + 1 < g.max_cluster))
unfolding fat_ent_next
fat_ent_next_lem g fe e f a = elim (Bool-cases (ltb (offset_of g e) (blocksize g - 4))) [
  | inl inside ↦
      let fe' : FatEntry = record {
        entry = e + 1;
        ptr = some (offset_of g e + 4);
        bh = some (block_of g e);
      } in
      let run : fat32_ent_next g fe ≡ ok (true, fe') = ground (arith, next_result g fe e a) in
      (
        ltb (e + 1) g.max_cluster,
        fe',
        ground (arith, run),
        refl,
        λ b. (next-IsAt g fe fe' e f a run, ground arith),
      )
  | inr over ↦
      let fe' : FatEntry = record { entry = e + 1; ptr = none; bh = some (block_of g e) } in
      (false, fe', ground (arith, next_result g fe e a), refl, λ b. absurd (ground arith))
]

pub get_lem :
    (g : Geometry) (v : Volume) (fe : FatEntry) (e : ℕ)
    → IsAt g fe e
    → fat32_ent_get v fe ≡ ok (table g v e)
unfolding fat32_ent_get table
get_lem g v fe e a = ground arith

pub read_block_lem :
    (d : Device) (g : Geometry) (fe : FatEntry)
    → IsFat32 g
    → fe.entry < g.max_cluster
    → d.bread (block_of g fe.entry) ≡ true
    → (fe' : FatEntry) × (fat_ent_read_block d g fe ≡ (ok tt, fe')) × IsAt g fe' fe.entry
unfolding fat_ent_read_block
read_block_lem d g fe f l h = (
  record { entry = fe.entry; ptr = some (offset_of g fe.entry); bh = some (block_of g fe.entry) },
  ground (arith, blocknr_lem g fe.entry f (InRange-int g fe.entry f l)),
  record { entry = refl; block = refl; offset = refl },
)
