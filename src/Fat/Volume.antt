-- ===== src/Fat/Volume.antt =====
-- What the driver keeps of a mounted volume: `struct fat_sb_info` and `struct super_block` of
-- ATS/myfat/sb_mgr.h, the buffer cache that `sb_bread` hands out, and `fat_fs_error` of
-- ATS/myfat/fat_misc.c.
use ats_ldd.Base.{
  ℕ, ◌-◌, ◌^◌, Bool, true, List, [], ◌∷◌, Result, err, oops, Errno, eio, eopnotsupp, Option, none,
  some, if◌then◌else◌, ◌==◌, not, ◌&&◌, ◌≡◌, refl,
}

-- `FAT_ENT_FREE`, `FAT_START_ENT`, `BAD_FAT32`, `FAT_ENT_EOF` (= `EOF_FAT32`) of the FAT format.
abbrev pub ent_free : ℕ
ent_free = 0

abbrev pub start_ent : ℕ
start_ent = 2

abbrev pub bad_fat32 : ℕ
bad_fat32 = 0x0ffffff7

abbrev pub ent_eof : ℕ
ent_eof = 0x0fffffff

-- An `unsigned int` that is -1 in the source.
abbrev pub undefined : ℕ
undefined = 2 ^ 32 - 1

-- `options.errors`
pub data OnError : Type 0 where
  errors_cont errors_panic errors_ro : OnError

-- The fields that no operation after mounting changes. Two powers of two are kept as exponents:
-- `s_blocksize` is `2 ^ blocksize_bits` and `sec_per_clus` is `2 ^ spc_bits`, so that the source's
-- masks `x & (s_blocksize - 1)` and `x & (sec_per_clus - 1)` are remainders.
pub record Geometry : Type 0 where
  pub blocksize_bits : ℕ
  pub spc_bits : ℕ
  pub cluster_bits : ℕ
  pub fats : ℕ
  pub fat_bits : ℕ
  pub fatent_shift : ℕ
  pub fat_start : ℕ
  pub fat_length : ℕ
  pub data_start : ℕ
  pub max_cluster : ℕ
  pub maxbytes : ℕ
  pub errors : OnError
  pub synchronous : Bool

abbrev pub blocksize : Geometry → ℕ
blocksize g = 2 ^ g.blocksize_bits

abbrev pub sec_per_clus : Geometry → ℕ
sec_per_clus g = 2 ^ g.spc_bits

-- The result of writing a buffer out, as `fat_sync_bhs` reads it from the buffer's flags.
pub data Written : Type 0 where
  written unsupported failed : Written

-- The kernel's block layer, by what its calls answer for each block: whether `sb_bread` and
-- `sb_getblk` return a buffer, and how a write ends. `max_buf` is `MAX_BUF_PER_PAGE`.
pub record Device : Type 0 where
  pub bread : ℕ → Bool
  pub getblk : ℕ → Bool
  pub write : ℕ → Written
  pub sync_dirty : ℕ → Option Errno
  pub max_buf : ℕ

-- What changes. `word b o` is the little-endian 32-bit word at byte `o` of the buffer of block `b`;
-- the driver reads and writes FAT blocks by such words, at offsets that are multiples of 4.
-- `dirty` and `discards` record the calls of `mark_buffer_dirty_inode` and `sb_issue_discard`.
pub record Volume : Type 0 where
  pub word : ℕ → ℕ → ℕ
  pub dirty : List ℕ
  pub discards : List (ℕ × ℕ)
  pub prev_free : ℕ
  pub free_clusters : ℕ
  pub free_clus_valid : Bool
  pub s_dirt : Bool
  pub rdonly : Bool

-- `*p = w` for a word at offset `o` of block `b`.
abbrev pub store : (ℕ → ℕ → ℕ) → ℕ → ℕ → ℕ → ℕ → ℕ → ℕ
store m b o w b' o' = if (b == b') && (o == o') then w else m b' o'

-- `memcpy` of a whole block.
abbrev pub copy_block : (ℕ → ℕ → ℕ) → ℕ → ℕ → ℕ → ℕ → ℕ
copy_block m dst src b o = if dst == b then m src o else m b o

-- `none` is the panic.
unfoldable pub fat_fs_error : Geometry → Volume → Option Volume
fat_fs_error g v = elim (g.errors) [
  | errors_panic ↦ none
  | errors_ro ↦ some (if not v.rdonly then record v { rdonly = true } else v)
  | errors_cont ↦ some v
]

-- `fat_fs_error (…); return -EIO;`
unfoldable pub fs_error_eio {ℓ} : {A : Type ℓ} → Geometry → Volume → Result A × Volume
unfolding fat_fs_error
fs_error_eio g v = elim (fat_fs_error g v) [ none ↦ (oops, v) | some v' ↦ (err eio, v') ]

sync_loop : Device → Option Errno → List ℕ → Option Errno
sync_loop d e [] = e
sync_loop d e (b ∷ bs) =
    sync_loop d
      (elim (d.write b) [
        | written ↦ e
        | unsupported ↦ some eopnotsupp
        | failed ↦ elim e [ none ↦ some eio | some e' ↦ some e' ]
      ])
      bs

-- The first hard error is kept, and a later `-EOPNOTSUPP` replaces it.
unfoldable pub fat_sync_bhs : Device → List ℕ → Option Errno
unfolding sync_loop
fat_sync_bhs d bhs = sync_loop d none bhs

sync_loop-written :
    (d : Device)
    → ((b : ℕ) → d.write b ≡ written)
    → (e : Option Errno) (bs : List ℕ) → sync_loop d e bs ≡ e
unfolding sync_loop
sync_loop-written d h e [] = refl
sync_loop-written d h e (b ∷ bs) = rw (h b) (sync_loop-written d h e bs)

-- Writes that all succeed report no error.
pub fat_sync_bhs-written :
    (d : Device) (bs : List ℕ) → ((b : ℕ) → d.write b ≡ written) → fat_sync_bhs d bs ≡ none
unfolding fat_sync_bhs
fat_sync_bhs-written d bs h = sync_loop-written d h none bs
