-- ===== src/Fat/Fresh/Blank.antt =====
-- What a new directory holds after `fat_alloc_new_dir` of ATS/myfat/fat_dir.c.
use ats_ldd.Base.{
  ℕ, zero, suc, ◌+◌, ◌-◌, ◌*◌, ◌/◌, ◌%◌, ◌^◌, ◌<◌, ◌≤◌, ◌≡◌, refl, ap, ◌∙◌, Bool, true, false, ◌&&◌,
  List, [], ◌∷◌, ◌++◌, ok, Errno, Option, none, if◌then◌else◌, ◌==◌, leb, ltb, arith, Bool-cases,
  inl, inr, length, get_or,
}
use ats_ldd.Fat.Volume.{Geometry, Device, Volume, blocksize, sec_per_clus}
use ats_ldd.Fat.Alloc.{fat_alloc_clusters}
use ats_ldd.Fat.Cluster.{FatInode, fat_clus_to_blknr}
use ats_ldd.Fat.Dir.{Disk, Address, attr_at}
use ats_ldd.Inode.Fill.{le16, le32}
use ats_ldd.Fat.Unlink.{mark}
use ats_ldd.Fat.Fresh.{
  copy_bytes, zero_bytes, sync_bhs, zero_loop, dots, word_bytes, fat_zeroed_cluster, dot_entry,
  fat_alloc_new_dir,
}
use ats_ldd.Time.{FatTime}

-- The blocks can be had, and the writes that the directory asks for succeed.
pub record Gets (d : Device) (dir : FatInode) : Type 0 where
  pub gets : (b : ℕ) → d.getblk b ≡ true
  pub syncs : (bhs : List ℕ) → sync_bhs d dir bhs ≡ none

-- Whether byte `o` of block `b` is in the `n` blocks from `first` on.
abbrev pub in_blocks : Geometry → ℕ → ℕ → ℕ → ℕ → Bool
in_blocks g first n b o = (leb first b && ltb b (first + n)) && ltb o (blocksize g)

zero_round :
    (d : Device) (g : Geometry) (k : Disk) (dir : FatInode) (nr_bhs blknr left : ℕ) (bhs : List ℕ)
    → Gets d dir
    → (let k' = mark (record k { byte = zero_bytes k.byte blknr 0 (blocksize g) }) blknr in
        (held : List ℕ) × (zero_loop d g k dir nr_bhs blknr (suc left) bhs
          ≡ zero_loop d g k' dir nr_bhs (blknr + 1) left held))
unfolding zero_loop
zero_round d g k dir nr_bhs blknr left bhs r =
    elim (Bool-cases (length (bhs ++ (blknr ∷ [])) == nr_bhs)) [
      | inl y ↦ ([], ground (arith, r.gets blknr, r.syncs (bhs ++ (blknr ∷ []))))
      | inr y ↦ (bhs ++ (blknr ∷ []), ground (arith, r.gets blknr))
    ]

zeroed :
    (g : Geometry) (m m' : ℕ → ℕ → ℕ) (blknr left b o : ℕ)
    → m' b o
      ≡ (if in_blocks g (blknr + 1) left b o then 0 else zero_bytes m blknr 0 (blocksize g) b o)
    → m' b o ≡ (if in_blocks g blknr (suc left) b o then 0 else m b o)
unfolding copy_bytes
zeroed g m m' blknr left b o h = ground arith

zero_loop_lem :
    (d : Device) (g : Geometry) (left : ℕ) (k : Disk) (dir : FatInode) (nr_bhs blknr : ℕ)
    (bhs : List ℕ)
    → Gets d dir
    → (k' : Disk) × (zero_loop d g k dir nr_bhs blknr left bhs ≡ (none, k'))
      × (k'.vol ≡ k.vol)
      × ((b o : ℕ) → k'.byte b o ≡ (if in_blocks g blknr left b o then 0 else k.byte b o))
unfolding zero_loop mark
zero_loop_lem d g zero k dir nr_bhs blknr bhs r =
    (k, ap (λ (x : Option Errno). (x, k)) (r.syncs bhs), refl, λ b o. ground arith)
zero_loop_lem d g (suc left) k dir nr_bhs blknr bhs r =
    let (held, step) = zero_round d g k dir nr_bhs blknr left bhs r in
    let k1 : Disk = mark (record k { byte = zero_bytes k.byte blknr 0 (blocksize g) }) blknr in
    let (k', run, vol, bytes) = zero_loop_lem d g left k1 dir nr_bhs (blknr + 1) held r in
    (k', step ∙ run, vol, λ b o. zeroed g k.byte k'.byte blknr left b o (bytes b o))

-- The bytes of "." and "..".
abbrev pub dot_bytes : Bool → FatTime → ℕ → ℕ → List ℕ
dot_bytes isvfat t cluster parent =
    dot_entry false isvfat t cluster ++ dot_entry true isvfat t parent

-- The disk with the first block of the directory.
abbrev first_block : Geometry → Disk → Volume → ℕ → (ℕ → ℕ) → Disk
first_block g k v first dots =
    mark
      (record k {
        vol = v;
        byte = zero_bytes (copy_bytes k.byte first 0 dots 0 64) first 64 (blocksize g - 64);
      })
      first

new_dir_run :
    (d : Device) (g : Geometry) (needs_sync isvfat : Bool) (t : FatTime) (k k3 : Disk)
    (dir : FatInode) (c : ℕ) (v : Volume)
    → d.getblk (fat_clus_to_blknr g c) ≡ true
    → fat_alloc_clusters d g k.vol needs_sync 1 ≡ (ok (c ∷ []), v)
    → (let first = fat_clus_to_blknr g c in
        fat_zeroed_cluster d g
          (first_block g k v first (λ i. get_or (dot_bytes isvfat t c dir.i_logstart) i 0))
          dir
          first
          (first ∷ [])
          d.max_buf
        ≡ (none, k3))
    → fat_alloc_new_dir d g needs_sync isvfat t k dir ≡ (ok c, k3)
unfolding fat_alloc_new_dir
new_dir_run d g needs_sync isvfat t k k3 dir c v get alloc zeros = ground arith

blank_bytes :
    (g : Geometry) (k : Disk) (v : Volume) (m' : ℕ → ℕ → ℕ) (first spc b o : ℕ) (dots : ℕ → ℕ)
    → 64 ≤ blocksize g
    → 1 ≤ spc
    → m' b o ≡ (
        if in_blocks g (first + 1) (spc - 1) b o
        then 0
        else (first_block g k v first dots).byte b o)
    → m' b o ≡ (
        if in_blocks g first spc b o
        then (if first == b && ltb o 64 then dots o else 0)
        else k.byte b o)
unfolding mark copy_bytes
blank_bytes g k v m' first spc b o dots small unit h =
    let at : 0 + (o - 0) ≡ o = omega arith in
    let same : dots (0 + (o - 0)) ≡ dots o = ap dots at in ground arith

-- Each byte of the volume after the making of a directory.
new_dir_bytes :
    (d : Device) (g : Geometry) (needs_sync isvfat : Bool) (t : FatTime) (k : Disk) (dir : FatInode)
    (c : ℕ) (v : Volume)
    → Gets d dir
    → 64 ≤ blocksize g
    → 1 ≤ sec_per_clus g
    → fat_alloc_clusters d g k.vol needs_sync 1 ≡ (ok (c ∷ []), v)
    → (let (r, k') = fat_alloc_new_dir d g needs_sync isvfat t k dir in
        let first = fat_clus_to_blknr g c in
        (r ≡ ok c)
        × (k'.vol ≡ v)
        × ((b o : ℕ)
            → k'.byte b o ≡ (
                if in_blocks g first (sec_per_clus g) b o
                then (if first == b && ltb o 64
                    then get_or (dot_bytes isvfat t c dir.i_logstart) o 0
                    else 0)
                else k.byte b o)))
unfolding fat_zeroed_cluster mark
new_dir_bytes d g needs_sync isvfat t k dir c v r small unit alloc =
    let first : ℕ = fat_clus_to_blknr g c in
    let dots : ℕ → ℕ = λ i. get_or (dot_bytes isvfat t c dir.i_logstart) i 0 in
    let (k3, zeros, vol, bytes) =
      zero_loop_lem d g (sec_per_clus g - 1) (first_block g k v first dots) dir d.max_buf
        (first + 1) (first ∷ []) r in
    rw (new_dir_run d g needs_sync isvfat t k k3 dir c v (r.gets first) alloc zeros) (
      refl,
      vol,
      λ b o. blank_bytes g k v k3.byte first (sec_per_clus g) b o dots small unit (bytes b o),
    )

get_or-left : (xs ys : List ℕ) (u : ℕ) → u < length xs → get_or (xs ++ ys) u 0 ≡ get_or xs u 0
get_or-left [] ys u h = absurd (omega arith)
get_or-left (x ∷ xs) ys zero h = refl
get_or-left (x ∷ xs) ys (suc u) h = get_or-left xs ys u (omega arith)

get_or-right : (xs ys : List ℕ) (u : ℕ) → get_or (xs ++ ys) (u + length xs) 0 ≡ get_or ys u 0
get_or-right [] ys u = let same : u + 0 ≡ u = omega arith in ap (λ i. get_or ys i 0) same
get_or-right (x ∷ xs) ys u =
    let step : u + suc (length xs) ≡ suc (u + length xs) = omega arith in
    ap (λ i. get_or (x ∷ (xs ++ ys)) i 0) step ∙ get_or-right xs ys u

-- The names of "." and "..", filled up with blanks.
abbrev pub dot_name : List ℕ
dot_name = 46 ∷ 32 ∷ 32 ∷ 32 ∷ 32 ∷ 32 ∷ 32 ∷ 32 ∷ 32 ∷ 32 ∷ 32 ∷ []

abbrev pub dot_dot_name : List ℕ
dot_dot_name = 46 ∷ 46 ∷ 32 ∷ 32 ∷ 32 ∷ 32 ∷ 32 ∷ 32 ∷ 32 ∷ 32 ∷ 32 ∷ []

-- The entry at `a` is a directory with this name, of no size, which begins at cluster `start`, and
-- was changed at `t`; on vfat also made and read at `t`.
pub record IsDotEntry (isvfat : Bool) (t : FatTime) (k : Disk) (a : Address) (name : List ℕ)
    (start : ℕ) : Type 0 where
  pub named : (u : ℕ) → u < 11 → k.byte a.0 (a.1 + u) ≡ get_or name u 0
  pub directory : attr_at k a ≡ 16
  pub begins : le16 k a 26 + le16 k a 20 * 2 ^ 16 ≡ start
  pub no_size : le32 k a 28 ≡ 0
  pub changed : (le16 k a 22 ≡ t.time) × (le16 k a 24 ≡ t.date)
  pub made :
      (k.byte a.0 (a.1 + 13) ≡ (if isvfat then t.time_cs else 0))
      × (le16 k a 14 ≡ (if isvfat then t.time else 0))
      × (le16 k a 16 ≡ (if isvfat then t.date else 0))
  pub read : le16 k a 18 ≡ (if isvfat then t.date else 0)

abbrev name_of : Bool → List ℕ
name_of two = if two then dot_dot_name else dot_name

-- The bytes of an entry make a word.
word_lem :
    (k : Disk) (a : Address) (c w : ℕ)
    → k.byte a.0 (a.1 + c) ≡ w % 2 ^ 8
    → k.byte a.0 (a.1 + (c + 1)) ≡ w / 2 ^ 8 % 2 ^ 8
    → le16 k a c ≡ w % 2 ^ 16
unfolding le16
word_lem k a c w l h = omega (arith, l, h)

-- A time or a date, or 0 where there is none.
word_if :
    (k : Disk) (a : Address) (c w : ℕ) (set : Bool)
    → w < 2 ^ 16
    → k.byte a.0 (a.1 + c) ≡ (if set then w else 0) % 2 ^ 8
    → k.byte a.0 (a.1 + (c + 1)) ≡ (if set then w else 0) / 2 ^ 8 % 2 ^ 8
    → le16 k a c ≡ (if set then w else 0)
word_if k a c w true h l m = word_lem k a c w l m ∙ omega arith
word_if k a c w false h l m = word_lem k a c 0 l m

-- What follows the name in an entry.
abbrev after_name : Bool → FatTime → ℕ → List ℕ
after_name isvfat t start =
    (16 ∷ 0 ∷ (if isvfat then t.time_cs else 0) ∷ [])
    ++ word_bytes (if isvfat then t.time else 0)
    ++ word_bytes (if isvfat then t.date else 0)
    ++ word_bytes (if isvfat then t.date else 0)
    ++ word_bytes (start / 2 ^ 16)
    ++ word_bytes t.time
    ++ word_bytes t.date
    ++ word_bytes start
    ++ (0 ∷ 0 ∷ 0 ∷ 0 ∷ [])

name_lem :
    (two isvfat : Bool) (t : FatTime) (start u : ℕ)
    → u < 11
    → get_or (dot_entry two isvfat t start) u 0 ≡ get_or (name_of two) u 0
unfolding dot_entry
name_lem true isvfat t start u h =
    get_or-left (dots true) (after_name isvfat t start) u (omega arith)
name_lem false isvfat t start u h =
    get_or-left (dots false) (after_name isvfat t start) u (omega arith)

-- Where the two entries stand in the bytes of both.
first_entry :
    (isvfat : Bool) (t : FatTime) (cluster parent u : ℕ)
    → u < 32
    → get_or (dot_bytes isvfat t cluster parent) (0 + u) 0
      ≡ get_or (dot_entry false isvfat t cluster) u 0
unfolding dot_entry
first_entry isvfat t cluster parent u h =
    let at : 0 + u ≡ u = omega arith in
    ap (λ i. get_or (dot_bytes isvfat t cluster parent) i 0) at
    ∙ get_or-left (dot_entry false isvfat t cluster) (dot_entry true isvfat t parent) u
        (omega arith)

second_entry :
    (isvfat : Bool) (t : FatTime) (cluster parent u : ℕ)
    → get_or (dot_bytes isvfat t cluster parent) (32 + u) 0
      ≡ get_or (dot_entry true isvfat t parent) u 0
unfolding dot_entry
second_entry isvfat t cluster parent u =
    let at : 32 + u ≡ u + length (dot_entry false isvfat t cluster) = omega arith in
    ap (λ i. get_or (dot_bytes isvfat t cluster parent) i 0) at
    ∙ get_or-right (dot_entry false isvfat t cluster) (dot_entry true isvfat t parent) u

entry_lem :
    (two isvfat : Bool) (t : FatTime) (k : Disk) (a : Address) (start : ℕ)
    → t.time < 2 ^ 16
    → t.date < 2 ^ 16
    → start < 2 ^ 32
    → ((u : ℕ) → u < 32 → k.byte a.0 (a.1 + u) ≡ get_or (dot_entry two isvfat t start) u 0)
    → IsDotEntry isvfat t k a (name_of two) start
unfolding dot_entry attr_at le32
entry_lem two isvfat t k a start time date cluster h = record {
  named = λ u l. h u (omega arith) ∙ name_lem two isvfat t start u l;
  directory = h 11 (omega arith);
  begins = omega (
    arith,
    word_lem k a 26 start (h 26 (omega arith)) (h 27 (omega arith)),
    word_lem k a 20 (start / 2 ^ 16) (h 20 (omega arith)) (h 21 (omega arith)),
    cluster,
  );
  no_size = omega (
    arith,
    word_lem k a 28 0 (h 28 (omega arith)) (h 29 (omega arith)),
    word_lem k a 30 0 (h 30 (omega arith)) (h 31 (omega arith)),
  );
  changed = (
    word_if k a 22 (t.time) true time (h 22 (omega arith)) (h 23 (omega arith)),
    word_if k a 24 (t.date) true date (h 24 (omega arith)) (h 25 (omega arith)),
  );
  made = (
    h 13 (omega arith),
    word_if k a 14 (t.time) isvfat time (h 14 (omega arith)) (h 15 (omega arith)),
    word_if k a 16 (t.date) isvfat date (h 16 (omega arith)) (h 17 (omega arith)),
  );
  read = word_if k a 18 (t.date) isvfat date (h 18 (omega arith)) (h 19 (omega arith));
}

-- Where a cluster can be allocated, its blocks can be had and the writes that the directory asks
-- for succeed, `fat_alloc_new_dir` returns the cluster. For blocks of at least 64 bytes, a cluster
-- of at least one block, and numbers of clusters, a time and a date that fit their fields, it
-- begins with an entry "." for the cluster itself and one ".." for the cluster of the parent, both
-- directories of the given time; all other bytes of its blocks are 0, and the bytes of all other
-- blocks are as before.
pub fat_alloc_new_dir_blank :
    (d : Device) (g : Geometry) (needs_sync isvfat : Bool) (t : FatTime) (k : Disk) (dir : FatInode)
    (c : ℕ) (v : Volume)
    → Gets d dir
    → 64 ≤ blocksize g
    → 1 ≤ sec_per_clus g
    → t.time < 2 ^ 16
    → t.date < 2 ^ 16
    → c < 2 ^ 32
    → dir.i_logstart < 2 ^ 32
    → fat_alloc_clusters d g k.vol needs_sync 1 ≡ (ok (c ∷ []), v)
    → (let (r, k') = fat_alloc_new_dir d g needs_sync isvfat t k dir in
        let first = fat_clus_to_blknr g c in
        (r ≡ ok c)
        × (k'.vol ≡ v)
        × IsDotEntry isvfat t k' (first, 0) dot_name c
        × IsDotEntry isvfat t k' (first, 32) dot_dot_name dir.i_logstart
        × ((b o : ℕ)
            → (first == b && ltb o 64) ≡ false
            → k'.byte b o ≡ (if in_blocks g first (sec_per_clus g) b o then 0 else k.byte b o)))
fat_alloc_new_dir_blank d g needs_sync isvfat t k dir c v r small unit time date own parent alloc =
    let first : ℕ = fat_clus_to_blknr g c in
    let (done, vol, bytes) = new_dir_bytes d g needs_sync isvfat t k dir c v r small unit alloc in
    let k' = (fat_alloc_new_dir d g needs_sync isvfat t k dir).1 in
    let dot_at : (o : ℕ)
        → o < 64
        → k'.byte first o ≡ get_or (dot_bytes isvfat t c dir.i_logstart) o 0 =
      λ o l. bytes first o ∙ ground arith in
    (
      done,
      vol,
      entry_lem false isvfat t k' (first, 0) c time date own
          (λ u l. dot_at (0 + u) (omega arith) ∙ first_entry isvfat t c (dir.i_logstart) u l),
      entry_lem true isvfat t k' (first, 32) (dir.i_logstart) time date parent
          (λ u l. dot_at (32 + u) (omega arith) ∙ second_entry isvfat t c (dir.i_logstart) u),
      λ b o h. bytes b o ∙ rw h refl,
    )
