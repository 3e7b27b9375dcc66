-- ===== src/Lookup/Names.antt =====
-- The names of ATS/myfat/msdos_dentry.c and what `msdos_find` of ATS/myfat/msdos_inode.c accepts.
use ats_ldd.Base.{ℕ, ◌≡◌, refl, ap, true, List, [], ◌∷◌, Result, ok, err, oops, arith}
use ats_ldd.Name.{NameOptions, msdos_format_name}
use ats_ldd.Lookup.{same_bytes, msdos_hash, msdos_cmp}

same_bytes_sound : (a b : List ℕ) → same_bytes a b ≡ true → a ≡ b
unfolding same_bytes
same_bytes_sound [] [] h = refl
same_bytes_sound [] (y ∷ ys) h = absurd (ground arith)
same_bytes_sound (x ∷ xs) [] h = absurd (ground arith)
same_bytes_sound (x ∷ xs) (y ∷ ys) h =
    let rest = same_bytes_sound xs ys (ground arith) in
    let here : x ≡ y = ground arith in ground (arith, rest, here)

-- What the two names were made of, or that they are the same.
compared_lem :
    (full_name_hash : List ℕ → ℕ) (o : NameOptions) (given : List ℕ → ℕ) (a b : List ℕ)
    (ra rb : Result (List ℕ))
    → msdos_format_name o a ≡ ra
    → msdos_format_name o b ≡ rb
    → msdos_cmp o a b ≡ true
    → msdos_hash full_name_hash o (given a) a ≡ msdos_hash full_name_hash o (given b) b
unfolding msdos_cmp msdos_hash
compared_lem f o given a b (ok a') (ok b') ea eb h =
    let same = same_bytes_sound a' b' (ground arith) in let hashes = ap f same in ground arith
compared_lem f o given a b (ok a') (err e) ea eb h =
    let same = same_bytes_sound a b (ground arith) in
    ap (λ (x : List ℕ). msdos_hash f o (given x) x) same
compared_lem f o given a b (ok a') oops ea eb h =
    let same = same_bytes_sound a b (ground arith) in
    ap (λ (x : List ℕ). msdos_hash f o (given x) x) same
compared_lem f o given a b (err e) rb ea eb h =
    let same = same_bytes_sound a b (ground arith) in
    ap (λ (x : List ℕ). msdos_hash f o (given x) x) same
compared_lem f o given a b oops rb ea eb h =
    let same = same_bytes_sound a b (ground arith) in
    ap (λ (x : List ℕ). msdos_hash f o (given x) x) same

-- Where the hash that a name comes with depends on its bytes only: two names that `msdos_cmp` takes
-- for the same get the same hash from `msdos_hash`, names that cannot be formatted included.
pub msdos_cmp-msdos_hash :
    (full_name_hash : List ℕ → ℕ) (o : NameOptions) (given : List ℕ → ℕ) (a b : List ℕ)
    → msdos_cmp o a b ≡ true
    → msdos_hash full_name_hash o (given a) a ≡ msdos_hash full_name_hash o (given b) b
msdos_cmp-msdos_hash f o given a b h =
    compared_lem f o given a b (msdos_format_name o a) (msdos_format_name o b) refl refl h
