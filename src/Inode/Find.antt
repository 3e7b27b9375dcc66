-- ===== src/Inode/Find.antt =====
-- The table of ATS/myfat/fat_inode.c against a map from positions to inodes.
use ats_ldd.Base.{
  ℕ, ◌≡◌, ◌≢◌, inl, inr, refl, sym, ap, ◌∙◌, Bool, true, false, List, [], ◌∷◌, none, some,
  if◌then◌else◌, ◌==◌, has, arith, Bool-cases, ℕ_discrete, ==_refl,
}
use ats_ldd.Inode.{InodeTable, set, remove, find_grabbed, fat_iget, fat_detach, fat_attach}

-- An inode that is in no bucket.
abbrev pub Fresh : InodeTable → ℕ → Type 0
Fresh t i = (h : ℕ) → has i (t.bucket h) ≡ false

-- What the operations keep: each inode is in the bucket of its position, and of those that `igrab`
-- grants no two have the same position.
pub record IsHashed (hash : ℕ → ℕ) (t : InodeTable) : Type 0 where
  pub placed : (h i : ℕ) → has i (t.bucket h) ≡ true → hash (t.i_pos i) ≡ h
  pub single :
      (h i j : ℕ)
      → has i (t.bucket h) ≡ true
      → has j (t.bucket h) ≡ true
      → t.igrab i ≡ true
      → t.igrab j ≡ true
      → t.i_pos i ≡ t.i_pos j
      → i ≡ j

pub found_lem :
    (hash : ℕ → ℕ) (t : InodeTable) (p : ℕ)
    → (fat_iget hash t p).0 ≡ find_grabbed t.igrab t.i_pos p (t.bucket (hash p))
unfolding fat_iget
found_lem hash t p = ground arith

-- Inodes elsewhere do not matter to the search of a bucket.
find-set :
    (igrab : ℕ → Bool) (at : ℕ → ℕ) (p i x : ℕ) (is : List ℕ)
    → has i is ≡ false
    → find_grabbed igrab (set at i x) p is ≡ find_grabbed igrab at p is
unfolding find_grabbed
find-set igrab at p i x [] h = refl
find-set igrab at p i x (j ∷ js) h =
    let rest = find-set igrab at p i x js (ground arith) in
    let other : (i == j) ≡ false = ground arith in ground arith

pub remove-has :
    (i j : ℕ) (is : List ℕ) → has j (remove i is) ≡ true → (has j is ≡ true) × ((i == j) ≡ false)
unfolding remove
remove-has i j [] h = absurd (ground arith)
remove-has i j (x ∷ xs) h = elim (Bool-cases (has j (remove i xs))) [
  | inl y ↦ let (a, b) = remove-has i j xs y in (ground arith, b)
  | inr y ↦ (ground arith, ground arith)
]

-- The search without an inode of another position.
find-remove_other :
    (igrab : ℕ → Bool) (at : ℕ → ℕ) (p i : ℕ) (is : List ℕ)
    → at i ≢ p
    → find_grabbed igrab (set at i 0) p (remove i is) ≡ find_grabbed igrab at p is
unfolding find_grabbed remove
find-remove_other igrab at p i [] h = refl
find-remove_other igrab at p i (j ∷ js) h =
    let rest = find-remove_other igrab at p i js h in
    elim (ℕ_discrete i j) [
      | yes e ↦ let same : at i ≡ at j = ap at e in ground arith
      | no ne ↦ ground arith
    ]

-- Nothing is found where none of the inodes that `igrab` grants has the position.
find-none :
    (igrab : ℕ → Bool) (at : ℕ → ℕ) (p : ℕ) (is : List ℕ)
    → ((j : ℕ) → has j is ≡ true → igrab j ≡ true → at j ≢ p)
    → find_grabbed igrab at p is ≡ none
unfolding find_grabbed
find-none igrab at p [] h = refl
find-none igrab at p (j ∷ js) h =
    let rest = find-none igrab at p js (λ k a b. h k (ground arith) b) in
    elim (Bool-cases (igrab j)) [
      | inl y ↦ let away = h j (ground (arith, ==_refl j)) y in ground arith
      | inr y ↦ ground arith
    ]

pub find-none_back :
    (igrab : ℕ → Bool) (at : ℕ → ℕ) (p : ℕ) (is : List ℕ) (j : ℕ)
    → find_grabbed igrab at p is ≡ none
    → has j is ≡ true
    → igrab j ≡ true
    → at j ≢ p
unfolding find_grabbed
find-none_back igrab at p [] j h a b = absurd (ground arith)
find-none_back igrab at p (i ∷ is) j h a b = elim (ℕ_discrete j i) [
  | yes e ↦ let same = ap at e in let ok = ap igrab e in ground arith
  | no ne ↦ find-none_back igrab at p is j (ground arith) (ground arith) b
]

-- After `fat_attach` of an inode that is in no bucket and that `igrab` grants, `fat_iget` finds
-- this inode at its position, and at every other position what it found before.
pub fat_iget-fat_attach :
    (hash : ℕ → ℕ) (t : InodeTable) (i pos p : ℕ)
    → Fresh t i
    → t.igrab i ≡ true
    → (fat_iget hash (fat_attach hash t i pos) p).0
      ≡ (if p == pos then some i else (fat_iget hash t p).0)
unfolding fat_attach find_grabbed
fat_iget-fat_attach hash t i pos p fresh ok =
    let old = found_lem hash t p in
    let new = found_lem hash (fat_attach hash t i pos) p in
    let kept = find-set t.igrab t.i_pos p i pos (t.bucket (hash p)) (fresh (hash p)) in
    new ∙ (elim (ℕ_discrete p pos) [
      | yes e ↦ let same = ap hash e in ground (arith, ==_refl i)
      | no ne ↦ ground (arith, ==_refl i)
    ])

-- In a table that the operations keep, after `fat_detach` of an inode that `igrab` grants and that
-- is in the bucket of its position, `fat_iget` finds nothing at this position, and at every other
-- position what it found before.
pub fat_iget-fat_detach :
    (hash : ℕ → ℕ) (t : InodeTable) (i p : ℕ)
    → IsHashed hash t
    → t.igrab i ≡ true
    → has i (t.bucket (hash (t.i_pos i))) ≡ true
    → (fat_iget hash (fat_detach t i) p).0
      ≡ (if p == t.i_pos i then none else (fat_iget hash t p).0)
unfolding fat_detach
fat_iget-fat_detach hash t i p hashed ok in_it =
    let old = found_lem hash t p in
    let new = found_lem hash (fat_detach t i) p in
    new ∙ (elim (ℕ_discrete p (t.i_pos i)) [
      | no ne ↦
          let rest = find-remove_other t.igrab t.i_pos p i (t.bucket (hash p)) (λ e. ne (sym e)) in
          ground arith
      | yes e ↦
          let none_left : find_grabbed t.igrab (set t.i_pos i 0) p (remove i (t.bucket (hash p)))
              ≡ none =
            find-none t.igrab (set t.i_pos i 0) p (remove i (t.bucket (hash p)))
              (λ j there grant same.
                let (was, other) = remove-has i j (t.bucket (hash p)) there in
                let at : t.i_pos i ≡ t.i_pos j = ground arith in
                let both_in : has i (t.bucket (hash p)) ≡ true =
                  ap (λ (x : ℕ). has i (t.bucket (hash x))) e ∙ in_it in
                absurd (ground (arith, hashed.single (hash p) i j both_in was ok grant at))) in
          ground arith
    ])
