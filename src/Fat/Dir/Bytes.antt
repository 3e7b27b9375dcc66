-- ===== src/Fat/Dir/Bytes.antt =====
-- What the walks of ATS/myfat/fat_dir.c see of an entry is determined by its bytes.
use ats_ldd.Base.{ℕ, zero, suc, ◌+◌, ◌<◌, ◌≡◌, refl, ap, ap₂, ◌∙◌, Bool, ◌&&◌, List, [], ◌∷◌, arith}
use ats_ldd.Fat.Dir.{Disk, Address, is_free, is_short, attr_at, same_name, msdos_name, entry_size}

-- The entry at an address has the same bytes on both disks.
abbrev pub SameBytes : Disk → Disk → Address → Type 0
SameBytes k k' a = (c : ℕ) → c < entry_size → k'.byte a.0 (a.1 + c) ≡ k.byte a.0 (a.1 + c)

same_name-congr :
    (k k' : Disk) (b o n : ℕ) (name : List ℕ)
    → ((u : ℕ) → u < n → k'.byte b (o + u) ≡ k.byte b (o + u))
    → same_name k' b o n name ≡ same_name k b o n name
unfolding same_name
same_name-congr k k' b o zero name same = refl
same_name-congr k k' b o (suc n) [] same =
    let here : k'.byte b o ≡ k.byte b o =
      ap (k'.byte b) (omega arith) ∙ same 0 (omega arith) ∙ ap (k.byte b) (omega arith) in
    ground arith
same_name-congr k k' b o (suc n) (c ∷ cs) same =
    let here : k'.byte b o ≡ k.byte b o =
      ap (k'.byte b) (omega arith) ∙ same 0 (omega arith) ∙ ap (k.byte b) (omega arith) in
    let rest = same_name-congr k k' b (o + 1) n cs (λ u h.
      ap (k'.byte b) (omega arith) ∙ same (suc u) (omega arith) ∙ ap (k.byte b) (omega arith)) in
    ground arith

is_short-SameBytes : (k k' : Disk) (a : Address) → SameBytes k k' a → is_short k' a ≡ is_short k a
unfolding is_short is_free attr_at
is_short-SameBytes k k' a same =
    let name : k'.byte a.0 a.1 ≡ k.byte a.0 a.1 =
      ap (k'.byte a.0) (omega arith) ∙ same 0 (omega arith) ∙ ap (k.byte a.0) (omega arith) in
    let attr = same 11 (omega arith) in ground arith

-- Whether the entry is short and bears a name.
pub same_name-SameBytes :
    (k k' : Disk) (a : Address) (name : List ℕ)
    → SameBytes k k' a
    → (is_short k' a && same_name k' a.0 a.1 msdos_name name)
      ≡ (is_short k a && same_name k a.0 a.1 msdos_name name)
same_name-SameBytes k k' a name same =
    ap₂ (λ (x y : Bool). x && y) (is_short-SameBytes k k' a same)
      (same_name-congr k k' a.0 a.1 msdos_name name (λ u l. same u (omega arith)))
