-- ===== src/Lookup/Tests.antt =====
-- Names that mean the same.
use ats_ldd.Base.{ℕ, ◌≡◌, ◌+◌, refl, true, false, List, [], ◌∷◌, length}
use ats_ldd.Name.{
  NameOptions, normal, msdos_format_name, base_loop, is_bad, stored, skip_to_dot, ext_loop, blanks,
}
use ats_ldd.Lookup.{msdos_cmp, msdos_hash, same_bytes}
use ats_ldd.Lookup.Names.{msdos_cmp-msdos_hash}

abbrev options : NameOptions
options = record { name_check = normal; dots_ok = false; nocase = false }

-- "a" and "A".
same_letter : msdos_cmp options (97 ∷ []) (65 ∷ []) ≡ true
unfolding msdos_cmp msdos_format_name same_bytes base_loop is_bad stored skip_to_dot ext_loop blanks
same_letter = refl

other_letter : msdos_cmp options (97 ∷ []) (66 ∷ []) ≡ false
unfolding msdos_cmp msdos_format_name same_bytes base_loop is_bad stored skip_to_dot ext_loop blanks
other_letter = refl

abbrev total : List ℕ → ℕ
total [] = 0
total (x ∷ xs) = x + total xs

msdos_cmp-msdos_hash_example :
    msdos_hash total options (length {A = ℕ} (97 ∷ [])) (97 ∷ [])
    ≡ msdos_hash total options (length {A = ℕ} (65 ∷ [])) (65 ∷ [])
msdos_cmp-msdos_hash_example =
    msdos_cmp-msdos_hash total options length (97 ∷ []) (65 ∷ []) same_letter
