-- ===== src/Name/Tests.antt =====
-- The name `.ab.C` with leading dots allowed.
use ats_ldd.Base.{ℕ, ◌≡◌, refl, true, false, List, [], ◌∷◌, ok}
use ats_ldd.Name.{
  NameOptions, normal, msdos_format_name, base_loop, ext_loop, skip_to_dot, blanks, is_bad, stored,
}
use ats_ldd.Name.Format.{Formatted, msdos_format_name-Formatted}

abbrev options : NameOptions
options = record { name_check = normal; dots_ok = true; nocase = false }

abbrev formatted_ab : List ℕ
formatted_ab = 65 ∷ 66 ∷ 32 ∷ 32 ∷ 32 ∷ 32 ∷ 32 ∷ 32 ∷ 67 ∷ 32 ∷ 32 ∷ []

format_ab : msdos_format_name options (46 ∷ 97 ∷ 98 ∷ 46 ∷ 67 ∷ []) ≡ ok formatted_ab
unfolding msdos_format_name base_loop ext_loop skip_to_dot blanks is_bad stored
format_ab = refl

msdos_format_name-Formatted_example : Formatted options formatted_ab
msdos_format_name-Formatted_example =
    msdos_format_name-Formatted options (46 ∷ 97 ∷ 98 ∷ 46 ∷ 67 ∷ []) formatted_ab format_ab
