-- ===== src/Name.antt =====
-- `msdos_format_name` of ATS/myfat/msdos_misc.h: from a file name to the eleven bytes of a
-- directory entry.
pub mod Format
mod Tests
use ats_ldd.Base.{
  ℕ, zero, suc, ◌+◌, ◌-◌, Bool, true, false, List, [], ◌∷◌, ◌++◌, Result, ok, err, oops, einval,
  Option, none, some, if◌then◌else◌, ◌==◌, ltb, leb, not, ◌&&◌, ◌||◌, has, length,
}

-- `opts->name_check`, one of r, n and s.
pub data NameCheck : Type 0 where
  relaxed normal strict : NameCheck

pub record NameOptions : Type 0 where
  pub name_check : NameCheck
  pub dots_ok : Bool
  pub nocase : Bool

abbrev pub is_relaxed : NameCheck → Bool
is_relaxed relaxed = true
is_relaxed normal = false
is_relaxed strict = false

abbrev pub is_strict : NameCheck → Bool
is_strict relaxed = false
is_strict normal = false
is_strict strict = true

-- The strings `bad_chars` and `bad_if_strict`, with the 0 at their end, which `strchr` finds too.
abbrev pub bad_chars : List ℕ
bad_chars = 42 ∷ 63 ∷ 60 ∷ 62 ∷ 124 ∷ 34 ∷ 0 ∷ []

abbrev pub bad_if_strict : List ℕ
bad_if_strict = 43 ∷ 61 ∷ 44 ∷ 59 ∷ 32 ∷ 0 ∷ []

-- The tests on a character that end in `-EINVAL`.
unfoldable pub is_bad : NameOptions → ℕ → Bool
is_bad o c =
    (not (is_relaxed o.name_check) && has c bad_chars)
    || (is_strict o.name_check && has c bad_if_strict)
    || (leb 65 c && leb c 90 && is_strict o.name_check)
    || ltb c 32
    || (c == 58)
    || (c == 92)

-- The character as it is stored.
unfoldable pub stored : NameOptions → ℕ → ℕ
stored o c = if not o.nocase && leb 97 c && leb c 122 then c - 32 else c

-- Where a loop stops: the bytes stored, the last character read, `space`, and the rest of the name.
pub record Walk : Type 0 where
  pub res : List ℕ
  pub c : ℕ
  pub space : Bool
  pub rest : List ℕ

-- The first loop, on the rest of the name and the room that is left; 0xE5 is replaced in front.
unfoldable pub base_loop : NameOptions → List ℕ → ℕ → Walk → Option Walk
base_loop o name zero w = some (record w { rest = name })
base_loop o [] (suc room) w = some (record w { rest = [] })
base_loop o (c ∷ cs) (suc room) w =
    let c' = if (length w.res == 0) && (c == 229) then 5 else c in
    let more =
      base_loop o cs room
        (record { res = w.res ++ (stored o c' ∷ []); c = c'; space = c' == 32; rest = cs }) in
    if is_bad o c then none else if c' == 46 then some (record w { c = 46; rest = cs }) else more

-- `while (c != '.' && len--) c = *name++;`
unfoldable pub skip_to_dot : ℕ → List ℕ → ℕ × List ℕ
skip_to_dot c [] = (c, [])
skip_to_dot c (x ∷ xs) = let further = skip_to_dot x xs in if c == 46 then (c, x ∷ xs) else further

-- The loop over the extension.
unfoldable pub ext_loop : NameOptions → List ℕ → ℕ → Walk → Option Walk
ext_loop o name zero w = some (record w { rest = name })
ext_loop o [] (suc room) w = some (record w { rest = [] })
ext_loop o (c ∷ cs) (suc room) w =
    let more =
      ext_loop o cs room
        (record { res = w.res ++ (stored o c ∷ []); c = c; space = c == 32; rest = cs }) in
    if is_bad o c
    then none
    else if c == 46
    then (if is_strict o.name_check then none else some (record w { c = c; rest = cs }))
    else more

-- Blanks up to a length.
unfoldable pub blanks : ℕ → List ℕ
blanks zero = []
blanks (suc n) = 32 ∷ blanks n

unfoldable pub pad : ℕ → List ℕ → List ℕ
pad n res = res ++ blanks (n - length res)

-- From `if (c == '.')` on.
unfoldable pub format_ext : NameOptions → List ℕ → ℕ → List ℕ → Bool → Result (List ℕ)
unfolding pad
format_ext o res c rest space =
    if c == 46
    then elim (ext_loop o rest 3 (record { res = pad 8 res; c = c; space = space; rest = rest })) [
      | none ↦ err einval
      | some w ↦
          if w.space || (is_strict o.name_check && not (length w.rest == 0))
          then err einval
          else ok (pad 11 w.res)
    ]
    else ok (pad 11 res)

-- The part after the first loop; a strict check wants a dot right after eight characters.
unfoldable pub format_rest : NameOptions → Walk → Result (List ℕ)
unfolding format_ext
format_rest o w =
    if w.space
    then err einval
    else elim (if is_strict o.name_check && not (w.c == 46) then w.rest else []) [
      | [] ↦ (let (c, rest) = skip_to_dot w.c w.rest in format_ext o w.res c rest w.space)
      | c ∷ cs ↦ if not (c == 46) then err einval else format_ext o w.res c cs w.space
    ]

-- The name without the dot in front.
unfoldable pub undotted : NameOptions → List ℕ → Result (List ℕ)
undotted o [] = ok []
undotted o (c ∷ cs) = if not (c == 46) then ok (c ∷ cs) else if o.dots_ok then ok cs else err einval

unfoldable pub msdos_format_name : NameOptions → List ℕ → Result (List ℕ)
unfolding undotted format_rest
msdos_format_name o name = elim (undotted o name) [
  | err e ↦ err e
  | oops ↦ err einval
  | ok name' ↦ elim (base_loop o name' 8 (record { res = []; c = 0; space = true; rest = [] })) [
    | none ↦ err einval
    | some w ↦ format_rest o w
  ]
]
