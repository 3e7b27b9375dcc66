-- ===== src/Name/Format.antt =====
-- What `msdos_format_name` of ATS/myfat/msdos_misc.h accepts and stores.
use ats_ldd.Base.{
  ℕ, zero, suc, ◌+◌, ◌-◌, ◌≤◌, ◌≡◌, ◌≢◌, ◌<◌, get_or, refl, ap, Bool, true, false, List, [], ◌∷◌,
  ◌++◌, Result, ok, err, oops, some, if◌then◌else◌, ◌==◌, leb, not, ◌&&◌, ◌||◌, length,
  length-append, All, arith, Bool-cases, inl, inr, Option-cases, subst, sym,
}
use ats_ldd.Name.{
  NameOptions, is_bad, is_strict, stored, Walk, base_loop, skip_to_dot, ext_loop, blanks, pad,
  format_ext, format_rest, undotted, msdos_format_name,
}

-- A byte of a directory entry's name: no control character but 5, no dot, colon or backslash, and
-- no lower case letter unless case is kept.
unfoldable pub is_legal : NameOptions → ℕ → Bool
is_legal o c =
    (leb 32 c || (c == 5))
    && not (c == 46)
    && not (c == 58)
    && not (c == 92)
    && (o.nocase || not (leb 97 c && leb c 122))

Legal : NameOptions → List ℕ → Type 0
Legal o bytes = All (λ c. is_legal o c ≡ true) bytes

Legal-append : (o : NameOptions) (xs ys : List ℕ) → Legal o xs → Legal o ys → Legal o (xs ++ ys)
unfolding Legal
Legal-append o [] ys h k = k
Legal-append o (x ∷ xs) ys h k = (h.0, Legal-append o xs ys h.1 k)

blanks-Legal : (o : NameOptions) (n : ℕ) → Legal o (blanks n)
unfolding Legal blanks is_legal
blanks-Legal o zero = tt
blanks-Legal o (suc n) = (ground arith, blanks-Legal o n)

length-blanks : (n : ℕ) → length (blanks n) ≡ n
unfolding blanks
length-blanks zero = refl
length-blanks (suc n) = ap suc (length-blanks n)

length-pad : (n : ℕ) (res : List ℕ) → length res ≤ n → length (pad n res) ≡ n
unfolding pad
length-pad n res h =
    omega (arith, length-append res (blanks (n - length res)), length-blanks (n - length res))

pad-Legal : (o : NameOptions) (n : ℕ) (res : List ℕ) → Legal o res → Legal o (pad n res)
unfolding pad
pad-Legal o n res h =
    Legal-append o res (blanks (n - length res)) h (blanks-Legal o (n - length res))

stored-is_legal :
    (o : NameOptions) (c : ℕ) → is_bad o c ≡ false → c ≢ 46 → is_legal o (stored o c) ≡ true
unfolding is_bad is_legal stored
stored-is_legal o c h k = ground arith

snoc :
    (o : NameOptions) (res : List ℕ) (c : ℕ)
    → Legal o res
    → is_legal o c ≡ true
    → Legal o (res ++ (c ∷ []))
unfolding Legal
snoc o res c h k = Legal-append o res (c ∷ []) h (k, tt)

-- The first byte, if there is one, is not 0xE5, with which an entry is deleted.
Alive : List ℕ → Type 0
Alive res = get_or res 0 32 ≢ 229

Alive-snoc :
    (res : List ℕ) (c : ℕ) → (length res ≡ 0 → c ≢ 229) → Alive res → Alive (res ++ (c ∷ []))
unfolding Alive
Alive-snoc [] c h k = h refl
Alive-snoc (x ∷ xs) c h k = k

blanks-Alive : (n : ℕ) → Alive (blanks n)
unfolding Alive blanks
blanks-Alive zero = omega arith
blanks-Alive (suc n) = omega arith

pad-Alive : (n : ℕ) (res : List ℕ) → Alive res → Alive (pad n res)
unfolding Alive pad
pad-Alive n [] h = blanks-Alive (n - 0)
pad-Alive n (x ∷ xs) h = h

-- The bytes of a walk that a loop may have gone on from.
Filled : NameOptions → ℕ → Walk → Type 0
Filled o n w = Legal o w.res × (length w.res ≤ n) × Alive w.res

Filled-same :
    (o : NameOptions) (n m : ℕ) (w w' : Walk)
    → w'.res ≡ w.res
    → m ≤ n
    → Filled o m w
    → Filled o n w'
unfolding Filled
Filled-same o n m w w' e k (legal, few, alive) =
    (subst (Legal o) (sym e) legal, ground arith, subst Alive (sym e) alive)

length-snoc : (res : List ℕ) (c : ℕ) → length (res ++ (c ∷ [])) ≡ length res + 1
length-snoc res c = length-append res (c ∷ [])

grow :
    (o : NameOptions) (n : ℕ) (w : Walk) (c : ℕ) (next : Walk)
    → next.res ≡ w.res ++ (stored o c ∷ [])
    → is_legal o (stored o c) ≡ true
    → (length w.res ≡ 0 → stored o c ≢ 229)
    → Filled o n w
    → Filled o (n + 1) next
unfolding Filled
grow o n w c next e k front (legal, few, alive) = (
  subst (Legal o) (sym e) (snoc o w.res (stored o c) legal k),
  ground (arith, length-snoc w.res (stored o c)),
  subst Alive (sym e) (Alive-snoc w.res (stored o c) front alive),
)

-- The 5 in front is legal, too.
first_legal :
    (o : NameOptions) (first : Bool) (c : ℕ)
    → is_bad o c ≡ false
    → ((if first then 5 else c) == 46) ≡ false
    → is_legal o (stored o (if first then 5 else c)) ≡ true
unfolding is_legal stored
first_legal o true c fine no_dot = ground arith
first_legal o false c fine no_dot = stored-is_legal o c fine (ground arith)

-- A 0xE5 in front is a 5.
front_lem :
    (o : NameOptions) (n c : ℕ) → n ≡ 0 → stored o (if (n == 0) && (c == 229) then 5 else c) ≢ 229
unfolding stored
front_lem o n c h = ground arith

base_lem :
    (o : NameOptions) (name : List ℕ) (room n : ℕ) (w w' : Walk)
    → Filled o n w
    → base_loop o name room w ≡ some w'
    → Filled o (n + room) w'
unfolding base_loop
base_lem o name zero n w w' h e = Filled-same o (n + 0) n w w' (ground arith) (omega arith) h
base_lem o [] (suc room) n w w' h e =
    Filled-same o (n + suc room) n w w' (ground arith) (omega arith) h
base_lem o (c ∷ cs) (suc room) n w w' h e =
    let c' : ℕ = if (length w.res == 0) && (c == 229) then 5 else c in
    elim (Bool-cases (is_bad o c)) [
      | inl bad ↦ absurd (ground arith)
      | inr fine ↦ elim (Bool-cases (c' == 46)) [
        | inl dot ↦ Filled-same o (n + suc room) n w w' (ground arith) (omega arith) h
        | inr no_dot ↦
            let next : Walk = record {
              res = w.res ++ (stored o c' ∷ []);
              c = c';
              space = c' == 32;
              rest = cs;
            } in
            Filled-same o (n + suc room) (n + 1 + room) w' w' refl (omega arith) (
              base_lem o cs room (n + 1) next w'
                (grow o n w c' next refl
                  (first_legal o ((length w.res == 0) && (c == 229)) c fine no_dot)
                  (front_lem o (length w.res) c) h)
                (ground arith))
      ]
    ]

ext_lem :
    (o : NameOptions) (name : List ℕ) (room n : ℕ) (w w' : Walk)
    → Filled o n w
    → 0 < length w.res
    → ext_loop o name room w ≡ some w'
    → Filled o (n + room) w'
unfolding ext_loop
ext_lem o name zero n w w' h some_byte e =
    Filled-same o (n + 0) n w w' (ground arith) (omega arith) h
ext_lem o [] (suc room) n w w' h some_byte e =
    Filled-same o (n + suc room) n w w' (ground arith) (omega arith) h
ext_lem o (c ∷ cs) (suc room) n w w' h some_byte e = elim (Bool-cases (is_bad o c)) [
  | inl bad ↦ absurd (ground arith)
  | inr fine ↦ elim (Bool-cases (c == 46)) [
    | inl dot ↦ Filled-same o (n + suc room) n w w' (ground arith) (omega arith) h
    | inr no_dot ↦
        let next : Walk = record {
          res = w.res ++ (stored o c ∷ []);
          c = c;
          space = c == 32;
          rest = cs;
        } in
        Filled-same o (n + suc room) (n + 1 + room) w' w' refl (omega arith) (
          ext_lem o cs room (n + 1) next w'
            (grow o n w c next refl (stored-is_legal o c fine (ground arith))
              (λ z. absurd (omega arith)) h)
            (omega (arith, length-snoc w.res (stored o c))) (ground arith))
  ]
]

-- A formatted name.
pub record Formatted (o : NameOptions) (res : List ℕ) : Type 0 where
  pub eleven : length res ≡ 11
  pub legal : All (λ c. is_legal o c ≡ true) res
  pub alive : get_or res 0 0 ≢ 229

front_byte : (res : List ℕ) → length res ≡ 11 → Alive res → get_or res 0 0 ≢ 229
unfolding Alive
front_byte [] l h = absurd (omega (arith, l))
front_byte (x ∷ xs) l h = h

padded :
    (o : NameOptions) (res out : List ℕ)
    → Legal o res
    → Alive res
    → length res ≤ 11
    → pad 11 res ≡ out
    → Formatted o out
unfolding Legal Alive
padded o res out h a k e = record {
  eleven = subst (λ r. length r ≡ 11) e (length-pad 11 res k);
  legal = subst (Legal o) e (pad-Legal o 11 res h);
  alive =
      subst (λ r. get_or r 0 0 ≢ 229) e
        (front_byte (pad 11 res) (length-pad 11 res k) (pad-Alive 11 res a));
}

ext-Formatted :
    (o : NameOptions) (res : List ℕ) (c : ℕ) (rest : List ℕ) (space : Bool) (out : List ℕ)
    → Legal o res
    → Alive res
    → length res ≤ 8
    → format_ext o res c rest space ≡ ok out
    → Formatted o out
unfolding format_ext Filled
ext-Formatted o res c rest space out h a k e = elim (Bool-cases (c == 46)) [
  | inr no_dot ↦ padded o res out h a (omega arith) (ground arith)
  | inl dot ↦
      let w : Walk = record { res = pad 8 res; c = c; space = space; rest = rest } in
      elim (Option-cases (ext_loop o rest 3 w)) [
        | inl bad ↦ absurd (ground arith)
        | inr (w', run) ↦
            let l = length-pad 8 res k in
            let (legal, few, alive) =
              ext_lem o rest 3 8 w w' (pad-Legal o 8 res h, omega arith, pad-Alive 8 res a)
                (omega arith) run in
            padded o w'.res out legal alive (omega arith) (ground arith)
      ]
]

rest-Formatted :
    (o : NameOptions) (w : Walk) (out : List ℕ)
    → Filled o 8 w
    → format_rest o w ≡ ok out
    → Formatted o out
unfolding format_rest Filled
rest-Formatted o w out (h, k, a) e =
    go (if is_strict o.name_check && not (w.c == 46) then w.rest else []) refl
  where
    go :
        (next : List ℕ)
        → (if is_strict o.name_check && not (w.c == 46) then w.rest else []) ≡ next
        → Formatted o out
    go [] q =
        let (c, rest) = skip_to_dot w.c w.rest in
        ext-Formatted o w.res c rest w.space out h a k (ground arith)
    go (c ∷ cs) q = ext-Formatted o w.res c cs w.space out h a k (ground arith)

-- If `msdos_format_name` accepts a name, what it stores has eleven bytes, each of them one that a
-- directory entry may hold: no control character but the 5 that stands for 0xE5, no dot, colon or
-- backslash, and no lower case letter unless case is kept; and the first byte is not 0xE5, which
-- stands for a deleted entry.
pub msdos_format_name-Formatted :
    (o : NameOptions) (name out : List ℕ) → msdos_format_name o name ≡ ok out → Formatted o out
unfolding msdos_format_name Filled Legal Alive
msdos_format_name-Formatted o name out e = go (undotted o name) refl
  where
    start : Walk
    start = record { res = []; c = 0; space = true; rest = [] }

    go : (r : Result (List ℕ)) → undotted o name ≡ r → Formatted o out
    go (err x) q = absurd (ground arith)
    go oops q = absurd (ground arith)
    go (ok name') q = elim (Option-cases (base_loop o name' 8 start)) [
      | inl bad ↦ absurd (ground arith)
      | inr (w, run) ↦
          rest-Formatted o w out (base_lem o name' 8 0 start w (tt, omega arith, omega arith) run)
            (ground arith)
    ]
