-- ===== src/Fat/Chain/Grow.antt =====
-- Chains of clusters made longer.
use ats_ldd.Base.{
  ℕ, ◌-◌, ◌≡◌, ◌≢◌, refl, ap, ◌∙◌, List, [], ◌∷◌, ◌++◌, length, get_or, has, true, false, ◌==◌,
  if◌then◌else◌, arith,
}
use ats_ldd.Fat.Volume.{ent_free, ent_eof}
use ats_ldd.Fat.Chain.{
  Chain, last, link, head_has, tail_has, Chain-fresh, Chain-congr, Chain-length,
}

-- The last cluster of `c ∷ cs`.
abbrev pub last_or : List ℕ → ℕ → ℕ
last_or [] c = c
last_or (x ∷ xs) c = last_or xs x

pub last_or-snoc : (xs : List ℕ) (c e : ℕ) → last_or (xs ++ (e ∷ [])) c ≡ e
last_or-snoc [] c e = refl
last_or-snoc (x ∷ xs) c e = last_or-snoc xs x e

pub last_or-has : (xs : List ℕ) (c : ℕ) → has (last_or xs c) (c ∷ xs) ≡ true
last_or-has [] c = head_has c []
last_or-has (x ∷ xs) c = tail_has (last_or xs x) c (x ∷ xs) (last_or-has xs x)

-- The table with `e` as the new end after the last cluster `l`.
abbrev pub grown : (ℕ → ℕ) → ℕ → ℕ → ℕ → ℕ
grown next l e y = if l == y then e else if e == y then ent_eof else next y

-- The last cluster of a list.
abbrev pub end_of : List ℕ → ℕ
end_of [] = 0
end_of (x ∷ xs) = last_or xs x

end_of-cons :
    {next : ℕ → ℕ} {d : ℕ} {cs : List ℕ} (c : ℕ) → Chain next d cs → last_or cs c ≡ end_of cs
end_of-cons c (last h) = refl
end_of-cons c (link e p q r) = refl

pub end_of-has : {next : ℕ → ℕ} {d : ℕ} {cs : List ℕ} → Chain next d cs → has (end_of cs) cs ≡ true
end_of-has (last {c = c} h) = last_or-has [] c
end_of-has (link {c = c} {cs = cs} e p q r) = last_or-has cs c

pub has_ne : (a b : ℕ) (xs : List ℕ) → has a xs ≡ true → has b xs ≡ false → a ≢ b
has_ne a b xs h k e = let same : has a xs ≡ has b xs = ap (λ x. has x xs) e in absurd (ground arith)

has-snoc : (y e : ℕ) (xs : List ℕ) → has y xs ≡ true → has y (xs ++ (e ∷ [])) ≡ true
has-snoc y e [] h = absurd (ground arith)
has-snoc y e (x ∷ xs) h = ground (arith, has-snoc y e xs)

pub has-snoc_self : (e : ℕ) (xs : List ℕ) → has e (xs ++ (e ∷ [])) ≡ true
has-snoc_self e [] = head_has e []
has-snoc_self e (x ∷ xs) = ground (arith, has-snoc_self e xs)

-- A free cluster linked to the end of a chain makes a longer chain.
pub Chain-snoc :
    {next next' : ℕ → ℕ} {c : ℕ} {cs : List ℕ} (e : ℕ)
    → Chain next c cs
    → e ≢ ent_free
    → e ≢ ent_eof
    → has e cs ≡ false
    → ((y : ℕ) → has y (cs ++ (e ∷ [])) ≡ true → next' y ≡ grown next (end_of cs) e y)
    → Chain next' c (cs ++ (e ∷ []))
Chain-snoc e (last {c = c} h) nz ne away same =
    link (ground (arith, same c (has-snoc c e (c ∷ []) (head_has c [])))) nz ne
      (last (ground (arith, same e (has-snoc_self e (c ∷ [])))))
Chain-snoc {next} {next'} e (link {c = c} {d = d} {cs = cs} n p q ch) nz ne away same =
    let last_ne : end_of cs ≢ c =
      has_ne (end_of cs) c cs (end_of-has ch) (Chain-fresh c n p q ch) in
    let here : next' c ≡ d =
      ground (arith, same c (head_has c (cs ++ (e ∷ []))), end_of-cons c ch) in
    link here p q (
      Chain-snoc e ch nz ne (ground arith) (λ y k.
        same y (tail_has y c (cs ++ (e ∷ [])) k)
        ∙ ap (λ (l : ℕ). grown next l e y) (end_of-cons c ch)))

-- The last cluster of a chain.
pub end_of-get_or :
    {next : ℕ → ℕ} {c : ℕ} {cs : List ℕ} → Chain next c cs → get_or cs (length cs - 1) 0 ≡ end_of cs
end_of-get_or (last h) = refl
end_of-get_or (link {c = c} {cs = cs} e p q ch) =
    ground (arith, end_of-get_or ch, end_of-cons c ch, Chain-length ch)

-- A chain linked to the end of another one makes one chain.
pub Chain-append :
    {next next' : ℕ → ℕ} {c n : ℕ} {cs ns : List ℕ}
    → Chain next c cs
    → Chain next n ns
    → n ≢ ent_free
    → n ≢ ent_eof
    → ((y : ℕ) → has y cs ≡ true → next' y ≡ (if end_of cs == y then n else next y))
    → ((y : ℕ) → has y ns ≡ true → next' y ≡ next y)
    → Chain next' c (cs ++ ns)
Chain-append (last {c = c} h) chn nz ne same other =
    link (ground (arith, same c (head_has c []))) nz ne (Chain-congr chn other)
Chain-append {next} {next'} {n = n} {ns = ns} (link {c = c} {d = d} {cs = cs} e p q ch) chn nz ne
      same other =
    let last_ne : end_of cs ≢ c =
      has_ne (end_of cs) c cs (end_of-has ch) (Chain-fresh c e p q ch) in
    let here : next' c ≡ d = ground (arith, same c (head_has c cs), end_of-cons c ch) in
    link here p q (
      Chain-append ch chn nz ne
        (λ y k.
          same y (tail_has y c cs k)
          ∙ ap (λ (l : ℕ). if l == y then n else next y) (end_of-cons c ch))
        other)
