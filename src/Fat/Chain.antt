-- ===== src/Fat/Chain.antt =====
-- Cluster chains: what the entries of the table say about a file, whatever stores them.
pub mod Grow
use ats_ldd.Base.{
  ℕ, zero, suc, ◌+◌, ◌<◌, ◌≡◌, ◌≢◌, refl, sym, ap, ◌∙◌, subst, List, [], ◌∷◌, ◌++◌, length, get_or,
  has, ==_refl, has-index, true, false, Bool-cases, inl, inr, ◌==◌, if◌then◌else◌, arith,
}
use ats_ldd.Fat.Volume.{ent_free, ent_eof}

-- `cs` are the clusters from the first one to the one whose entry is the end mark.
pub data Chain (next : ℕ → ℕ) : ℕ → List ℕ → Type 0 where
  last : {c : ℕ} → next c ≡ ent_eof → Chain next c (c ∷ [])
  link :
      {c d : ℕ} {cs : List ℕ}
      → next c ≡ d
      → d ≢ ent_free
      → d ≢ ent_eof
      → Chain next d cs
      → Chain next c (c ∷ cs)

-- The cluster after `n` steps along the table.
abbrev pub after : (ℕ → ℕ) → ℕ → ℕ → ℕ
after next zero c = c
after next (suc n) c = after next n (next c)

-- The first `n` steps from a cluster meet neither a free entry nor the end mark.
abbrev pub GoesOn : (ℕ → ℕ) → ℕ → ℕ → Type 0
GoesOn next zero c = Unit {0}
GoesOn next (suc n) c = (next c ≢ ent_free) × (next c ≢ ent_eof) × GoesOn next n (next c)

pub Chain-length : {next : ℕ → ℕ} {c : ℕ} {cs : List ℕ} → Chain next c cs → 0 < length cs
Chain-length (last h) = omega arith
Chain-length (link h p q r) = omega arith

pub Chain-first : {next : ℕ → ℕ} {c : ℕ} {cs : List ℕ} → Chain next c cs → get_or cs 0 0 ≡ c
Chain-first (last h) = refl
Chain-first (link h p q r) = refl

-- The table determines the length of a chain.
pub Chain-unique_length :
    {next : ℕ → ℕ} {c : ℕ} {cs ds : List ℕ}
    → Chain next c cs
    → Chain next c ds
    → length cs ≡ length ds
Chain-unique_length (last h) (last k) = refl
Chain-unique_length (last h) (link e p q r) = absurd (q (sym e ∙ h))
Chain-unique_length (link e p q r) (last k) = absurd (q (sym e ∙ k))
Chain-unique_length {next} (link {cs = cs} e p q r) (link {cs = ds} e' p' q' r') =
    ap suc (Chain-unique_length r (subst (λ d. Chain next d ds) (sym e' ∙ e) r'))

-- From each cluster of a chain a chain goes on, with as many clusters as are left.
pub Chain-suffix :
    {next : ℕ → ℕ} {c : ℕ} {cs : List ℕ} (i : ℕ)
    → Chain next c cs
    → i < length cs
    → (ds : List ℕ) × Chain next (get_or cs i 0) ds × (length ds + i ≡ length cs)
Chain-suffix zero (last {c = c} h) k = (c ∷ [], last h, omega arith)
Chain-suffix zero (link {c = c} {cs = cs} e p q r) k = (c ∷ cs, link e p q r, omega arith)
Chain-suffix (suc i) (last h) k = absurd (omega arith)
Chain-suffix (suc i) (link e p q r) k =
    let (ds, s, l) = Chain-suffix i r (omega arith) in (ds, s, omega arith)

-- No cluster stands twice in a chain.
pub Chain-injective :
    {next : ℕ → ℕ} {c : ℕ} {cs : List ℕ} (i j : ℕ)
    → Chain next c cs
    → i < length cs
    → j < length cs
    → get_or cs i 0 ≡ get_or cs j 0
    → i ≡ j
Chain-injective {next} {cs = cs} i j r hi hj e =
    let (ds, s, l) = Chain-suffix i r hi in
    let (es, t, m) = Chain-suffix j r hj in
    omega (arith, Chain-unique_length (subst (λ d. Chain next d ds) e s) t)

pub head_has : (c : ℕ) (cs : List ℕ) → has c (c ∷ cs) ≡ true
head_has c cs = ground (arith, ==_refl c)

pub tail_has : (y c : ℕ) (cs : List ℕ) → has y cs ≡ true → has y (c ∷ cs) ≡ true
tail_has y c cs k = ground arith

-- The first cluster of a chain does not stand in the rest.
pub Chain-fresh :
    {next : ℕ → ℕ} (c : ℕ) {d : ℕ} {cs : List ℕ}
    → next c ≡ d
    → d ≢ ent_free
    → d ≢ ent_eof
    → Chain next d cs
    → has c cs ≡ false
Chain-fresh {next} c {d} {cs} e p q r = elim (Bool-cases (has c cs)) [
  | inr away ↦ away
  | inl there ↦
      let (i, l, g) = has-index cs c there in
      absurd (
        omega (arith, Chain-injective 0 (suc i) (link e p q r) (omega arith) (omega arith) (sym g)))
]

-- A chain stays a chain while the entries of its clusters stay.
pub Chain-congr :
    {next next' : ℕ → ℕ} {c : ℕ} {cs : List ℕ}
    → Chain next c cs
    → ((y : ℕ) → has y cs ≡ true → next' y ≡ next y)
    → Chain next' c cs
Chain-congr (last {c = c} h) same = last (same c (head_has c []) ∙ h)
Chain-congr (link {c = c} {cs = cs} e p q r) same =
    link (same c (head_has c cs) ∙ e) p q (Chain-congr r (λ y k. same y (tail_has y c cs k)))

-- No entry of a chain is free.
pub Chain-not_free :
    {next : ℕ → ℕ} {c : ℕ} {cs : List ℕ} (y : ℕ)
    → Chain next c cs
    → has y cs ≡ true
    → next y ≢ ent_free
Chain-not_free {next} y (last {c = c} h) k = elim (Bool-cases (y == c)) [
  | inl e ↦ λ z. absurd (ground arith)
  | inr e ↦ absurd (ground arith)
]
Chain-not_free {next} y (link {c = c} {cs = cs} e p q r) k = elim (Bool-cases (y == c)) [
  | inl same ↦ λ z. absurd (ground arith)
  | inr other ↦ Chain-not_free y r (ground arith)
]
