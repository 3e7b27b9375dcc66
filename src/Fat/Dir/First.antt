-- ===== src/Fat/Dir/First.antt =====
-- The first number of a range with a property, and how many have it: what the walks of
-- ATS/myfat/fat_dir.c compute.
use ats_ldd.Base.{
  ℕ, zero, suc, ◌+◌, ◌-◌, ◌≤◌, ◌<◌, ◌≡◌, ◌≢◌, refl, ap, ap₂, ◌∙◌, Bool, true, false, ◌&&◌,
  if◌then◌else◌, Option, none, some, arith, Bool-cases, dec_lt, ℕ_discrete, inl, inr,
}

-- The first of the `n` numbers from `i` on that `p` holds of.
abbrev pub first : (ℕ → Bool) → ℕ → ℕ → Option ℕ
first p i zero = none
first p i (suc n) = if p i then some i else first p (suc i) n

-- How many of the `n` numbers from `i` on `p` holds of.
abbrev pub count_if : (ℕ → Bool) → ℕ → ℕ → ℕ
count_if p i zero = 0
count_if p i (suc n) = (if p i then 1 else 0) + count_if p (suc i) n

-- Both.
abbrev pub both : (ℕ → Bool) → (ℕ → Bool) → ℕ → Bool
both p q i = p i && q i

pub first-range :
    (p : ℕ → Bool) (i n j : ℕ) → first p i n ≡ some j → (i ≤ j) × (j < i + n) × (p j ≡ true)
first-range p i zero j h = absurd (ground arith)
first-range p i (suc n) j h = elim (Bool-cases (p i)) [
  | inl e ↦ (ground arith, ground arith, ground arith)
  | inr e ↦
      let (l, u, k) = first-range p (suc i) n j (ground arith) in (omega arith, omega arith, k)
]

-- Nothing before the first one, and nothing at all when there is none.
pub first-before : (p : ℕ → Bool) (i n j m : ℕ) → first p i n ≡ some j → i ≤ m → m < j → p m ≡ false
first-before p i zero j m h l u = absurd (ground arith)
first-before p i (suc n) j m h l u = elim (dec_lt i m) [
  | yes lt ↦ first-before p (suc i) n j m (ground arith) (omega arith) u
  | no ge ↦ let here : i ≡ m = omega arith in let same : p i ≡ p m = ap p here in ground arith
]

pub first-none : (p : ℕ → Bool) (i n m : ℕ) → first p i n ≡ none → i ≤ m → m < i + n → p m ≡ false
first-none p i zero m h l u = absurd (omega arith)
first-none p i (suc n) m h l u = elim (dec_lt i m) [
  | yes lt ↦ first-none p (suc i) n m (ground arith) (omega arith) (omega arith)
  | no ge ↦ let here : i ≡ m = omega arith in let same : p i ≡ p m = ap p here in ground arith
]

-- A search for both goes from one number with `p` to the next.
pub first-both-none : (p q : ℕ → Bool) (i n : ℕ) → first p i n ≡ none → first (both p q) i n ≡ none
first-both-none p q i zero h = refl
first-both-none p q i (suc n) h = elim (Bool-cases (p i)) [
  | inl e ↦ absurd (ground arith)
  | inr e ↦ let r = first-both-none p q (suc i) n (ground arith) in ground arith
]

pub first-both-some :
    (p q : ℕ → Bool) (i n j m : ℕ)
    → first p i n ≡ some j
    → suc j + m ≡ i + n
    → first (both p q) i n ≡ (if q j then some j else first (both p q) (suc j) m)
first-both-some p q i zero j m h e = absurd (ground arith)
first-both-some p q i (suc n) j m h e = elim (Bool-cases (p i)) [
  | inl y ↦
      let here : i ≡ j = ground arith in
      let left : n ≡ m = omega arith in
      let test : q i ≡ q j = ap q here in
      let rest = ap₂ (λ (a b : ℕ). first (both p q) (suc a) b) here left in ground arith
  | inr y ↦ let r = first-both-some p q (suc i) n j m (ground arith) (omega arith) in ground arith
]

pub count_if-both-none :
    (p q : ℕ → Bool) (i n : ℕ) → first p i n ≡ none → count_if (both p q) i n ≡ 0
count_if-both-none p q i zero h = refl
count_if-both-none p q i (suc n) h = elim (Bool-cases (p i)) [
  | inl e ↦ absurd (ground arith)
  | inr e ↦ let r = count_if-both-none p q (suc i) n (ground arith) in ground arith
]

pub count_if-both-some :
    (p q : ℕ → Bool) (i n j m : ℕ)
    → first p i n ≡ some j
    → suc j + m ≡ i + n
    → count_if (both p q) i n ≡ (if q j then 1 else 0) + count_if (both p q) (suc j) m
count_if-both-some p q i zero j m h e = absurd (ground arith)
count_if-both-some p q i (suc n) j m h e = elim (Bool-cases (p i)) [
  | inl y ↦
      let here : i ≡ j = ground arith in
      let left : n ≡ m = omega arith in
      let test : q i ≡ q j = ap q here in
      let rest = ap₂ (λ (a b : ℕ). count_if (both p q) (suc a) b) here left in ground arith
  | inr y ↦
      let r = count_if-both-some p q (suc i) n j m (ground arith) (omega arith) in ground arith
]

first-congr :
    (p q : ℕ → Bool) (i n : ℕ)
    → ((m : ℕ) → i ≤ m → m < i + n → q m ≡ p m)
    → first q i n ≡ first p i n
first-congr p q i zero same = refl
first-congr p q i (suc n) same =
    let here : q i ≡ p i = same i (omega arith) (omega arith) in
    let rest = first-congr p q (suc i) n (λ m l u. same m (omega arith) (omega arith)) in
    ground arith

-- Where the property is lost at the first number with it, and only there, the next one is found.
pub first-drop :
    (p q : ℕ → Bool) (i n j : ℕ)
    → first p i n ≡ some j
    → q j ≡ false
    → ((m : ℕ) → m ≢ j → i ≤ m → m < i + n → q m ≡ p m)
    → first q i n ≡ first p (suc j) (i + n - suc j)
first-drop p q i zero j h gone same = absurd (ground arith)
first-drop p q i (suc n) j h gone same = elim (Bool-cases (p i)) [
  | inl y ↦
      let here : i ≡ j = ground arith in
      let lost : q i ≡ false = ap q here ∙ gone in
      let left : n ≡ i + suc n - suc j = omega arith in
      let rest : first q (suc i) n ≡ first p (suc i) n =
        first-congr p q (suc i) n (λ m l u. same m (omega arith) (omega arith) (omega arith)) in
      let moved = ap₂ (λ (a b : ℕ). first p (suc a) b) here left in ground arith
  | inr y ↦
      let (l, u, k) = first-range p (suc i) n j (ground arith) in
      let here : q i ≡ p i = same i (omega arith) (omega arith) (omega arith) in
      let rest =
        first-drop p q (suc i) n j (ground arith) gone
          (λ m e a b. same m e (omega arith) (omega arith)) in
      let left : suc i + n - suc j ≡ i + suc n - suc j = omega arith in
      let moved = ap (λ (a : ℕ). first p (suc j) a) left in ground arith
]

-- Where no number has the property and one gets it, that one is found.
pub first-gain :
    (p q : ℕ → Bool) (i n j : ℕ)
    → first p i n ≡ none
    → q j ≡ true
    → i ≤ j
    → j < i + n
    → ((m : ℕ) → m ≢ j → i ≤ m → m < i + n → q m ≡ p m)
    → first q i n ≡ some j
first-gain p q i zero j h gained l u same = absurd (omega arith)
first-gain p q i (suc n) j h gained l u same = elim (ℕ_discrete i j) [
  | yes here ↦ let at : q i ≡ true = ap q here ∙ gained in ground arith
  | no ne ↦
      let before : q i ≡ p i = same i ne (omega arith) (omega arith) in
      let rest =
        first-gain p q (suc i) n j (ground arith) gained (omega arith) (omega arith)
          (λ m e a b. same m e (omega arith) (omega arith)) in
      ground arith
]

pub count_if-congr :
    (p q : ℕ → Bool) (i n : ℕ)
    → ((m : ℕ) → i ≤ m → m < i + n → q m ≡ p m)
    → count_if q i n ≡ count_if p i n
count_if-congr p q i zero same = refl
count_if-congr p q i (suc n) same =
    let here : q i ≡ p i = same i (omega arith) (omega arith) in
    let rest = count_if-congr p q (suc i) n (λ m l u. same m (omega arith) (omega arith)) in
    ground arith

pub count_if-le : (p : ℕ → Bool) (i n : ℕ) → count_if p i n ≤ n
count_if-le p i zero = omega arith
count_if-le p i (suc n) = let rest = count_if-le p (suc i) n in ground arith

-- One number less has the property.
pub count_if-drop :
    (p q : ℕ → Bool) (i n j : ℕ)
    → p j ≡ true
    → q j ≡ false
    → i ≤ j
    → j < i + n
    → ((m : ℕ) → m ≢ j → i ≤ m → m < i + n → q m ≡ p m)
    → count_if q i n + 1 ≡ count_if p i n
count_if-drop p q i zero j y z l u same = absurd (omega arith)
count_if-drop p q i (suc n) j y z l u same = elim (ℕ_discrete i j) [
  | yes here ↦
      let had : p i ≡ true = ap p here ∙ y in
      let lost : q i ≡ false = ap q here ∙ z in
      let rest =
        count_if-congr p q (suc i) n (λ m a b. same m (omega arith) (omega arith) (omega arith)) in
      ground arith
  | no ne ↦
      let before : q i ≡ p i = same i ne (omega arith) (omega arith) in
      let rest =
        count_if-drop p q (suc i) n j y z (omega arith) (omega arith)
          (λ m e a b. same m e (omega arith) (omega arith)) in
      ground arith
]
