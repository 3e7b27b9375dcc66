-- ===== src/Scull/Contents.antt =====
-- The bytes of a device of ATS/scull/main.c as a function of the position, and the invariant of its
-- fields.
use native.Mathlib.Nat.{
  div-lt_iff_lt-mul, div-eq_of_lt-le, mod-eq_of_lt, mod-lt, div-add-mod', mul-add-mod_self_right,
  mul-le-mul_right,
}
use ats_ldd.Base.{
  ℕ, zero, suc, ◌+◌, ◌-◌, ◌*◌, ◌/◌, ◌%◌, ◌^◌, ◌≤◌, ◌<◌, ◌≡◌, refl, ap, ap₂, ◌∙◌, inl, inr, Bool,
  true, ◌&&◌, ltb, List, [], ◌∷◌, ◌++◌, Option, none, some, length, get_elem?, arith, dec_lt,
  Bool-cases,
}
use ats_ldd.Scull.{ScullDev, QSet}
use ats_ldd.Scull.Transfer.{locate, quantum_at, byte_of, slice, qsetlst_make}

abbrev pub item_size : ScullDev → ℕ
item_size dev = dev.n_quantum * dev.m_qset

-- The sets hold all positions below the size, and the numbers of the device are `int`s.
pub record IsScull (dev : ScullDev) : Type 0 where
  pub quantum : 0 < dev.n_quantum
  pub sets : 0 < dev.m_qset
  pub small : item_size dev < 2 ^ 31
  pub counted : dev.ln_qlst ≡ length dev.qsets
  pub few : length dev.qsets < 2 ^ 31
  pub covered : dev.size ≤ length dev.qsets * item_size dev

-- A byte of a set, or of none; what is not there is 0.
unfoldable pub byte_in : Option QSet → ℕ → ℕ → ℕ
unfolding quantum_at
byte_in none i j = 0
byte_in (some qset) i j = byte_of (quantum_at qset i) j

-- The byte at a position.
unfoldable pub content : ScullDev → ℕ → ℕ
content dev p =
    byte_in (get_elem? dev.qsets (p / item_size dev)) (p % item_size dev / dev.n_quantum)
      (p % item_size dev % dev.n_quantum)

next : (b q r x : ℕ) → x ≡ q * b + r → r < b → x < (q + 1) * b
next b q r x e h = grind arith

-- The last quantum of a set ends inside it.
inside_set : (n m q t : ℕ) → q * n + t < n * m → q * n + n ≤ n * m
inside_set n m q t h = elim (dec_lt q m) [
  | yes l ↦ grind (arith, mul-le-mul_right {m = q + 1} {n = m} n (omega arith))
  | no l ↦ absurd (grind (arith, mul-le-mul_right {m = m} {n = q} n (omega arith)))
]

le-mul : (n m : ℕ) → 0 < m → n ≤ n * m
le-mul n zero h = elim h [ ]
le-mul n (suc m) h = grind arith

pub unique : (b q r x : ℕ) → x ≡ q * b + r → r < b → (x / b ≡ q) × (x % b ≡ r)
unique b q r x e h =
    let ap_div : x / b ≡ q = div-eq_of_lt-le b {m = x} (omega arith) (next b q r x e h) in
    let ap_mod : x % b ≡ r = ap (λ y. y % b) e ∙ mul-add-mod_self_right q b r ∙ mod-eq_of_lt h in
    (ap_div, ap_mod)

module _ (n m : ℕ) (quantum : 0 < n) (sets : 0 < m) where
  -- The positions of one quantum.
  pub same_quantum :
      (f p : ℕ)
      → f ≤ p
      → p < f + (n - f % (n * m) % n)
      → (p / (n * m) ≡ f / (n * m))
        × (p % (n * m) / n ≡ f % (n * m) / n)
        × (p % (n * m) % n ≡ f % (n * m) % n + (p - f))
  same_quantum f p h k =
      let r = f % (n * m) in
      let whole = div-add-mod' f (n * m) in
      let inner = div-add-mod' r n in
      let below : r < n * m = mod-lt f (grind arith) in
      let last = mod-lt r quantum in
      let room = inside_set n m (r / n) (r % n) (omega arith) in
      let d : ℕ = p - f in
      let fits : r + d < n * m = omega arith in
      let (a, b) = unique (n * m) (f / (n * m)) (r + d) p (omega arith) fits in
      let (a', b') = unique n (r / n) (r % n + d) (r + d) (omega arith) (omega arith) in
      (a, ap (λ y. y / n) b ∙ a', ap (λ y. y % n) b ∙ b')

  -- A quantum ends inside its set.
  pub quantum_end : (f : ℕ) → f + (n - f % (n * m) % n) ≤ suc (f / (n * m)) * (n * m)
  quantum_end f =
      let r = f % (n * m) in
      let whole = div-add-mod' f (n * m) in
      let inner = div-add-mod' r n in
      let below : r < n * m = mod-lt f (grind arith) in
      let last = mod-lt r quantum in
      let room = inside_set n m (r / n) (r % n) (omega arith) in
      let e : suc (f / (n * m)) * (n * m) ≡ n * m + f / (n * m) * (n * m) = grind arith in
      rw e (omega arith)

  pub quantum_unique :
      (f p : ℕ)
      → p / (n * m) ≡ f / (n * m)
      → p % (n * m) / n ≡ f % (n * m) / n
      → p + f % (n * m) % n ≡ f + p % (n * m) % n
  quantum_unique f p a b =
      let wp = div-add-mod' p (n * m) in
      let wf = div-add-mod' f (n * m) in
      let ip = div-add-mod' (p % (n * m)) n in
      let jf = div-add-mod' (f % (n * m)) n in
      let a' = ap (λ y. y * (n * m)) a in let b' = ap (λ y. y * n) b in omega arith

-- Sets with no data add no bytes.
pub byte_in-append_empty :
    (mem : ℕ → Bool) (xs : List QSet) (at n l i j : ℕ)
    → byte_in (get_elem? (xs ++ qsetlst_make mem at n) l) i j ≡ byte_in (get_elem? xs l) i j
unfolding byte_in qsetlst_make
byte_in-append_empty mem [] at zero l i j = refl
byte_in-append_empty mem [] at (suc n) zero i j = elim (Bool-cases (mem at)) [
  | inl y ↦ rw y refl
  | inr y ↦ rw y refl
]
byte_in-append_empty mem [] at (suc n) (suc l) i j = elim (Bool-cases (mem at)) [
  | inl y ↦ rw y (byte_in-append_empty mem [] (at + 1) n l i j)
  | inr y ↦ rw y refl
]
byte_in-append_empty mem (x ∷ xs) at n zero i j = refl
byte_in-append_empty mem (x ∷ xs) at n (suc l) i j = byte_in-append_empty mem xs at n l i j

pub length-qsetlst_make : (mem : ℕ → Bool) (at n : ℕ) → length (qsetlst_make mem at n) ≤ n
unfolding qsetlst_make
length-qsetlst_make mem at zero = omega arith
length-qsetlst_make mem at (suc n) = ground (arith, length-qsetlst_make mem (at + 1) n)

pub item_size-pos : (dev : ScullDev) → IsScull dev → 0 < item_size dev
item_size-pos dev s = omega (arith, le-mul dev.n_quantum dev.m_qset s.sets, s.quantum)

pub locate_lem :
    (dev : ScullDev) (p : ℕ)
    → IsScull dev
    → p / item_size dev < 2 ^ 31
    → locate dev p
      ≡ some
          (p / item_size dev, p % item_size dev / dev.n_quantum, p % item_size dev % dev.n_quantum)
unfolding locate
locate_lem dev p s h =
    let e : dev.n_quantum * dev.m_qset % 2 ^ 32 ≡ dev.n_quantum * dev.m_qset =
      mod-eq_of_lt (omega (arith, s.small)) in
    let pos : 0 < dev.n_quantum * dev.m_qset = item_size-pos dev s in
    let le : dev.n_quantum ≤ dev.n_quantum * dev.m_qset = le-mul dev.n_quantum dev.m_qset s.sets in
    rw e (ground arith)

pub slice-eq :
    (q q' : ℕ → ℕ) (j j' n : ℕ)
    → ((i : ℕ) → i < n → q (j + i) ≡ q' (j' + i))
    → slice q j n ≡ slice q' j' n
unfolding slice
slice-eq q q' j j' zero h = refl
slice-eq q q' j j' (suc n) h =
    ap₂ (λ x (xs : List ℕ). x ∷ xs) (ap q (omega arith) ∙ h 0 (omega arith) ∙ ap q' (omega arith))
      (slice-eq q q' (j + 1) (j' + 1) n
        (λ i l. ap q (omega arith) ∙ h (suc i) (omega arith) ∙ ap q' (omega arith)))

-- The quantum and the byte of a position are those of a set and of a quantum of the device.
pub bounds_lem :
    (dev : ScullDev) (f_pos : ℕ)
    → IsScull dev
    → (ltb (f_pos % item_size dev / dev.n_quantum) dev.m_qset
        && ltb (f_pos % item_size dev % dev.n_quantum) dev.n_quantum)
      ≡ true
bounds_lem dev f_pos s =
    let inside = mod-lt f_pos (item_size-pos dev s) in
    let i : f_pos % item_size dev / dev.n_quantum < dev.m_qset =
      (div-lt_iff_lt-mul s.quantum).1 (omega (arith, inside)) in
    let j = mod-lt (f_pos % item_size dev) s.quantum in ground (arith, i, j)
