-- ===== src/Pipe/Queue.antt =====
-- The buffer of ATS/scull/pipe.c as a queue of bytes.
use ats_ldd.Base.{
  ℕ, zero, suc, ◌+◌, ◌-◌, ◌%◌, ◌≤◌, ◌<◌, ◌≡◌, refl, ap, ap₂, subst, ◌∙◌, true, false, List, [], ◌∷◌,
  ◌++◌, Option, none, some, if◌then◌else◌, ◌==◌, leb, length, length-append, get_or, take, arith,
  Bool-cases, inl, inr,
}
use native.Mathlib.Nat.{mod-eq_of_lt}
use ats_ldd.Pipe.{Pipe, slice, fill, spacefree, in_memory}

-- The bytes that are in the pipe, the oldest first.
unfoldable pub contents : Pipe → List ℕ
contents p =
    if leb p.rp p.wp
    then slice p.buffer p.rp (p.wp - p.rp)
    else slice p.buffer p.rp (p.buf_end - p.rp) ++ slice p.buffer 0 p.wp

-- What every operation keeps: the pointers are inside the buffer, which has the memory for its size.
pub record IsPipe (p : Pipe) : Type 0 where
  pub whole : p.buf_end ≡ p.buffersize
  pub reading : p.rp < p.buffersize
  pub writing : p.wp < p.buffersize
  pub backed : in_memory p.memory 0 p.buffersize ≡ true

-- What lies in a part of the memory that is there is there.
pub in_memory-part :
    (memory : Option ℕ) (size o n : ℕ)
    → in_memory memory 0 size ≡ true
    → o + n ≤ size
    → in_memory memory o n ≡ true
unfolding in_memory
in_memory-part memory size o zero h l = refl
in_memory-part memory zero o (suc n) h l = absurd (omega arith)
in_memory-part none (suc size) o (suc n) h l = absurd (ground arith)
in_memory-part (some held) (suc size) o (suc n) h l = ground arith

pub length-slice : (m : ℕ → ℕ) (o n : ℕ) → length (slice m o n) ≡ n
unfolding slice
length-slice m o zero = refl
length-slice m o (suc n) = ap suc (length-slice m (o + 1) n)

slice-append : (m : ℕ → ℕ) (o a b : ℕ) → slice m o a ++ slice m (o + a) b ≡ slice m o (a + b)
unfolding slice
slice-append m o zero b = ground arith
slice-append m o (suc a) b =
    let there : o + 1 + a ≡ o + suc a = omega arith in
    let step : suc (a + b) ≡ suc a + b = omega arith in
    ap (λ l. m o ∷ l)
      (subst (λ x. slice m (o + 1) a ++ slice m x b ≡ slice m (o + 1) (a + b)) there
        (slice-append m (o + 1) a b))
    ∙ ap (slice m o) step

-- Two neighbouring slices.
pub slice-join :
    (m : ℕ → ℕ) (o a b : ℕ) {o' n : ℕ}
    → o + a ≡ o'
    → a + b ≡ n
    → slice m o a ++ slice m o' b ≡ slice m o n
slice-join m o a b {o'} {n} h k =
    subst (λ x. slice m o a ++ slice m x b ≡ slice m o n) h
      (slice-append m o a b ∙ ap (slice m o) k)

pub slice-congr :
    (m m' : ℕ → ℕ) (o n : ℕ)
    → ((i : ℕ) → o ≤ i → i < o + n → m' i ≡ m i)
    → slice m' o n ≡ slice m o n
unfolding slice
slice-congr m m' o zero h = refl
slice-congr m m' o (suc n) h =
    ap₂ (λ b bs. b ∷ bs) (h o (omega arith) (omega arith))
      (slice-congr m m' (o + 1) n (λ i l k. h i (omega arith) (omega arith)))

-- What has been filled in, read back.
get_slice :
    (m : ℕ → ℕ) (o n : ℕ) (bytes : List ℕ)
    → n ≤ length bytes
    → ((i : ℕ) → i < n → m (o + i) ≡ get_or bytes i 0)
    → slice m o n ≡ take n bytes
unfolding slice
get_slice m o zero bytes h k = refl
get_slice m o (suc n) [] h k = absurd (omega arith)
get_slice m o (suc n) (b ∷ bs) h k =
    ap₂ (λ x xs. x ∷ xs) (subst (λ i. m i ≡ b) (omega arith) (k 0 (omega arith)))
      (get_slice m (o + 1) n bs (omega arith)
        (λ i l. subst (λ j. m j ≡ get_or bs i 0) (omega arith) (k (suc i) (omega arith))))

pub fill-slice :
    (m : ℕ → ℕ) (o n : ℕ) (bytes : List ℕ)
    → n ≤ length bytes
    → slice (fill m o n bytes) o n ≡ take n bytes
unfolding fill
fill-slice m o n bytes h =
    get_slice (fill m o n bytes) o n bytes h
      (λ i l. let back : o + i - o ≡ i = omega arith in ground arith)

pub fill-before :
    (m : ℕ → ℕ) (o n : ℕ) (bytes : List ℕ) (a k : ℕ)
    → a + k ≤ o
    → slice (fill m o n bytes) a k ≡ slice m a k
unfolding fill
fill-before m o n bytes a k h = slice-congr m (fill m o n bytes) a k (λ i l l'. ground arith)

pub fill-after :
    (m : ℕ → ℕ) (o n : ℕ) (bytes : List ℕ) (a k : ℕ)
    → o + n ≤ a
    → slice (fill m o n bytes) a k ≡ slice m a k
unfolding fill
fill-after m o n bytes a k h = slice-congr m (fill m o n bytes) a k (λ i l l'. ground arith)

pub contents-straight : (p : Pipe) → p.rp ≤ p.wp → contents p ≡ slice p.buffer p.rp (p.wp - p.rp)
unfolding contents
contents-straight p h = rw (inside h) refl
  where
    inside : p.rp ≤ p.wp → leb p.rp p.wp ≡ true
    inside h = ground arith

pub contents-wrapped :
    (p : Pipe)
    → p.wp < p.rp
    → contents p ≡ slice p.buffer p.rp (p.buf_end - p.rp) ++ slice p.buffer 0 p.wp
unfolding contents
contents-wrapped p h = rw (beyond h) refl
  where
    beyond : p.wp < p.rp → leb p.rp p.wp ≡ false
    beyond h = ground arith

pub length-straight : (p : Pipe) → p.rp ≤ p.wp → length (contents p) ≡ p.wp - p.rp
length-straight p h = ap length (contents-straight p h) ∙ length-slice p.buffer p.rp (p.wp - p.rp)

pub length-wrapped :
    (p : Pipe) → IsPipe p → p.wp < p.rp → length (contents p) ≡ p.buffersize - p.rp + p.wp
length-wrapped p w h =
    let l : length (contents p)
        ≡ length (slice p.buffer p.rp (p.buf_end - p.rp)) + length (slice p.buffer 0 p.wp) =
      ap length (contents-wrapped p h)
      ∙ length-append (slice p.buffer p.rp (p.buf_end - p.rp)) (slice p.buffer 0 p.wp) in
    omega (
      arith,
      l,
      w.whole,
      length-slice p.buffer p.rp (p.buf_end - p.rp),
      length-slice p.buffer 0 p.wp,
    )

-- In a pipe that is well formed, `spacefree` is the size of the buffer less one less the bytes in
-- it.
pub spacefree-contents :
    (p : Pipe) → IsPipe p → spacefree p + length (contents p) + 1 ≡ p.buffersize
unfolding spacefree
spacefree-contents p h = elim (Bool-cases (leb p.rp p.wp)) [
  | inl le ↦
      let l : length (contents p) ≡ p.wp - p.rp = length-straight p (ground arith) in
      elim (Bool-cases (p.rp == p.wp)) [
        | inl e ↦ ground (arith, h.reading)
        | inr ne ↦
            let m : (p.rp + p.buffersize - p.wp) % p.buffersize ≡ p.rp + p.buffersize - p.wp =
              mod-eq_of_lt (ground (arith, h.reading)) in
            ground (arith, h.reading, h.writing)
      ]
  | inr gt ↦
      let l : length (contents p) ≡ p.buffersize - p.rp + p.wp =
        length-wrapped p h (ground arith) in
      let m : (p.rp + p.buffersize - p.wp) % p.buffersize ≡ p.rp - p.wp = wraps (ground arith) in
      ground (arith, h.reading, h.writing)
]
  where
    wraps : p.wp < p.rp → (p.rp + p.buffersize - p.wp) % p.buffersize ≡ p.rp - p.wp
    wraps l = grind (arith, h.reading)
