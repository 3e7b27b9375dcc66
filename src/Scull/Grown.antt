-- ===== src/Scull/Grown.antt =====
-- How `scull_follow` and the ATS functions behind `scull_write` of ATS/scull/main.c make room.
use ats_ldd.Base.{
  ℕ, zero, suc, ◌+◌, ◌-◌, ◌≤◌, ◌<◌, ◌≡◌, ◌≢◌, refl, sym, ap, ◌∙◌, inl, inr, Bool, true, false, List,
  Option, none, some, max, ltb, ◌==◌, if◌then◌else◌, length, get_elem?, arith, Bool-cases,
  length-append,
}
use ats_ldd.Scull.{Quantum, Quanta, QSet}
use ats_ldd.Scull.Transfer.{
  Memory, quantum_at, byte_of, qsetlst_make, scull_follow_main, takeout_write, takeout_quantum,
  with_quantum, zeros, no_quanta,
}
use ats_ldd.Scull.Contents.{byte_in, byte_in-append_empty, length-qsetlst_make}

-- How the list grows to have a set `ln`, if there is memory.
pub record Grew (xs : List QSet) (ln : ℕ) (xs' : List QSet) (ln' : ℕ) : Type 0 where
  pub counted : ln' ≡ length xs'
  pub grown : length xs ≤ length xs'
  pub few : length xs' ≤ max (length xs) (ln + 1)

-- It keeps its bytes.
pub record Followed (xs : List QSet) (ln : ℕ) (there : Bool) (xs' : List QSet) (ln' : ℕ)
    : Type 0 where
  pub grew : Grew xs ln xs' ln'
  pub reached : there ≡ true → ln < length xs'
  pub bytes : (l i j : ℕ) → byte_in (get_elem? xs' l) i j ≡ byte_in (get_elem? xs l) i j

pub follow_lem :
    (mem : Memory) (xs : List QSet) (ln : ℕ)
    → (let (there, xs', ln') = scull_follow_main mem xs (length xs) ln in
        Followed xs ln there xs' ln')
unfolding scull_follow_main
follow_lem mem xs ln = elim (Bool-cases (ltb ln (length xs))) [
  | inl y ↦ rw y (record {
    grew = record { counted = refl; grown = omega arith; few = omega arith };
    reached = λ _. ground arith;
    bytes = λ l i j. refl;
  })
  | inr y ↦
      let new : List QSet = qsetlst_make mem.set 0 (ln - length xs + 1) in
      let app = length-append xs new in
      let le = length-qsetlst_make mem.set 0 (ln - length xs + 1) in
      rw y (record {
        grew = record {
          counted = sym app;
          grown = omega (arith, app);
          few = ground (arith, app, le);
        };
        reached = λ e. ground (arith, app);
        bytes = λ l i j. byte_in-append_empty mem.set xs 0 (ln - length xs + 1) l i j;
      })
]

-- Making the array and the quantum adds no bytes.
abbrev pub Holds : QSet → ℕ → Option (Quantum × Quanta) → Type 0
Holds qset i none = Unit
Holds qset i (some (q, quanta)) =
    (i' j : ℕ)
    → (if i == i' then q j else byte_in (some (some quanta)) i' j) ≡ byte_in (some qset) i' j

pub record Taken (qset : QSet) (i : ℕ) (r : Option (Quantum × Quanta) × QSet) : Type 0 where
  pub kept : (i' j : ℕ) → byte_in (some r.1) i' j ≡ byte_in (some qset) i' j
  pub holds : Holds qset i r.0

pub with_lem :
    (quanta : Quanta) (i : ℕ) (q : Quantum) (i' j : ℕ)
    → byte_in (some (some (with_quantum quanta i q))) i' j
      ≡ (if i == i' then q j else byte_in (some (some quanta)) i' j)
unfolding byte_in quantum_at
with_lem quanta i q i' j =
    elim (i == i')
      as (λ b.
        byte_of (if b then some q else quanta i') j ≡ (if b then q j else byte_of (quanta i') j)) [
          | true ↦ refl
          | false ↦ refl
        ]

-- What a quantum that is there, or NULL, holds.
there_lem :
    (quanta : Quanta) (i : ℕ) (o : Option Quantum) (i' j : ℕ)
    → quanta i ≡ o
    → (if i == i' then byte_of o j else byte_in (some (some quanta)) i' j)
      ≡ byte_in (some (some quanta)) i' j
unfolding byte_in quantum_at
there_lem quanta i o i' j e = elim (Bool-cases (i == i')) [
  | inl y ↦
      let same : quanta i' ≡ o = ap quanta (ground arith) ∙ e in
      rw y (ap (λ o. byte_of o j) (sym same))
  | inr y ↦ rw y refl
]

module _ (mem : Memory) (quanta : Quanta) (i : ℕ) where
  quantum_lem :
      (o : Option Quantum) → quanta i ≡ o → Taken (some quanta) i (takeout_quantum mem quanta i o)
  unfolding takeout_quantum
  quantum_lem (some q) e = record {
    kept = λ i' j. refl;
    holds = λ i' j. there_lem quanta i (some q) i' j e;
  }
  quantum_lem none e =
      let new = λ (i' j : ℕ). with_lem quanta i zeros i' j ∙ there_lem quanta i none i' j e in
      elim (Bool-cases mem.quantum) [
        | inr z ↦ rw z (record { kept = λ i' j. refl; holds = tt })
        | inl z ↦ rw z (record {
          kept = new;
          holds = λ i' j.
              ap (λ x. if i == i' then 0 else x) (new i' j) ∙ there_lem quanta i none i' j e;
        })
      ]

pub takeout_lem : (mem : Memory) (qset : QSet) (i : ℕ) → Taken qset i (takeout_write mem qset i)
unfolding takeout_write byte_in quantum_at
takeout_lem mem (some quanta) i = quantum_lem mem quanta i (quanta i) refl
takeout_lem mem none i = elim (Bool-cases mem.array) [
  | inr y ↦ rw y (record { kept = λ i' j. refl; holds = tt })
  | inl y ↦
      let t = quantum_lem mem no_quanta i none refl in
      rw y (record { kept = t.kept; holds = t.holds })
]

-- Memory for everything.
pub record Plenty (mem : Memory) : Type 0 where
  pub sets : (n : ℕ) → mem.set n ≡ true
  pub array : mem.array ≡ true
  pub quantum : mem.quantum ≡ true

qsetlst_make-Plenty :
    (mem : Memory) (at n : ℕ) → Plenty mem → length (qsetlst_make mem.set at n) ≡ n
unfolding qsetlst_make
qsetlst_make-Plenty mem at zero m = refl
qsetlst_make-Plenty mem at (suc n) m =
    rw (m.sets at) (ap suc (qsetlst_make-Plenty mem (at + 1) n m))

pub follow-Plenty :
    (mem : Memory) (xs : List QSet) (ln : ℕ)
    → Plenty mem
    → (scull_follow_main mem xs (length xs) ln).0 ≡ true
unfolding scull_follow_main
follow-Plenty mem xs ln m = ground (arith, qsetlst_make-Plenty mem 0 (ln - length xs + 1) m)

quantum-Plenty :
    (mem : Memory) (quanta : Quanta) (i : ℕ) (o : Option Quantum)
    → Plenty mem
    → (takeout_quantum mem quanta i o).0 ≢ none
unfolding takeout_quantum
quantum-Plenty mem quanta i none m e = let q = m.quantum in ground arith
quantum-Plenty mem quanta i (some q) m e = cc

pub takeout-Plenty :
    (mem : Memory) (qset : QSet) (i : ℕ) → Plenty mem → (takeout_write mem qset i).0 ≢ none
unfolding takeout_write
takeout-Plenty mem none i m = rw m.array (quantum-Plenty mem no_quanta i none m)
takeout-Plenty mem (some quanta) i m = quantum-Plenty mem quanta i (quanta i) m
