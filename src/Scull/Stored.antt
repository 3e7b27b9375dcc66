-- ===== src/Scull/Stored.antt =====
-- What `scull_write` of ATS/scull/main.c does to the bytes of a device.
use native.Mathlib.Nat.{mod-eq_of_lt}
use ats_ldd.Base.{
  ℕ, ◌+◌, ◌-◌, ◌*◌, ◌/◌, ◌%◌, ◌^◌, ◌≤◌, ◌<◌, ◌≡◌, refl, sym, ap, ◌∙◌, inl, inr, Bool, true, false,
  ◌&&◌, List, Option, none, some, Result, ok, err, enomem, efault, min, ltb, leb, ◌==◌,
  if◌then◌else◌, length, get_elem?, set, length-set, get_elem?-set, get_elem?-in, arith, Bool-cases,
}
use ats_ldd.Scull.{Quantum, Quanta, QSet}
use ats_ldd.Scull.Transfer.{
  Memory, UserCopy, as_int, quantum_at, scull_follow_main, takeout_write, with_quantum, copied,
  scull_write_main,
}
use ats_ldd.Scull.Contents.{byte_in, same_quantum, quantum_unique}
use ats_ldd.Scull.Grown.{
  takeout_lem, Grew, follow-Plenty, follow_lem, with_lem, takeout-Plenty, Holds, Plenty,
}

-- The byte of the set after the copy.
copied_lem :
    (user : UserCopy) (qset : QSet) (q : Quantum) (quanta : Quanta) (i j cnt i' j' : ℕ)
    → ((i' j : ℕ)
        → (if i == i' then q j else byte_in (some (some quanta)) i' j) ≡ byte_in (some qset) i' j)
    → byte_in (some (some (with_quantum quanta i (copied user q j cnt)))) i' j' ≡ (
        if i == i' && (leb j j' && ltb j' (j + cnt))
        then user.source (j' - j)
        else byte_in (some qset) i' j')
unfolding byte_in quantum_at copied
copied_lem user qset q quanta i j cnt i' j' h =
    with_lem quanta i (copied user q j cnt) i' j'
    ∙ elim (i == i')
          as (λ b.
            (if b then q j' else byte_in (some (some quanta)) i' j') ≡ byte_in (some qset) i' j'
            → (if b then copied user q j cnt j' else byte_in (some (some quanta)) i' j') ≡ (
                if b && (leb j j' && ltb j' (j + cnt))
                then user.source (j' - j)
                else byte_in (some qset) i' j')) [
                  | true ↦ (λ e.
                      ap (λ x. if leb j j' && ltb j' (j + cnt) then user.source (j' - j) else x) e)
                  | false ↦ (λ e. e)
                ]
        (h i' j')

-- The sets after `k` bytes were put into quantum `i` of set `ln`, at `j`.
abbrev pub Put : UserCopy → List QSet → ℕ → ℕ → ℕ → ℕ → List QSet → Type 0
Put user xs ln i j k xs' =
    (l' i' j' : ℕ)
    → byte_in (get_elem? xs' l') i' j' ≡ (
        if ln == l' && (i == i' && (leb j j' && ltb j' (j + k)))
        then user.source (j' - j)
        else byte_in (get_elem? xs l') i' j')

-- How `scull_write_main` ends.
pub data Main (user : UserCopy) (mem : Memory) (n : ℕ) (xs : List QSet) (ln i j count f_pos : ℕ)
    : (Result ℕ × ℕ) × List QSet × ℕ → Type 0 where
  stored :
      (xs' : List QSet) (ln' : ℕ)
      → Grew xs ln xs' ln'
      → ln < length xs'
      → Put user xs ln i j (min count (n - j)) xs'
      → Main user mem n xs ln i j count f_pos
          ((ok (min count (n - j)), f_pos + min count (n - j)), xs', ln')
  lacking :
      (xs' : List QSet) (ln' : ℕ)
      → Grew xs ln xs' ln'
      → ((l' i' j' : ℕ) → byte_in (get_elem? xs' l') i' j' ≡ byte_in (get_elem? xs l') i' j')
      → ¬ (Plenty mem)
      → Main user mem n xs ln i j count f_pos ((err enomem, f_pos), xs', ln')
  faulted :
      (xs' : List QSet) (ln' : ℕ)
      → Grew xs ln xs' ln'
      → Put user xs ln i j (min count (n - j)) xs'
      → user.whole (min count (n - j)) ≡ false
      → Main user mem n xs ln i j count f_pos ((err efault, f_pos), xs', ln')

-- Another set at `ln` changes its bytes only.
set_bytes :
    (xs xs1 : List QSet) (ln : ℕ) (old new : QSet) (P : Bool → ℕ → ℕ → ℕ → ℕ)
    → ln < length xs1
    → get_elem? xs1 ln ≡ some old
    → ((i' j' : ℕ) → byte_in (some new) i' j' ≡ P true i' j' (byte_in (some old) i' j'))
    → ((i' j' x : ℕ) → P false i' j' x ≡ x)
    → ((l i j : ℕ) → byte_in (get_elem? xs1 l) i j ≡ byte_in (get_elem? xs l) i j)
    → (l' i' j' : ℕ)
    → byte_in (get_elem? (set xs1 ln new) l') i' j'
      ≡ P (ln == l') i' j' (byte_in (get_elem? xs l') i' j')
set_bytes xs xs1 ln old new P h e now other bytes l' i' j' =
    let at = get_elem?-set xs1 ln new l' h in
    elim (Bool-cases (ln == l')) [
      | inl y ↦
          let there : get_elem? xs1 l' ≡ some old = ap (get_elem? xs1) (ground arith) ∙ e in
          let same : byte_in (some old) i' j' ≡ byte_in (get_elem? xs l') i' j' =
            ap (λ o. byte_in o i' j') (sym there) ∙ bytes l' i' j' in
          rw (at, y) (now i' j' ∙ ap (P true i' j') same)
      | inr y ↦ rw (at, y) (bytes l' i' j' ∙ sym (other i' j' (byte_in (get_elem? xs l') i' j')))
    ]

module _ (user : UserCopy) (mem : Memory) (m n : ℕ) (xs : List QSet) (ln i j count f_pos : ℕ)
    (small : count < 2 ^ 31) (bounds : (ltb i m && ltb j n) ≡ true) where
  abbrev followed : Bool × List QSet × ℕ
  followed = scull_follow_main mem xs (length xs) ln

  abbrev taken : QSet → Option (Quantum × Quanta) × QSet
  taken qset = takeout_write mem qset i

  abbrev Outcome : Type 0
  Outcome =
      Main user mem n xs ln i j count f_pos
        (scull_write_main user mem m n xs (length xs) ln i j count f_pos)

  length_kept :
      (x : QSet) → Grew xs ln followed.1 followed.2 → Grew xs ln (set followed.1 ln x) followed.2
  length_kept x g =
      let e = length-set followed.1 ln x in
      record {
        counted = g.counted ∙ sym e;
        grown = omega (arith, e, g.grown);
        few = omega (arith, e, g.few);
      }

  copy_lem :
      (qset : QSet)
      → followed.0 ≡ true
      → get_elem? followed.1 ln ≡ some qset
      → (r : Option (Quantum × Quanta)) → (taken qset).0 ≡ r
      → Holds qset i r
      → Outcome
  unfolding scull_write_main
  copy_lem qset y e none t h =
      let f = follow_lem mem xs ln in
      let l = f.reached y in
      let kept = (takeout_lem mem qset i).kept in
      rw (bounds, y, e, t)
        (lacking (set followed.1 ln (taken qset).1) followed.2 (length_kept (taken qset).1 f.grew)
          (set_bytes xs followed.1 ln qset (taken qset).1 (λ b i' j' x. x) l e kept
            (λ i' j' x. refl) f.bytes)
          (λ plenty. takeout-Plenty mem qset i plenty t))
  copy_lem qset y e (some (q, quanta)) t h =
      let f = follow_lem mem xs ln in
      let l = f.reached y in
      let c : as_int count ≡ count = mod-eq_of_lt (omega arith) in
      let fits : leb (2 ^ 31) count ≡ false = ground arith in
      let k = min count (n - j) in
      let new : QSet = some (with_quantum quanta i (copied user q j k)) in
      let bytes : Put user xs ln i j k (set followed.1 ln new) =
        set_bytes xs followed.1 ln qset new
          (λ b i' j' x.
            if b && (i == i' && (leb j j' && ltb j' (j + k))) then user.source (j' - j) else x)
          l e (λ i' j'. copied_lem user qset q quanta i j k i' j' h) (λ i' j' x. refl) f.bytes in
      elim (Bool-cases (user.whole k)) [
        | inl w ↦
            rw (bounds, y, e, t, c, fits, w)
              (stored (set followed.1 ln new) followed.2 (length_kept new f.grew)
                (omega (arith, length-set followed.1 ln new)) bytes)
        | inr w ↦
            rw (bounds, y, e, t, c, fits, w)
              (faulted (set followed.1 ln new) followed.2 (length_kept new f.grew) bytes w)
      ]

  pub main_lem : Outcome
  unfolding scull_write_main
  main_lem =
      let f = follow_lem mem xs ln in
      elim (Bool-cases followed.0) [
        | inr y ↦
            rw (bounds, y)
              (lacking followed.1 followed.2 f.grew f.bytes
                (λ plenty. absurd (ground (arith, follow-Plenty mem xs ln plenty))))
        | inl y ↦
            let (qset, e) = get_elem?-in followed.1 ln (f.reached y) in
            copy_lem qset y e (taken qset).0 refl (takeout_lem mem qset i).holds
      ]

-- The bytes of a file after `k` bytes of `source` were put at `f`.
abbrev pub overlaid : (ℕ → ℕ) → ℕ → ℕ → (ℕ → ℕ) → ℕ → ℕ
overlaid source f k old p = if leb f p && ltb p (f + k) then source (p - f) else old p

module _ (n m : ℕ) (quantum : 0 < n) (sets : 0 < m) where
  -- The range of positions is a range in one quantum.
  pub range_lem :
      (source : ℕ → ℕ) (f cnt p x : ℕ)
      → cnt ≤ n - f % (n * m) % n
      → (if f / (n * m) == p / (n * m)
            && (f % (n * m) / n == p % (n * m) / n
                && (leb (f % (n * m) % n) (p % (n * m) % n)
                    && ltb (p % (n * m) % n) (f % (n * m) % n + cnt)))
          then source (p % (n * m) % n - f % (n * m) % n)
          else x)
        ≡ (if leb f p && ltb p (f + cnt) then source (p - f) else x)
  range_lem source f cnt p x h = elim (Bool-cases (leb f p && ltb p (f + cnt))) [
    | inl y ↦
        let (a, b, c) = same_quantum n m quantum sets f p (ground arith) (ground arith) in
        let e : p % (n * m) % n - f % (n * m) % n ≡ p - f = omega (arith, c) in
        rw (y, a, b, e) (ground (arith, c))
    | inr y ↦ rw y (ground (arith, quantum_unique n m quantum sets f p))
  ]
