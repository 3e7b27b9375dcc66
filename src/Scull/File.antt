-- ===== src/Scull/File.antt =====
-- A device of ATS/scull/main.c as a file: what `scull_write` does to its bytes and its size, and what
-- `scull_read` gives of them.
use native.Mathlib.Nat.{mod-eq_of_lt, div-lt_iff_lt-mul, mul-le-mul_right, le_trans}
use ats_ldd.Base.{
  ℕ, suc, ◌+◌, ◌-◌, ◌*◌, ◌/◌, ◌%◌, ◌^◌, ◌≤◌, ◌<◌, ◌≡◌, refl, sym, ap, subst, ◌∙◌, true, false, ◌&&◌,
  List, some, Result, ok, err, enomem, efault, min, max, ltb, leb, if◌then◌else◌, length, get_elem?,
  get_elem?-in, arith,
}
use ats_ldd.Scull.{ScullDev, QSet}
use ats_ldd.Scull.Transfer.{
  Memory, UserCopy, as_int, quantum_at, byte_of, slice, scull_read_main, scull_read,
  scull_write_main, scull_write, finish_write,
}
use ats_ldd.Scull.Contents.{
  IsScull, item_size, byte_in, content, same_quantum, quantum_end, locate_lem, bounds_lem, slice-eq,
  item_size-pos,
}
use ats_ldd.Scull.Grown.{Grew, Plenty}
use ats_ldd.Scull.Stored.{Put, Main, stored, lacking, faulted, main_lem, overlaid, range_lem}

-- How many bytes of a transfer lie in one quantum.
abbrev pub in_quantum : ScullDev → ℕ → ℕ → ℕ
in_quantum dev f_pos count = min count (dev.n_quantum - f_pos % item_size dev % dev.n_quantum)

-- The device after `k` bytes were put at `f_pos`, and how long it is then.
pub record Holds (user : UserCopy) (dev : ScullDev) (f_pos k size : ℕ) (dev' : ScullDev)
    : Type 0 where
  pub valid : IsScull dev'
  pub bytes : (p : ℕ) → content dev' p ≡ overlaid user.source f_pos k (content dev) p
  pub sized : dev'.size ≡ size
  pub alike : (dev'.n_quantum ≡ dev.n_quantum) × (dev'.m_qset ≡ dev.m_qset)

-- How a write ends: the bytes of one quantum are taken; or there is no memory, and bytes and size
-- are as before; or the process's memory cannot be read, and the bytes in question are undefined.
pub data Wrote (user : UserCopy) (mem : Memory) (dev : ScullDev) (count f_pos : ℕ)
    : Result ℕ × ℕ × ScullDev → Type 0 where
  accepted :
      (dev' : ScullDev)
      → Holds user dev f_pos
          (in_quantum dev f_pos count)
          (max dev.size (f_pos + in_quantum dev f_pos count))
          dev'
      → Wrote user mem dev count f_pos
          (ok (in_quantum dev f_pos count), f_pos + in_quantum dev f_pos count, dev')
  no_memory :
      (dev' : ScullDev)
      → Holds user dev f_pos 0 dev.size dev'
      → ¬ (Plenty mem)
      → Wrote user mem dev count f_pos (err enomem, f_pos, dev')
  fault :
      (dev' : ScullDev)
      → Holds user dev f_pos (in_quantum dev f_pos count) dev.size dev'
      → user.whole (in_quantum dev f_pos count) ≡ false
      → Wrote user mem dev count f_pos (err efault, f_pos, dev')

module _ (user : UserCopy) (dev : ScullDev) (f_pos : ℕ) (s : IsScull dev)
    (reach : f_pos / item_size dev < 2 ^ 31 - 1) where
  abbrev ln : ℕ
  ln = f_pos / item_size dev

  abbrev i : ℕ
  i = f_pos % item_size dev / dev.n_quantum

  abbrev j : ℕ
  j = f_pos % item_size dev % dev.n_quantum

  abbrev grown_dev : List QSet → ℕ → ℕ → ScullDev
  grown_dev xs ln' size = record dev { qsets = xs; ln_qlst = ln'; size = size }

  valid_lem :
      (xs : List QSet) (ln' size : ℕ)
      → Grew dev.qsets ln xs ln'
      → size ≤ length xs * item_size dev
      → IsScull (grown_dev xs ln' size)
  valid_lem xs ln' size g h = record {
    quantum = s.quantum;
    sets = s.sets;
    small = s.small;
    counted = g.counted;
    few = omega (arith, g.few, s.few);
    covered = h;
  }

  kept_size :
      (xs : List QSet) (ln' : ℕ) → Grew dev.qsets ln xs ln' → dev.size ≤ length xs * item_size dev
  kept_size xs ln' g = le_trans s.covered (mul-le-mul_right (item_size dev) g.grown)

  new_size :
      (xs : List QSet) (k : ℕ)
      → ln < length xs
      → k ≤ dev.n_quantum - j
      → f_pos + k ≤ length xs * item_size dev
  new_size xs k h l =
      let last = quantum_end dev.n_quantum dev.m_qset s.quantum s.sets f_pos in
      let all : suc ln * item_size dev ≤ length xs * item_size dev =
        mul-le-mul_right (item_size dev) h in
      omega arith

  bytes_lem :
      (xs : List QSet) (ln' size k : ℕ)
      → k ≤ dev.n_quantum - j
      → Put user dev.qsets ln i j k xs
      → (p : ℕ) → content (grown_dev xs ln' size) p ≡ overlaid user.source f_pos k (content dev) p
  unfolding content
  bytes_lem xs ln' size k l put p =
      put (p / item_size dev) (p % item_size dev / dev.n_quantum)
        (p % item_size dev % dev.n_quantum)
      ∙ range_lem dev.n_quantum dev.m_qset s.quantum s.sets user.source f_pos k p (content dev p) l

  same_bytes :
      (xs : List QSet) (ln' : ℕ)
      → ((l i j : ℕ) → byte_in (get_elem? xs l) i j ≡ byte_in (get_elem? dev.qsets l) i j)
      → (p : ℕ)
      → content (grown_dev xs ln' dev.size) p ≡ overlaid user.source f_pos 0 (content dev) p
  unfolding content
  same_bytes xs ln' same p =
      let outside : (leb f_pos p && ltb p (f_pos + 0)) ≡ false = ground arith in
      rw outside (
        same (p / item_size dev) (p % item_size dev / dev.n_quantum)
          (p % item_size dev % dev.n_quantum))

  finish_lem :
      (mem : Memory) (count : ℕ) {o : (Result ℕ × ℕ) × List QSet × ℕ}
      → Main user mem dev.n_quantum dev.qsets ln i j count f_pos o
      → Wrote user mem dev count f_pos (finish_write dev o)
  unfolding finish_write
  finish_lem mem count (stored xs ln' g l put) =
      let k = in_quantum dev f_pos count in
      let e : (if ltb dev.size (f_pos + k) then f_pos + k else dev.size)
          ≡ max dev.size (f_pos + k) =
        ground arith in
      accepted (grown_dev xs ln' (if ltb dev.size (f_pos + k) then f_pos + k else dev.size))
        (record {
          valid =
              valid_lem xs ln' (if ltb dev.size (f_pos + k) then f_pos + k else dev.size) g
                (ground (arith, new_size xs k l (omega arith), kept_size xs ln' g));
          bytes =
              bytes_lem xs ln' (if ltb dev.size (f_pos + k) then f_pos + k else dev.size) k
                (omega arith) put;
          sized = e;
          alike = (refl, refl);
        })
  finish_lem mem count (lacking xs ln' g same m) =
      no_memory (grown_dev xs ln' dev.size)
        (record {
          valid = valid_lem xs ln' dev.size g (kept_size xs ln' g);
          bytes = same_bytes xs ln' same;
          sized = refl;
          alike = (refl, refl);
        })
        m
  finish_lem mem count (faulted xs ln' g put w) =
      let k = in_quantum dev f_pos count in
      fault (grown_dev xs ln' dev.size)
        (record {
          valid = valid_lem xs ln' dev.size g (kept_size xs ln' g);
          bytes = bytes_lem xs ln' dev.size k (omega arith) put;
          sized = refl;
          alike = (refl, refl);
        })
        w

  -- From a position that is reached, and for a count that is an `int`, `scull_write` accepts the
  -- bytes up to the end of the quantum, as many as there are, or ends with -ENOMEM or -EFAULT; what
  -- then are the bytes, the size and the position is in `Wrote`.
  pub scull_write-Wrote :
      (mem : Memory) (count : ℕ)
      → count < 2 ^ 31
      → Wrote user mem dev count f_pos (scull_write user mem true dev count f_pos)
  unfolding scull_write
  scull_write-Wrote mem count small =
      let at = locate_lem dev f_pos s (omega arith) in
      let main =
        subst
          (λ l.
            Main user mem dev.n_quantum dev.qsets ln i j count f_pos
              (scull_write_main user mem dev.m_qset dev.n_quantum dev.qsets l ln i j count f_pos))
          (sym s.counted)
          (main_lem user mem dev.m_qset dev.n_quantum dev.qsets ln i j count f_pos small
            (bounds_lem dev f_pos s)) in
      rw at (finish_lem mem count main)

-- How many bytes a read gives: up to the end of the quantum or of the file.
abbrev pub bytes_left : ScullDev → ℕ → ℕ → ℕ
bytes_left dev count f_pos = in_quantum dev f_pos (min count (dev.size - f_pos))

module _ (user : UserCopy) (dev : ScullDev) (count f_pos : ℕ) (s : IsScull dev) where
  abbrev set_no : ℕ
  set_no = f_pos / item_size dev

  byte_at :
      (p : ℕ) (qset : QSet)
      → get_elem? dev.qsets set_no ≡ some qset
      → p / item_size dev ≡ set_no
      → p % item_size dev / dev.n_quantum ≡ f_pos % item_size dev / dev.n_quantum
      → {j : ℕ} → p % item_size dev % dev.n_quantum ≡ j
      → byte_of (quantum_at qset (f_pos % item_size dev / dev.n_quantum)) j ≡ content dev p
  unfolding content byte_in
  byte_at p qset e a b c = rw (a, b, c, e) refl

  main_read :
      (i j : ℕ) (qset : QSet)
      → (ltb i dev.m_qset && ltb j dev.n_quantum) ≡ true
      → get_elem? dev.qsets set_no ≡ some qset
      → (n : ℕ) → n < 2 ^ 31
      → user.whole (min n (dev.n_quantum - j)) ≡ true
      → scull_read_main user dev.m_qset dev.n_quantum dev.qsets set_no i j n f_pos ≡ (
        ok (min n (dev.n_quantum - j)),
        slice (byte_of (quantum_at qset i)) j (min n (dev.n_quantum - j)),
        f_pos + min n (dev.n_quantum - j),
      )
  unfolding scull_read_main
  main_read i' j' qset bounds e n small whole =
      let c : as_int n ≡ n = mod-eq_of_lt (omega arith) in
      let f : leb (2 ^ 31) n ≡ false = ground arith in
      rw (bounds, scull_read_main) (rw (e, c, f, whole) refl)

  bytes_of_quantum :
      (qset : QSet)
      → get_elem? dev.qsets set_no ≡ some qset
      → (k : ℕ) → k ≤ dev.n_quantum - f_pos % item_size dev % dev.n_quantum
      → slice
          (byte_of (quantum_at qset (f_pos % item_size dev / dev.n_quantum)))
          (f_pos % item_size dev % dev.n_quantum)
          k
        ≡ slice (content dev) f_pos k
  bytes_of_quantum qset e k h = slice-eq _ _ _ _ k (λ o l.
      let (a, b, c) =
        same_quantum dev.n_quantum dev.m_qset s.quantum s.sets f_pos (f_pos + o) (omega arith)
          (omega arith) in
      byte_at (f_pos + o) qset e a b (c ∙ omega arith))

  -- From a position below the size, and where the copy succeeds, `scull_read` gives the bytes of the
  -- device from there on, up to the end of the quantum or of the file, and moves on by their number.
  pub scull_read-content :
      f_pos < dev.size
      → count < 2 ^ 31
      → f_pos + count < 2 ^ 64
      → user.whole (bytes_left dev count f_pos) ≡ true
      → scull_read user true dev count f_pos ≡ (
        ok (bytes_left dev count f_pos),
        slice (content dev) f_pos (bytes_left dev count f_pos),
        f_pos + (bytes_left dev count f_pos),
      )
  unfolding scull_read
  scull_read-content inside small fits whole =
      let below : set_no < length dev.qsets =
        (div-lt_iff_lt-mul (item_size-pos dev s)).1 (omega (arith, s.covered)) in
      let (qset, e) = get_elem?-in dev.qsets set_no below in
      let at = locate_lem dev f_pos s (omega (arith, s.few)) in
      let le : leb dev.size f_pos ≡ false = ground arith in
      let m : (f_pos + count) % 2 ^ 64 ≡ f_pos + count = mod-eq_of_lt fits in
      let c : (if ltb dev.size (f_pos + count) then dev.size - f_pos else count)
          ≡ min count (dev.size - f_pos) =
        ground arith in
      let bytes = bytes_of_quantum qset e (bytes_left dev count f_pos) (omega arith) in
      rw (le, at, m, c)
        (main_read (f_pos % item_size dev / dev.n_quantum) (f_pos % item_size dev % dev.n_quantum)
            qset (bounds_lem dev f_pos s) e (min count (dev.size - f_pos)) (omega arith) whole
          ∙ ap (λ b. (ok (bytes_left dev count f_pos), b, f_pos + (bytes_left dev count f_pos)))
              bytes)
