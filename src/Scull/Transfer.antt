-- ===== src/Scull/Transfer.antt =====
-- `scull_read` and `scull_write` of ATS/scull/main.c, with the functions of ATS/scull/ATS/scull.dats
-- and ATS/scull/ATS/scull_data.dats that they call.
use ats_ldd.Base.{
  ℕ, zero, suc, ◌+◌, ◌-◌, ◌*◌, ◌/◌, ◌%◌, ◌^◌, min, Bool, true, not, ◌&&◌, ◌||◌, List, [], ◌∷◌, ◌++◌,
  Option, none, some, Result, ok, err, oops, enomem, efault, erestartsys, ltb, leb, ◌==◌,
  if◌then◌else◌, length, get_elem?, set,
}
use ats_ldd.Scull.{ScullDev, Quantum, Quanta, QSet}

-- What `kmalloc` answers: for the sets that a list grows by, in order, for an array, for a quantum.
pub record Memory : Type 0 where
  pub set : ℕ → Bool
  pub array : Bool
  pub quantum : Bool

-- A copy between the kernel and a process: whether all bytes go over, by their number; and, on a
-- write, what is in the kernel's buffer after it.
pub record UserCopy : Type 0 where
  pub whole : ℕ → Bool
  pub source : ℕ → ℕ

-- The set, the quantum and the byte of a position. `none` is a division by 0, or a number that is
-- negative as an `int`, which the ATS functions do not take.
unfoldable pub locate : ScullDev → ℕ → Option (ℕ × ℕ × ℕ)
locate dev f_pos =
    let n = dev.n_quantum in
    let nm = n * dev.m_qset % 2 ^ 32 in
    if (n == 0 || nm == 0) || (leb (2 ^ 31) n || leb (2 ^ 31) nm)
    then none
    else if leb (2 ^ 31) (f_pos / nm)
    then none
    else some (f_pos / nm, f_pos % nm / n, f_pos % nm % n)

-- A `size_t` that is passed as an `int`, by its bits.
abbrev pub as_int : ℕ → ℕ
as_int count = count % 2 ^ 32

-- The quantum that `scull_follow_lessthan` and `qdatptr_vtakeout_bytes_read` lead to.
unfoldable pub quantum_at : QSet → ℕ → Option Quantum
quantum_at none i = none
quantum_at (some quanta) i = quanta i

-- The bytes that a process gets of a quantum: `clear_user` gives it zeros for one that is not there.
abbrev pub byte_of : Option Quantum → ℕ → ℕ
byte_of none j = 0
byte_of (some q) j = q j

-- `memcpy` of `cnt` bytes out of a quantum.
unfoldable pub slice : Quantum → ℕ → ℕ → List ℕ
slice q j zero = []
slice q j (suc cnt) = q j ∷ slice q (j + 1) cnt

-- The bytes for the process come with the result and the position. A hole reads as zeros. `m` and
-- `n` are how many quanta a set has and how many bytes a quantum; `i` and `j` have types that ask for
-- less than these, and `ln` one that asks for a set that is there.
unfoldable pub scull_read_main :
    UserCopy → ℕ → ℕ → List QSet → ℕ → ℕ → ℕ → ℕ → ℕ → Result ℕ × List ℕ × ℕ
scull_read_main user m n xs ln i j count f_pos =
    let c = as_int count in
    let cnt = min c (n - j) in
    if not (ltb i m && ltb j n) then (oops, [], f_pos) else elim (get_elem? xs ln) [
      | none ↦ (oops, [], f_pos)
      | some qset ↦
          if leb (2 ^ 31) c
          then (oops, [], f_pos)
          else if user.whole cnt
          then (ok cnt, slice (byte_of (quantum_at qset i)) j cnt, f_pos + cnt)
          else (err efault, [], f_pos)
    ]

-- `lock` says whether the semaphore was had without a signal.
unfoldable pub scull_read : UserCopy → Bool → ScullDev → ℕ → ℕ → Result ℕ × List ℕ × ℕ
scull_read user lock dev count f_pos =
    let inside = if ltb dev.size ((f_pos + count) % 2 ^ 64) then dev.size - f_pos else count in
    if not lock
    then (err erestartsys, [], f_pos)
    else if leb dev.size f_pos
    then (ok 0, [], f_pos)
    else elim (locate dev f_pos) [
      | none ↦ (oops, [], f_pos)
      | some (ln, i, j) ↦
          scull_read_main user dev.m_qset dev.n_quantum dev.qsets ln i j inside f_pos
    ]

-- The loop of `qsetlst_make`, from the set `at` on: as many empty sets as there is memory for.
unfoldable pub qsetlst_make : (ℕ → Bool) → ℕ → ℕ → List QSet
qsetlst_make mem at zero = []
qsetlst_make mem at (suc n) =
    let rest = qsetlst_make mem (at + 1) n in if mem at then none ∷ rest else []

-- The list, which may have grown, and whether it has a set `ln`.
unfoldable pub scull_follow_main : Memory → List QSet → ℕ → ℕ → Bool × List QSet × ℕ
unfolding qsetlst_make
scull_follow_main mem xs ln0 ln =
    let df = ln - ln0 in
    let xs_add = qsetlst_make mem.set 0 (df + 1) in
    let ln0_add = length xs_add in
    if ltb ln ln0 then (true, xs, ln0) else (ltb df ln0_add, xs ++ xs_add, ln0 + ln0_add)

abbrev pub no_quanta : Quanta
no_quanta i = none

abbrev pub zeros : Quantum
zeros o = 0

-- `array[i] = q`.
abbrev pub with_quantum : Quanta → ℕ → Quantum → Quanta
with_quantum quanta i q i' = if i == i' then some q else quanta i'

-- `qtmptr_vtakeout_bytes_write`, for what the array has at `i`: the quantum with the array that it
-- is in, if there is memory for it, and the set.
unfoldable pub takeout_quantum :
    Memory → Quanta → ℕ → Option Quantum → Option (Quantum × Quanta) × QSet
takeout_quantum mem quanta i (some q) = (some (q, quanta), some quanta)
takeout_quantum mem quanta i none =
    let made = with_quantum quanta i zeros in
    if mem.quantum then (some (zeros, made), some made) else (none, some quanta)

-- `qdatptr_vtakeout_bytes_write`: the same for a set whose array may be missing.
unfoldable pub takeout_write : Memory → QSet → ℕ → Option (Quantum × Quanta) × QSet
unfolding takeout_quantum
takeout_write mem none i =
    if mem.array then takeout_quantum mem no_quanta i (no_quanta i) else (none, none)
takeout_write mem (some quanta) i = takeout_quantum mem quanta i (quanta i)

-- The quantum after `copy_from_user` of `cnt` bytes to its byte `j`.
unfoldable pub copied : UserCopy → Quantum → ℕ → ℕ → Quantum
copied user q j cnt o = if leb j o && ltb o (j + cnt) then user.source (o - j) else q o

-- The result and the position, the list of sets and its length. `i` and `j` as in a read.
unfoldable pub scull_write_main :
    UserCopy → Memory → ℕ → ℕ → List QSet → ℕ → ℕ → ℕ → ℕ → ℕ → ℕ → (Result ℕ × ℕ) × List QSet × ℕ
scull_write_main user mem m n xs ln0 ln i j count f_pos =
    let c = as_int count in
    let cnt = min c (n - j) in
    let (there, xs1, ln1) = scull_follow_main mem xs ln0 ln in
    if not (ltb i m && ltb j n)
    then ((oops, f_pos), xs, ln0)
    else if not there
    then ((err enomem, f_pos), xs1, ln1)
    else elim (get_elem? xs1 ln) [
      | none ↦ ((oops, f_pos), xs1, ln1)
      | some qset ↦
          let (taken, qset') = takeout_write mem qset i in
          elim taken [
            | none ↦ ((err enomem, f_pos), set xs1 ln qset', ln1)
            | some (q, quanta) ↦
                let xs2 = set xs1 ln (some (with_quantum quanta i (copied user q j cnt))) in
                if leb (2 ^ 31) c
                then ((oops, f_pos), xs1, ln1)
                else if user.whole cnt
                then ((ok cnt, f_pos + cnt), xs2, ln1)
                else ((err efault, f_pos), xs2, ln1)
          ]
    ]

-- The end of `scull_write`, with what `scull_write_main` gave.
unfoldable pub finish_write : ScullDev → (Result ℕ × ℕ) × List QSet × ℕ → Result ℕ × ℕ × ScullDev
finish_write dev ((ok cnt, pos), xs, ln') = (
  ok cnt,
  pos,
  record dev { qsets = xs; ln_qlst = ln'; size = if ltb dev.size pos then pos else dev.size },
)
finish_write dev ((err e, pos), xs, ln') = (err e, pos, record dev { qsets = xs; ln_qlst = ln' })
finish_write dev ((oops, pos), xs, ln') = (oops, pos, record dev { qsets = xs; ln_qlst = ln' })

-- `lock` says whether the semaphore was had without a signal.
unfoldable pub scull_write : UserCopy → Memory → Bool → ScullDev → ℕ → ℕ → Result ℕ × ℕ × ScullDev
scull_write user mem lock dev count f_pos =
    if not lock then (err erestartsys, f_pos, dev) else elim (locate dev f_pos) [
      | none ↦ (oops, f_pos, dev)
      | some (ln, i, j) ↦ finish_write dev (
          scull_write_main user mem dev.m_qset dev.n_quantum dev.qsets dev.ln_qlst ln i j count
            f_pos)
    ]
