-- ===== src/Scull/Ioctl.antt =====
-- `scull_ioctl` of ATS/scull/main.c, with the commands of ATS/scull/scull.h.
use ats_ldd.Base.{
  ℕ, ◌^◌, ◌%◌, ◌≡◌, ◌≢◌, ◌<◌, refl, Bool, true, false, Result, ok, err, efault, eperm, enotty,
  if◌then◌else◌, not, ◌&&◌, arith,
}
use ats_ldd.Scull.{Settings}

pub data Ioctl : Type 0 where
  iocreset iocsquantum ioctquantum iocgquantum iocqquantum iocxquantum iochquantum : Ioctl
  iocsqset ioctqset iocgqset iocqqset iocxqset iochqset : Ioctl
  p_ioctsize p_iocqsize : Ioctl

-- A command, as the macros of the kernel take it apart: one of the header's, or another one, of
-- which is said whether type and number pass, and whether it names a transfer.
pub data Command : Type 0 where
  known : Ioctl → Command
  unknown : Bool → Bool → Command

-- The caller: `arg`, what it points to, and the answers of `access_ok`, of `__get_user` and
-- `__put_user` (true for 0) and of `capable (CAP_SYS_ADMIN)`.
pub record Caller : Type 0 where
  pub arg : ℕ
  pub at_arg : ℕ
  pub access : Bool
  pub gets : Bool
  pub puts : Bool
  pub admin : Bool

abbrev scull_quantum_default : ℕ
scull_quantum_default = 4000

abbrev scull_qset_default : ℕ
scull_qset_default = 1000

-- `_IOC_DIR (cmd)` is not `_IOC_NONE`.
unfoldable pub transfers : Ioctl → Bool
transfers iocsquantum = true
transfers iocsqset = true
transfers iocgquantum = true
transfers iocgqset = true
transfers iocxquantum = true
transfers iocxqset = true
transfers c = false

-- The result, the settings, and what the argument points to.
abbrev pub Answer : Type 0
Answer = Result ℕ × Settings × ℕ

abbrev set_quantum : Settings → ℕ → Settings
set_quantum s n = record s { scull_quantum = n % 2 ^ 32 }

abbrev set_qset : Settings → ℕ → Settings
set_qset s n = record s { scull_qset = n % 2 ^ 32 }

-- `__get_user` into a variable, which it makes 0 when it fails.
abbrev fetched : Caller → ℕ
fetched u = if u.gets then u.at_arg else 0

abbrev zero_or_fault : Bool → Result ℕ
zero_or_fault b = if b then ok 0 else err efault

-- `scull_quantum` or `scull_qset`: Set, Tell, Get, eXchange, sHift.
abbrev privileged : Caller → Settings → Answer → Answer
privileged u s a = if not u.admin then (err eperm, s, u.at_arg) else a

abbrev exchange : Caller → ℕ → (ℕ → Settings) → Answer
exchange u tmp set = (
  if u.gets then zero_or_fault u.puts else err efault,
  set (fetched u),
  if u.gets && u.puts then tmp else u.at_arg,
)

unfoldable pub run_command : Caller → Settings → Ioctl → Answer
run_command u s iocreset = (
  ok 0,
  record s { scull_quantum = scull_quantum_default; scull_qset = scull_qset_default },
  u.at_arg,
)
run_command u s iocsquantum =
    privileged u s (zero_or_fault u.gets, set_quantum s (fetched u), u.at_arg)
run_command u s ioctquantum = privileged u s (ok 0, set_quantum s u.arg, u.at_arg)
run_command u s iocgquantum =
    (zero_or_fault u.puts, s, if u.puts then s.scull_quantum else u.at_arg)
run_command u s iocqquantum = (ok s.scull_quantum, s, u.at_arg)
run_command u s iocxquantum = privileged u s (exchange u s.scull_quantum (set_quantum s))
run_command u s iochquantum = privileged u s (ok s.scull_quantum, set_quantum s u.arg, u.at_arg)
run_command u s iocsqset = privileged u s (zero_or_fault u.gets, set_qset s (fetched u), u.at_arg)
run_command u s ioctqset = privileged u s (ok 0, set_qset s u.arg, u.at_arg)
run_command u s iocgqset = (zero_or_fault u.puts, s, if u.puts then s.scull_qset else u.at_arg)
run_command u s iocqqset = (ok s.scull_qset, s, u.at_arg)
run_command u s iocxqset = privileged u s (exchange u s.scull_qset (set_qset s))
run_command u s iochqset = privileged u s (ok s.scull_qset, set_qset s u.arg, u.at_arg)
run_command u s p_ioctsize = (ok 0, record s { scull_p_buffer = u.arg % 2 ^ 32 }, u.at_arg)
run_command u s p_iocqsize = (ok s.scull_p_buffer, s, u.at_arg)

unfoldable pub scull_ioctl : Caller → Settings → Command → Answer
unfolding run_command transfers
scull_ioctl u s (known c) =
    if transfers c && not u.access then (err efault, s, u.at_arg) else run_command u s c
scull_ioctl u s (unknown decodes moves) =
    if not decodes
    then (err enotty, s, u.at_arg)
    else if moves && not u.access
    then (err efault, s, u.at_arg)
    else (err enotty, s, u.at_arg)

-- A caller without CAP_SYS_ADMIN changes neither the quantum nor the size of the quantum sets with
-- any command but `SCULL_IOCRESET`.
pub scull_ioctl-unprivileged :
    (u : Caller) (s : Settings) (c : Command)
    → u.admin ≡ false
    → c ≢ known iocreset
    → ((scull_ioctl u s c).1.scull_quantum ≡ s.scull_quantum)
      × ((scull_ioctl u s c).1.scull_qset ≡ s.scull_qset)
unfolding scull_ioctl
scull_ioctl-unprivileged u s (unknown a b) p h = (ground arith, ground arith)
scull_ioctl-unprivileged u s (known iocreset) p h = absurd (h refl)
scull_ioctl-unprivileged u s (known iocsquantum) p h = (ground arith, ground arith)
scull_ioctl-unprivileged u s (known ioctquantum) p h = (ground arith, ground arith)
scull_ioctl-unprivileged u s (known iocgquantum) p h = (ground arith, ground arith)
scull_ioctl-unprivileged u s (known iocqquantum) p h = (ground arith, ground arith)
scull_ioctl-unprivileged u s (known iocxquantum) p h = (ground arith, ground arith)
scull_ioctl-unprivileged u s (known iochquantum) p h = (ground arith, ground arith)
scull_ioctl-unprivileged u s (known iocsqset) p h = (ground arith, ground arith)
scull_ioctl-unprivileged u s (known ioctqset) p h = (ground arith, ground arith)
scull_ioctl-unprivileged u s (known iocgqset) p h = (ground arith, ground arith)
scull_ioctl-unprivileged u s (known iocqqset) p h = (ground arith, ground arith)
scull_ioctl-unprivileged u s (known iocxqset) p h = (ground arith, ground arith)
scull_ioctl-unprivileged u s (known iochqset) p h = (ground arith, ground arith)
scull_ioctl-unprivileged u s (known p_ioctsize) p h = (ground arith, ground arith)
scull_ioctl-unprivileged u s (known p_iocqsize) p h = (ground arith, ground arith)

-- The commands that give the quantum a new value, and the value: `SCULL_IOCHQUANTUM` from the
-- argument and `SCULL_IOCXQUANTUM` from memory. Run twice by a caller with CAP_SYS_ADMIN whose
-- memory can be accessed, the second time with what the first gave back, the exchange restores
-- quantum and memory, and the shift restores the quantum.
scull_ioctl-exchange :
    (u u' : Caller) (s : Settings)
    → u.admin ≡ true
    → u.access ≡ true
    → u.gets ≡ true
    → u.puts ≡ true
    → s.scull_quantum < 2 ^ 32
    → u.at_arg < 2 ^ 32
    → u' ≡ record u { at_arg = (scull_ioctl u s (known iocxquantum)).2; arg = s.scull_quantum }
    → (scull_ioctl u' (scull_ioctl u s (known iocxquantum)).1 (known iocxquantum)
        ≡ (ok 0, s, u.at_arg))
      × ((scull_ioctl u' (scull_ioctl u s (known iochquantum)).1 (known iochquantum)).1 ≡ s)
unfolding scull_ioctl run_command transfers
scull_ioctl-exchange u u' s a b c d k l e = (ground arith, ground arith)
