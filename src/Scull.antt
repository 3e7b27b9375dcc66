-- ===== src/Scull.antt =====
-- ATS/scull/main.c: the bare device.
pub mod Ioctl
pub mod Seek
pub mod Transfer
pub mod Contents
pub mod Grown
pub mod Stored
pub mod File
pub mod Session
mod Tests
use ats_ldd.Base.{
  ℕ, ◌+◌, ◌-◌, ◌^◌, ltb, Bool, List, [], Option, none, some, Result, ok, err, oops, Errno,
  erestartsys, einval, if◌then◌else◌, not,
}

-- `scull_quantum`, `scull_qset` and `scull_p_buffer`.
pub record Settings : Type 0 where
  pub scull_quantum : ℕ
  pub scull_qset : ℕ
  pub scull_p_buffer : ℕ

-- A quantum, by its bytes; the array `data` of a set, whose quanta are there or NULL; and `struct
-- scull_qset` without its link, where the array may be NULL.
abbrev pub Quantum : Type 0
Quantum = ℕ → ℕ

abbrev pub Quanta : Type 0
Quanta = ℕ → Option Quantum

abbrev pub QSet : Type 0
QSet = Option Quanta

-- `struct scull_dev`; `qsets` is the list `data` of the sets.
pub record ScullDev : Type 0 where
  pub m_qset : ℕ
  pub n_quantum : ℕ
  pub qsets : List QSet
  pub ln_qlst : ℕ
  pub size : ℕ
  pub access_key : ℕ

-- With `scull_trim_main` of ATS/scull/ATS/scull.dats, which frees the sets.
unfoldable pub scull_trim : Settings → ScullDev → ScullDev
scull_trim s dev = record dev {
  m_qset = s.scull_qset;
  n_quantum = s.scull_quantum;
  qsets = [];
  ln_qlst = 0;
  size = 0;
}

-- `lock` says whether the semaphore was had without a signal.
unfoldable pub scull_open : Settings → Bool → Bool → ScullDev → Result (Unit {0}) × ScullDev
unfolding scull_trim
scull_open s lock wronly dev =
    if not wronly
    then (ok tt, dev)
    else if not lock
    then (err erestartsys, dev)
    else (ok tt, scull_trim s dev)

-- `whence`, and an offset by its sign.
pub data Whence : Type 0 where
  seek_set seek_cur seek_end other_whence : Whence

pub data Offset : Type 0 where
  ahead : ℕ → Offset
  behind : ℕ → Offset

-- `base + off` in 64 bits with a sign, `none` where it is negative.
unfoldable pub moved : ℕ → Offset → Option ℕ
moved base (ahead n) = if ltb (base + n) (2 ^ 63) then some (base + n) else none
moved base (behind n) = if ltb base n then none else some (base - n)

-- The result and `filp->f_pos`.
unfoldable pub scull_llseek : Whence → Offset → ScullDev → ℕ → Result ℕ × ℕ
unfolding moved
scull_llseek whence off dev f_pos =
    let newpos : Result (Option ℕ) = elim whence [
      | seek_set ↦ ok (moved 0 off)
      | seek_cur ↦ ok (moved f_pos off)
      | seek_end ↦ ok (moved dev.size off)
      | other_whence ↦ err einval
    ] in
    elim newpos [
      | err e ↦ (err e, f_pos)
      | oops ↦ (oops, f_pos)
      | ok n ↦ elim n [ none ↦ (err einval, f_pos) | some p ↦ (ok p, p) ]
    ]

-- The position of the seq_file is the number of a device; `none` is NULL.
unfoldable pub scull_seq_start : ℕ → ℕ → Option ℕ
scull_seq_start scull_nr_devs pos = if ltb pos scull_nr_devs then some pos else none

-- The new position comes with the device.
unfoldable pub scull_seq_next : ℕ → ℕ → Option ℕ × ℕ
scull_seq_next scull_nr_devs pos =
    (if ltb (pos + 1) scull_nr_devs then some (pos + 1) else none, pos + 1)
