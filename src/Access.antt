-- ===== src/Access.antt =====
-- ATS/scull/access.c: devices that restrict who may open them.
pub mod Single
pub mod Owner
pub mod Woken
pub mod Clone
mod Tests
use ats_ldd.Base.{
  ℕ, zero, suc, ◌+◌, ◌-◌, ◌^◌, ◌%◌, Bool, true, false, List, [], ◌∷◌, ◌++◌, Option, none, some,
  Result, ok, err, oops, Errno, ebusy, eagain, erestartsys, enomem, einval, if◌then◌else◌, ◌==◌,
  not, ◌&&◌, ◌||◌,
}
use ats_ldd.Scull.{ScullDev, Settings, scull_trim}

-- `atomic_dec_and_test` and `atomic_inc` on the bits of an `int`.
unfoldable pub atomic_dec_and_test : ℕ → Bool × ℕ
atomic_dec_and_test a = let a' = (a + 2 ^ 32 - 1) % 2 ^ 32 in (a' == 0, a')

unfoldable pub atomic_inc : ℕ → ℕ
atomic_inc a = (a + 1) % 2 ^ 32

-- The device as an opener finds it: emptied if the file is opened only to be written.
abbrev pub trimmed : Settings → Bool → ScullDev → ScullDev
trimmed s wronly dev = if wronly then scull_trim s dev else dev

-- `scull_s_open` when no other process runs between its two atomic operations.
unfoldable pub scull_s_open : Settings → Bool → ℕ → ScullDev → Result (Unit {0}) × ℕ × ScullDev
unfolding atomic_dec_and_test atomic_inc
scull_s_open s wronly scull_s_available dev =
    let (last, a) = atomic_dec_and_test scull_s_available in
    if not last then (err ebusy, atomic_inc a, dev) else (ok tt, a, trimmed s wronly dev)

unfoldable pub scull_s_release : ℕ → ℕ
unfolding atomic_inc
scull_s_release scull_s_available = atomic_inc scull_s_available

-- What the openers of the devices with an owner are asked: `current_uid ()`, `current_euid ()`,
-- `capable (CAP_DAC_OVERRIDE)`, and the flags of the file.
pub record Opener : Type 0 where
  pub uid : ℕ
  pub euid : ℕ
  pub dac_override : Bool
  pub wronly : Bool
  pub nonblock : Bool

-- `scull_u_count` and `scull_u_owner`, or `scull_w_count` and `scull_w_owner`; the count is an
-- `int`.
pub record Owned : Type 0 where
  pub count : ℕ
  pub owner : ℕ

-- The owner is set by the first opener.
unfoldable pub grab : Opener → Owned → Owned
grab who o = record {
  count = (o.count + 1) % 2 ^ 32;
  owner = if o.count == 0 then who.uid else o.owner;
}

unfoldable pub scull_u_open :
    Settings → Opener → Owned → ScullDev → Result (Unit {0}) × Owned × ScullDev
unfolding grab
scull_u_open s who o dev =
    if not (o.count == 0)
      && not (o.owner == who.uid)
      && not (o.owner == who.euid)
      && not who.dac_override
    then (err ebusy, o, dev)
    else (ok tt, grab who o, trimmed s who.wronly dev)

unfoldable pub scull_u_release : Owned → Owned
scull_u_release o = record o { count = (o.count + 2 ^ 32 - 1) % 2 ^ 32 }

unfoldable pub scull_w_available : Opener → Owned → Bool
scull_w_available who o =
    (o.count == 0) || (o.owner == who.uid) || (o.owner == who.euid) || who.dac_override

-- What happens to a sleeping opener: a signal, or it has the lock again and finds the owner so.
pub data Wake : Type 0 where
  signalled : Wake
  woken : Owned → Wake

pub data Entered : Type 0 where
  entered : Owned → Entered
  given_up : Errno → Entered
  asleep : Entered

-- The loop of `scull_w_open`, up to the grab.
pub await_available : Opener → List Wake → Owned → Entered
unfolding grab
await_available who [] o =
    if scull_w_available who o
    then entered (grab who o)
    else if who.nonblock
    then given_up eagain
    else asleep
await_available who (signalled ∷ ws) o =
    if scull_w_available who o
    then entered (grab who o)
    else if who.nonblock
    then given_up eagain
    else given_up erestartsys
await_available who (woken o' ∷ ws) o =
    let rest = await_available who ws o' in
    if scull_w_available who o
    then entered (grab who o)
    else if who.nonblock
    then given_up eagain
    else rest

-- A process that still sleeps has no result yet.
unfoldable pub scull_w_open :
    Settings → Opener → List Wake → Owned → ScullDev → Result (Unit {0}) × Owned × ScullDev
scull_w_open s who wakes o dev = elim (await_available who wakes o) [
  | entered o' ↦ (ok tt, o', trimmed s who.wronly dev)
  | given_up e ↦ (err e, o, dev)
  | asleep ↦ (oops, o, dev)
]

-- The second component says whether the sleepers are woken.
unfoldable pub scull_w_release : Owned → Owned × Bool
scull_w_release o =
    let temp = (o.count + 2 ^ 32 - 1) % 2 ^ 32 in (record o { count = temp }, temp == 0)

-- `struct scull_listitem`
pub record ListItem : Type 0 where
  pub device : ScullDev
  pub key : ℕ

-- The item with a key, the first in the list.
pub find_item : ℕ → List ListItem → Option ScullDev
find_item key [] = none
find_item key (l ∷ ls) = if l.key == key then some l.device else find_item key ls

-- The device with a key, which is added in front if it is missing; `kmalloc` says whether there is
-- memory for it. `none` is NULL. The memory is cleared, so that the trimmed device is an empty one.
unfoldable pub scull_c_lookfor_device :
    Settings → Bool → ℕ → List ListItem → Option ScullDev × List ListItem
scull_c_lookfor_device s kmalloc key ls = elim (find_item key ls) [
  | some dev ↦ (some dev, ls)
  | none ↦
      let dev =
        scull_trim s (record {
          m_qset = 0;
          n_quantum = 0;
          qsets = [];
          ln_qlst = 0;
          size = 0;
          access_key = 0;
        }) in
      if not kmalloc then (none, ls) else (some dev, record { device = dev; key = key } ∷ ls)
]

-- The device of a key is changed in the list.
pub update_item : ℕ → ScullDev → List ListItem → List ListItem
update_item key dev [] = []
update_item key dev (l ∷ ls) =
    let rest = update_item key dev ls in
    if l.key == key then record l { device = dev } ∷ ls else l ∷ rest

-- `tty` is the number of the terminal of the process, if it has one.
unfoldable pub scull_c_open :
    Settings → Bool → Option ℕ → Bool → List ListItem → Result ℕ × List ListItem
unfolding scull_c_lookfor_device
scull_c_open s kmalloc tty wronly ls = elim tty [
  | none ↦ (err einval, ls)
  | some key ↦
      let (dev, ls') = scull_c_lookfor_device s kmalloc key ls in
      elim dev [
        | none ↦ (err enomem, ls')
        | some d ↦ (ok key, (if wronly then update_item key (scull_trim s d) ls' else ls'))
      ]
]
