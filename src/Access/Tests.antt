-- ===== src/Access/Tests.antt =====
-- Openers of the devices of ATS/scull/access.c, and of the bare device's commands.
use ats_ldd.Base.{
  ℕ, ◌+◌, ◌≤◌, ◌≡◌, ◌≢◌, refl, true, false, [], ◌∷◌, All, ok, arith, ◌==◌, map, ◌++◌,
}
use ats_ldd.Scull.Seek.{Target, scull_llseek-Target}
use ats_ldd.Scull.{seek_end, behind, scull_llseek}
use ats_ldd.Base.{◌⊎◌, ◌<◌, ◌^◌, err, einval}
use ats_ldd.Scull.{Settings, ScullDev}
use ats_ldd.Scull.Ioctl.{
  Caller, known, iocsquantum, iocxquantum, iocreset, scull_ioctl, scull_ioctl-unprivileged,
  run_command, transfers,
}
use ats_ldd.Access.{
  Opener, Owned, woken, entered, await_available, scull_w_available, grab, scull_u_open,
  scull_w_release, atomic_dec_and_test,
}
use ats_ldd.Access.Single.{Reachable, start, after_step, takes, scull_s_open-exclusive}
use ats_ldd.Access.Owner.{Held, closed, u_opened, Admitted, Held-Admitted}
use ats_ldd.Access.Woken.{scull_w_release-await_available}

abbrev settings : Settings
settings = record { scull_quantum = 4000; scull_qset = 1000; scull_p_buffer = 4000 }

abbrev user : Opener
user = record { uid = 7; euid = 7; dac_override = false; wronly = false; nonblock = false }

abbrev unused : Owned
unused = record { count = 0; owner = 0 }

abbrev in_use : Owned
in_use = record { count = 1; owner = 7 }

abbrev of_other : Owned
of_other = record { count = 1; owner = 8 }

abbrev device : ScullDev
device = record {
  m_qset = 1000;
  n_quantum = 4000;
  qsets = [];
  ln_qlst = 0;
  size = 0;
  access_key = 0;
}

abbrev caller : Caller
caller = record { arg = 5; at_arg = 6; access = true; gets = true; puts = true; admin = false }

abbrev admin : Caller
admin = record caller { admin = true }

abbrev admin_after : Caller
admin_after = record admin { at_arg = 4000; arg = 4000 }

one_inside : Reachable (record { scull_s_available = 0; holders = 1; leaving = 0 })
unfolding atomic_dec_and_test
one_inside =
    after_step start
      (takes (record { scull_s_available = 1; holders = 0; leaving = 0 }) 0 (omega arith) refl)

scull_s_open-exclusive_example : (1 ≤ 1) × ((1 + 0 == 0) ≡ (atomic_dec_and_test 0).0)
scull_s_open-exclusive_example = scull_s_open-exclusive one_inside

user_opened : Held in_use (user ∷ [])
unfolding scull_u_open grab
user_opened = u_opened settings user device device (closed 0) (omega arith) refl

Held-Admitted_example : (◌≡◌ {A = ℕ} 1 1) × All (Admitted 7) (user ∷ [])
Held-Admitted_example = Held-Admitted user_opened

user_entered : await_available user (woken unused ∷ []) of_other ≡ entered in_use
unfolding await_available grab scull_w_available
user_entered = refl

set_ne_reset : known iocsquantum ≢ known iocreset
set_ne_reset e = ground arith

scull_ioctl-unprivileged_example :
    ((scull_ioctl caller settings (known iocsquantum)).1.scull_quantum ≡ 4000)
    × ((scull_ioctl caller settings (known iocsquantum)).1.scull_qset ≡ 1000)
scull_ioctl-unprivileged_example =
    scull_ioctl-unprivileged caller settings (known iocsquantum) refl set_ne_reset

first_exchange :
    admin_after
    ≡ record admin { at_arg = (scull_ioctl admin settings (known iocxquantum)).2; arg = 4000 }
unfolding scull_ioctl run_command transfers
first_exchange = refl

scull_llseek-Target_example :
    ((p : ℕ) × (scull_llseek seek_end (behind 3) device 9 ≡ (ok p, p))
      × Target 0 9 seek_end (behind 3) p
      × (p < 2 ^ 63))
    ⊎ ((scull_llseek seek_end (behind 3) device 9 ≡ (err einval, 9))
        × ((p : ℕ) → p < 2 ^ 63 → ¬ (Target 0 9 seek_end (behind 3) p)))
scull_llseek-Target_example =
    scull_llseek-Target seek_end (behind 3) device 9 (omega arith) (omega arith)

abbrev other : Opener
other = record { uid = 9; euid = 9; dac_override = false; wronly = false; nonblock = false }

not_for_other : scull_w_available other in_use ≡ false
unfolding scull_w_available
not_for_other = refl

scull_w_release-await_available_example :
    (let (o', wakes) = scull_w_release in_use in
      (wakes ≡ true)
      × (await_available other (map woken (in_use ∷ []) ++ (woken o' ∷ [])) in_use
          ≡ entered (grab other o')))
scull_w_release-await_available_example =
    scull_w_release-await_available user other (in_use ∷ []) in_use user_opened refl
      (not_for_other, (not_for_other, tt))
