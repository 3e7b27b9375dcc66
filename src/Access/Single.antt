-- ===== src/Access/Single.antt =====
-- The single-open device of ATS/scull/access.c when its openers run at the same time.
use ats_ldd.Base.{ℕ, ◌+◌, ◌-◌, ◌^◌, ◌%◌, ◌≤◌, ◌<◌, ◌≡◌, true, false, arith, ◌==◌}
use ats_ldd.Access.{atomic_dec_and_test, atomic_inc}

-- `scull_s_available`, how many processes have the device open, and how many have found it busy and
-- have not yet added their one back.
pub record Shared : Type 0 where
  pub scull_s_available : ℕ
  pub holders : ℕ
  pub leaving : ℕ

-- The atomic steps of `scull_s_open` and `scull_s_release`.
pub data Step : Shared → Shared → Type 0 where
  takes :
      (s : Shared) (a : ℕ)
      → s.holders + s.leaving + 1 < 2 ^ 32
      → atomic_dec_and_test s.scull_s_available ≡ (true, a)
      → Step s (record s { scull_s_available = a; holders = s.holders + 1 })
  finds_busy :
      (s : Shared) (a : ℕ)
      → s.holders + s.leaving + 1 < 2 ^ 32
      → atomic_dec_and_test s.scull_s_available ≡ (false, a)
      → Step s (record s { scull_s_available = a; leaving = s.leaving + 1 })
  leaves :
      (s : Shared)
      → 1 ≤ s.leaving
      → Step s
          (record s { scull_s_available = atomic_inc s.scull_s_available; leaving = s.leaving - 1 })
  releases :
      (s : Shared)
      → 1 ≤ s.holders
      → Step s
          (record s { scull_s_available = atomic_inc s.scull_s_available; holders = s.holders - 1 })

pub data Reachable : Shared → Type 0 where
  start : Reachable (record { scull_s_available = 1; holders = 0; leaving = 0 })
  after_step : {s s' : Shared} → Reachable s → Step s s' → Reachable s'

-- The counter is one less the processes inside, modulo `2 ^ 32`.
pub record Inv (s : Shared) : Type 0 where
  pub few : s.holders + s.leaving < 2 ^ 32
  pub balance : (s.scull_s_available + s.holders + s.leaving) % 2 ^ 32 ≡ 1
  pub bits : s.scull_s_available < 2 ^ 32
  pub one : s.holders ≤ 1

Step-Inv : {s s' : Shared} → Inv s → Step s s' → Inv s'
unfolding atomic_dec_and_test atomic_inc
Step-Inv i (takes s a h e) = record {
  few = omega arith;
  balance = ground (arith, i.balance, i.bits);
  bits = ground arith;
  one = ground (arith, i.balance, i.bits, i.one);
}
Step-Inv i (finds_busy s a h e) = record {
  few = omega arith;
  balance = ground (arith, i.balance, i.bits);
  bits = ground arith;
  one = i.one;
}
Step-Inv i (leaves s h) = record {
  few = omega (arith, i.few);
  balance = omega (arith, i.balance, i.bits);
  bits = omega arith;
  one = i.one;
}
Step-Inv i (releases s h) = record {
  few = omega (arith, i.few);
  balance = omega (arith, i.balance, i.bits);
  bits = omega arith;
  one = omega (arith, i.one);
}

Reachable-Inv : {s : Shared} → Reachable s → Inv s
Reachable-Inv start = record {
  few = omega arith;
  balance = omega arith;
  bits = omega arith;
  one = omega arith;
}
Reachable-Inv (after_step r t) = Step-Inv (Reachable-Inv r) t

-- In every interleaving of the atomic steps of the openers and of the releases, with less than
-- `2 ^ 32` processes inside, at most one process has the device open, and when none is inside the
-- next opener succeeds.
pub scull_s_open-exclusive :
    {s : Shared}
    → Reachable s
    → (s.holders ≤ 1) × ((s.holders + s.leaving == 0) ≡ (atomic_dec_and_test s.scull_s_available).0)
unfolding atomic_dec_and_test
scull_s_open-exclusive r =
    let i = Reachable-Inv r in (i.one, ground (arith, i.balance, i.bits, i.few))
