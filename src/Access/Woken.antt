-- ===== src/Access/Woken.antt =====
-- The sleepers of ATS/scull/access.c: `scull_w_release` of the last opener, and `scull_w_open`.
use ats_ldd.Base.{◌≡◌, true, false, ◌^◌, ◌-◌, ◌+◌, ◌%◌, List, [], ◌∷◌, ◌++◌, map, All, arith}
use ats_ldd.Access.{
  Opener, Owned, woken, entered, grab, scull_w_available, await_available, scull_w_release,
}
use ats_ldd.Access.Owner.{Held, Held-Admitted}

enters :
    (next : Opener) (states : List Owned) (o o' : Owned)
    → next.nonblock ≡ false
    → All (λ (x : Owned). scull_w_available next x ≡ false) (o ∷ states)
    → scull_w_available next o' ≡ true
    → await_available next (map woken states ++ (woken o' ∷ [])) o ≡ entered (grab next o')
unfolding await_available
enters next [] o o' waits (taken, rest) free = ground arith
enters next (s ∷ states) o o' waits (taken, rest) free =
    let later = enters next states s o' waits rest free in ground arith

-- When the last opener of a device releases it, `scull_w_release` wakes the sleepers; and an opener
-- that may sleep, that found the device taken when it came and at each wake since, is let in at
-- this wake if it then finds the device as the release left it.
pub scull_w_release-await_available :
    {o : Owned} (who next : Opener) (states : List Owned) (o1 : Owned)
    → Held o (who ∷ [])
    → next.nonblock ≡ false
    → All (λ (x : Owned). scull_w_available next x ≡ false) (o1 ∷ states)
    → (let (o', wakes) = scull_w_release o in
        (wakes ≡ true)
        × (await_available next (map woken states ++ (woken o' ∷ [])) o1 ≡ entered (grab next o')))
unfolding scull_w_release scull_w_available
scull_w_release-await_available {o} who next states o1 held waits taken =
    let (one, all) = Held-Admitted held in
    let zero_left : (o.count + 2 ^ 32 - 1) % 2 ^ 32 ≡ 0 = omega arith in
    (ground arith, enters next states o1 (scull_w_release o).0 waits taken (ground arith))
