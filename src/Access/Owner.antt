-- ===== src/Access/Owner.antt =====
-- The devices of ATS/scull/access.c that belong to a user while they are open.
use ats_ldd.Base.{
  ℕ, ◌+◌, ◌-◌, ◌^◌, ◌%◌, ◌<◌, ◌≡◌, refl, true, arith, ◌==◌, List, [], ◌∷◌, ◌++◌, length, All, ok,
  ◌||◌, subst, sym, get_elem?, some, Bool-cases, inl, inr, suc,
}
use ats_ldd.Scull.{Settings, ScullDev}
use ats_ldd.Access.{
  Opener, Owned, Wake, signalled, woken, entered, grab, scull_u_open, scull_u_release,
  scull_w_available, await_available, scull_w_release,
}

-- The opener may use a device that belongs to `owner`.
unfoldable pub Admitted : ℕ → Opener → Type 0
Admitted owner who = ((owner == who.uid) || (owner == who.euid) || who.dac_override) ≡ true

-- A device and the openers that have it open, the last one first.
pub data Held : Owned → List Opener → Type 0 where
  closed : (owner : ℕ) → Held (record { count = 0; owner = owner }) []
  u_opened :
      {o : Owned} {hs : List Opener} (s : Settings) (who : Opener) (dev dev' : ScullDev)
      {o' : Owned}
      → Held o hs
      → length hs + 1 < 2 ^ 32
      → scull_u_open s who o dev ≡ (ok tt, o', dev')
      → Held o' (who ∷ hs)
  w_opened :
      {o o' : Owned} {hs : List Opener} (who : Opener)
      → Held o hs
      → length hs + 1 < 2 ^ 32
      → await_available who [] o ≡ entered o'
      → Held o' (who ∷ hs)
  u_released :
      {o : Owned} (who : Opener) (xs ys : List Opener)
      → Held o (xs ++ (who ∷ ys))
      → Held (scull_u_release o) (xs ++ ys)
  w_released :
      {o : Owned} (who : Opener) (xs ys : List Opener)
      → Held o (xs ++ (who ∷ ys))
      → Held (scull_w_release o).0 (xs ++ ys)

All-drop :
    (P : Opener → Type 0) (who : Opener) (xs ys : List Opener)
    → All P (xs ++ (who ∷ ys))
    → All P (xs ++ ys)
All-drop P who [] ys h = h.1
All-drop P who (x ∷ xs) ys h = (h.0, All-drop P who xs ys h.1)

length-drop_one :
    (who : Opener) (xs ys : List Opener) → length (xs ++ (who ∷ ys)) ≡ length (xs ++ ys) + 1
length-drop_one who [] ys = omega arith
length-drop_one who (x ∷ xs) ys = omega (arith, length-drop_one who xs ys)

record Owns (o : Owned) (hs : List Opener) : Type 0 where
  count : o.count ≡ length hs
  small : length hs < 2 ^ 32
  all : All (Admitted o.owner) hs

Allowed : Opener → Owned → Type 0
Allowed who o =
    ((o.count == 0) || (o.owner == who.uid) || (o.owner == who.euid) || who.dac_override) ≡ true

grab-Owns :
    (who : Opener) (o : Owned) (hs : List Opener)
    → Owns o hs
    → length hs + 1 < 2 ^ 32
    → Allowed who o
    → Owns (grab who o) (who ∷ hs)
unfolding grab Allowed Admitted
grab-Owns who o [] w l a = record {
  count = ground (arith, w.count);
  small = omega arith;
  all = (ground (arith, w.count), tt);
}
grab-Owns who o (h ∷ hs) w l a = record {
  count = ground (arith, w.count);
  small = omega arith;
  all =
      let same : (grab who o).owner ≡ o.owner = ground (arith, w.count) in
      subst (λ n. All (Admitted n) (who ∷ h ∷ hs)) (sym same) (ground (arith, w.count), w.all);
}

drop-Owns :
    (who : Opener) (o o' : Owned) (xs ys : List Opener)
    → o'.owner ≡ o.owner
    → o'.count ≡ (o.count + 2 ^ 32 - 1) % 2 ^ 32
    → Owns o (xs ++ (who ∷ ys))
    → Owns o' (xs ++ ys)
drop-Owns who o o' xs ys e c w = record {
  count = omega (arith, w.count, w.small, length-drop_one who xs ys);
  small = omega (arith, w.small, length-drop_one who xs ys);
  all =
      subst (λ n. All (Admitted n) (xs ++ ys)) (sym e)
        (All-drop (Admitted o.owner) who xs ys w.all);
}

Held-Owns : {o : Owned} {hs : List Opener} → Held o hs → Owns o hs
unfolding scull_u_open scull_u_release scull_w_release await_available scull_w_available Allowed
Held-Owns (closed owner) = record { count = refl; small = omega arith; all = tt }
Held-Owns (u_opened {o = o} {hs = hs} s who dev dev' {o'} h l e) =
    subst (λ x. Owns x (who ∷ hs)) (ground arith)
      (grab-Owns who o hs (Held-Owns h) l (ground arith))
Held-Owns (w_opened {o = o} {o' = o'} {hs = hs} who h l e) =
    subst (λ x. Owns x (who ∷ hs)) (ground arith)
      (grab-Owns who o hs (Held-Owns h) l (ground arith))
Held-Owns (u_released {o = o} who xs ys h) =
    drop-Owns who o (scull_u_release o) xs ys refl refl (Held-Owns h)
Held-Owns (w_released {o = o} who xs ys h) =
    drop-Owns who o (scull_w_release o).0 xs ys refl refl (Held-Owns h)

-- After any opens and releases of a device that belongs to a user while it is open, with less than
-- `2 ^ 32` openers: the count is the number of those that have it open, and each of them has the
-- owner as its user, real or effective, or may override.
pub Held-Admitted :
    {o : Owned} {hs : List Opener} → Held o hs → (o.count ≡ length hs) × All (Admitted o.owner) hs
Held-Admitted h = let w = Held-Owns h in (w.count, w.all)

-- The owners that a sleeping opener finds, with the one it found first.
abbrev pub found : List Wake → Owned → List Owned
found [] o = o ∷ []
found (signalled ∷ ws) o = o ∷ []
found (woken o' ∷ ws) o = o ∷ found ws o'

-- `scull_w_open` is let in only in a state in which the device is available to it, one of those
-- that it finds when it comes or is woken, and it then takes its place in this state.
await_available-entered :
    (who : Opener) (wakes : List Wake) (o o' : Owned)
    → await_available who wakes o ≡ entered o'
    → (o1 : Owned) × (i : ℕ) × (get_elem? (found wakes o) i ≡ some o1)
      × (scull_w_available who o1 ≡ true)
      × (o' ≡ grab who o1)
unfolding await_available
await_available-entered who [] o o' e = (o, 0, refl, ground arith, ground arith)
await_available-entered who (signalled ∷ ws) o o' e = (o, 0, refl, ground arith, ground arith)
await_available-entered who (woken q ∷ ws) o o' e = elim (Bool-cases (scull_w_available who o)) [
  | inl free ↦ (o, 0, refl, ground arith, ground arith)
  | inr taken ↦
      let (o1, i, a, b, c) = await_available-entered who ws q o' (ground arith) in
      (o1, suc i, a, b, c)
]
