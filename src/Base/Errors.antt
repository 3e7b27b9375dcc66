-- ===== src/Base/Errors.antt =====
-- How a C function of the repository ends: with a value, with a negative errno, or not at all
-- (`BUG_ON`, `panic`, a NULL pointer that is dereferenced).
use mathlib.Core.Path.{◌≡◌, refl}
use mathlib.Core.Bool.{Bool, true, false}
use ats_ldd.Base.Tests.{if◌then◌else◌}

pub data Errno : Type 0 where
  eio enomem enospc eopnotsupp einval enoent eexist ebusy eagain erestartsys efault : Errno
  enotty eperm : Errno

pub data Result {ℓ} (A : Type ℓ) : Type ℓ where
  ok : A → Result A
  err : Errno → Result A
  oops : Result A

abbrev pub and_then {ℓ κ} : {A : Type ℓ} {B : Type κ} → Result A → (A → Result B) → Result B
and_then (ok a) f = f a
and_then (err e) f = err e
and_then oops f = oops

-- What a success says of the steps before it.
pub and_then-ok {ℓ κ} :
    {A : Type ℓ} {B : Type κ} (m : Result A) (f : A → Result B) {b : B}
    → and_then m f ≡ ok b
    → (a : A) × (m ≡ ok a) × (f a ≡ ok b)
and_then-ok (ok a) f h = (a, refl, h)
and_then-ok (err e) f h = cc
and_then-ok oops f h = cc

pub guard-ok {ℓ} :
    {A : Type ℓ} (t : Bool) (e : Errno) (x : Result A) {a : A}
    → (if t then err e else x) ≡ ok a
    → (t ≡ false) × (x ≡ ok a)
guard-ok true e x h = cc
guard-ok false e x h = (refl, h)
