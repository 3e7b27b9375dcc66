-- ===== src/Scull/Seek.antt =====
-- `scull_llseek` of ATS/scull/main.c.
use ats_ldd.Base.{
  ℕ, ◌+◌, ◌-◌, ◌^◌, ◌<◌, ◌≡◌, ◌⊎◌, refl, inl, inr, Result, ok, err, einval, arith, ltb, Option,
  none, some, Bool-cases,
}
use ats_ldd.Scull.{
  ScullDev, Whence, seek_set, seek_cur, seek_end, other_whence, Offset, ahead, behind, moved,
  scull_llseek,
}

-- The position that an offset from a base stands for, if it is not negative.
pub data Shift (base : ℕ) : Offset → ℕ → Type 0 where
  forward : (n p : ℕ) → p ≡ base + n → Shift base (ahead n) p
  back : (n p : ℕ) → p + n ≡ base → Shift base (behind n) p

-- The position that the caller asks for: from the start of the file, from where it is, and from the
-- end of a file of this size.
pub data Target (size f_pos : ℕ) : Whence → Offset → ℕ → Type 0 where
  from_start : (off : Offset) (p : ℕ) → Shift 0 off p → Target size f_pos seek_set off p
  from_here : (off : Offset) (p : ℕ) → Shift f_pos off p → Target size f_pos seek_cur off p
  from_end : (off : Offset) (p : ℕ) → Shift size off p → Target size f_pos seek_end off p

abbrev answer : Option ℕ → ℕ → Result ℕ × ℕ
answer n f_pos = elim n [ none ↦ (err einval, f_pos) | some p ↦ (ok p, p) ]

-- Offsets ahead and behind end at one position only.
forward_inv : {base n p : ℕ} → Shift base (ahead n) p → p ≡ base + n
forward_inv (forward n p e) = e

back_inv : {base n p : ℕ} → Shift base (behind n) p → p + n ≡ base
back_inv (back n p e) = e

start_inv : {size f_pos p : ℕ} {off : Offset} → Target size f_pos seek_set off p → Shift 0 off p
start_inv (from_start off p s) = s

here_inv : {size f_pos p : ℕ} {off : Offset} → Target size f_pos seek_cur off p → Shift f_pos off p
here_inv (from_here off p s) = s

end_inv : {size f_pos p : ℕ} {off : Offset} → Target size f_pos seek_end off p → Shift size off p
end_inv (from_end off p s) = s

none_inv : {size f_pos p : ℕ} {off : Offset} → Target size f_pos other_whence off p → ⊥
none_inv = elim [ ]

from_base :
    (base : ℕ) (off : Offset) (f_pos : ℕ)
    → base < 2 ^ 63
    → ((p : ℕ) × (answer (moved base off) f_pos ≡ (ok p, p)) × Shift base off p × (p < 2 ^ 63))
      ⊎ ((answer (moved base off) f_pos ≡ (err einval, f_pos))
          × ((p : ℕ) → p < 2 ^ 63 → ¬ (Shift base off p)))
unfolding moved
from_base base (ahead n) f_pos h = elim (Bool-cases (ltb (base + n) (2 ^ 63))) [
  | inl fits ↦ inl (base + n, ground arith, forward n (base + n) refl, ground arith)
  | inr wraps ↦ inr (ground arith, λ p l s. let e = forward_inv s in ground arith)
]
from_base base (behind n) f_pos h = elim (Bool-cases (ltb base n)) [
  | inl below ↦ inr (ground arith, λ p l s. let e = back_inv s in ground arith)
  | inr inside ↦ inl (base - n, ground arith, back n (base - n) (ground arith), ground arith)
]

-- From a position and for a size below `2 ^ 63`: `scull_llseek` either succeeds, with the position
-- that the caller asks for as the result and as the new position, which is then below `2 ^ 63`; or it
-- fails with -EINVAL and leaves the position as it is, and then the caller asks for no position from 0
-- to `2 ^ 63`.
pub scull_llseek-Target :
    (whence : Whence) (off : Offset) (dev : ScullDev) (f_pos : ℕ)
    → f_pos < 2 ^ 63
    → dev.size < 2 ^ 63
    → ((p : ℕ) × (scull_llseek whence off dev f_pos ≡ (ok p, p))
        × Target dev.size f_pos whence off p
        × (p < 2 ^ 63))
      ⊎ ((scull_llseek whence off dev f_pos ≡ (err einval, f_pos))
          × ((p : ℕ) → p < 2 ^ 63 → ¬ (Target dev.size f_pos whence off p)))
unfolding scull_llseek
scull_llseek-Target other_whence off dev f_pos h k = inr (refl, λ p l. none_inv)
scull_llseek-Target seek_set off dev f_pos h k = elim (from_base 0 off f_pos (omega arith)) [
  | inl (p, e, s, l) ↦ inl (p, e, from_start off p s, l)
  | inr (e, no_p) ↦ inr (e, λ p l t. no_p p l (start_inv t))
]
scull_llseek-Target seek_cur off dev f_pos h k = elim (from_base f_pos off f_pos h) [
  | inl (p, e, s, l) ↦ inl (p, e, from_here off p s, l)
  | inr (e, no_p) ↦ inr (e, λ p l t. no_p p l (here_inv t))
]
scull_llseek-Target seek_end off dev f_pos h k = elim (from_base dev.size off f_pos k) [
  | inl (p, e, s, l) ↦ inl (p, e, from_end off p s, l)
  | inr (e, no_p) ↦ inr (e, λ p l t. no_p p l (end_inv t))
]
