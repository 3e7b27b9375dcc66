-- ===== src/Scull/Session.antt =====
-- Writes and reads of a device of ATS/scull/main.c one after the other.
use native.Mathlib.Nat.{mod-lt}
use ats_ldd.Base.{
  ℕ, ◌+◌, ◌-◌, ◌*◌, ◌/◌, ◌%◌, ◌^◌, ◌≤◌, ◌<◌, ◌≡◌, ◌≢◌, refl, ap, ap₂, ◌∙◌, Bool, true, false, ◌&&◌,
  List, Result, ok, oops, max, ltb, leb, arith,
}
use ats_ldd.Scull.{Settings, ScullDev, scull_trim}
use ats_ldd.Scull.Transfer.{Memory, UserCopy, slice, scull_read, scull_write}
use ats_ldd.Scull.Contents.{IsScull, item_size, content, slice-eq}
use ats_ldd.Scull.Grown.{Plenty}
use ats_ldd.Scull.File.{
  in_quantum, bytes_left, Holds, Wrote, accepted, no_memory, fault, scull_write-Wrote,
  scull_read-content,
}

-- What a write that was accepted reads as.
read_back :
    (user reader : UserCopy) (dev dev' : ScullDev) (f_pos k : ℕ)
    → Holds user dev f_pos k (max dev.size (f_pos + k)) dev'
    → 0 < k
    → k ≤ dev.n_quantum - f_pos % item_size dev % dev.n_quantum
    → k < 2 ^ 31
    → f_pos + k < 2 ^ 64
    → ((n : ℕ) → reader.whole n ≡ true)
    → scull_read reader true dev' k f_pos ≡ (ok k, slice user.source 0 k, f_pos + k)
read_back user reader dev dev' f_pos k h pos room small fits whole =
    let e : f_pos % item_size dev' % dev'.n_quantum ≡ f_pos % item_size dev % dev.n_quantum =
      ap₂ (λ (n m : ℕ). f_pos % (n * m) % n) (h.alike.0) (h.alike.1) in
    let same : bytes_left dev' k f_pos ≡ k = omega (arith, e, h.sized) in
    let bytes : slice (content dev') f_pos k ≡ slice user.source 0 k = slice-eq _ _ _ _ k (λ i l.
      let inside : (leb f_pos (f_pos + i) && ltb (f_pos + i) (f_pos + k)) ≡ true = ground arith in
      h.bytes (f_pos + i) ∙ rw inside (ap user.source (omega arith))) in
    scull_read-content reader dev' k f_pos h.valid (omega (arith, h.sized)) small fits
      (whole (bytes_left dev' k f_pos))
    ∙ ap (λ (x : ℕ). (ok x, slice (content dev') f_pos x, f_pos + x)) same
    ∙ ap (λ (b : List ℕ). (ok k, b, f_pos + k)) bytes

-- How a write ends that has what it asks for.
accepted_lem :
    (user reader : UserCopy) (mem : Memory) (dev : ScullDev) (count f_pos : ℕ)
    {o : Result ℕ × ℕ × ScullDev}
    → Wrote user mem dev count f_pos o
    → IsScull dev
    → 0 < count
    → count < 2 ^ 31
    → f_pos + count < 2 ^ 64
    → Plenty mem
    → ((n : ℕ) → user.whole n ≡ true)
    → ((n : ℕ) → reader.whole n ≡ true)
    → (k : ℕ) × (0 < k)
      × (k ≤ count)
      × (o.0 ≡ ok k)
      × (o.1 ≡ f_pos + k)
      × (scull_read reader true o.2 k f_pos ≡ (ok k, slice user.source 0 k, f_pos + k))
accepted_lem user reader mem dev count f_pos (no_memory dev' h lack) s some small fits m w v =
    absurd (lack m)
accepted_lem user reader mem dev count f_pos (fault dev' h bad) s some small fits m w v =
    absurd (let good = w (in_quantum dev f_pos count) in ground arith)
accepted_lem user reader mem dev count f_pos (accepted dev' h) s some small fits m w v =
    let k = in_quantum dev f_pos count in
    let j = mod-lt (f_pos % item_size dev) s.quantum in
    (
      k,
      omega arith,
      omega arith,
      refl,
      refl,
      read_back user reader dev dev' f_pos k h (omega arith) (omega arith) (omega arith)
          (omega arith) v,
    )

-- A write that has the memory it asks for and that can copy accepts some of its bytes; and a read of
-- as many at the same position gives these bytes.
pub scull_read-scull_write :
    (user reader : UserCopy) (mem : Memory) (dev : ScullDev) (count f_pos : ℕ)
    → IsScull dev
    → f_pos / item_size dev < 2 ^ 31 - 1
    → 0 < count
    → count < 2 ^ 31
    → f_pos + count < 2 ^ 64
    → Plenty mem
    → ((n : ℕ) → user.whole n ≡ true)
    → ((n : ℕ) → reader.whole n ≡ true)
    → (k : ℕ) × (0 < k)
      × (k ≤ count)
      × (let (r, pos, dev') = scull_write user mem true dev count f_pos in
          (r ≡ ok k)
          × (pos ≡ f_pos + k)
          × (scull_read reader true dev' k f_pos ≡ (ok k, slice user.source 0 k, f_pos + k)))
scull_read-scull_write user reader mem dev count f_pos s reach some small fits m w v =
    let (k, pos, le, r, moved, back) =
      accepted_lem user reader mem dev count f_pos
        (scull_write-Wrote user dev f_pos s reach mem count small) s some small fits m w v in
    (k, pos, le, (r, moved, back))

-- Settings with which a device can be used.
pub record Usable (set : Settings) : Type 0 where
  pub quantum : 0 < set.scull_quantum
  pub sets : 0 < set.scull_qset
  pub small : set.scull_quantum * set.scull_qset < 2 ^ 31

-- The devices that opening for writing and writing lead to, at positions whose set has a number that
-- is an `int`, and for counts that are.
pub data Reachable : ScullDev → Type 0 where
  opened : (set : Settings) (dev : ScullDev) → Usable set → Reachable (scull_trim set dev)
  written :
      (user : UserCopy) (mem : Memory) (lock : Bool) (dev : ScullDev) (count f_pos : ℕ)
      → Reachable dev
      → f_pos / item_size dev < 2 ^ 31 - 1
      → count < 2 ^ 31
      → Reachable ((scull_write user mem lock dev count f_pos).2)

Wrote-IsScull :
    {user : UserCopy} {mem : Memory} {dev : ScullDev} {count f_pos : ℕ}
    {o : Result ℕ × ℕ × ScullDev}
    → Wrote user mem dev count f_pos o
    → IsScull o.2 × (o.0 ≢ oops)
Wrote-IsScull (accepted dev' h) = (h.valid, λ e. cc)
Wrote-IsScull (no_memory dev' h _) = (h.valid, λ e. cc)
Wrote-IsScull (fault dev' h _) = (h.valid, λ e. cc)

-- Every device that opening for writing and writing lead to is well formed: the sets hold all
-- positions below the size, and their number is `ln_qlst`.
pub Reachable-IsScull : {dev : ScullDev} → Reachable dev → IsScull dev
unfolding scull_trim scull_write
Reachable-IsScull (opened set dev u) = record {
  quantum = u.quantum;
  sets = u.sets;
  small = u.small;
  counted = refl;
  few = omega arith;
  covered = omega arith;
}
Reachable-IsScull (written user mem false dev count f_pos r reach small) = Reachable-IsScull r
Reachable-IsScull (written user mem true dev count f_pos r reach small) =
    (Wrote-IsScull (scull_write-Wrote user dev f_pos (Reachable-IsScull r) reach mem count small)).0
