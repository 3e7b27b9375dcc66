-- ===== src/Access/Clone.antt =====
-- The devices of ATS/scull/access.c that every terminal has for itself.
use ats_ldd.Base.{
  ℕ, ◌≡◌, ◌≢◌, refl, ◌∙◌, Bool, true, false, List, [], ◌∷◌, Option, none, some, ok, arith,
  if◌then◌else◌, Option-cases, inl, inr,
}
use ats_ldd.Scull.{Settings, ScullDev, scull_trim}
use ats_ldd.Access.{ListItem, find_item, scull_c_lookfor_device, update_item, scull_c_open}

find-update :
    (key : ℕ) (dev old : ScullDev) (ls : List ListItem)
    → find_item key ls ≡ some old
    → find_item key (update_item key dev ls) ≡ some dev
unfolding find_item update_item
find-update key dev old [] e = absurd (ground arith)
find-update key dev old (l ∷ ls) e = ground (arith, find-update key dev old ls)

find-update_other :
    (key key' : ℕ) (dev : ScullDev) (ls : List ListItem)
    → key ≢ key'
    → find_item key' (update_item key dev ls) ≡ find_item key' ls
unfolding find_item update_item
find-update_other key key' dev [] ne = refl
find-update_other key key' dev (l ∷ ls) ne = ground (arith, find-update_other key key' dev ls)

-- An empty device with the current settings.
abbrev pub new_device : Settings → ScullDev
new_device s =
    scull_trim s
      (record { m_qset = 0; n_quantum = 0; qsets = []; ln_qlst = 0; size = 0; access_key = 0 })

lookfor-some :
    (s : Settings) (key : ℕ) (dev : ScullDev) (ls : List ListItem)
    → find_item key ls ≡ some dev
    → scull_c_lookfor_device s true key ls ≡ (some dev, ls)
unfolding scull_c_lookfor_device
lookfor-some s key dev ls e = ground arith

lookfor-none :
    (s : Settings) (key : ℕ) (ls : List ListItem)
    → find_item key ls ≡ none
    → scull_c_lookfor_device s true key ls
      ≡ (some (new_device s), record { device = new_device s; key = key } ∷ ls)
unfolding scull_c_lookfor_device
lookfor-none s key ls e = ground arith

find-new :
    (key : ℕ) (dev : ScullDev) (ls : List ListItem)
    → find_item key (record { device = dev; key = key } ∷ ls) ≡ some dev
unfolding find_item
find-new key dev ls = ground arith

find-new_other :
    (key key' : ℕ) (dev : ScullDev) (ls : List ListItem)
    → key ≢ key'
    → find_item key' (record { device = dev; key = key } ∷ ls) ≡ find_item key' ls
unfolding find_item
find-new_other key key' dev ls ne = ground arith

-- The device of a key after opening, given the one before.
abbrev pub opened_device : Settings → Bool → Option ScullDev → ScullDev
opened_device s wronly old =
    let dev : ScullDev = elim old [ none ↦ new_device s | some d ↦ d ] in
    if wronly then scull_trim s dev else dev

open-lookfor :
    (s : Settings) (key : ℕ) (wronly : Bool) (d : ScullDev) (ls ls' : List ListItem)
    → scull_c_lookfor_device s true key ls ≡ (some d, ls')
    → find_item key ls' ≡ some d
    → ((key' : ℕ) → key ≢ key' → find_item key' ls' ≡ find_item key' ls)
    → (out : List ListItem) × (scull_c_open s true (some key) wronly ls ≡ (ok key, out))
      × (find_item key out ≡ some (if wronly then scull_trim s d else d))
      × ((key' : ℕ) → key ≢ key' → find_item key' out ≡ find_item key' ls)
unfolding scull_c_open
open-lookfor s key true d ls ls' e f others = (
  update_item key (scull_trim s d) ls',
  ground (arith, e),
  find-update key (scull_trim s d) d ls' f,
  λ key' ne. find-update_other key key' (scull_trim s d) ls' ne ∙ others key' ne,
)
open-lookfor s key false d ls ls' e f others = (ls', ground (arith, e), f, others)

-- `scull_c_open` of a process on terminal `key`, with memory: it succeeds, `key` has a device
-- afterwards, the one that it had or else a new empty one, trimmed if it is opened only to be
-- written, and the devices of all other keys stay as they are.
scull_c_open-private :
    (s : Settings) (key : ℕ) (wronly : Bool) (ls : List ListItem)
    → (out : List ListItem) × (scull_c_open s true (some key) wronly ls ≡ (ok key, out))
      × (find_item key out ≡ some (opened_device s wronly (find_item key ls)))
      × ((key' : ℕ) → key ≢ key' → find_item key' out ≡ find_item key' ls)
scull_c_open-private s key wronly ls = elim (Option-cases (find_item key ls)) [
  | inr (dev, there) ↦
      let (out, a, b, c) =
        open-lookfor s key wronly dev ls ls (lookfor-some s key dev ls there) there
          (λ k ne. refl) in
      (out, a, rw there b, c)
  | inl away ↦
      let (out, a, b, c) =
        open-lookfor s key wronly (new_device s) ls
          (record { device = new_device s; key = key } ∷ ls) (lookfor-none s key ls away)
          (find-new key (new_device s) ls) (λ k ne. find-new_other key k (new_device s) ls ne) in
      (out, a, rw away b, c)
]
