-- ===== src/Scull/Tests.antt =====
-- A bare device with quanta of four bytes, two in a set.
use ats_ldd.Base.{
  ℕ, zero, suc, ◌+◌, ◌≤◌, ◌<◌, ◌≡◌, refl, true, false, [], ◌∷◌, none, some, ok, err, oops, enomem,
  arith, length,
}
use ats_ldd.Scull.{Settings, ScullDev, scull_trim}
use ats_ldd.Scull.Transfer.{
  Memory, UserCopy, locate, quantum_at, slice, scull_read_main, scull_read, qsetlst_make,
  scull_follow_main, takeout_quantum, takeout_write, scull_write_main, finish_write, scull_write,
}
use ats_ldd.Scull.Contents.{IsScull, content}
use ats_ldd.Scull.Grown.{Plenty}
use ats_ldd.Scull.File.{Wrote, bytes_left, scull_write-Wrote, scull_read-content}
use ats_ldd.Scull.Session.{scull_read-scull_write}

abbrev settings : Settings
settings = record { scull_quantum = 4; scull_qset = 2; scull_p_buffer = 0 }

abbrev new_device : ScullDev
new_device = record { m_qset = 2; n_quantum = 4; qsets = []; ln_qlst = 0; size = 0; access_key = 0 }

-- Two sets; only the first quantum of the second is there.
abbrev device : ScullDev
device = record new_device {
  qsets = none ∷ some (λ i. elim i [ zero ↦ some (λ o. o + 65) | suc _ ↦ none ]) ∷ [];
  ln_qlst = 2;
  size = 11;
}

abbrev memory : Memory
memory = record { set = λ n. true; array = true; quantum = true }

abbrev no_memory : Memory
no_memory = record { set = λ n. false; array = true; quantum = true }

abbrev copies : UserCopy
copies = record { whole = λ n. true; source = λ o. o + 97 }

device-IsScull : IsScull device
device-IsScull = record {
  quantum = omega arith;
  sets = omega arith;
  small = omega arith;
  counted = refl;
  few = omega arith;
  covered = omega arith;
}

-- A hole reads as zeros, and a read ends with the quantum.
read_hole : scull_read copies true device 10 6 ≡ (ok 2, 0 ∷ 0 ∷ [], 8)
unfolding scull_read scull_read_main locate quantum_at slice
read_hole = refl

-- A read ends with the file.
read_end : scull_read copies true device 10 8 ≡ (ok 3, 65 ∷ 66 ∷ 67 ∷ [], 11)
unfolding scull_read scull_read_main locate quantum_at slice
read_end = refl

-- A write past the end makes the sets up to its own.
write_past : length (scull_write copies memory true device 9 30).2.qsets ≡ 4
unfolding scull_write scull_write_main locate scull_follow_main takeout_write takeout_quantum
    qsetlst_make finish_write
write_past = refl

write_no_memory : (scull_write copies no_memory true device 9 30).0 ≡ err enomem
unfolding scull_write scull_write_main locate scull_follow_main qsetlst_make finish_write
write_no_memory = refl

-- With a quantum of 0, which SCULL_IOCTQUANTUM takes, the next write after a trim divides by 0.
write_no_quantum :
    (scull_write copies memory true
      (scull_trim (record settings { scull_quantum = 0 }) new_device)
      1
      0).0
    ≡ oops
unfolding scull_write locate scull_trim
write_no_quantum = refl

plenty : Plenty memory
plenty = record { sets = λ n. refl; array = refl; quantum = refl }

scull_write-Wrote_example :
    Wrote copies memory device 9 30 (scull_write copies memory true device 9 30)
scull_write-Wrote_example =
    scull_write-Wrote copies device 30 device-IsScull (omega arith) memory 9 (omega arith)

scull_read-content_example : scull_read copies true device 10 6 ≡ (
  ok (bytes_left device 10 6),
  slice (content device) 6 (bytes_left device 10 6),
  6 + bytes_left device 10 6,
)
scull_read-content_example =
    scull_read-content copies device 10 6 device-IsScull (omega arith) (omega arith) (omega arith)
      refl

scull_read-scull_write_example :
    (k : ℕ) × (0 < k)
    × (k ≤ 9)
    × (let (r, pos, dev') = scull_write copies memory true device 9 30 in
        (r ≡ ok k)
        × (pos ≡ 30 + k)
        × (scull_read copies true dev' k 30 ≡ (ok k, slice copies.source 0 k, 30 + k)))
scull_read-scull_write_example =
    scull_read-scull_write copies copies memory device 9 30 device-IsScull (omega arith)
      (omega arith) (omega arith) (omega arith) plenty (λ n. refl) (λ n. refl)
