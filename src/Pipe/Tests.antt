-- ===== src/Pipe/Tests.antt =====
-- A pipe of four bytes, two of them in use across the end of the buffer.
use ats_ldd.Base.{
  ◌+◌, ◌<◌, ◌≡◌, ◌≢◌, ℕ, Bool, List, oops, refl, true, false, [], ◌∷◌, ◌++◌, some, ok, length, take,
  arith,
}
use ats_ldd.Pipe.{
  Pipe, OpenFile, woken, ready, accept_data, take_data, in_memory, spacefree, scull_p_open,
  await_data, scull_getwritespace, slice, write_count, wrap_at, fill,
}
use ats_ldd.Pipe.Queue.{contents, IsPipe}
use ats_ldd.Pipe.Stream.{opened, wrote, Passed-in_order, scull_p_open-filled}

abbrev four : Pipe
four = record {
  buffer = λ o. o + 40;
  memory = some 4;
  buf_end = 4;
  buffersize = 4;
  rp = 3;
  wp = 1;
  nreaders = 1;
  nwriters = 1;
}

abbrev empty : Pipe
empty = record four { rp = 3; wp = 3 }

abbrev full : Pipe
full = record four { rp = 2; wp = 1 }

abbrev both_ways : OpenFile
both_ways = record { fmode_read = true; fmode_write = true; nonblock = false }

four-IsPipe : IsPipe four
unfolding in_memory
four-IsPipe = record { whole = refl; reading = omega arith; writing = omega arith; backed = refl }

empty-IsPipe : IsPipe empty
unfolding in_memory
empty-IsPipe = record { whole = refl; reading = omega arith; writing = omega arith; backed = refl }

empty-contents : contents empty ≡ []
unfolding contents slice
empty-contents = refl

four-contents : contents four ≡ 43 ∷ 40 ∷ []
unfolding contents slice
four-contents = refl

abbrev wrapped : Pipe
wrapped = record empty { buffer = fill (λ o. o + 40) 3 1 (7 ∷ 8 ∷ []); wp = 0 }

one_written : accept_data true (7 ∷ 8 ∷ []) empty ≡ (ok 1, wrapped)
unfolding accept_data write_count spacefree wrap_at
one_written = refl

Passed-in_order_example :
    IsPipe wrapped
    × ([] ++ contents wrapped ≡ [] ++ take 1 (7 ∷ 8 ∷ []))
    × (length (contents wrapped) < 4)
    × ((copied : Bool) (count : ℕ) → (take_data copied count wrapped).0 ≢ oops)
    × ((copied : Bool) (bytes : List ℕ) → (accept_data copied bytes wrapped).0 ≢ oops)
Passed-in_order_example =
    Passed-in_order empty-IsPipe empty-contents (wrote (7 ∷ 8 ∷ []) 1 opened one_written)

abbrev reopened : Pipe
reopened = record four { buffersize = 8; buf_end = 8; rp = 0; wp = 0; nreaders = 2; nwriters = 2 }

four-reopened : scull_p_open 8 true true both_ways four ≡ (ok tt, reopened)
unfolding scull_p_open
four-reopened = refl

abbrev seven : List ℕ
seven = 1 ∷ 2 ∷ 3 ∷ 4 ∷ 5 ∷ 6 ∷ 7 ∷ []

scull_p_open-filled_example :
    (contents reopened ≡ []) × ((accept_data true seven reopened).0 ≡ oops)
scull_p_open-filled_example =
    scull_p_open-filled 8 true true both_ways four reopened seven four-reopened refl

four_ready : await_data false (woken four ∷ []) empty ≡ ready four
unfolding await_data
four_ready = refl

four_space : scull_getwritespace false (woken four ∷ []) full ≡ ready four
unfolding scull_getwritespace spacefree
four_space = refl
