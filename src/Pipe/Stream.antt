-- ===== src/Pipe/Stream.antt =====
-- What goes through a pipe of ATS/scull/pipe.c from its opening on.
use ats_ldd.Base.{
  ℕ, zero, suc, ◌+◌, ◌-◌, ◌<◌, ◌≡◌, ◌≢◌, refl, sym, ap, ap₂, subst, ◌∙◌, Bool, true, List, [], ◌∷◌,
  ◌++◌, append_assoc, none, some, Option, oops, ◌≤◌, ok, if◌then◌else◌, not, ◌==◌, ltb, leb, length,
  take, arith, Bool-cases, inl, inr,
}
use ats_ldd.Pipe.{
  Pipe, OpenFile, Turn, write_count, in_memory, signalled, woken, slice, ready, take_data,
  accept_data, spacefree, scull_p_open, scull_p_poll, await_data, scull_getwritespace,
}
use ats_ldd.Pipe.Queue.{
  contents, IsPipe, contents-straight, spacefree-contents, length-straight, length-wrapped,
}
use ats_ldd.Pipe.Fifo.{
  take_data-contents, accept_data-contents, take_data-returns, accept_data-returns,
}

-- The size of the memory after an opening.
abbrev pub new_memory : ℕ → Option ℕ → ℕ
new_memory size memory = elim memory [ none ↦ size | some old ↦ old ]

-- The pipe that the opener leaves.
opened_pipe : ℕ → OpenFile → Pipe → Pipe
opened_pipe size filp dev = record dev {
  memory = some (new_memory size dev.memory);
  buffersize = size;
  buf_end = size;
  rp = 0;
  wp = 0;
  nreaders = if filp.fmode_read then dev.nreaders + 1 else dev.nreaders;
  nwriters = if filp.fmode_write then dev.nwriters + 1 else dev.nwriters;
}

opened_pipe-empty :
    (size : ℕ) (filp : OpenFile) (dev : Pipe) → contents (opened_pipe size filp dev) ≡ []
unfolding opened_pipe slice
opened_pipe-empty size filp dev = contents-straight (opened_pipe size filp dev) (omega arith)

-- An opening that succeeds leaves this pipe.
scull_p_open-opened :
    (size : ℕ) (kmalloc lock : Bool) (filp : OpenFile) (dev dev' : Pipe)
    → scull_p_open size kmalloc lock filp dev ≡ (ok tt, dev')
    → opened_pipe size filp dev ≡ dev'
unfolding scull_p_open opened_pipe
scull_p_open-opened size kmalloc lock filp dev dev' e = opened_lem (dev.memory) refl
  where
    opened_lem : (m : Option ℕ) → dev.memory ≡ m → opened_pipe size filp dev ≡ dev'
    opened_lem none t = ground (arith, e)
    opened_lem (some old) t = ground (arith, e)

-- Where its memory is that of a new buffer, or as large as one, the opener leaves a well-formed pipe.
opened_pipe-IsPipe :
    (size : ℕ) (filp : OpenFile) (dev : Pipe)
    → 0 < size
    → size ≤ new_memory size dev.memory
    → IsPipe (opened_pipe size filp dev)
unfolding opened_pipe in_memory
opened_pipe-IsPipe size filp dev h fits = record {
  whole = refl;
  reading = h;
  writing = h;
  backed = ground arith;
}

in_memory-start : (size n : ℕ) → in_memory (some size) 0 n ≡ not (ltb size n)
unfolding in_memory
in_memory-start size zero = ground arith
in_memory-start size (suc n) = ground arith

write_count_all :
    (size : ℕ) (filp : OpenFile) (dev : Pipe) (bytes : List ℕ)
    → length bytes + 1 ≡ size
    → write_count (opened_pipe size filp dev) (length bytes) ≡ length bytes
unfolding write_count spacefree opened_pipe
write_count_all size filp dev bytes h = ground arith

-- The write that fills the pipe that the opener leaves.
filled :
    (size : ℕ) (filp : OpenFile) (dev : Pipe) (bytes : List ℕ)
    → length bytes + 1 ≡ size
    → (accept_data true bytes (opened_pipe size filp dev)).0
      ≡ (if ltb (new_memory size dev.memory) (length bytes) then oops else ok (length bytes))
unfolding accept_data opened_pipe
filled size filp dev bytes h =
    rw
      (
        write_count_all size filp dev bytes h,
        in_memory-start (new_memory size dev.memory) (length bytes),
      )
      (ground arith)

-- When an opening of the pipe succeeds, whatever was in the pipe, no bytes are in it; and a write of
-- as many bytes as its new size has room for then stays in the memory, and is accepted whole, exactly
-- when they are no more than the memory: that of a new buffer of the new size where there was none,
-- and otherwise that of the buffer from before, which is kept however small it is.
pub scull_p_open-filled :
    (size : ℕ) (kmalloc lock : Bool) (filp : OpenFile) (dev dev' : Pipe) (bytes : List ℕ)
    → scull_p_open size kmalloc lock filp dev ≡ (ok tt, dev')
    → length bytes + 1 ≡ size
    → (contents dev' ≡ [])
      × ((accept_data true bytes dev').0
          ≡ (if ltb (new_memory size dev.memory) (length bytes) then oops else ok (length bytes)))
scull_p_open-filled size kmalloc lock filp dev dev' bytes e h =
    let at = scull_p_open-opened size kmalloc lock filp dev dev' e in
    (
      ap contents (sym at) ∙ opened_pipe-empty size filp dev,
      ap (λ d. (accept_data true bytes d).0) (sym at) ∙ filled size filp dev bytes h,
    )

-- Bytes written and bytes read, with the pipe after them.
pub data Passed (start : Pipe) : List ℕ → List ℕ → Pipe → Type 0 where
  opened : Passed start [] [] start
  wrote :
      {ins outs : List ℕ} {p p' : Pipe} (bytes : List ℕ) (n : ℕ)
      → Passed start ins outs p
      → accept_data true bytes p ≡ (ok n, p')
      → Passed start (ins ++ take n bytes) outs p'
  got :
      {ins outs : List ℕ} {p p' : Pipe} (bytes : List ℕ) (count : ℕ)
      → Passed start ins outs p
      → p.rp ≢ p.wp
      → take_data true count p ≡ (ok bytes, p')
      → Passed start ins (outs ++ bytes) p'

-- A pipe that is well formed and empty at the start keeps every byte, once and in order, through
-- whatever writes and reads: the bytes read, followed by the bytes in the pipe, are the bytes
-- written; the pipe stays well formed, with less bytes in it than its size; and no read or write of
-- it, whatever its count and its copy, goes to a byte outside the memory of the buffer.
pub Passed-in_order :
    {start p : Pipe} {ins outs : List ℕ}
    → IsPipe start
    → contents start ≡ []
    → Passed start ins outs p
    → IsPipe p
      × (outs ++ contents p ≡ ins)
      × (length (contents p) < p.buffersize)
      × ((copied : Bool) (count : ℕ) → (take_data copied count p).0 ≢ oops)
      × ((copied : Bool) (bytes : List ℕ) → (accept_data copied bytes p).0 ≢ oops)
Passed-in_order {start} {p} w e run =
    let (h, k) = kept run in
    (
      h,
      k,
      bounded h,
      λ copied count. take_data-returns p copied count h,
      λ copied bytes. accept_data-returns p copied bytes h,
    )
  where
    bounded : {p : Pipe} → IsPipe p → length (contents p) < p.buffersize
    bounded {p} h = omega (arith, spacefree-contents p h)

    kept :
        {p : Pipe} {ins outs : List ℕ}
        → Passed start ins outs p
        → IsPipe p × (outs ++ contents p ≡ ins)
    kept opened = (w, e)
    kept (wrote {ins = ins} {outs = outs} {p = p} {p' = p'} bytes n run step) =
        let (h, k) = kept run in
        let (n', q, go, h', app, l, some_byte) = accept_data-contents p bytes h in
        let same_n : n' ≡ n = ground (arith, go, step) in
        let same_q : q ≡ p' = ground (arith, go, step) in
        (
          subst IsPipe same_q h',
          ap (λ x. outs ++ contents x) (sym same_q)
              ∙ ap (λ l. outs ++ l) (app ∙ ap (λ (x : ℕ). contents p ++ take x bytes) same_n)
              ∙ sym (append_assoc outs (contents p) (take n bytes))
              ∙ ap (λ l. l ++ take n bytes) k,
        )
    kept (got {ins = ins} {outs = outs} {p = p} {p' = p'} bytes count run ne step) =
        let (h, k) = kept run in
        let (bytes', q, go, h', app, l, some_byte) = take_data-contents p count h ne in
        let same_b : bytes' ≡ bytes = ground (arith, go, step) in
        let same_q : q ≡ p' = ground (arith, go, step) in
        (
          subst IsPipe same_q h',
          append_assoc outs bytes (contents p')
              ∙ ap (λ l. outs ++ l) (ap₂ (λ b x. b ++ contents x) (sym same_b) (sym same_q) ∙ app)
              ∙ k,
        )

-- In a well-formed pipe, `scull_p_poll` says "readable" exactly when there are bytes in the pipe,
-- and "writable" exactly when they are less than the size of the buffer less one.
scull_p_poll-contents :
    (p : Pipe)
    → IsPipe p
    → ((scull_p_poll p).0 ≡ not (length (contents p) == 0))
      × ((scull_p_poll p).1 ≡ ltb (length (contents p)) (p.buffersize - 1))
unfolding scull_p_poll
scull_p_poll-contents p h = elim (Bool-cases (leb p.rp p.wp)) [
  | inl le ↦ (ground (arith, length-straight p), ground (arith, spacefree-contents p h))
  | inr gt ↦ (ground (arith, length-wrapped p h, h.reading), ground (arith, spacefree-contents p h))
]

-- A reader that the wait lets go on has data, whatever the others do to the device meanwhile.
await_data-ready :
    (nonblock : Bool) (turns : List Turn) (p p' : Pipe)
    → await_data nonblock turns p ≡ ready p'
    → p'.rp ≢ p'.wp
unfolding await_data
await_data-ready nonblock [] p p' e = ground arith
await_data-ready nonblock (signalled ∷ ts) p p' e = ground arith
await_data-ready nonblock (woken q ∷ ts) p p' e = ground (arith, await_data-ready nonblock ts q p')

-- A writer that the wait lets go on has space, whatever the others do to the device meanwhile.
scull_getwritespace-ready :
    (nonblock : Bool) (turns : List Turn) (p p' : Pipe)
    → scull_getwritespace nonblock turns p ≡ ready p'
    → spacefree p' ≢ 0
unfolding scull_getwritespace
scull_getwritespace-ready nonblock [] p p' e = ground arith
scull_getwritespace-ready nonblock (signalled ∷ ts) p p' e = ground arith
scull_getwritespace-ready nonblock (woken q ∷ ts) p p' e =
    ground (arith, scull_getwritespace-ready nonblock ts q p')
