-- ===== src/Pipe.antt =====
-- ATS/scull/pipe.c: a device that is a pipe through a circular buffer.
pub mod Queue
pub mod Fifo
pub mod Stream
mod Tests
use ats_ldd.Base.{
  ℕ, zero, suc, ◌+◌, ◌-◌, ◌%◌, ◌^◌, min, Bool, true, false, List, [], ◌∷◌, ◌++◌, Option, none, some,
  Result, ok, err, oops, Errno, enomem, eagain, erestartsys, efault, if◌then◌else◌, ◌==◌, ltb, leb,
  not, ◌&&◌, length, get_or, take,
}

-- `struct scull_pipe`. The pointers into the buffer are offsets from its start; `buffer` is what it
-- holds, and `memory` the size of the memory it points to, `none` for NULL.
pub record Pipe : Type 0 where
  pub buffer : ℕ → ℕ
  pub memory : Option ℕ
  pub buf_end : ℕ
  pub buffersize : ℕ
  pub rp : ℕ
  pub wp : ℕ
  pub nreaders : ℕ
  pub nwriters : ℕ

-- `filp->f_mode` and `filp->f_flags`, as far as they are read.
pub record OpenFile : Type 0 where
  pub fmode_read : Bool
  pub fmode_write : Bool
  pub nonblock : Bool

-- `scull_p_buffer` and whether `kmalloc` gives memory are the first two arguments; the third is
-- whether the semaphore was had without a signal.
unfoldable pub scull_p_open : ℕ → Bool → Bool → OpenFile → Pipe → Result (Unit {0}) × Pipe
scull_p_open scull_p_buffer kmalloc lock filp dev =
    let opened = λ (size : ℕ). record dev {
      memory = some size;
      buffersize = scull_p_buffer;
      buf_end = scull_p_buffer;
      rp = 0;
      wp = 0;
      nreaders = if filp.fmode_read then dev.nreaders + 1 else dev.nreaders;
      nwriters = if filp.fmode_write then dev.nwriters + 1 else dev.nwriters;
    } in
    if not lock then (err erestartsys, dev) else elim (dev.memory) [
      | some size ↦ (ok tt, opened size)
      | none ↦ if not kmalloc then (err enomem, dev) else (ok tt, opened scull_p_buffer)
    ]

-- `n--` on an `int`, by its bits.
abbrev pub decrement : ℕ → ℕ
decrement n = (n + 2 ^ 32 - 1) % 2 ^ 32

unfoldable pub scull_p_release : OpenFile → Pipe → Pipe
scull_p_release filp dev =
    let dev' = record dev {
      nreaders = if filp.fmode_read then decrement dev.nreaders else dev.nreaders;
      nwriters = if filp.fmode_write then decrement dev.nwriters else dev.nwriters;
    } in
    if (dev'.nreaders + dev'.nwriters) % 2 ^ 32 == 0 then record dev' { memory = none } else dev'

-- What happens to a process that sleeps: a signal comes, or it has the semaphore again, and the
-- device is as the others have left it.
pub data Turn : Type 0 where
  signalled : Turn
  woken : Pipe → Turn

-- How the wait ends; `asleep` is where the turns end before it does.
pub data Waited : Type 0 where
  ready : Pipe → Waited
  given_up : Errno → Waited
  asleep : Waited

-- The loop of `scull_p_read`.
pub await_data : Bool → List Turn → Pipe → Waited
await_data nonblock [] dev =
    if not (dev.rp == dev.wp) then ready dev else if nonblock then given_up eagain else asleep
await_data nonblock (signalled ∷ ts) dev =
    if not (dev.rp == dev.wp)
    then ready dev
    else if nonblock
    then given_up eagain
    else given_up erestartsys
await_data nonblock (woken dev' ∷ ts) dev =
    let rest = await_data nonblock ts dev' in
    if not (dev.rp == dev.wp) then ready dev else if nonblock then given_up eagain else rest

-- `n` bytes of a buffer from an offset on.
pub slice : (ℕ → ℕ) → ℕ → ℕ → List ℕ
slice m o zero = []
slice m o (suc n) = m o ∷ slice m (o + 1) n

-- `copy_from_user` of the first `n` bytes of `bytes` to offset `o`.
unfoldable pub fill : (ℕ → ℕ) → ℕ → ℕ → List ℕ → ℕ → ℕ
fill m o n bytes i = if leb o i && ltb i (o + n) then get_or bytes (i - o) 0 else m i

-- The count of bytes that one read takes.
unfoldable pub read_count : Pipe → ℕ → ℕ
read_count dev count =
    if ltb dev.rp dev.wp then min count (dev.wp - dev.rp) else min count (dev.buf_end - dev.rp)

-- A pointer that has come to the end of the buffer goes back to its start.
unfoldable pub wrap_at : ℕ → ℕ → ℕ
wrap_at stop p = if p == stop then 0 else p

-- Whether the `n` bytes from an offset on lie in the memory of the buffer. An access beyond it is one
-- that the source does not define.
unfoldable pub in_memory : Option ℕ → ℕ → ℕ → Bool
in_memory memory o zero = true
in_memory none o (suc n) = false
in_memory (some size) o (suc n) = leb (o + suc n) size

-- The part of `scull_p_read` after the loop; `copied` is the answer of `copy_to_user`.
unfoldable pub take_data : Bool → ℕ → Pipe → Result (List ℕ) × Pipe
unfolding read_count wrap_at in_memory
take_data copied count dev =
    let n = read_count dev count in
    if not (in_memory dev.memory dev.rp n)
    then (oops, dev)
    else if not copied
    then (err efault, dev)
    else (ok (slice dev.buffer dev.rp n), record dev { rp = wrap_at dev.buf_end (dev.rp + n) })

-- The bytes that a read gives to the process. A process that still sleeps has none yet.
unfoldable pub scull_p_read : Bool → List Turn → Bool → OpenFile → ℕ → Pipe → Result (List ℕ) × Pipe
unfolding take_data
scull_p_read lock turns copied filp count dev =
    if not lock then (err erestartsys, dev) else elim (await_data filp.nonblock turns dev) [
      | ready dev' ↦ take_data copied count dev'
      | given_up e ↦ (err e, dev)
      | asleep ↦ (oops, dev)
    ]

unfoldable pub spacefree : Pipe → ℕ
spacefree dev =
    if dev.rp == dev.wp
    then dev.buffersize - 1
    else (dev.rp + dev.buffersize - dev.wp) % dev.buffersize - 1

-- The loop of `scull_getwritespace`.
pub scull_getwritespace : Bool → List Turn → Pipe → Waited
scull_getwritespace nonblock [] dev =
    if not (spacefree dev == 0) then ready dev else if nonblock then given_up eagain else asleep
scull_getwritespace nonblock (signalled ∷ ts) dev =
    if not (spacefree dev == 0)
    then ready dev
    else if nonblock
    then given_up eagain
    else given_up erestartsys
scull_getwritespace nonblock (woken dev' ∷ ts) dev =
    let rest = scull_getwritespace nonblock ts dev' in
    if not (spacefree dev == 0) then ready dev else if nonblock then given_up eagain else rest

-- The count of bytes that one write accepts.
unfoldable pub write_count : Pipe → ℕ → ℕ
write_count dev count =
    let room = min count (spacefree dev) in
    if leb dev.rp dev.wp then min room (dev.buf_end - dev.wp) else min room (dev.rp - dev.wp - 1)

-- The part of `scull_p_write` after the wait; `copied` is the answer of `copy_from_user`.
unfoldable pub accept_data : Bool → List ℕ → Pipe → Result ℕ × Pipe
unfolding write_count wrap_at fill in_memory
accept_data copied bytes dev =
    let n = write_count dev (length bytes) in
    if not (in_memory dev.memory dev.wp n)
    then (oops, dev)
    else if not copied
    then (err efault, dev)
    else (
      ok n,
      record dev { buffer = fill dev.buffer dev.wp n bytes; wp = wrap_at dev.buf_end (dev.wp + n) },
    )

unfoldable pub scull_p_write : Bool → List Turn → Bool → OpenFile → List ℕ → Pipe → Result ℕ × Pipe
unfolding accept_data
scull_p_write lock turns copied filp bytes dev =
    if not lock
    then (err erestartsys, dev)
    else elim (scull_getwritespace filp.nonblock turns dev) [
      | ready dev' ↦ accept_data copied bytes dev'
      | given_up e ↦ (err e, dev)
      | asleep ↦ (oops, dev)
    ]

-- Readable (`POLLIN | POLLRDNORM`) and writable (`POLLOUT | POLLWRNORM`).
unfoldable pub scull_p_poll : Pipe → Bool × Bool
scull_p_poll dev = (not (dev.rp == dev.wp), not (spacefree dev == 0))
