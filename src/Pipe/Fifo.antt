-- ===== src/Pipe/Fifo.antt =====
-- Reading and writing in ATS/scull/pipe.c, against the bytes in the pipe.
use ats_ldd.Base.{
  ℕ, ◌+◌, ◌-◌, ◌≤◌, ◌<◌, min, ◌≡◌, ◌≢◌, refl, sym, ap, ap₂, ◌∙◌, Bool, true, false, oops, List,
  ◌++◌, append-nil, append_assoc, ok, if◌then◌else◌, ltb, leb, length, take, arith, Bool-cases, inl,
  inr, ℕ_discrete,
}
use ats_ldd.Pipe.{
  Pipe, slice, fill, in_memory, read_count, write_count, wrap_at, take_data, accept_data, spacefree,
}
use ats_ldd.Pipe.Queue.{
  contents, IsPipe, in_memory-part, slice-join, fill-slice, fill-before, fill-after, length-slice,
  contents-straight, contents-wrapped, length-straight, length-wrapped, spacefree-contents,
}

after_read : Pipe → ℕ → Pipe
after_read p n = record p { rp = wrap_at p.buf_end (p.rp + n) }

read_count_lem :
    (p : Pipe) (count : ℕ)
    → read_count p count
      ≡ (if ltb p.rp p.wp then min count (p.wp - p.rp) else min count (p.buf_end - p.rp))
unfolding read_count
read_count_lem p count = refl

after_read-IsPipe : (p : Pipe) (count : ℕ) → IsPipe p → IsPipe (after_read p (read_count p count))
unfolding after_read wrap_at
after_read-IsPipe p count h = record {
  whole = h.whole;
  reading = ground (arith, read_count_lem p count, h.whole, h.reading, h.writing);
  writing = h.writing;
  backed = h.backed;
}

-- The pointer behind the end of the buffer, or at its start.
wrap_at-inside : (stop p : ℕ) → p ≢ stop → wrap_at stop p ≡ p
unfolding wrap_at
wrap_at-inside stop p h = ground arith

wrap_at-end : (stop p : ℕ) → p ≡ stop → wrap_at stop p ≡ 0
unfolding wrap_at
wrap_at-end stop p h = ground arith

-- The pipe with other pointers.
abbrev at : Pipe → ℕ → ℕ → Pipe
at p r w = record p { rp = r; wp = w }

read_straight :
    (p : Pipe) (n : ℕ)
    → IsPipe p
    → n ≤ p.wp - p.rp
    → p.rp < p.wp
    → slice p.buffer p.rp n ++ contents (after_read p n) ≡ contents p
unfolding after_read
read_straight p n h l lt =
    let r : wrap_at p.buf_end (p.rp + n) ≡ p.rp + n =
      wrap_at-inside p.buf_end (p.rp + n) (omega (arith, h.whole, h.writing)) in
    ap (λ x. slice p.buffer p.rp n ++ contents (at p x p.wp)) r
    ∙ ap (λ l. slice p.buffer p.rp n ++ l) (contents-straight (at p (p.rp + n) p.wp) (omega arith))
    ∙ slice-join p.buffer p.rp n (p.wp - (p.rp + n)) refl (omega arith)
    ∙ sym (contents-straight p (omega arith))

read_wrapped :
    (p : Pipe) (n : ℕ)
    → IsPipe p
    → n ≤ p.buf_end - p.rp
    → p.wp < p.rp
    → slice p.buffer p.rp n ++ contents (after_read p n) ≡ contents p
unfolding after_read
read_wrapped p n h l gt = elim (ℕ_discrete (p.rp + n) p.buf_end) [
  | yes e ↦
      let all : n ≡ p.buf_end - p.rp = omega arith in
      ap (λ x. slice p.buffer p.rp n ++ contents (at p x p.wp)) (wrap_at-end p.buf_end (p.rp + n) e)
      ∙ ap₂ (λ k l. slice p.buffer p.rp k ++ l) all (contents-straight (at p 0 p.wp) (omega arith))
      ∙ ap (λ k. slice p.buffer p.rp (p.buf_end - p.rp) ++ slice p.buffer 0 k) (omega arith)
      ∙ sym (contents-wrapped p gt)
  | no ne ↦
      ap (λ x. slice p.buffer p.rp n ++ contents (at p x p.wp))
        (wrap_at-inside p.buf_end (p.rp + n) ne)
      ∙ ap (λ l. slice p.buffer p.rp n ++ l) (contents-wrapped (at p (p.rp + n) p.wp) (omega arith))
      ∙ sym (
          append_assoc (slice p.buffer p.rp n) (slice p.buffer (p.rp + n) (p.buf_end - (p.rp + n)))
            (slice p.buffer 0 p.wp))
      ∙ ap (λ l. l ++ slice p.buffer 0 p.wp)
          (slice-join p.buffer p.rp n (p.buf_end - (p.rp + n)) refl
            (omega (arith, h.whole, h.reading)))
      ∙ sym (contents-wrapped p gt)
]

after_read-contents :
    (p : Pipe) (count : ℕ)
    → IsPipe p
    → p.rp ≢ p.wp
    → slice p.buffer p.rp (read_count p count) ++ contents (after_read p (read_count p count))
      ≡ contents p
after_read-contents p count h ne = elim (Bool-cases (ltb p.rp p.wp)) [
  | inl lt ↦
      read_straight p (read_count p count) h (ground (arith, read_count_lem p count)) (ground arith)
  | inr ge ↦
      read_wrapped p (read_count p count) h (ground (arith, read_count_lem p count)) (ground arith)
]

-- What a read and a write take up lies in the memory.
read_inside :
    (p : Pipe) (count : ℕ) → IsPipe p → in_memory p.memory p.rp (read_count p count) ≡ true
read_inside p count h =
    in_memory-part p.memory p.buffersize p.rp (read_count p count) h.backed
      (ground (arith, read_count_lem p count, h.whole, h.reading, h.writing))

-- A read of a well-formed pipe goes to its memory only, whether there are bytes or not.
pub take_data-returns :
    (p : Pipe) (copied : Bool) (count : ℕ) → IsPipe p → (take_data copied count p).0 ≢ oops
unfolding take_data
take_data-returns p true count h = rw (read_inside p count h) (λ e. cc)
take_data-returns p false count h = rw (read_inside p count h) (λ e. cc)

-- From a well-formed pipe that is not empty, a read whose copy succeeds takes its bytes off the
-- front of the pipe, no more than asked for, at least one if one is asked for, and leaves a
-- well-formed pipe.
pub take_data-contents :
    (p : Pipe) (count : ℕ)
    → IsPipe p
    → p.rp ≢ p.wp
    → (bytes : List ℕ) × (p' : Pipe) × (take_data true count p ≡ (ok bytes, p'))
      × IsPipe p'
      × (bytes ++ contents p' ≡ contents p)
      × (length bytes ≤ count)
      × (min 1 count ≤ length bytes)
unfolding take_data after_read
take_data-contents p count h ne =
    let n : ℕ = read_count p count in
    let l : length (slice p.buffer p.rp n) ≡ n = length-slice p.buffer p.rp n in
    (
      slice p.buffer p.rp n,
      after_read p n,
      rw (read_inside p count h) refl,
      after_read-IsPipe p count h,
      after_read-contents p count h ne,
      ground (arith, read_count_lem p count),
      ground (arith, read_count_lem p count, h.whole, h.reading),
    )

after_write : Pipe → ℕ → List ℕ → Pipe
after_write p n bytes = record p {
  buffer = fill p.buffer p.wp n bytes;
  wp = wrap_at p.buf_end (p.wp + n);
}

-- The pipe with another buffer and write pointer.
abbrev grown : Pipe → (ℕ → ℕ) → ℕ → Pipe
grown p m w = record p { buffer = m; wp = w }

write_count_lem :
    (p : Pipe) (count : ℕ)
    → write_count p count ≡ (
        if leb p.rp p.wp
        then min (min count (spacefree p)) (p.buf_end - p.wp)
        else min (min count (spacefree p)) (p.rp - p.wp - 1))
unfolding write_count
write_count_lem p count = refl

nothing_more :
    (p : Pipe) (m : ℕ → ℕ)
    → slice m p.rp (p.buf_end - p.rp) ++ slice m 0 0 ≡ slice m p.rp (p.buf_end - p.rp)
unfolding slice
nothing_more p m = append-nil (slice m p.rp (p.buf_end - p.rp))

write_straight :
    (p : Pipe) (n : ℕ) (bytes : List ℕ)
    → IsPipe p
    → n ≤ length bytes
    → n ≤ spacefree p
    → n ≤ p.buf_end - p.wp
    → p.rp ≤ p.wp
    → contents (after_write p n bytes) ≡ contents p ++ take n bytes
unfolding after_write
write_straight p n bytes h b room l le =
    let m : ℕ → ℕ = fill p.buffer p.wp n bytes in
    let free : p.wp - p.rp + n + 1 ≤ p.buffersize =
      omega (arith, spacefree-contents p h, length-straight p le) in
    let both : slice m p.rp (p.wp - p.rp) ++ slice m p.wp n ≡ contents p ++ take n bytes =
      ap₂ (λ a b. a ++ b)
        (fill-before p.buffer p.wp n bytes p.rp (p.wp - p.rp) (omega arith)
          ∙ sym (contents-straight p le))
        (fill-slice p.buffer p.wp n bytes b) in
    elim (ℕ_discrete (p.wp + n) p.buf_end) [
      | yes e ↦
          ap (λ x. contents (grown p m x)) (wrap_at-end p.buf_end (p.wp + n) e)
          ∙ contents-wrapped (grown p m 0) (omega (arith, h.whole))
          ∙ nothing_more p m
          ∙ sym (slice-join m p.rp (p.wp - p.rp) n (omega arith) (omega arith))
          ∙ both
      | no ne ↦
          ap (λ x. contents (grown p m x)) (wrap_at-inside p.buf_end (p.wp + n) ne)
          ∙ contents-straight (grown p m (p.wp + n)) (omega arith)
          ∙ sym (slice-join m p.rp (p.wp - p.rp) n (omega arith) (omega arith))
          ∙ both
    ]

write_wrapped :
    (p : Pipe) (n : ℕ) (bytes : List ℕ)
    → IsPipe p
    → n ≤ length bytes
    → n ≤ p.rp - p.wp - 1
    → p.wp < p.rp
    → contents (after_write p n bytes) ≡ contents p ++ take n bytes
unfolding after_write
write_wrapped p n bytes h b l gt =
    let m : ℕ → ℕ = fill p.buffer p.wp n bytes in
    ap (λ x. contents (grown p m x))
      (wrap_at-inside p.buf_end (p.wp + n) (omega (arith, h.whole, h.reading)))
    ∙ contents-wrapped (grown p m (p.wp + n)) (omega arith)
    ∙ ap₂ (λ a b. a ++ b) (fill-after p.buffer p.wp n bytes p.rp (p.buf_end - p.rp) (omega arith))
        (sym (slice-join m 0 p.wp n (omega arith) refl)
          ∙ ap₂ (λ a b. a ++ b) (fill-before p.buffer p.wp n bytes 0 p.wp (omega arith))
              (fill-slice p.buffer p.wp n bytes b))
    ∙ sym (
        append_assoc (slice p.buffer p.rp (p.buf_end - p.rp)) (slice p.buffer 0 p.wp)
          (take n bytes))
    ∙ ap (λ l. l ++ take n bytes) (sym (contents-wrapped p gt))

after_write-contents :
    (p : Pipe) (bytes : List ℕ)
    → IsPipe p
    → contents (after_write p (write_count p (length bytes)) bytes)
      ≡ contents p ++ take (write_count p (length bytes)) bytes
after_write-contents p bytes h = elim (Bool-cases (leb p.rp p.wp)) [
  | inl le ↦
      write_straight p (write_count p (length bytes)) bytes h
        (ground (arith, write_count_lem p (length bytes)))
        (ground (arith, write_count_lem p (length bytes)))
        (ground (arith, write_count_lem p (length bytes))) (ground arith)
  | inr gt ↦
      write_wrapped p (write_count p (length bytes)) bytes h
        (ground (arith, write_count_lem p (length bytes)))
        (ground (arith, write_count_lem p (length bytes))) (ground arith)
]

after_write-IsPipe :
    (p : Pipe) (bytes : List ℕ)
    → IsPipe p
    → IsPipe (after_write p (write_count p (length bytes)) bytes)
unfolding after_write wrap_at
after_write-IsPipe p bytes h = record {
  whole = h.whole;
  reading = h.reading;
  writing = ground (arith, write_count_lem p (length bytes), h.whole, h.reading, h.writing);
  backed = h.backed;
}

write_inside :
    (p : Pipe) (count : ℕ) → IsPipe p → in_memory p.memory p.wp (write_count p count) ≡ true
write_inside p count h =
    in_memory-part p.memory p.buffersize p.wp (write_count p count) h.backed
      (ground (arith, write_count_lem p count, h.whole, h.reading, h.writing))

-- So does a write.
pub accept_data-returns :
    (p : Pipe) (copied : Bool) (bytes : List ℕ) → IsPipe p → (accept_data copied bytes p).0 ≢ oops
unfolding accept_data
accept_data-returns p true bytes h = rw (write_inside p (length bytes) h) (λ e. cc)
accept_data-returns p false bytes h = rw (write_inside p (length bytes) h) (λ e. cc)

some_room :
    (p : Pipe) (count : ℕ) → IsPipe p → min (min 1 count) (spacefree p) ≤ write_count p count
some_room p count h = elim (Bool-cases (leb p.rp p.wp)) [
  | inl le ↦ ground (arith, write_count_lem p count, h.whole, h.writing)
  | inr gt ↦ ground (
    arith,
    write_count_lem p count,
    spacefree-contents p h,
    length-wrapped p h (ground arith),
    h.reading,
  )
]

-- In a well-formed pipe, a write whose copy succeeds appends the first bytes of its data, as many
-- as it returns, and leaves a well-formed pipe; this is at least one byte unless there is none or
-- `spacefree` is 0.
pub accept_data-contents :
    (p : Pipe) (bytes : List ℕ)
    → IsPipe p
    → (n : ℕ) × (p' : Pipe) × (accept_data true bytes p ≡ (ok n, p'))
      × IsPipe p'
      × (contents p' ≡ contents p ++ take n bytes)
      × (n ≤ length bytes)
      × (min (min 1 (length bytes)) (spacefree p) ≤ n)
unfolding accept_data after_write
accept_data-contents p bytes h = (
  write_count p (length bytes),
  after_write p (write_count p (length bytes)) bytes,
  rw (write_inside p (length bytes) h) refl,
  after_write-IsPipe p bytes h,
  after_write-contents p bytes h,
  ground (arith, write_count_lem p (length bytes)),
  some_room p (length bytes) h,
)
