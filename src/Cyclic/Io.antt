-- ===== src/Cyclic/Io.antt =====
-- `cb_recv` and `cb_send` against the queue.
use os_unixvr4_labs.Common.{
  ℕ, ◌+◌, ◌-◌, ◌%◌, ◌≤◌, ◌≡◌, refl, sym, ap, ◌∙◌, List, [], ◌∷◌, ◌++◌, Option, none, some, arith,
  length, write_at, mod-eq_of_lt,
}
use os_unixvr4_labs.Cyclic.{
  CyclicBuffer, cb_free_space, cb_shift, cb_skip, cb_skip_right, cb_recv, cb_send, shift_to_send,
  offered,
}
use os_unixvr4_labs.Cyclic.Inv.{
  IsValid, ReadsAtMost, free_space-add-count, size-skip_right, size-skip, size-shift_to_send,
  shift_fields, shift-IsValid, shift_to_send-IsValid,
}
use os_unixvr4_labs.Cyclic.Contents.{
  contents, contents-shift, contents-skip, contents-put_block, shift_to_send_lem,
}
use os_unixvr4_labs.Cyclic.Queue
use os_unixvr4_labs.Cyclic.Queue.{
  Op, put, get, peek, clear, shift, skip, recv, send, Reply, done, flag, byte, count,
}

recv-failed :
    (b : CyclicBuffer) (read : ℕ → Option (List ℕ))
    → read (cb_free_space (cb_shift b)) ≡ none
    → cb_recv b read ≡ (none, cb_shift b)
unfolding cb_recv
recv-failed b read e = rw (e, cb_recv)

recv-ended :
    (b : CyclicBuffer) (read : ℕ → Option (List ℕ))
    → read (cb_free_space (cb_shift b)) ≡ some []
    → cb_recv b read ≡ (none, cb_shift b)
unfolding cb_recv
recv-ended b read e = rw (e, cb_recv)

-- The buffer with a block stored behind its bytes.
abbrev stored : CyclicBuffer → List ℕ → CyclicBuffer
stored b xs = cb_skip_right (record b { buf = write_at b.buf b.count xs }) (length xs)

recv-got :
    (b : CyclicBuffer) (read : ℕ → Option (List ℕ)) (x : ℕ) (xs : List ℕ)
    → read (cb_free_space (cb_shift b)) ≡ some (x ∷ xs)
    → cb_recv b read ≡ (some (length (x ∷ xs)), stored (cb_shift b) (x ∷ xs))
unfolding cb_recv
recv-got b read x xs e = rw (e, cb_recv)

-- Behind the bytes of a buffer that starts at 0 there is room in one piece.
contents-stored :
    {b : CyclicBuffer} (x : ℕ) (xs : List ℕ)
    → IsValid b
    → b.start ≡ 0
    → length (x ∷ xs) ≤ cb_free_space b
    → contents (stored b (x ∷ xs)) ≡ contents b ++ (x ∷ xs)
contents-stored {b} x xs v z free =
    ap
      (λ i.
        contents (cb_skip_right (record b { buf = write_at b.buf i (x ∷ xs) }) (length (x ∷ xs))))
      (sym index)
    ∙ contents-put_block (x ∷ xs) v free (omega (arith, index, free_space-add-count v))
  where
    index : (b.start + b.count) % b.size ≡ b.count
    index =
        ap (λ k. k % b.size) (omega arith) ∙ mod-eq_of_lt (omega (arith, free_space-add-count v))

-- `cb_recv` appends the bytes that read(2) stored when asked for the free space.
pub recv_lem :
    {b : CyclicBuffer} (read : ℕ → Option (List ℕ))
    → ReadsAtMost read
    → IsValid b
    → (count (cb_recv b read).0, contents (cb_recv b read).1)
      ≡ Queue.receive (read (b.size - b.count)) (contents b)
unfolding Queue.receive ReadsAtMost
recv_lem {b} read ok v = at (read (cb_free_space (cb_shift b))) refl
  where
    asked : b.size - b.count ≡ cb_free_space (cb_shift b)
    asked = omega (arith, free_space-add-count (shift-IsValid v), shift_fields b)

    at :
        (r : Option (List ℕ))
        → read (cb_free_space (cb_shift b)) ≡ r
        → (count (cb_recv b read).0, contents (cb_recv b read).1)
          ≡ Queue.receive (read (b.size - b.count)) (contents b)
    at none e = rw (recv-failed b read e, asked, e, contents-shift v)
    at (some []) e = rw (recv-ended b read e, asked, e, contents-shift v)
    at (some (x ∷ xs)) e = rw (
      recv-got b read x xs e,
      asked,
      e,
      contents-stored x xs (shift-IsValid v) (shift_fields b).3 (ok _ (x ∷ xs) e),
      contents-shift v,
    )

size-put_block : (b : CyclicBuffer) (xs : List ℕ) → (stored b xs).size ≡ b.size
size-put_block b xs = size-skip_right (record b { buf = write_at b.buf b.count xs }) (length xs)

-- Neither changes the size.
pub size-recv : (b : CyclicBuffer) (read : ℕ → Option (List ℕ)) → (cb_recv b read).1.size ≡ b.size
size-recv b read = at (read (cb_free_space (cb_shift b))) refl
  where
    at :
        (r : Option (List ℕ))
        → read (cb_free_space (cb_shift b)) ≡ r
        → (cb_recv b read).1.size ≡ b.size
    at none e = rw (recv-failed b read e) ((shift_fields b).1)
    at (some []) e = rw (recv-ended b read e) ((shift_fields b).1)
    at (some (x ∷ xs)) e =
        rw (recv-got b read x xs e) (size-put_block (cb_shift b) (x ∷ xs) ∙ (shift_fields b).1)

send-failed :
    (b : CyclicBuffer) (write : List ℕ → Option ℕ)
    → write (offered (shift_to_send b)) ≡ none
    → cb_send b write ≡ (none, shift_to_send b)
unfolding cb_send
send-failed b write e = rw (e, cb_send)

send-took :
    (b : CyclicBuffer) (write : List ℕ → Option ℕ) (n : ℕ)
    → write (offered (shift_to_send b)) ≡ some n
    → cb_send b write ≡ (some n, cb_skip (shift_to_send b) n)
unfolding cb_send
send-took b write n e = rw (e, cb_send)

-- `cb_send` offers all the bytes and drops as many of the oldest as write(2) took.
pub send_lem :
    {b : CyclicBuffer} (write : List ℕ → Option ℕ)
    → IsValid b
    → (count (cb_send b write).0, contents (cb_send b write).1)
      ≡ Queue.transmit (write (contents b)) (contents b)
unfolding Queue.transmit
send_lem {b} write v = at (write (contents b)) refl
  where
    same : contents (shift_to_send b) ≡ contents b
    same = (shift_to_send_lem v).0

    at :
        (r : Option ℕ)
        → write (contents b) ≡ r
        → (count (cb_send b write).0, contents (cb_send b write).1)
          ≡ Queue.transmit (write (contents b)) (contents b)
    at none e = rw (send-failed b write (ap write (shift_to_send_lem v).1 ∙ e), e, same)
    at (some n) e = rw (
      send-took b write n (ap write (shift_to_send_lem v).1 ∙ e),
      e,
      contents-skip n (shift_to_send-IsValid v),
      same,
    )

pub size-send : (b : CyclicBuffer) (write : List ℕ → Option ℕ) → (cb_send b write).1.size ≡ b.size
size-send b write = at (write (offered (shift_to_send b))) refl
  where
    at : (r : Option ℕ) → write (offered (shift_to_send b)) ≡ r → (cb_send b write).1.size ≡ b.size
    at none e = rw (send-failed b write e) (size-shift_to_send b)
    at (some n) e = rw (send-took b write n e) (size-skip _ n ∙ size-shift_to_send b)
