-- ===== src/IoBuffer/Inv.antt =====
-- The representation invariant of IOBuffer, and that each function keeps it.
use os_unixvr4_labs.Common.{
  ℕ, zero, suc, ◌+◌, ◌≤◌, ◌≡◌, refl, ◌∙◌, List, [], ◌∷◌, Option, none, some, arith, get_or, set,
  write_at, take, length, length-set, length-write_at, max_object, add_size, sub_size,
}
use os_unixvr4_labs.Cyclic.Inv.{ReadsAtMost}
use os_unixvr4_labs.IoBuffer.{
  IoBuffer, init_iobuf, iob_free_space, shift_down, iob_shift, iob_recv, iob_send, pending,
  iob_puts, iob_putc, iob_getc, iob_clear,
}

pub record IsValid (b : IoBuffer) : Type 0 where
  pub storage : b.size ≤ length b.buf
  pub small : b.size ≤ max_object
  pub count_in : b.count ≤ b.size

pub init-IsValid :
    (fresh : List ℕ) (size : ℕ)
    → size ≤ max_object
    → size ≤ length fresh
    → IsValid (init_iobuf fresh size)
unfolding init_iobuf
init-IsValid fresh size m l = omega arith

pub free_space-add-count : {b : IoBuffer} → IsValid b → iob_free_space b + b.count ≡ b.size
unfolding iob_free_space
free_space-add-count v = omega arith

length-shift_down :
    (offset i rounds : ℕ) (buf : List ℕ) → length (shift_down offset i rounds buf) ≡ length buf
unfolding shift_down
length-shift_down offset i zero buf = refl
length-shift_down offset i (suc rounds) buf =
    length-shift_down offset (i + 1) rounds (set buf i (get_or buf (add_size offset i) 0))
    ∙ length-set buf i (get_or buf (add_size offset i) 0)

pub shift-IsValid : {b : IoBuffer} (n : ℕ) → IsValid b → IsValid (iob_shift b n)
unfolding iob_shift
shift-IsValid {b} n v = ground (
  arith,
  length-shift_down n 0 (sub_size b.count n) b.buf,
  length-shift_down b.count 0 (sub_size b.count b.count) b.buf,
)

pub putc-IsValid : {b : IoBuffer} (c : ℕ) → IsValid b → IsValid (iob_putc b c).1
unfolding iob_putc
putc-IsValid {b} c v = ground (arith, length-set b.buf b.count c)

pub puts-IsValid :
    {b : IoBuffer} (bytes : List ℕ) (n : ℕ) → IsValid b → IsValid (iob_puts b bytes n).1
unfolding iob_puts
puts-IsValid {b} bytes n v = ground (
  arith,
  length-write_at b.buf b.count (take n bytes),
  length-write_at b.buf b.count (take (iob_free_space b) bytes),
  free_space-add-count v,
)

pub getc-IsValid : {b : IoBuffer} → IsValid b → IsValid (iob_getc b).1
unfolding iob_getc
getc-IsValid {b} v = ground (arith, shift-IsValid 1 v)

pub clear-IsValid : {b : IoBuffer} → IsValid b → IsValid (iob_clear b)
unfolding iob_clear
clear-IsValid v = omega arith

recv-failed :
    (b : IoBuffer) (read : ℕ → Option (List ℕ))
    → read (iob_free_space b) ≡ none
    → iob_recv b read ≡ (none, b)
unfolding iob_recv
recv-failed b read e = rw (e, iob_recv)

recv-ended :
    (b : IoBuffer) (read : ℕ → Option (List ℕ))
    → read (iob_free_space b) ≡ some []
    → iob_recv b read ≡ (none, b)
unfolding iob_recv
recv-ended b read e = rw (e, iob_recv)

-- The buffer with a block stored behind its bytes.
abbrev pub stored : IoBuffer → List ℕ → IoBuffer
stored b xs = record b { buf = write_at b.buf b.count xs; count = add_size b.count (length xs) }

recv-got :
    (b : IoBuffer) (read : ℕ → Option (List ℕ)) (x : ℕ) (xs : List ℕ)
    → read (iob_free_space b) ≡ some (x ∷ xs)
    → iob_recv b read ≡ (some (length (x ∷ xs)), stored b (x ∷ xs))
unfolding iob_recv
recv-got b read x xs e = rw (e, iob_recv)

-- What `iob_recv` does is one of three things.
pub recv_cases {ℓ} :
    (P : Option ℕ × IoBuffer → Type ℓ) (b : IoBuffer) (read : ℕ → Option (List ℕ))
    → (read (iob_free_space b) ≡ none → P (none, b))
    → (read (iob_free_space b) ≡ some [] → P (none, b))
    → ((x : ℕ) (xs : List ℕ)
        → read (iob_free_space b) ≡ some (x ∷ xs)
        → P (some (length (x ∷ xs)), stored b (x ∷ xs)))
    → P (iob_recv b read)
recv_cases P b read failed ended got = at (read (iob_free_space b)) refl
  where
    at : (r : Option (List ℕ)) → read (iob_free_space b) ≡ r → P (iob_recv b read)
    at none e = rw (recv-failed b read e) (failed e)
    at (some []) e = rw (recv-ended b read e) (ended e)
    at (some (x ∷ xs)) e = rw (recv-got b read x xs e) (got x xs e)

pub stored-IsValid :
    {b : IoBuffer} (xs : List ℕ) → IsValid b → length xs ≤ iob_free_space b → IsValid (stored b xs)
stored-IsValid {b} xs v h = ground (arith, length-write_at b.buf b.count xs, free_space-add-count v)

pub recv-IsValid :
    {b : IoBuffer} (read : ℕ → Option (List ℕ))
    → ReadsAtMost read
    → IsValid b
    → IsValid (iob_recv b read).1
unfolding ReadsAtMost
recv-IsValid {b} read ok v =
    recv_cases (λ r. IsValid r.1) b read (λ e. v) (λ e. v)
      (λ x xs e. stored-IsValid (x ∷ xs) v (ok _ (x ∷ xs) e))

send-failed :
    (b : IoBuffer) (write : List ℕ → Option ℕ)
    → write (pending b) ≡ none
    → iob_send b write ≡ (none, b)
unfolding iob_send
send-failed b write e = rw (e, iob_send)

send-took :
    (b : IoBuffer) (write : List ℕ → Option ℕ) (n : ℕ)
    → write (pending b) ≡ some n
    → iob_send b write ≡ (some n, iob_shift b n)
unfolding iob_send
send-took b write n e = rw (e, iob_send)

pub send_cases {ℓ} :
    (P : Option ℕ × IoBuffer → Type ℓ) (b : IoBuffer) (write : List ℕ → Option ℕ)
    → (write (pending b) ≡ none → P (none, b))
    → ((n : ℕ) → write (pending b) ≡ some n → P (some n, iob_shift b n))
    → P (iob_send b write)
send_cases P b write failed took = at (write (pending b)) refl
  where
    at : (r : Option ℕ) → write (pending b) ≡ r → P (iob_send b write)
    at none e = rw (send-failed b write e) (failed e)
    at (some n) e = rw (send-took b write n e) (took n e)

pub send-IsValid :
    {b : IoBuffer} (write : List ℕ → Option ℕ) → IsValid b → IsValid (iob_send b write).1
send-IsValid {b} write v = send_cases (λ r. IsValid r.1) b write (λ e. v) (λ n e. shift-IsValid n v)
