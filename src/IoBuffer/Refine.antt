-- ===== src/IoBuffer/Refine.antt =====
-- A valid IOBuffer behaves as the bounded queue of the bytes that it holds.
use os_unixvr4_labs.Common.{
  ℕ, ◌-◌, ◌≤◌, ◌<◌, ◌≡◌, ◌≢◌, refl, sym, ap, ◌∙◌, List, [], ◌∷◌, ◌++◌, Option, some, Bool, true,
  false, arith, get_or, write_at, min, take, drop, length, length-take, add_size, Bool-cases, inl,
  inr, ltb, ltb→lt, ltb→le, if◌then◌else◌, span,
}
use os_unixvr4_labs.Common.Int.{ℤ, int_of_char}
use native.Mathlib.Decide.{ℕ_discrete}
use os_unixvr4_labs.Cyclic.Inv.{ReadsAtMost}
use os_unixvr4_labs.IoBuffer.Items.{
  items, length-items, items-shift, pending-items, items-stored, items-nonempty,
}
use os_unixvr4_labs.Cyclic.Queue
use os_unixvr4_labs.Cyclic.Queue.{Reply, count}
use os_unixvr4_labs.IoBuffer.{
  IoBuffer, iob_full, iob_free_space, iob_shift, iob_recv, iob_send, iob_puts, iob_putc, iob_getc,
  iob_clear, end_of_buffer,
}
use os_unixvr4_labs.IoBuffer.Inv.{
  IsValid, free_space-add-count, shift-IsValid, putc-IsValid, puts-IsValid, getc-IsValid,
  clear-IsValid, recv-IsValid, send-IsValid, stored, recv_cases, send_cases,
}

-- What a client asks of a buffer, and what it sees. `puts` carries the memory that it copies from.
pub data Call : Type 0 where
  putc : ℕ → Call
  puts : List ℕ → ℕ → Call
  getc clear : Call
  shift : ℕ → Call
  recv : (ℕ → Option (List ℕ)) → Call
  send : (List ℕ → Option ℕ) → Call

pub data Answer : Type 0 where
  done : Answer
  flag : Bool → Answer
  int : ℤ → Answer
  size : ℕ → Answer
  reply : Reply → Answer

unfoldable pub call_step : IoBuffer → Call → Answer × IoBuffer
call_step b (putc c) = let r = iob_putc b c in (flag r.0, r.1)
call_step b (puts bytes n) = let r = iob_puts b bytes n in (size r.0, r.1)
call_step b getc = let r = iob_getc b in (int r.0, r.1)
call_step b clear = (done, iob_clear b)
call_step b (shift n) = (done, iob_shift b n)
call_step b (recv read) = let r = iob_recv b read in (reply (count r.0), r.1)
call_step b (send write) = let r = iob_send b write in (reply (count r.0), r.1)

-- The same on a queue of at most `cap` bytes.
unfoldable pub front_int : List ℕ → ℤ
front_int [] = end_of_buffer
front_int (x ∷ q) = int_of_char x

unfoldable pub queue_step : ℕ → List ℕ → Call → Answer × List ℕ
unfolding front_int
queue_step cap q (putc c) = if ltb (length q) cap then (flag true, q ++ c ∷ []) else (flag false, q)
queue_step cap q (puts bytes n) =
    (size (min n (cap - length q)), q ++ take (min n (cap - length q)) bytes)
queue_step cap q getc = (int (front_int q), drop 1 q)
queue_step cap q clear = (done, [])
queue_step cap q (shift n) = (done, drop n q)
queue_step cap q (recv read) = let r = Queue.receive (read (cap - length q)) q in (reply r.0, r.1)
queue_step cap q (send write) = let r = Queue.transmit (write q) q in (reply r.0, r.1)

-- What a call may rely on: read(2) keeps what it promises, and `puts` is given the bytes it names.
abbrev pub IsHonest : Call → Type 0
IsHonest (recv read) = ReadsAtMost read
IsHonest (puts bytes n) = n ≤ length bytes
IsHonest _ = Unit {0}

-- Each of the seven calls `iob_putc`, `iob_puts`, `iob_getc`, `iob_clear`, `iob_shift`, `iob_recv`
-- and `iob_send` keeps the invariant: the array holds `size` cells, `size` is no larger than an
-- object can be, and the count is at most the size. For `iob_puts` the memory has the bytes that
-- are asked for, for `iob_recv` read(2) gives no more than it is asked for. The other call that
-- changes a buffer, `reserve`, is not among them.
pub call_step-IsValid :
    {b : IoBuffer} (c : Call) → IsHonest c → IsValid b → IsValid (call_step b c).1
unfolding call_step
call_step-IsValid (putc c) h v = putc-IsValid c v
call_step-IsValid (puts bytes n) h v = puts-IsValid bytes n v
call_step-IsValid getc h v = getc-IsValid v
call_step-IsValid clear h v = clear-IsValid v
call_step-IsValid (shift n) h v = shift-IsValid n v
call_step-IsValid (recv read) h v = recv-IsValid read h v
call_step-IsValid (send write) h v = send-IsValid write v

putc-room : (b : IoBuffer) (c : ℕ) → b.count < b.size → iob_putc b c ≡ (true, stored b (c ∷ []))
unfolding iob_putc
putc-room b c h = ground arith

putc-full : {b : IoBuffer} (c : ℕ) → IsValid b → b.size ≤ b.count → iob_putc b c ≡ (false, b)
unfolding iob_putc
putc-full {b} c v h = ground arith

putc_lem :
    {b : IoBuffer} (c : ℕ)
    → IsValid b
    → (flag (iob_putc b c).0, items (iob_putc b c).1) ≡ queue_step b.size (items b) (putc c)
unfolding queue_step
putc_lem {b} c v = elim (Bool-cases (ltb b.count b.size)) [
  | inl e ↦
      rw (putc-room b c (ltb→lt _ _ e), length-items b, e)
        (ap (λ q. (flag true, q))
          (items-stored (c ∷ []) v (omega (arith, free_space-add-count v, ltb→lt _ _ e))))
  | inr e ↦ rw (putc-full c v (ltb→le _ _ e), length-items b, e)
]

pub items-putc :
    {b : IoBuffer} (c : ℕ)
    → IsValid b
    → iob_full b ≡ false
    → items (iob_putc b c).1 ≡ items b ++ c ∷ []
unfolding iob_full
items-putc {b} c v room =
    let l : b.count < b.size = ground (arith, v.count_in) in
    ap (λ (r : Bool × IoBuffer). items r.1) (putc-room b c l)
    ∙ items-stored (c ∷ []) v (omega (arith, free_space-add-count v, l))

-- The number of bytes that `iob_puts` copies.
abbrev room_for : IoBuffer → ℕ → ℕ
room_for b n = min n (b.size - b.count)

puts-stored :
    {b : IoBuffer} (bytes : List ℕ) (n : ℕ)
    → n ≤ length bytes
    → IsValid b
    → iob_puts b bytes n ≡ (room_for b n, stored b (take (room_for b n) bytes))
unfolding iob_puts
puts-stored {b} bytes n h v =
    copied (if ltb n (iob_free_space b) then n else iob_free_space b)
      (ground (arith, free_space-add-count v))
  where
    copied :
        (k : ℕ)
        → k ≡ room_for b n
        → ◌≡◌ {A = ℕ × IoBuffer}
            (
              k,
              record b { buf = write_at b.buf b.count (take k bytes); count = add_size b.count k },
            )
            (room_for b n, stored b (take (room_for b n) bytes))
    copied k e = rw e (
        ap
          (λ m. (
            room_for b n,
            record b {
              buf = write_at b.buf b.count (take (room_for b n) bytes);
              count = add_size b.count m;
            },
          ))
          (omega (arith, length-take (room_for b n) bytes)))

puts_lem :
    {b : IoBuffer} (bytes : List ℕ) (n : ℕ)
    → n ≤ length bytes
    → IsValid b
    → (size (iob_puts b bytes n).0, items (iob_puts b bytes n).1)
      ≡ queue_step b.size (items b) (puts bytes n)
unfolding queue_step
puts_lem {b} bytes n h v =
    rw (puts-stored bytes n h v, length-items b)
      (ap (λ q. (size (room_for b n), q))
        (items-stored (take (room_for b n) bytes) v
          (omega (arith, length-take (room_for b n) bytes, free_space-add-count v))))

getc-empty : (b : IoBuffer) → b.count ≡ 0 → iob_getc b ≡ (end_of_buffer, b)
unfolding iob_getc
getc-empty b e = ground arith

getc-filled :
    (b : IoBuffer) → b.count ≢ 0 → iob_getc b ≡ (int_of_char (get_or b.buf 0 0), iob_shift b 1)
unfolding iob_getc
getc-filled b h = ground arith

getc_lem :
    {b : IoBuffer}
    → IsValid b
    → (int (iob_getc b).0, items (iob_getc b).1) ≡ queue_step b.size (items b) getc
unfolding queue_step
getc_lem {b} v = elim (ℕ_discrete b.count 0) [
  | yes e ↦ rw (getc-empty b e, ap (span (λ j. get_or b.buf j 0) 0) e)
  | no h ↦ rw (getc-filled b h, items-shift 1 v, items-nonempty b h)
]

recv_lem :
    {b : IoBuffer} (read : ℕ → Option (List ℕ))
    → ReadsAtMost read
    → IsValid b
    → (reply (count (iob_recv b read).0), items (iob_recv b read).1)
      ≡ queue_step b.size (items b) (recv read)
unfolding queue_step ReadsAtMost Queue.receive
recv_lem {b} read ok v =
    recv_cases (λ r. (reply (count r.0), items r.1) ≡ queue_step b.size (items b) (recv read)) b
      read (λ e. rw (asked, e)) (λ e. rw (asked, e))
      (λ x xs e.
        rw (asked, e)
          (ap (λ q. (reply (count (some (length (x ∷ xs)))), q))
            (items-stored (x ∷ xs) v (ok _ (x ∷ xs) e))))
  where
    asked : b.size - length (items b) ≡ iob_free_space b
    asked = omega (arith, length-items b, free_space-add-count v)

send_lem :
    {b : IoBuffer} (write : List ℕ → Option ℕ)
    → IsValid b
    → (reply (count (iob_send b write).0), items (iob_send b write).1)
      ≡ queue_step b.size (items b) (send write)
unfolding queue_step Queue.transmit
send_lem {b} write v =
    send_cases (λ r. (reply (count r.0), items r.1) ≡ queue_step b.size (items b) (send write)) b
      write (λ e. rw (ap write (sym (pending-items v)) ∙ e))
      (λ n e.
        rw (ap write (sym (pending-items v)) ∙ e)
          (ap (λ q. (reply (count (some n)), q)) (items-shift n v)))

-- Each call answers as the queue of the buffer's bytes, and leaves the buffer holding that queue:
-- a byte put or a block copied or received is appended as far as it fits, bytes are taken from
-- the front in order, and what is got is the oldest byte as a signed char.
pub call_step_refines :
    {b : IoBuffer} (c : Call)
    → IsHonest c
    → IsValid b
    → ((call_step b c).0, items (call_step b c).1) ≡ queue_step b.size (items b) c
unfolding call_step
call_step_refines (putc c) h v = putc_lem c v
call_step_refines (puts bytes n) h v = puts_lem bytes n h v
call_step_refines getc h v = getc_lem v
call_step_refines clear h v = unfold iob_clear queue_step in refl
call_step_refines (shift n) h v = unfold queue_step in ap (λ q. (done, q)) (items-shift n v)
call_step_refines (recv read) h v = recv_lem read h v
call_step_refines (send write) h v = send_lem write v
