-- ===== src/Proxy/Transfer.antt =====
-- lab33/lab33-proxy.c: the transfer of bytes in one direction. What read(2) and write(2) do with the descriptors is an argument.
use os_unixvr4_labs.Common.{
  ℕ, zero, suc, span, get_or, ◌==◌, arith, ◌≡◌, refl, sym, ap, ◌∙◌, List, [], ◌∷◌, ◌++◌, append-nil,
  Option, none, some, Bool, true, false, not, ◌&&◌, ◌||◌, if◌then◌else◌, if_elim, drop,
}
use os_unixvr4_labs.Cyclic.Inv.{ReadsAtMost}
use os_unixvr4_labs.IoBuffer.{IoBuffer, iob_full, iob_empty, iob_recv, iob_send, iob_free_space}
use os_unixvr4_labs.IoBuffer.Inv.{IsValid, recv_cases, send_cases, stored-IsValid, shift-IsValid}
use os_unixvr4_labs.IoBuffer.Items.{items, items-stored, items-shift, pending-items}
use os_unixvr4_labs.Server.{PollFd}

unfoldable pub can_read_from : PollFd → Bool
can_read_from p = p.revents.pollin

unfoldable pub can_write_to : PollFd → Bool
can_write_to p = p.revents.pollout

unfoldable pub has_errors : PollFd → Bool
has_errors p = p.revents.pollerr

unfoldable pub is_ioable : PollFd → Bool
is_ioable p = can_read_from p || (can_write_to p || has_errors p)

-- `count == -1`
unfoldable pub no_error : Option ℕ → Bool
no_error none = false
no_error (some count) = true

unfoldable pub check_count : Option ℕ × IoBuffer → Bool × IoBuffer
check_count (count, buffer) = (no_error count, buffer)

unfoldable pub try_recv : PollFd → IoBuffer → (ℕ → Option (List ℕ)) → Bool × IoBuffer
try_recv sender buffer read =
    if not (iob_full buffer) && can_read_from sender
    then check_count (iob_recv buffer read)
    else (true, buffer)

unfoldable pub try_send : IoBuffer → PollFd → (List ℕ → Option ℕ) → Bool × IoBuffer
try_send buffer receiver write =
    if not (iob_empty buffer) && can_write_to receiver
    then check_count (iob_send buffer write)
    else (true, buffer)

unfoldable pub try_transfer :
    PollFd → IoBuffer → PollFd → (ℕ → Option (List ℕ)) → (List ℕ → Option ℕ) → Bool × IoBuffer
try_transfer sender buffer receiver read write =
    let (ok, b) = try_recv sender buffer read in
    if ok then try_send b receiver write else (false, b)

-- The bytes that a call of read(2) gives, none where it fails.
abbrev pub bytes_of : Option (List ℕ) → List ℕ
bytes_of none = []
bytes_of (some xs) = xs

-- How many bytes a call of write(2) takes, none where it fails.
abbrev pub taken_of : Option ℕ → ℕ
taken_of none = 0
taken_of (some n) = n

abbrev pub is_none : Option ℕ → Bool
is_none none = true
is_none (some n) = false

abbrev pub is_nil : List ℕ → Bool
is_nil [] = true
is_nil (x ∷ xs) = false

module _ (sender : PollFd) (b : IoBuffer) (read : ℕ → Option (List ℕ)) where
  -- read(2) is called: there is room, and the sender has something.
  abbrev pub reads : Bool
  reads = not (iob_full b) && can_read_from sender

  -- What it gives when asked for the free space.
  abbrev pub got : List ℕ
  got = if reads then bytes_of (read (iob_free_space b)) else []

  -- It is called, and fails or is at the end.
  abbrev pub read_fails : Bool
  read_fails = reads && is_nil (bytes_of (read (iob_free_space b)))

  -- What the receiving step leaves.
  record Received (r : Bool × IoBuffer) : Type 0 where
    answer : r.0 ≡ not read_fails
    bytes : items r.1 ≡ items b ++ got
    valid : IsValid r.1

  try_recv-Received : ReadsAtMost read → IsValid b → Received (try_recv sender b read)
  unfolding try_recv ReadsAtMost check_count no_error
  try_recv-Received ok v =
      if_elim Received reads _ _
        (λ e.
          recv_cases (λ r. Received (check_count r)) b read
            (λ f. record {
              answer = rw (e, f) refl;
              bytes = rw (e, f) (sym (append-nil (items b)));
              valid = v;
            })
            (λ f. record {
              answer = rw (e, f) refl;
              bytes = rw (e, f) (sym (append-nil (items b)));
              valid = v;
            })
            (λ x xs f. record {
              answer = rw (e, f) refl;
              bytes = rw (e, f) (items-stored (x ∷ xs) v (ok _ (x ∷ xs) f));
              valid = stored-IsValid (x ∷ xs) v (ok _ (x ∷ xs) f);
            }))
        (λ e. record { answer = rw e refl; bytes = rw e (sym (append-nil (items b))); valid = v })

-- The sending step, for a buffer that holds `all`.
module _ (receiver : PollFd) (write : List ℕ → Option ℕ) (all : List ℕ) where
  -- write(2) is called: there are bytes, and the receiver takes some.
  abbrev pub writes : Bool
  writes = not (is_nil all) && can_write_to receiver

  -- How many bytes it takes when offered all of them.
  abbrev pub sent : ℕ
  sent = if writes then taken_of (write all) else 0

  abbrev pub write_fails : Bool
  write_fails = writes && is_none (write all)

  record Sent (r : Bool × IoBuffer) : Type 0 where
    answer : r.0 ≡ not write_fails
    bytes : items r.1 ≡ drop sent all
    valid : IsValid r.1

empty-items : (b : IoBuffer) → iob_empty b ≡ is_nil (items b)
unfolding iob_empty
empty-items b = at b.count 0
  where
    at : (n k : ℕ) → (n == 0) ≡ is_nil (span (λ j. get_or b.buf j 0) k n)
    at zero k = refl
    at (suc n) k = ground arith

try_send-Sent :
    (b : IoBuffer) (receiver : PollFd) (write : List ℕ → Option ℕ)
    → IsValid b
    → Sent receiver write (items b) (try_send b receiver write)
unfolding try_send check_count no_error
try_send-Sent b receiver write v = rw (empty-items b) (
    if_elim (Sent receiver write (items b)) (writes receiver write (items b)) _ _
      (λ e.
        send_cases (λ r. Sent receiver write (items b) (check_count r)) b write
          (λ f.
            let g : write (items b) ≡ none = ap write (sym (pending-items v)) ∙ f in
            record { answer = rw (e, g) refl; bytes = rw (e, g) refl; valid = v })
          (λ n f.
            let g : write (items b) ≡ some n = ap write (sym (pending-items v)) ∙ f in
            record {
              answer = rw (e, g) refl;
              bytes = rw (e, g) (items-shift n v);
              valid = shift-IsValid n v;
            }))
      (λ e. record { answer = rw e refl; bytes = rw e refl; valid = v }))

module _ (sender : PollFd) (b : IoBuffer) (receiver : PollFd) (read : ℕ → Option (List ℕ))
    (write : List ℕ → Option ℕ) where
  -- The bytes there are once read(2) is done with.
  abbrev pub all : List ℕ
  all = items b ++ got sender b read

  -- What a transfer leaves: after a failure of read(2), write(2) is not called.
  pub record Transferred (r : Bool × IoBuffer) : Type 0 where
    pub answer : r.0 ≡ not (read_fails sender b read) && not (write_fails receiver write all)
    pub bytes :
        items r.1 ≡ (if read_fails sender b read then all else drop (sent receiver write all) all)
    pub valid : IsValid r.1

-- `try_transfer` loses, doubles and reorders no byte, also when it fails. read(2) is called just
-- when the buffer has room and the sender can be read from; what it gives is put behind what the
-- buffer held. If it was called and gave nothing or failed, the answer is no and nothing more
-- happens. Otherwise write(2) is called just when there are bytes and the receiver can be written
-- to; it is offered all of them, and as many as it takes are dropped from the front. The answer is
-- no if it failed, else yes. The buffer stays well formed.
pub try_transfer_lem :
    (sender : PollFd) (b : IoBuffer) (receiver : PollFd) (read : ℕ → Option (List ℕ))
    (write : List ℕ → Option ℕ)
    → ReadsAtMost read
    → IsValid b
    → Transferred sender b receiver read write (try_transfer sender b receiver read write)
unfolding try_transfer
try_transfer_lem sender b receiver read write ok v =
    let w = try_recv-Received sender b read ok v in
    let u = try_send-Sent (try_recv sender b read).1 receiver write w.valid in
    if_elim (Transferred sender b receiver read write) (try_recv sender b read).0 _ _
      (λ h.
        let fine : read_fails sender b read ≡ false = ground (arith, w.answer, h) in
        record {
          answer = rw fine (u.answer ∙ ap (λ l. not (write_fails receiver write l)) w.bytes);
          bytes = rw fine (u.bytes ∙ ap (λ l. drop (sent receiver write l) l) w.bytes);
          valid = u.valid;
        })
      (λ h.
        let failed : read_fails sender b read ≡ true = ground (arith, w.answer, h) in
        record { answer = rw failed refl; bytes = rw failed w.bytes; valid = w.valid })
