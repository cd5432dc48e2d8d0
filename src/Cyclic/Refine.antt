-- ===== src/Cyclic/Refine.antt =====
-- No sequence of calls tells a valid CyclicBuffer from the bounded queue of its contents.
use os_unixvr4_labs.Common.{◌≡◌, ◌≢◌, refl, ap, ap₂, ◌∙◌, List, [], ◌∷◌, none, some, arith, get_or}
use os_unixvr4_labs.Cyclic.{
  CyclicBuffer, cb_shift, cb_skip, cb_putc, cb_peek, cb_getc, cb_clear, cb_recv, cb_send,
}
use native.Mathlib.Decide.{ℕ_discrete}
use os_unixvr4_labs.Cyclic.Cells.{cells}
use os_unixvr4_labs.Cyclic.Inv.{
  IsValid, ReadsAtMost, size-skip, size-putc, size-getc, shift_fields, shift-IsValid, skip-IsValid,
  putc-IsValid, getc-IsValid, clear-IsValid, recv-IsValid, send-IsValid,
}
use os_unixvr4_labs.Cyclic.Contents.{
  contents, length-contents, contents-shift, contents-skip, putc_lem, contents-nonempty,
}
use os_unixvr4_labs.Cyclic.Io.{recv_lem, send_lem, size-recv, size-send}
use os_unixvr4_labs.Cyclic.Queue
use os_unixvr4_labs.Cyclic.Queue.{
  Op, put, get, peek, clear, shift, skip, recv, send, Reply, done, flag, byte, count,
}

contents-empty : (b : CyclicBuffer) → b.count ≡ 0 → contents b ≡ []
contents-empty b e = ap (cells b.buf b.size b.start) e

getc-empty : (b : CyclicBuffer) → b.count ≡ 0 → cb_getc b ≡ (none, b)
unfolding cb_getc
getc-empty b e = ground arith

getc-filled :
    (b : CyclicBuffer) → b.count ≢ 0 → cb_getc b ≡ (some (get_or b.buf b.start 0), cb_skip b 1)
unfolding cb_getc
getc-filled b h = ground arith

-- `cb_getc` takes the oldest byte, if there is one.
pub getc_lem :
    {b : CyclicBuffer}
    → IsValid b
    → (byte (cb_getc b).0, contents (cb_getc b).1) ≡ Queue.get_front (contents b)
unfolding Queue.get_front
getc_lem {b} v = elim (ℕ_discrete b.count 0) [
  | yes e ↦ rw (getc-empty b e, contents-empty b e)
  | no h ↦ rw (getc-filled b h, contents-skip 1 v, contents-nonempty v h)
]

-- `cb_peek` shows it and changes nothing.
pub peek_lem : {b : CyclicBuffer} → IsValid b → byte (cb_peek b) ≡ Queue.front (contents b)
unfolding Queue.front
peek_lem {b} v = elim (ℕ_discrete b.count 0) [
  | yes e ↦ rw (empty e, contents-empty b e)
  | no h ↦ rw (filled h, contents-nonempty v h)
]
  where
    empty : b.count ≡ 0 → cb_peek b ≡ none
    empty e = unfold cb_peek in ground arith

    filled : b.count ≢ 0 → cb_peek b ≡ some (get_or b.buf b.start 0)
    filled h = unfold cb_peek in ground arith

-- One call on a buffer, with its reply.
unfoldable pub step : CyclicBuffer → Op → Reply × CyclicBuffer
step b (put c) = let r = cb_putc b c in (flag r.0, r.1)
step b get = let r = cb_getc b in (byte r.0, r.1)
step b peek = (byte (cb_peek b), b)
step b clear = (done, cb_clear b)
step b shift = (done, cb_shift b)
step b (skip n) = (done, cb_skip b n)
step b (recv read) = let r = cb_recv b read in (count r.0, r.1)
step b (send write) = let r = cb_send b write in (count r.0, r.1)

unfoldable pub run : CyclicBuffer → List Op → List Reply
run b [] = []
run b (op ∷ ops) = (step b op).0 ∷ run (step b op).1 ops

-- The system calls in an operation keep what they promise.
abbrev pub IsHonest : Op → Type 0
IsHonest (recv read) = ReadsAtMost read
IsHonest _ = Unit {0}

abbrev pub AllHonest : List Op → Type 0
AllHonest [] = Unit {0}
AllHonest (op ∷ ops) = IsHonest op × AllHonest ops

-- Every call keeps the invariant: the array holds `size` cells, `size` is positive and no larger
-- than an object can be, the start lies in the array and the count is at most the size.
pub step-IsValid : {b : CyclicBuffer} (op : Op) → IsHonest op → IsValid b → IsValid (step b op).1
unfolding step
step-IsValid (put c) h v = putc-IsValid c v
step-IsValid get h v = getc-IsValid v
step-IsValid peek h v = v
step-IsValid clear h v = clear-IsValid v
step-IsValid shift h v = shift-IsValid v
step-IsValid (skip n) h v = skip-IsValid n v
step-IsValid (recv read) h v = recv-IsValid read h v
step-IsValid (send write) h v = send-IsValid write v

step_refines :
    {b : CyclicBuffer} (op : Op)
    → IsHonest op
    → IsValid b
    → ((step b op).0, contents (step b op).1) ≡ Queue.step b.size (contents b) op
unfolding step Queue.step
step_refines {b} (put c) h v = ground (arith, putc_lem c v, length-contents b)
step_refines get h v = getc_lem v
step_refines {b} peek h v = ap (λ r. (r, contents b)) (peek_lem v)
step_refines clear h v = unfold cb_clear in refl
step_refines shift h v = ap (λ q. (done, q)) (contents-shift v)
step_refines (skip n) h v = ap (λ q. (done, q)) (contents-skip n v)
step_refines {b} (recv read) h v = rw (length-contents b) (recv_lem read h v)
step_refines (send write) h v = send_lem write v

size-step : (b : CyclicBuffer) (op : Op) → (step b op).1.size ≡ b.size
unfolding step
size-step b (put c) = size-putc b c
size-step b get = size-getc b
size-step b peek = refl
size-step b clear = unfold cb_clear in refl
size-step b shift = (shift_fields b).1
size-step b (skip n) = size-skip b n
size-step b (recv read) = size-recv b read
size-step b (send write) = size-send b write

-- No sequence of calls, system calls that keep what they promise included, tells a valid buffer
-- from the bounded first-in first-out queue of its contents: every reply is the queue's.
pub run_refines :
    (ops : List Op) {b : CyclicBuffer}
    → AllHonest ops
    → IsValid b
    → run b ops ≡ Queue.run b.size (contents b) ops
unfolding run Queue.run
run_refines [] h v = refl
run_refines (op ∷ ops) {b} h v = ap₂ ◌∷◌ (ap (λ r. r.0) now) (
    run_refines ops h.1 (step-IsValid op h.0 v)
    ∙ ap₂ (λ s q. Queue.run s q ops) (size-step b op) (ap (λ r. r.1) now))
  where
    now : ((step b op).0, contents (step b op).1) ≡ Queue.step b.size (contents b) op
    now = step_refines op h.0 v
