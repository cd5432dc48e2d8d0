-- ===== src/Receiver/Chars.antt =====
-- One stuffed character read from the buffer of a receiver.
use os_unixvr4_labs.Common.{
  ℕ, ◌-◌, ◌<◌, ◌≤◌, ◌≡◌, refl, ap, ◌∙◌, List, [], ◌∷◌, ◌++◌, true, false, arith, length, drop,
  Bool-cases, inl, inr,
}
use os_unixvr4_labs.Common.Int.{pos, negsuc, int_of_char, int_of_char-ascii}
use os_unixvr4_labs.Protocol.{need_escape, message_escape, message_edge}
use os_unixvr4_labs.Protocol.Escape.{escape_char, escape_char-plain, escape_char-marked}
use os_unixvr4_labs.IoBuffer.{IoBuffer, iob_getc, iob_shift, iob_empty, end_of_buffer}
use os_unixvr4_labs.IoBuffer.Inv.{IsValid, getc-IsValid, shift-IsValid}
use os_unixvr4_labs.IoBuffer.Items.{items, length-items, items-shift}
use os_unixvr4_labs.IoBuffer.Refine.{call_step, queue_step, call_step_refines, getc}
use os_unixvr4_labs.Receiver.{Receiver, mr_empty, read_char, try_read_char, message_boundary}

-- A valid buffer that holds the bytes `q`.
pub record Holds (b : IoBuffer) (q : List ℕ) : Type 0 where
  pub valid : IsValid b
  pub bytes : items b ≡ q

pub empty-Holds : {b : IoBuffer} → Holds b [] → iob_empty b ≡ true
unfolding iob_empty
empty-Holds {b} h = ground (arith, length-items b, ap length h.bytes)

pub nonempty-Holds : {b : IoBuffer} {c : ℕ} {q : List ℕ} → Holds b (c ∷ q) → iob_empty b ≡ false
unfolding iob_empty
nonempty-Holds {b} h = ground (arith, length-items b, ap length h.bytes)

pub getc-Holds :
    {b : IoBuffer} {c : ℕ} {q : List ℕ}
    → Holds b (c ∷ q)
    → ((iob_getc b).0 ≡ int_of_char c) × Holds (iob_getc b).1 q
unfolding call_step queue_step
getc-Holds {b} {c} {q} h = (
  got,
  record {
    valid = getc-IsValid h.valid;
    bytes = ap (λ r. r.1) (call_step_refines getc tt h.valid) ∙ ap (drop 1) h.bytes;
  },
)
  where
    got : (iob_getc b).0 ≡ int_of_char c
    got = ground (arith, call_step_refines getc tt h.valid, h.bytes)

pub shift-Holds : {b : IoBuffer} {c : ℕ} {q : List ℕ} → Holds b (c ∷ q) → Holds (iob_shift b 1) q
shift-Holds h = record {
  valid = shift-IsValid 1 h.valid;
  bytes = items-shift 1 h.valid ∙ ap (drop 1) h.bytes;
}

-- The receiver that a read of one byte leaves.
abbrev after : Receiver → Receiver
after r = record r { message = (iob_getc r.message).1 }

-- The first read of `try_read_char`.
read-first :
    (r : Receiver) {c : ℕ} {q : List ℕ}
    → Holds r.message (c ∷ q)
    → try_read_char r ≡ read_char (int_of_char c) (record r { message = (iob_getc r.message).1 })
unfolding try_read_char mr_empty
read-first r h =
    rw (nonempty-Holds h)
      (ap (λ v. read_char v (record r { message = (iob_getc r.message).1 })) (getc-Holds h).0)

-- With nothing to read.
pub read-empty : (r : Receiver) → Holds r.message [] → try_read_char r ≡ (end_of_buffer, r)
unfolding try_read_char mr_empty
read-empty r h = rw (empty-Holds h)

-- A byte below 128 that is not marked.
read-plain :
    (r : Receiver) {c : ℕ} {q : List ℕ}
    → r.escape ≡ false
    → c < 128
    → need_escape c ≡ false
    → Holds r.message (c ∷ q)
    → (m : IoBuffer) × Holds m q
      × (try_read_char r ≡ (pos c, record r { message = m; escape = false }))
read-plain r {c} e l n h = (
  (iob_getc r.message).1,
  (getc-Holds h).1,
  read-first r h ∙ ap (λ v. read_char v (after r)) (int_of_char-ascii c l) ∙ plain,
)
  where
    plain :
        read_char (pos c) (record r { message = (iob_getc r.message).1 })
        ≡ (pos c, record r { message = (iob_getc r.message).1; escape = false })
    plain = unfold read_char need_escape in ground arith

-- A marked byte behind its escape.
read-marked :
    (r : Receiver) {c : ℕ} {q : List ℕ}
    → r.escape ≡ false
    → c < 128
    → Holds r.message (message_escape ∷ c ∷ q)
    → (m : IoBuffer) × Holds m q
      × (try_read_char r ≡ (pos c, record r { message = m; escape = false }))
read-marked r {c} {q} e l h = (
  (iob_getc (iob_getc r.message).1).1,
  (getc-Holds next).1,
  read-first r h
      ∙ ap (λ v. read_char v (after r)) (int_of_char-ascii message_escape (omega arith))
      ∙ marked,
)
  where
    next : Holds (iob_getc r.message).1 (c ∷ q)
    next = (getc-Holds h).1

    marked :
        read_char (pos message_escape) (record r { message = (iob_getc r.message).1 })
        ≡ (pos c, record r { message = (iob_getc (iob_getc r.message).1).1; escape = false })
    marked =
        unfold read_char mr_empty in
        ground (arith, nonempty-Holds next, (getc-Holds next).0, int_of_char-ascii c l)

-- A stuffed byte below 128 is read as itself.
pub read-char :
    (r : Receiver) {c : ℕ} {q : List ℕ}
    → r.escape ≡ false
    → c < 128
    → Holds r.message (escape_char c ++ q)
    → (m : IoBuffer) × Holds m q
      × (try_read_char r ≡ (pos c, record r { message = m; escape = false }))
read-char r {c} {q} e l h = elim (Bool-cases (need_escape c)) [
  | inr n ↦ read-plain r e l n (rw (escape_char-plain c n) at h)
  | inl n ↦ read-marked r e l (rw (escape_char-marked c n) at h)
]

-- A byte of 128 or more is read as a negative number, whatever it is.
pub read-high :
    (r : Receiver) {c : ℕ} {q : List ℕ}
    → r.escape ≡ false
    → 128 ≤ c
    → Holds r.message (c ∷ q)
    → (m : IoBuffer) × Holds m q × (try_read_char r ≡ (negsuc (255 - c), record r { message = m }))
read-high r {c} e l h = ((iob_getc r.message).1, (getc-Holds h).1, read-first r h ∙ high)
  where
    high : read_char (int_of_char c) (after r) ≡ (negsuc (255 - c), after r)
    high = unfold read_char int_of_char in ground arith

-- The edge that ends a frame.
pub read-edge :
    (r : Receiver) {q : List ℕ}
    → r.escape ≡ false
    → r.started ≡ true
    → Holds r.message (message_edge ∷ q)
    → (m : IoBuffer) × Holds m q
      × (try_read_char r
          ≡ (message_boundary, record r { message = m; started = false; order_got = false }))
read-edge r e s h = (
  (iob_getc r.message).1,
  (getc-Holds h).1,
  read-first r h
      ∙ ap (λ v. read_char v (after r)) (int_of_char-ascii message_edge (omega arith))
      ∙ edge,
)
  where
    edge : read_char (pos message_edge) (record r { message = (iob_getc r.message).1 }) ≡ (
      message_boundary,
      record r { message = (iob_getc r.message).1; started = false; order_got = false },
    )
    edge = unfold read_char in ground arith

-- An escape that is the last byte so far is remembered, and the byte that the buffer holds next
-- is read raw: a stuffed byte may be cut in two by the arrival of the data.
pub read-split :
    (r : Receiver) (m' : IoBuffer) {c : ℕ} {q : List ℕ}
    → r.escape ≡ false
    → Holds r.message (message_escape ∷ [])
    → Holds m' (c ∷ q)
    → let waiting = record r { message = (iob_getc r.message).1; escape = true } in
      (try_read_char r ≡ (end_of_buffer, waiting))
      × ((try_read_char (record waiting { message = m' }))
          ≡ (int_of_char c, record r { message = (iob_getc m').1; escape = false }))
read-split r m' {c} {q} e h h' = (
  read-first r h
      ∙ ap (λ v. read_char v (after r)) (int_of_char-ascii message_escape (omega arith))
      ∙ cut,
  read-first (record r { message = m'; escape = true }) h' ∙ joined,
)
  where
    cut :
        read_char (pos message_escape) (record r { message = (iob_getc r.message).1 })
        ≡ (end_of_buffer, record r { message = (iob_getc r.message).1; escape = true })
    cut = unfold read_char mr_empty in ground (arith, empty-Holds (getc-Holds h).1)

    joined :
        read_char (int_of_char c) (after (record r { message = m'; escape = true }))
        ≡ (int_of_char c, record r { message = (iob_getc m').1; escape = false })
    joined = unfold read_char in refl
