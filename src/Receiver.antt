-- ===== src/Receiver.antt =====
-- lab34/message_receiver.c and message_receiver.h: the frames of the tunnel taken apart.
-- A frame is an edge, the order (the client's number), the data, all stuffed, and an edge.
pub mod Chars
pub mod Frames
pub mod Faults
mod Tests
use os_unixvr4_labs.Common.{
  ℕ, zero, suc, ◌+◌, Bool, true, false, ◌&&◌, not, List, [], ◌∷◌, Option, none, some, ltb, ◌==◌,
  if◌then◌else◌, take,
}
use os_unixvr4_labs.Common.Int.{ℤ, pos, negsuc, int_of_char}
use os_unixvr4_labs.Protocol.{message_edge, message_escape}
use os_unixvr4_labs.IoBuffer.{
  IoBuffer, init_iobuf, free_iobuf, iob_full, iob_empty, iob_getc, iob_shift, end_of_buffer,
}

-- `order` is the value of the char, as the functions return it.
pub record Receiver : Type 0 where
  pub message : IoBuffer
  pub order : ℤ
  pub started : Bool
  pub escape : Bool
  pub order_got : Bool

abbrev pub mr_no_order : ℤ
mr_no_order = negsuc 0

abbrev pub message_boundary : ℤ
message_boundary = negsuc 1

unfoldable pub init_mr : List ℕ → ℕ → Receiver
init_mr fresh size = record {
  message = init_iobuf fresh size;
  order = pos 0;
  started = false;
  escape = false;
  order_got = false;
}

unfoldable pub free_messagerecv : Receiver → Receiver
free_messagerecv this = record this { message = free_iobuf this.message }

unfoldable pub mr_full : Receiver → Bool
mr_full this = iob_full this.message

unfoldable pub mr_empty : Receiver → Bool
mr_empty this = iob_empty this.message

unfoldable pub try_skip_start : Receiver → Bool × Receiver
try_skip_start this =
    if this.started
    then (true, this)
    else if mr_empty this
    then (false, this)
    else (true, record this { message = iob_shift this.message 1; started = true })

-- `try_read_char` behind its first read: `c` is the byte read, and `this` what the read left.
unfoldable pub read_char : ℤ → Receiver → ℤ × Receiver
read_char c this = if this.escape then (c, record this { escape = false }) else elim c [
  | negsuc n ↦ (negsuc n, this)
  | pos n ↦
      if n == message_escape
      then if mr_empty this then (end_of_buffer, record this { escape = true }) else (
        (iob_getc this.message).0,
        record this { message = (iob_getc this.message).1; escape = false },
      )
      else if n == message_edge
      then if this.started
        then (message_boundary, record this { started = false; order_got = false })
        else (message_boundary, this)
      else (pos n, this)
]

unfoldable pub try_read_char : Receiver → ℤ × Receiver
try_read_char this =
    if mr_empty this
    then (end_of_buffer, this)
    else read_char (iob_getc this.message).0 (record this { message = (iob_getc this.message).1 })

-- `order == MESSAGE_BOUNDARY || order == END_OF_BUFFER`
abbrev pub is_no_char : ℤ → Bool
is_no_char (pos n) = false
is_no_char (negsuc zero) = true
is_no_char (negsuc (suc zero)) = true
is_no_char (negsuc (suc (suc n))) = false

unfoldable pub parse_order : Receiver → ℤ × Receiver
parse_order this =
    let r = try_read_char this in
    if is_no_char r.0
    then (mr_no_order, r.1)
    else (r.0, record (r.1) { order = r.0; order_got = true })

unfoldable pub try_parse_order : Receiver → ℤ × Receiver
try_parse_order this =
    if this.order_got
    then (this.order, this)
    else (let started = try_skip_start this in
        if started.0 then parse_order started.1 else (mr_no_order, started.1))

unfoldable pub get_current_order : Receiver → ℤ × Receiver
get_current_order this = try_parse_order this

-- The loop of `get_contiguous_count` over the bytes of the buffer.
unfoldable pub count_chars : Bool → List ℕ → ℕ
count_chars escaped [] = 0
count_chars escaped (c ∷ cs) = elim (not escaped && (c == message_escape)) [
  | true ↦ count_chars true cs
  | false ↦ suc (count_chars false cs)
]

abbrev pub is_no_order : ℤ → Bool
is_no_order (negsuc zero) = true
is_no_order _ = false

unfoldable pub get_contiguous_count : Receiver → ℕ × Receiver
get_contiguous_count this =
    let r = try_parse_order this in
    if is_no_order r.0
    then (0, r.1)
    else (count_chars r.1.escape (take r.1.message.count r.1.message.buf), r.1)

-- The loop of `decapsulate`, with `wanted` bytes to go: the bytes stored at `data`.
unfoldable pub read_chars : ℕ → Receiver → List ℕ × Receiver
read_chars zero this = ([], this)
read_chars (suc wanted) this =
    let r = try_read_char this in
    elim r.0 [
      | negsuc n ↦ ([], r.1)
      | pos c ↦ let rest = read_chars wanted r.1 in (c ∷ rest.0, rest.1)
    ]

-- `none` is -1; else the result is the number of bytes in the list.
unfoldable pub decapsulate : Receiver → ℕ → Option (List ℕ) × Receiver
decapsulate this count =
    let r = try_parse_order this in
    if is_no_order r.0 then (none, r.1) else (let got = read_chars count r.1 in (some got.0, got.1))

-- The loop of `skip`: `skipped` stays 0, so that only the read ends it. `none`: the fuel ran out.
unfoldable pub skip_chars : ℕ → Receiver → Option Receiver
skip_chars zero this = none
skip_chars (suc fuel) this =
    let r = try_read_char this in elim r.0 [ negsuc n ↦ some r.1 | pos c ↦ skip_chars fuel r.1 ]

-- The result of `skip` is -1 (`some none`) or the number skipped.
unfoldable pub skip : ℕ → Receiver → ℕ → Option (Option ℕ × Receiver)
skip fuel this count =
    let r = try_parse_order this in
    if is_no_order r.0
    then some (none, r.1)
    else if ltb 0 count
    then elim (skip_chars fuel r.1) [ none ↦ none | some q ↦ some (some 0, q) ]
    else some (some 0, r.1)
