-- ===== src/Message.antt =====
-- lab34/message_buffer.c and message_buffer.h: the writer of frames. A frame is an edge, the order
-- (the client's number), the data, the last two stuffed; a frame is closed by an edge when another
-- order follows. An escaped byte whose escape is written may wait in `escaped_char` for room.
pub mod Stream
pub mod Put
pub mod Conserve
pub mod Close
pub mod Encapsulate
pub mod RoundTrip
mod Tests
use os_unixvr4_labs.Common.{
  ℕ, zero, suc, ◌+◌, Bool, true, false, ◌&&◌, not, List, [], ◌∷◌, Option, none, some, ◌==◌,
  if◌then◌else◌,
}
use os_unixvr4_labs.Protocol.{message_edge, message_escape, need_escape}
use os_unixvr4_labs.IoBuffer.{IoBuffer, init_iobuf, free_iobuf, iob_full, iob_empty, iob_putc}

pub record MessageBuffer : Type 0 where
  pub message : IoBuffer
  pub order : ℕ
  pub escape : Bool
  pub escaped_char : ℕ
  pub start_put : Bool
  pub order_put : Bool

pub free_messagebuf : MessageBuffer → MessageBuffer
free_messagebuf this = record this { message = free_iobuf this.message }

unfoldable pub init_mb : List ℕ → ℕ → MessageBuffer
init_mb fresh size = record {
  message = init_iobuf fresh size;
  order = 0;
  escape = false;
  escaped_char = 0;
  start_put = false;
  order_put = false;
}

unfoldable pub mb_full : MessageBuffer → Bool
mb_full this = iob_full this.message

pub mb_empty : MessageBuffer → Bool
mb_empty this = iob_empty this.message

unfoldable pub try_put : MessageBuffer → ℕ → Bool × MessageBuffer
try_put this c =
    if mb_full this
    then (false, this)
    else (true, record this { message = (iob_putc this.message c).1 })

unfoldable pub put_escaped_char : MessageBuffer → Bool × MessageBuffer
put_escaped_char this =
    if this.escape
    then (let put = try_put this this.escaped_char in
        if put.0 then (true, record (put.1) { escape = false }) else (false, put.1))
    else (true, this)

unfoldable pub put_start : MessageBuffer → Bool × MessageBuffer
put_start this =
    if this.start_put
    then (true, this)
    else (let put = try_put this message_edge in
        if put.0 then (true, record (put.1) { start_put = true }) else (false, put.1))

-- What `put_char` and `put_order` do with a byte when no escaped byte waits.
unfoldable pub put_stuffed : MessageBuffer → ℕ → Bool × MessageBuffer
put_stuffed this c =
    if need_escape c
    then (let put = try_put this message_escape in
        if put.0
        then (true, record (put.1) { escape = true; escaped_char = c })
        else (false, put.1))
    else try_put this c

unfoldable pub put_char : MessageBuffer → ℕ → Bool × MessageBuffer
put_char this c =
    let flushed = put_escaped_char this in
    if flushed.0 then put_stuffed flushed.1 c else (false, flushed.1)

unfoldable pub put_order : MessageBuffer → Bool × MessageBuffer
put_order this =
    if this.order_put
    then (true, this)
    else (let flushed = put_escaped_char this in
        if flushed.0
        then (let put = put_stuffed flushed.1 flushed.1.order in
            if put.0 then (true, record (put.1) { order_put = true }) else (false, put.1))
        else (false, flushed.1))

-- The first block of `encapsulate`: the frame of another order is closed.
unfoldable pub close_frame : MessageBuffer → Bool × MessageBuffer
close_frame this =
    let ordered = put_order this in
    if ordered.0
    then (let flushed = put_escaped_char ordered.1 in
        if flushed.0
        then (let put = try_put flushed.1 message_edge in
            if put.0 then (true, record (put.1) { start_put = false }) else (false, put.1))
        else (false, flushed.1))
    else (false, ordered.1)

-- The second block of `encapsulate`.
unfoldable pub set_order : MessageBuffer → ℕ → MessageBuffer
set_order this order =
    if this.order == order then this else record this { order = order; order_put = false }

-- The loop of `encapsulate`: the number of bytes put. The list is what is left of the data.
unfoldable pub put_chars : MessageBuffer → List ℕ → ℕ × MessageBuffer
put_chars this [] = (0, this)
put_chars this (c ∷ cs) =
    let put = put_char this c in
    elim put.0 [ true ↦ let rest = put_chars put.1 cs in (suc rest.0, rest.1) | false ↦ (0, put.1) ]

-- The rest of `encapsulate`, from `put_start` on.
unfoldable pub put_frame : MessageBuffer → List ℕ → ℕ × MessageBuffer
put_frame this bytes =
    let started = put_start this in
    if started.0
    then (let ordered = put_order started.1 in
        if ordered.0 then put_chars ordered.1 bytes else (0, ordered.1))
    else (0, started.1)

-- `bytes` are the `count` bytes at the address `data`. The result `none` is NO_SPACE.
unfoldable pub encapsulate : MessageBuffer → List ℕ → ℕ → Option ℕ × MessageBuffer
encapsulate this bytes order =
    if this.start_put && not (this.order == order)
    then (let closed = close_frame this in
        if closed.0
        then (let put = put_frame (set_order closed.1 order) bytes in (some put.0, put.1))
        else (none, closed.1))
    else (let put = put_frame (set_order this order) bytes in (some put.0, put.1))
