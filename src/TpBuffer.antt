-- ===== src/TpBuffer.antt =====
-- lab34/transport_protocol_buffer.c and transport_protocol_buffer.h: the bytes for the tunnel, with
-- the marks that say which client's bytes follow. `none` stands for TPB_NO_ORDER. A byte is a
-- number below 256, and the constants are those of a build without DEBUG.
pub mod Frame
pub mod Control
pub mod Data
pub mod Calls
mod Tests
use os_unixvr4_labs.Common.{
  ℕ, zero, suc, ◌+◌, ◌%◌, Bool, true, false, List, [], ◌∷◌, Option, none, some, min, ltb, ◌==◌,
  if◌then◌else◌, add_size, write_at, drop,
}
use os_unixvr4_labs.Cyclic.{
  CyclicBuffer, cb_init, cb_free, cb_full, cb_empty, cb_free_space, cb_free_contiguous_space,
  cb_data_end, cb_skip_right, cb_putc, cb_send,
}
use os_unixvr4_labs.Protocol.{message_edge, message_length, pr_encapsulate}

abbrev pub tpb_max_order : ℕ
tpb_max_order = 255

abbrev pub client_add : ℕ
client_add = 1

abbrev pub client_remove : ℕ
client_remove = 2

abbrev pub client_code_shift : ℕ
client_code_shift = 0

abbrev pub event_message_length : ℕ
event_message_length = 2

abbrev pub control_order : ℕ
control_order = 255

pub record TpBuffer : Type 0 where
  pub buffer : CyclicBuffer
  pub order : Option ℕ

unfoldable pub tpb_free : TpBuffer → TpBuffer
tpb_free this = record this { buffer = cb_free this.buffer }

-- `fresh` is the array that malloc returns.
unfoldable pub tpb_init : List ℕ → ℕ → TpBuffer
tpb_init fresh size = record { buffer = cb_init fresh size; order = none }

unfoldable pub tpb_full : TpBuffer → Bool
tpb_full this = cb_full this.buffer

unfoldable pub tpb_empty : TpBuffer → Bool
tpb_empty this = cb_empty this.buffer

-- A call of `cb_putc` whose result is not looked at.
unfoldable pub put_byte : CyclicBuffer → ℕ → CyclicBuffer
put_byte buffer c = (cb_putc buffer c).1

-- The byte of the sum `CLIENT_CODE_SHIFT + order`.
abbrev pub order_code : ℕ → ℕ
order_code order = (client_code_shift + order) % 256

-- The first statement of `tpb_put_order`: an edge ends the bytes of the order before.
unfoldable pub put_end : TpBuffer → CyclicBuffer
put_end this = elim this.order [
  | none ↦ this.buffer
  | some previous ↦ put_byte this.buffer message_edge
]

unfoldable pub tpb_put_order : TpBuffer → ℕ → TpBuffer
unfolding put_end put_byte
tpb_put_order this order = record {
  buffer = put_byte (put_byte (put_end this) message_edge) (order_code order);
  order = some order;
}

unfoldable pub control_length : Option ℕ → ℕ
control_length none = 2
control_length (some previous) = 3

unfoldable pub is_order : Option ℕ → ℕ → Bool
is_order none order = false
is_order (some previous) order = previous == order

-- The last two calls of `cb_putc` in `tpb_contol_message`.
unfoldable pub put_event : TpBuffer → ℕ → ℕ → TpBuffer
unfolding put_byte
put_event this op order = record this {
  buffer = put_byte (put_byte this.buffer op) (order_code order);
}

unfoldable pub tpb_contol_message : TpBuffer → ℕ → ℕ → Bool × TpBuffer
unfolding put_event tpb_put_order control_length is_order
tpb_contol_message this op order =
    if is_order this.order control_order
    then (true, put_event this op order)
    else if ltb (cb_free_space this.buffer) (event_message_length + control_length this.order)
    then (false, this)
    else (true, put_event (tpb_put_order this control_order) op order)

-- `pr_encapsulate` to the end of the stored bytes, and `cb_skip_right` by its result.
unfoldable pub put_stuffed : CyclicBuffer → List ℕ → ℕ → ℕ × CyclicBuffer
put_stuffed buffer bytes message_len =
    let r = pr_encapsulate bytes message_len in
    (r.0, cb_skip_right (record buffer { buf = write_at buffer.buf (cb_data_end buffer) r.1 }) r.0)

-- The loop of `tpb_encapsulate` with `rounds` rounds left. `message_length` returns nothing:
-- `garbage i` is the value that round `i` finds.
unfoldable pub encapsulate_rounds : (ℕ → ℕ) → List ℕ → ℕ → ℕ → ℕ → CyclicBuffer → ℕ × CyclicBuffer
unfolding put_stuffed
encapsulate_rounds garbage bytes zero i encapsed buffer = (encapsed, buffer)
encapsulate_rounds garbage bytes (suc rounds) i encapsed buffer =
    let msg_length = message_length (garbage i) (drop encapsed bytes) in
    let contiguous_space = cb_free_contiguous_space buffer in
    let put = put_stuffed buffer bytes (min msg_length contiguous_space) in
    let rest = encapsulate_rounds garbage bytes rounds (i + 1) (add_size encapsed put.0) put.1 in
    if ltb put.0 contiguous_space then (add_size encapsed put.0, put.1) else rest

unfoldable pub encapsulate_now : (ℕ → ℕ) → TpBuffer → List ℕ → ℕ × TpBuffer
unfolding encapsulate_rounds
encapsulate_now garbage this bytes =
    let r = encapsulate_rounds garbage bytes 2 0 0 this.buffer in
    (r.0, record this { buffer = r.1 })

-- `bytes` are the `data_length` bytes at `data`; `first` is what `message_length (bytes, 1)` gives.
-- A negative order is refused like one above the limit, and has no counterpart.
unfoldable pub tpb_encapsulate : ℕ → (ℕ → ℕ) → TpBuffer → List ℕ → ℕ → ℕ × TpBuffer
unfolding control_length is_order message_length
tpb_encapsulate first garbage this bytes order =
    if ltb tpb_max_order order
    then (0, this)
    else if is_order this.order order
    then encapsulate_now garbage this bytes
    else if ltb (cb_free_space this.buffer)
        (add_size (message_length first bytes) (control_length this.order))
    then (0, this)
    else encapsulate_now garbage (tpb_put_order this order) bytes

-- How many cells from `data` on the loop of `tpb_encapsulate` reads: the calls of `message_length`
-- read `data_length` of them from `&data[encapsed]` on. `bytes` are those that there are.
unfoldable pub rounds_read : (ℕ → ℕ) → List ℕ → ℕ → CyclicBuffer → ℕ
rounds_read garbage bytes data_length buffer =
    let contiguous_space = cb_free_contiguous_space buffer in
    let put = put_stuffed buffer bytes (min (message_length (garbage 0) bytes) contiguous_space) in
    if ltb put.0 contiguous_space then data_length else put.0 + data_length

-- How many cells from `data` on `tpb_encapsulate` reads; `message_length (data, 1)` reads one.
unfoldable pub cells_read : ℕ → (ℕ → ℕ) → TpBuffer → List ℕ → ℕ → ℕ → ℕ
cells_read first garbage this bytes data_length order =
    if ltb tpb_max_order order
    then 0
    else if is_order this.order order
    then rounds_read garbage bytes data_length this.buffer
    else if ltb (cb_free_space this.buffer)
        (add_size (message_length first bytes) (control_length this.order))
    then 1
    else rounds_read garbage bytes data_length (tpb_put_order this order).buffer

unfoldable pub tpb_send : TpBuffer → (List ℕ → Option ℕ) → Option ℕ × TpBuffer
tpb_send this write = let r = cb_send this.buffer write in (r.0, record this { buffer = r.1 })
