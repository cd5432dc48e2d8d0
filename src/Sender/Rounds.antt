-- ===== src/Sender/Rounds.antt =====
-- lab34/lab34-sender.c: filling the buffer for the tunnel, and the loop around poll(2). What
-- poll(2), accept(2), read(2), write(2) and malloc return is an argument.
use os_unixvr4_labs.Common.{
  ℕ, Bool, zero, suc, ◌+◌, ◌^◌, true, false, not, ◌&&◌, List, [], ◌∷◌, ◌++◌, Option, none, some,
  ltb, length, ◌||◌, length, ◌||◌, ◌==◌, if◌then◌else◌, sub_size, take, drop, update,
}
use os_unixvr4_labs.Cyclic.{CyclicBuffer, cb_full, cb_shift, cb_skip, cb_recv}
use os_unixvr4_labs.Server.{
  Mask, client_fd, client_ioable, client_readable, client_has_errors, tunnel_pollable, any_mask,
  write_mask, is_full, get_poll_count, set_tunnel_writeable, poll_listener_index,
}
use os_unixvr4_labs.TpBuffer.{tpb_empty, cells_read, tpb_encapsulate, tpb_send}
use os_unixvr4_labs.Sender.{next_message_client}
use os_unixvr4_labs.Sender.Tunnel.{
  TunnelServer, ts_remove_client, ts_add_client, process_empty_removed, process_added,
}

-- The buffer of the client `id` replaced.
unfoldable pub with_buffer : TunnelServer → ℕ → CyclicBuffer → TunnelServer
with_buffer this id buffer = record this {
  list = record (this.list) { client_buffers = update this.list.client_buffers id buffer };
}

-- The values that `message_length` gives in one call of `tpb_encapsulate`.
pub record Lengths : Type 0 where
  pub first : ℕ
  pub later : ℕ → ℕ

-- The choice at the top of the loop of `fill_message`: `none` is NO_ORDER. The result `none`: the
-- fuel of `next_message_client` ran out.
unfoldable pub next_order : TunnelServer → Option (Option ℕ)
next_order this = elim this.send_order [
  | none ↦ next_message_client this.list.client_count this.list none
  | some order ↦
      if this.send_count == 0
      then next_message_client this.list.client_count this.list (some order)
      else some (some order)
]

-- The cells from `cb_data` of the client's buffer on, once it is shifted.
abbrev pub data_of : TunnelServer → ℕ → List ℕ
data_of this i =
    let data_buf = cb_shift (this.list.client_buffers (this.list.id_table i)) in
    drop data_buf.start data_buf.buf

-- `tpb_encapsulate` reads behind the client's array, all of which is behind it when the buffer has
-- been freed; or the size is 0, by which `cb_skip` divides.
unfoldable pub reads_outside : Lengths → TunnelServer → ℕ → ℕ → Bool
reads_outside lengths this i send_count =
    (this.list.client_buffers (this.list.id_table i)).size == 0
    || ltb (length (data_of this i)) (
        cells_read lengths.first lengths.later this.tunnel_tpb (take send_count (data_of this i))
          send_count (this.list.id_table i))

-- The loop from `cb_shift` on, when nothing behind the array is read: `send_count` bytes of the
-- client at the place `i` are to be sent.
unfoldable pub sent_bytes : Lengths → TunnelServer → ℕ → ℕ → TunnelServer
sent_bytes lengths this i send_count =
    let id = this.list.id_table i in
    let r =
      tpb_encapsulate lengths.first lengths.later this.tunnel_tpb (take send_count (data_of this i))
        id in
    with_buffer
      (record this {
        send_order = some i;
        tunnel_tpb = r.1;
        send_count = if ltb r.0 (2 ^ 63) then sub_size send_count r.0 else send_count;
      })
      id (cb_skip (cb_shift (this.list.client_buffers id)) r.0)

-- The loop from `cb_shift` on. `none`: a read outside the array, or a division by 0.
unfoldable pub send_some : Lengths → TunnelServer → ℕ → ℕ → Option TunnelServer
send_some lengths this i send_count =
    if reads_outside lengths this i send_count
    then none
    else some (sent_bytes lengths this i send_count)

-- The first value of `send_count` for the client at the place `i`.
unfoldable pub to_send : TunnelServer → ℕ → ℕ
to_send this i =
    if this.send_count == 0
    then (this.list.client_buffers (this.list.id_table i)).count
    else this.send_count

-- How a part of the main loop ends. `overrun`: in this state, with these values of
-- `message_length`, the bytes of the client at this place cannot be sent without a read outside
-- its array. `stuck`: the fuel ran out, or `remove_client` uses NULL.
pub data Outcome : Type 0 where
  done : TunnelServer → Outcome
  overrun : Lengths → TunnelServer → ℕ → Outcome
  stuck : Outcome

-- The loop of `fill_message`.
unfoldable pub fill_rounds : ℕ → (ℕ → Lengths) → TunnelServer → Outcome
fill_rounds zero lengths this = stuck
fill_rounds (suc fuel) lengths this = elim (next_order this) [
  | none ↦ stuck
  | some none ↦ done (record this { send_order = none })
  | some (some i) ↦ elim (to_send this i == 0) [
    | true ↦ done (record this { send_order = some i })
    | false ↦ elim (send_some (lengths fuel) this i (to_send this i)) [
      | none ↦ overrun (lengths fuel) this i
      | some sent ↦ elim (sent.send_count == 0) [
        | true ↦ fill_rounds fuel lengths sent
        | false ↦ done sent
      ]
    ]
  ]
]

-- The bytes that wait in the buffers of the first `n` clients of the list.
unfoldable pub waiting_at : (ℕ → ℕ) → (ℕ → CyclicBuffer) → ℕ → ℕ
waiting_at id_table buffers zero = 0
waiting_at id_table buffers (suc n) = waiting_at id_table buffers n + (buffers (id_table n)).count

abbrev pub waiting : TunnelServer → ℕ
waiting this = waiting_at this.list.id_table this.list.client_buffers this.list.client_count

-- `fill_message` behind `process_empty_removed`.
unfoldable pub fill_added : (ℕ → Lengths) → TunnelServer → Outcome
fill_added lengths this = elim (process_added (suc this.add_queue.count) this) [
  | none ↦ stuck
  | some (false, next) ↦ done next
  | some (true, next) ↦ fill_rounds (waiting next + 2) lengths next
]

unfoldable pub fill_message : (ℕ → Lengths) → TunnelServer → Outcome
fill_message lengths this = elim (process_empty_removed this) [
  | none ↦ stuck
  | some (false, next) ↦ done next
  | some (true, next) ↦ fill_added lengths next
]

-- `tpb_send` to the tunnel, whose result is not looked at.
unfoldable pub send_message : (List ℕ → Option ℕ) → TunnelServer → TunnelServer
send_message write this =
    if tunnel_pollable this.server write_mask
    then record this { tunnel_tpb = (tpb_send this.tunnel_tpb write).1 }
    else this

-- What is done behind a part of the loop that has come to its end.
unfoldable pub then_go : Outcome → (TunnelServer → TunnelServer) → Outcome
then_go (done this) next = done (next this)
then_go (overrun lengths this i) next = overrun lengths this i
then_go stuck next = stuck

unfoldable pub perform_protocol_io : (ℕ → Lengths) → (List ℕ → Option ℕ) → TunnelServer → Outcome
perform_protocol_io lengths write this = then_go (fill_message lengths this) (send_message write)

-- The end of the body of `perform_client_io`, with what `cb_recv` returned.
unfoldable pub received : TunnelServer → ℕ → Option ℕ × CyclicBuffer → TunnelServer
received this i (none, buffer) = ts_remove_client (with_buffer this (this.list.id_table i) buffer) i
received this i (some n, buffer) = with_buffer this (this.list.id_table i) buffer

-- The body of the loop of `perform_client_io`. `read` is read(2) on a descriptor.
unfoldable pub client_io_at : (Option ℕ → ℕ → Option (List ℕ)) → TunnelServer → ℕ → TunnelServer
client_io_at read this i =
    let id = this.list.id_table i in
    let buffer = this.list.client_buffers id in
    if client_has_errors this.server id
    then ts_remove_client this i
    else if not (cb_full buffer) && client_readable this.server id
    then received this i (cb_recv buffer (read (client_fd this.server id)))
    else this

-- The loop with `rounds` rounds left; the body leaves `client_count` alone.
unfoldable pub client_io_from :
    (Option ℕ → ℕ → Option (List ℕ)) → ℕ → TunnelServer → ℕ → ℕ → ℕ → TunnelServer
client_io_from read zero this i processed ioable_count = this
client_io_from read (suc rounds) this i processed ioable_count =
    let found = client_ioable this.server (this.list.id_table i) in
    let rest =
      client_io_from read rounds (client_io_at read this i) (i + 1)
        (if found then processed + 1 else processed) ioable_count in
    if ltb processed ioable_count then rest else this

unfoldable pub perform_client_io :
    (Option ℕ → ℕ → Option (List ℕ)) → TunnelServer → ℕ → TunnelServer
perform_client_io read this ioable_count =
    client_io_from read this.list.client_count this 0
      (if tunnel_pollable this.server any_mask then 1 else 0) ioable_count

-- What the system does in one turn of `main_loop`. `polled` is `none` when poll(2) fails, else
-- what it returns and the events that it reports.
pub record Turn : Type 0 where
  pub polled : Option (ℕ × (ℕ → Mask))
  pub accepted : Option ℕ
  pub fresh : List ℕ
  pub back : List ℕ
  pub read : Option ℕ → ℕ → Option (List ℕ)
  pub write : List ℕ → Option ℕ
  pub lengths : ℕ → Lengths

-- poll(2) stores the events of the places that it is asked about.
unfoldable pub with_events : TunnelServer → (ℕ → Mask) → TunnelServer
with_events this revents = record this {
  server = record (this.server) {
    clients = λ p.
        if ltb p (get_poll_count this.server)
        then record (this.server.clients p) { revents = revents p }
        else this.server.clients p;
  };
}

-- A connection is given to a client, or closed when the table is full.
unfoldable pub admit : Turn → TunnelServer → ℕ → TunnelServer
admit turn this fd =
    if is_full this.server
    then record this { closed = this.closed ++ fd ∷ [] }
    else (ts_add_client this fd turn.fresh turn.back).1

-- The last statement of the loop that changes anything.
unfoldable pub ask_tunnel : TunnelServer → TunnelServer
ask_tunnel this = record this {
  server = set_tunnel_writeable this.server (not (tpb_empty this.tunnel_tpb));
}

-- The statements of the loop behind accept(2).
unfoldable pub serve : Turn → TunnelServer → ℕ → Outcome
serve turn this ioable_count =
    then_go
      (perform_protocol_io turn.lengths turn.write (perform_client_io turn.read this ioable_count))
      ask_tunnel

-- The body of the loop: `fd_count` and the server as poll(2) left them.
unfoldable pub polled_turn : Turn → TunnelServer → ℕ → Outcome
polled_turn turn this fd_count =
    if (this.server.clients poll_listener_index).revents.pollin
    then elim (turn.accepted) [
      | none ↦ done this
      | some fd ↦ serve turn (admit turn this fd) (sub_size fd_count 1)
    ]
    else serve turn this fd_count

-- The turns of `main_loop` until poll(2) fails or the turns are over.
unfoldable pub main_loop : List Turn → TunnelServer → Outcome
main_loop [] this = done this
main_loop (turn ∷ turns) this = elim (turn.polled) [
  | none ↦ done this
  | some (fd_count, revents) ↦ elim (polled_turn turn (with_events this revents) fd_count) [
    | done next ↦ main_loop turns next
    | overrun lengths next i ↦ overrun lengths next i
    | stuck ↦ stuck
  ]
]
