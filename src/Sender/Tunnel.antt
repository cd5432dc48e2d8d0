-- ===== src/Sender/Tunnel.antt =====
-- lab34/lab34-sender.c: the state of the sender and what it does with its clients.
-- `closed` are the descriptors that close(2) was called with, oldest first; the other fields are
-- those of TunnelServer, `list` holding three of them. A client's number is stored as a char.
use os_unixvr4_labs.Common.{
  ℕ, zero, suc, ◌+◌, ◌*◌, ◌%◌, Bool, true, false, not, ◌||◌, List, [], ◌++◌, Option, none, some,
  ltb, if◌then◌else◌, add_size, sub_size, update,
}
use os_unixvr4_labs.Cyclic.{CyclicBuffer, cb_init, cb_free, cb_empty, cb_skip, cb_putc, cb_peek}
use os_unixvr4_labs.Server.{
  Server, init_server, add_client, remove_client, disconnect_client, max_clients,
}
use os_unixvr4_labs.TpBuffer.{TpBuffer, tpb_init, tpb_contol_message, client_add, client_remove}
use os_unixvr4_labs.Sender.{Clients}

abbrev pub buffer_size : ℕ
buffer_size = 1024

abbrev pub message_size : ℕ
message_size = 2 * buffer_size + 3

pub record TunnelServer : Type 0 where
  pub server : Server
  pub send_order : Option ℕ
  pub send_count : ℕ
  pub list : Clients
  pub remove_flag : ℕ → Bool
  pub add_queue : CyclicBuffer
  pub tunnel_buffers : ℕ → CyclicBuffer
  pub tunnel_tpb : TpBuffer
  pub closed : List ℕ

-- What `memset` makes of a buffer.
abbrev pub zero_buffer : CyclicBuffer
zero_buffer = record { buf = []; size = 0; count = 0; start = 0 }

-- A successful `init_tserver`; `text` and `queue` are the arrays that malloc returns. `memset`
-- makes `send_order` 0, not NO_ORDER.
unfoldable pub started_tserver : Server → List ℕ → List ℕ → TunnelServer
started_tserver server text queue = record {
  server = server;
  send_order = some 0;
  send_count = 0;
  list = record { id_table = λ i. 0; client_count = 0; client_buffers = λ id. zero_buffer };
  remove_flag = λ id. false;
  add_queue = cb_init queue max_clients;
  tunnel_buffers = λ id. zero_buffer;
  tunnel_tpb = tpb_init text message_size;
  closed = [];
}

-- `none` is EXIT_FAILURE; the list holds the descriptors closed then.
unfoldable pub init_tserver : Option ℕ → Option ℕ → List ℕ → List ℕ → Option TunnelServer × List ℕ
init_tserver listen_fd tunnel_fd text queue =
    let r = init_server listen_fd tunnel_fd in
    (elim (r.0) [ none ↦ none | some server ↦ some (started_tserver server text queue) ], r.1)

unfoldable pub ts_remove_client : TunnelServer → ℕ → TunnelServer
ts_remove_client this i =
    let id = this.list.id_table i in
    let d = disconnect_client this.server id in
    record this {
      server = d.0;
      closed = this.closed ++ d.1;
      remove_flag = update this.remove_flag id true;
    }

-- `ts_add_client` with the number that `add_client` gave; `fresh` and `back` are the arrays that
-- malloc returns.
unfoldable pub listed : TunnelServer → Server → ℕ → List ℕ → List ℕ → TunnelServer
listed this server id fresh back = record this {
  server = server;
  list = record {
    id_table = update this.list.id_table this.list.client_count id;
    client_count = add_size this.list.client_count 1;
    client_buffers = update this.list.client_buffers id (cb_init fresh buffer_size);
  };
  tunnel_buffers = update this.tunnel_buffers id (cb_init back buffer_size);
  add_queue = (cb_putc this.add_queue (id % 256)).1;
}

-- `ts_add_client` with what `add_client` returned. The result `false` is EXIT_FAILURE.
unfoldable pub added_as : TunnelServer → Option ℕ × Server → List ℕ → List ℕ → Bool × TunnelServer
added_as this (none, server) fresh back = (false, record this { server = server })
added_as this (some id, server) fresh back = (true, listed this server id fresh back)

unfoldable pub ts_add_client : TunnelServer → ℕ → List ℕ → List ℕ → Bool × TunnelServer
unfolding added_as
ts_add_client this fd fresh back = added_as this (add_client this.server fd) fresh back

-- The statements of `ts_actual_remove` behind `remove_client`.
unfoldable pub unlisted : TunnelServer → Server → List ℕ → ℕ → TunnelServer
unlisted this server fds i =
    let id = this.list.id_table i in
    let last = sub_size this.list.client_count 1 in
    record this {
      server = server;
      closed = this.closed ++ fds;
      list = record {
        id_table = update this.list.id_table i (this.list.id_table last);
        client_count = last;
        client_buffers = update this.list.client_buffers id (cb_free (this.list.client_buffers id));
      };
      tunnel_buffers = update this.tunnel_buffers id (cb_free (this.tunnel_buffers id));
    }

-- `ts_actual_remove` with what `remove_client` returned.
unfoldable pub removed_as : TunnelServer → Option Server × List ℕ → ℕ → Option TunnelServer
removed_as this (none, fds) i = none
removed_as this (some server, fds) i = some (unlisted this server fds i)

-- `none`: `remove_client` uses NULL.
unfoldable pub ts_actual_remove : TunnelServer → ℕ → Option TunnelServer
unfolding removed_as
ts_actual_remove this i = removed_as this (remove_client this.server (this.list.id_table i)) i

-- The first test of the loop of `process_empty_removed`; the second is the same and never holds.
unfoldable pub is_kept : TunnelServer → ℕ → Bool
is_kept this id = not (this.remove_flag id) || not (cb_empty (this.list.client_buffers id))

-- The two statements before the next round: the source passes the number where the index is meant.
unfoldable pub drop_removed : TunnelServer → TpBuffer → ℕ → Option TunnelServer
drop_removed this tpb id =
    ts_actual_remove
      (record this { tunnel_tpb = tpb; remove_flag = update this.remove_flag id false }) id

-- The loop from `i` on. `none`: the fuel ran out, or `remove_client` uses NULL.
unfoldable pub removed_from : ℕ → TunnelServer → ℕ → Option (Bool × TunnelServer)
removed_from zero this i = none
removed_from (suc fuel) this i =
    let id = this.list.id_table i in
    let r = tpb_contol_message this.tunnel_tpb client_remove id in
    let kept = removed_from fuel this (i + 1) in
    let dropped : Option (Bool × TunnelServer) = elim (drop_removed this r.1 id) [
      | none ↦ none
      | some next ↦ removed_from fuel next i
    ] in
    if ltb i this.list.client_count
    then if is_kept this id
      then kept
      else if r.0
      then dropped
      else some (false, record this { tunnel_tpb = r.1 })
    else some (true, this)

-- No more rounds than clients.
unfoldable pub process_empty_removed : TunnelServer → Option (Bool × TunnelServer)
process_empty_removed this = removed_from (suc this.list.client_count) this 0

-- The state with the buffer for the tunnel and the queue of added clients changed.
unfoldable pub with_added : TunnelServer → TpBuffer → CyclicBuffer → TunnelServer
with_added this tpb queue = record this { tunnel_tpb = tpb; add_queue = queue }

-- The number is read back as a char; its byte is the one that was stored. `none`: the fuel ran
-- out.
unfoldable pub process_added : ℕ → TunnelServer → Option (Bool × TunnelServer)
process_added zero this = none
process_added (suc fuel) this = elim (cb_peek this.add_queue) [
  | none ↦ some (true, this)
  | some id ↦
      let r = tpb_contol_message this.tunnel_tpb client_add id in
      let rest = process_added fuel (with_added this r.1 (cb_skip this.add_queue 1)) in
      if r.0 then rest else some (false, with_added this r.1 this.add_queue)
]
