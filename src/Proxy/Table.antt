-- ===== src/Proxy/Table.antt =====
-- lab33/server_management.c and server_management.h: the table of clients of the proxy, each with
-- the descriptor of its client and that of its server, and a buffer for each direction. An array
-- is a function of the index; `none` stands for -1 and NULL. What malloc and `server_setup` return
-- are arguments, and the descriptors that are closed are a result.
use os_unixvr4_labs.Common.{
  ℕ, ◌+◌, ◌*◌, List, [], ◌∷◌, Option, none, some, ltb, ◌==◌, Bool, if◌then◌else◌, add_size,
  sub_size, update,
}
use os_unixvr4_labs.IoBuffer.{IoBuffer, init_iobuf, free_iobuf}
use os_unixvr4_labs.Server.{PollFd, read_mask, in_and_out, no_events, first_free, swap_poll}

abbrev pub max_clients : ℕ
max_clients = 1024

abbrev pub buffer_size : ℕ
buffer_size = 1024

abbrev pub poll_listener_index : ℕ
poll_listener_index = 0

abbrev pub poll_client_offset : ℕ
poll_client_offset = 1

abbrev pub poll_client_index : ℕ → ℕ
poll_client_index i = i * 2 + poll_client_offset

abbrev pub poll_server_index : ℕ → ℕ
poll_server_index i = i * 2 + 1 + poll_client_offset

pub record Server : Type 0 where
  pub clients : ℕ → PollFd
  pub stoc_buffers : ℕ → IoBuffer
  pub ctos_buffers : ℕ → IoBuffer
  pub client_count : ℕ
  pub id_table : ℕ → Option ℕ
  pub index_to_id : ℕ → Option ℕ

-- The place of a number, if `is_valid_id` holds of it.
unfoldable pub place_of : Server → ℕ → Option ℕ
place_of this id = if ltb id max_clients then this.id_table id else none

-- The index in `clients`.
unfoldable pub get_client : Server → ℕ → Option ℕ
get_client this id = elim (place_of this id) [ none ↦ none | some i ↦ some (poll_client_index i) ]

unfoldable pub get_server : Server → ℕ → Option ℕ
get_server this id = elim (place_of this id) [ none ↦ none | some i ↦ some (poll_server_index i) ]

-- The index in `ctos_buffers`.
unfoldable pub get_ctos_buffer : Server → ℕ → Option ℕ
get_ctos_buffer this id = elim (place_of this id) [ none ↦ none | some i ↦ some id ]

unfoldable pub get_stoc_buffer : Server → ℕ → Option ℕ
get_stoc_buffer this id = elim (place_of this id) [ none ↦ none | some i ↦ some id ]

unfoldable pub is_full : Server → Bool
is_full this = this.client_count == max_clients

unfoldable pub get_poll_count : Server → ℕ
get_poll_count this = add_size (2 * this.client_count) poll_client_offset

-- The array after the loop and the assignments of `init_server`.
unfoldable pub initial_poll : ℕ → ℕ → PollFd
initial_poll listen_fd index =
    if index == poll_listener_index
    then record { fd = some listen_fd; events = read_mask; revents = no_events }
    else record { fd = none; events = in_and_out; revents = no_events }

-- The buffers that memset(3) leaves.
abbrev pub no_buffer : IoBuffer
no_buffer = record { buf = []; size = 0; count = 0 }

-- What a successful `init_server` leaves.
abbrev pub started_server : ℕ → Server
started_server listen_fd = record {
  clients = initial_poll listen_fd;
  stoc_buffers = λ id. no_buffer;
  ctos_buffers = λ id. no_buffer;
  client_count = 0;
  id_table = λ id. none;
  index_to_id = λ index. none;
}

unfoldable pub init_server : Option ℕ → Option Server
init_server none = none
init_server (some listen_fd) = some (started_server listen_fd)

-- close(2), which does nothing with -1.
unfoldable pub close : Option ℕ → List ℕ
close none = []
close (some fd) = fd ∷ []

-- The descriptors at the place `i`, closed and marked.
unfoldable pub disconnect_at : Server → ℕ → Server × List ℕ
disconnect_at this i =
    let client = this.clients (poll_client_index i) in
    let server = this.clients (poll_server_index i) in
    elim (client.fd) [
      | none ↦ (this, [])
      | some fd ↦ (
        record this {
          clients =
              update (update this.clients (poll_client_index i) (record client { fd = none }))
                (poll_server_index i) (record server { fd = none });
        },
        fd ∷ close server.fd,
      )
    ]

unfoldable pub disconnect_client : Server → ℕ → Server × List ℕ
disconnect_client this id = elim (place_of this id) [
  | none ↦ (this, [])
  | some i ↦ disconnect_at this i
]

unfoldable pub free_buffers : Server → ℕ → Server
free_buffers this id = record this {
  ctos_buffers = update this.ctos_buffers id (free_iobuf (this.ctos_buffers id));
  stoc_buffers = update this.stoc_buffers id (free_iobuf (this.stoc_buffers id));
}

-- The last two assignments of `remove_client`.
unfoldable pub clear_last : Server → ℕ → Server
clear_last this id = record this {
  index_to_id = update this.index_to_id this.client_count none;
  id_table = update this.id_table id none;
}

-- The block under `client_count != 0`: the client of the last place moves to the place `i`. `none`
-- is a use of NULL, or of -1 as an index.
unfoldable pub move_last : Server → ℕ → Option Server
move_last this i = elim (this.index_to_id this.client_count) [
  | none ↦ none
  | some last_id ↦ elim (get_client this last_id) [
    | none ↦ none
    | some q ↦ some (record this {
      clients = swap_poll this.clients (poll_client_index i) q;
      index_to_id = update this.index_to_id i (some last_id);
      id_table = update this.id_table last_id (some i);
    })
  ]
]

unfoldable pub clear_moved : Option Server → ℕ → Option Server
clear_moved none id = none
clear_moved (some this) id = some (clear_last this id)

-- `remove_client` behind its guard: `id` has the place `i`.
unfoldable pub remove_at : Server → ℕ → ℕ → Option Server × List ℕ
remove_at this id i =
    let (d, fds) = disconnect_client this id in
    let freed = free_buffers d id in
    let counted = record freed { client_count = sub_size freed.client_count 1 } in
    (
      if counted.client_count == 0
          then some (clear_last counted id)
          else clear_moved (move_last counted i) id,
      fds,
    )

unfoldable pub remove_client : Server → ℕ → Option Server × List ℕ
remove_client this id = elim (place_of this id) [
  | none ↦ (some this, [])
  | some i ↦ remove_at this id i
]

unfoldable pub next_id : Server → Option ℕ
next_id this = first_free this.id_table 0 max_clients

-- `add_client` with the number that `next_id` found; the lists are the arrays that malloc returns.
unfoldable pub add_with_id : Server → ℕ → ℕ → List ℕ → List ℕ → ℕ → Server
add_with_id this client_fd server_fd fresh_stoc fresh_ctos id =
    let i = this.client_count in
    let client = this.clients (poll_client_index i) in
    let server = this.clients (poll_server_index i) in
    record this {
      id_table = update this.id_table id (some i);
      index_to_id = update this.index_to_id i (some id);
      clients =
          update (update this.clients (poll_client_index i) (record client { fd = some client_fd }))
            (poll_server_index i) (record server { fd = some server_fd });
      stoc_buffers = update this.stoc_buffers id (init_iobuf fresh_stoc buffer_size);
      ctos_buffers = update this.ctos_buffers id (init_iobuf fresh_ctos buffer_size);
      client_count = add_size i 1;
    }

unfoldable pub add_client : Server → Option ℕ → Option ℕ → List ℕ → List ℕ → Option ℕ × Server
add_client this none server_fd fresh_stoc fresh_ctos = (none, this)
add_client this (some client_fd) none fresh_stoc fresh_ctos = (none, this)
add_client this (some client_fd) (some server_fd) fresh_stoc fresh_ctos = elim (next_id this) [
  | none ↦ (none, this)
  | some id ↦ (some id, add_with_id this client_fd server_fd fresh_stoc fresh_ctos id)
]
