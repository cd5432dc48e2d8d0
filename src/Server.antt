-- ===== src/Server.antt =====
-- lab34/server_management.c and server_management.h: the table of clients. A client's number stays,
-- its place in the array that poll(2) reads moves. An array is a function of the index; `none`
-- stands for the -1 that marks no client, no number or no descriptor. What socket(2), bind(2),
-- listen(2) and connect(2) return is an argument, and the descriptors that are closed are a result.
pub mod Table
pub mod Add
pub mod Steps
pub mod Remove
pub mod Reach
mod Tests
use os_unixvr4_labs.Common.{
  ℕ, zero, suc, ◌+◌, Bool, true, false, ◌&&◌, ◌||◌, not, List, [], ◌∷◌, ◌++◌, Option, none, some,
  ltb, ◌==◌, if◌then◌else◌, add_size, sub_size, update,
}

abbrev pub max_clients : ℕ
max_clients = 255

abbrev pub poll_listener_index : ℕ
poll_listener_index = 0

abbrev pub poll_tunnel_index : ℕ
poll_tunnel_index = 1

abbrev pub poll_client_offset : ℕ
poll_client_offset = 2

-- The bits POLLIN, POLLOUT and POLLERR of a mask.
pub record Mask : Type 0 where
  pub pollin : Bool
  pub pollout : Bool
  pub pollerr : Bool

abbrev pub read_mask : Mask
read_mask = record { pollin = true; pollout = false; pollerr = false }

abbrev pub write_mask : Mask
write_mask = record { pollin = false; pollout = true; pollerr = false }

abbrev pub error_mask : Mask
error_mask = record { pollin = false; pollout = false; pollerr = true }

abbrev pub any_mask : Mask
any_mask = record { pollin = true; pollout = true; pollerr = true }

-- `a & b` as a condition.
abbrev pub meets : Mask → Mask → Bool
meets a b = (a.pollin && b.pollin) || ((a.pollout && b.pollout) || (a.pollerr && b.pollerr))

pub record PollFd : Type 0 where
  pub fd : Option ℕ
  pub events : Mask
  pub revents : Mask

pub record Server : Type 0 where
  pub clients : ℕ → PollFd
  pub client_count : ℕ
  pub id_table : ℕ → Option ℕ
  pub index_to_id : ℕ → Option ℕ

unfoldable pub is_pollable : PollFd → Mask → Bool
is_pollable p mask = meets p.revents mask

-- The index in `clients`; `none` is NULL.
unfoldable pub get_client : Server → ℕ → Option ℕ
get_client this id =
    if ltb id max_clients
    then elim (this.id_table id) [ none ↦ none | some index ↦ some (index + poll_client_offset) ]
    else none

unfoldable pub client_fd : Server → ℕ → Option ℕ
client_fd this id = elim (get_client this id) [ none ↦ none | some p ↦ (this.clients p).fd ]

unfoldable pub client_pollable : Server → ℕ → Mask → Bool
client_pollable this id mask = elim (get_client this id) [
  | none ↦ false
  | some p ↦ is_pollable (this.clients p) mask
]

unfoldable pub client_ioable : Server → ℕ → Bool
client_ioable this id = client_pollable this id any_mask

unfoldable pub client_readable : Server → ℕ → Bool
client_readable this id = client_pollable this id read_mask

unfoldable pub client_writeable : Server → ℕ → Bool
client_writeable this id = client_pollable this id write_mask

unfoldable pub client_has_errors : Server → ℕ → Bool
client_has_errors this id = client_pollable this id error_mask

-- `get_tunnel` is never NULL.
unfoldable pub tunnel_pollable : Server → Mask → Bool
tunnel_pollable this mask = is_pollable (this.clients poll_tunnel_index) mask

unfoldable pub tunnel_fd : Server → Option ℕ
tunnel_fd this = (this.clients poll_tunnel_index).fd

unfoldable pub is_full : Server → Bool
is_full this = this.client_count == max_clients

unfoldable pub get_poll_count : Server → ℕ
get_poll_count this = add_size this.client_count poll_client_offset

abbrev pub no_events : Mask
no_events = record { pollin = false; pollout = false; pollerr = false }

abbrev pub in_and_out : Mask
in_and_out = record { pollin = true; pollout = true; pollerr = false }

-- The state of the array after the loop and the assignments of `init_server`.
unfoldable pub initial_poll : ℕ → ℕ → ℕ → PollFd
initial_poll listen_fd tunnel_fd index =
    if index == poll_listener_index
    then record { fd = some listen_fd; events = read_mask; revents = no_events }
    else if index == poll_tunnel_index
    then record { fd = some tunnel_fd; events = in_and_out; revents = no_events }
    else record { fd = none; events = in_and_out; revents = no_events }

-- What a successful `init_server` leaves.
abbrev pub started_server : ℕ → ℕ → Server
started_server listen_fd tunnel_fd = record {
  clients = initial_poll listen_fd tunnel_fd;
  client_count = 0;
  id_table = λ id. none;
  index_to_id = λ index. none;
}

-- The arguments are what `server_setup` and `client_setup` return. The results are the server, or
-- `none` for EXIT_FAILURE, and the descriptors closed.
unfoldable pub init_server : Option ℕ → Option ℕ → Option Server × List ℕ
init_server none tunnel = (none, [])
init_server (some listen_fd) none = (none, listen_fd ∷ [])
init_server (some listen_fd) (some tunnel) = (some (started_server listen_fd tunnel), [])

-- `swap_poll` on the places `i` and `j` of the array.
abbrev pub swap_poll : (ℕ → PollFd) → ℕ → ℕ → ℕ → PollFd
swap_poll clients i j = update (update clients i (clients j)) j (clients i)

-- The descriptor of the client at the place `p`, closed and marked.
unfoldable pub disconnect_at : Server → ℕ → Server × List ℕ
disconnect_at this p = elim ((this.clients p).fd) [
  | none ↦ (this, [])
  | some fd ↦ (
    record this { clients = update this.clients p (record (this.clients p) { fd = none }) },
    fd ∷ [],
  )
]

unfoldable pub disconnect_client : Server → ℕ → Server × List ℕ
disconnect_client this id = elim (get_client this id) [
  | none ↦ (this, [])
  | some p ↦ disconnect_at this p
]

-- The last two assignments of `remove_client`.
unfoldable pub clear_last : Server → ℕ → Server
clear_last this id = record this {
  index_to_id = update this.index_to_id this.client_count none;
  id_table = update this.id_table id none;
}

-- The block under `client_count != 0`: the last client moves to the place of the removed one.
-- `none` is a use of NULL, or of -1 as an index.
unfoldable pub move_last : Server → ℕ → ℕ → Option Server
move_last this id index = elim (this.index_to_id this.client_count) [
  | none ↦ none
  | some last_id ↦ elim (get_client this last_id) [
    | none ↦ none
    | some q ↦ some (record this {
      clients = swap_poll this.clients (index + poll_client_offset) q;
      index_to_id = update this.index_to_id index (some last_id);
      id_table = update this.id_table last_id (some index);
    })
  ]
]

-- `remove_client` behind its guard: `id` has the place `index`.
unfoldable pub remove_at : Server → ℕ → ℕ → Option Server × List ℕ
remove_at this id index =
    let d = disconnect_client this id in
    let counted = record (d.0) { client_count = sub_size d.0.client_count 1 } in
    if counted.client_count == 0
    then (some (clear_last counted id), d.1)
    else (elim (move_last counted id index) [ none ↦ none | some s ↦ some (clear_last s id) ], d.1)

unfoldable pub remove_client : Server → ℕ → Option Server × List ℕ
remove_client this id =
    if ltb id max_clients
    then elim (this.id_table id) [ none ↦ (some this, []) | some index ↦ remove_at this id index ]
    else (some this, [])

-- The loop of `next_id` with `rounds` rounds left; `none` is NO_ID.
pub first_free : (ℕ → Option ℕ) → ℕ → ℕ → Option ℕ
first_free id_table i zero = none
first_free id_table i (suc rounds) = elim (id_table i) [
  | none ↦ some i
  | some index ↦ first_free id_table (i + 1) rounds
]

unfoldable pub next_id : Server → Option ℕ
next_id this = first_free this.id_table 0 max_clients

-- `add_client` with the number that `next_id` found.
unfoldable pub add_with_id : Server → ℕ → ℕ → Server
add_with_id this fd id = record this {
  id_table = update this.id_table id (some this.client_count);
  index_to_id = update this.index_to_id this.client_count (some id);
  clients =
      update this.clients (this.client_count + poll_client_offset)
        (record (this.clients (this.client_count + poll_client_offset)) { fd = some fd });
  client_count = add_size this.client_count 1;
}

unfoldable pub add_client : Server → ℕ → Option ℕ × Server
add_client this fd = elim (next_id this) [
  | none ↦ (none, this)
  | some id ↦ (some id, add_with_id this fd id)
]

-- POLLOUT of the tunnel is asked for or not.
unfoldable pub set_tunnel_writeable : Server → Bool → Server
set_tunnel_writeable this writeable =
    let tunnel = this.clients poll_tunnel_index in
    record this {
      clients =
          update this.clients poll_tunnel_index
            (record tunnel { events = record (tunnel.events) { pollout = writeable } });
    }
