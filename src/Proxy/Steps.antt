-- ===== src/Proxy/Steps.antt =====
-- lab33/server_management.c: the steps of `remove_client` as equations.
use os_unixvr4_labs.Common.{
  ℕ, ◌<◌, ◌≡◌, ◌≢◌, refl, ap, ◌∙◌, Option, some, none, List, [], ◌∷◌, arith, update, sub_size,
  Option-cases, inl, inr,
}
use os_unixvr4_labs.Server.{PollFd, swap_poll}
use os_unixvr4_labs.Server.Table.{IsTable}
use os_unixvr4_labs.IoBuffer.{free_iobuf}
use os_unixvr4_labs.Proxy.Table.{
  Server, max_clients, poll_client_index, poll_server_index, place_of, get_client, close,
  disconnect_at, disconnect_client, free_buffers, clear_last, clear_moved, move_last, remove_at,
}

abbrev pub IsServer : Server → Type 0
IsServer s = IsTable max_clients s.client_count s.id_table s.index_to_id

-- The descriptors that a place has, of its client and of its server.
unfoldable pub client_fd_at : (ℕ → PollFd) → Option ℕ → Option ℕ
client_fd_at clients none = none
client_fd_at clients (some i) = (clients (poll_client_index i)).fd

unfoldable pub server_fd_at : (ℕ → PollFd) → Option ℕ → Option ℕ
server_fd_at clients none = none
server_fd_at clients (some i) = (clients (poll_server_index i)).fd

-- The descriptors of the client with a number, and of its server.
abbrev pub client_fd : Server → ℕ → Option ℕ
client_fd s id = client_fd_at s.clients (s.id_table id)

abbrev pub server_fd : Server → ℕ → Option ℕ
server_fd s id = server_fd_at s.clients (s.id_table id)

pub place_of-some :
    (s : Server) (id i : ℕ) → IsServer s → s.id_table id ≡ some i → place_of s id ≡ some i
unfolding place_of
place_of-some s id i v e = ground (arith, v.placed id i)

-- What is closed at a place.
abbrev pub closed_fds : Option ℕ → Option ℕ → List ℕ
closed_fds none server = []
closed_fds (some fd) server = fd ∷ close server

-- The array when a place has been disconnected.
pub record Disconnected (before after : ℕ → PollFd) (i : ℕ) : Type 0 where
  pub others : (j : ℕ) → j ≢ poll_client_index i → j ≢ poll_server_index i → after j ≡ before j
  pub server_gone :
      (before (poll_client_index i)).fd ≢ none → (after (poll_server_index i)).fd ≡ none

disconnect_at_lem :
    (s : Server) (i : ℕ)
    → (c : ℕ → PollFd) × (disconnect_at s i ≡ (
      record s { clients = c },
      closed_fds (s.clients (poll_client_index i)).fd (s.clients (poll_server_index i)).fd,
    ))
      × Disconnected s.clients c i
unfolding disconnect_at
disconnect_at_lem s i = elim (Option-cases ((s.clients (poll_client_index i)).fd)) [
  | inl e ↦ (
    s.clients,
    rw (e, disconnect_at) refl,
    record { others = λ j a b. refl; server_gone = λ h. absurd (h e) },
  )
  | inr (fd, e) ↦ (
    update
        (update s.clients (poll_client_index i)
          (record (s.clients (poll_client_index i)) { fd = none }))
        (poll_server_index i) (record (s.clients (poll_server_index i)) { fd = none }),
    rw (e, disconnect_at) refl,
    record { others = λ j a b. ground arith; server_gone = λ h. ground arith },
  )
]

pub disconnect_client_lem :
    (s : Server) (id i : ℕ)
    → IsServer s
    → s.id_table id ≡ some i
    → (c : ℕ → PollFd) × (disconnect_client s id
        ≡ (record s { clients = c }, closed_fds (client_fd s id) (server_fd s id)))
      × Disconnected s.clients c i
unfolding disconnect_client client_fd_at server_fd_at
disconnect_client_lem s id i v e =
    let d = disconnect_at_lem s i in
    (d.0, rw (place_of-some s id i v e, e, disconnect_client) (d.1), d.2)

-- The server with `clients` as the disconnection left them, the buffers freed, and the new count.
abbrev pub freed : Server → ℕ → (ℕ → PollFd) → ℕ → Server
freed s id c n = record s {
  clients = c;
  client_count = n;
  ctos_buffers = update s.ctos_buffers id (free_iobuf (s.ctos_buffers id));
  stoc_buffers = update s.stoc_buffers id (free_iobuf (s.stoc_buffers id));
}

-- The server when the last client has moved.
abbrev pub moved : Server → ℕ → ℕ → ℕ → Server
moved s i last q = record s {
  clients = swap_poll s.clients (poll_client_index i) (poll_client_index q);
  index_to_id = update s.index_to_id i (some last);
  id_table = update s.id_table last (some i);
}

pub move_last-some :
    (s : Server) (i n last : ℕ)
    → last < max_clients
    → s.client_count ≡ n
    → s.index_to_id n ≡ some last
    → s.id_table last ≡ some n
    → move_last s i ≡ some (moved s i last n)
unfolding move_last place_of get_client
move_last-some s i n last l z e h =
    let p : s.index_to_id s.client_count ≡ some last = ap s.index_to_id z ∙ e in
    let q : place_of s last ≡ some n = ground (arith, h) in rw (p, move_last) (rw q refl)

pub remove_at-last :
    (s : Server) (id i : ℕ) (c : ℕ → PollFd) (fds : List ℕ)
    → disconnect_client s id ≡ (record s { clients = c }, fds)
    → sub_size s.client_count 1 ≡ 0
    → remove_at s id i ≡ (some (clear_last (freed s id c 0) id), fds)
unfolding remove_at free_buffers
remove_at-last s id i c fds e h = rw (e, remove_at) (rw h (ground arith))

pub remove_at-more :
    (s : Server) (id i n : ℕ) (c : ℕ → PollFd) (fds : List ℕ) (m : Server)
    → disconnect_client s id ≡ (record s { clients = c }, fds)
    → sub_size s.client_count 1 ≡ n
    → n ≢ 0
    → move_last (freed s id c n) i ≡ some m
    → remove_at s id i ≡ (some (clear_last m id), fds)
unfolding remove_at free_buffers clear_moved
remove_at-more s id i n c fds m e h nz k = rw (e, remove_at) (rw (h, k) (ground arith))
