-- ===== src/Proxy/Turn.antt =====
-- lab33/lab33-proxy.c: the loop over the clients, and a turn of the main loop. What poll(2),
-- accept(2), `client_setup`, malloc, read(2) and write(2) do in a turn is an argument. `none` is a
-- fault: a use of NULL or of -1 as an index, or a write behind an array.
use os_unixvr4_labs.Common.{
  ℕ, zero, suc, ◌+◌, List, [], ◌∷◌, ◌++◌, Option, none, some, ltb, Bool, true, false, ◌||◌,
  if◌then◌else◌, add_size, sub_size, update,
}
use os_unixvr4_labs.Server.{Mask}
use os_unixvr4_labs.Proxy.{Clients, commit_remove}
use os_unixvr4_labs.Proxy.Table.{
  Server, max_clients, get_client, get_server, get_poll_count, poll_listener_index, add_client,
  init_server,
}
use os_unixvr4_labs.Proxy.Transfer.{can_read_from, has_errors, is_ioable, try_transfer}
use os_unixvr4_labs.Proxy.Leave.{ProxyServer, pr_remove_client}

-- What the system does in a turn. read(2) and write(2) are called at most once with a descriptor.
pub record Turn : Type 0 where
  pub fd_count : ℕ
  pub revents : ℕ → Mask
  pub accepted : Option ℕ
  pub connected : Option ℕ
  pub fresh_stoc : List ℕ
  pub fresh_ctos : List ℕ
  pub read : Option ℕ → ℕ → Option (List ℕ)
  pub write : Option ℕ → List ℕ → Option ℕ

-- The two transfers of a client: `p` and `q` are its place and that of its server.
unfoldable pub transfer_ctos : Turn → Server → ℕ → ℕ → ℕ → Bool × Server
transfer_ctos io s id p q =
    let (ok, buffer) =
      try_transfer (s.clients p) (s.ctos_buffers id) (s.clients q) (io.read ((s.clients p).fd))
        (io.write ((s.clients q).fd)) in
    (ok, record s { ctos_buffers = update s.ctos_buffers id buffer })

unfoldable pub transfer_stoc : Turn → Server → ℕ → ℕ → ℕ → Bool × Server
transfer_stoc io s id p q =
    let (ok, buffer) =
      try_transfer (s.clients q) (s.stoc_buffers id) (s.clients p) (io.read ((s.clients q).fd))
        (io.write ((s.clients p).fd)) in
    (ok, record s { stoc_buffers = update s.stoc_buffers id buffer })

-- The part of the body of the loop that may remove the client: whether it stays.
unfoldable pub serve : Turn → Server → ℕ → ℕ → ℕ → Bool × Server
serve io s id p q =
    let (ok, s') = transfer_ctos io s id p q in
    if has_errors (s.clients p) || has_errors (s.clients q)
    then (false, s)
    else if ok
    then transfer_stoc io s' id p q
    else (false, s')

unfoldable pub keep_or_remove : ProxyServer → ℕ → Bool × Server → Option ProxyServer × List ℕ
keep_or_remove this i (true, s) = (some (record this { server = s }), [])
keep_or_remove this i (false, s) = pr_remove_client (record this { server = s }) i

-- The client with a number, and its server, with their places.
unfoldable pub places : Server → ℕ → Option (ℕ × ℕ)
places s id = elim (get_client s id) [
  | none ↦ none
  | some p ↦ elim (get_server s id) [ none ↦ none | some q ↦ some (p, q) ]
]

unfoldable pub visit : Turn → ProxyServer → ℕ → Option ProxyServer × List ℕ
visit io this i = elim (this.list.id_table i) [
  | none ↦ (none, [])
  | some id ↦ elim (places this.server id) [
    | none ↦ (none, [])
    | some (p, q) ↦ keep_or_remove this i (serve io this.server id p q)
  ]
]

abbrev pub count_if : Bool → ℕ
count_if b = if b then 1 else 0

-- What the client at a place of the list adds to `ioable_processed`.
unfoldable pub ioable_at : ProxyServer → ℕ → ℕ
ioable_at this i = elim (this.list.id_table i) [
  | none ↦ 0
  | some id ↦ elim (places this.server id) [
    | none ↦ 0
    | some (p, q) ↦
        count_if (is_ioable (this.server.clients p)) + count_if (is_ioable (this.server.clients q))
  ]
]

-- A step and what follows, unless it is a fault, with all that is closed.
unfoldable pub and_next :
    Option ProxyServer × List ℕ
    → (ProxyServer → Option ProxyServer × List ℕ)
    → Option ProxyServer × List ℕ
and_next (none, fds) f = (none, fds)
and_next (some this, fds) f = let (r, fds') = f this in (r, fds ++ fds')

-- The loop of `try_read` from `i` on, with the rounds that are left.
unfoldable pub visit_from : Turn → ℕ → ℕ → ProxyServer → ℕ → ℕ → Option ProxyServer × List ℕ
visit_from io ioable_count zero this i processed = (some this, [])
visit_from io ioable_count (suc rounds) this i processed =
    if ltb processed ioable_count
    then and_next (visit io this i)
        (λ t. visit_from io ioable_count rounds t (suc i) (add_size processed (ioable_at this i)))
    else (some this, [])

unfoldable pub with_list : ProxyServer → Option Clients → Option ProxyServer
with_list this none = none
with_list this (some list) = some (record this { list = list })

unfoldable pub commit : Option ProxyServer × List ℕ → Option ProxyServer × List ℕ
commit (none, fds) = (none, fds)
commit (some this, fds) = (with_list this (commit_remove this.list), fds)

unfoldable pub try_read : Turn → ProxyServer → ℕ → Option ProxyServer × List ℕ
try_read io this ioable_count = commit (visit_from io ioable_count this.list.client_count this 0 0)

-- `proxy->id_table[proxy->client_count++] = id`
unfoldable pub put_client : ProxyServer → Server → ℕ → Option ProxyServer
put_client this s id =
    if ltb this.list.client_count max_clients
    then some (record {
      server = s;
      list = record (this.list) {
        id_table = update this.list.id_table this.list.client_count (some id);
        client_count = add_size this.list.client_count 1;
      };
    })
    else none

-- What poll(2) leaves in the array.
abbrev pub polled : Turn → ProxyServer → ProxyServer
polled io this = record this {
  server = record (this.server) {
    clients = λ p.
        if ltb p (get_poll_count this.server)
        then record (this.server.clients p) { revents = io.revents p }
        else this.server.clients p;
  };
}

-- The part of a turn behind `add_client`, with its results. The client's descriptors are closed
-- when it is refused, and the turn ends.
unfoldable pub admitted :
    Turn → ProxyServer → ℕ → ℕ → Option ℕ × Server → Option ProxyServer × List ℕ
admitted io this client server (none, s) = (some (record this { server = s }), server ∷ client ∷ [])
admitted io this client server (some id, s) = elim (put_client this s id) [
  | none ↦ (none, [])
  | some t ↦ try_read io t (sub_size io.fd_count 1)
]

-- The body of the loop of `main_loop` when the listener has a client that waits, with what
-- accept(2) and `client_setup` return.
unfoldable pub admit : Turn → ProxyServer → Option ℕ → Option ℕ → Option ProxyServer × List ℕ
admit io this none connected = (some this, [])
admit io this (some client) none = (some this, client ∷ [])
admit io this (some client) (some server) =
    admitted io this client server
      (add_client this.server (some client) (some server) io.fresh_stoc io.fresh_ctos)

unfoldable pub turn : Turn → ProxyServer → Option ProxyServer × List ℕ
turn io this =
    let t = polled io this in
    if can_read_from (t.server.clients poll_listener_index)
    then admit io t io.accepted io.connected
    else try_read io t io.fd_count

-- The loop of `main_loop`, until poll(2) fails.
unfoldable pub main_loop : List Turn → ProxyServer → Option ProxyServer
main_loop [] this = some this
main_loop (io ∷ turns) this = elim ((turn io this).0) [ none ↦ none | some t ↦ main_loop turns t ]

unfoldable pub with_server_started : Option Server → Option ProxyServer
with_server_started none = none
with_server_started (some s) = some (record {
  server = s;
  list = record { id_table = λ i. none; client_count = 0; removed_count = 0 };
})

-- `none` is EXIT_FAILURE.
unfoldable pub pr_init_server : Option ℕ → Option ProxyServer
pr_init_server listen_fd = with_server_started (init_server listen_fd)
