-- ===== src/Server/Steps.antt =====
-- The steps of `disconnect_client` and `remove_client` as equations.
use os_unixvr4_labs.Common.{
  ℕ, ◌+◌, ◌<◌, ◌≡◌, ◌≢◌, refl, sym, Option, some, none, List, [], ◌∷◌, arith, update, update_ne,
  sub_size, Option-cases, inl, inr,
}
use os_unixvr4_labs.Server.{
  Server, PollFd, max_clients, poll_client_offset, get_client, client_fd, disconnect_client,
  disconnect_at, clear_last, move_last, remove_at, swap_poll,
}
use os_unixvr4_labs.Server.Add.{client_fd-some}

-- The descriptor that a removal closes.
abbrev pub closed_fds : Option ℕ → List ℕ
closed_fds none = []
closed_fds (some fd) = fd ∷ []

get_client-some :
    (s : Server) (id i : ℕ)
    → id < max_clients
    → s.id_table id ≡ some i
    → get_client s id ≡ some (i + poll_client_offset)
unfolding get_client
get_client-some s id i l e = ground arith

pub disconnect_at_lem :
    (s : Server) (p : ℕ)
    → (c : ℕ → PollFd) × (disconnect_at s p
        ≡ (record s { clients = c }, closed_fds ((s.clients p).fd)))
      × ((j : ℕ) → j ≢ p → c j ≡ s.clients j)
unfolding disconnect_at
disconnect_at_lem s p = elim (Option-cases ((s.clients p).fd)) [
  | inl e ↦ (s.clients, rw (e, disconnect_at) refl, λ j ne. refl)
  | inr (fd, e) ↦ (
    update s.clients p (record (s.clients p) { fd = none }),
    rw (e, disconnect_at) refl,
    λ j ne. update_ne s.clients p j (record (s.clients p) { fd = none }) (λ q. ne (sym q)),
  )
]

pub disconnect_client_lem :
    (s : Server) (id i : ℕ)
    → id < max_clients
    → s.id_table id ≡ some i
    → (c : ℕ → PollFd) × (disconnect_client s id
        ≡ (record s { clients = c }, closed_fds (client_fd s id)))
      × ((j : ℕ) → j ≢ i + poll_client_offset → c j ≡ s.clients j)
unfolding disconnect_client
disconnect_client_lem s id i l e =
    let d = disconnect_at_lem s (i + poll_client_offset) in
    (d.0, rw (get_client-some s id i l e, client_fd-some s id i l e, disconnect_client) (d.1), d.2)

-- The server when the last client has moved.
abbrev pub moved : Server → ℕ → ℕ → ℕ → Server
moved s i last q = record s {
  clients = swap_poll s.clients (i + poll_client_offset) q;
  index_to_id = update s.index_to_id i (some last);
  id_table = update s.id_table last (some i);
}

pub move_last-some :
    (s : Server) (id i last : ℕ)
    → last < max_clients
    → s.index_to_id s.client_count ≡ some last
    → s.id_table last ≡ some s.client_count
    → move_last s id i ≡ some (moved s i last (s.client_count + poll_client_offset))
unfolding move_last
move_last-some s id i last l e h =
    rw (e, move_last) (rw (get_client-some s last s.client_count l h) refl)

-- The server with `clients` as the disconnection left them and the new count.
abbrev pub counted_as : Server → (ℕ → PollFd) → ℕ → Server
counted_as s c n = record s { clients = c; client_count = n }

pub remove_at-last :
    (s : Server) (id i n : ℕ) (c : ℕ → PollFd) (fds : List ℕ)
    → disconnect_client s id ≡ (record s { clients = c }, fds)
    → sub_size s.client_count 1 ≡ n
    → n ≡ 0
    → remove_at s id i ≡ (some (clear_last (counted_as s c n) id), fds)
unfolding remove_at
remove_at-last s id i n c fds e h z = rw (e, remove_at) (rw h (ground arith))

pub remove_at-more :
    (s : Server) (id i n : ℕ) (c : ℕ → PollFd) (fds : List ℕ) (m : Server)
    → disconnect_client s id ≡ (record s { clients = c }, fds)
    → sub_size s.client_count 1 ≡ n
    → n ≢ 0
    → move_last (counted_as s c n) id i ≡ some m
    → remove_at s id i ≡ (some (clear_last m id), fds)
unfolding remove_at
remove_at-more s id i n c fds m e h nz k = rw (e, remove_at) (rw (h, k) (ground arith))
