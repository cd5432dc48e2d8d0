-- ===== src/Proxy/Leave.antt =====
-- lab33/lab33-proxy.c: a client that leaves the proxy, and what is left for `commit_remove`.
use os_unixvr4_labs.Common.{
  ℕ, suc, ◌≢◌, ◌+◌, ◌≡◌, refl, List, [], Option, none, some, update, add_size, weight,
}
use os_unixvr4_labs.Proxy.{Clients}
use os_unixvr4_labs.Proxy.Table.{Server, remove_client}
use os_unixvr4_labs.Proxy.Steps.{IsServer, closed_fds, client_fd, server_fd}
use os_unixvr4_labs.Proxy.Compact.{total}

pub record ProxyServer : Type 0 where
  pub server : Server
  pub list : Clients

-- The place `i` of the list is marked, with the server as it is then.
abbrev pub marked : ProxyServer → ℕ → Server → ProxyServer
marked this i server = record {
  server = server;
  list = record (this.list) {
    id_table = update this.list.id_table i none;
    removed_count = add_size this.list.removed_count 1;
  };
}

-- `none` is a fault in `remove_client`.
unfoldable pub with_server : ProxyServer → ℕ → Option Server → Option ProxyServer
with_server this i none = none
with_server this i (some server) = some (marked this i server)

unfoldable pub pr_remove_client : ProxyServer → ℕ → Option ProxyServer × List ℕ
pr_remove_client this i = elim (this.list.id_table i) [
  | none ↦ (some this, [])
  | some id ↦ let (removed, fds) = remove_client this.server id in (with_server this i removed, fds)
]

-- The server's tables are well formed, and the list counts the clients that are marked in it.
pub record IsProxy (this : ProxyServer) : Type 0 where
  pub tables : IsServer this.server
  pub counted :
      total weight this.list.client_count this.list.id_table + this.list.removed_count
      ≡ this.list.client_count

pub left :
    (this : ProxyServer) (i id : ℕ) (server : Server) (fds : List ℕ)
    → this.list.id_table i ≡ some id
    → remove_client this.server id ≡ (some server, fds)
    → pr_remove_client this i ≡ (some (marked this i server), fds)
unfolding pr_remove_client with_server
left this i id server fds e r = rw (e, pr_remove_client) (rw r refl)

-- What the leaving of the client `id` at the place `i` makes of the proxy.
pub record Left (this : ProxyServer) (i id : ℕ) (end : ProxyServer) : Type 0 where
  pub well_formed : IsProxy end
  pub one_less :
      end.server.client_count + weight (this.server.id_table id) ≡ this.server.client_count
  pub is_free : end.server.id_table id ≡ none
  pub others : (other : ℕ) → other ≢ id → client_fd end.server other ≡ client_fd this.server other
  pub same_count : end.list.client_count ≡ this.list.client_count
  pub one_marked : end.list.removed_count ≡ suc this.list.removed_count
  pub table : end.list.id_table ≡ update this.list.id_table i none

-- The descriptors of a client and of its server, if the client is there and has one.
abbrev pub closing : ProxyServer → ℕ → List ℕ
closing this id = closed_fds (client_fd this.server id) (server_fd this.server id)
