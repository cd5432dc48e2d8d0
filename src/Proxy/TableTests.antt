-- ===== src/Proxy/TableTests.antt =====
-- A table of two clients of lab33's proxy, one of which leaves.
use os_unixvr4_labs.Common.{ℕ, ◌≡◌, ◌≢◌, ◌⊎◌, ◌∷◌, refl, [], true, false, none, some, update, arith}
use os_unixvr4_labs.Server.{read_mask, in_and_out}
use os_unixvr4_labs.Server.Table.{add-IsTable, empty-IsTable}
use os_unixvr4_labs.Proxy.Table.{Server, max_clients, no_buffer, remove_client, add_client, is_full}
use os_unixvr4_labs.Proxy.Steps.{IsServer, client_fd, server_fd, closed_fds}
use os_unixvr4_labs.Proxy.Remove.{Removed, remove_client-Removed}
use os_unixvr4_labs.Proxy.Add.{Added, add_client-Added}
use os_unixvr4_labs.Proxy.Turn.{Turn, main_loop, pr_init_server}
use os_unixvr4_labs.Proxy.Rounds.{IsRested, main_loop-init}
use os_unixvr4_labs.Proxy.Leave.{ProxyServer}

abbrev two_servers : Server
two_servers = record {
  clients = λ i. record { fd = some i; events = in_and_out; revents = read_mask };
  stoc_buffers = λ id. no_buffer;
  ctos_buffers = λ id. no_buffer;
  client_count = 2;
  id_table = update (update (λ id. none) 0 (some 0)) 1 (some 1);
  index_to_id = update (update (λ index. none) 0 (some 0)) 1 (some 1);
}

two_servers-IsServer : IsServer two_servers
two_servers-IsServer =
    add-IsTable max_clients 1 1 (update (λ id. none) 0 (some 0)) (update (λ index. none) 0 (some 0))
      refl (omega arith)
      (add-IsTable max_clients 0 0 (λ id. none) (λ index. none) refl (omega arith)
        (empty-IsTable max_clients))

remove_client-Removed_example :
    ((two_servers.id_table 0 ≡ none) × (remove_client two_servers 0 ≡ (some two_servers, [])))
    ⊎ ((two_servers.id_table 0 ≢ none)
        × ((t : Server) × (remove_client two_servers 0
              ≡ (some t, closed_fds (client_fd two_servers 0) (server_fd two_servers 0)))
            × Removed two_servers t 0))
remove_client-Removed_example = remove_client-Removed two_servers 0 two_servers-IsServer

add_client-Added_example :
    ((is_full two_servers ≡ true)
      × (add_client two_servers (some 8) (some 9) [] [] ≡ (none, two_servers)))
    ⊎ ((is_full two_servers ≡ false)
        × ((id : ℕ) × (t : Server) × (add_client two_servers (some 8) (some 9) [] [] ≡ (some id, t))
            × Added two_servers t 8 9 id))
add_client-Added_example = add_client-Added two_servers 8 9 [] [] two_servers-IsServer

abbrev two_proxied : ProxyServer
two_proxied = record {
  server = two_servers;
  list = record {
    id_table = update (update (λ i. none) 0 (some 0)) 1 (some 1);
    client_count = 2;
    removed_count = 0;
  };
}

-- A client comes and its server answers at once.
abbrev one_turn : Turn
one_turn = record {
  fd_count = 1;
  revents = λ p. read_mask;
  accepted = some 5;
  connected = some 6;
  fresh_stoc = [];
  fresh_ctos = [];
  read = λ fd n. none;
  write = λ fd bytes. none;
}

main_loop-init_example :
    (start end : ProxyServer) × (pr_init_server (some 3) ≡ some start)
    × (main_loop (one_turn ∷ []) start ≡ some end)
    × IsRested end
main_loop-init_example = main_loop-init 3 (one_turn ∷ [])
