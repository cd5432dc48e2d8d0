-- ===== src/Server/Tests.antt =====
-- The theorems on the table of clients at a server with two clients, and runs.
use os_unixvr4_labs.Common.{ℕ, ◌≡◌, ◌⊎◌, ◌≢◌, refl, true, false, some, none, []}
use os_unixvr4_labs.Server.{
  Server, started_server, init_server, add_client, remove_client, client_fd, initial_poll,
  first_free, next_id, is_full, get_client, add_with_id,
}
use os_unixvr4_labs.Server.Table.{IsServer}
use os_unixvr4_labs.Server.Add.{Added, add_client_lem}
use os_unixvr4_labs.Server.Remove.{Removed, remove_client_lem}
use os_unixvr4_labs.Server.Steps.{closed_fds}
use os_unixvr4_labs.Server.Reach.{Reached, reached-IsServer, started, after, added}

abbrev empty_server : Server
empty_server = started_server 3 4

abbrev one_client : Server
one_client = (add_client empty_server 7).1

abbrev two_clients : Server
two_clients = (add_client one_client 8).1

opened : init_server (some 3) (some 4) ≡ (some empty_server, [])
unfolding init_server
opened = refl

two_clients-Reached : Reached two_clients
two_clients-Reached =
    after
      (after (started (some 3) (some 4) [] opened) (added 7 ((add_client empty_server 7).0) refl))
      (added 8 ((add_client one_client 8).0) refl)

reached-IsServer_example : IsServer two_clients
reached-IsServer_example = reached-IsServer two_clients two_clients-Reached

add_client_lem_example :
    ((is_full two_clients ≡ true) × (add_client two_clients 9 ≡ (none, two_clients)))
    ⊎ ((is_full two_clients ≡ false)
        × ((id : ℕ) × (t : Server) × (add_client two_clients 9 ≡ (some id, t))
            × Added two_clients t 9 id))
add_client_lem_example =
    add_client_lem two_clients 9 (reached-IsServer two_clients two_clients-Reached)

remove_client_lem_example :
    ((two_clients.id_table 0 ≡ none) × (remove_client two_clients 0 ≡ (some two_clients, [])))
    ⊎ ((two_clients.id_table 0 ≢ none)
        × ((t : Server) × (remove_client two_clients 0
              ≡ (some t, closed_fds (client_fd two_clients 0)))
            × Removed two_clients t 0))
remove_client_lem_example =
    remove_client_lem two_clients 0 (reached-IsServer two_clients two_clients-Reached)

run_two : client_fd two_clients 1 ≡ some 8
unfolding client_fd get_client add_client add_with_id next_id first_free initial_poll
run_two = refl
