-- ===== src/Proxy/Tests.antt =====
-- A table of three clients of lab33's proxy, of which one is removed.
use os_unixvr4_labs.Common.{◌+◌, ◌≡◌, refl, none, some, update, weight, arith}
use os_unixvr4_labs.Proxy.{Clients, commit_remove}
use os_unixvr4_labs.Proxy.Compact.{total}
use os_unixvr4_labs.Proxy.Commit.{IsCompact, commit_remove_lem}

abbrev three_clients : Clients
three_clients = record {
  id_table = update (update (λ i. none) 1 (some 5)) 2 (some 7);
  client_count = 3;
  removed_count = 1;
}

three_clients-counted :
    total weight three_clients.client_count three_clients.id_table + three_clients.removed_count
    ≡ three_clients.client_count
unfolding total
three_clients-counted = refl

commit_remove_lem_example :
    (end : Clients) × (commit_remove three_clients ≡ some end)
    × IsCompact three_clients.client_count end.client_count three_clients.id_table end.id_table
    × (end.client_count ≡ total weight three_clients.client_count three_clients.id_table)
    × (end.removed_count ≡ 0)
commit_remove_lem_example = commit_remove_lem three_clients (omega arith) three_clients-counted
