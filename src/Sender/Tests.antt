-- ===== src/Sender/Tests.antt =====
-- The choice among three clients of which the last has data.
use os_unixvr4_labs.Common.{
  ℕ, ◌+◌, ◌≡◌, [], ◌∷◌, Option, some, arith, none, suc, replicate, length-replicate, true, false,
  length, ◌==◌, if◌then◌else◌,
}
use os_unixvr4_labs.Cyclic.{CyclicBuffer}
use os_unixvr4_labs.Cyclic.Inv.{IsValid}
use os_unixvr4_labs.Cyclic.Contents.{contents}
use os_unixvr4_labs.Server.{started_server, max_clients, read_mask, no_events}
use os_unixvr4_labs.Sender.Tunnel.{
  TunnelServer, init_tserver, process_added, buffer_size, message_size,
}
use os_unixvr4_labs.Sender.Announce.{Announced, is_short, process_added_lem}
use os_unixvr4_labs.Sender.Rounds.{Turn, main_loop}
use os_unixvr4_labs.Sender.Fill.{Ends}
use os_unixvr4_labs.Sender.Turns.{main_loop-Kept}
use os_unixvr4_labs.Sender.{Clients, next_message_client, first_place}
use os_unixvr4_labs.Sender.Choice.{IsChoice, next_message_client_lem}

abbrev holding : ℕ → CyclicBuffer
holding count = record { buf = 1 ∷ 2 ∷ []; size = 2; count = count; start = 0 }

abbrev three_clients : Clients
three_clients = record {
  id_table = λ i. i + 4;
  client_count = 3;
  client_buffers = λ id. if id == 6 then holding 2 else holding 0;
}

next_message_client_lem_example :
    (r : Option ℕ) × (next_message_client 3 three_clients (some 2) ≡ some r)
    × IsChoice three_clients (first_place three_clients (some 2)) r
next_message_client_lem_example = next_message_client_lem 3 three_clients (some 2) (omega arith)

-- Two clients were added; the buffer for the tunnel has room for the marks and one event.
abbrev two_added : TunnelServer
two_added = record {
  server = started_server 3 4;
  send_order = some 0;
  send_count = 0;
  list = record { id_table = λ i. i; client_count = 2; client_buffers = λ id. holding 0 };
  remove_flag = λ id. false;
  add_queue = record { buf = 0 ∷ 1 ∷ 0 ∷ []; size = 3; count = 2; start = 0 };
  tunnel_buffers = λ id. holding 0;
  tunnel_tpb = record {
    buffer = record { buf = 0 ∷ 0 ∷ 0 ∷ 0 ∷ 0 ∷ []; size = 5; count = 0; start = 0 };
    order = none;
  };
  closed = [];
}

two_added-tpb : IsValid two_added.tunnel_tpb.buffer
two_added-tpb = omega arith

two_added-queue : IsValid two_added.add_queue
two_added-queue = omega arith

process_added_lem_example :
    (is_short two_added.tunnel_tpb (contents two_added.add_queue) ≡ true
      → process_added (suc two_added.add_queue.count) two_added ≡ some (false, two_added))
    × (is_short two_added.tunnel_tpb (contents two_added.add_queue) ≡ false
        → Announced two_added (process_added (suc two_added.add_queue.count) two_added))
process_added_lem_example = process_added_lem two_added two_added-tpb two_added-queue

-- A turn in which a client connects, and one in which it sends two bytes.
abbrev connecting : Turn
connecting = record {
  polled = some (1, λ p. if p == 0 then read_mask else no_events);
  accepted = some 9;
  fresh = replicate buffer_size 0;
  back = replicate buffer_size 0;
  read = λ fd n. none;
  write = λ bytes. some (length bytes);
  lengths = λ i. record { first = 1; later = λ k. 2 };
}

abbrev sending : Turn
sending = record connecting {
  polled = some (1, λ p. if p == 2 then read_mask else no_events);
  read = λ fd n. some (5 ∷ 6 ∷ []);
}

main_loop-Kept_example :
    (s : TunnelServer) × (init_tserver
        (some 3)
        (some 4)
        (replicate message_size 0)
        (replicate max_clients 0)
      ≡ (some s, []))
    × Ends (main_loop (connecting ∷ sending ∷ []) s)
main_loop-Kept_example =
    main_loop-Kept 3 4 (replicate message_size 0) (replicate max_clients 0)
      (connecting ∷ sending ∷ []) (omega (arith, length-replicate {A = ℕ} message_size 0))
      (omega (arith, length-replicate {A = ℕ} max_clients 0))
