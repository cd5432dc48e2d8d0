-- ===== src/Readers/Tests.antt =====
-- A listener and two clients of lab31's server: the first has sent "ab", the second has ended.
use os_unixvr4_labs.Common.{
  ℕ, ◌+◌, ◌-◌, ◌≤◌, ◌≡◌, List, [], ◌∷◌, Bool, Option, none, some, arith, ltb, leb, ◌==◌, ◌&&◌,
  if◌then◌else◌,
}
use os_unixvr4_labs.Proxy.Compact.{total}
use os_unixvr4_labs.Readers.{Server, Outcome, try_read}
use os_unixvr4_labs.Readers.Marks.{IsRested}
use os_unixvr4_labs.Readers.Visit.{to_print, readable_among, kept}
use os_unixvr4_labs.Readers.Serve.{try_read_lem}

abbrev ascii_lower : ℕ → Bool
ascii_lower c = leb 97 c && leb c 122

abbrev ascii_upper : ℕ → ℕ
ascii_upper c = c - 32

abbrev sent : Option ℕ → ℕ → Option (List ℕ)
sent none size = none
sent (some fd) size = if fd == 4 then some (97 ∷ 98 ∷ []) else some []

abbrev two_clients : Server
two_clients = record {
  fds = λ i. some (i + 3);
  readable = λ i. ltb 0 i;
  client_count = 3;
  buf = 0 ∷ 0 ∷ 0 ∷ [];
  clients_to_remove_count = 0;
  first_client_to_remove = 0;
}

two_clients-IsRested : IsRested two_clients
two_clients-IsRested = record {
  used = λ k l e. ground arith;
  listener = omega arith;
  none_marked = omega arith;
  no_first = omega arith;
  small = omega arith;
}

two_clients-readable :
    (readable_among ascii_lower ascii_upper sent two_clients) (two_clients.client_count - 1) 1 ≤ 2
unfolding readable_among
two_clients-readable = omega arith

try_read_lem_example :
    (end : Outcome) × (try_read ascii_lower ascii_upper sent two_clients 2 ≡ some end)
    × IsRested end.server
    × (end.printed
        ≡ (to_print ascii_lower ascii_upper sent two_clients) (two_clients.client_count - 1) 1)
    × ((w : Option ℕ → ℕ)
        → w none ≡ 0
        → total w end.server.client_count end.server.fds
          ≡ total w two_clients.client_count (kept ascii_lower ascii_upper sent two_clients))
try_read_lem_example =
    try_read_lem ascii_lower ascii_upper sent two_clients 2 two_clients-IsRested
      (λ k a l r e. ground arith) two_clients-readable
