-- ===== src/Readers.antt =====
-- lab31/lab31-server.c: the server that prints what its clients send, in upper case. The place 0
-- of the array is the listener's. islower(3) and toupper(3), poll(2), accept(2) and read(2) are
-- arguments, and the descriptors that are closed are a result.
pub mod Marks
pub mod Visit
pub mod Serve
mod Tests
use os_unixvr4_labs.Common.{
  ℕ, zero, suc, ◌+◌, List, [], ◌∷◌, ◌++◌, map, Option, none, some, ltb, leb, ◌==◌, Bool, true,
  false, ◌&&◌, ◌||◌, if◌then◌else◌, add_size, sub_size, update, write_at, length,
}
use os_unixvr4_labs.Proxy.{Compaction, compact_from, removed_client}

-- The array `clients` as the descriptors in it, with `none` for REMOVED_CLIENT, and the bits
-- POLLIN of `revents`.
pub record Server : Type 0 where
  pub fds : ℕ → Option ℕ
  pub readable : ℕ → Bool
  pub client_count : ℕ
  pub buf : List ℕ
  pub clients_to_remove_count : ℕ
  pub first_client_to_remove : ℕ

-- What has been printed and closed, with the server.
pub record Outcome : Type 0 where
  pub server : Server
  pub printed : List ℕ
  pub closed : List ℕ

unfoldable pub init_server : List ℕ → Option ℕ → Option Server
init_server buf none = none
init_server buf (some sockfd) = some (record {
  fds = update (λ i. some 0) 0 (some sockfd);
  readable = λ i. false;
  client_count = 1;
  buf = buf;
  clients_to_remove_count = 0;
  first_client_to_remove = 0;
})

-- `first_client_to_remove` with one more client that is to be removed.
unfoldable pub lower_first : ℕ → ℕ → ℕ
lower_first first index = if (first == 0) || ltb index first then index else first

-- `remove_client` behind its guards.
unfoldable pub mark : Outcome → ℕ → Option ℕ → Outcome
mark this index none = this
mark this index (some fd) = record {
  server = record (this.server) {
    fds = update this.server.fds index none;
    clients_to_remove_count = add_size this.server.clients_to_remove_count 1;
    first_client_to_remove = lower_first this.server.first_client_to_remove index;
  };
  printed = this.printed;
  closed = this.closed ++ fd ∷ [];
}

unfoldable pub remove_client : Outcome → ℕ → Outcome
remove_client this index = if index == 0 then this else mark this index (this.server.fds index)

-- The assignments behind the loops of `commit_remove_clients`.
unfoldable pub committed : Server → Option Compaction → Option Server
committed this none = none
committed this (some s) = some (record this {
  fds = s.table;
  client_count = sub_size this.client_count this.clients_to_remove_count;
  clients_to_remove_count = 0;
  first_client_to_remove = 0;
})

-- The loops are those of lab33's `commit_remove`, from `first_client_to_remove` on; they have as
-- much fuel as there are clients and one round more.
unfoldable pub commit_remove_clients : Server → Option Server
commit_remove_clients this =
    if (this.clients_to_remove_count == 0) || (this.first_client_to_remove == 0)
    then some this
    else committed this (
        compact_from (suc this.client_count) this.clients_to_remove_count
          (record { table = this.fds; j = sub_size this.client_count 1; removed = 0 })
          this.first_client_to_remove)

-- `max_clients` is SOMAXCONN, the size of the array.
unfoldable pub mx_add : ℕ → Server → ℕ → Option Server
mx_add max_clients this client_fd =
    if ltb this.client_count max_clients
    then some (record this {
      fds = update this.fds this.client_count (some client_fd);
      client_count = add_size this.client_count 1;
    })
    else none

-- A step and what follows, unless it is a fault.
unfoldable pub and_next : Option Outcome → (Outcome → Option Outcome) → Option Outcome
and_next none f = none
and_next (some this) f = f this

unfoldable pub with_committed : Outcome → Option Server → Option Outcome
with_committed this none = none
with_committed this (some server) = some (record this { server = server })

unfoldable pub commit : Outcome → Option Outcome
commit this = with_committed this (commit_remove_clients this.server)

-- The turns of the main loop: it goes on, ends with EXIT_FAILURE, or is at fault.
pub data Result : Type 0 where
  went : Outcome → Result
  failed : Result
  fault : Result

unfoldable pub going : Option Outcome → Result
going none = fault
going (some this) = went this

-- What the system does in a turn.
pub record Turn : Type 0 where
  pub fd_count : ℕ
  pub revents : ℕ → Bool
  pub accepted : Option ℕ
  pub read : Option ℕ → ℕ → Option (List ℕ)

-- What poll(2) leaves in the array.
abbrev pub polled : Turn → Server → Server
polled io this = record this {
  readable = λ i. if ltb i this.client_count then io.revents i else this.readable i;
}

module _ (is_lower : ℕ → Bool) (to_upper : ℕ → ℕ) where
  unfoldable pub upper : ℕ → ℕ
  upper c = if is_lower c then to_upper c else c

  -- What is done with the bytes read from the client at the place `i`. The result -1 of read(2) is
  -- a fault: the loop over the buffer runs to the number -1 as a size_t, far behind the array.
  unfoldable pub print_read : Outcome → ℕ → Option (List ℕ) → Option Outcome
  print_read this i none = none
  print_read this i (some []) = some (remove_client this i)
  print_read this i (some (c ∷ cs)) = some (record {
    server = record (this.server) { buf = write_at this.server.buf 0 (map upper (c ∷ cs)) };
    printed = this.printed ++ map upper (c ∷ cs);
    closed = this.closed;
  })

  module _ (read : Option ℕ → ℕ → Option (List ℕ)) where
    -- The loop of `try_read` from `i` on, with the rounds that are left.
    unfoldable pub read_from : ℕ → ℕ → Outcome → ℕ → ℕ → Option Outcome
    read_from readable_count zero this i read_fd = some this
    read_from readable_count (suc rounds) this i read_fd =
        if leb read_fd readable_count
        then (if this.server.readable i
            then and_next (print_read this i (read (this.server.fds i) (length this.server.buf)))
                (λ t. read_from readable_count rounds t (suc i) (add_size read_fd 1))
            else read_from readable_count rounds this (suc i) read_fd)
        else some this

    unfoldable pub try_read : Server → ℕ → Option Outcome
    try_read this readable_count =
        and_next
          (read_from readable_count (sub_size this.client_count 1)
            (record { server = this; printed = []; closed = [] }) 1 0)
          commit

  -- The part of a turn behind accept(2).
  unfoldable pub admit : Turn → ℕ → Server → Option ℕ → Result
  admit io max_clients this none = failed
  admit io max_clients this (some client_fd) = elim (mx_add max_clients this client_fd) [
    | none ↦ fault
    | some t ↦ going (try_read io.read t (sub_size io.fd_count 1))
  ]

  unfoldable pub turn : Turn → ℕ → Server → Result
  turn io max_clients this =
      let t = polled io this in
      if t.readable 0
      then admit io max_clients t io.accepted
      else going (try_read io.read t io.fd_count)
