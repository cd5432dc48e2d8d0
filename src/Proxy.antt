-- ===== src/Proxy.antt =====
-- lab33/lab33-proxy.c and lab33/server_management.c: the proxy that connects each client to a
-- server. An array is a function of the index, and `none` stands for -1 in it.
pub mod Compact
pub mod Table
pub mod Steps
pub mod Transfer
pub mod Leave
pub mod Turn
pub mod Listed
pub mod Rounds
pub mod Add
pub mod Remove
pub mod Commit
mod Tests
mod TableTests
mod TransferTests
use os_unixvr4_labs.Common.{
  ℕ, zero, suc, ◌+◌, ◌-◌, List, [], ◌∷◌, ◌++◌, Option, none, some, ltb, ◌==◌, Bool, true, false,
  not, ◌&&◌, ◌||◌, if◌then◌else◌, add_size, sub_size, update,
}

-- `x == REMOVED_CLIENT`
abbrev pub removed_client : Option ℕ → Bool
removed_client none = true
removed_client (some id) = false

-- `swap_int` on two places of an array.
abbrev pub swap_int : (ℕ → Option ℕ) → ℕ → ℕ → ℕ → Option ℕ
swap_int table i j = update (update table i (table j)) j (table i)

-- The variables of `commit_remove`.
pub record Compaction : Type 0 where
  pub table : ℕ → Option ℕ
  pub j : ℕ
  pub removed : ℕ

-- The inner loop: `j` goes down over removed clients, to `i` at the lowest.
unfoldable pub skip_removed : (ℕ → Option ℕ) → ℕ → ℕ → ℕ → ℕ × ℕ
skip_removed table i zero removed = (0, removed)
skip_removed table i (suc j) removed =
    let rest = skip_removed table i j (add_size removed 1) in
    if removed_client (table (suc j)) && ltb i (suc j) then rest else (suc j, removed)

-- The body of the outer loop.
unfoldable pub compact_at : Compaction → ℕ → Compaction
compact_at s i =
    let (j, removed) = skip_removed s.table i s.j s.removed in
    if removed_client (s.table i)
    then record { table = swap_int s.table i j; j = sub_size j 1; removed = add_size removed 1 }
    else s

-- The outer loop from `i` on, for as many rounds as the fuel allows; `none` is fuel used up.
unfoldable pub compact_from : ℕ → ℕ → Compaction → ℕ → Option Compaction
compact_from zero removed_count s i = none
compact_from (suc fuel) removed_count s i =
    let rest = compact_from fuel removed_count (compact_at s i) (suc i) in
    if ltb i s.j && ltb s.removed removed_count then rest else some s

-- The fields of ProxyServer beside the server.
pub record Clients : Type 0 where
  pub id_table : ℕ → Option ℕ
  pub client_count : ℕ
  pub removed_count : ℕ

-- The last two assignments of `commit_remove`, with the table that the loops leave.
unfoldable pub committed : Clients → Option Compaction → Option Clients
committed this none = none
committed this (some s) = some (record {
  id_table = s.table;
  client_count = sub_size this.client_count this.removed_count;
  removed_count = 0;
})

unfoldable pub commit_remove : Clients → Option Clients
commit_remove this = committed this (
    compact_from (suc this.client_count) this.removed_count
      (record { table = this.id_table; j = sub_size this.client_count 1; removed = 0 }) 0)
