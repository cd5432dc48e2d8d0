-- ===== src/Sender.antt =====
-- lab34/lab34-sender.c: the choice of the client whose data is sent next.
pub mod Loop
pub mod Choice
pub mod Tunnel
pub mod Rest
pub mod Announce
pub mod Rounds
pub mod Kept
pub mod Io
pub mod Order
pub mod Waiting
pub mod Fill
pub mod Send
pub mod Turns
mod Tests
use os_unixvr4_labs.Common.{
  ℕ, zero, suc, ◌+◌, ◌-◌, ◌%◌, Bool, true, false, ◌&&◌, Option, none, some, ◌==◌, leb,
  if◌then◌else◌,
}
use os_unixvr4_labs.Cyclic.{CyclicBuffer, cb_empty}

-- The fields of TunnelServer that the choice reads. `id_table` and `client_buffers` are arrays.
pub record Clients : Type 0 where
  pub id_table : ℕ → ℕ
  pub client_count : ℕ
  pub client_buffers : ℕ → CyclicBuffer

-- `cb_empty` of the buffer of the client at the place `i`.
unfoldable pub is_idle : Clients → ℕ → Bool
is_idle this i = cb_empty (this.client_buffers (this.id_table i))

unfoldable pub first_place : Clients → Option ℕ → ℕ
first_place this none = 0
first_place this (some previous) = (previous + 1) % this.client_count

unfoldable pub last_place : Clients → ℕ → ℕ
last_place this start =
    if leb 1 start then (start - 1) % this.client_count else this.client_count - 1

-- The loop of `next_message_client`. `none`: the fuel ran out.
unfoldable pub find_waiting : ℕ → Clients → ℕ → ℕ → Option ℕ
find_waiting zero this last i = none
find_waiting (suc fuel) this last i = elim (i == last) [
  | true ↦ some i
  | false ↦ elim (is_idle this i) [
    | true ↦ find_waiting fuel this last ((i + 1) % this.client_count)
    | false ↦ some i
  ]
]

-- The test behind the loop; `none` is NO_ORDER.
unfoldable pub chosen : Clients → ℕ → ℕ → Option ℕ
chosen this last i = if (i == last) && is_idle this i then none else some i

-- `previous` is `none` for NO_ORDER. The result `none`: the fuel ran out.
unfoldable pub next_message_client : ℕ → Clients → Option ℕ → Option (Option ℕ)
next_message_client fuel this previous =
    if this.client_count == 0
    then some none
    else let start = first_place this previous in
      elim (find_waiting fuel this (last_place this start) start) [
        | none ↦ none
        | some i ↦ some (chosen this (last_place this start) i)
      ]
