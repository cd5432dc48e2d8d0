-- ===== src/Protocol.antt =====
-- lab34/protocol.c and protocol.h: byte stuffing. The list `data` has `data_len` bytes.
pub mod Escape
pub mod Encapsulate
mod Tests
use os_unixvr4_labs.Common.{
  ℕ, ◌+◌, Bool, true, false, ◌||◌, List, [], ◌∷◌, ltb, leb, ◌==◌, if◌then◌else◌,
}

abbrev pub message_edge : ℕ
message_edge = 0x7e

abbrev pub message_escape : ℕ
message_escape = 0x7d

-- The test on `data[i]` in both functions, and `need_escape` of message_buffer.c.
unfoldable pub need_escape : ℕ → Bool
need_escape c = c == message_escape || c == message_edge

-- The local variable `length` of `message_length` at the end of its loop.
pub counted_length : List ℕ → ℕ
counted_length [] = 0
counted_length (c ∷ cs) = (if need_escape c then 2 else 1) + counted_length cs

-- `message_length` has no return statement: its value is whatever the caller finds, `garbage`,
-- and not the length that its loop counts.
unfoldable pub message_length : ℕ → List ℕ → ℕ
message_length garbage bytes = garbage

-- The loop of `pr_encapsulate` from `data_index` and `message_index` on: the final `data_index`,
-- and the bytes stored at `message[message_index]` and behind. `message_index < message_len`
-- where it grows, so that it does not wrap.
unfoldable pub encapsulate_from : List ℕ → ℕ → ℕ → ℕ → ℕ × List ℕ
encapsulate_from [] data_index message_index message_len = (data_index, [])
encapsulate_from (c ∷ cs) data_index message_index message_len =
    elim (ltb message_index message_len) [
      | false ↦ (data_index, [])
      | true ↦ elim (need_escape c) [
        | false ↦
            let r = encapsulate_from cs (data_index + 1) (message_index + 1) message_len in
            (r.0, c ∷ r.1)
        | true ↦ elim (leb message_len (message_index + 1)) [
          | true ↦ (data_index, [])
          | false ↦
              let r = encapsulate_from cs (data_index + 1) (message_index + 2) message_len in
              (r.0, message_escape ∷ c ∷ r.1)
        ]
      ]
    ]

unfoldable pub pr_encapsulate : List ℕ → ℕ → ℕ × List ℕ
unfolding encapsulate_from
pr_encapsulate bytes message_len = encapsulate_from bytes 0 0 message_len
