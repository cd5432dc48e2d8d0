-- ===== src/IoBuffer/Reserve.antt =====
-- `reserve` against its purpose.
use os_unixvr4_labs.Common.{ℕ, ◌+◌, ◌-◌, ◌≤◌, ◌<◌, ◌≡◌, List, arith, length, add_size, sub_size}
use os_unixvr4_labs.IoBuffer.{IoBuffer, iob_free_space, reserve}
use os_unixvr4_labs.IoBuffer.Inv.{IsValid, free_space-add-count}

-- What realloc(3) promises of the size of the array that it returns.
unfoldable pub GivesSize : (List ℕ → ℕ → List ℕ) → Type 0
GivesSize realloc = (buf : List ℕ) (n : ℕ) → length (realloc buf n) ≡ n

-- Asked for more than the free space (by at most the size), `reserve` makes the array smaller by
-- what is missing and keeps the field `size`, so that the buffer is valid no more.
pub reserve-shrinks :
    (realloc : List ℕ → ℕ → List ℕ) {b : IoBuffer} (wanted : ℕ)
    → GivesSize realloc
    → IsValid b
    → iob_free_space b < wanted
    → wanted ≤ iob_free_space b + b.size
    → (length (reserve realloc b wanted).buf + (wanted - iob_free_space b) ≡ b.size)
      × ((reserve realloc b wanted).size ≡ b.size)
      × ¬ IsValid (reserve realloc b wanted)
unfolding reserve GivesSize
reserve-shrinks realloc {b} wanted g v lt le =
    (shrunk, kept, λ w. omega (arith, w.storage, shrunk, kept))
  where
    shrunk : length (reserve realloc b wanted).buf + (wanted - iob_free_space b) ≡ b.size
    shrunk = ground (
      arith,
      g b.buf (add_size (sub_size (iob_free_space b) wanted) b.size),
      free_space-add-count v,
    )

    kept : (reserve realloc b wanted).size ≡ b.size
    kept = ground arith
