-- ===== src/IoBuffer/Tests.antt =====
-- The theorems about IOBuffer at a buffer of four cells.
use os_unixvr4_labs.Common.{
  ℕ, ◌+◌, ◌-◌, ◌≡◌, refl, List, [], ◌∷◌, arith, length, length-replicate, replicate,
}
use os_unixvr4_labs.Common.Int.{int_of_char}
use os_unixvr4_labs.IoBuffer.{
  IoBuffer, iob_free_space, iob_getc, shift_down, reserve, end_of_buffer,
}
use os_unixvr4_labs.IoBuffer.Inv.{IsValid}
use os_unixvr4_labs.IoBuffer.Items.{items}
use os_unixvr4_labs.IoBuffer.Refine.{
  puts, shift, call_step, queue_step, call_step_refines, call_step-IsValid,
}
use os_unixvr4_labs.IoBuffer.Reserve.{GivesSize, reserve-shrinks}

abbrev half_full : IoBuffer
half_full = record { buf = 255 ∷ 2 ∷ 3 ∷ 4 ∷ []; size = 4; count = 2 }

half_full-IsValid : IsValid half_full
half_full-IsValid = omega arith

-- A byte with the high bit set is got as a negative number: 255 as END_OF_BUFFER.
getc-high_byte :
    iob_getc half_full ≡ (end_of_buffer, record { buf = 2 ∷ 2 ∷ 3 ∷ 4 ∷ []; size = 4; count = 1 })
unfolding iob_getc shift_down int_of_char
getc-high_byte = refl

call_step_refines_example :
    (
      (call_step half_full (puts (7 ∷ 8 ∷ 9 ∷ []) 3)).0,
      items (call_step half_full (puts (7 ∷ 8 ∷ 9 ∷ []) 3)).1,
    )
    ≡ queue_step 4 (255 ∷ 2 ∷ []) (puts (7 ∷ 8 ∷ 9 ∷ []) 3)
call_step_refines_example =
    call_step_refines (puts (7 ∷ 8 ∷ 9 ∷ []) 3) (omega arith) half_full-IsValid

call_step-IsValid_example : IsValid (call_step half_full (shift 1)).1
call_step-IsValid_example = call_step-IsValid (shift 1) tt half_full-IsValid

abbrev zeros : List ℕ → ℕ → List ℕ
zeros buf n = replicate n 0

zeros-GivesSize : GivesSize zeros
unfolding GivesSize
zeros-GivesSize buf n = length-replicate n 0

reserve-shrinks_example :
    (length (reserve zeros half_full 3).buf + (3 - iob_free_space half_full) ≡ 4)
    × ((reserve zeros half_full 3).size ≡ 4)
    × ¬ IsValid (reserve zeros half_full 3)
unfolding iob_free_space
reserve-shrinks_example =
    reserve-shrinks zeros 3 zeros-GivesSize half_full-IsValid (omega arith) (omega arith)
