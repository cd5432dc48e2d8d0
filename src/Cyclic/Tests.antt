-- ===== src/Cyclic/Tests.antt =====
-- The theorems about CyclicBuffer at a buffer of four cells that goes round its end.
use os_unixvr4_labs.Common.{
  span, ℕ, suc, ◌+◌, ◌≤◌, ◌≡◌, refl, List, [], ◌∷◌, ◌++◌, Option, some, none, true, false, arith,
  take, length-take, write_at,
}
use os_unixvr4_labs.Cyclic.{
  CyclicBuffer, cb_free_space, cb_free_contiguous_space, cb_data_end, cb_skip, cb_skip_right,
  cb_shift, cb_putc, cb_getc, cb_puts, cb_gets, cb_peek, cb_recv, cb_send, shift_loop,
}
use os_unixvr4_labs.Cyclic.Inv.{IsValid, ReadsAtMost}
use os_unixvr4_labs.Cyclic.Contents.{contents}
use os_unixvr4_labs.Cyclic.Queue
use os_unixvr4_labs.Cyclic.Queue.{
  Op, put, get, peek, clear, shift, skip, recv, send, Reply, done, flag, byte, count,
}
use os_unixvr4_labs.Cyclic.Refine.{AllHonest, run, step, run_refines, step-IsValid}
use os_unixvr4_labs.Cyclic.Space.{puts_lem, gets_lem, free_contiguous_space_lem}

abbrev round : CyclicBuffer
round = record { buf = 1 ∷ 2 ∷ 3 ∷ 4 ∷ []; size = 4; count = 3; start = 2 }

-- A source that has two more bytes, and a sink that takes two.
abbrev source : ℕ → Option (List ℕ)
source n = some (take n (7 ∷ 8 ∷ []))

abbrev sink : List ℕ → Option ℕ
sink bytes = some 2

abbrev script : List Op
script = put 5 ∷ put 6 ∷ get ∷ recv source ∷ send sink ∷ peek ∷ shift ∷ skip 1 ∷ get ∷ get ∷ []

round-IsValid : IsValid round
round-IsValid = omega arith

contents-round : contents round ≡ 3 ∷ 4 ∷ 1 ∷ []
contents-round = refl

source-ReadsAtMost : ReadsAtMost source
unfolding ReadsAtMost
source-ReadsAtMost n bytes e = ground (arith, length-take {A = ℕ} n (7 ∷ 8 ∷ []))

run-round :
    run round script
    ≡ flag true
      ∷ flag false
      ∷ byte (some 3)
      ∷ count (some 1)
      ∷ count (some 2)
      ∷ byte (some 5)
      ∷ done
      ∷ done
      ∷ byte (some 7)
      ∷ byte none
      ∷ []
unfolding run step cb_putc cb_getc cb_peek cb_recv cb_send cb_shift shift_loop cb_skip
run-round = refl

script-AllHonest : AllHonest script
script-AllHonest = (tt, (tt, (tt, (source-ReadsAtMost, (tt, (tt, (tt, (tt, (tt, (tt, tt))))))))))

run_refines_example : run round script ≡ Queue.run 4 (3 ∷ 4 ∷ 1 ∷ []) script
run_refines_example = run_refines script script-AllHonest round-IsValid

step-IsValid_example : IsValid (step round (recv source)).1
step-IsValid_example = step-IsValid (recv source) source-ReadsAtMost round-IsValid

puts_lem_example :
    (b' : CyclicBuffer) × (cb_puts (suc (cb_free_space round)) round (λ i. i) 0
      ≡ some (cb_free_space round, b'))
    × (contents b' ≡ contents round ++ span (λ i. i) 0 (cb_free_space round))
    × IsValid b'
puts_lem_example = puts_lem round (λ i. i) round-IsValid

gets_lem_example :
    (b' : CyclicBuffer) × (cb_gets 4 round ≡ some (3 ∷ 4 ∷ 1 ∷ [], b'))
    × (contents b' ≡ [])
    × IsValid b'
gets_lem_example = gets_lem round round-IsValid

free_contiguous_space_lem_example :
    (cb_data_end round + 1 ≤ 4)
    × (contents
          (cb_skip_right (record round { buf = write_at round.buf (cb_data_end round) (9 ∷ []) }) 1)
        ≡ 3 ∷ 4 ∷ 1 ∷ 9 ∷ [])
unfolding cb_free_contiguous_space
free_contiguous_space_lem_example = free_contiguous_space_lem (9 ∷ []) round-IsValid (omega arith)
