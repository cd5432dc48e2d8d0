-- ===== src/Proxy/TransferTests.antt =====
-- A transfer of lab33's proxy through a buffer that holds a byte.
use os_unixvr4_labs.Common.{ℕ, List, [], ◌∷◌, Option, some, arith, take, length-take}
use os_unixvr4_labs.Cyclic.Inv.{ReadsAtMost}
use os_unixvr4_labs.IoBuffer.{IoBuffer}
use os_unixvr4_labs.IoBuffer.Inv.{IsValid}
use os_unixvr4_labs.Server.{PollFd, read_mask, write_mask, in_and_out}
use os_unixvr4_labs.Proxy.Transfer.{Transferred, try_transfer, try_transfer_lem}

abbrev one_byte : IoBuffer
one_byte = record { buf = 7 ∷ 0 ∷ 0 ∷ []; size = 3; count = 1 }

one_byte-IsValid : IsValid one_byte
one_byte-IsValid = record { storage = omega arith; small = omega arith; count_in = omega arith }

abbrev from : PollFd
from = record { fd = some 5; events = in_and_out; revents = read_mask }

abbrev to : PollFd
to = record { fd = some 6; events = in_and_out; revents = write_mask }

abbrev reads : ℕ → Option (List ℕ)
reads n = some (take n (8 ∷ 9 ∷ []))

reads-ReadsAtMost : ReadsAtMost reads
unfolding ReadsAtMost
reads-ReadsAtMost n bytes e = ground (arith, length-take {A = ℕ} n (8 ∷ 9 ∷ []))

abbrev writes : List ℕ → Option ℕ
writes bytes = some 2

try_transfer_lem_example :
    Transferred from one_byte to reads writes (try_transfer from one_byte to reads writes)
try_transfer_lem_example =
    try_transfer_lem from one_byte to reads writes reads-ReadsAtMost one_byte-IsValid
