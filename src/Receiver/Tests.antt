-- ===== src/Receiver/Tests.antt =====
-- The theorems about the receiver at a buffer with one frame of client 5 and the opening of the next.
use os_unixvr4_labs.Common.{ℕ, ◌≡◌, refl, List, [], ◌∷◌, ◌++◌, some, true, false, arith}
use os_unixvr4_labs.Common.Int.{pos, negsuc, int_of_char}
use os_unixvr4_labs.Protocol.{message_edge, message_escape, need_escape}
use os_unixvr4_labs.Protocol.Escape.{escape}
use os_unixvr4_labs.IoBuffer.{IoBuffer, iob_getc}
use os_unixvr4_labs.Receiver.{Receiver, decapsulate, skip, try_read_char}
use os_unixvr4_labs.Receiver.Chars.{Holds, read-split}
use os_unixvr4_labs.Receiver.Frames.{Between, Inside, decapsulate_frame, decapsulate_part}
use os_unixvr4_labs.Receiver.Faults.{skip_lem, decapsulate-high_byte}

abbrev buffer_of : List ℕ → ℕ → IoBuffer
buffer_of bytes n = record { buf = bytes; size = n; count = n }

-- Client 5, the bytes 65 and 126 (an edge, stuffed), the end of the frame, the next edge.
abbrev waiting : Receiver
waiting = record {
  message = buffer_of (0x7e ∷ 5 ∷ 65 ∷ 0x7d ∷ 0x7e ∷ 0x7e ∷ 0x7e ∷ []) 7;
  order = pos 0;
  started = false;
  escape = false;
  order_got = false;
}

abbrev reading : Receiver
reading = record {
  message = buffer_of (65 ∷ 0x7d ∷ 0x7e ∷ 0x7e ∷ []) 4;
  order = pos 5;
  started = true;
  escape = false;
  order_got = true;
}

abbrev reading_high : Receiver
reading_high = record reading { message = buffer_of (200 ∷ 66 ∷ []) 2 }

waiting-Between :
    Between waiting (message_edge ∷ escape (5 ∷ 65 ∷ 126 ∷ []) ++ message_edge ∷ message_edge ∷ [])
unfolding escape need_escape
waiting-Between = record {
  bytes = record { valid = omega arith; bytes = refl };
  started = refl;
  escape = refl;
  order_got = refl;
}

reading-Inside : Inside reading 5 (escape (65 ∷ 126 ∷ []) ++ message_edge ∷ [])
unfolding escape need_escape
reading-Inside = record {
  bytes = record { valid = omega arith; bytes = refl };
  started = refl;
  escape = refl;
  order_got = refl;
  order = refl;
}

reading_high-Inside : Inside reading_high 5 (200 ∷ 66 ∷ [])
reading_high-Inside = record {
  bytes = record { valid = omega arith; bytes = refl };
  started = refl;
  escape = refl;
  order_got = refl;
  order = refl;
}

decapsulate_frame_example :
    (r' : Receiver) × (decapsulate waiting 9 ≡ (some (65 ∷ 126 ∷ []), r'))
    × Between r' (message_edge ∷ [])
decapsulate_frame_example =
    decapsulate_frame waiting 5 (65 ∷ 126 ∷ []) (message_edge ∷ []) 9 (omega arith) (omega arith)
      (omega arith) waiting-Between

decapsulate_part_example :
    (r' : Receiver) × (decapsulate reading 1 ≡ (some (65 ∷ []), r'))
    × Inside r' 5 (escape (126 ∷ []) ++ message_edge ∷ [])
decapsulate_part_example =
    decapsulate_part reading 5 (65 ∷ 126 ∷ []) (message_edge ∷ []) 1 (omega arith) (omega arith)
      reading-Inside

skip_lem_example : (r' : Receiver) × (skip 3 reading 1 ≡ some (some 0, r')) × Between r' []
skip_lem_example =
    skip_lem reading 5 (65 ∷ 126 ∷ []) [] 1 3 (omega arith) (omega arith) (omega arith)
      reading-Inside

decapsulate-high_byte_example :
    (r' : Receiver) × (decapsulate reading_high 2 ≡ (some [], r')) × Inside r' 5 (66 ∷ [])
decapsulate-high_byte_example =
    decapsulate-high_byte reading_high 5 200 (66 ∷ []) 1 (omega arith) reading_high-Inside

abbrev cut_receiver : Receiver
cut_receiver = record reading { message = buffer_of (message_escape ∷ []) 1 }

cut-Holds : Holds cut_receiver.message (message_escape ∷ [])
cut-Holds = record { valid = omega arith; bytes = refl }

next-Holds : Holds (buffer_of (0x7e ∷ []) 1) (0x7e ∷ [])
next-Holds = record { valid = omega arith; bytes = refl }

read-split_example :
    let waiting_for = record cut_receiver {
      message = (iob_getc cut_receiver.message).1;
      escape = true;
    } in
    (try_read_char cut_receiver ≡ (negsuc 0, waiting_for))
    × (try_read_char (record waiting_for { message = buffer_of (0x7e ∷ []) 1 }) ≡ (
      int_of_char 0x7e,
      record cut_receiver { message = (iob_getc (buffer_of (0x7e ∷ []) 1)).1; escape = false },
    ))
read-split_example = read-split cut_receiver (buffer_of (0x7e ∷ []) 1) refl cut-Holds next-Holds
