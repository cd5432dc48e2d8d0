-- ===== src/Message/Tests.antt =====
-- The theorems on the writer of frames at one short text, and runs.
use os_unixvr4_labs.Common.{
  ℕ, ◌≡◌, refl, sym, subst, false, [], ◌∷◌, Option, some, arith, replicate,
}
use os_unixvr4_labs.Common.Int.{pos}
use os_unixvr4_labs.IoBuffer.{iob_full, iob_putc}
use os_unixvr4_labs.Protocol.{message_edge, need_escape}
use os_unixvr4_labs.Protocol.Escape.{escape}
use os_unixvr4_labs.Message.{
  MessageBuffer, init_mb, encapsulate, put_frame, close_frame, put_start, put_order, put_char,
  put_chars, put_stuffed, put_escaped_char, try_put, mb_full, set_order,
}
use os_unixvr4_labs.Message.Stream.{stream}
use os_unixvr4_labs.Message.Conserve.{IsReady}
use os_unixvr4_labs.Message.Encapsulate.{Conserved, encapsulate_lem}
use os_unixvr4_labs.Message.RoundTrip.{encapsulate-decapsulate}
use os_unixvr4_labs.Receiver.{Receiver, decapsulate}
use os_unixvr4_labs.Receiver.Frames.{Between}

abbrev writer : MessageBuffer
writer = record {
  message = record { buf = replicate 16 0; size = 16; count = 0 };
  order = 0;
  escape = false;
  escaped_char = 0;
  start_put = false;
  order_put = false;
}

writer-IsReady : IsReady writer
writer-IsReady = record { valid = omega arith; closed = λ h. refl }

encapsulate_lem_example :
    (r : Option ℕ) × (b' : MessageBuffer) × (encapsulate writer (5 ∷ 126 ∷ []) 1 ≡ (r, b'))
    × Conserved writer b' r (5 ∷ 126 ∷ []) 1
encapsulate_lem_example = encapsulate_lem writer (5 ∷ 126 ∷ []) 1 writer-IsReady

abbrev written : MessageBuffer
written = (encapsulate writer (5 ∷ 126 ∷ []) 1).1

abbrev written_twice : MessageBuffer
written_twice = (encapsulate written (7 ∷ []) 2).1

first_all : (encapsulate writer (5 ∷ 126 ∷ []) 1).0 ≡ some 2
unfolding encapsulate put_frame close_frame put_start put_order put_char put_chars put_stuffed
    put_escaped_char try_put mb_full set_order init_mb iob_putc iob_full need_escape
first_all = refl

second_all : (encapsulate written (7 ∷ []) 2).0 ≡ some 1
unfolding encapsulate put_frame close_frame put_start put_order put_char put_chars put_stuffed
    put_escaped_char try_put mb_full set_order init_mb iob_putc iob_full need_escape
second_all = refl

whole_text : stream written_twice ≡ 126 ∷ 1 ∷ 5 ∷ 125 ∷ 126 ∷ 126 ∷ 126 ∷ 2 ∷ 7 ∷ []
unfolding encapsulate put_frame close_frame put_start put_order put_char put_chars put_stuffed
    put_escaped_char try_put mb_full set_order init_mb iob_putc iob_full need_escape
whole_text = refl

-- A reader that has received these nine bytes.
abbrev reader : Receiver
reader = record {
  message = record { buf = 126 ∷ 1 ∷ 5 ∷ 125 ∷ 126 ∷ 126 ∷ 126 ∷ 2 ∷ 7 ∷ []; size = 9; count = 9 };
  order = pos 0;
  started = false;
  escape = false;
  order_got = false;
}

reader-Between : Between reader (126 ∷ 1 ∷ 5 ∷ 125 ∷ 126 ∷ 126 ∷ 126 ∷ 2 ∷ 7 ∷ [])
reader-Between = record {
  bytes = record { valid = omega arith; bytes = refl };
  started = refl;
  escape = refl;
  order_got = refl;
}

encapsulate-decapsulate_example :
    (r' : Receiver) × (decapsulate reader 10 ≡ (some (5 ∷ 126 ∷ []), r'))
    × Between r' (message_edge ∷ escape (2 ∷ 7 ∷ []))
encapsulate-decapsulate_example =
    encapsulate-decapsulate writer 5 7 (126 ∷ []) [] 1 2 10 reader writer-IsReady refl refl refl
      first_all (λ e. absurd (omega (arith, e))) second_all (omega arith) (omega arith)
      (omega arith) (subst (Between reader) (sym whole_text) reader-Between)
