-- ===== src/Receiver/Faults.antt =====
-- Where the receiver does less than a caller needs: `skip`, and bytes with the high bit set.
use os_unixvr4_labs.Common.{
  ℕ, zero, suc, ◌-◌, ◌<◌, ◌≤◌, ◌≡◌, refl, ap, ◌∙◌, List, [], ◌∷◌, ◌++◌, some, true, false, arith,
  length, append_assoc, lt→ltb,
}
use os_unixvr4_labs.Common.Int.{pos, negsuc}
use os_unixvr4_labs.Protocol.{message_edge}
use os_unixvr4_labs.Protocol.Escape.{escape_char, escape}
use os_unixvr4_labs.Receiver.{
  Receiver, try_read_char, try_parse_order, decapsulate, skip_chars, skip,
}
use os_unixvr4_labs.Receiver.Chars.{Holds, read-char, read-edge, read-high}
use os_unixvr4_labs.Receiver.Frames.{
  IsAscii, Inside, Between, decapsulate_from_frame, read_chars-stop,
}

skip_chars-read :
    (fuel : ℕ) (r r' : Receiver) (c : ℕ)
    → try_read_char r ≡ (pos c, r')
    → skip_chars (suc fuel) r ≡ skip_chars fuel r'
unfolding skip_chars
skip_chars-read fuel r r' c e = rw (e, skip_chars) (rw e)

skip_chars-stop :
    (fuel : ℕ) (r r' : Receiver) (n : ℕ)
    → try_read_char r ≡ (negsuc n, r')
    → skip_chars (suc fuel) r ≡ some r'
unfolding skip_chars
skip_chars-stop fuel r r' n e = rw (e, skip_chars) (rw e)

skip_chars-frame :
    (xs : List ℕ) (r : Receiver) (q : List ℕ) (fuel : ℕ)
    → IsAscii xs
    → r.started ≡ true
    → r.escape ≡ false
    → Holds r.message (escape xs ++ message_edge ∷ q)
    → length xs < fuel
    → (r' : Receiver) × (skip_chars fuel r ≡ some r') × Between r' q
unfolding escape
skip_chars-frame xs r q zero a s e h l = absurd (omega arith)
skip_chars-frame [] r q (suc fuel) a s e h l =
    let (m, h', e') = read-edge r e s h in
    (
      record r { message = m; started = false; order_got = false },
      skip_chars-stop fuel r _ 1 e',
      record { bytes = h'; started = refl; escape = e; order_got = refl },
    )
skip_chars-frame (x ∷ xs) r q (suc fuel) a s e h l =
    let (m, h', e') =
      read-char r {q = escape xs ++ message_edge ∷ q} e a.0
        (rw (append_assoc (escape_char x) (escape xs) (message_edge ∷ q)) at h) in
    let (r', done, b) =
      skip_chars-frame xs (record r { message = m; escape = false }) q fuel a.1 s refl h'
        (omega arith) in
    (r', skip_chars-read fuel r (record r { message = m; escape = false }) x e' ∙ done, b)

-- `skip` never counts what it skips: inside a frame whose other bytes are below 128, for any
-- positive number of bytes, it ends (with fuel for the bytes of the frame), leaves the whole rest
-- of the frame behind, its closing edge included, and returns 0.
pub skip_lem :
    (r : Receiver) (o : ℕ) (xs q : List ℕ) (count fuel : ℕ)
    → IsAscii xs
    → 0 < count
    → length xs < fuel
    → Inside r o (escape xs ++ message_edge ∷ q)
    → (r' : Receiver) × (skip fuel r count ≡ some (some 0, r')) × Between r' q
unfolding skip
skip_lem r o xs q count fuel a pc lf i =
    let (r', e, b) = skip_chars-frame xs r q fuel a i.started i.escape i.bytes lf in
    (r', rw parsed (rw (lt→ltb 0 count pc, e)), b)
  where
    parsed : try_parse_order r ≡ (pos o, r)
    parsed = unfold try_parse_order in ground (arith, i.order_got, i.order)

-- A byte of 128 or more ends `decapsulate` as if nothing were there: the byte is taken from the
-- buffer, not stored, and nothing behind it is read, however many bytes are asked for.
pub decapsulate-high_byte :
    (r : Receiver) (o c : ℕ) (q : List ℕ) (count : ℕ)
    → 128 ≤ c
    → Inside r o (c ∷ q)
    → (r' : Receiver) × (decapsulate r (suc count) ≡ (some [], r')) × Inside r' o q
decapsulate-high_byte r o c q count l i =
    let (m, h, e) = read-high r i.escape l i.bytes in
    (
      record r { message = m },
      decapsulate_from_frame r o (c ∷ q) (suc count) i
          ∙ ap (λ t. (some t.0, t.1))
              (read_chars-stop r (record r { message = m }) (255 - c) count e),
      record {
        bytes = h;
        started = i.started;
        escape = i.escape;
        order_got = i.order_got;
        order = i.order;
      },
    )
