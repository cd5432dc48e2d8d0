-- ===== src/Receiver/Frames.antt =====
-- Frames parsed: the order, then the data.
use os_unixvr4_labs.Common.{
  ℕ, zero, suc, ◌+◌, ◌-◌, ◌<◌, ◌≤◌, ◌≡◌, refl, sym, ap, ap₂, ◌∙◌, List, [], ◌∷◌, ◌++◌, some, true,
  false, arith, length, take, drop, append-nil, append_assoc, subst, take-append-drop, length-take,
}
use os_unixvr4_labs.Common.Int.{pos, negsuc}
use os_unixvr4_labs.Protocol.{message_edge}
use os_unixvr4_labs.Protocol.Escape.{escape_char, escape, escape-append}
use os_unixvr4_labs.IoBuffer.{IoBuffer, iob_shift}
use os_unixvr4_labs.Receiver.{
  Receiver, mr_empty, try_read_char, try_skip_start, parse_order, try_parse_order, read_chars,
  decapsulate,
}
use os_unixvr4_labs.Receiver.Chars.{Holds, nonempty-Holds, shift-Holds, read-char, read-edge}

-- Bytes that a signed char holds without a sign.
abbrev pub IsAscii : List ℕ → Type 0
IsAscii [] = Unit {0}
IsAscii (x ∷ xs) = (x < 128) × IsAscii xs

-- A receiver between two frames: it has bytes, and waits for the edge that opens a frame.
pub record Between (r : Receiver) (q : List ℕ) : Type 0 where
  pub bytes : Holds r.message q
  pub started : r.started ≡ false
  pub escape : r.escape ≡ false
  pub order_got : r.order_got ≡ false

-- A receiver inside a frame whose order is `o`.
pub record Inside (r : Receiver) (o : ℕ) (q : List ℕ) : Type 0 where
  pub bytes : Holds r.message q
  pub started : r.started ≡ true
  pub escape : r.escape ≡ false
  pub order_got : r.order_got ≡ true
  pub order : r.order ≡ pos o

parse-order-read :
    (r : Receiver) (c : ℕ) (r' : Receiver)
    → try_read_char r ≡ (pos c, r')
    → parse_order r ≡ (pos c, record r' { order = pos c; order_got = true })
unfolding parse_order
parse-order-read r c r' e = rw e

skip-start :
    (r : Receiver) {c : ℕ} {q : List ℕ}
    → Between r (c ∷ q)
    → try_skip_start r ≡ (true, record r { message = iob_shift r.message 1; started = true })
unfolding try_skip_start mr_empty
skip-start r b = ground (arith, b.started, nonempty-Holds b.bytes)

parse-fresh :
    (r r1 : Receiver)
    → r.order_got ≡ false
    → try_skip_start r ≡ (true, r1)
    → try_parse_order r ≡ parse_order r1
unfolding try_parse_order
parse-fresh r r1 g e = ground arith

-- The edge is skipped, and the order is read.
pub parse_order_lem :
    (r : Receiver) (o : ℕ) (q : List ℕ)
    → o < 128
    → Between r (message_edge ∷ escape_char o ++ q)
    → (r' : Receiver) × (try_parse_order r ≡ (pos o, r')) × Inside r' o q
parse_order_lem r o q l b =
    let r1 : Receiver = record r { message = iob_shift r.message 1; started = true } in
    let (m, h, e) = read-char r1 b.escape l (shift-Holds b.bytes) in
    (
      record r1 { message = m; escape = false; order = pos o; order_got = true },
      parse-fresh r r1 b.order_got (skip-start r b)
          ∙ parse-order-read r1 o (record r1 { message = m; escape = false }) e,
      record { bytes = h; started = refl; escape = refl; order_got = refl; order = refl },
    )

read_chars-suc :
    (r r' : Receiver) (c k : ℕ)
    → try_read_char r ≡ (pos c, r')
    → read_chars (suc k) r ≡ (let rest = read_chars k r' in (c ∷ rest.0, rest.1))
unfolding read_chars
read_chars-suc r r' c k e = rw (e, read_chars) (rw e)

pub read_chars-stop :
    (r r' : Receiver) (n k : ℕ) → try_read_char r ≡ (negsuc n, r') → read_chars (suc k) r ≡ ([], r')
unfolding read_chars
read_chars-stop r r' n k e = rw (e, read_chars) (rw e)

-- The data is read back byte by byte.
pub read_chars-escape :
    (xs : List ℕ) (r : Receiver) (q : List ℕ) (n k : ℕ)
    → IsAscii xs
    → r.escape ≡ false
    → Holds r.message (escape xs ++ q)
    → k ≡ length xs + n
    → (m : IoBuffer) × Holds m q
      × (read_chars k r ≡ (
          let rest = read_chars n (record r { message = m; escape = false }) in
          (xs ++ rest.0, rest.1)))
unfolding escape
read_chars-escape [] r q n k a e h ek =
    (r.message, h, ap₂ (λ j x. read_chars j (record r { escape = x })) (omega arith) e)
read_chars-escape (x ∷ xs) r q n zero a e h ek = absurd (omega arith)
read_chars-escape (x ∷ xs) r q n (suc k) a e h ek =
    let (m1, h1, e1) =
      read-char r {q = escape xs ++ q} e a.0
        (rw (append_assoc (escape_char x) (escape xs) q) at h) in
    let r1 : Receiver = record r { message = m1; escape = false } in
    let (m, h2, e2) = read_chars-escape xs r1 q n k a.1 refl h1 (omega arith) in
    (m, h2, read_chars-suc r r1 x k e1 ∙ ap (λ t. (x ∷ t.0, t.1)) e2)

decapsulate-parsed :
    (r r1 : Receiver) (o count : ℕ)
    → try_parse_order r ≡ (pos o, r1)
    → decapsulate r count ≡ (let got = read_chars count r1 in (some got.0, got.1))
unfolding decapsulate
decapsulate-parsed r r1 o count e = rw e

pub decapsulate_from_frame :
    (r : Receiver) (o : ℕ) (q : List ℕ) (count : ℕ)
    → Inside r o q
    → decapsulate r count ≡ (let got = read_chars count r in (some got.0, got.1))
decapsulate_from_frame r o q count i = decapsulate-parsed r r o count parsed
  where
    parsed : try_parse_order r ≡ (pos o, r)
    parsed = unfold try_parse_order in ground (arith, i.order_got, i.order)

-- A whole frame whose order and bytes are below 128: asked for more bytes than the frame has,
-- `decapsulate` skips the opening edge, reads the order, returns exactly the bytes that were
-- stuffed, and stops behind the closing edge, ready for the next frame.
pub decapsulate_frame :
    (r : Receiver) (o : ℕ) (xs q : List ℕ) (count : ℕ)
    → o < 128
    → IsAscii xs
    → length xs < count
    → Between r (message_edge ∷ escape (o ∷ xs) ++ message_edge ∷ q)
    → (r' : Receiver) × (decapsulate r count ≡ (some xs, r')) × Between r' q
decapsulate_frame r o xs q count lo a lc b =
    let (r1, parsed, i) = parse_order_lem r o (escape xs ++ message_edge ∷ q) lo opened in
    let (m, h, e) =
      read_chars-escape xs r1 (message_edge ∷ q) (suc rest) count a i.escape i.bytes
        (omega arith) in
    let r2 : Receiver = record r1 { message = m; escape = false } in
    let (m', h', e') = read-edge r2 refl i.started h in
    (
      record r2 { message = m'; started = false; order_got = false },
      decapsulate-parsed r r1 o count parsed
          ∙ ap (λ t. (some t.0, t.1))
              (e
                ∙ ap (λ t. (xs ++ t.0, t.1)) (read_chars-stop r2 _ 1 rest e')
                ∙ ap (λ l. (l, record r2 { message = m'; started = false; order_got = false }))
                    (append-nil xs)),
      record { bytes = h'; started = refl; escape = refl; order_got = refl },
    )
  where
    rest : ℕ
    rest = count - length xs - 1

    opened : Between r (message_edge ∷ escape_char o ++ (escape xs ++ message_edge ∷ q))
    opened = unfold escape in rw (append_assoc (escape_char o) (escape xs) (message_edge ∷ q)) at b

IsAscii-take : (n : ℕ) (xs : List ℕ) → IsAscii xs → IsAscii (take n xs)
IsAscii-take zero xs a = tt
IsAscii-take (suc n) [] a = tt
IsAscii-take (suc n) (x ∷ xs) a = (a.0, IsAscii-take n xs a.1)

-- Inside a frame, asked for no more bytes than a stretch of it has whose bytes are all below 128,
-- `decapsulate` returns as many of its first bytes as it is asked for and stays inside the frame,
-- before the rest.
pub decapsulate_part :
    (r : Receiver) (o : ℕ) (xs q : List ℕ) (count : ℕ)
    → IsAscii xs
    → count ≤ length xs
    → Inside r o (escape xs ++ q)
    → (r' : Receiver) × (decapsulate r count ≡ (some (take count xs), r'))
      × Inside r' o (escape (drop count xs) ++ q)
decapsulate_part r o xs q count a l i =
    let (m, h, e) =
      read_chars-escape (take count xs) r (escape (drop count xs) ++ q) 0 count
        (IsAscii-take count xs a) i.escape (subst (Holds r.message) split i.bytes)
        (omega (arith, length-take count xs)) in
    (
      record r { message = m; escape = false },
      decapsulate_from_frame r o (escape xs ++ q) count i
          ∙ ap (λ t. (some t.0, t.1)) (e ∙ nothing_more m),
      record {
        bytes = h;
        started = i.started;
        escape = refl;
        order_got = i.order_got;
        order = i.order;
      },
    )
  where
    split : escape xs ++ q ≡ escape (take count xs) ++ (escape (drop count xs) ++ q)
    split =
        ap (λ t. escape t ++ q) (sym (take-append-drop count xs))
        ∙ ap (λ t. t ++ q) (escape-append (take count xs) (drop count xs))
        ∙ append_assoc (escape (take count xs)) (escape (drop count xs)) q

    nothing_more :
        (m : IoBuffer)
        → ◌≡◌ {A = List ℕ × Receiver}
            (let t = read_chars 0 (record r { message = m; escape = false }) in
              (take count xs ++ t.0, t.1))
            (take count xs, record r { message = m; escape = false })
    nothing_more m =
        unfold read_chars in
        ap (λ (t : List ℕ). (t, record r { message = m; escape = false }))
          (append-nil (take count xs))
