-- ===== src/Message/Put.antt =====
-- What `put_char`, `put_order`, `put_start` and the loop of `encapsulate` add to the text.
use os_unixvr4_labs.Common.{
  ℕ, suc, ◌≤◌, ◌≡◌, inl, inr, refl, sym, ap, ◌∙◌, Bool, true, false, List, [], ◌∷◌, ◌++◌, arith,
  length, take, append-nil, append_assoc, Bool-cases, not,
}
use os_unixvr4_labs.Protocol.{message_edge}
use os_unixvr4_labs.Protocol.Escape.{escape_char, escape}
use os_unixvr4_labs.IoBuffer.{IoBuffer}
use os_unixvr4_labs.IoBuffer.Inv.{IsValid}
use os_unixvr4_labs.IoBuffer.Items.{items}
use os_unixvr4_labs.Message.{MessageBuffer, put_start, put_char, put_order, put_chars}
use os_unixvr4_labs.Message.Stream.{
  stream, waiting, if_put, with_bytes, try_put_lem, put_escaped_char_lem, put_stuffed_lem,
}

-- Where `put_escaped_char` has left the writer.
abbrev pub flushed_as : MessageBuffer → IoBuffer → MessageBuffer
flushed_as b m = record b { message = m; escape = false }

pub put_char_lem :
    (b : MessageBuffer) (c : ℕ)
    → IsValid b.message
    → (r : Bool) × (m : IoBuffer) × (e : Bool) × (w : ℕ) × (put_char b c ≡ (r, with_bytes b m e w))
      × IsValid m
      × (items m ++ waiting e w ≡ stream b ++ if_put r (escape_char c))
unfolding put_char
put_char_lem b c v = elim (put_escaped_char_lem b v) [
  | inl (e, p) ↦ (
    false,
    b.message,
    b.escape,
    b.escaped_char,
    rw (p, put_char) refl,
    v,
    sym (append-nil (stream b)),
  )
  | inr (m, p, v', i) ↦ elim (put_stuffed_lem (flushed_as b m) c v' refl) [
    | inl q ↦ (false, m, false, b.escaped_char, rw (p, put_char) q, v', ap (λ t. t ++ []) i)
    | inr (m', e', w', q, v'', i') ↦ (true, m', e', w', rw (p, put_char) q, v'', rw (← i) i')
  ]
]

pub put_order_lem :
    (b : MessageBuffer)
    → IsValid b.message
    → (r : Bool) × (m : IoBuffer) × (e : Bool) × (w : ℕ) × (put_order b
        ≡ (r, record (with_bytes b m e w) { order_put = r }))
      × IsValid m
      × (items m ++ waiting e w
          ≡ stream b ++ if_put r (if_put (not b.order_put) (escape_char b.order)))
      × (b.order_put ≡ true → r ≡ true)
unfolding put_order
put_order_lem b v = elim (Bool-cases b.order_put) [
  | inl o ↦ (
    true,
    b.message,
    b.escape,
    b.escaped_char,
    rw (o, put_order) refl,
    v,
    rw o (sym (append-nil (stream b))),
    λ h. refl,
  )
  | inr o ↦ elim (put_escaped_char_lem b v) [
    | inl (e, p) ↦ (
      false,
      b.message,
      b.escape,
      b.escaped_char,
      rw (p, put_order) (rw o refl),
      v,
      sym (append-nil (stream b)),
      λ h. absurd (ground arith),
    )
    | inr (m, p, v', i) ↦ elim (put_stuffed_lem (flushed_as b m) b.order v' refl) [
      | inl q ↦ (
        false,
        m,
        false,
        b.escaped_char,
        rw (p, put_order) (rw q (rw o refl)),
        v',
        ap (λ t. t ++ []) i,
        λ h. absurd (ground arith),
      )
      | inr (m', e', w', q, v'', i') ↦ (
        true,
        m',
        e',
        w',
        rw (p, put_order) (rw q (rw o refl)),
        v'',
        rw o (rw (← i) i'),
        λ h. refl,
      )
    ]
  ]
]

pub put_start_lem :
    (b : MessageBuffer)
    → IsValid b.message
    → (b.start_put ≡ false → b.escape ≡ false)
    → (r : Bool) × (m : IoBuffer) × (put_start b ≡ (r, record b { message = m; start_put = r }))
      × IsValid m
      × (items m ++ waiting b.escape b.escaped_char
          ≡ stream b ++ if_put r (if_put (not b.start_put) (message_edge ∷ [])))
      × (b.start_put ≡ true → r ≡ true)
unfolding put_start
put_start_lem b v n = elim (Bool-cases b.start_put) [
  | inl o ↦
      (true, b.message, rw (o, put_start) refl, v, rw o (sym (append-nil (stream b))), λ h. refl)
  | inr o ↦ elim (try_put_lem b message_edge v) [
    | inl p ↦ (
      false,
      b.message,
      rw (p, put_start) (rw o refl),
      v,
      sym (append-nil (stream b)),
      λ h. absurd (ground arith),
    )
    | inr (m, p, v', i) ↦ (
      true,
      m,
      rw (p, put_start) (rw o refl),
      v',
      rw (o, i, n o)
          (append-nil (items b.message ++ message_edge ∷ [])
            ∙ ap (λ t. t ++ message_edge ∷ []) (sym (append-nil (items b.message)))),
      λ h. refl,
    )
  ]
]

put_chars-put :
    (b b' : MessageBuffer) (c : ℕ) (cs : List ℕ)
    → put_char b c ≡ (true, b')
    → put_chars b (c ∷ cs) ≡ (let rest = put_chars b' cs in (suc rest.0, rest.1))
unfolding put_chars
put_chars-put b b' c cs e = rw (e, put_chars) (rw e refl)

put_chars-stop :
    (b b' : MessageBuffer) (c : ℕ) (cs : List ℕ)
    → put_char b c ≡ (false, b')
    → put_chars b (c ∷ cs) ≡ (0, b')
unfolding put_chars
put_chars-stop b b' c cs e = rw (e, put_chars) (rw e refl)

pub put_chars_lem :
    (b : MessageBuffer) (xs : List ℕ)
    → IsValid b.message
    → (k : ℕ) × (m : IoBuffer) × (e : Bool) × (w : ℕ) × (put_chars b xs ≡ (k, with_bytes b m e w))
      × IsValid m
      × (items m ++ waiting e w ≡ stream b ++ escape (take k xs))
      × (k ≤ length xs)
unfolding put_chars escape
put_chars_lem b [] v =
    (0, b.message, b.escape, b.escaped_char, refl, v, sym (append-nil (stream b)), omega arith)
put_chars_lem b (x ∷ xs) v =
    let (r, m, e, w, p, v', i) = put_char_lem b x v in
    elim (Bool-cases r) [
      | inr er ↦ (
        0,
        m,
        e,
        w,
        put_chars-stop b (with_bytes b m e w) x xs (p ∙ ap (λ z. (z, with_bytes b m e w)) er),
        v',
        (rw er at i),
        omega arith,
      )
      | inl er ↦
          let (k, m', e', w', q, v'', j, l) = put_chars_lem (with_bytes b m e w) xs v' in
          (
            suc k,
            m',
            e',
            w',
            put_chars-put b (with_bytes b m e w) x xs (p ∙ ap (λ z. (z, with_bytes b m e w)) er)
                ∙ ap (λ z. (suc z.0, z.1)) q,
            v'',
            j
                ∙ ap (λ t. t ++ escape (take k xs)) (rw er at i)
                ∙ append_assoc (stream b) (escape_char x) (escape (take k xs)),
            omega (arith, l),
          )
    ]
