-- ===== src/Message/Stream.antt =====
-- The text that a writer has made: the bytes of its buffer and the escaped byte that waits. What
-- each helper of `encapsulate` adds to it, whether it finds room or not.
use os_unixvr4_labs.Common.{
  ℕ, ◌≡◌, ◌⊎◌, inl, inr, refl, sym, ap, ◌∙◌, Bool, true, false, List, [], ◌∷◌, ◌++◌, append-nil,
  append_assoc, Bool-cases,
}
use os_unixvr4_labs.Protocol.{message_escape, need_escape}
use os_unixvr4_labs.Protocol.Escape.{escape_char, escape_char-plain, escape_char-marked}
use os_unixvr4_labs.IoBuffer.{IoBuffer, iob_full, iob_putc}
use os_unixvr4_labs.IoBuffer.Inv.{IsValid, putc-IsValid}
use os_unixvr4_labs.IoBuffer.Items.{items}
use os_unixvr4_labs.IoBuffer.Refine.{items-putc}
use os_unixvr4_labs.Message.{MessageBuffer, mb_full, try_put, put_escaped_char, put_stuffed}

-- The byte that waits behind its escape.
abbrev pub waiting : Bool → ℕ → List ℕ
waiting true c = c ∷ []
waiting false c = []

abbrev pub stream : MessageBuffer → List ℕ
stream b = items b.message ++ waiting b.escape b.escaped_char

-- The text `cs` is added if the result is `true`.
abbrev pub if_put : Bool → List ℕ → List ℕ
if_put true cs = cs
if_put false cs = []

abbrev pub with_bytes : MessageBuffer → IoBuffer → Bool → ℕ → MessageBuffer
with_bytes b m e w = record b { message = m; escape = e; escaped_char = w }

pub try_put_lem :
    (b : MessageBuffer) (c : ℕ)
    → IsValid b.message
    → (try_put b c ≡ (false, b))
      ⊎ ((m : IoBuffer) × (try_put b c ≡ (true, record b { message = m }))
          × IsValid m
          × (items m ≡ items b.message ++ c ∷ []))
unfolding try_put mb_full
try_put_lem b c v = elim (Bool-cases (iob_full b.message)) [
  | inl full ↦ inl (rw (full, try_put, mb_full) refl)
  | inr room ↦ inr (
    (iob_putc b.message c).1,
    rw (room, try_put, mb_full) refl,
    putc-IsValid c v,
    items-putc c v room,
  )
]

pub put_escaped_char_lem :
    (b : MessageBuffer)
    → IsValid b.message
    → ((b.escape ≡ true) × (put_escaped_char b ≡ (false, b)))
      ⊎ ((m : IoBuffer) × (put_escaped_char b ≡ (true, record b { message = m; escape = false }))
          × IsValid m
          × (items m ≡ stream b))
unfolding put_escaped_char
put_escaped_char_lem b v = elim (Bool-cases b.escape) [
  | inl e ↦ elim (try_put_lem b b.escaped_char v) [
    | inl p ↦ inl (e, rw (p, put_escaped_char) (rw e refl))
    | inr (m, p, v', i) ↦ inr (m, rw (p, put_escaped_char) (rw e refl), v', rw e i)
  ]
  | inr e ↦
      inr (b.message, rw (e, put_escaped_char) refl, v, rw e (sym (append-nil (items b.message))))
]

pub put_stuffed_lem :
    (b : MessageBuffer) (c : ℕ)
    → IsValid b.message
    → b.escape ≡ false
    → (put_stuffed b c ≡ (false, b))
      ⊎ ((m : IoBuffer) × (e : Bool) × (w : ℕ) × (put_stuffed b c ≡ (true, with_bytes b m e w))
          × IsValid m
          × (items m ++ waiting e w ≡ items b.message ++ escape_char c))
unfolding put_stuffed
put_stuffed_lem b c v n = elim (Bool-cases (need_escape c)) [
  | inl marked ↦ elim (try_put_lem b message_escape v) [
    | inl p ↦ inl (rw (marked, put_stuffed) (rw p refl))
    | inr (m, p, v', i) ↦ inr (
      m,
      true,
      c,
      rw (marked, put_stuffed) (rw p refl),
      v',
      rw (escape_char-marked c marked, i)
          (append_assoc (items b.message) (message_escape ∷ []) (c ∷ [])),
    )
  ]
  | inr plain ↦ elim (try_put_lem b c v) [
    | inl p ↦ inl (rw (plain, put_stuffed) p)
    | inr (m, p, v', i) ↦ inr (
      m,
      false,
      b.escaped_char,
      rw (plain, put_stuffed) (p ∙ ap (λ x. (true, with_bytes b m x b.escaped_char)) n),
      v',
      rw (escape_char-plain c plain, i) (append-nil (items b.message ++ c ∷ [])),
    )
  ]
]
