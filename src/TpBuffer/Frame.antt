-- ===== src/TpBuffer/Frame.antt =====
-- What a row of `cb_putc` calls leaves in the buffer, and the marks of an order.
use os_unixvr4_labs.Common.{
  ℕ, zero, suc, Option-cases, ◌≡◌, refl, sym, ap, ap₂, ◌∙◌, List, [], ◌∷◌, ◌++◌, Option, none, some,
  true, false, arith, length, take, Bool-cases, inl, inr, ltb, if◌then◌else◌, append-nil,
  append_assoc, length-append, ltb→lt, ltb→le,
}
use os_unixvr4_labs.Cyclic.{CyclicBuffer, cb_free_space}
use os_unixvr4_labs.Cyclic.Inv.{IsValid, free_space-add-count, putc-IsValid, size-putc}
use os_unixvr4_labs.Cyclic.Contents.{contents, length-contents, putc_lem}
use os_unixvr4_labs.Protocol.{message_edge}
use os_unixvr4_labs.TpBuffer.{TpBuffer, put_byte, put_end, tpb_put_order, order_code}

-- `put_byte` for each byte of a list.
abbrev pub put_all : CyclicBuffer → List ℕ → CyclicBuffer
put_all b [] = b
put_all b (x ∷ xs) = put_all (put_byte b x) xs

byte-IsValid : {b : CyclicBuffer} (c : ℕ) → IsValid b → IsValid (put_byte b c)
unfolding put_byte
byte-IsValid c v = putc-IsValid c v

contents-byte :
    {b : CyclicBuffer} (c : ℕ)
    → IsValid b
    → contents (put_byte b c) ≡ (if ltb b.count b.size then contents b ++ c ∷ [] else contents b)
unfolding put_byte
contents-byte c v = (putc_lem c v).1

size-byte : (b : CyclicBuffer) (c : ℕ) → (put_byte b c).size ≡ b.size
unfolding put_byte
size-byte b c = size-putc b c

pub all-IsValid : {b : CyclicBuffer} (xs : List ℕ) → IsValid b → IsValid (put_all b xs)
all-IsValid [] v = v
all-IsValid {b} (x ∷ xs) v = all-IsValid {b = put_byte b x} xs (byte-IsValid x v)

pub take_nil : (n : ℕ) → take {A = ℕ} n [] ≡ []
take_nil zero = refl
take_nil (suc n) = refl

-- What `put_byte` does to the free space and the bytes, with and without room.
byte-room :
    {b : CyclicBuffer} (c : ℕ)
    → IsValid b
    → ltb b.count b.size ≡ true
    → (contents (put_byte b c) ≡ contents b ++ c ∷ [])
      × (cb_free_space b ≡ suc (cb_free_space (put_byte b c)))
byte-room {b} c v e =
    let now : contents (put_byte b c) ≡ contents b ++ c ∷ [] = contents-byte c v ∙ rw e refl in
    (
      now,
      omega (
        arith,
        free_space-add-count v,
        free_space-add-count (byte-IsValid c v),
        size-byte b c,
        length-contents b,
        length-contents (put_byte b c),
        ap length now,
        length-append (contents b) (c ∷ []),
        ltb→lt _ _ e,
      ),
    )

byte-full :
    {b : CyclicBuffer} (c : ℕ)
    → IsValid b
    → ltb b.count b.size ≡ false
    → (contents (put_byte b c) ≡ contents b)
      × (cb_free_space b ≡ 0)
      × (cb_free_space (put_byte b c) ≡ 0)
byte-full {b} c v e =
    let now : contents (put_byte b c) ≡ contents b = contents-byte c v ∙ rw e refl in
    let same : (put_byte b c).count ≡ b.count =
      sym (length-contents (put_byte b c)) ∙ ap length now ∙ length-contents b in
    (
      now,
      omega (arith, free_space-add-count v, ltb→le _ _ e),
      omega (arith, free_space-add-count (byte-IsValid c v), size-byte b c, same, ltb→le _ _ e),
    )

-- Of a row of bytes those are appended that there is room for.
pub contents-all :
    {b : CyclicBuffer} (xs : List ℕ)
    → IsValid b
    → contents (put_all b xs) ≡ contents b ++ take (cb_free_space b) xs
contents-all {b} [] v =
    sym (append-nil (contents b)) ∙ ap (◌++◌ (contents b)) (sym (take_nil (cb_free_space b)))
contents-all {b} (x ∷ xs) v = elim (Bool-cases (ltb b.count b.size)) [
  | inl e ↦
      contents-all {b = put_byte b x} xs (byte-IsValid x v)
      ∙ ap (λ q. q ++ take (cb_free_space (put_byte b x)) xs) (byte-room x v e).0
      ∙ append_assoc (contents b) (x ∷ []) (take (cb_free_space (put_byte b x)) xs)
      ∙ ap (λ n. contents b ++ take n (x ∷ xs)) (sym (byte-room x v e).1)
  | inr e ↦
      contents-all {b = put_byte b x} xs (byte-IsValid x v)
      ∙ ap₂ (λ q n. q ++ take n xs) (byte-full x v e).0 (byte-full x v e).2
      ∙ ap (λ n. contents b ++ take n (x ∷ xs)) (sym (byte-full x v e).1)
]

pub size-all : (b : CyclicBuffer) (xs : List ℕ) → (put_all b xs).size ≡ b.size
size-all b [] = refl
size-all b (x ∷ xs) = size-all (put_byte b x) xs ∙ size-byte b x

-- The marks that open an order: an edge behind the bytes of the order before, an edge, the code.
abbrev pub opening : Option ℕ → ℕ → List ℕ
opening none order = message_edge ∷ order_code order ∷ []
opening (some previous) order = message_edge ∷ message_edge ∷ order_code order ∷ []

pub tpb_put_order_lem :
    (this : TpBuffer) (order : ℕ)
    → tpb_put_order this order
      ≡ record { buffer = put_all this.buffer (opening this.order order); order = some order }
unfolding tpb_put_order put_end
tpb_put_order_lem this order = elim (Option-cases this.order) [
  | inl e ↦ rw e refl
  | inr (k, e) ↦ rw e refl
]
