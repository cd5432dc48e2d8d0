-- ===== src/Protocol/Encapsulate.antt =====
-- `pr_encapsulate` against byte stuffing on lists.
use os_unixvr4_labs.Common.{
  ℕ, suc, ◌+◌, ◌-◌, ◌≤◌, ◌<◌, ◌≡◌, refl, ap, ◌∙◌, List, [], ◌∷◌, ◌++◌, true, false, arith, length,
  take, Bool-cases, inl, inr, ltb, leb, append-nil, length-append, ltb→lt, ltb→le, leb→le, leb→lt,
  sym,
}
use os_unixvr4_labs.Protocol.{need_escape, message_escape, encapsulate_from, pr_encapsulate}
use os_unixvr4_labs.Protocol.Escape.{
  escape, escape_char, escape_char-plain, escape_char-marked, length-escape_char,
}

-- What the loop has done when it ends, from `data_index` and `message_index` on.
pub record Encapsulated (bytes : List ℕ) (data_index room : ℕ) (r : ℕ × List ℕ) : Type 0 where
  pub taken : ℕ
  pub index : r.0 ≡ data_index + taken
  pub within : taken ≤ length bytes
  pub stuffed : r.1 ≡ escape (take taken bytes)
  pub fits : length r.1 ≤ room
  pub greedy : taken < length bytes → room < length (escape (take (suc taken) bytes))

-- The next byte does not fit.
stopped :
    (c : ℕ) (cs : List ℕ) (data_index room : ℕ)
    → room < length (escape_char c)
    → Encapsulated (c ∷ cs) data_index room (data_index, [])
unfolding escape
stopped c cs di room h = record {
  taken = 0;
  index = omega arith;
  within = omega arith;
  stuffed = refl;
  fits = omega arith;
  greedy = λ l. omega (arith, ap length (append-nil (escape_char c)));
}

-- The next byte fits.
continued :
    (c : ℕ) (cs : List ℕ) (data_index room room' : ℕ) (r : ℕ × List ℕ)
    → room ≡ length (escape_char c) + room'
    → Encapsulated cs (data_index + 1) room' r
    → Encapsulated (c ∷ cs) data_index room (r.0, escape_char c ++ r.1)
unfolding escape
continued c cs di room room' r e p = record {
  taken = suc p.taken;
  index = omega (arith, p.index);
  within = omega (arith, p.within);
  stuffed = ap (◌++◌ (escape_char c)) p.stuffed;
  fits = omega (arith, length-append (escape_char c) r.1, p.fits);
  greedy = λ l. omega (
    arith,
    length-append (escape_char c) (escape (take (suc p.taken) cs)),
    p.greedy (omega arith),
  );
}

module _ (c : ℕ) (cs : List ℕ) (di mi len : ℕ) where
  at_end : ltb mi len ≡ false → encapsulate_from (c ∷ cs) di mi len ≡ (di, [])
  unfolding encapsulate_from
  at_end e = rw (e, encapsulate_from)

  at_plain :
      ltb mi len ≡ true
      → need_escape c ≡ false
      → encapsulate_from (c ∷ cs) di mi len
        ≡ (let r = encapsulate_from cs (di + 1) (mi + 1) len in (r.0, c ∷ r.1))
  unfolding encapsulate_from
  at_plain e n = rw (e, encapsulate_from) (rw (n, encapsulate_from))

  at_last_cell :
      ltb mi len ≡ true
      → need_escape c ≡ true
      → leb len (mi + 1) ≡ true
      → encapsulate_from (c ∷ cs) di mi len ≡ (di, [])
  unfolding encapsulate_from
  at_last_cell e n l =
      rw (e, encapsulate_from) (rw (n, encapsulate_from) (rw (l, encapsulate_from)))

  at_marked :
      ltb mi len ≡ true
      → need_escape c ≡ true
      → leb len (mi + 1) ≡ false
      → encapsulate_from (c ∷ cs) di mi len
        ≡ (let r = encapsulate_from cs (di + 1) (mi + 2) len in (r.0, message_escape ∷ c ∷ r.1))
  unfolding encapsulate_from
  at_marked e n l = rw (e, encapsulate_from) (rw (n, encapsulate_from) (rw (l, encapsulate_from)))

  -- What the loop does with the next byte, given what it does with the others.
  next_byte :
      mi ≤ len
      → (mi + 1 ≤ len
          → Encapsulated cs (di + 1) (len - (mi + 1)) (encapsulate_from cs (di + 1) (mi + 1) len))
      → (mi + 2 ≤ len
          → Encapsulated cs (di + 1) (len - (mi + 2)) (encapsulate_from cs (di + 1) (mi + 2) len))
      → Encapsulated (c ∷ cs) di (len - mi) (encapsulate_from (c ∷ cs) di mi len)
  next_byte h plain marked = elim (Bool-cases (ltb mi len)) [
    | inr full ↦
        rw (at_end full)
          (stopped c cs di (len - mi) (omega (arith, ltb→le _ _ full, length-escape_char c)))
    | inl room ↦ elim (Bool-cases (need_escape c)) [
      | inr n ↦ rw (at_plain room n) (
          rw (escape_char-plain c n) at (
            continued c cs di (len - mi) (len - (mi + 1))
              (encapsulate_from cs (di + 1) (mi + 1) len)
              (omega (arith, ltb→lt _ _ room, ap length (escape_char-plain c n)))
              (plain (omega (arith, ltb→lt _ _ room)))))
      | inl n ↦ elim (Bool-cases (leb len (mi + 1))) [
        | inl tight ↦ rw (at_last_cell room n tight) (
            stopped c cs di (len - mi) (
              omega (arith, leb→le _ _ tight, ltb→lt _ _ room, ap length (escape_char-marked c n))))
        | inr wide ↦ rw (at_marked room n wide) (
            rw (escape_char-marked c n) at (
              continued c cs di (len - mi) (len - (mi + 2))
                (encapsulate_from cs (di + 1) (mi + 2) len)
                (omega (arith, leb→lt _ _ wide, ap length (escape_char-marked c n)))
                (marked (omega (arith, leb→lt _ _ wide)))))
      ]
    ]
  ]

encapsulate_loop :
    (bytes : List ℕ) (data_index message_index message_len : ℕ)
    → message_index ≤ message_len
    → Encapsulated bytes data_index
        (message_len - message_index)
        (encapsulate_from bytes data_index message_index message_len)
encapsulate_loop [] di mi len h =
    unfold encapsulate_from escape in
    record {
      taken = 0;
      index = omega arith;
      within = omega arith;
      stuffed = refl;
      fits = omega arith;
      greedy = λ l. absurd (omega arith);
    }
encapsulate_loop (c ∷ cs) di mi len h =
    next_byte c cs di mi len h (encapsulate_loop cs (di + 1) (mi + 1) len)
      (encapsulate_loop cs (di + 1) (mi + 2) len)

-- `pr_encapsulate` stores the stuffed form of the first bytes, as many as fit in `message_len`, and
-- returns the number of bytes that it read, not of those that it stored.
pub pr_encapsulate_lem :
    (bytes : List ℕ) (message_len : ℕ)
    → let (k, stored) = pr_encapsulate bytes message_len in
      (k ≤ length bytes)
      × (stored ≡ escape (take k bytes))
      × (length stored ≤ message_len)
      × (k < length bytes → message_len < length (escape (take (suc k) bytes)))
unfolding pr_encapsulate
pr_encapsulate_lem bytes len =
    let p = encapsulate_loop bytes 0 0 len (omega arith) in
    let e : (encapsulate_from bytes 0 0 len).0 ≡ p.taken = omega (arith, p.index) in
    (
      omega (arith, p.within, e),
      p.stuffed ∙ ap (λ k. escape (take k bytes)) (sym e),
      omega (arith, p.fits),
      λ l.
          omega
            (arith, p.greedy (omega (arith, e)), ap (λ k. length (escape (take (suc k) bytes))) e),
    )
