-- ===== src/TpBuffer/Data.antt =====
-- `tpb_encapsulate`: what it takes for the number of bytes stored is the number of bytes read.
use os_unixvr4_labs.Common.{
  ℕ, suc, ◌+◌, ◌%◌, ◌<◌, ◌≤◌, ◌≡◌, ◌≢◌, refl, sym, ap, ◌∙◌, true, false, List, ◌++◌, arith, length,
  take, min, Bool-cases, inl, inr, ltb, ltb→lt, ltb→le, append-nil, take-append_more, take-span,
  get_or, length-write_at, write_at, length-take, add_size,
}
use os_unixvr4_labs.Cyclic.{
  CyclicBuffer, cb_free_space, cb_free_contiguous_space, cb_data_end, cb_skip_right,
}
use os_unixvr4_labs.Cyclic.Inv.{IsValid, free_space-add-count, skip_right_count}
use os_unixvr4_labs.Cyclic.Contents.{contents, length-contents}
use os_unixvr4_labs.Cyclic.Space.{free_contiguous_space_lem, contiguous_room}
use os_unixvr4_labs.Protocol.{pr_encapsulate, message_length}
use os_unixvr4_labs.Protocol.Escape.{escape, length-le-escape}
use os_unixvr4_labs.Protocol.Encapsulate.{pr_encapsulate_lem}
use os_unixvr4_labs.TpBuffer.{put_stuffed, encapsulate_rounds}

-- A block is stored behind the bytes and only its first `k` cells are counted.
contents-put_part :
    {b : CyclicBuffer} (xs : List ℕ) (k : ℕ)
    → IsValid b
    → length xs ≤ cb_free_contiguous_space b
    → k ≤ length xs
    → let b' = cb_skip_right (record b { buf = write_at b.buf (cb_data_end b) xs }) k in
      (contents b' ≡ contents b ++ take k xs)
      × IsValid b'
      × (b'.size ≡ b.size)
      × (b'.count ≡ b.count + k)
contents-put_part {b} xs k v h le = rw (skip_right_count k valid (omega (arith, free))) (
  sym (
        take-span (λ j. get_or c.buf (j % b.size) 0) b.start (b.count + k) (b.count + length xs)
          (omega arith))
      ∙ ap (take (b.count + k)) whole
      ∙ ap (λ n. take (n + k) (contents b ++ xs)) (sym (length-contents b))
      ∙ take-append_more (contents b) xs k,
  omega (arith, valid, free, free_space-add-count valid),
  refl,
  refl,
)
  where
    c : CyclicBuffer
    c = record b { buf = write_at b.buf (cb_data_end b) xs }

    valid : IsValid c
    valid = ground (arith, length-write_at b.buf (cb_data_end b) xs)

    free : length xs ≤ cb_free_space c
    free = omega (
      arith,
      (contiguous_room (length xs) v h).1,
      free_space-add-count v,
      free_space-add-count valid,
    )

    whole : contents (record c { count = b.count + length xs }) ≡ contents b ++ xs
    whole =
        ap contents (sym (skip_right_count (length xs) valid free))
        ∙ (free_contiguous_space_lem xs v h).1

-- The first `k` bytes of the stuffed form of the first `k` bytes.
abbrev pub cut_text : List ℕ → ℕ → List ℕ
cut_text bytes k = take k (escape (take k bytes))

pub put_stuffed_lem :
    {b : CyclicBuffer} (bytes : List ℕ) (message_len : ℕ)
    → IsValid b
    → message_len ≤ cb_free_contiguous_space b
    → let (k, b') = put_stuffed b bytes message_len in
      (k ≤ length bytes)
      × (k ≤ message_len)
      × (contents b' ≡ contents b ++ cut_text bytes k)
      × IsValid b'
      × (b'.size ≡ b.size)
      × (b'.count ≡ b.count + k)
      × (k < length bytes → message_len < length (escape (take (suc k) bytes)))
unfolding put_stuffed
put_stuffed_lem {b} bytes len v h =
    let r = pr_encapsulate bytes len in
    let p = pr_encapsulate_lem bytes len in
    let enough : r.0 ≤ length r.1 =
      omega (arith, ap length p.1, length-le-escape (take r.0 bytes), length-take r.0 bytes, p.0) in
    let q = contents-put_part r.1 r.0 v (omega (arith, p.2)) enough in
    (
      p.0,
      omega (arith, p.2, enough),
      q.0 ∙ ap (λ xs. contents b ++ take r.0 xs) p.1,
      q.1,
      q.2,
      q.3,
      p.3,
    )

module _ (garbage : ℕ → ℕ) (bytes : List ℕ) where
  -- The bytes that the round `i` may store.
  abbrev pub allowed : ℕ → CyclicBuffer → ℕ
  allowed i b = min (garbage i) (cb_free_contiguous_space b)

  -- One round of the loop.
  abbrev pub round : ℕ → CyclicBuffer → ℕ × CyclicBuffer
  round i b = put_stuffed b bytes (allowed i b)

  rounds-stop :
      (n i encapsed : ℕ) (b : CyclicBuffer)
      → ltb (round i b).0 (cb_free_contiguous_space b) ≡ true
      → encapsulate_rounds garbage bytes (suc n) i encapsed b
        ≡ (add_size encapsed (round i b).0, (round i b).1)
  unfolding encapsulate_rounds pr_encapsulate message_length
  rounds-stop n i encapsed b e = rw e refl

  rounds-more :
      (n i encapsed : ℕ) (b : CyclicBuffer)
      → ltb (round i b).0 (cb_free_contiguous_space b) ≡ false
      → encapsulate_rounds garbage bytes (suc n) i encapsed b
        ≡ encapsulate_rounds garbage bytes n (i + 1) (add_size encapsed (round i b).0) (round i b).1
  unfolding encapsulate_rounds pr_encapsulate message_length
  rounds-more n i encapsed b e = rw e refl

  -- The last round ends the loop either way.
  rounds-last :
      (i encapsed : ℕ) (b : CyclicBuffer)
      → encapsulate_rounds garbage bytes 1 i encapsed b
        ≡ (add_size encapsed (round i b).0, (round i b).1)
  unfolding encapsulate_rounds
  rounds-last i encapsed b = elim (Bool-cases (ltb (round i b).0 (cb_free_contiguous_space b))) [
    | inl e ↦ rounds-stop 0 i encapsed b e
    | inr e ↦ rounds-more 0 i encapsed b e
  ]

  -- What the loop has done: the first round takes `first` bytes, and the second, which begins
  -- again at the first byte, takes `second`.
  pub record Stuffed (b : CyclicBuffer) (r : ℕ × CyclicBuffer) : Type 0 where
    pub first : ℕ
    pub second : ℕ
    pub total : r.0 ≡ first + second
    pub first_within : first ≤ length bytes
    pub second_within : second ≤ length bytes
    pub text : contents r.1 ≡ contents b ++ cut_text bytes first ++ cut_text bytes second
    pub greedy : first < length bytes → allowed 0 b < length (escape (take (suc first) bytes))
    pub again : second ≢ 0 → first ≡ cb_free_contiguous_space b
    pub went_on :
        first ≡ cb_free_contiguous_space b
        → second < length bytes
        → allowed 1 (round 0 b).1 < length (escape (take (suc second) bytes))
    pub valid : IsValid r.1

  pub encapsulate_rounds_lem :
      (b : CyclicBuffer) → IsValid b → Stuffed b (encapsulate_rounds garbage bytes 2 0 0 b)
  encapsulate_rounds_lem b v =
      let one = put_stuffed_lem bytes (allowed 0 b) v (omega arith) in
      elim (Bool-cases (ltb (round 0 b).0 (cb_free_contiguous_space b))) [
        | inl e ↦ rw (rounds-stop 1 0 0 b e) (record {
          first = (round 0 b).0;
          second = 0;
          total = omega (arith, one.5, one.3.count_in, one.3.small);
          first_within = one.0;
          second_within = omega arith;
          text = one.2 ∙ sym (append-nil (contents b ++ cut_text bytes (round 0 b).0));
          greedy = one.6;
          again = λ h. absurd (h refl);
          went_on = λ h. absurd (omega (arith, h, ltb→lt _ _ e));
          valid = one.3;
        })
        | inr e ↦
            let two = put_stuffed_lem bytes (allowed 1 (round 0 b).1) one.3 (omega arith) in
            rw (rounds-more 1 0 0 b e) (
              rw (rounds-last 1 (add_size 0 (round 0 b).0) (round 0 b).1) (record {
                first = (round 0 b).0;
                second = (round 1 (round 0 b).1).0;
                total = omega (arith, one.5, two.5, two.3.count_in, two.3.small);
                first_within = one.0;
                second_within = two.0;
                text = two.2 ∙ ap (λ q. q ++ cut_text bytes (round 1 (round 0 b).1).0) one.2;
                greedy = one.6;
                again = λ h. omega (arith, one.1, ltb→le _ _ e);
                went_on = λ h. two.6;
                valid = two.3;
              }))
      ]
