-- ===== src/Cyclic/Inv.antt =====
-- The representation invariant of CyclicBuffer, and that each function keeps it.
use os_unixvr4_labs.Common.{
  ℕ, zero, suc, ◌+◌, ◌%◌, ◌≤◌, ◌<◌, ◌≡◌, refl, ◌∙◌, List, [], ◌∷◌, Option, none, some, arith,
  get_or, set, write_at, length, length-set, length-write_at, max_object, add_size,
}
use os_unixvr4_labs.Cyclic.{
  CyclicBuffer, cb_init, cb_free_space, shift_loop, cb_shift, cb_skip, cb_skip_right, cb_putc,
  cb_getc, cb_clear, cb_recv, cb_send, shift_to_send,
}

pub record IsValid (b : CyclicBuffer) : Type 0 where
  pub storage : b.size ≤ length b.buf
  pub small : b.size ≤ max_object
  pub nonempty : 0 < b.size
  pub start_in : b.start < b.size
  pub count_in : b.count ≤ b.size

-- What read(2) and write(2) promise: they transfer at most what they are asked to.
unfoldable pub ReadsAtMost : (ℕ → Option (List ℕ)) → Type 0
ReadsAtMost read = (n : ℕ) (bytes : List ℕ) → read n ≡ some bytes → length bytes ≤ n

pub init-IsValid :
    (fresh : List ℕ) (size : ℕ)
    → 0 < size
    → size ≤ max_object
    → size ≤ length fresh
    → IsValid (cb_init fresh size)
unfolding cb_init
init-IsValid fresh size h m l = omega arith

pub free_space-add-count : {b : CyclicBuffer} → IsValid b → cb_free_space b + b.count ≡ b.size
unfolding cb_free_space
free_space-add-count v = omega arith

length-shift_loop :
    (old : List ℕ) (start size i rounds : ℕ) (buf : List ℕ)
    → length (shift_loop old start size i rounds buf) ≡ length buf
unfolding shift_loop
length-shift_loop old start size i zero buf = refl
length-shift_loop old start size i (suc rounds) buf =
    length-shift_loop old start size (i + 1) rounds
      (set buf i (get_or old (add_size start i % size) 0))
    ∙ length-set buf i (get_or old (add_size start i % size) 0)

-- The shift keeps all but the array and the start, which it makes 0.
pub shift_fields :
    (b : CyclicBuffer)
    → (length (cb_shift b).buf ≡ length b.buf)
      × ((cb_shift b).size ≡ b.size)
      × ((cb_shift b).count ≡ b.count)
      × ((cb_shift b).start ≡ 0)
unfolding cb_shift
shift_fields b = ground (arith, length-shift_loop b.buf b.start b.size 0 b.count b.buf)

pub shift-IsValid : {b : CyclicBuffer} → IsValid b → IsValid (cb_shift b)
shift-IsValid {b} v = ground (arith, shift_fields b)

pub skip-IsValid : {b : CyclicBuffer} (n : ℕ) → IsValid b → IsValid (cb_skip b n)
unfolding cb_skip
skip-IsValid {b} n v = ground arith

-- `cb_skip_right` takes what fits.
pub skip_right_count :
    {b : CyclicBuffer} (n : ℕ)
    → IsValid b
    → n ≤ cb_free_space b
    → (cb_skip_right b n) ≡ record b { count = b.count + n }
unfolding cb_skip_right cb_free_space
skip_right_count {b} n v h = ground arith

pub putc-IsValid : {b : CyclicBuffer} (c : ℕ) → IsValid b → IsValid (cb_putc b c).1
unfolding cb_putc
putc-IsValid {b} c v = ground (arith, length-set b.buf (add_size b.start b.count % b.size) c)

pub getc-IsValid : {b : CyclicBuffer} → IsValid b → IsValid (cb_getc b).1
unfolding cb_getc
getc-IsValid {b} v = ground arith

pub clear-IsValid : {b : CyclicBuffer} → IsValid b → IsValid (cb_clear b)
unfolding cb_clear
clear-IsValid v = omega arith

-- A block of at most the free space is put behind the bytes, with the array written anywhere.
pub put_block-IsValid :
    {b : CyclicBuffer} (i : ℕ) (xs : List ℕ)
    → IsValid b
    → length xs ≤ cb_free_space b
    → IsValid (cb_skip_right (record b { buf = write_at b.buf i xs }) (length xs))
unfolding cb_skip_right cb_free_space
put_block-IsValid {b} i xs v h = ground (arith, length-write_at b.buf i xs)

pub recv-IsValid :
    {b : CyclicBuffer} (read : ℕ → Option (List ℕ))
    → ReadsAtMost read
    → IsValid b
    → IsValid (cb_recv b read).1
unfolding cb_recv ReadsAtMost
recv-IsValid {b} read ok v = at (read (cb_free_space (cb_shift b))) refl
  where
    at : (r : Option (List ℕ)) → read (cb_free_space (cb_shift b)) ≡ r → IsValid (cb_recv b read).1
    at none e = rw (e, cb_recv) (shift-IsValid v)
    at (some []) e = rw (e, cb_recv) (shift-IsValid v)
    at (some (x ∷ xs)) e =
        rw (e, cb_recv)
          (put_block-IsValid (cb_shift b).count (x ∷ xs) (shift-IsValid v) (ok _ (x ∷ xs) e))

pub shift_to_send-IsValid : {b : CyclicBuffer} → IsValid b → IsValid (shift_to_send b)
unfolding shift_to_send
shift_to_send-IsValid {b} v = ground (arith, shift-IsValid v)

pub send-IsValid :
    {b : CyclicBuffer} (write : List ℕ → Option ℕ) → IsValid b → IsValid (cb_send b write).1
unfolding cb_send
send-IsValid {b} write v =
    ground (arith, shift_to_send-IsValid v, λ (n : ℕ). skip-IsValid n (shift_to_send-IsValid v))

-- The size never changes.
pub size-skip_right : (b : CyclicBuffer) (n : ℕ) → (cb_skip_right b n).size ≡ b.size
unfolding cb_skip_right
size-skip_right b n = refl

pub size-skip : (b : CyclicBuffer) (n : ℕ) → (cb_skip b n).size ≡ b.size
unfolding cb_skip
size-skip b n = refl

pub size-shift_to_send : (b : CyclicBuffer) → (shift_to_send b).size ≡ b.size
unfolding shift_to_send
size-shift_to_send b = ground (arith, shift_fields b)

pub size-putc : (b : CyclicBuffer) (c : ℕ) → (cb_putc b c).1.size ≡ b.size
unfolding cb_putc
size-putc b c = ground arith

pub size-getc : (b : CyclicBuffer) → (cb_getc b).1.size ≡ b.size
unfolding cb_getc
size-getc b = ground arith
