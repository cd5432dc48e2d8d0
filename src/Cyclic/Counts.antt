-- ===== src/Cyclic/Counts.antt =====
-- How many bytes a buffer holds, valid or not.
use os_unixvr4_labs.Common.{
  ℕ, ◌≤◌, ◌<◌, ◌≡◌, refl, Option, some, none, List, [], ◌∷◌, arith, size_mod, ◌==◌, length,
  write_at,
}
use os_unixvr4_labs.Cyclic.{
  CyclicBuffer, cb_init, cb_free, cb_empty, cb_free_space, cb_shift, cb_skip, cb_skip_right,
  cb_recv,
}
use os_unixvr4_labs.Cyclic.Inv.{shift_fields}

pub count-init : (fresh : List ℕ) (size : ℕ) → (cb_init fresh size).count ≡ 0
unfolding cb_init
count-init fresh size = refl

pub count-free : (b : CyclicBuffer) → (cb_free b).count ≡ 0
unfolding cb_free
count-free b = refl

pub cb_empty_lem : (b : CyclicBuffer) → cb_empty b ≡ (b.count == 0)
unfolding cb_empty
cb_empty_lem b = refl

pub count-skip : (b : CyclicBuffer) (n : ℕ) → b.count < size_mod → (cb_skip b n).count ≤ b.count
unfolding cb_skip
count-skip b n h = ground arith

pub count-skip_lt :
    (b : CyclicBuffer) (n : ℕ)
    → b.count < size_mod
    → 0 < n
    → 0 < b.count
    → (cb_skip b n).count < b.count
unfolding cb_skip
count-skip_lt b n h p q = ground arith

count-skip_right : (b : CyclicBuffer) (n : ℕ) → (cb_skip_right b n).count < size_mod
unfolding cb_skip_right
count-skip_right b n = ground arith

pub count-recv :
    (b : CyclicBuffer) (read : ℕ → Option (List ℕ))
    → b.count < size_mod
    → (cb_recv b read).1.count < size_mod
unfolding cb_recv
count-recv b read h = at (read (cb_free_space (cb_shift b))) refl
  where
    kept : (cb_shift b).count < size_mod
    kept = omega (arith, (shift_fields b).2)

    at :
        (r : Option (List ℕ))
        → read (cb_free_space (cb_shift b)) ≡ r
        → (cb_recv b read).1.count < size_mod
    at none e = rw (e, cb_recv) kept
    at (some []) e = rw (e, cb_recv) kept
    at (some (x ∷ xs)) e =
        rw (e, cb_recv)
          (count-skip_right
            (record (cb_shift b) { buf = write_at (cb_shift b).buf (cb_shift b).count (x ∷ xs) })
            (length (x ∷ xs)))
