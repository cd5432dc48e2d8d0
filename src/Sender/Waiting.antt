-- ===== src/Sender/Waiting.antt =====
-- The bytes that wait for the tunnel: each round of `fill_message` that sends a client's bytes to
-- the end leaves fewer of them.
use os_unixvr4_labs.Common.{
  ℕ, zero, suc, ◌≤◌, ◌<◌, ◌≡◌, sym, ap, ◌∙◌, arith, update, size_mod, update_self,
}
use native.Mathlib.Decide.{ℕ_discrete}
use os_unixvr4_labs.Cyclic.{CyclicBuffer, cb_shift, cb_skip}
use os_unixvr4_labs.Cyclic.Inv.{shift_fields}
use os_unixvr4_labs.Cyclic.Counts.{count-skip, count-skip_lt}
use os_unixvr4_labs.Sender.Rounds.{waiting_at}

module _ (t : ℕ → ℕ) (f : ℕ → CyclicBuffer) (id : ℕ) (b : CyclicBuffer) where
  update-le : (k : ℕ) → b.count ≤ (f id).count → (update f id b k).count ≤ (f k).count
  update-le k h = elim (ℕ_discrete k id) [
    | yes e ↦ ground (arith, ap (λ j. (f j).count) e)
    | no ne ↦ ground arith
  ]

  pub waiting-update_le :
      (n : ℕ) → b.count ≤ (f id).count → waiting_at t (update f id b) n ≤ waiting_at t f n
  unfolding waiting_at
  waiting-update_le zero h = omega arith
  waiting-update_le (suc n) h = omega (arith, waiting-update_le n h, update-le (t n) h)

  pub waiting-update_lt :
      (n i : ℕ)
      → i < n
      → t i ≡ id
      → b.count < (f id).count
      → waiting_at t (update f id b) n < waiting_at t f n
  unfolding waiting_at
  waiting-update_lt zero i l e h = absurd (omega arith)
  waiting-update_lt (suc n) i l e h = elim (ℕ_discrete i n) [
    | yes q ↦
        let here : (update f id b (t n)).count ≡ b.count =
          ap (λ k. (update f id b k).count) (ap t (sym q) ∙ e)
          ∙ ap (λ c. c.count) (update_self f id b) in
        let was : (f (t n)).count ≡ (f id).count = ap (λ k. (f k).count) (ap t (sym q) ∙ e) in
        omega (arith, here, was, waiting-update_le n (omega arith))
    | no ne ↦
        omega (arith, waiting-update_lt n i (omega (arith, ne)) e h, update-le (t n) (omega arith))
  ]

pub taken-le :
    (b : CyclicBuffer) (n : ℕ) → b.count < size_mod → (cb_skip (cb_shift b) n).count ≤ b.count
taken-le b n h =
    omega (arith, (shift_fields b).2, count-skip (cb_shift b) n (omega (arith, (shift_fields b).2)))

pub taken-lt :
    (b : CyclicBuffer) (n : ℕ)
    → b.count < size_mod
    → 0 < n
    → 0 < b.count
    → (cb_skip (cb_shift b) n).count < b.count
taken-lt b n h p q = omega (
  arith,
  (shift_fields b).2,
  count-skip_lt (cb_shift b) n (omega (arith, (shift_fields b).2)) p
      (omega (arith, (shift_fields b).2)),
)
