-- ===== src/Sender/Loop.antt =====
-- The loop of `next_message_client`.
use os_unixvr4_labs.Common.{
  ℕ, zero, suc, ◌+◌, ◌%◌, ◌≤◌, ◌<◌, ◌≡◌, ◌≢◌, ◌⊎◌, inl, inr, refl, ap, ◌∙◌, true, false, some, ◌==◌,
  arith, Bool-cases, mod-ne_of_near, mod-add-mod,
}
use native.Mathlib.Decide.{ℕ_discrete}
use os_unixvr4_labs.Sender.{Clients, is_idle, find_waiting}

-- The place that is `d` steps behind `start` on the way round.
abbrev pub place : Clients → ℕ → ℕ → ℕ
place this start d = (start + d) % this.client_count

-- Where the loop stops: `d` is the number of steps.
pub record StopsAt (this : Clients) (start from d : ℕ) : Type 0 where
  pub later : from ≤ d
  pub in_round : d < this.client_count
  pub passed : (e : ℕ) → from ≤ e → e < d → is_idle this (place this start e) ≡ true
  pub reason : (suc d ≡ this.client_count) ⊎ (is_idle this (place this start d) ≡ false)

places-differ :
    (this : Clients) (start d e : ℕ)
    → d < e
    → e < this.client_count
    → (place this start d == place this start e) ≡ false
places-differ this start d e l h =
    let ne : place this start d ≢ place this start e =
      mod-ne_of_near (start + d) (start + e) this.client_count (omega arith) (omega arith) in
    ground arith

next_place :
    (this : Clients) (start d : ℕ)
    → (place this start d + 1) % this.client_count ≡ place this start (suc d)
next_place this start d =
    mod-add-mod (start + d) this.client_count 1 ∙ ap (λ k. k % this.client_count) (omega arith)

find_waiting-end :
    (fuel : ℕ) (this : Clients) (last i : ℕ)
    → (i == last) ≡ true
    → find_waiting (suc fuel) this last i ≡ some i
unfolding find_waiting
find_waiting-end fuel this last i e = rw (e, find_waiting) refl

find_waiting-here :
    (fuel : ℕ) (this : Clients) (last i : ℕ)
    → (i == last) ≡ false
    → is_idle this i ≡ false
    → find_waiting (suc fuel) this last i ≡ some i
unfolding find_waiting
find_waiting-here fuel this last i e w = rw (e, find_waiting) (rw w refl)

find_waiting-on :
    (fuel : ℕ) (this : Clients) (last i : ℕ)
    → (i == last) ≡ false
    → is_idle this i ≡ true
    → find_waiting (suc fuel) this last i
      ≡ find_waiting fuel this last ((i + 1) % this.client_count)
unfolding find_waiting
find_waiting-on fuel this last i e w = rw (e, find_waiting) (rw w refl)

pub find_waiting-StopsAt :
    (this : Clients) (start k d fuel n : ℕ)
    → this.client_count ≡ suc n
    → d + k ≡ n
    → k < fuel
    → (d' : ℕ) × (find_waiting fuel this (place this start n) (place this start d)
        ≡ some (place this start d'))
      × StopsAt this start d d'
find_waiting-StopsAt this start k d zero n m h l = absurd (omega arith)
find_waiting-StopsAt this start zero d (suc fuel) n m h l =
    let same : d ≡ n = omega arith in
    (
      d,
      find_waiting-end fuel this (place this start n) (place this start d) (ground arith),
      record {
        later = omega arith;
        in_round = omega arith;
        passed = λ e l h. absurd (omega arith);
        reason = inl (omega arith);
      },
    )
find_waiting-StopsAt this start (suc k) d (suc fuel) n m h l =
    let differs = places-differ this start d n (omega arith) (omega arith) in
    elim (Bool-cases (is_idle this (place this start d))) [
      | inr w ↦ (
        d,
        find_waiting-here fuel this (place this start n) (place this start d) differs w,
        record {
          later = omega arith;
          in_round = omega arith;
          passed = λ e l h. absurd (omega arith);
          reason = inr w;
        },
      )
      | inl w ↦
          let (d', e, s) =
            find_waiting-StopsAt this start k (suc d) fuel n m (omega arith) (omega arith) in
          (
            d',
            find_waiting-on fuel this (place this start n) (place this start d) differs w
                ∙ ap (find_waiting fuel this (place this start n)) (next_place this start d)
                ∙ e,
            record {
              later = omega (arith, s.later);
              in_round = s.in_round;
              passed = λ e l h. elim (ℕ_discrete e d) [
                | yes q ↦ rw q w
                | no q ↦ s.passed e (omega arith) h
              ];
              reason = s.reason;
            },
          )
    ]
