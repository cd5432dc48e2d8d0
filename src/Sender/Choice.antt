-- ===== src/Sender/Choice.antt =====
-- The choice goes round the clients once and takes the first that has data.
use os_unixvr4_labs.Common.{
  ℕ, zero, suc, ◌+◌, ◌-◌, ◌%◌, ◌≤◌, ◌<◌, ◌≡◌, ◌≢◌, inl, inr, refl, sym, ap, subst, ◌∙◌, true, false,
  Option, none, some, leb, arith, Bool-cases, mod-eq_of_lt, mod-eq-sub-mod, mod-lt,
}
use native.Mathlib.Decide.{ℕ_discrete}
use os_unixvr4_labs.Sender.{
  Clients, is_idle, first_place, last_place, find_waiting, chosen, next_message_client,
}
use os_unixvr4_labs.Sender.Loop.{place, StopsAt, find_waiting-StopsAt}

first_place-in :
    (this : Clients) (previous : Option ℕ)
    → this.client_count ≢ 0
    → first_place this previous < this.client_count
unfolding first_place
first_place-in this none h = omega (arith, h)
first_place-in this (some previous) h = mod-lt (previous + 1) (omega (arith, h))

first_place-place :
    (this : Clients) (start : ℕ) → start < this.client_count → place this start 0 ≡ start
first_place-place this start h =
    ap (λ k. k % this.client_count) {y = start} (omega arith) ∙ mod-eq_of_lt h

last_place-place :
    (this : Clients) (start n : ℕ)
    → this.client_count ≡ suc n
    → last_place this start ≡ place this start n
unfolding last_place
last_place-place this zero n m = sym (
    ap (λ k. k % this.client_count) {y = this.client_count - 1} (omega arith)
    ∙ mod-eq_of_lt (omega arith))
last_place-place this (suc s) n m =
    let positive : leb 1 (suc s) ≡ true = ground arith in
    rw positive (
      ap (λ k. k % this.client_count) (omega arith)
      ∙ sym (mod-eq-sub-mod {n = suc s + n} {m = this.client_count} (omega arith)))

-- Every client is on the way.
place-all :
    (this : Clients) (start j : ℕ)
    → start < this.client_count
    → j < this.client_count
    → (d : ℕ) × (d < this.client_count) × (place this start d ≡ j)
place-all this start j h l = elim (Bool-cases (leb start j)) [
  | inl e ↦
      let le : start ≤ j = ground arith in
      (
        j - start,
        omega arith,
        ap (λ k. k % this.client_count) {y = j} (omega arith) ∙ mod-eq_of_lt l,
      )
  | inr e ↦
      let lt : j < start = ground arith in
      (
        j + this.client_count - start,
        omega arith,
        ap (λ k. k % this.client_count) {y = j + this.client_count} (omega arith)
            ∙ mod-eq-sub-mod {n = j + this.client_count} {m = this.client_count} (omega arith)
            ∙ ap (λ k. k % this.client_count) {y = j} (omega arith)
            ∙ mod-eq_of_lt l,
      )
]

-- The next client to send: its place is `d` steps behind the start, all before it on the way are
-- idle, and it is not.
pub record IsNext (this : Clients) (start i : ℕ) : Type 0 where
  pub steps : ℕ
  pub in_round : steps < this.client_count
  pub at_place : i ≡ place this start steps
  pub has_data : is_idle this i ≡ false
  pub passed : (e : ℕ) → e < steps → is_idle this (place this start e) ≡ true

-- What `next_message_client` may return.
abbrev pub IsChoice : Clients → ℕ → Option ℕ → Type 0
IsChoice this start none = (j : ℕ) → j < this.client_count → is_idle this j ≡ true
IsChoice this start (some i) = IsNext this start i

chosen-data : (this : Clients) (last i : ℕ) → is_idle this i ≡ false → chosen this last i ≡ some i
unfolding chosen
chosen-data this last i w = ground arith

chosen-none :
    (this : Clients) (last i : ℕ) → i ≡ last → is_idle this i ≡ true → chosen this last i ≡ none
unfolding chosen
chosen-none this last i e w = ground arith

chosen-IsChoice :
    (this : Clients) (start n d : ℕ)
    → this.client_count ≡ suc n
    → start < this.client_count
    → StopsAt this start 0 d
    → IsChoice this start (chosen this (place this start n) (place this start d))
chosen-IsChoice this start n d m h s = elim (Bool-cases (is_idle this (place this start d))) [
  | inr w ↦
      subst (IsChoice this start)
        (sym (chosen-data this (place this start n) (place this start d) w))
        (record {
          steps = d;
          in_round = s.in_round;
          at_place = refl;
          has_data = w;
          passed = λ e l. s.passed e (omega arith) l;
        })
  | inl idle ↦
      let full : d ≡ n = elim s.reason [
        | inl e ↦ omega (arith, e)
        | inr w ↦ absurd (ground arith)
      ] in
      subst (IsChoice this start)
        (sym (
          chosen-none this (place this start n) (place this start d) (ap (place this start) full)
            idle))
        (λ j l.
          let (e, le, at) = place-all this start j h l in
          subst (λ i. is_idle this i ≡ true) at
            (elim (ℕ_discrete e d) [
              | yes q ↦ ap (λ k. is_idle this (place this start k)) q ∙ idle
              | no q ↦ s.passed e (omega arith) (omega (arith, le, q))
            ]))
]

next_message_client-found :
    (fuel : ℕ) (this : Clients) (previous : Option ℕ) (i : ℕ)
    → this.client_count ≢ 0
    → find_waiting fuel this
        (last_place this (first_place this previous))
        (first_place this previous)
      ≡ some i
    → next_message_client fuel this previous
      ≡ some (chosen this (last_place this (first_place this previous)) i)
unfolding next_message_client
next_message_client-found fuel this previous i h e = rw (e, next_message_client) (ground arith)

next_message_client-empty :
    (fuel : ℕ) (this : Clients) (previous : Option ℕ)
    → this.client_count ≡ 0
    → next_message_client fuel this previous ≡ some none
unfolding next_message_client
next_message_client-empty fuel this previous h = ground arith

-- `next_message_client` ends when its loop has as many rounds as there are clients. It goes round
-- from the place behind the previous client, or from the first place. If it returns a client, that
-- client has data, and all that it passed on the way have none; a client is returned whenever one
-- has data, since NO_ORDER means that every client's buffer is empty.
pub next_message_client_lem :
    (fuel : ℕ) (this : Clients) (previous : Option ℕ)
    → this.client_count ≤ fuel
    → (r : Option ℕ) × (next_message_client fuel this previous ≡ some r)
      × IsChoice this (first_place this previous) r
next_message_client_lem fuel this previous f = elim (ℕ_discrete this.client_count 0) [
  | yes z ↦ (none, next_message_client-empty fuel this previous z, λ j l. absurd (omega arith))
  | no nz ↦
      let start = first_place this previous in
      let n = this.client_count - 1 in
      let size : this.client_count ≡ suc n = omega (arith, nz) in
      let h = first_place-in this previous nz in
      let (d, e, s) =
        find_waiting-StopsAt this start n 0 fuel n size (omega arith) (omega (arith, size)) in
      let last = last_place-place this start n size in
      let found : find_waiting fuel this (last_place this start) start ≡ some (place this start d) =
        rw last (
          subst (λ i. find_waiting fuel this (place this start n) i ≡ some (place this start d))
            (first_place-place this start h) e) in
      (
        chosen this (place this start n) (place this start d),
        next_message_client-found fuel this previous (place this start d) nz found
            ∙ ap (λ l. some (chosen this l (place this start d))) last,
        chosen-IsChoice this start n d size h s,
      )
]
