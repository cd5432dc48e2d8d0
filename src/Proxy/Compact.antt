-- ===== src/Proxy/Compact.antt =====
-- lab33/lab33-proxy.c: `commit_remove` moves the clients that stay to the front.
use os_unixvr4_labs.Common.{
  ℕ, zero, suc, ◌+◌, ◌≤◌, ◌<◌, ◌≡◌, ◌≢◌, refl, sym, ap, subst, ◌∙◌, Option, none, some, ltb, true,
  false, ◌&&◌, Bool-cases, if_elim, inl, inr, ◌⊎◌, add_size, sub_size, update, arith, weight, used,
  max_object,
}
use native.Mathlib.Decide.{ℕ_discrete}
use os_unixvr4_labs.Proxy.{removed_client, swap_int, Compaction, skip_removed, compact_at}

-- The sum of a weight over the first `n` places.
unfoldable pub total : (Option ℕ → ℕ) → ℕ → (ℕ → Option ℕ) → ℕ
total w zero t = 0
total w (suc n) t = total w n t + w (t n)

pub total-update_ge :
    (w : Option ℕ → ℕ) (n : ℕ) (t : ℕ → Option ℕ) (i : ℕ) (v : Option ℕ)
    → n ≤ i
    → total w n (update t i v) ≡ total w n t
unfolding total
total-update_ge w zero t i v h = refl
total-update_ge w (suc n) t i v h = ground (arith, total-update_ge w n t i v)

pub total-update :
    (w : Option ℕ → ℕ) (n : ℕ) (t : ℕ → Option ℕ) (i : ℕ) (v : Option ℕ)
    → i < n
    → total w n (update t i v) + w (t i) ≡ total w n t + w v
unfolding total
total-update w zero t i v h = absurd (omega arith)
total-update w (suc n) t i v h = elim (ℕ_discrete i n) [
  | yes e ↦ ground (arith, total-update_ge w n t i v)
  | no ne ↦ ground (arith, total-update w n t i v)
]

-- Swapping keeps every total.
total-swap :
    (w : Option ℕ → ℕ) (n : ℕ) (t : ℕ → Option ℕ) (i j : ℕ)
    → i < n
    → j < n
    → total w n (swap_int t i j) ≡ total w n t
total-swap w n t i j h k =
    let back : update t i (t j) j ≡ t j = ground arith in
    omega (
      arith,
      total-update w n t i (t j) h,
      total-update w n (update t i (t j)) j (t i) k,
      ap w back,
    )

pub weight-le : (o : Option ℕ) → weight o ≤ 1
weight-le none = omega arith
weight-le (some id) = omega arith

pub weight-used : (o : Option ℕ) → o ≢ none → weight o ≡ 1
weight-used none h = absurd (h refl)
weight-used (some k) h = refl

pub total-le : (n : ℕ) (t : ℕ → Option ℕ) → total weight n t ≤ n
unfolding total
total-le zero t = omega arith
total-le (suc n) t = omega (arith, total-le n t, weight-le (t n))

-- The places are in use when so many are in use among them.
pub total-full : (n : ℕ) (t : ℕ → Option ℕ) → total weight n t ≡ n → (k : ℕ) → k < n → t k ≢ none
unfolding total
total-full zero t e k h = absurd (omega arith)
total-full (suc n) t e k h = elim (ℕ_discrete k n) [
  | yes same ↦ λ empty. ground (arith, total-le n t, ap t same)
  | no other ↦ total-full n t (omega (arith, total-le n t, weight-le (t n), e)) k (omega arith)
]

-- Places that hold nothing add nothing.
pub total-empty :
    (w : Option ℕ → ℕ) (m n : ℕ) (t : ℕ → Option ℕ)
    → w none ≡ 0
    → ((k : ℕ) → m ≤ k → k < n → t k ≡ none)
    → m ≤ n
    → total w n t ≡ total w m t
unfolding total
total-empty w m zero t z h l = ap (λ k. total w k t) {x = 0} (omega arith)
total-empty w m (suc n) t z h l = elim (ℕ_discrete m (suc n)) [
  | yes e ↦ ap (λ k. total w k t) {y = m} (sym e)
  | no ne ↦ omega (
    arith,
    total-empty w m n t z (λ k a b. h k a (omega arith)) (omega arith),
    ap w (h n (omega arith) (omega arith)),
  )
]

-- The loops among the first `n` places of a table with as much in use as `before`: all places
-- before `i` are in use, none behind `j` is, and `removed` counts the latter. Once `removed` is
-- `n`, `j` has passed 0.
pub record IsCompaction (n : ℕ) (before : ℕ → Option ℕ) (s : Compaction) (i : ℕ) : Type 0 where
  pub same : (w : Option ℕ → ℕ) → total w n s.table ≡ total w n before
  pub front : (k : ℕ) → k < i → k + s.removed < n → s.table k ≢ none
  pub back : (k : ℕ) → n ≤ k + s.removed → k < n → s.table k ≡ none
  pub place : (s.removed < n) × (s.j + s.removed + 1 ≡ n) ⊎ (s.removed ≡ n)

-- What the inner loop leaves, its place and its count.
pub record IsSkipped (n : ℕ) (t : ℕ → Option ℕ) (i : ℕ) (z : ℕ × ℕ) : Type 0 where
  pub above : i ≤ z.0
  pub place : z.0 + z.1 + 1 ≡ n
  pub back : (k : ℕ) → n ≤ k + z.1 → k < n → t k ≡ none
  pub stop : (t z.0 ≢ none) ⊎ (z.0 ≡ i)

some-removed : (o : Option ℕ) → removed_client o ≡ true → o ≡ none
some-removed none h = refl
some-removed (some id) h = absurd (ground arith)

not-removed : (o : Option ℕ) → removed_client o ≡ false → o ≢ none
not-removed none h = absurd (ground arith)
not-removed (some id) h = λ e. absurd (ground arith)

skip_removed_lem :
    (n : ℕ) (t : ℕ → Option ℕ) (i j removed : ℕ)
    → n < max_object
    → i ≤ j
    → j + removed + 1 ≡ n
    → ((k : ℕ) → n ≤ k + removed → k < n → t k ≡ none)
    → IsSkipped n t i (skip_removed t i j removed)
unfolding skip_removed
skip_removed_lem n t i zero removed small h e back = record {
  above = h;
  place = e;
  back = back;
  stop = inr (omega arith);
}
skip_removed_lem n t i (suc j) removed small h e back =
    if_elim (IsSkipped n t i) (removed_client (t (suc j)) && ltb i (suc j)) _ _
      (λ c.
        let one : add_size removed 1 ≡ removed + 1 = omega arith in
        subst (λ r. IsSkipped n t i (skip_removed t i j r)) (sym one)
          (skip_removed_lem n t i j (removed + 1) small (ground arith) (omega arith) (λ k a b.
            elim (ℕ_discrete k (suc j)) [
              | yes same ↦ ap t same ∙ some-removed (t (suc j)) (ground arith)
              | no other ↦ back k (omega arith) b
            ])))
      (λ c. record {
        above = h;
        place = e;
        back = back;
        stop = elim (Bool-cases (removed_client (t (suc j)))) [
          | inl r ↦ inr (ground arith)
          | inr r ↦ inl (not-removed (t (suc j)) r)
        ];
      })

pub compact_at-IsCompaction :
    (n : ℕ) (before : ℕ → Option ℕ) (s : Compaction) (i : ℕ)
    → n < max_object
    → i < s.j
    → s.removed < n
    → IsCompaction n before s i
    → IsCompaction n before (compact_at s i) (suc i)
unfolding compact_at
compact_at-IsCompaction n before s i small h k v =
    let at : s.j + s.removed + 1 ≡ n = elim (v.place) [
      | inl (a, b) ↦ b
      | inr e ↦ absurd (omega arith)
    ] in
    let d = skip_removed_lem n s.table i s.j s.removed small (omega arith) at v.back in
    if_elim (λ z. IsCompaction n before z (suc i)) (removed_client (s.table i)) _ _
      (λ c.
        moved (skip_removed s.table i s.j s.removed).0 (skip_removed s.table i s.j s.removed).1 at d
          c)
      (λ c. record {
        same = v.same;
        front = λ q a b. elim (ℕ_discrete q i) [
          | yes e ↦ λ z. not-removed (s.table i) c (ap s.table (sym e) ∙ z)
          | no e ↦ v.front q (omega arith) b
        ];
        back = v.back;
        place = v.place;
      })
  where
    moved :
        (j removed : ℕ)
        → s.j + s.removed + 1 ≡ n
        → IsSkipped n s.table i (j, removed)
        → removed_client (s.table i) ≡ true
        → IsCompaction n before
            (record {
              table = swap_int s.table i j;
              j = sub_size j 1;
              removed = add_size removed 1;
            })
            (suc i)
    moved j removed at d c =
        let one : add_size removed 1 ≡ removed + 1 = omega (arith, d.place) in
        let empty = some-removed (s.table i) c in
        let swap_left : (q : ℕ) → q ≡ i → swap_int s.table i j q ≡ s.table j =
          λ q e. ground arith in
        let swap_right : (q : ℕ) → q ≡ j → swap_int s.table i j q ≡ s.table i =
          λ q e. ground arith in
        let swap_other : (q : ℕ) → q ≢ i → q ≢ j → swap_int s.table i j q ≡ s.table q =
          λ q e f. ground arith in
        record {
          same = λ w.
              total-swap w n s.table i j (omega (arith, d.place, d.above)) (omega (arith, d.place))
              ∙ v.same w;
          front = λ q a b. elim (ℕ_discrete q i) [
            | yes e ↦ λ z. elim (d.stop) [
              | inl used ↦ used (sym (swap_left q e) ∙ z)
              | inr same ↦ absurd (omega (arith, one, d.place))
            ]
            | no e ↦ λ z.
                v.front q (omega arith) (omega (arith, one, d.place, d.above))
                  (sym (swap_other q e (λ f. absurd (omega (arith, one, d.place)))) ∙ z)
          ];
          back = λ q a b. elim (ℕ_discrete q j) [
            | yes e ↦ swap_right q e ∙ empty
            | no e ↦
                swap_other q (λ f. absurd (omega (arith, one, d.place, d.above))) e
                ∙ d.back q (omega (arith, one, d.place)) b
          ];
          place = ground (arith, d.place);
        }
