-- ===== src/Proxy/Commit.antt =====
-- lab33/lab33-proxy.c: what `commit_remove` leaves in the table of clients.
use os_unixvr4_labs.Common.{
  ℕ, zero, suc, ◌+◌, ◌-◌, ◌≤◌, ◌<◌, ◌≡◌, ◌≢◌, refl, sym, ap, subst, ◌∙◌, Option, none, some, ltb,
  false, ◌&&◌, Bool-cases, inl, inr, sub_size, arith, weight, Option-cases, max_object,
}
use native.Mathlib.Decide.{ℕ_discrete}
use os_unixvr4_labs.Proxy.{Compaction, compact_at, compact_from, Clients, commit_remove, committed}
use os_unixvr4_labs.Proxy.Compact.{
  total, total-le, total-full, total-empty, IsCompaction, compact_at-IsCompaction,
}

pub total-used : (n : ℕ) (t : ℕ → Option ℕ) → ((k : ℕ) → k < n → t k ≢ none) → total weight n t ≡ n
unfolding total
total-used zero t h = refl
total-used (suc n) t h =
    let rest = total-used n t (λ k l. h k (omega arith)) in
    elim (Option-cases (t n)) [
      | inl e ↦ absurd (h n (omega arith) e)
      | inr (id, e) ↦ omega (arith, rest, ap weight e)
    ]

pub total-next :
    (w : Option ℕ → ℕ) (n : ℕ) (t : ℕ → Option ℕ) → total w (suc n) t ≡ total w n t + w (t n)
unfolding total
total-next w n t = refl

-- A table whose first `m` places are in use, the others below `n` are free, and that holds what
-- `before` held.
pub record IsCompact (n m : ℕ) (before t : ℕ → Option ℕ) : Type 0 where
  pub same : (w : Option ℕ → ℕ) → total w n t ≡ total w n before
  pub front : (k : ℕ) → k < m → t k ≢ none
  pub back : (k : ℕ) → m ≤ k → k < n → t k ≡ none

module _ (n removed_count : ℕ) (before : ℕ → Option ℕ) where
  behind :
      (s : Compaction) (i : ℕ)
      → total weight n before + removed_count ≡ n
      → (ltb i s.j && ltb s.removed removed_count) ≡ false
      → IsCompaction n before s i
      → IsCompact n (n - removed_count) before s.table
  behind s i counted stop v = elim (ℕ_discrete s.removed removed_count) [
    | yes e ↦ exact e
    | no ne ↦ elim (v.place) [
      | inl (a, b) ↦ short b (omega (arith, fewer, ne)) (ground (arith, fewer))
      | inr e ↦ absurd (omega (arith, fewer, ne))
    ]
  ]
    where
      inside : total weight n s.table ≡ total weight (n - s.removed) s.table
      inside =
          total-empty weight (n - s.removed) n s.table refl (λ k p q. v.back k (omega arith) q)
            (omega arith)

      fewer : s.removed ≤ removed_count
      fewer = omega (arith, inside, total-le (n - s.removed) s.table, v.same weight, v.place)

      exact : s.removed ≡ removed_count → IsCompact n (n - removed_count) before s.table
      exact e = record {
        same = v.same;
        front =
            total-full (n - removed_count) s.table (
              ap (λ r. total weight (n - r) s.table) (sym e)
              ∙ omega (arith, inside, v.same weight));
        back = λ k p q. v.back k (omega arith) q;
      }

      short :
          s.j + s.removed + 1 ≡ n
          → s.removed < removed_count
          → s.j ≤ i
          → IsCompact n (n - removed_count) before s.table
      short at less over =
          let used = total-used s.j s.table (λ k l. v.front k (omega arith) (omega arith)) in
          let whole : total weight n s.table ≡ total weight s.j s.table + weight (s.table s.j) =
            inside
            ∙ ap (λ m. total weight m s.table) {y = suc s.j} (omega arith)
            ∙ total-next weight s.j s.table in
          let none_at : s.table s.j ≡ none = elim (Option-cases (s.table s.j)) [
            | inl e ↦ e
            | inr (id, e) ↦ absurd (omega (arith, used, whole, ap weight e, v.same weight))
          ] in
          let last : n - removed_count ≡ s.j =
            omega (arith, used, whole, ap weight none_at, v.same weight) in
          record {
            same = v.same;
            front = λ k l. v.front k (omega (arith, last)) (omega (arith, last));
            back = λ k p q. elim (ℕ_discrete k s.j) [
              | yes e ↦ ap s.table e ∙ none_at
              | no ne ↦ v.back k (omega (arith, last)) q
            ];
          }

  pub compact_from_lem :
      (fuel : ℕ) (s : Compaction) (i : ℕ)
      → n < max_object
      → n < i + fuel
      → i ≤ n
      → total weight n before + removed_count ≡ n
      → IsCompaction n before s i
      → (end : Compaction) × (compact_from fuel removed_count s i ≡ some end)
        × IsCompact n (n - removed_count) before end.table
  unfolding compact_from
  compact_from_lem zero s i small room low counted v = absurd (omega arith)
  compact_from_lem (suc fuel) s i small room low counted v =
      elim (Bool-cases (ltb i s.j && ltb s.removed removed_count)) [
        | inl c ↦
            let c' : i < s.j = ground arith in
            let d' : s.removed < removed_count = ground arith in
            let (end, e, g) =
              compact_from_lem fuel (compact_at s i) (suc i) small (omega arith)
                (omega (arith, v.place, c', d')) counted
                (compact_at-IsCompaction n before s i small c' (ground arith) v) in
            (end, rw c e, g)
        | inr c ↦ (s, rw c refl, behind s i counted c v)
      ]

-- `commit_remove` on a table of less than PTRDIFF_MAX clients, of which `removed_count` are marked
-- as removed: its loops end, and it leaves the clients that are not marked, each as often as
-- before, at the front of the table, and counts them.
pub commit_remove_lem :
    (this : Clients)
    → this.client_count < max_object
    → total weight this.client_count this.id_table + this.removed_count ≡ this.client_count
    → (end : Clients) × (commit_remove this ≡ some end)
      × IsCompact this.client_count end.client_count this.id_table end.id_table
      × (end.client_count ≡ total weight this.client_count this.id_table)
      × (end.removed_count ≡ 0)
unfolding commit_remove committed
commit_remove_lem this small counted =
    let (end, e, compact) =
      compact_from_lem this.client_count this.removed_count this.id_table (suc this.client_count)
        start 0 small (omega arith) (omega arith) counted begin in
    let left : sub_size this.client_count this.removed_count
        ≡ this.client_count - this.removed_count =
      omega arith in
    (
      record {
        id_table = end.table;
        client_count = sub_size this.client_count this.removed_count;
        removed_count = 0;
      },
      ap (committed this) e,
      subst (λ m. IsCompact this.client_count m this.id_table end.table) (sym left) compact,
      omega arith,
      refl,
    )
  where
    start : Compaction
    start = record { table = this.id_table; j = sub_size this.client_count 1; removed = 0 }

    begin : IsCompaction this.client_count this.id_table start 0
    begin = record {
      same = λ w. refl;
      front = λ k a b. absurd (omega arith);
      back = λ k a b. absurd (omega arith);
      place = ground arith;
    }
