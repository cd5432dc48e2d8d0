-- ===== src/Server/Table.antt =====
-- The two tables of the server are inverse to one another, and number the clients without gaps.
use os_unixvr4_labs.Common.{
  ℕ, zero, suc, ◌+◌, ◌≤◌, ◌<◌, ◌≡◌, ◌≢◌, ap, Option, some, none, arith, update, weight, used,
  used-update, used-le, used-none, Option-cases, inl, inr,
}
use native.Mathlib.Decide.{ℕ_discrete}
use os_unixvr4_labs.Server.{Server, max_clients, first_free}

-- Tables for at most `limit` clients.
pub record IsTable (limit count : ℕ) (id_table index_to_id : ℕ → Option ℕ) : Type 0 where
  pub counted : used limit id_table ≡ count
  pub placed :
      (id i : ℕ) → id_table id ≡ some i → (id < limit) × (i < count) × (index_to_id i ≡ some id)
  pub numbered : (i id : ℕ) → index_to_id i ≡ some id → id_table id ≡ some i
  pub filled : (i : ℕ) → i < count → index_to_id i ≢ none

abbrev pub IsServer : Server → Type 0
IsServer s = IsTable max_clients s.client_count s.id_table s.index_to_id

pub count-le : {limit count : ℕ} {t x : ℕ → Option ℕ} → IsTable limit count t x → count ≤ limit
count-le {limit} {t} v = omega (arith, v.counted, used-le limit t)

-- What `next_id` finds.
pub first_free-none :
    (t : ℕ → Option ℕ) (i rounds : ℕ)
    → first_free t i rounds ≡ none
    → (j : ℕ) → i ≤ j
    → j < i + rounds
    → t j ≢ none
unfolding first_free
first_free-none t i zero e j l u = absurd (omega arith)
first_free-none t i (suc rounds) e j l u = elim (Option-cases (t i)) [
  | inl free ↦ absurd (ground arith)
  | inr (index, at) ↦ elim (ℕ_discrete i j) [
    | yes same ↦ λ none_at. ground arith
    | no other ↦ first_free-none t (i + 1) rounds (ground arith) j (omega arith) (omega arith)
  ]
]

pub first_free-some :
    (t : ℕ → Option ℕ) (i rounds k : ℕ)
    → first_free t i rounds ≡ some k
    → (t k ≡ none) × (i ≤ k) × (k < i + rounds)
unfolding first_free
first_free-some t i zero k e = cc
first_free-some t i (suc rounds) k e = ground (arith, first_free-some t (i + 1) rounds k)

-- A new number and the next place keep the tables.
pub add-IsTable :
    (limit count id : ℕ) (t x : ℕ → Option ℕ)
    → t id ≡ none
    → id < limit
    → IsTable limit count t x
    → IsTable limit (suc count) (update t id (some count)) (update x count (some id))
add-IsTable limit count id t x free l v = record {
  counted = omega (arith, used-update limit t id (some count) l, v.counted, ap weight free);
  placed = λ id' i e. ground (arith, v.placed id' i);
  numbered = λ i id' e. ground (arith, v.numbered i id');
  filled = λ i h. ground (arith, v.filled i);
}

-- The last client moved to the place of the one removed keeps the tables.
pub remove-IsTable :
    (limit count id i last : ℕ) (t x : ℕ → Option ℕ)
    → t id ≡ some i
    → x count ≡ some last
    → IsTable limit (suc count) t x
    → IsTable limit count
        (update (update t last (some i)) id none)
        (update (update x i (some last)) count none)
remove-IsTable limit count id i last t x p q v = record {
  counted = ground (
    arith,
    used-update limit t last (some i),
    used-update limit (update t last (some i)) id none,
    v.placed id i p,
    v.numbered count last q,
    v.placed last count (v.numbered count last q),
    v.counted,
  );
  placed = λ id' i' e. ground (
    arith,
    v.placed id i p,
    v.placed id' i',
    v.numbered count last q,
    v.placed last count (v.numbered count last q),
  );
  numbered =
      λ i' id' e. ground (arith, v.placed id i p, v.numbered i' id', v.numbered count last q);
  filled = λ i' h. ground (arith, v.filled i' (omega arith));
}

-- The only client removed.
pub remove-last-IsTable :
    (limit id i : ℕ) (t x : ℕ → Option ℕ)
    → t id ≡ some i
    → IsTable limit 1 t x
    → IsTable limit 0 (update t id none) (update x 0 none)
remove-last-IsTable limit id i t x e v = record {
  counted = ground (arith, used-update limit t id none, v.counted, v.placed id i e);
  placed = λ id' i' e'. ground (arith, v.placed id i e, v.placed id' i');
  numbered = λ i' id' e'. ground (arith, v.numbered i' id', v.placed id i e);
  filled = λ i' h. absurd (omega (arith, h));
}

-- Tables without clients.
pub empty-IsTable : (limit : ℕ) → IsTable limit 0 (λ id. none) (λ index. none)
empty-IsTable limit = record {
  counted = used-none limit;
  placed = λ id i q. absurd (ground arith);
  numbered = λ i id q. absurd (ground arith);
  filled = λ i h. absurd (omega (arith, h));
}
