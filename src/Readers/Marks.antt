-- ===== src/Readers/Marks.antt =====
-- lab31/lab31-server.c: clients that are marked as removed, and what the commit leaves.
use os_unixvr4_labs.Common.{
  ℕ, suc, ◌+◌, ◌-◌, ◌≤◌, ◌<◌, ◌≡◌, ◌≢◌, refl, sym, ap, subst, ◌∙◌, none, some, update, update_ne,
  sub_size, arith, inl, inr, weight, max_object, Bool-cases, ◌==◌, ◌||◌,
}
use native.Mathlib.Decide.{ℕ_discrete}
use os_unixvr4_labs.Proxy.{Compaction}
use os_unixvr4_labs.Proxy.Compact.{total, total-update, total-full, weight-used, IsCompaction}
use os_unixvr4_labs.Proxy.Commit.{IsCompact, compact_from_lem}
use os_unixvr4_labs.Readers.{Server, Outcome, lower_first, mark, committed, commit_remove_clients}

-- A server in the course of `try_read`: it counts the marked places, the listener is not one of
-- them, and `first_client_to_remove` is the first, or 0 if there is none.
pub record IsMarked (this : Server) : Type 0 where
  pub counted :
      total weight this.client_count this.fds + this.clients_to_remove_count ≡ this.client_count
  pub listener : (0 < this.client_count) × (this.fds 0 ≢ none)
  pub before_first : (k : ℕ) → k < this.first_client_to_remove → this.fds k ≢ none
  pub first_in : this.first_client_to_remove < this.client_count
  pub no_first :
      (this.first_client_to_remove ≡ 0 → this.clients_to_remove_count ≡ 0)
      × (this.clients_to_remove_count ≡ 0 → this.first_client_to_remove ≡ 0)
  pub small : this.client_count < max_object

-- Between two calls of `try_read`.
pub record IsRested (this : Server) : Type 0 where
  pub used : (k : ℕ) → k < this.client_count → this.fds k ≢ none
  pub listener : 0 < this.client_count
  pub none_marked : this.clients_to_remove_count ≡ 0
  pub no_first : this.first_client_to_remove ≡ 0
  pub small : this.client_count < max_object

-- What the commit makes of the array.
pub record IsCommitted (this end : Server) : Type 0 where
  pub rested : IsRested end
  pub shorter : end.client_count ≤ this.client_count
  pub compact : IsCompact this.client_count end.client_count this.fds end.fds

pub commit_lem :
    (this : Server)
    → IsMarked this
    → (end : Server) × (commit_remove_clients this ≡ some end) × IsCommitted this end
unfolding commit_remove_clients committed
commit_lem this v =
    elim (Bool-cases ((this.clients_to_remove_count == 0) || (this.first_client_to_remove == 0))) [
      | inl e ↦
          let unmarked : this.clients_to_remove_count ≡ 0 = ground (arith, v.no_first) in
          let used = total-full this.client_count this.fds (omega (arith, v.counted, unmarked)) in
          (
            this,
            rw e refl,
            record {
              rested = record {
                used = used;
                listener = v.listener.0;
                none_marked = unmarked;
                no_first = v.no_first.1 unmarked;
                small = v.small;
              };
              shorter = omega arith;
              compact = record {
                same = λ w. refl;
                front = used;
                back = λ k a b. absurd (omega (arith, a, b));
              };
            },
          )
      | inr e ↦
          let (s, r, c) =
            compact_from_lem this.client_count this.clients_to_remove_count this.fds
              (suc this.client_count) start this.first_client_to_remove v.small (omega arith)
              (omega (arith, v.first_in)) v.counted begin in
          (
            rest s,
            rw e (ap (committed this) r),
            record {
              rested = record {
                used = λ k l. c.front k (omega (arith, l, shorter));
                listener = omega (arith, shorter, some_left);
                none_marked = refl;
                no_first = refl;
                small = omega (arith, shorter, v.small);
              };
              shorter = omega (arith, shorter);
              compact = subst (λ m. IsCompact this.client_count m this.fds s.table) (sym shorter) c;
            },
          )
    ]
  where
    start : Compaction
    start = record { table = this.fds; j = sub_size this.client_count 1; removed = 0 }

    rest : Compaction → Server
    rest s = record this {
      fds = s.table;
      client_count = sub_size this.client_count this.clients_to_remove_count;
      clients_to_remove_count = 0;
      first_client_to_remove = 0;
    }

    shorter :
        sub_size this.client_count this.clients_to_remove_count
        ≡ this.client_count - this.clients_to_remove_count
    shorter = omega (arith, v.counted, v.small)

    some_left : this.clients_to_remove_count < this.client_count
    some_left = omega (
      arith,
      v.counted,
      total-update weight this.client_count this.fds 0 none (v.listener.0),
      weight-used (this.fds 0) (v.listener.1),
    )

    begin : IsCompaction this.client_count this.fds start this.first_client_to_remove
    begin = record {
      same = λ w. refl;
      front = λ k a b. v.before_first k a;
      back = λ k a b. absurd (omega (arith, a, b));
      place = inl (v.listener.0, omega (arith, v.listener.0, v.small));
    }

-- A place is marked.
pub mark-IsMarked :
    (this : Outcome) (i fd : ℕ)
    → IsMarked this.server
    → 0 < i
    → i < this.server.client_count
    → this.server.fds i ≡ some fd
    → IsMarked (mark this i (some fd)).server
unfolding mark lower_first
mark-IsMarked this i fd v a b e = record {
  counted = omega (arith, v.counted, change, v.small, ap weight e);
  listener = (
    v.listener.0,
    λ z. v.listener.1 (sym (update_ne this.server.fds i 0 none (λ q. absurd (omega arith))) ∙ z),
  );
  before_first =
      λ k l z. before k l (sym (update_ne this.server.fds i k none (λ q. absurd (low k l q))) ∙ z);
  first_in = ground (arith, v.first_in);
  no_first = (
    λ q. absurd (ground arith),
    λ q. absurd (omega (arith, q, change, v.counted, v.small, ap weight e)),
  );
  small = v.small;
}
  where
    change :
        total weight this.server.client_count (update this.server.fds i none)
          + weight (this.server.fds i)
        ≡ total weight this.server.client_count this.server.fds + 0
    change = total-update weight this.server.client_count this.server.fds i none b

    low : (k : ℕ) → k < lower_first this.server.first_client_to_remove i → i ≢ k
    low k l = ground arith

    before :
        (k : ℕ) → k < lower_first this.server.first_client_to_remove i → this.server.fds k ≢ none
    before k l = elim (ℕ_discrete this.server.first_client_to_remove 0) [
      | yes z ↦
          total-full this.server.client_count this.server.fds
            (omega (arith, v.counted, v.no_first.0 z)) k (ground arith)
      | no z ↦ v.before_first k (ground arith)
    ]
