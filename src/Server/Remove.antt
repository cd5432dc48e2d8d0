-- ===== src/Server/Remove.antt =====
-- A client leaves: `remove_client`.
use os_unixvr4_labs.Common.{
  ℕ, suc, ◌+◌, ◌-◌, lt→ltb, ◌<◌, ◌≡◌, ◌≢◌, ◌⊎◌, refl, sym, ap, subst, ◌∙◌, some, none, [], arith,
  update, update_self, update_ne, ◌==◌, if◌then◌else◌, sub_size, Option-cases, inl, inr,
}
use native.Mathlib.Decide.{ℕ_discrete}
use os_unixvr4_labs.Server.{
  Server, PollFd, max_clients, poll_client_offset, client_fd, clear_last, remove_at, remove_client,
  swap_poll,
}
use os_unixvr4_labs.Server.Table.{IsServer, IsTable, count-le, remove-IsTable, remove-last-IsTable}
use os_unixvr4_labs.Server.Add.{client_fd-some, client_fd-none}
use os_unixvr4_labs.Server.Steps.{
  closed_fds, disconnect_client_lem, moved, move_last-some, counted_as, remove_at-last,
  remove_at-more,
}

-- What a removal changes and what it leaves alone.
pub record Removed (s t : Server) (id : ℕ) : Type 0 where
  pub well_formed : IsServer t
  pub one_less : suc t.client_count ≡ s.client_count
  pub is_free : t.id_table id ≡ none
  pub other_fd : (other : ℕ) → other ≢ id → client_fd t other ≡ client_fd s other

-- Two servers that agree on a number's place and on the cell there agree on its descriptor.
same_fd :
    (s t : Server) (id i j : ℕ)
    → id < max_clients
    → s.id_table id ≡ some i
    → t.id_table id ≡ some j
    → t.clients (j + poll_client_offset) ≡ s.clients (i + poll_client_offset)
    → client_fd t id ≡ client_fd s id
same_fd s t id i j l e e' h =
    client_fd-some t id j l e' ∙ ap (λ (p : PollFd). p.fd) h ∙ sym (client_fd-some s id i l e)

-- The only client leaves.
last-Removed :
    (s : Server) (id i : ℕ) (c : ℕ → PollFd)
    → IsServer s
    → s.id_table id ≡ some i
    → s.client_count ≡ 1
    → Removed s (clear_last (counted_as s c 0) id) id
unfolding clear_last
last-Removed s id i c v e one = record {
  well_formed =
      remove-last-IsTable max_clients id i s.id_table s.index_to_id e
        (subst (λ k. IsTable max_clients k s.id_table s.index_to_id) one v);
  one_less = sym one;
  is_free = update_self s.id_table id none;
  other_fd = λ other ne. elim (Option-cases (s.id_table other)) [
    | inl e' ↦
        client_fd-none (clear_last (counted_as s c 0) id) other
          (update_ne s.id_table id other none (λ q. ne (sym q)) ∙ e')
        ∙ sym (client_fd-none s other e')
    | inr (j, e') ↦ absurd (ground (arith, v.placed id i e, v.placed other j e'))
  ];
}

-- Where a number is found when the client at the place `n` has moved to the place `i`.
new_place : ℕ → ℕ → ℕ → ℕ
new_place n i k = if k == n then i else k

swap-other :
    (c d : ℕ → PollFd) (i n k : ℕ)
    → k ≢ i
    → ((j : ℕ) → j ≢ i + poll_client_offset → c j ≡ d j)
    → swap_poll c
        (i + poll_client_offset)
        (n + poll_client_offset)
        (new_place n i k + poll_client_offset)
      ≡ d (k + poll_client_offset)
unfolding new_place
swap-other c d i n k ne h = ground (arith, h (k + poll_client_offset) (λ q. ne (omega (arith, q))))

-- Another client stays.
more-Removed :
    (s : Server) (id i n last : ℕ) (c : ℕ → PollFd)
    → IsServer s
    → s.id_table id ≡ some i
    → s.client_count ≡ suc n
    → s.index_to_id n ≡ some last
    → ((j : ℕ) → j ≢ i + poll_client_offset → c j ≡ s.clients j)
    → Removed s (clear_last (moved (counted_as s c n) i last (n + poll_client_offset)) id) id
unfolding clear_last new_place
more-Removed s id i n last c v e size at_last same = record {
  well_formed =
      remove-IsTable max_clients n id i last s.id_table s.index_to_id e at_last
        (subst (λ k. IsTable max_clients k s.id_table s.index_to_id) size v);
  one_less = sym size;
  is_free = update_self (update s.id_table last (some i)) id none;
  other_fd = λ other ne. elim (Option-cases (s.id_table other)) [
    | inl e' ↦
        client_fd-none (clear_last (moved (counted_as s c n) i last (n + poll_client_offset)) id)
          other (ground (arith, v.numbered n last at_last))
        ∙ sym (client_fd-none s other e')
    | inr (k, e') ↦
        same_fd s (clear_last (moved (counted_as s c n) i last (n + poll_client_offset)) id) other k
          (new_place n i k) ((v.placed other k e').0) e'
          (ground (arith, v.placed id i e, v.placed other k e', v.numbered n last at_last))
          (swap-other c s.clients i n k (λ q. ground (arith, v.placed id i e, v.placed other k e'))
            same)
  ];
}

remove_at_lem :
    (s : Server) (id i : ℕ)
    → IsServer s
    → s.id_table id ≡ some i
    → (t : Server) × (remove_at s id i ≡ (some t, closed_fds (client_fd s id))) × Removed s t id
remove_at_lem s id i v e =
    let p = v.placed id i e in
    let n = s.client_count - 1 in
    let size : s.client_count ≡ suc n = omega (arith, p.1) in
    let less : sub_size s.client_count 1 ≡ n = ground (arith, count-le v, p.1) in
    let d = disconnect_client_lem s id i p.0 e in
    elim (ℕ_discrete n 0) [
      | yes z ↦ (
        clear_last (counted_as s d.0 0) id,
        remove_at-last s id i 0 d.0 (closed_fds (client_fd s id)) d.1 (less ∙ z) refl,
        last-Removed s id i d.0 v e (omega (arith, size, z)),
      )
      | no nz ↦ elim (Option-cases (s.index_to_id n)) [
        | inl f ↦ absurd (v.filled n (omega arith) f)
        | inr (last, f) ↦
            let q = v.numbered n last f in
            (
              clear_last (moved (counted_as s d.0 n) i last (n + poll_client_offset)) id,
              remove_at-more s id i n d.0 (closed_fds (client_fd s id))
                  (moved (counted_as s d.0 n) i last (n + poll_client_offset)) d.1 less nz
                  (move_last-some (counted_as s d.0 n) id i last ((v.placed last n q).0) f q),
              more-Removed s id i n last d.0 v e size f d.2,
            )
      ]
    ]

-- On a well-formed server `remove_client` never uses NULL or -1 as an index. If the number is
-- taken, it closes that client's descriptor, if it has one, and no other; the tables stay well
-- formed with one client less, the number is free, and no other number's descriptor changes, the
-- one of the client that moves in the array included. If the number is free, nothing happens.
pub remove_client_lem :
    (s : Server) (id : ℕ)
    → IsServer s
    → ((s.id_table id ≡ none) × (remove_client s id ≡ (some s, [])))
      ⊎ ((s.id_table id ≢ none)
          × ((t : Server) × (remove_client s id ≡ (some t, closed_fds (client_fd s id)))
              × Removed s t id))
unfolding remove_client
remove_client_lem s id v = elim (Option-cases (s.id_table id)) [
  | inl e ↦ inl (e, ground (arith))
  | inr (i, e) ↦
      let r = remove_at_lem s id i v e in
      inr (
        λ q. ground (arith),
        (r.0, rw (e, lt→ltb id max_clients ((v.placed id i e).0), remove_client) (r.1), r.2),
      )
]
