-- ===== src/Proxy/Remove.antt =====
-- lab33/server_management.c: `remove_client`.
use os_unixvr4_labs.Common.{
  weight, ℕ, suc, ◌-◌, ◌≡◌, ◌≢◌, ◌⊎◌, refl, sym, ap, subst, ◌∙◌, Option, some, none, [], arith,
  update, update_self, sub_size, Option-cases, inl, inr,
}
use native.Mathlib.Decide.{ℕ_discrete}
use os_unixvr4_labs.Server.{PollFd, swap_poll}
use os_unixvr4_labs.Server.Table.{IsTable, count-le, remove-IsTable, remove-last-IsTable}
use os_unixvr4_labs.Proxy.Table.{
  Server, max_clients, poll_client_index, poll_server_index, place_of, clear_last, remove_at,
  remove_client,
}
use os_unixvr4_labs.Proxy.Steps.{
  IsServer, client_fd_at, server_fd_at, client_fd, server_fd, place_of-some, closed_fds,
  Disconnected, disconnect_client_lem, freed, moved, move_last-some, remove_at-last, remove_at-more,
}

-- What a removal changes and what it leaves alone. The client of the last place keeps its own
-- descriptor when it moves, and its server's is lost.
pub record Removed (s t : Server) (id : ℕ) : Type 0 where
  pub well_formed : IsServer t
  pub one_less : suc t.client_count ≡ s.client_count
  pub is_free : t.id_table id ≡ none
  pub other_taken : (other : ℕ) → other ≢ id → weight (t.id_table other) ≡ weight (s.id_table other)
  pub other_client : (other : ℕ) → other ≢ id → client_fd t other ≡ client_fd s other
  pub other_server :
      (other : ℕ)
      → other ≢ id
      → s.id_table other ≢ some t.client_count
      → server_fd t other ≡ server_fd s other
  pub moved_server :
      (last : ℕ)
      → last ≢ id
      → s.id_table last ≡ some t.client_count
      → client_fd s id ≢ none
      → server_fd t last ≡ none

last-Removed :
    (s : Server) (id i : ℕ) (c : ℕ → PollFd)
    → IsServer s
    → s.id_table id ≡ some i
    → s.client_count ≡ 1
    → Removed s (clear_last (freed s id c 0) id) id
unfolding clear_last client_fd_at server_fd_at
last-Removed s id i c v e one = record {
  well_formed =
      remove-last-IsTable max_clients id i s.id_table s.index_to_id e
        (subst (λ k. IsTable max_clients k s.id_table s.index_to_id) one v);
  one_less = sym one;
  is_free = update_self s.id_table id none;
  other_taken = λ other ne. ground (arith, alone other ne);
  other_client = λ other ne. ground (arith, alone other ne);
  other_server = λ other ne h. ground (arith, alone other ne);
  moved_server = λ last ne at h. absurd (ground (arith, alone last ne));
}
  where
    alone : (other : ℕ) → other ≢ id → s.id_table other ≡ none
    alone other ne = elim (Option-cases (s.id_table other)) [
      | inl f ↦ f
      | inr (j, f) ↦ absurd (ground (arith, v.placed id i e, v.placed other j f))
    ]

more-Removed :
    (s : Server) (id i n last : ℕ) (c : ℕ → PollFd)
    → IsServer s
    → s.id_table id ≡ some i
    → s.client_count ≡ suc n
    → s.index_to_id n ≡ some last
    → Disconnected s.clients c i
    → Removed s (clear_last (moved (freed s id c n) i last n) id) id
unfolding clear_last client_fd_at server_fd_at
more-Removed s id i n last c v e size at_last d = record {
  well_formed =
      remove-IsTable max_clients n id i last s.id_table s.index_to_id e at_last
        (subst (λ k. IsTable max_clients k s.id_table s.index_to_id) size v);
  one_less = sym size;
  is_free = update_self (update s.id_table last (some i)) id none;
  other_taken = λ other ne. elim (Option-cases (s.id_table other)) [
    | inl f ↦ ap weight (table_free other f ∙ sym f)
    | inr (k, f) ↦ elim (ℕ_discrete k n) [
      | yes z ↦ ap weight (table_last other ne (f ∙ ap some z)) ∙ sym (ap weight f)
      | no z ↦ ap weight (table_other other k ne f z ∙ sym f)
    ]
  ];
  other_client = λ other ne. elim (Option-cases (s.id_table other)) [
    | inl f ↦ ap (client_fd_at swapped) (table_free other f) ∙ sym (ap (client_fd_at s.clients) f)
    | inr (k, f) ↦ elim (ℕ_discrete k n) [
      | yes z ↦
          ap (client_fd_at swapped) (table_last other ne (f ∙ ap some z))
          ∙ ap fd_of (
              swap_left
              ∙ d.others (poll_client_index n) (λ q. apart other k ne f (omega arith))
                  (omega arith))
          ∙ sym (ap (client_fd_at s.clients) (f ∙ ap some z))
      | no z ↦
          ap (client_fd_at swapped) (table_other other k ne f z)
          ∙ ap fd_of (client_kept k (apart other k ne f) z)
          ∙ sym (ap (client_fd_at s.clients) f)
    ]
  ];
  other_server = λ other ne h. elim (Option-cases (s.id_table other)) [
    | inl f ↦ ap (server_fd_at swapped) (table_free other f) ∙ sym (ap (server_fd_at s.clients) f)
    | inr (k, f) ↦
        let z : k ≢ n = λ q. h (f ∙ ap some q) in
        ap (server_fd_at swapped) (table_other other k ne f z)
        ∙ ap fd_of (server_kept k (apart other k ne f))
        ∙ sym (ap (server_fd_at s.clients) f)
  ];
  moved_server = λ other ne at h.
      ap (server_fd_at swapped) (table_last other ne at)
      ∙ ap fd_of (swap_server i)
      ∙ d.server_gone (λ z. h (ap (client_fd_at s.clients) e ∙ z));
}
  where
    swapped : ℕ → PollFd
    swapped = swap_poll c (poll_client_index i) (poll_client_index n)

    fd_of : PollFd → Option ℕ
    fd_of p = p.fd

    table : ℕ → Option ℕ
    table = update (update s.id_table last (some i)) id none

    apart : (other k : ℕ) → other ≢ id → s.id_table other ≡ some k → k ≢ i
    apart other k ne f z = ground (arith, v.placed id i e, v.placed other k f)

    table_free : (other : ℕ) → s.id_table other ≡ none → table other ≡ none
    table_free other f = ground (arith, v.numbered n last at_last)

    table_last : (other : ℕ) → other ≢ id → s.id_table other ≡ some n → table other ≡ some i
    table_last other ne f = ground (arith, v.numbered n last at_last, v.placed other n f)

    table_other :
        (other k : ℕ) → other ≢ id → s.id_table other ≡ some k → k ≢ n → table other ≡ some k
    table_other other k ne f z = ground (arith, v.numbered n last at_last)

    swap_left : swapped (poll_client_index i) ≡ c (poll_client_index n)
    swap_left = ground arith

    swap_server : (k : ℕ) → swapped (poll_server_index k) ≡ c (poll_server_index k)
    swap_server k = ground arith

    client_kept :
        (k : ℕ) → k ≢ i → k ≢ n → swapped (poll_client_index k) ≡ s.clients (poll_client_index k)
    client_kept k a b = ground (
      arith,
      d.others (poll_client_index k) (λ q. a (omega (arith, q))) (λ q. absurd (omega (arith, q))),
    )

    server_kept : (k : ℕ) → k ≢ i → swapped (poll_server_index k) ≡ s.clients (poll_server_index k)
    server_kept k a =
        swap_server k
        ∙ d.others (poll_server_index k) (λ q. absurd (omega (arith, q)))
            (λ q. a (omega (arith, q)))

remove_at_lem :
    (s : Server) (id i : ℕ)
    → IsServer s
    → s.id_table id ≡ some i
    → (t : Server) × (remove_at s id i ≡ (some t, closed_fds (client_fd s id) (server_fd s id)))
      × Removed s t id
remove_at_lem s id i v e =
    let p = v.placed id i e in
    let n = s.client_count - 1 in
    let size : s.client_count ≡ suc n = omega (arith, p.1) in
    let less : sub_size s.client_count 1 ≡ n = ground (arith, count-le v, p.1) in
    let d = disconnect_client_lem s id i v e in
    let fds = closed_fds (client_fd s id) (server_fd s id) in
    elim (ℕ_discrete n 0) [
      | yes z ↦ (
        clear_last (freed s id d.0 0) id,
        remove_at-last s id i d.0 fds d.1 (less ∙ z),
        last-Removed s id i d.0 v e (omega (arith, size, z)),
      )
      | no nz ↦ elim (Option-cases (s.index_to_id n)) [
        | inl f ↦ absurd (v.filled n (omega arith) f)
        | inr (last, f) ↦
            let q = v.numbered n last f in
            (
              clear_last (moved (freed s id d.0 n) i last n) id,
              remove_at-more s id i n d.0 fds (moved (freed s id d.0 n) i last n) d.1 less nz
                  (move_last-some (freed s id d.0 n) i n last ((v.placed last n q).0) refl f q),
              more-Removed s id i n last d.0 v e size f d.2,
            )
      ]
    ]

-- On a well-formed table `remove_client` never uses NULL or -1 as an index. If the number is free,
-- nothing happens. Otherwise the tables stay well formed with one client less, the number is free
-- and every other one as taken as it was, and no other client's descriptor changes. If the client
-- has a descriptor, it is closed, and so is that of its server if there is one; without a client's
-- descriptor none is closed. The descriptor of another client's server does not change, but for
-- the client at the last place: if the removed one had a descriptor, it moves without its server,
-- which is -1 afterwards.
pub remove_client-Removed :
    (s : Server) (id : ℕ)
    → IsServer s
    → ((s.id_table id ≡ none) × (remove_client s id ≡ (some s, [])))
      ⊎ ((s.id_table id ≢ none)
          × ((t : Server) × (remove_client s id
                ≡ (some t, closed_fds (client_fd s id) (server_fd s id)))
              × Removed s t id))
unfolding remove_client place_of
remove_client-Removed s id v = elim (Option-cases (s.id_table id)) [
  | inl e ↦ inl (e, ground arith)
  | inr (i, e) ↦
      let r = remove_at_lem s id i v e in
      inr (λ q. ground (arith), (r.0, rw (place_of-some s id i v e, remove_client) (r.1), r.2))
]
