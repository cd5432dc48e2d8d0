-- ===== src/Proxy/Add.antt =====
-- lab33/server_management.c: `add_client`.
use os_unixvr4_labs.Common.{
  ℕ, suc, ◌<◌, ◌≡◌, ◌≢◌, ◌⊎◌, refl, sym, ap, subst, ◌∙◌, true, false, some, none, List, arith,
  update, update_self, update_ne, used-full, used-lt, add_size, Option-cases, inl, inr,
}
use os_unixvr4_labs.Server.{PollFd}
use os_unixvr4_labs.Server.Table.{IsTable, first_free-none, first_free-some, add-IsTable}
use os_unixvr4_labs.Proxy.Table.{
  Server, max_clients, poll_client_index, poll_server_index, is_full, next_id, add_with_id,
  add_client,
}
use os_unixvr4_labs.Proxy.Steps.{IsServer, client_fd_at, server_fd_at, client_fd, server_fd}

-- What a new client changes and what it leaves alone.
pub record Added (s t : Server) (client server id : ℕ) : Type 0 where
  pub in_range : id < max_clients
  pub was_free : s.id_table id ≡ none
  pub well_formed : IsServer t
  pub one_more : t.client_count ≡ suc s.client_count
  pub own_taken : t.id_table id ≢ none
  pub other_taken : (other : ℕ) → other ≢ id → t.id_table other ≡ s.id_table other
  pub own_client : client_fd t id ≡ some client
  pub own_server : server_fd t id ≡ some server
  pub other_client : (other : ℕ) → other ≢ id → client_fd t other ≡ client_fd s other
  pub other_server : (other : ℕ) → other ≢ id → server_fd t other ≡ server_fd s other

next_id-none : (s : Server) → IsServer s → next_id s ≡ none → s.client_count ≡ max_clients
unfolding next_id
next_id-none s v e =
    sym v.counted
    ∙ used-full max_clients s.id_table
        (λ i l. first_free-none s.id_table 0 max_clients e i (omega arith) (omega arith))

add_with_id-Added :
    (s : Server) (client server : ℕ) (stoc ctos : List ℕ) (id : ℕ)
    → IsServer s
    → next_id s ≡ some id
    → Added s (add_with_id s client server stoc ctos id) client server id
unfolding next_id add_with_id client_fd_at server_fd_at
add_with_id-Added s client server stoc ctos id v e =
    let f = first_free-some s.id_table 0 max_clients id e in
    let l : id < max_clients = omega (arith, f.2) in
    let room : s.client_count < max_clients =
      omega (arith, v.counted, used-lt max_clients s.id_table id l f.0) in
    let one : add_size s.client_count 1 ≡ suc s.client_count = omega (arith) in
    record {
      in_range = l;
      was_free = f.0;
      well_formed =
          subst
            (λ c.
              IsTable max_clients c (update s.id_table id (some s.client_count))
                (update s.index_to_id s.client_count (some id)))
            (sym one) (add-IsTable max_clients s.client_count id s.id_table s.index_to_id f.0 l v);
      one_more = one;
      own_taken = λ z. ground (arith, own);
      other_taken = λ other ne. kept other ne;
      own_client = ap (client_fd_at clients) own ∙ ground arith;
      own_server = ap (server_fd_at clients) own ∙ ground arith;
      other_client = λ other ne. elim (Option-cases (s.id_table other)) [
        | inl g ↦
            ap (client_fd_at clients) (kept other ne ∙ g) ∙ sym (ap (client_fd_at s.clients) g)
        | inr (k, g) ↦
            ap (client_fd_at clients) (kept other ne ∙ g)
            ∙ ground (arith, v.placed other k g)
            ∙ sym (ap (client_fd_at s.clients) g)
      ];
      other_server = λ other ne. elim (Option-cases (s.id_table other)) [
        | inl g ↦
            ap (server_fd_at clients) (kept other ne ∙ g) ∙ sym (ap (server_fd_at s.clients) g)
        | inr (k, g) ↦
            ap (server_fd_at clients) (kept other ne ∙ g)
            ∙ ground (arith, v.placed other k g)
            ∙ sym (ap (server_fd_at s.clients) g)
      ];
    }
  where
    clients : ℕ → PollFd
    clients =
        update
          (update s.clients (poll_client_index s.client_count)
            (record (s.clients (poll_client_index s.client_count)) { fd = some client }))
          (poll_server_index s.client_count)
          (record (s.clients (poll_server_index s.client_count)) { fd = some server })

    own : update s.id_table id (some s.client_count) id ≡ some s.client_count
    own = update_self s.id_table id (some s.client_count)

    kept :
        (other : ℕ)
        → other ≢ id
        → update s.id_table id (some s.client_count) other ≡ s.id_table other
    kept other ne = update_ne s.id_table id other (some s.client_count) (λ q. ne (sym q))

-- On a well-formed table `add_client` with two descriptors refuses just when the table is full,
-- and then changes nothing. Otherwise the new number is below MAX_CLIENTS and was free, the tables
-- stay well formed with one client more, the number is taken and has the two descriptors given, and no
-- other number's place, client or server changes.
pub add_client-Added :
    (s : Server) (client server : ℕ) (stoc ctos : List ℕ)
    → IsServer s
    → ((is_full s ≡ true) × (add_client s (some client) (some server) stoc ctos ≡ (none, s)))
      ⊎ ((is_full s ≡ false)
          × ((id : ℕ) × (t : Server) × (add_client s (some client) (some server) stoc ctos
                ≡ (some id, t))
              × Added s t client server id))
unfolding is_full add_client next_id
add_client-Added s client server stoc ctos v = elim (Option-cases (next_id s)) [
  | inl e ↦ inl (ground (arith, next_id-none s v e), rw (e, add_client) refl)
  | inr (id, e) ↦
      let a = add_with_id-Added s client server stoc ctos id v e in
      let f = first_free-some s.id_table 0 max_clients id e in
      inr (
        ground (arith, v.counted, used-lt max_clients s.id_table id a.in_range a.was_free),
        (id, add_with_id s client server stoc ctos id, rw (e, add_client) refl, a),
      )
]
