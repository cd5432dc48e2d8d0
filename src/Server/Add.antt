-- ===== src/Server/Add.antt =====
-- A new client: `next_id` and `add_client`, and how `client_fd` reads the tables.
use os_unixvr4_labs.Common.{
  ℕ, suc, ◌+◌, ◌<◌, ◌≡◌, ◌≢◌, ◌⊎◌, refl, sym, ap, subst, ◌∙◌, true, false, some, none, arith,
  update, used-full, used-lt, update_self, update_ne, add_size, Option-cases, inl, inr,
}
use os_unixvr4_labs.Server.{
  Server, PollFd, max_clients, poll_client_offset, get_client, client_fd, next_id, add_with_id,
  add_client, is_full,
}
use os_unixvr4_labs.Server.Table.{IsServer, IsTable, first_free-none, first_free-some, add-IsTable}

pub client_fd-some :
    (s : Server) (id i : ℕ)
    → id < max_clients
    → s.id_table id ≡ some i
    → client_fd s id ≡ (s.clients (i + poll_client_offset)).fd
unfolding client_fd get_client
client_fd-some s id i l e = ground (arith)

pub client_fd-none : (s : Server) (id : ℕ) → s.id_table id ≡ none → client_fd s id ≡ none
unfolding client_fd get_client
client_fd-none s id e = ground (arith)

-- What a new client changes and what it leaves alone.
pub record Added (s t : Server) (fd id : ℕ) : Type 0 where
  pub in_range : id < max_clients
  pub was_free : s.id_table id ≡ none
  pub well_formed : IsServer t
  pub one_more : t.client_count ≡ suc s.client_count
  pub own_fd : client_fd t id ≡ some fd
  pub other_fd : (other : ℕ) → other ≢ id → client_fd t other ≡ client_fd s other

next_id-none : (s : Server) → IsServer s → next_id s ≡ none → s.client_count ≡ max_clients
unfolding next_id
next_id-none s v e =
    sym v.counted
    ∙ used-full max_clients s.id_table
        (λ i l. first_free-none s.id_table 0 max_clients e i (omega arith) (omega arith))

next_id-some :
    (s : Server) (id : ℕ)
    → IsServer s
    → next_id s ≡ some id
    → (s.id_table id ≡ none) × (id < max_clients) × (s.client_count < max_clients)
unfolding next_id
next_id-some s id v e =
    let f = first_free-some s.id_table 0 max_clients id e in
    let l : id < max_clients = omega (arith, f.2) in
    (f.0, l, omega (arith, v.counted, used-lt max_clients s.id_table id l f.0))

add_with_id-tables :
    (s : Server) (fd id : ℕ)
    → s.client_count < max_clients
    → IsServer s
    → s.id_table id ≡ none
    → id < max_clients
    → IsServer (add_with_id s fd id) × ((add_with_id s fd id).client_count ≡ suc s.client_count)
unfolding add_with_id
add_with_id-tables s fd id room v free l =
    let e : add_size s.client_count 1 ≡ suc s.client_count = omega (arith) in
    (
      subst
          (λ c.
            IsTable max_clients c (update s.id_table id (some s.client_count))
              (update s.index_to_id s.client_count (some id)))
          (sym e) (add-IsTable max_clients s.client_count id s.id_table s.index_to_id free l v),
      e,
    )

add_with_id-own :
    (s : Server) (fd id : ℕ) → id < max_clients → client_fd (add_with_id s fd id) id ≡ some fd
unfolding add_with_id
add_with_id-own s fd id l =
    client_fd-some (add_with_id s fd id) id s.client_count l
      (update_self s.id_table id (some s.client_count))
    ∙ ap (λ (p : PollFd). p.fd)
        (update_self s.clients (s.client_count + poll_client_offset)
          (record (s.clients (s.client_count + poll_client_offset)) { fd = some fd }))

add_with_id-other :
    (s : Server) (fd id other : ℕ)
    → IsServer s
    → other ≢ id
    → client_fd (add_with_id s fd id) other ≡ client_fd s other
unfolding add_with_id
add_with_id-other s fd id other v ne = elim (Option-cases (s.id_table other)) [
  | inl e ↦
      client_fd-none (add_with_id s fd id) other
        (update_ne s.id_table id other (some s.client_count) (λ q. ne (sym q)) ∙ e)
      ∙ sym (client_fd-none s other e)
  | inr (i, e) ↦
      let p = v.placed other i e in
      client_fd-some (add_with_id s fd id) other i p.0
        (update_ne s.id_table id other (some s.client_count) (λ q. ne (sym q)) ∙ e)
      ∙ ap (λ (p : PollFd). p.fd)
          (update_ne s.clients (s.client_count + poll_client_offset) (i + poll_client_offset)
            (record (s.clients (s.client_count + poll_client_offset)) { fd = some fd })
            (omega (arith, p.1)))
      ∙ sym (client_fd-some s other i p.0 e)
]

-- On a well-formed server `add_client` refuses just when the table is full, and then changes
-- nothing. Otherwise the new number is below MAX_CLIENTS and was free, the tables stay well formed with one
-- client more, `client_fd` of the new number is the descriptor given, and no other number's
-- descriptor changes.
pub add_client_lem :
    (s : Server) (fd : ℕ)
    → IsServer s
    → ((is_full s ≡ true) × (add_client s fd ≡ (none, s)))
      ⊎ ((is_full s ≡ false)
          × ((id : ℕ) × (t : Server) × (add_client s fd ≡ (some id, t)) × Added s t fd id))
unfolding is_full add_client
add_client_lem s fd v = elim (Option-cases (next_id s)) [
  | inl e ↦ inl (ground (arith, next_id-none s v e), rw (e, add_client) refl)
  | inr (id, e) ↦
      let n = next_id-some s id v e in
      let t = add_with_id-tables s fd id n.2 v n.0 n.1 in
      inr (
        ground (arith, n.2),
        (
          id,
          add_with_id s fd id,
          rw (e, add_client) refl,
          record {
            in_range = n.1;
            was_free = n.0;
            well_formed = t.0;
            one_more = t.1;
            own_fd = add_with_id-own s fd id n.1;
            other_fd = λ other ne. add_with_id-other s fd id other v ne;
          },
        ),
      )
]
