-- ===== src/Proxy/Rounds.antt =====
-- lab33/lab33-proxy.c: `try_read`, the turns of `main_loop`, and the proxy over time.
use os_unixvr4_labs.Common.{
  ℕ, zero, suc, ◌+◌, ◌≤◌, ◌<◌, ◌≡◌, ◌≢◌, refl, sym, ap, ap₂, ◌∙◌, List, [], ◌∷◌, ◌++◌, Option, none,
  some, if_elim, ltb, lt→ltb, update, update_self, add_size, sub_size, arith, inl, inr, weight,
  Option-cases, Bool-cases,
}
use native.Mathlib.Decide.{ℕ_discrete}
use os_unixvr4_labs.Server.Table.{count-le, empty-IsTable}
use os_unixvr4_labs.Proxy.{Clients}
use os_unixvr4_labs.Proxy.Table.{
  Server, max_clients, add_client, init_server, started_server, poll_listener_index,
}
use os_unixvr4_labs.Proxy.Add.{Added, add_client-Added}
use os_unixvr4_labs.Proxy.Compact.{
  weight-used, total, total-update_ge, total-empty, total-le, total-full,
}
use os_unixvr4_labs.Proxy.Commit.{IsCompact, commit_remove_lem, total-next}
use os_unixvr4_labs.Proxy.Leave.{ProxyServer}
use os_unixvr4_labs.Proxy.Transfer.{can_read_from}
use os_unixvr4_labs.Proxy.Listed.{IsListed, visit-Visited, names, names_self, names_other}
use os_unixvr4_labs.Proxy.Turn.{
  Turn, visit_from, and_next, ioable_at, with_list, commit, try_read, put_client, polled, admitted,
  admit, turn, main_loop, with_server_started, pr_init_server,
}

visit_from-IsListed :
    (io : Turn) (ioable_count rounds : ℕ) (this : ProxyServer) (i processed : ℕ)
    → IsListed this
    → i + rounds ≡ this.list.client_count
    → ((j : ℕ) → i ≤ j → j < this.list.client_count → this.list.id_table j ≢ none)
    → (end : ProxyServer) × (fds : List ℕ) × (visit_from io ioable_count rounds this i processed
        ≡ (some end, fds))
      × IsListed end
unfolding visit_from and_next
visit_from-IsListed io ioable_count zero this i processed v e used = (this, [], refl, v)
visit_from-IsListed io ioable_count (suc rounds) this i processed v e used =
    elim (Bool-cases (ltb processed ioable_count)) [
      | inr stop ↦ (this, [], rw stop refl, v)
      | inl more ↦ elim (Option-cases (this.list.id_table i)) [
        | inl free ↦ absurd (used i (omega arith) (omega arith) free)
        | inr (id, at) ↦
            let (t, fds, r, d) = visit-Visited io this i id v (omega arith) at in
            let (end, fds', r', w) =
              visit_from-IsListed io ioable_count rounds t (suc i)
                (add_size processed (ioable_at this i)) d.fine (omega (arith, d.same_length))
                (λ j a b z.
                  used j (omega arith) (omega (arith, d.same_length))
                    (sym (d.later j (omega arith)) ∙ z)) in
            (
              end,
              fds ++ fds',
              rw more (
                  ap
                    (λ z. and_next z (λ t'.
                      visit_from io ioable_count rounds t' (suc i)
                        (add_size processed (ioable_at this i))))
                    r
                  ∙ ap (λ (z : Option ProxyServer × List ℕ). (z.0, fds ++ z.1)) r'),
              w,
            )
      ]
    ]

-- Between two turns no place of the list is marked.
pub record IsRested (this : ProxyServer) : Type 0 where
  pub fine : IsListed this
  pub none_marked : this.list.removed_count ≡ 0

committed-IsRested :
    (this : ProxyServer) (list : Clients)
    → IsListed this
    → IsCompact this.list.client_count list.client_count this.list.id_table list.id_table
    → list.client_count ≡ total weight this.list.client_count this.list.id_table
    → list.removed_count ≡ 0
    → IsRested (record this { list = list })
unfolding names
committed-IsRested this list v c counted unmarked = record {
  fine = record {
    tables = v.tables;
    counted = omega (arith, kept weight refl, counted, unmarked);
    listed = λ id. kept (names id) refl ∙ v.listed id;
    sized = kept weight refl ∙ v.sized;
    small = omega (arith, shorter, v.small);
  };
  none_marked = unmarked;
}
  where
    shorter : list.client_count ≤ this.list.client_count
    shorter = omega (arith, counted, total-le this.list.client_count this.list.id_table)

    kept :
        (w : Option ℕ → ℕ)
        → w none ≡ 0
        → total w list.client_count list.id_table
          ≡ total w this.list.client_count this.list.id_table
    kept w z =
        sym (total-empty w list.client_count this.list.client_count list.id_table z c.back shorter)
        ∙ c.same w

try_read-IsRested :
    (io : Turn) (this : ProxyServer) (ioable_count : ℕ)
    → IsRested this
    → (end : ProxyServer) × (fds : List ℕ) × (try_read io this ioable_count ≡ (some end, fds))
      × IsRested end
unfolding try_read commit with_list
try_read-IsRested io this ioable_count v =
    let (t, fds, r, w) =
      visit_from-IsListed io ioable_count this.list.client_count this 0 0 v.fine (omega arith)
        (λ j a b.
          total-full this.list.client_count this.list.id_table
            (omega (arith, v.fine.counted, v.none_marked)) j b) in
    let (list, e, c, counted, unmarked) = commit_remove_lem t.list w.small w.counted in
    (
      record t { list = list },
      fds,
      ap commit r ∙ ap (λ l. (with_list t l, fds)) e,
      committed-IsRested t list w c counted unmarked,
    )

-- The list with a new client behind the others.
put-IsRested :
    (this : ProxyServer) (s : Server) (client server id : ℕ)
    → IsRested this
    → Added this.server s client server id
    → (end : ProxyServer) × (put_client this s id ≡ some end) × IsRested end
unfolding put_client names
put-IsRested this s client server id v a = (
  record {
    server = s;
    list = record (this.list) {
      id_table = update this.list.id_table this.list.client_count (some id);
      client_count = add_size this.list.client_count 1;
    };
  },
  rw (lt→ltb this.list.client_count max_clients room) refl,
  record {
    fine = record {
      tables = a.well_formed;
      counted = omega (arith, size weight, v.fine.counted, one);
      listed = λ k. elim (ℕ_discrete id k) [
        | yes z ↦ omega (
          arith,
          size (names k),
          ap (λ w. names w (some id)) (sym z),
          names_self id,
          v.fine.listed k,
          ap (λ w. weight (this.server.id_table w)) (sym z),
          ap weight a.was_free,
          ap (λ w. weight (s.id_table w)) (sym z),
          weight-used (s.id_table id) a.own_taken,
        )
        | no z ↦ omega (
          arith,
          size (names k),
          names_other k id z,
          v.fine.listed k,
          ap weight (a.other_taken k (λ q. z (sym q))),
        )
      ];
      sized = omega (arith, size weight, v.fine.sized, a.one_more);
      small = omega (arith, room, one);
    };
    none_marked = v.none_marked;
  },
)
  where
    n : ℕ
    n = this.list.client_count

    room : n < max_clients
    room =
        omega
          (arith, v.fine.counted, v.none_marked, v.fine.sized, a.one_more, count-le a.well_formed)

    one : add_size n 1 ≡ suc n
    one = omega (arith, room)

    size :
        (w : Option ℕ → ℕ)
        → total w (add_size n 1) (update this.list.id_table n (some id))
          ≡ total w n this.list.id_table + w (some id)
    size w =
        ap (λ m. total w m (update this.list.id_table n (some id))) one
        ∙ total-next w n (update this.list.id_table n (some id))
        ∙ ap₂ ◌+◌ (total-update_ge w n this.list.id_table n (some id) (omega arith))
            (ap w (update_self this.list.id_table n (some id)))

abbrev Goes : Option ProxyServer × List ℕ → Type 0
Goes r = (end : ProxyServer) × (fds : List ℕ) × (r ≡ (some end, fds)) × IsRested end

admitted-put :
    (io : Turn) (this t : ProxyServer) (s : Server) (client server id : ℕ)
    → put_client this s id ≡ some t
    → admitted io this client server (some id, s) ≡ try_read io t (sub_size io.fd_count 1)
unfolding admitted
admitted-put io this t s client server id p = rw (p, admitted) refl

admitted-IsRested :
    (io : Turn) (this : ProxyServer) (client server : ℕ)
    → IsRested this
    → Goes (
        admitted io this client server
          (add_client this.server (some client) (some server) io.fresh_stoc io.fresh_ctos))
unfolding admitted
admitted-IsRested io this client server v =
    elim (add_client-Added this.server client server io.fresh_stoc io.fresh_ctos v.fine.tables) [
      | inl (full, e) ↦ (this, server ∷ client ∷ [], ap (admitted io this client server) e, v)
      | inr (room, (id, s, e, a)) ↦
          let (t, p, w) = put-IsRested this s client server id v a in
          let (end, fds, r, u) = try_read-IsRested io t (sub_size io.fd_count 1) w in
          (
            end,
            fds,
            ap (admitted io this client server) e ∙ admitted-put io this t s client server id p ∙ r,
            u,
          )
    ]

admit-IsRested :
    (io : Turn) (this : ProxyServer) (accepted connected : Option ℕ)
    → IsRested this
    → Goes (admit io this accepted connected)
unfolding admit
admit-IsRested io this none connected v = (this, [], refl, v)
admit-IsRested io this (some client) none v = (this, client ∷ [], refl, v)
admit-IsRested io this (some client) (some server) v = admitted-IsRested io this client server v

polled-IsRested : (io : Turn) (this : ProxyServer) → IsRested this → IsRested (polled io this)
polled-IsRested io this v = record {
  fine = record {
    tables = v.fine.tables;
    counted = v.fine.counted;
    listed = v.fine.listed;
    sized = v.fine.sized;
    small = v.fine.small;
  };
  none_marked = v.none_marked;
}

turn-IsRested : (io : Turn) (this : ProxyServer) → IsRested this → Goes (turn io this)
unfolding turn
turn-IsRested io this v =
    if_elim Goes (can_read_from ((polled io this).server.clients poll_listener_index)) _ _
      (λ e. admit-IsRested io (polled io this) io.accepted io.connected (polled-IsRested io this v))
      (λ e. try_read-IsRested io (polled io this) io.fd_count (polled-IsRested io this v))

main_loop-IsRested :
    (turns : List Turn) (this : ProxyServer)
    → IsRested this
    → (end : ProxyServer) × (main_loop turns this ≡ some end) × IsRested end
unfolding main_loop
main_loop-IsRested [] this v = (this, refl, v)
main_loop-IsRested (io ∷ turns) this v =
    let (t, fds, r, w) = turn-IsRested io this v in
    let (end, e, u) = main_loop-IsRested turns t w in
    (end, rw (ap (λ (z : Option ProxyServer × List ℕ). z.0) r, main_loop) e, u)

-- What `pr_init_server` makes.
abbrev started : ℕ → ProxyServer
started listen_fd = record {
  server = started_server listen_fd;
  list = record { id_table = λ i. none; client_count = 0; removed_count = 0 };
}

started-IsRested : (listen_fd : ℕ) → IsRested (started listen_fd)
unfolding total
started-IsRested listen_fd = record {
  fine = record {
    tables = empty-IsTable max_clients;
    counted = refl;
    listed = λ id. refl;
    sized = refl;
    small = omega arith;
  };
  none_marked = refl;
}

-- From a successful start, and whatever poll(2), accept(2), connect(2), read(2) and write(2) give
-- in any number of turns, the proxy never uses NULL or -1 as an index and never writes behind its
-- list. After every turn the tables of the server are well formed, no place of the list is marked,
-- and the list names the clients of the server, each once.
pub main_loop-init :
    (listen_fd : ℕ) (turns : List Turn)
    → (start end : ProxyServer) × (pr_init_server (some listen_fd) ≡ some start)
      × (main_loop turns start ≡ some end)
      × IsRested end
unfolding pr_init_server with_server_started init_server
main_loop-init listen_fd turns =
    let (end, e, u) = main_loop-IsRested turns (started listen_fd) (started-IsRested listen_fd) in
    (started listen_fd, end, refl, e, u)
