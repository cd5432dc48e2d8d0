-- ===== src/Proxy/Listed.antt =====
-- lab33/lab33-proxy.c: the list of the proxy names the clients of the server, each once, whatever
-- a turn of the main loop brings.
use os_unixvr4_labs.Common.{
  ℕ, ◌+◌, ◌<◌, ◌≡◌, ◌≢◌, refl, sym, ap, subst, ◌∙◌, List, [], Option, none, some, Bool, true, false,
  if◌then◌else◌, if_elim, update_ne, arith, inl, inr, weight, max_object, Option-cases, ◌==◌, ◌||◌,
}
use native.Mathlib.Decide.{ℕ_discrete}
use os_unixvr4_labs.Server.Table.{IsTable}
use os_unixvr4_labs.IoBuffer.{IoBuffer}
use os_unixvr4_labs.Proxy.Transfer.{has_errors}
use os_unixvr4_labs.Proxy.Table.{
  Server, max_clients, get_client, get_server, poll_client_index, poll_server_index,
}
use os_unixvr4_labs.Proxy.Steps.{IsServer, place_of-some}
use os_unixvr4_labs.Proxy.Remove.{Removed, remove_client-Removed}
use os_unixvr4_labs.Proxy.Compact.{total, total-update, weight-le}
use os_unixvr4_labs.Proxy.Leave.{ProxyServer, marked, pr_remove_client, left}
use os_unixvr4_labs.Proxy.Turn.{
  Turn, transfer_ctos, transfer_stoc, serve, keep_or_remove, places, visit,
}

-- 1 for the entry of a number.
unfoldable pub names : ℕ → Option ℕ → ℕ
names id none = 0
names id (some k) = if k == id then 1 else 0

-- Each number is in the list as often as it is taken, once or not at all; the list counts the
-- places that are marked as removed, and the clients of the server.
pub record IsListed (this : ProxyServer) : Type 0 where
  pub tables : IsServer this.server
  pub counted :
      total weight this.list.client_count this.list.id_table + this.list.removed_count
      ≡ this.list.client_count
  pub listed :
      (id : ℕ)
      → total (names id) this.list.client_count this.list.id_table
        ≡ weight (this.server.id_table id)
  pub sized : total weight this.list.client_count this.list.id_table ≡ this.server.client_count
  pub small : this.list.client_count < max_object

pub names_self : (id : ℕ) → names id (some id) ≡ 1
unfolding names
names_self id = ground arith

pub names_other : (id k : ℕ) → k ≢ id → names id (some k) ≡ 0
unfolding names
names_other id k h = ground arith

weight-taken : (o : Option ℕ) → 0 < weight o → o ≢ none
weight-taken none h = absurd (omega arith)
weight-taken (some k) h = λ e. absurd (ground arith)

-- An entry of the list is taken in the server.
listed-taken :
    (this : ProxyServer) (i id : ℕ)
    → IsListed this
    → i < this.list.client_count
    → this.list.id_table i ≡ some id
    → this.server.id_table id ≢ none
unfolding names
listed-taken this i id v h e = weight-taken (this.server.id_table id) (
    omega (
      arith,
      v.listed id,
      total-update (names id) this.list.client_count this.list.id_table i none h,
      ap (names id) e,
      names_self id,
    ))

-- Only the buffers of the server differ.
pub record SameTables (s t : Server) : Type 0 where
  pub same_count : t.client_count ≡ s.client_count
  pub same_ids : t.id_table ≡ s.id_table
  pub same_indices : t.index_to_id ≡ s.index_to_id

pub server-IsListed :
    (this : ProxyServer) (t : Server)
    → IsListed this
    → SameTables this.server t
    → IsListed (record this { server = t })
server-IsListed this t v s = record {
  tables =
      subst (λ c. IsTable max_clients c t.id_table t.index_to_id) (sym s.same_count)
        (subst (λ a. IsTable max_clients this.server.client_count a t.index_to_id) (sym s.same_ids)
          (subst (IsTable max_clients this.server.client_count this.server.id_table)
            (sym s.same_indices) v.tables));
  counted = v.counted;
  listed = λ id. v.listed id ∙ ap (λ a. weight (a id)) (sym s.same_ids);
  sized = v.sized ∙ sym s.same_count;
  small = v.small;
}

-- A marked place.
marked-IsListed :
    (this : ProxyServer) (i id : ℕ) (t : Server)
    → IsListed this
    → i < this.list.client_count
    → this.list.id_table i ≡ some id
    → Removed this.server t id
    → IsListed (marked this i t)
unfolding names
marked-IsListed this i id t v h e r = record {
  tables = r.well_formed;
  counted = omega (
    arith,
    total-update weight this.list.client_count this.list.id_table i none h,
    v.counted,
    v.small,
    ap weight e,
  );
  listed = λ k. elim (ℕ_discrete id k) [
    | yes z ↦ omega (
      arith,
      total-update (names k) this.list.client_count this.list.id_table i none h,
      ap (names k) e,
      ap (λ w. names w (some id)) (sym z),
      names_self id,
      ap (λ w. weight (t.id_table w)) (sym z),
      ap weight r.is_free,
      v.listed k,
      weight-le (this.server.id_table k),
    )
    | no z ↦ omega (
      arith,
      total-update (names k) this.list.client_count this.list.id_table i none h,
      ap (names k) e,
      names_other k id z,
      r.other_taken k (λ q. z (sym q)),
      v.listed k,
    )
  ];
  sized = omega (
    arith,
    total-update weight this.list.client_count this.list.id_table i none h,
    v.sized,
    r.one_less,
    ap weight e,
  );
  small = v.small;
}

-- What is left of `visit`: the same list, but for a mark at the place.
pub record Visited (this end : ProxyServer) (i : ℕ) : Type 0 where
  pub fine : IsListed end
  pub same_length : end.list.client_count ≡ this.list.client_count
  pub later : (j : ℕ) → i < j → end.list.id_table j ≡ this.list.id_table j

removed-Visited :
    (this : ProxyServer) (i id : ℕ)
    → IsListed this
    → i < this.list.client_count
    → this.list.id_table i ≡ some id
    → (end : ProxyServer) × (fds : List ℕ) × (pr_remove_client this i ≡ (some end, fds))
      × Visited this end i
removed-Visited this i id v h e = elim (remove_client-Removed this.server id v.tables) [
  | inl (free, r) ↦ absurd (listed-taken this i id v h e free)
  | inr (taken, (t, r, d)) ↦ (
    marked this i t,
    _,
    left this i id t _ e r,
    record {
      fine = marked-IsListed this i id t v h e d;
      same_length = refl;
      later = λ j l. update_ne this.list.id_table i j none (λ q. absurd (omega arith));
    },
  )
]

transfer_ctos-SameTables :
    (io : Turn) (s : Server) (id p q : ℕ) → SameTables s (transfer_ctos io s id p q).1
unfolding transfer_ctos
transfer_ctos-SameTables io s id p q = record {
  same_count = refl;
  same_ids = refl;
  same_indices = refl;
}

serve-SameTables : (io : Turn) (s : Server) (id p q : ℕ) → SameTables s (serve io s id p q).1
unfolding serve transfer_ctos transfer_stoc
serve-SameTables io s id p q =
    if_elim (λ (r : Bool × Server). SameTables s r.1)
      (has_errors (s.clients p) || has_errors (s.clients q)) _ _ (λ e. same)
      (λ e.
        if_elim (λ (r : Bool × Server). SameTables s r.1) (transfer_ctos io s id p q).0 _ _
          (λ f. same) (λ f. same))
  where
    same : {b c : ℕ → IoBuffer} → SameTables s (record s { ctos_buffers = b; stoc_buffers = c })
    same = record { same_count = refl; same_ids = refl; same_indices = refl }

keep_or_remove-Visited :
    (this : ProxyServer) (i id : ℕ) (r : Bool × Server)
    → IsListed this
    → i < this.list.client_count
    → this.list.id_table i ≡ some id
    → SameTables this.server r.1
    → (end : ProxyServer) × (fds : List ℕ) × (keep_or_remove this i r ≡ (some end, fds))
      × Visited this end i
unfolding keep_or_remove
keep_or_remove-Visited this i id (true, s) v h e same = (
  record this { server = s },
  [],
  refl,
  record { fine = server-IsListed this s v same; same_length = refl; later = λ j l. refl },
)
keep_or_remove-Visited this i id (false, s) v h e same =
    let (end, fds, r, d) =
      removed-Visited (record this { server = s }) i id (server-IsListed this s v same) h e in
    (end, fds, r, record { fine = d.fine; same_length = d.same_length; later = d.later })

get_client-taken :
    (s : Server) (id k : ℕ)
    → IsServer s
    → s.id_table id ≡ some k
    → get_client s id ≡ some (poll_client_index k)
unfolding get_client
get_client-taken s id k v e = rw (place_of-some s id k v e, get_client) refl

get_server-taken :
    (s : Server) (id k : ℕ)
    → IsServer s
    → s.id_table id ≡ some k
    → get_server s id ≡ some (poll_server_index k)
unfolding get_server
get_server-taken s id k v e = rw (place_of-some s id k v e, get_server) refl

places-taken :
    (s : Server) (id k : ℕ)
    → IsServer s
    → s.id_table id ≡ some k
    → places s id ≡ some (poll_client_index k, poll_server_index k)
unfolding places
places-taken s id k v e =
    rw (get_client-taken s id k v e, places) (rw (get_server-taken s id k v e) refl)

pub visit-Visited :
    (io : Turn) (this : ProxyServer) (i id : ℕ)
    → IsListed this
    → i < this.list.client_count
    → this.list.id_table i ≡ some id
    → (end : ProxyServer) × (fds : List ℕ) × (visit io this i ≡ (some end, fds))
      × Visited this end i
unfolding visit
visit-Visited io this i id v h e = elim (Option-cases (this.server.id_table id)) [
  | inl free ↦ absurd (listed-taken this i id v h e free)
  | inr (k, at) ↦
      let (end, fds, r, d) =
        keep_or_remove-Visited this i id
          (serve io this.server id (poll_client_index k) (poll_server_index k)) v h e
          (serve-SameTables io this.server id (poll_client_index k) (poll_server_index k)) in
      (end, fds, rw (e, visit) (rw (places-taken this.server id k v.tables at) r), d)
]
