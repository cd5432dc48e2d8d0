-- ===== src/Server/Reach.antt =====
-- The server over time: what the program can make of it by its calls.
use os_unixvr4_labs.Common.{
  ℕ, ◌≡◌, sym, ap, ◌∙◌, Bool, Option, some, none, List, arith, subst, inl, inr, Option-cases,
}
use os_unixvr4_labs.Server.{
  Server, max_clients, init_server, started_server, set_tunnel_writeable, add_client, remove_client,
  disconnect_client, set_tunnel_writeable, get_client,
}
use os_unixvr4_labs.Server.Table.{IsServer, empty-IsTable}
use os_unixvr4_labs.Server.Add.{add_client_lem}
use os_unixvr4_labs.Server.Remove.{remove_client_lem}
use os_unixvr4_labs.Server.Steps.{disconnect_at_lem}

-- One call of the main loop, with the server before and after it.
pub data Call : Server → Server → Type 0 where
  added : {s t : Server} (fd : ℕ) (id : Option ℕ) → add_client s fd ≡ (id, t) → Call s t
  removed : {s t : Server} (id : ℕ) (fds : List ℕ) → remove_client s id ≡ (some t, fds) → Call s t
  disconnected :
      {s t : Server} (id : ℕ) (fds : List ℕ) → disconnect_client s id ≡ (t, fds) → Call s t
  tunnel_set : {s : Server} (writeable : Bool) → Call s (set_tunnel_writeable s writeable)

-- The servers that the calls reach from a successful `init_server`.
pub data Reached : Server → Type 0 where
  started :
      {s : Server} (listen_fd tunnel_fd : Option ℕ) (fds : List ℕ)
      → init_server listen_fd tunnel_fd ≡ (some s, fds)
      → Reached s
  after : {s t : Server} → Reached s → Call s t → Reached t

pub started-IsServer : (l t : ℕ) → IsServer (started_server l t)
started-IsServer l t = empty-IsTable max_clients

init-IsServer :
    (s : Server) (l t : Option ℕ) (fds : List ℕ) → init_server l t ≡ (some s, fds) → IsServer s
unfolding init_server
init-IsServer s none t fds e = absurd (ground arith)
init-IsServer s (some l) none fds e = absurd (ground arith)
init-IsServer s (some l) (some t) fds e =
    let q : started_server l t ≡ s = cc e in subst IsServer q (started-IsServer l t)

pub disconnect-IsServer : (s : Server) (id : ℕ) → IsServer s → IsServer ((disconnect_client s id).0)
unfolding disconnect_client
disconnect-IsServer s id v = elim (Option-cases (get_client s id)) [
  | inl e ↦ rw (e, disconnect_client) v
  | inr (p, e) ↦
      rw (e, disconnect_client)
        (subst (λ (d : Server × List ℕ). IsServer d.0) (sym ((disconnect_at_lem s p).1)) v)
]

pub tunnel-IsServer : (s : Server) (w : Bool) → IsServer s → IsServer (set_tunnel_writeable s w)
unfolding set_tunnel_writeable
tunnel-IsServer s w v = v

call-IsServer : {s t : Server} → Call s t → IsServer s → IsServer t
call-IsServer {s} {t} (added fd id e) v = elim (add_client_lem s fd v) [
  | inl (full, a) ↦ subst IsServer (ap (λ (d : Option ℕ × Server). d.1) (sym a ∙ e)) v
  | inr (room, (id', t', a, x)) ↦
      subst IsServer (ap (λ (d : Option ℕ × Server). d.1) (sym a ∙ e)) (x.well_formed)
]
call-IsServer {s} {t} (removed id fds e) v = elim (remove_client_lem s id v) [
  | inl (free, a) ↦ let q : s ≡ t = cc (a, e) in subst IsServer q v
  | inr (taken, (t', a, x)) ↦ let q : t' ≡ t = cc (a, e) in subst IsServer q (x.well_formed)
]
call-IsServer {s} {t} (disconnected id fds e) v =
    subst IsServer (ap (λ (d : Server × List ℕ). d.0) e) (disconnect-IsServer s id v)
call-IsServer {s} (tunnel_set w) v = tunnel-IsServer s w v

-- Every server that the calls of `add_client`, `remove_client`, `disconnect_client` and
-- `set_tunnel_writeable` reach from a successful `init_server` is well formed.
pub reached-IsServer : (s : Server) → Reached s → IsServer s
reached-IsServer s (started l t fds e) = init-IsServer s l t fds e
reached-IsServer s (after r c) = call-IsServer c (reached-IsServer _ r)
