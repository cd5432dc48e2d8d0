-- ===== src/Sender/Kept.antt =====
-- What the main loop keeps: the table of clients is well formed, the buffer for the tunnel and the
-- queue of added clients are valid, and no counter is near the end of size_t.
use os_unixvr4_labs.Common.{
  ℕ, ◌<◌, ◌≡◌, refl, sym, ap, subst, List, [], ◌∷◌, ◌++◌, some, arith, inl, inr, if_elim, update,
  size_mod, sub_size, ◌%◌,
}
use os_unixvr4_labs.Cyclic.{CyclicBuffer, cb_init, cb_free}
use os_unixvr4_labs.Cyclic.Inv.{IsValid, putc-IsValid}
use os_unixvr4_labs.Cyclic.Counts.{count-init, count-free}
use os_unixvr4_labs.Server.{Server, Mask, is_full, client_fd}
use os_unixvr4_labs.Server.Table.{IsServer}
use os_unixvr4_labs.Server.Add.{add_client_lem}
use os_unixvr4_labs.Server.Remove.{remove_client_lem}
use os_unixvr4_labs.Server.Steps.{closed_fds}
use os_unixvr4_labs.Server.Reach.{disconnect-IsServer, tunnel-IsServer}
use os_unixvr4_labs.Sender.Tunnel.{
  TunnelServer, added_as, removed_as, ts_remove_client, ts_add_client, listed, unlisted,
  ts_actual_remove, buffer_size,
}
use os_unixvr4_labs.Sender.Rounds.{with_buffer, with_events, admit, ask_tunnel, Turn}

pub record IsKept (this : TunnelServer) : Type 0 where
  pub tpb : IsValid this.tunnel_tpb.buffer
  pub queue : IsValid this.add_queue
  pub table : IsServer this.server
  pub counted : this.list.client_count < size_mod
  pub counts : (id : ℕ) → (this.list.client_buffers id).count < size_mod

-- A bound on the buffers stands when one of them is replaced by another that meets it.
counts-update :
    (f : ℕ → CyclicBuffer) (id : ℕ) (b : CyclicBuffer)
    → ((k : ℕ) → (f k).count < size_mod)
    → b.count < size_mod
    → (k : ℕ) → (update f id b k).count < size_mod
counts-update f id b h l k = ground (arith, h k)

pub with_buffer-IsKept :
    {this : TunnelServer} (id : ℕ) (b : CyclicBuffer)
    → IsKept this
    → b.count < size_mod
    → IsKept (with_buffer this id b)
unfolding with_buffer
with_buffer-IsKept {this} id b v l = record {
  tpb = v.tpb;
  queue = v.queue;
  table = v.table;
  counted = v.counted;
  counts = counts-update this.list.client_buffers id b v.counts l;
}

pub remove-IsKept : {this : TunnelServer} (i : ℕ) → IsKept this → IsKept (ts_remove_client this i)
unfolding ts_remove_client
remove-IsKept {this} i v = record {
  tpb = v.tpb;
  queue = v.queue;
  table = disconnect-IsServer this.server (this.list.id_table i) v.table;
  counted = v.counted;
  counts = v.counts;
}

listed-IsKept :
    {this : TunnelServer} (s : Server) (id : ℕ) (fresh back : List ℕ)
    → IsKept this
    → IsServer s
    → IsKept (listed this s id fresh back)
unfolding listed
listed-IsKept {this} s id fresh back v t = record {
  tpb = v.tpb;
  queue = putc-IsValid (id % 256) v.queue;
  table = t;
  counted = omega arith;
  counts =
      counts-update this.list.client_buffers id (cb_init fresh buffer_size) v.counts
        (omega (arith, count-init fresh buffer_size));
}

add-IsKept :
    {this : TunnelServer} (fd : ℕ) (fresh back : List ℕ)
    → IsKept this
    → IsKept (ts_add_client this fd fresh back).1
unfolding ts_add_client added_as
add-IsKept {this} fd fresh back v = elim (add_client_lem this.server fd v.table) [
  | inl (full, a) ↦
      subst (λ r. IsKept (added_as this r fresh back).1) (sym a)
        (record {
          tpb = v.tpb;
          queue = v.queue;
          table = v.table;
          counted = v.counted;
          counts = v.counts;
        })
  | inr (room, (id, t, a, x)) ↦
      subst (λ r. IsKept (added_as this r fresh back).1) (sym a)
        (listed-IsKept t id fresh back v x.well_formed)
]

pub admit-IsKept :
    {this : TunnelServer} (turn : Turn) (fd : ℕ) → IsKept this → IsKept (admit turn this fd)
unfolding admit
admit-IsKept {this} turn fd v =
    if_elim IsKept (is_full this.server) (record this { closed = this.closed ++ fd ∷ [] })
      (ts_add_client this fd turn.fresh turn.back).1
      (λ e. record {
        tpb = v.tpb;
        queue = v.queue;
        table = v.table;
        counted = v.counted;
        counts = v.counts;
      })
      (λ e. add-IsKept fd turn.fresh turn.back v)

unlisted-IsKept :
    {this : TunnelServer} (s : Server) (fds : List ℕ) (i : ℕ)
    → IsKept this
    → IsServer s
    → IsKept (unlisted this s fds i)
unfolding unlisted
unlisted-IsKept {this} s fds i v t = record {
  tpb = v.tpb;
  queue = v.queue;
  table = t;
  counted = omega arith;
  counts =
      counts-update this.list.client_buffers (this.list.id_table i)
        (cb_free (this.list.client_buffers (this.list.id_table i))) v.counts
        (omega (arith, count-free (this.list.client_buffers (this.list.id_table i))));
}

-- `ts_actual_remove` never uses NULL, and takes one from the count.
pub actual_remove-IsKept :
    {this : TunnelServer} (i : ℕ)
    → IsKept this
    → (t : TunnelServer) × (ts_actual_remove this i ≡ some t)
      × IsKept t
      × (t.list.client_count ≡ sub_size this.list.client_count 1)
unfolding ts_actual_remove removed_as unlisted
actual_remove-IsKept {this} i v =
    elim (remove_client_lem this.server (this.list.id_table i) v.table) [
      | inl (free, a) ↦ (
        unlisted this this.server [] i,
        ap (λ r. removed_as this r i) a,
        unlisted-IsKept this.server [] i v v.table,
        refl,
      )
      | inr (taken, (s, a, x)) ↦ (
        unlisted this s (closed_fds (client_fd this.server (this.list.id_table i))) i,
        ap (λ r. removed_as this r i) a,
        unlisted-IsKept s (closed_fds (client_fd this.server (this.list.id_table i))) i v
            x.well_formed,
        refl,
      )
    ]

pub events-IsKept :
    {this : TunnelServer} (revents : ℕ → Mask) → IsKept this → IsKept (with_events this revents)
unfolding with_events
events-IsKept revents v = record {
  tpb = v.tpb;
  queue = v.queue;
  table = v.table;
  counted = v.counted;
  counts = v.counts;
}

pub ask-IsKept : {this : TunnelServer} → IsKept this → IsKept (ask_tunnel this)
unfolding ask_tunnel
ask-IsKept {this} v = record {
  tpb = v.tpb;
  queue = v.queue;
  table = tunnel-IsServer this.server _ v.table;
  counted = v.counted;
  counts = v.counts;
}
