-- ===== src/Sender/Io.antt =====
-- What is kept when the clients' bytes come in.
use os_unixvr4_labs.Common.{
  ℕ, zero, suc, ◌+◌, ◌<◌, not, ◌&&◌, List, Option, none, some, ltb, if_elim, size_mod,
}
use os_unixvr4_labs.Cyclic.{CyclicBuffer, cb_recv, cb_full}
use os_unixvr4_labs.Cyclic.Counts.{count-recv}
use os_unixvr4_labs.Server.{client_fd, client_readable, client_has_errors}
use os_unixvr4_labs.Sender.Tunnel.{TunnelServer}
use os_unixvr4_labs.Sender.Rounds.{received, client_io_at, client_io_from, perform_client_io}
use os_unixvr4_labs.Sender.Kept.{IsKept, with_buffer-IsKept, remove-IsKept}

received-IsKept :
    {this : TunnelServer} (i : ℕ) (r : Option ℕ × CyclicBuffer)
    → IsKept this
    → r.1.count < size_mod
    → IsKept (received this i r)
unfolding received
received-IsKept {this} i (none, b) v l =
    remove-IsKept i (with_buffer-IsKept (this.list.id_table i) b v l)
received-IsKept {this} i (some n, b) v l = with_buffer-IsKept (this.list.id_table i) b v l

io_at-IsKept :
    {this : TunnelServer} (read : Option ℕ → ℕ → Option (List ℕ)) (i : ℕ)
    → IsKept this
    → IsKept (client_io_at read this i)
unfolding client_io_at
io_at-IsKept {this} read i v =
    if_elim IsKept (client_has_errors this.server (this.list.id_table i)) _ _
      (λ e. remove-IsKept i v)
      (λ e.
        if_elim IsKept
          (not (cb_full (this.list.client_buffers (this.list.id_table i)))
            && client_readable this.server (this.list.id_table i))
          (received this i (
            cb_recv (this.list.client_buffers (this.list.id_table i))
              (read (client_fd this.server (this.list.id_table i)))))
          this
          (λ f.
            received-IsKept i
              (cb_recv (this.list.client_buffers (this.list.id_table i))
                (read (client_fd this.server (this.list.id_table i))))
              v
              (count-recv (this.list.client_buffers (this.list.id_table i))
                (read (client_fd this.server (this.list.id_table i)))
                (v.counts (this.list.id_table i))))
          (λ f. v))

io_from-IsKept :
    (read : Option ℕ → ℕ → Option (List ℕ)) (rounds : ℕ) (this : TunnelServer)
    (i processed ioable_count : ℕ)
    → IsKept this
    → IsKept (client_io_from read rounds this i processed ioable_count)
unfolding client_io_from
io_from-IsKept read zero this i processed ioable_count v = v
io_from-IsKept read (suc rounds) this i processed ioable_count v =
    if_elim IsKept (ltb processed ioable_count) _ _
      (λ e.
        io_from-IsKept read rounds (client_io_at read this i) (i + 1) _ ioable_count
          (io_at-IsKept read i v))
      (λ e. v)

pub client_io-IsKept :
    {this : TunnelServer} (read : Option ℕ → ℕ → Option (List ℕ)) (ioable_count : ℕ)
    → IsKept this
    → IsKept (perform_client_io read this ioable_count)
unfolding perform_client_io
client_io-IsKept {this} read ioable_count v =
    io_from-IsKept read this.list.client_count this 0 _ ioable_count v
