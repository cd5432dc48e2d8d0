-- ===== src/Sender/Order.antt =====
-- The client whose bytes a round of `fill_message` sends.
use os_unixvr4_labs.Common.{
  ℕ, ◌+◌, ◌<◌, ◌≡◌, refl, ◌∙◌, subst, true, false, Option, none, some, arith, Bool-cases,
  Option-cases, inl, inr, ◌==◌, mod-lt,
}
use os_unixvr4_labs.Cyclic.Counts.{cb_empty_lem}
use os_unixvr4_labs.Sender.{Clients, is_idle, first_place, next_message_client}
use os_unixvr4_labs.Sender.Choice.{IsChoice, next_message_client_lem}
use os_unixvr4_labs.Sender.Tunnel.{TunnelServer}
use os_unixvr4_labs.Sender.Rounds.{next_order}

idle-count :
    (list : Clients) (i : ℕ)
    → is_idle list i ≡ false
    → 0 < (list.client_buffers (list.id_table i)).count
unfolding is_idle
idle-count list i e = ground (arith, e, cb_empty_lem (list.client_buffers (list.id_table i)))

choice-in :
    (list : Clients) (start i : ℕ)
    → IsChoice list start (some i)
    → (i < list.client_count) × (0 < (list.client_buffers (list.id_table i)).count)
choice-in list start i c = (
  omega (
    arith,
    c.at_place,
    mod-lt (start + c.steps) {m = list.client_count} (omega (arith, c.in_round)),
  ),
  idle-count list i c.has_data,
)

module _ (this : TunnelServer) where
  next_order-none :
      this.send_order ≡ none
      → next_order this ≡ next_message_client this.list.client_count this.list none
  unfolding next_order
  next_order-none e = rw (e, next_order) refl

  next_order-fresh :
      (k : ℕ)
      → this.send_order ≡ some k
      → (this.send_count == 0) ≡ true
      → next_order this ≡ next_message_client this.list.client_count this.list (some k)
  unfolding next_order
  next_order-fresh k e z = rw (e, next_order) (rw z refl)

  next_order-same :
      (k : ℕ)
      → this.send_order ≡ some k
      → (this.send_count == 0) ≡ false
      → next_order this ≡ some (some k)
  unfolding next_order
  next_order-same k e z = rw (e, next_order) (rw z refl)

-- The choice always comes to an end; at the start of a client's bytes it is a client with data.
pub record Chosen (this : TunnelServer) : Type 0 where
  pub order : Option ℕ
  pub ends : next_order this ≡ some order
  pub busy :
      this.send_count ≡ 0
      → (i : ℕ) → order ≡ some i
      → (i < this.list.client_count) × (0 < (this.list.client_buffers (this.list.id_table i)).count)

choose_fresh :
    (this : TunnelServer) (previous : Option ℕ)
    → next_order this ≡ next_message_client this.list.client_count this.list previous
    → Chosen this
choose_fresh this previous e =
    let (r, q, c) =
      next_message_client_lem this.list.client_count this.list previous (omega arith) in
    let start = first_place this.list previous in
    record {
      order = r;
      ends = e ∙ q;
      busy = λ z i h. choice-in this.list start i (subst (IsChoice this.list start) h c);
    }

pub choose : (this : TunnelServer) → Chosen this
choose this = elim (Option-cases this.send_order) [
  | inl e ↦ choose_fresh this none (next_order-none this e)
  | inr (k, e) ↦ elim (Bool-cases (this.send_count == 0)) [
    | inl z ↦ choose_fresh this (some k) (next_order-fresh this k e z)
    | inr nz ↦ record {
      order = some k;
      ends = next_order-same this k e nz;
      busy = λ z. absurd (ground (arith, z, nz));
    }
  ]
]
