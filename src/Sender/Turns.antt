-- ===== src/Sender/Turns.antt =====
-- The main loop of the sender over time.
use os_unixvr4_labs.Common.{
  ℕ, suc, ◌+◌, ◌≤◌, ◌≡◌, refl, ap, ◌∙◌, Bool, true, false, List, [], ◌∷◌, Option, none, some, arith,
  Bool-cases, Option-cases, inl, inr, length, sub_size,
}
use os_unixvr4_labs.Cyclic.Inv.{init-IsValid, send-IsValid}
use os_unixvr4_labs.Server.{
  Mask, started_server, max_clients, poll_listener_index, tunnel_pollable, write_mask, init_server,
}
use os_unixvr4_labs.Server.Reach.{started-IsServer}
use os_unixvr4_labs.TpBuffer.{tpb_init, tpb_send}
use os_unixvr4_labs.Sender.Tunnel.{
  TunnelServer, init_tserver, started_tserver, message_size, process_empty_removed, process_added,
}
use os_unixvr4_labs.Sender.Rounds.{
  Outcome, done, overrun, then_go, Lengths, Turn, fill_rounds, fill_added, fill_message,
  send_message, perform_client_io, perform_protocol_io, with_events, admit, ask_tunnel, serve,
  polled_turn, main_loop, waiting,
}
use os_unixvr4_labs.Sender.Kept.{IsKept, admit-IsKept, events-IsKept, ask-IsKept}
use os_unixvr4_labs.Sender.Io.{client_io-IsKept}
use os_unixvr4_labs.Sender.Fill.{
  Ends, ended_in, ran_over, Answers, empty_removed-Answers, added-Answers, with_tpb-IsKept,
}
use os_unixvr4_labs.Sender.Send.{fill_rounds-Ends, ended}

module _ (lengths : ℕ → Lengths) (this : TunnelServer) where
  added-false :
      (t : TunnelServer)
      → process_added (suc this.add_queue.count) this ≡ some (false, t)
      → fill_added lengths this ≡ done t
  unfolding fill_added
  added-false t e = rw (e, fill_added) refl

  added-true :
      (t : TunnelServer)
      → process_added (suc this.add_queue.count) this ≡ some (true, t)
      → fill_added lengths this ≡ fill_rounds (waiting t + 2) lengths t
  unfolding fill_added
  added-true t e = rw (e, fill_added) refl

  removed-false :
      (t : TunnelServer)
      → process_empty_removed this ≡ some (false, t)
      → fill_message lengths this ≡ done t
  unfolding fill_message
  removed-false t e = rw (e, fill_message) refl

  removed-true :
      (t : TunnelServer)
      → process_empty_removed this ≡ some (true, t)
      → fill_message lengths this ≡ fill_added lengths t
  unfolding fill_message
  removed-true t e = rw (e, fill_message) refl

fill_added-Ends :
    (lengths : ℕ → Lengths) (this : TunnelServer) → IsKept this → Ends (fill_added lengths this)
fill_added-Ends lengths this v = by_answer (added-Answers this v)
  where
    by_answer :
        Answers (process_added (suc this.add_queue.count) this) → Ends (fill_added lengths this)
    by_answer a = elim (Bool-cases a.answer) [
      | inl e ↦
          ended (added-true lengths this a.state (a.ends ∙ ap (λ x. some (x, a.state)) e))
            (fill_rounds-Ends lengths a.state a.kept)
      | inr e ↦
          ended_in a.state
            (added-false lengths this a.state (a.ends ∙ ap (λ x. some (x, a.state)) e)) a.kept
    ]

-- `fill_message` ends, whatever `message_length` gives, and no use of NULL is on its way.
pub fill_message-Ends :
    (lengths : ℕ → Lengths) (this : TunnelServer) → IsKept this → Ends (fill_message lengths this)
fill_message-Ends lengths this v = by_answer (empty_removed-Answers this v)
  where
    by_answer : Answers (process_empty_removed this) → Ends (fill_message lengths this)
    by_answer a = elim (Bool-cases a.answer) [
      | inl e ↦
          ended (removed-true lengths this a.state (a.ends ∙ ap (λ x. some (x, a.state)) e))
            (fill_added-Ends lengths a.state a.kept)
      | inr e ↦
          ended_in a.state
            (removed-false lengths this a.state (a.ends ∙ ap (λ x. some (x, a.state)) e)) a.kept
    ]

send-IsKept :
    {this : TunnelServer} (write : List ℕ → Option ℕ)
    → IsKept this
    → IsKept (send_message write this)
unfolding send_message tpb_send
send-IsKept {this} write v = elim (Bool-cases (tunnel_pollable this.server write_mask)) [
  | inl e ↦ rw e (with_tpb-IsKept (tpb_send this.tunnel_tpb write).1 v (send-IsValid write v.tpb))
  | inr e ↦ rw e v
]

-- What keeps everything may follow.
then_go-Ends :
    {r : Outcome} (next : TunnelServer → TunnelServer)
    → ((t : TunnelServer) → IsKept t → IsKept (next t))
    → Ends r
    → Ends (then_go r next)
unfolding then_go
then_go-Ends next keeps (ended_in state e v) =
    ended_in (next state) (ap (λ r. then_go r next) e) (keeps state v)
then_go-Ends next keeps (ran_over lengths state i e o v) =
    ran_over lengths state i (ap (λ r. then_go r next) e) o v

module _ (turn : Turn) (this : TunnelServer) where
  abbrev pending : Bool
  pending = (this.server.clients poll_listener_index).revents.pollin

  turn-idle : (n : ℕ) → pending ≡ false → polled_turn turn this n ≡ serve turn this n
  unfolding polled_turn
  turn-idle n e = rw e refl

  turn-failed :
      (n : ℕ) → pending ≡ true → turn.accepted ≡ none → polled_turn turn this n ≡ done this
  unfolding polled_turn
  turn-failed n e a = rw (e, polled_turn) (rw (a, polled_turn) refl)

  turn-accepted :
      (n fd : ℕ)
      → pending ≡ true
      → turn.accepted ≡ some fd
      → polled_turn turn this n ≡ serve turn (admit turn this fd) (sub_size n 1)
  unfolding polled_turn admit serve
  turn-accepted n fd e a = rw (e, polled_turn) (rw (a, polled_turn) refl)

serve-Ends : (turn : Turn) (this : TunnelServer) (n : ℕ) → IsKept this → Ends (serve turn this n)
unfolding serve perform_protocol_io
serve-Ends turn this n v =
    then_go-Ends ask_tunnel (λ t w. ask-IsKept w)
      (then_go-Ends (send_message turn.write) (λ t w. send-IsKept turn.write w)
        (fill_message-Ends turn.lengths (perform_client_io turn.read this n)
          (client_io-IsKept turn.read n v)))

turn-Ends :
    (turn : Turn) (this : TunnelServer) (n : ℕ) → IsKept this → Ends (polled_turn turn this n)
turn-Ends turn this n v = elim (Bool-cases (pending turn this)) [
  | inr e ↦ ended (turn-idle turn this n e) (serve-Ends turn this n v)
  | inl e ↦ elim (Option-cases turn.accepted) [
    | inl a ↦ ended_in this (turn-failed turn this n e a) v
    | inr (fd, a) ↦
        ended (turn-accepted turn this n fd e a)
          (serve-Ends turn (admit turn this fd) (sub_size n 1) (admit-IsKept turn fd v))
  ]
]

loop-over :
    (turn : Turn) (turns : List Turn) (this : TunnelServer)
    → turn.polled ≡ none
    → main_loop (turn ∷ turns) this ≡ done this
unfolding main_loop
loop-over turn turns this e = rw (e, main_loop) refl

loop-next :
    (turn : Turn) (turns : List Turn) (this next : TunnelServer) (n : ℕ) (revents : ℕ → Mask)
    → turn.polled ≡ some (n, revents)
    → polled_turn turn (with_events this revents) n ≡ done next
    → main_loop (turn ∷ turns) this ≡ main_loop turns next
unfolding main_loop
loop-next turn turns this next n revents e t = rw (e, main_loop) (rw (t, main_loop) refl)

loop-overrun :
    (turn : Turn) (turns : List Turn) (this next : TunnelServer) (n i : ℕ) (revents : ℕ → Mask)
    (lengths : Lengths)
    → turn.polled ≡ some (n, revents)
    → polled_turn turn (with_events this revents) n ≡ overrun lengths next i
    → main_loop (turn ∷ turns) this ≡ overrun lengths next i
unfolding main_loop
loop-overrun turn turns this next n i revents lengths e t =
    rw (e, main_loop) (rw (t, main_loop) refl)

main_loop-Ends :
    (turns : List Turn) (this : TunnelServer) → IsKept this → Ends (main_loop turns this)
main_loop-Ends [] this v = unfold main_loop in ended_in this refl v
main_loop-Ends (turn ∷ turns) this v = elim (Option-cases turn.polled) [
  | inl e ↦ ended_in this (loop-over turn turns this e) v
  | inr ((n, revents), e) ↦
      elim (turn-Ends turn (with_events this revents) n (events-IsKept revents v)) [
        | ended_in next q w ↦
            ended (loop-next turn turns this next n revents e q) (main_loop-Ends turns next w)
        | ran_over lengths next i q o w ↦
            ran_over lengths next i (loop-overrun turn turns this next n i revents lengths e q) o w
      ]
]

started-IsKept :
    (l t : ℕ) (text queue : List ℕ)
    → message_size ≤ length text
    → max_clients ≤ length queue
    → IsKept (started_tserver (started_server l t) text queue)
unfolding started_tserver tpb_init
started-IsKept l t text queue h k = record {
  tpb = init-IsValid text message_size (omega arith) (omega arith) h;
  queue = init-IsValid queue max_clients (omega arith) (omega arith) k;
  table = started-IsServer l t;
  counted = omega arith;
  counts = λ id. omega arith;
}

-- From a successful `init_tserver`, with both arrays as long as malloc was asked for, and whatever
-- poll, accept, read and write return and values `message_length` gives, the turns of the sender's
-- main loop come to one of two ends; none of its loops runs on, and `remove_client` never uses
-- NULL. Either they end in a state whose table of clients is well formed, and whose buffer for the
-- tunnel and queue of added clients are valid; or, in such a state, the bytes that `fill_message` is
-- about to send cannot be sent without a read outside the client's array, which is freed, or too
-- short for what is read. What the program does behind such a read is not stated.
pub main_loop-Kept :
    (listen_fd tunnel_fd : ℕ) (text queue : List ℕ) (turns : List Turn)
    → message_size ≤ length text
    → max_clients ≤ length queue
    → (s : TunnelServer) × (init_tserver (some listen_fd) (some tunnel_fd) text queue
        ≡ (some s, []))
      × Ends (main_loop turns s)
unfolding init_tserver init_server
main_loop-Kept l t text queue turns h k = (
  started_tserver (started_server l t) text queue,
  refl,
  main_loop-Ends turns (started_tserver (started_server l t) text queue)
      (started-IsKept l t text queue h k),
)
