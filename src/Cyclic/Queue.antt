-- ===== src/Cyclic/Queue.antt =====
-- The abstract view: a first-in first-out queue of at most `cap` bytes, oldest first.
use os_unixvr4_labs.Common.{
  ℕ, ◌-◌, Bool, true, false, List, [], ◌∷◌, ◌++◌, Option, none, some, ltb, if◌then◌else◌, drop,
  length,
}

abbrev pub Queue : Type 0
Queue = List ℕ

-- What a client asks of a buffer. `recv` and `send` carry what the system call does.
pub data Op : Type 0 where
  put : ℕ → Op
  get peek clear shift : Op
  skip : ℕ → Op
  recv : (ℕ → Option (List ℕ)) → Op
  send : (List ℕ → Option ℕ) → Op

-- What the client sees of a call.
pub data Reply : Type 0 where
  done : Reply
  flag : Bool → Reply
  byte : Option ℕ → Reply
  count : Option ℕ → Reply

unfoldable pub get_front : Queue → Reply × Queue
get_front [] = (byte none, [])
get_front (x ∷ q) = (byte (some x), q)

unfoldable pub front : Queue → Reply
front [] = byte none
front (x ∷ q) = byte (some x)

unfoldable pub receive : Option (List ℕ) → Queue → Reply × Queue
receive none q = (count none, q)
receive (some []) q = (count none, q)
receive (some (x ∷ xs)) q = (count (some (length (x ∷ xs))), q ++ (x ∷ xs))

unfoldable pub transmit : Option ℕ → Queue → Reply × Queue
transmit none q = (count none, q)
transmit (some n) q = (count (some n), drop n q)

module _ (cap : ℕ) where
  unfoldable pub step : Queue → Op → Reply × Queue
  unfolding get_front front receive transmit
  step q (put x) = if ltb (length q) cap then (flag true, q ++ x ∷ []) else (flag false, q)
  step q get = get_front q
  step q peek = (front q, q)
  step q clear = (done, [])
  step q shift = (done, q)
  step q (skip n) = (done, drop n q)
  step q (recv read) = receive (read (cap - length q)) q
  step q (send write) = transmit (write q) q

  -- The replies to a sequence of calls.
  unfoldable pub run : Queue → List Op → List Reply
  run q [] = []
  run q (op ∷ ops) = (step q op).0 ∷ run (step q op).1 ops
