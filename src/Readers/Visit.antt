-- ===== src/Readers/Visit.antt =====
-- lab31/lab31-server.c: what `try_read` is to print and to keep, and a visit of a client.
use os_unixvr4_labs.Common.{
  ℕ, zero, suc, ◌+◌, ◌<◌, ◌≡◌, ◌≢◌, refl, sym, ap, ap₂, ◌∙◌, List, [], ◌∷◌, ◌++◌, map, Option, none,
  some, Bool, true, false, if◌then◌else◌, ltb, update, update_ne, update_self, arith, inl, inr,
  Option-cases, ◌==◌, ◌&&◌, length, length-write_at, write_at, append-nil,
}
use native.Mathlib.Decide.{ℕ_discrete}
use os_unixvr4_labs.Proxy.Compact.{total}
use os_unixvr4_labs.Proxy.Commit.{total-used}
use os_unixvr4_labs.Readers.{Server, Outcome, mark, remove_client, upper, print_read}
use os_unixvr4_labs.Readers.Marks.{IsMarked, IsRested, mark-IsMarked}

abbrev pub bytes_of : Option (List ℕ) → List ℕ
bytes_of none = []
bytes_of (some bytes) = bytes

abbrev pub ends : Option (List ℕ) → Bool
ends none = false
ends (some []) = true
ends (some (c ∷ cs)) = false

pub total-cong :
    (w : Option ℕ → ℕ) (n : ℕ) (t u : ℕ → Option ℕ)
    → ((k : ℕ) → k < n → t k ≡ u k)
    → total w n t ≡ total w n u
unfolding total
total-cong w zero t u h = refl
total-cong w (suc n) t u h =
    ap₂ ◌+◌ (total-cong w n t u (λ k l. h k (omega arith))) (ap w (h n (omega arith)))

pub rested-IsMarked : (s : Server) → IsRested s → IsMarked s
rested-IsMarked s v = record {
  counted = omega (arith, total-used s.client_count s.fds v.used, v.none_marked);
  listener = (v.listener, v.used 0 v.listener);
  before_first = λ k l. absurd (omega (arith, v.no_first, l));
  first_in = omega (arith, v.listener, v.no_first);
  no_first = (λ q. v.none_marked, λ q. v.no_first);
  small = v.small;
}

module _ (is_lower : ℕ → Bool) (to_upper : ℕ → ℕ) (read : Option ℕ → ℕ → Option (List ℕ))
    (s : Server) where
  -- What read(2) gives for the client at a place.
  abbrev pub got : ℕ → Option (List ℕ)
  got i = read (s.fds i) (length s.buf)

  -- What is to be printed for the clients of some places from `i` on, in their order.
  unfoldable pub to_print : ℕ → ℕ → List ℕ
  to_print zero i = []
  to_print (suc rounds) i =
      (if s.readable i then map (upper is_lower to_upper) (bytes_of (got i)) else [])
      ++ to_print rounds (suc i)

  unfoldable pub readable_among : ℕ → ℕ → ℕ
  readable_among zero i = 0
  readable_among (suc rounds) i = (if s.readable i then 1 else 0) + readable_among rounds (suc i)

  -- The array without the clients that have ended.
  unfoldable pub kept : ℕ → Option ℕ
  kept i = if ltb 0 i && (s.readable i && ends (got i)) then none else s.fds i

  -- The array when the places before `i` have been visited.
  unfoldable pub cell : ℕ → ℕ → Option ℕ
  cell i k = if ltb k i then kept k else s.fds k

  pub record Progress (this : Outcome) (i : ℕ) : Type 0 where
    pub marked : IsMarked this.server
    pub same_count : this.server.client_count ≡ s.client_count
    pub same_readable : this.server.readable ≡ s.readable
    pub same_length : length this.server.buf ≡ length s.buf
    pub cells : (k : ℕ) → this.server.fds k ≡ cell i k

  pub cell-same : (i k : ℕ) → k ≢ i → cell (suc i) k ≡ cell i k
  unfolding cell
  cell-same i k h = ground arith

  pub cell-before : (i : ℕ) → cell i i ≡ s.fds i
  unfolding cell
  cell-before i = ground arith

  pub cell-after : (i : ℕ) → cell (suc i) i ≡ kept i
  unfolding cell
  cell-after i = ground arith

  pub kept-silent : (i : ℕ) → s.readable i ≡ false → kept i ≡ s.fds i
  unfolding kept
  kept-silent i e = ground arith

  pub kept-going : (i : ℕ) (c : ℕ) (cs : List ℕ) → got i ≡ some (c ∷ cs) → kept i ≡ s.fds i
  unfolding kept
  kept-going i c cs e = rw e (ground arith)

  pub kept-ended : (i : ℕ) → 0 < i → s.readable i ≡ true → got i ≡ some [] → kept i ≡ none
  unfolding kept
  kept-ended i l r e = rw e (ground arith)

  -- A client is visited and nothing changes in the array.
  pub passed :
      (this : Outcome) (i : ℕ)
      → Progress this i
      → kept i ≡ s.fds i
      → (k : ℕ) → this.server.fds k ≡ cell (suc i) k
  passed this i v e k = elim (ℕ_discrete k i) [
    | yes z ↦
        v.cells k
        ∙ ap (cell i) z
        ∙ cell-before i
        ∙ sym e
        ∙ sym (cell-after i)
        ∙ ap (cell (suc i)) (sym z)
    | no z ↦ v.cells k ∙ sym (cell-same i k z)
  ]

  pub stored : {this : Server} {buf : List ℕ} → IsMarked this → IsMarked (record this { buf = buf })
  stored v = record {
    counted = v.counted;
    listener = v.listener;
    before_first = v.before_first;
    first_in = v.first_in;
    no_first = v.no_first;
    small = v.small;
  }

  pub removed :
      (this : Outcome) (i fd : ℕ)
      → 0 < i
      → this.server.fds i ≡ some fd
      → remove_client this i ≡ mark this i (some fd)
  unfolding remove_client
  removed this i fd a at = let e : (i == 0) ≡ false = ground arith in rw e (ap (mark this i) at)

  pub ended :
      (this : Outcome) (i fd : ℕ)
      → got i ≡ some []
      → s.readable i ≡ true
      → Progress this i
      → 0 < i
      → i < s.client_count
      → this.server.fds i ≡ some fd
      → Progress (mark this i (some fd)) (suc i)
  unfolding mark
  ended this i fd e r v a b at = record {
    marked = mark-IsMarked this i fd v.marked a (omega (arith, v.same_count)) at;
    same_count = v.same_count;
    same_readable = v.same_readable;
    same_length = v.same_length;
    cells = λ k. elim (ℕ_discrete k i) [
      | yes z ↦
          ap (update this.server.fds i none) z
          ∙ update_self this.server.fds i none
          ∙ sym (kept-ended i a r e)
          ∙ sym (cell-after i)
          ∙ ap (cell (suc i)) (sym z)
      | no z ↦
          update_ne this.server.fds i k none (λ q. z (sym q)) ∙ v.cells k ∙ sym (cell-same i k z)
    ];
  }

  pub visit :
      (this : Outcome) (i : ℕ) (o : Option (List ℕ))
      → got i ≡ o
      → o ≢ none
      → s.readable i ≡ true
      → Progress this i
      → 0 < i
      → i < s.client_count
      → s.fds i ≢ none
      → (t : Outcome) × (print_read is_lower to_upper this i o ≡ some t)
        × Progress t (suc i)
        × (t.printed ≡ this.printed ++ map (upper is_lower to_upper) (bytes_of o))
  unfolding print_read mark
  visit this i none e h r v a b u = absurd (h refl)
  visit this i (some []) e h r v a b u = elim (Option-cases (s.fds i)) [
    | inl free ↦ absurd (u free)
    | inr (fd, f) ↦
        let at : this.server.fds i ≡ some fd = v.cells i ∙ cell-before i ∙ f in
        (
          mark this i (some fd),
          ap some (removed this i fd a at),
          ended this i fd e r v a b at,
          sym (append-nil this.printed),
        )
  ]
  visit this i (some (c ∷ cs)) e h r v a b u = (
    record {
      server = record (this.server) {
        buf = write_at this.server.buf 0 (map (upper is_lower to_upper) (c ∷ cs));
      };
      printed = this.printed ++ map (upper is_lower to_upper) (c ∷ cs);
      closed = this.closed;
    },
    refl,
    record {
      marked = stored v.marked;
      same_count = v.same_count;
      same_readable = v.same_readable;
      same_length =
          length-write_at this.server.buf 0 (map (upper is_lower to_upper) (c ∷ cs))
          ∙ v.same_length;
      cells = passed this i v (kept-going i c cs e);
    },
    refl,
  )

  pub quiet : (this : Outcome) (i : ℕ) → Progress this i → kept i ≡ s.fds i → Progress this (suc i)
  quiet this i v e = record {
    marked = v.marked;
    same_count = v.same_count;
    same_readable = v.same_readable;
    same_length = v.same_length;
    cells = passed this i v e;
  }
