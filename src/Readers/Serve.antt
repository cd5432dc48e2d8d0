-- ===== src/Readers/Serve.antt =====
-- lab31/lab31-server.c: `try_read` prints what every readable client has sent and removes those
-- that have ended.
use os_unixvr4_labs.Common.{
  ℕ, zero, suc, ◌+◌, ◌-◌, ◌≤◌, ◌<◌, ◌≡◌, ◌≢◌, refl, sym, ap, ap₂, subst, ◌∙◌, List, [], ◌++◌, map,
  Option, none, some, Bool, true, false, leb, add_size, sub_size, arith, inl, inr, max_object,
  Bool-cases, length, append_assoc, append-nil,
}
use os_unixvr4_labs.Proxy.Compact.{total, total-empty}
use os_unixvr4_labs.Readers.{
  Server, Outcome, upper, print_read, read_from, and_next, with_committed, commit, try_read,
}
use os_unixvr4_labs.Readers.Marks.{IsRested, commit_lem}
use os_unixvr4_labs.Readers.Visit.{
  bytes_of, total-cong, rested-IsMarked, got, to_print, readable_among, kept, cell, Progress,
  cell-before, kept-silent, visit, quiet,
}

module _ (is_lower : ℕ → Bool) (to_upper : ℕ → ℕ) (read : Option ℕ → ℕ → Option (List ℕ))
    (s : Server) where
  silent_step :
      (readable_count rounds : ℕ) (this : Outcome) (i read_fd : ℕ)
      → leb read_fd readable_count ≡ true
      → this.server.readable i ≡ false
      → read_from is_lower to_upper read readable_count (suc rounds) this i read_fd
        ≡ read_from is_lower to_upper read readable_count rounds this (suc i) read_fd
  unfolding read_from
  silent_step rc rounds this i read_fd go r = rw (go, r) refl

  read_step :
      (readable_count rounds : ℕ) (this t : Outcome) (i read_fd : ℕ)
      → leb read_fd readable_count ≡ true
      → this.server.readable i ≡ true
      → print_read is_lower to_upper this i (read (this.server.fds i) (length this.server.buf))
        ≡ some t
      → read_from is_lower to_upper read readable_count (suc rounds) this i read_fd
        ≡ read_from is_lower to_upper read readable_count rounds t (suc i) (add_size read_fd 1)
  unfolding read_from and_next
  read_step rc rounds this t i read_fd go r e = rw (go, r) (rw e refl)

  print-readable :
      (rounds i : ℕ)
      → s.readable i ≡ true
      → (to_print is_lower to_upper read s) (suc rounds) i
        ≡ map (upper is_lower to_upper) (bytes_of ((got is_lower to_upper read s) i))
          ++ (to_print is_lower to_upper read s) rounds (suc i)
  unfolding to_print
  print-readable rounds i r = rw r refl

  print-silent :
      (rounds i : ℕ)
      → s.readable i ≡ false
      → (to_print is_lower to_upper read s) (suc rounds) i
        ≡ (to_print is_lower to_upper read s) rounds (suc i)
  unfolding to_print
  print-silent rounds i r = rw r refl

  read_from_lem :
      (readable_count rounds : ℕ) (this : Outcome) (i read_fd : ℕ)
      → ((k : ℕ) → k < s.client_count → s.fds k ≢ none)
      → ((k : ℕ)
          → 0 < k
          → k < s.client_count
          → s.readable k ≡ true
          → (got is_lower to_upper read s) k ≢ none)
      → (Progress is_lower to_upper read s) this i
      → 0 < i
      → i + rounds ≡ s.client_count
      → read_fd < i
      → s.client_count < max_object
      → read_fd + (readable_among is_lower to_upper read s) rounds i ≤ readable_count
      → (end : Outcome) × (read_from is_lower to_upper read readable_count rounds this i read_fd
          ≡ some end)
        × (Progress is_lower to_upper read s) end s.client_count
        × (end.printed ≡ this.printed ++ (to_print is_lower to_upper read s) rounds i)
  unfolding readable_among read_from to_print
  read_from_lem rc zero this i read_fd used works v a e l small room = (
    this,
    refl,
    subst ((Progress is_lower to_upper read s) this) (omega arith) v,
    sym (append-nil this.printed),
  )
  read_from_lem rc (suc rounds) this i read_fd used works v a e l small room =
      elim (Bool-cases (s.readable i)) [
        | inr r ↦
            let (end, f, w, p) =
              read_from_lem rc rounds this (suc i) read_fd used works
                ((quiet is_lower to_upper read s) this i v
                  ((kept-silent is_lower to_upper read s) i r))
                (omega arith) (omega arith) (omega arith) small (ground (arith, room)) in
            (
              end,
              silent_step rc rounds this i read_fd go (here ∙ r) ∙ f,
              w,
              p ∙ ap (λ l. this.printed ++ l) (sym (print-silent rounds i r)),
            )
        | inl r ↦
            let (t, g, w, p) =
              (visit is_lower to_upper read s) this i ((got is_lower to_upper read s) i) refl
                (works i a (omega arith) r) r v a (omega arith) (used i (omega arith)) in
            let (end, f, w', p') =
              read_from_lem rc rounds t (suc i) (add_size read_fd 1) used works w (omega arith)
                (omega arith) (omega arith) small (ground (arith, room)) in
            (
              end,
              read_step rc rounds this t i read_fd go (here ∙ r)
                    (ap (print_read is_lower to_upper this i) asked ∙ g)
                  ∙ f,
              w',
              p'
                  ∙ ap (λ l. l ++ (to_print is_lower to_upper read s) rounds (suc i)) p
                  ∙ append_assoc this.printed
                      (map (upper is_lower to_upper) (bytes_of ((got is_lower to_upper read s) i)))
                      ((to_print is_lower to_upper read s) rounds (suc i))
                  ∙ ap (λ l. this.printed ++ l) (sym (print-readable rounds i r)),
            )
      ]
    where
      go : leb read_fd rc ≡ true
      go = ground (arith, room)

      here : this.server.readable i ≡ s.readable i
      here = ap (λ f. f i) v.same_readable

      asked : read (this.server.fds i) (length this.server.buf) ≡ (got is_lower to_upper read s) i
      asked = ap₂ read (v.cells i ∙ (cell-before is_lower to_upper read s) i) v.same_length

  start-Progress :
      IsRested s
      → (Progress is_lower to_upper read s) (record { server = s; printed = []; closed = [] }) 1
  unfolding cell kept
  start-Progress v = record {
    marked = rested-IsMarked s v;
    same_count = refl;
    same_readable = refl;
    same_length = refl;
    cells = λ k. ground arith;
  }

  cell-kept :
      (n k : ℕ) → k < n → (cell is_lower to_upper read s) n k ≡ (kept is_lower to_upper read s) k
  unfolding cell
  cell-kept n k h = ground arith

  -- `try_read` on a server between two calls, when no more clients are readable than
  -- `readable_count` says and read(2) gives no error for one: it prints in upper case what each readable client has sent, in the order of the array,
  -- removes those clients that are at the end of their input and keeps the others, each as often
  -- as before, and leaves the server ready for the next call.
  pub try_read_lem :
      (readable_count : ℕ)
      → IsRested s
      → ((k : ℕ)
          → 0 < k
          → k < s.client_count
          → s.readable k ≡ true
          → (got is_lower to_upper read s) k ≢ none)
      → (readable_among is_lower to_upper read s) (s.client_count - 1) 1 ≤ readable_count
      → (end : Outcome) × (try_read is_lower to_upper read s readable_count ≡ some end)
        × IsRested end.server
        × (end.printed ≡ (to_print is_lower to_upper read s) (s.client_count - 1) 1)
        × ((w : Option ℕ → ℕ)
            → w none ≡ 0
            → total w end.server.client_count end.server.fds
              ≡ total w s.client_count (kept is_lower to_upper read s))
  unfolding try_read and_next commit with_committed
  try_read_lem rc v works room =
      let (t, f, p, q) =
        read_from_lem rc (s.client_count - 1) (record { server = s; printed = []; closed = [] }) 1 0
          v.used works (start-Progress v) (omega arith) (omega (arith, v.listener)) (omega arith)
          v.small (omega (arith, room)) in
      let (end, g, c) = commit_lem t.server p.marked in
      (
        record t { server = end },
        ap (λ n. try_from n) less ∙ ap (λ o. and_next o commit) f ∙ ap (with_committed t) g,
        c.rested,
        q,
        λ w z.
            sym (
              total-empty w end.client_count t.server.client_count end.fds z c.compact.back
                c.shorter)
            ∙ c.compact.same w
            ∙ ap (λ n. total w n t.server.fds) p.same_count
            ∙ total-cong w s.client_count t.server.fds (kept is_lower to_upper read s)
                (λ k l. p.cells k ∙ cell-kept s.client_count k l),
      )
    where
      try_from : ℕ → Option Outcome
      try_from n =
          and_next
            (read_from is_lower to_upper read rc n
              (record { server = s; printed = []; closed = [] }) 1 0)
            commit

      less : sub_size s.client_count 1 ≡ s.client_count - 1
      less = omega (arith, v.listener, v.small)
