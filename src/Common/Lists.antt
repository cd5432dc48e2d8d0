-- ===== src/Common/Lists.antt =====
-- C arrays as lists, measured and indexed by native numbers.
use Prim.Native.Nat.{ℕ, zero, suc, ◌+◌, ◌-◌, ◌≤◌, ◌<◌, min}
use mathlib.Core.Path.{◌≡◌, refl, ap, ◌∙◌}
use mathlib.Core.Logic.{◌≢◌}
use mathlib.Core.List.{List, [], ◌∷◌, ◌++◌}
use mathlib.Core.Option.{Option, none, some}
use native.Mathlib.Omega.{arith}

module _ {ℓ} {A : Type ℓ} where
  abbrev pub length : List A → ℕ
  length [] = 0
  length (x ∷ xs) = suc (length xs)

  abbrev pub get_elem? : List A → ℕ → Option A
  get_elem? [] i = none
  get_elem? (x ∷ xs) zero = some x
  get_elem? (x ∷ xs) (suc i) = get_elem? xs i

  abbrev pub get_or : List A → ℕ → A → A
  get_or [] i d = d
  get_or (x ∷ xs) zero d = x
  get_or (x ∷ xs) (suc i) d = get_or xs i d

  -- A write out of bounds changes nothing.
  abbrev pub set : List A → ℕ → A → List A
  set [] i v = []
  set (x ∷ xs) zero v = v ∷ xs
  set (x ∷ xs) (suc i) v = x ∷ set xs i v

  abbrev pub take : ℕ → List A → List A
  take zero xs = []
  take (suc n) [] = []
  take (suc n) (x ∷ xs) = x ∷ take n xs

  abbrev pub drop : ℕ → List A → List A
  drop zero xs = xs
  drop (suc n) [] = []
  drop (suc n) (x ∷ xs) = drop n xs

  -- memcpy of `xs` to the place `i` of an array.
  abbrev pub write_at : List A → ℕ → List A → List A
  write_at buf i [] = buf
  write_at buf i (x ∷ xs) = write_at (set buf i x) (i + 1) xs

  pub length-append : (xs ys : List A) → length (xs ++ ys) ≡ length xs + length ys
  length-append [] ys = omega arith
  length-append (x ∷ xs) ys = omega (arith, length-append xs ys)

  pub length-set : (xs : List A) (i : ℕ) (v : A) → length (set xs i v) ≡ length xs
  length-set [] i v = refl
  length-set (x ∷ xs) zero v = refl
  length-set (x ∷ xs) (suc i) v = ap suc (length-set xs i v)

  pub get_or-set_self :
      (xs : List A) (i : ℕ) (v d : A) → i < length xs → get_or (set xs i v) i d ≡ v
  get_or-set_self [] i v d h = absurd (omega arith)
  get_or-set_self (x ∷ xs) zero v d h = refl
  get_or-set_self (x ∷ xs) (suc i) v d h = get_or-set_self xs i v d (omega arith)

  pub get_or-set_ne :
      (xs : List A) (i j : ℕ) (v d : A) → i ≢ j → get_or (set xs i v) j d ≡ get_or xs j d
  get_or-set_ne [] i j v d h = refl
  get_or-set_ne (x ∷ xs) zero zero v d h = absurd (h refl)
  get_or-set_ne (x ∷ xs) zero (suc j) v d h = refl
  get_or-set_ne (x ∷ xs) (suc i) zero v d h = refl
  get_or-set_ne (x ∷ xs) (suc i) (suc j) v d h = get_or-set_ne xs i j v d (λ e. h (ap suc e))

  pub length-write_at :
      (buf : List A) (i : ℕ) (xs : List A) → length (write_at buf i xs) ≡ length buf
  length-write_at buf i [] = refl
  length-write_at buf i (x ∷ xs) =
      omega (arith, length-write_at (set buf i x) (i + 1) xs, length-set buf i x)

  pub length-take : (n : ℕ) (xs : List A) → length (take n xs) ≡ min n (length xs)
  length-take zero xs = omega arith
  length-take (suc n) [] = omega arith
  length-take (suc n) (x ∷ xs) = omega (arith, length-take n xs)

  pub length-drop : (n : ℕ) (xs : List A) → length (drop n xs) ≡ length xs - n
  length-drop zero xs = omega arith
  length-drop (suc n) [] = omega arith
  length-drop (suc n) (x ∷ xs) = omega (arith, length-drop n xs)

  pub take-all : (xs : List A) (n : ℕ) → length xs ≤ n → take n xs ≡ xs
  take-all [] zero h = refl
  take-all [] (suc n) h = refl
  take-all (x ∷ xs) zero h = absurd (omega arith)
  take-all (x ∷ xs) (suc n) h = ap (◌∷◌ x) (take-all xs n (omega arith))

  -- A prefix that reaches behind the first of two lists.
  pub take-append_more :
      (xs ys : List A) (k : ℕ) → take (length xs + k) (xs ++ ys) ≡ xs ++ take k ys
  take-append_more [] ys k = ap (λ n. take n ys) (omega arith)
  take-append_more (x ∷ xs) ys k =
      ap (λ n. take n (x ∷ xs ++ ys)) {x = suc (length xs) + k} {y = suc (length xs + k)}
        (omega arith)
      ∙ ap (◌∷◌ x) (take-append_more xs ys k)

  pub take-append-drop : (n : ℕ) (xs : List A) → take n xs ++ drop n xs ≡ xs
  take-append-drop zero xs = refl
  take-append-drop (suc n) [] = refl
  take-append-drop (suc n) (x ∷ xs) = ap (◌∷◌ x) (take-append-drop n xs)

  -- A write before or behind a place leaves it alone.
  pub get_or-write_at_lt :
      (buf : List A) (i : ℕ) (xs : List A) (j : ℕ) (d : A)
      → j < i
      → get_or (write_at buf i xs) j d ≡ get_or buf j d
  get_or-write_at_lt buf i [] j d h = refl
  get_or-write_at_lt buf i (x ∷ xs) j d h =
      ground (arith, get_or-write_at_lt (set buf i x) (i + 1) xs j d, get_or-set_ne buf i j x d)

  pub get_or-write_at_ge :
      (buf : List A) (i : ℕ) (xs : List A) (j : ℕ) (d : A)
      → i + length xs ≤ j
      → get_or (write_at buf i xs) j d ≡ get_or buf j d
  get_or-write_at_ge buf i [] j d h = refl
  get_or-write_at_ge buf i (x ∷ xs) j d h =
      ground (arith, get_or-write_at_ge (set buf i x) (i + 1) xs j d, get_or-set_ne buf i j x d)

  -- A write within the array is read back.
  pub get_or-write_at :
      (buf : List A) (i : ℕ) (xs : List A) (k : ℕ) (d : A)
      → i + length xs ≤ length buf
      → k < length xs
      → get_or (write_at buf i xs) (i + k) d ≡ get_or xs k d
  get_or-write_at buf i [] k d h l = absurd (omega arith)
  get_or-write_at buf i (x ∷ xs) zero d h l = ground (
    arith,
    add_zero i,
    get_or-write_at_lt (set buf i x) (i + 1) xs i d,
    get_or-set_self buf i x d,
  )
    where
      add_zero : (n : ℕ) → n + zero ≡ n
      add_zero n = omega arith
  get_or-write_at buf i (x ∷ xs) (suc k) d h l =
      ground (arith, length-set buf i x, get_or-write_at (set buf i x) (i + 1) xs k d, shift)
    where
      shift : i + suc k ≡ i + 1 + k
      shift = omega arith

  -- So is every place that the write does not reach.
  pub get_or-write_at_ne :
      (buf : List A) (i : ℕ) (xs : List A) (k : ℕ) (d : A)
      → ((j : ℕ) → j < length xs → i + j ≢ k)
      → get_or (write_at buf i xs) k d ≡ get_or buf k d
  get_or-write_at_ne buf i [] k d h = refl
  get_or-write_at_ne buf i (x ∷ xs) k d h =
      get_or-write_at_ne (set buf i x) (i + 1) xs k d
        (λ j l e. h (j + 1) (omega arith) (omega arith))
      ∙ get_or-set_ne buf i k x d (λ e. h 0 (omega arith) (omega arith))

  pub take-drop :
      (xs : List A) (j m : ℕ) (d : A)
      → j < length xs
      → take (suc m) (drop j xs) ≡ get_or xs j d ∷ take m (drop (suc j) xs)
  take-drop [] j m d lt = absurd (omega arith)
  take-drop (x ∷ xs) zero m d lt = refl
  take-drop (x ∷ xs) (suc j) m d lt = take-drop xs j m d (omega arith)

  pub drop-eq-nil : (xs : List A) (n : ℕ) → length xs ≤ n → drop n xs ≡ []
  drop-eq-nil [] zero h = refl
  drop-eq-nil [] (suc n) h = refl
  drop-eq-nil (x ∷ xs) zero h = absurd (omega arith)
  drop-eq-nil (x ∷ xs) (suc n) h = drop-eq-nil xs n (omega arith)

  abbrev pub replicate : ℕ → A → List A
  replicate zero a = []
  replicate (suc n) a = a ∷ replicate n a

  pub length-replicate : (n : ℕ) (a : A) → length (replicate n a) ≡ n
  length-replicate zero a = refl
  length-replicate (suc n) a = ap suc (length-replicate n a)
