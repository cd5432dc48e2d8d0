-- ===== src/Lines/Array.antt =====
-- Arrays that grow by realloc(3), and the part of them that is filled.
use os_unixvr4_labs.Common.{
  ℕ, zero, suc, ◌≤◌, ◌<◌, ◌≡◌, refl, sym, ap, ◌∙◌, List, [], ◌∷◌, ◌++◌, length, length-append,
  arith, take, set, get_or, map, get_elem?, write_at, drop, some, none, ap₂, append-nil,
  append_assoc,
}

-- `realloc xs n` is what realloc(3) makes of the array `xs` for `n` cells, when it succeeds: it
-- keeps the old cells and has `n` of them.
pub record KeepsCells (realloc : List ℕ → ℕ → List ℕ) : Type 0 where
  pub cells : (xs : List ℕ) (n : ℕ) → length xs ≤ n → take (length xs) (realloc xs n) ≡ xs
  pub size : (xs : List ℕ) (n : ℕ) → length xs ≤ n → length (realloc xs n) ≡ n

pub take-set_snoc :
    (xs : List ℕ) (n v : ℕ) → n < length xs → take (suc n) (set xs n v) ≡ take n xs ++ v ∷ []
take-set_snoc [] n v h = absurd (omega arith)
take-set_snoc (x ∷ xs) zero v h = refl
take-set_snoc (x ∷ xs) (suc n) v h = ap (λ z. x ∷ z) (take-set_snoc xs n v (omega arith))

pub take-set_later : (xs : List ℕ) (n i v : ℕ) → n ≤ i → take n (set xs i v) ≡ take n xs
take-set_later [] n i v h = refl
take-set_later (x ∷ xs) zero i v h = refl
take-set_later (x ∷ xs) (suc n) zero v h = absurd (omega arith)
take-set_later (x ∷ xs) (suc n) (suc i) v h =
    ap (λ z. x ∷ z) (take-set_later xs n i v (omega arith))

take-prefix :
    (xs ys : List ℕ) (n : ℕ) → n ≤ length xs → take (length xs) ys ≡ xs → take n ys ≡ take n xs
take-prefix xs ys zero h e = refl
take-prefix [] ys (suc n) h e = absurd (omega arith)
take-prefix (x ∷ xs) [] (suc n) h e = absurd (omega (arith, ap length e))
take-prefix (x ∷ xs) (y ∷ ys) (suc n) h e =
    let same : y ≡ x = ap (λ z. get_or z 0 0) e in
    ap (λ z. z ∷ take n ys) same ∙ ap (λ z. x ∷ z) (take-prefix xs ys n (omega arith) (cc))

-- The filled part survives.
pub take-realloc :
    {realloc : List ℕ → ℕ → List ℕ} (keeps : KeepsCells realloc) (xs : List ℕ) (n m : ℕ)
    → n ≤ length xs
    → length xs ≤ m
    → take n (realloc xs m) ≡ take n xs
take-realloc {realloc} keeps xs n m h l = take-prefix xs (realloc xs m) n h (keeps.cells xs m l)

pub get_or-take : (xs : List ℕ) (n i d : ℕ) → i < n → get_or (take n xs) i d ≡ get_or xs i d
get_or-take xs zero i d h = absurd (omega arith)
get_or-take [] (suc n) i d h = refl
get_or-take (x ∷ xs) (suc n) zero d h = refl
get_or-take (x ∷ xs) (suc n) (suc i) d h = get_or-take xs n i d (omega arith)

pub get_or-map :
    (f : List ℕ → ℕ) (ls : List (List ℕ)) (i : ℕ) (l : List ℕ)
    → get_elem? ls i ≡ some l
    → get_or (map f ls) i 0 ≡ f l
get_or-map f [] i l e = absurd (ground arith)
get_or-map f (x ∷ ls) zero l e = ap f (ground arith)
get_or-map f (x ∷ ls) (suc i) l e = get_or-map f ls i l e

pub get_elem?-lt {ℓ} :
    {A : Type ℓ} (xs : List A) (i : ℕ) → i < length xs → (x : A) × (get_elem? xs i ≡ some x)
get_elem?-lt [] i h = absurd (omega arith)
get_elem?-lt (x ∷ xs) zero h = (x, refl)
get_elem?-lt (x ∷ xs) (suc i) h = get_elem?-lt xs i (omega arith)

pub get_elem?-ge {ℓ} : {A : Type ℓ} (xs : List A) (i : ℕ) → length xs ≤ i → get_elem? xs i ≡ none
get_elem?-ge [] i h = refl
get_elem?-ge (x ∷ xs) zero h = absurd (omega arith)
get_elem?-ge (x ∷ xs) (suc i) h = get_elem?-ge xs i (omega arith)

pub get_elem?-bound {ℓ} :
    {A : Type ℓ} (xs : List A) (i : ℕ) (x : A) → get_elem? xs i ≡ some x → i < length xs
get_elem?-bound [] i x e = absurd (ground arith)
get_elem?-bound (y ∷ xs) zero x e = omega arith
get_elem?-bound (y ∷ xs) (suc i) x e = omega (arith, get_elem?-bound xs i x e)

-- A shorter read of the same place.
pub take_shorter : (n m : ℕ) (xs ys : List ℕ) → n ≤ m → take m xs ≡ ys → take n xs ≡ take n ys
take_shorter zero m xs ys h e = refl
take_shorter (suc n) zero xs ys h e = absurd (omega arith)
take_shorter (suc n) (suc m) [] ys h e = ap (take (suc n)) e
take_shorter (suc n) (suc m) (x ∷ xs) [] h e = absurd (ground arith)
take_shorter (suc n) (suc m) (x ∷ xs) (y ∷ ys) h e =
    ap (λ z. z ∷ take n xs) (ap (λ z. get_or z 0 0) e)
    ∙ ap (λ z. y ∷ z) (take_shorter n m xs ys (omega arith) (ap (drop 1) e))

-- A write at the start of an array that is large enough.
set-append : (ys : List ℕ) (z v : ℕ) (zs : List ℕ) → set (ys ++ z ∷ zs) (length ys) v ≡ ys ++ v ∷ zs
set-append [] z v zs = refl
set-append (y ∷ ys) z v zs = ap (λ t. y ∷ t) (set-append ys z v zs)

write_at-append :
    (done xs old : List ℕ)
    → length xs ≤ length old
    → write_at (done ++ old) (length done) xs ≡ (done ++ xs) ++ drop (length xs) old
write_at-append done [] old h = ap (λ t. t ++ old) (sym (append-nil done))
write_at-append done (x ∷ xs) [] h = absurd (omega arith)
write_at-append done (x ∷ xs) (o ∷ old) h =
    ap₂ (λ b i. write_at b i xs) (set-append done o x old ∙ sym (append_assoc done (x ∷ []) old))
      (omega (arith, length-append done (x ∷ [])))
    ∙ write_at-append (done ++ x ∷ []) xs old (omega arith)
    ∙ ap (λ t. t ++ drop (length xs) old) (append_assoc done (x ∷ []) xs)

pub write_at-start :
    (xs old : List ℕ) → length xs ≤ length old → write_at old 0 xs ≡ xs ++ drop (length xs) old
write_at-start xs old h = write_at-append [] xs old h

-- The cell behind what is written.
pub set-behind :
    (xs old : List ℕ) (v : ℕ)
    → length xs < length old
    → set (write_at old 0 xs) (length xs) v ≡ xs ++ v ∷ drop (suc (length xs)) old
set-behind xs old v h =
    ap (λ t. set t (length xs) v) (write_at-start xs old (omega arith)) ∙ behind xs old h
  where
    behind :
        (xs old : List ℕ)
        → length xs < length old
        → set (xs ++ drop (length xs) old) (length xs) v ≡ xs ++ v ∷ drop (suc (length xs)) old
    behind [] [] h = absurd (omega arith)
    behind [] (o ∷ old) h = refl
    behind (x ∷ xs) [] h = absurd (omega arith)
    behind (x ∷ xs) (o ∷ old) h = ap (λ t. x ∷ t) (behind xs old (omega arith))

pub take-snoc :
    (xs : List ℕ) (n : ℕ) → n < length xs → take (suc n) xs ≡ take n xs ++ get_or xs n 0 ∷ []
take-snoc [] n h = absurd (omega arith)
take-snoc (x ∷ xs) zero h = refl
take-snoc (x ∷ xs) (suc n) h = ap (λ t. x ∷ t) (take-snoc xs n (omega arith))

pub take-all_append : (xs ys : List ℕ) (n : ℕ) → n ≡ length xs → take n (xs ++ ys) ≡ xs
take-all_append xs ys n h = ap (λ k. take k (xs ++ ys)) h ∙ whole xs
  where
    whole : (zs : List ℕ) → take (length zs) (zs ++ ys) ≡ zs
    whole [] = refl
    whole (z ∷ zs) = ap (λ t. z ∷ t) (whole zs)

pub get_or-append :
    (xs ys : List ℕ) (i d : ℕ) → i < length xs → get_or (xs ++ ys) i d ≡ get_or xs i d
get_or-append [] ys i d h = absurd (omega arith)
get_or-append (x ∷ xs) ys zero d h = refl
get_or-append (x ∷ xs) ys (suc i) d h = get_or-append xs ys i d (omega arith)

pub drop-get {ℓ} :
    {A : Type ℓ} (xs : List A) (i : ℕ) (x : A)
    → get_elem? xs i ≡ some x
    → drop i xs ≡ x ∷ drop (suc i) xs
drop-get [] i x e = absurd (ground arith)
drop-get (y ∷ xs) zero x e = let same : y ≡ x = ground arith in ap (λ z. z ∷ xs) same
drop-get (y ∷ xs) (suc i) x e = drop-get xs i x e

pub drop-all {ℓ} : {A : Type ℓ} (xs : List A) (n : ℕ) → length xs ≤ n → drop n xs ≡ []
drop-all [] zero h = refl
drop-all [] (suc n) h = refl
drop-all (x ∷ xs) zero h = absurd (omega arith)
drop-all (x ∷ xs) (suc n) h = drop-all xs n (omega arith)
