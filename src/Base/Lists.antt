-- ===== src/Base/Lists.antt =====
-- C arrays as lists, measured and indexed by native numbers, and `memcpy` on them.
use Prim.Native.Nat.{ℕ, zero, suc, ◌+◌, ◌-◌, ◌≤◌, ◌<◌, min, max}
use mathlib.Core.Path.{◌≡◌, refl, ap}
use mathlib.Core.Logic.{◌≢◌}
use mathlib.Core.List.{List, [], ◌∷◌, ◌++◌}
use mathlib.Core.Option.{Option, none, some}
use native.Mathlib.Omega.{arith}

module _ {ℓ} {A : Type ℓ} where
  abbrev pub length : List A → ℕ
  length [] = 0
  length (x ∷ xs) = suc (length xs)

  abbrev pub get_elem? : List A → ℕ → Option A
  get_elem? [] i = none
  get_elem? (x ∷ xs) zero = some x
  get_elem? (x ∷ xs) (suc i) = get_elem? xs i

  abbrev pub get_or : List A → ℕ → A → A
  get_or [] i d = d
  get_or (x ∷ xs) zero d = x
  get_or (x ∷ xs) (suc i) d = get_or xs i d

  -- A write out of bounds changes nothing.
  abbrev pub set : List A → ℕ → A → List A
  set [] i v = []
  set (x ∷ xs) zero v = v ∷ xs
  set (x ∷ xs) (suc i) v = x ∷ set xs i v

  abbrev pub take : ℕ → List A → List A
  take zero xs = []
  take (suc n) [] = []
  take (suc n) (x ∷ xs) = x ∷ take n xs

  abbrev pub drop : ℕ → List A → List A
  drop zero xs = xs
  drop (suc n) [] = []
  drop (suc n) (x ∷ xs) = drop n xs

  abbrev pub replicate : ℕ → A → List A
  replicate zero a = []
  replicate (suc n) a = a ∷ replicate n a

  -- `memcpy(dst + offset, src, length src)`; what falls out of `dst` is not written.
  abbrev pub copy_into : List A → ℕ → List A → List A
  copy_into [] i src = []
  copy_into (d ∷ ds) zero [] = d ∷ ds
  copy_into (d ∷ ds) zero (x ∷ xs) = x ∷ copy_into ds zero xs
  copy_into (d ∷ ds) (suc i) src = d ∷ copy_into ds i src

  -- `size` bytes from `offset` on.
  abbrev pub slice : List A → ℕ → ℕ → List A
  slice xs offset size = take size (drop offset xs)

  -- What the sequence `xs` becomes when `src` is written from position `i` on: it may grow.
  abbrev pub overlay : List A → ℕ → List A → List A
  overlay [] i src = src
  overlay (x ∷ xs) zero [] = x ∷ xs
  overlay (x ∷ xs) zero (y ∷ src) = y ∷ overlay xs zero src
  overlay (x ∷ xs) (suc i) src = x ∷ overlay xs i src

module _ {ℓ} {A : Type ℓ} where
  pub length-append : (xs ys : List A) → length (xs ++ ys) ≡ length xs + length ys
  length-append [] ys = omega arith
  length-append (x ∷ xs) ys = omega (arith, length-append xs ys)

  pub length-set : (xs : List A) (i : ℕ) (v : A) → length (set xs i v) ≡ length xs
  length-set [] i v = refl
  length-set (x ∷ xs) zero v = refl
  length-set (x ∷ xs) (suc i) v = ap suc (length-set xs i v)

  pub get_elem?-set_self :
      (xs : List A) (i : ℕ) (v : A) → i < length xs → get_elem? (set xs i v) i ≡ some v
  get_elem?-set_self [] i v h = elim h [ ]
  get_elem?-set_self (x ∷ xs) zero v h = refl
  get_elem?-set_self (x ∷ xs) (suc i) v h = get_elem?-set_self xs i v (omega arith)

  pub get_elem?-set_ne :
      (xs : List A) (i j : ℕ) (v : A) → i ≢ j → get_elem? (set xs i v) j ≡ get_elem? xs j
  get_elem?-set_ne [] i j v h = refl
  get_elem?-set_ne (x ∷ xs) zero zero v h = absurd (h refl)
  get_elem?-set_ne (x ∷ xs) zero (suc j) v h = refl
  get_elem?-set_ne (x ∷ xs) (suc i) zero v h = refl
  get_elem?-set_ne (x ∷ xs) (suc i) (suc j) v h = get_elem?-set_ne xs i j v (λ e. h (ap suc e))

  pub length-take : (n : ℕ) (xs : List A) → length (take n xs) ≡ min n (length xs)
  length-take zero xs = omega arith
  length-take (suc n) [] = omega arith
  length-take (suc n) (x ∷ xs) = omega (arith, length-take n xs)

  pub length-drop : (n : ℕ) (xs : List A) → length (drop n xs) ≡ length xs - n
  length-drop zero xs = omega arith
  length-drop (suc n) [] = omega arith
  length-drop (suc n) (x ∷ xs) = omega (arith, length-drop n xs)

  pub length-replicate : (n : ℕ) (a : A) → length (replicate n a) ≡ n
  length-replicate zero a = refl
  length-replicate (suc n) a = ap suc (length-replicate n a)

  pub length-copy_into :
      (xs : List A) (i : ℕ) (src : List A) → length (copy_into xs i src) ≡ length xs
  length-copy_into [] i src = refl
  length-copy_into (d ∷ ds) zero [] = refl
  length-copy_into (d ∷ ds) zero (x ∷ xs) = ap suc (length-copy_into ds zero xs)
  length-copy_into (d ∷ ds) (suc i) src = ap suc (length-copy_into ds i src)

  pub length-slice : (xs : List A) (i n : ℕ) → i + n ≤ length xs → length (slice xs i n) ≡ n
  length-slice xs i n h = omega (arith, length-take n (drop i xs), length-drop i xs)

  pub take_all : (xs : List A) (n : ℕ) → length xs ≤ n → take n xs ≡ xs
  take_all [] zero h = refl
  take_all [] (suc n) h = refl
  take_all (x ∷ xs) zero h = absurd (omega arith)
  take_all (x ∷ xs) (suc n) h = ap (λ t. x ∷ t) (take_all xs n (omega arith))

  pub drop_all : (xs : List A) (n : ℕ) → length xs ≤ n → drop n xs ≡ []
  drop_all [] zero h = refl
  drop_all [] (suc n) h = refl
  drop_all (x ∷ xs) zero h = absurd (omega arith)
  drop_all (x ∷ xs) (suc n) h = drop_all xs n (omega arith)

  pub take-append : (xs ys : List A) → take (length xs) (xs ++ ys) ≡ xs
  take-append [] ys = refl
  take-append (x ∷ xs) ys = ap (λ t. x ∷ t) (take-append xs ys)

  pub drop-append : (xs ys : List A) → drop (length xs) (xs ++ ys) ≡ ys
  drop-append [] ys = refl
  drop-append (x ∷ xs) ys = drop-append xs ys

  pub take-copy_into_start :
      (xs : List A) (m : ℕ) (src : List A)
      → length src ≤ length xs
      → m ≡ length src
      → take m (copy_into xs zero src) ≡ src
  take-copy_into_start xs zero [] p e = refl
  take-copy_into_start xs (suc m) [] p e = absurd (omega arith)
  take-copy_into_start xs zero (y ∷ src) p e = absurd (omega arith)
  take-copy_into_start [] (suc m) (y ∷ src) p e = absurd (omega arith)
  take-copy_into_start (x ∷ xs) (suc m) (y ∷ src) p e =
      ap (λ t. y ∷ t) (take-copy_into_start xs m src (omega arith) (omega arith))

  -- The first bytes of an array after a `memcpy` that starts inside them.
  pub take-copy_into :
      (xs : List A) (i n m : ℕ) (src : List A)
      → i ≤ n
      → n ≤ length xs
      → i + length src ≤ length xs
      → m ≡ max n (i + length src)
      → take m (copy_into xs i src) ≡ overlay (take n xs) i src
  take-copy_into [] zero zero zero [] p q r e = refl
  take-copy_into [] zero zero (suc m) [] p q r e = absurd (omega arith)
  take-copy_into [] zero (suc n) m [] p q r e = absurd (omega arith)
  take-copy_into [] zero n m (y ∷ src) p q r e = absurd (omega arith)
  take-copy_into [] (suc i) n m src p q r e = absurd (omega arith)
  take-copy_into (x ∷ xs) zero zero zero [] p q r e = refl
  take-copy_into (x ∷ xs) zero zero (suc m) [] p q r e = absurd (omega arith)
  take-copy_into (x ∷ xs) zero (suc n) zero [] p q r e = absurd (omega arith)
  take-copy_into (x ∷ xs) zero (suc n) (suc m) [] p q r e = ap (λ t. x ∷ take t xs) (omega arith)
  take-copy_into (x ∷ xs) zero n zero (y ∷ src) p q r e = absurd (omega arith)
  take-copy_into (x ∷ xs) zero zero (suc m) (y ∷ src) p q r e =
      ap (λ t. y ∷ t) (take-copy_into_start xs m src (omega arith) (omega arith))
  take-copy_into (x ∷ xs) zero (suc n) (suc m) (y ∷ src) p q r e =
      ap (λ t. y ∷ t)
        (take-copy_into xs zero n m src (omega arith) (omega arith) (omega arith) (omega arith))
  take-copy_into (x ∷ xs) (suc i) zero m src p q r e = absurd (omega arith)
  take-copy_into (x ∷ xs) (suc i) (suc n) zero src p q r e = absurd (omega arith)
  take-copy_into (x ∷ xs) (suc i) (suc n) (suc m) src p q r e =
      ap (λ t. x ∷ t)
        (take-copy_into xs i n m src (omega arith) (omega arith) (omega arith) (omega arith))

  -- Writing at the end appends.
  pub overlay_append : (xs src : List A) (i : ℕ) → i ≡ length xs → overlay xs i src ≡ xs ++ src
  overlay_append [] src i e = refl
  overlay_append (x ∷ xs) src zero e = absurd (omega arith)
  overlay_append (x ∷ xs) src (suc i) e = ap (λ t. x ∷ t) (overlay_append xs src i (omega arith))

  pub length-overlay :
      (xs src : List A) (i : ℕ)
      → i ≤ length xs
      → length (overlay xs i src) ≡ max (length xs) (i + length src)
  length-overlay [] src i h = omega arith
  length-overlay (x ∷ xs) [] zero h = omega arith
  length-overlay (x ∷ xs) (y ∷ src) zero h = omega (arith, length-overlay xs src zero (omega arith))
  length-overlay (x ∷ xs) src (suc i) h = omega (arith, length-overlay xs src i (omega arith))

  -- What was written is read back.
  pub slice-overlay :
      (xs src : List A) (i n : ℕ)
      → i ≤ length xs
      → n ≡ length src
      → slice (overlay xs i src) i n ≡ src
  slice-overlay [] src zero n h e = take_all src n (omega arith)
  slice-overlay [] src (suc i) n h e = absurd (omega arith)
  slice-overlay (x ∷ xs) [] zero zero h e = refl
  slice-overlay (x ∷ xs) [] zero (suc n) h e = absurd (omega arith)
  slice-overlay (x ∷ xs) (y ∷ src) zero zero h e = absurd (omega arith)
  slice-overlay (x ∷ xs) (y ∷ src) zero (suc n) h e =
      ap (λ t. y ∷ t) (slice-overlay xs src zero n (omega arith) (omega arith))
  slice-overlay (x ∷ xs) src (suc i) n h e = slice-overlay xs src i n (omega arith) e

  -- Reading inside the first `m` bytes of an array.
  pub slice-take : (xs : List A) (i n m : ℕ) → i + n ≤ m → slice (take m xs) i n ≡ slice xs i n
  slice-take xs zero zero m h = refl
  slice-take xs zero (suc n) zero h = absurd (omega arith)
  slice-take [] zero (suc n) (suc m) h = refl
  slice-take (x ∷ xs) zero (suc n) (suc m) h =
      ap (λ t. x ∷ t) (slice-take xs zero n m (omega arith))
  slice-take xs (suc i) n zero h = absurd (omega arith)
  slice-take [] (suc i) n (suc m) h = refl
  slice-take (x ∷ xs) (suc i) n (suc m) h = slice-take xs i n m (omega arith)
