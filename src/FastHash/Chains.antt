-- ===== src/FastHash/Chains.antt =====
-- Chains of nodes through `pNext`, and what the loop of `Find` does on one.
use nat_tester.Base.{
  ℕ, zero, suc, ◌+◌, ◌<◌, ◌≡◌, ◌≢◌, refl, ap, List, [], ◌∷◌, Option, none, some, length, get_or,
  set, arith, length-set,
}

-- every member of the list
abbrev pub All {ℓ κ} : {A : Type ℓ} → (A → Type κ) → List A → Type κ
All P [] = Unit
All P (x ∷ xs) = P x × All P xs

pub All-both {ℓ κ μ ν} :
    {A : Type ℓ} {P : A → Type κ} {Q : A → Type μ} {R : A → Type ν} (f : (a : A) → P a → Q a → R a)
    (xs : List A)
    → All P xs
    → All Q xs
    → All R xs
All-both f [] h k = tt
All-both f (x ∷ xs) h k = (f x h.0 k.0, All-both f xs h.1 k.1)

abbrev pub Distinct : List ℕ → Type 0
Distinct [] = Unit
Distinct (x ∷ xs) = All (λ y. x ≢ y) xs × Distinct xs

-- From the pointer `head` the nodes `ns` follow one another, and then comes NULL.
abbrev pub Chain : List (Option ℕ) → Option ℕ → List ℕ → Type 0
Chain next head [] = head ≡ none
Chain next head (n ∷ ns) = (head ≡ some n) × (n < length next) × Chain next (get_or next n none) ns

pub get_or-set_self {ℓ} :
    {A : Type ℓ} (xs : List A) (i : ℕ) (v d : A) → i < length xs → get_or (set xs i v) i d ≡ v
get_or-set_self [] i v d h = absurd (omega arith)
get_or-set_self (x ∷ xs) zero v d h = refl
get_or-set_self (x ∷ xs) (suc i) v d h = get_or-set_self xs i v d (omega arith)

pub get_or-set_ne {ℓ} :
    {A : Type ℓ} (xs : List A) (i j : ℕ) (v d : A) → i ≢ j → get_or (set xs i v) j d ≡ get_or xs j d
get_or-set_ne [] i j v d h = refl
get_or-set_ne (x ∷ xs) zero zero v d h = absurd (h refl)
get_or-set_ne (x ∷ xs) zero (suc j) v d h = refl
get_or-set_ne (x ∷ xs) (suc i) zero v d h = refl
get_or-set_ne (x ∷ xs) (suc i) (suc j) v d h = get_or-set_ne xs i j v d (λ e. h (ap suc e))

-- A write to a node that is not on a chain leaves the chain as it was.
pub Chain-set :
    (next : List (Option ℕ)) (i : ℕ) (v : Option ℕ) (head : Option ℕ) (ns : List ℕ)
    → All (λ n. i ≢ n) ns
    → Chain next head ns
    → Chain (set next i v) head ns
Chain-set next i v head [] apart c = c
Chain-set next i v head (n ∷ ns) apart c = (
  c.0,
  omega (arith, length-set {0} next i v, c.1),
  rw (get_or-set_ne next i n v none apart.0)
      (Chain-set next i v (get_or next n none) ns apart.1 c.2),
)

-- the free list of a table that has just been reset
abbrev pub upto : ℕ → ℕ → List ℕ
upto x zero = []
upto x (suc n) = x ∷ upto (x + 1) n
