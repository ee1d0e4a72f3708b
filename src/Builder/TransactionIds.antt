-- ===== src/Builder/TransactionIds.antt =====
-- The transaction ids that `AddRandomTransactionId` makes.
use nat_tester.Base.{
  ℕ, zero, suc, ◌+◌, ◌-◌, ◌%◌, ◌≤◌, ◌<◌, ◌≡◌, refl, ap, ◌∙◌, List, [], ◌∷◌, length, take, drop, set,
  arith, ◌++◌,
}
use nat_tester.Word.{uint32_bytes, htonl}
use nat_tester.StunTypes.{TransactionId, stun_cookie}
use nat_tester.Builder.{random_transaction_id, random_id_loop}

take-set {ℓ} :
    {A : Type ℓ} (n i : ℕ) (xs : List A) (v : A) → n ≤ i → take n (set xs i v) ≡ take n xs
take-set zero i xs v h = refl
take-set (suc n) i [] v h = refl
take-set (suc n) zero (x ∷ xs) v h = elim h [ ]
take-set (suc n) (suc i) (x ∷ xs) v h = ap (λ ys. x ∷ ys) (take-set n i xs v (omega arith))

drop-set {ℓ} :
    {A : Type ℓ} (n i : ℕ) (xs : List A) (v : A) → i < n → drop n (set xs i v) ≡ drop n xs
drop-set zero i xs v h = elim h [ ]
drop-set (suc n) i [] v h = refl
drop-set (suc n) zero (x ∷ xs) v h = refl
drop-set (suc n) (suc i) (x ∷ xs) v h = drop-set n i xs v (omega arith)

-- the loop writes the places from `x` on, one for each round
random_id_loop_lem :
    (rounds x n : ℕ) (rand : ℕ → ℕ) (id : TransactionId)
    → ((n ≤ x → take n (random_id_loop rounds x rand id) ≡ take n id)
        × (x + rounds ≤ n → drop n (random_id_loop rounds x rand id) ≡ drop n id))
unfolding random_id_loop
random_id_loop_lem zero x n rand id = ((λ h. refl), (λ h. refl))
random_id_loop_lem (suc rounds) x n rand id =
    let rest = random_id_loop_lem rounds (x + 1) n rand (set id x (rand (x - 4) % 256)) in
    (
      (λ h. rest.0 (omega arith) ∙ take-set n x id _ h),
      (λ h. rest.1 (omega arith) ∙ drop-set n x id _ (omega arith)),
    )

-- The id starts with the cookie in network order, but only the eight bytes behind it are random:
-- the last four are those that the uninitialised variable happened to hold.
pub random_transaction_id-drop :
    (rand : ℕ → ℕ) (fresh : TransactionId)
    → length fresh ≡ 16
    → (take 4 (random_transaction_id rand fresh) ≡ uint32_bytes (htonl stun_cookie))
      × (drop 12 (random_transaction_id rand fresh) ≡ drop 12 fresh)
unfolding random_transaction_id
random_transaction_id-drop rand (a ∷ b ∷ c ∷ d ∷ rest) e = (
  (random_id_loop_lem 8 4 4 rand (uint32_bytes (htonl stun_cookie) ++ rest)).0 (omega arith),
  (random_id_loop_lem 8 4 12 rand (uint32_bytes (htonl stun_cookie) ++ rest)).1 (omega arith),
)
random_transaction_id-drop rand fresh e = absurd (ground arith)
