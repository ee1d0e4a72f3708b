-- ===== src/Client/Responses.antt =====
-- What `CStunClientLogic::ProcessResponse` makes of a message, and `Initialize` of a configuration.
use nat_tester.Client.Progress.{get_elem?-lt}
use nat_tester.Base.{
  get_elem?-set_self, get_elem?-set_ne, ◌≢◌, ℕ, zero, suc, ◌+◌, ◌<◌, ◌≡◌, ◌⊎◌, inl, inr, refl, ap,
  true, false, ◌||◌, List, [], ◌∷◌, Option, some, length, take, get_elem?, set, if◌then◌else◌, ◌==◌,
  arith, Option-cases,
}
use nat_tester.Hresult.{s_ok, succeeded}
use nat_tester.Stream.{Buffer, content}
use nat_tester.Address.{Address, same_bytes, is_ip_address_zero, get_port}
use nat_tester.FastHash.Chains.{All}
use nat_tester.Reader.{Reader, body_validated, new_reader, add_bytes}
use nat_tester.Client.{
  Config, Results, ClientTest, TestClass, basic_binding, behavior, filtering, process_response,
  digest_response, basic_reader_validation,
}
use nat_tester.Client.Logic.{Logic, initialize, process_message}
use nat_tester.Client.{init_test}

set-same {ℓ} :
    {A : Type ℓ} (xs : List A) (i : ℕ) (x : A) → get_elem? xs i ≡ some x → set xs i x ≡ xs
set-same [] i x e = refl
set-same (y ∷ ys) zero x e = ground arith
set-same (y ∷ ys) (suc i) x e = ap (λ zs. y ∷ zs) (set-same ys i x e)

module _ (new_bytes : ℕ → Option (List ℕ)) where
  digest_response-failed :
      (k : TestClass) (c : Config) (reader : Reader) (local : Address) (t : ClientTest)
      (r : Results)
      → succeeded (digest_response k c reader local t r).0 ≡ false
      → ((digest_response k c reader local t r).1 ≡ t)
        × ((digest_response k c reader local t r).2 ≡ r)
  unfolding digest_response
  digest_response-failed basic_binding c reader local t r h = ground arith
  digest_response-failed behavior c reader local t r h = ground arith
  digest_response-failed filtering c reader local t r h = ground arith

  process_response-failed :
      (msg : Buffer) (c : Config) (local : Address) (t : ClientTest) (r : Results)
      → succeeded (process_response new_bytes msg c local t r).0 ≡ false
      → ((process_response new_bytes msg c local t r).1 ≡ t)
        × ((process_response new_bytes msg c local t r).2 ≡ r)
  unfolding process_response
  process_response-failed msg c local t r h = ground (
    arith,
    digest_response-failed t.class c (basic_reader_validation new_bytes msg t).1 local t r,
  )

  process_response-accepted :
      (msg : Buffer) (c : Config) (local : Address) (t : ClientTest) (r : Results)
      → succeeded (process_response new_bytes msg c local t r).0 ≡ true
      → succeeded (basic_reader_validation new_bytes msg t).0 ≡ true
  unfolding process_response
  process_response-accepted msg c local t r h = ground arith

  validation-accepted :
      (msg : Buffer) (t : ClientTest)
      → succeeded (basic_reader_validation new_bytes msg t).0 ≡ true
      → ((add_bytes new_bytes (take msg.size (content msg)) new_reader).0 ≡ body_validated)
        × (same_bytes (basic_reader_validation new_bytes msg t).1.transaction_id t.transaction_id
            ≡ true)
  unfolding basic_reader_validation
  validation-accepted msg t h = ground arith

  -- A message that `ProcessResponse` refuses changes neither the results nor the tests, and the
  -- object is otherwise as it was.
  pub process_message-refused :
      (msg : Buffer) (local : Address) (l : Logic)
      → succeeded (process_message new_bytes msg local l).0 ≡ false
      → (process_message new_bytes msg local l).1 ≡ l
  unfolding process_message
  process_message-refused msg local l h = elim (Option-cases (get_elem? l.tests l.test_index)) [
    | inl e ↦ ground arith
    | inr (t, e) ↦ ground (
      arith,
      process_response-failed msg l.config local t l.results,
      set-same l.tests l.test_index t,
    )
  ]

  -- A message that `ProcessResponse` accepts is answered to a test that was not completed, is a
  -- whole STUN message, and carries the transaction id that the test has sent.
  pub process_message-accepted :
      (msg : Buffer) (local : Address) (l : Logic)
      → succeeded (process_message new_bytes msg local l).0 ≡ true
      → (t : ClientTest) × (get_elem? l.tests l.test_index ≡ some t)
        × (t.completed ≡ false)
        × ((add_bytes new_bytes (take msg.size (content msg)) new_reader).0 ≡ body_validated)
        × (same_bytes
              (add_bytes new_bytes (take msg.size (content msg)) new_reader).1.transaction_id
              t.transaction_id
            ≡ true)
  unfolding process_message basic_reader_validation
  process_message-accepted msg local l h = elim (Option-cases (get_elem? l.tests l.test_index)) [
    | inl e ↦ ground arith
    | inr (t, e) ↦
        let ok = process_response-accepted msg l.config local t l.results (ground arith) in
        let (whole, same) = validation-accepted msg t ok in (t, e, ground arith, whole, same)
  ]

  digest_response-completed :
      (k : TestClass) (c : Config) (reader : Reader) (local : Address) (t : ClientTest)
      (r : Results)
      → succeeded (digest_response k c reader local t r).0 ≡ true
      → (digest_response k c reader local t r).1.completed ≡ true
  unfolding digest_response
  digest_response-completed basic_binding c reader local t r h = ground arith
  digest_response-completed behavior c reader local t r h = ground arith
  digest_response-completed filtering c reader local t r h = ground arith

  process_response-completed :
      (msg : Buffer) (c : Config) (local : Address) (t : ClientTest) (r : Results)
      → succeeded (process_response new_bytes msg c local t r).0 ≡ true
      → (process_response new_bytes msg c local t r).1.completed ≡ true
  unfolding process_response
  process_response-completed msg c local t r h = ground (
    arith,
    digest_response-completed t.class c (basic_reader_validation new_bytes msg t).1 local t r,
  )

  -- A message that `ProcessResponse` accepts completes the test that it answers, and leaves every
  -- other test, the configuration and the counters as they were.
  pub process_message-completed :
      (msg : Buffer) (local : Address) (l : Logic) (j : ℕ)
      → succeeded (process_message new_bytes msg local l).0 ≡ true
      → l.test_index ≢ j
      → let l' = (process_message new_bytes msg local l).1 in
        ((t : ClientTest) × (get_elem? l'.tests l.test_index ≡ some t) × (t.completed ≡ true))
        × (get_elem? l'.tests j ≡ get_elem? l.tests j)
        × (l'.config ≡ l.config)
        × (l'.test_index ≡ l.test_index)
        × (l'.send_count ≡ l.send_count)
  unfolding process_message
  process_message-completed msg local l j h other =
      elim (Option-cases (get_elem? l.tests l.test_index)) [
        | inl e ↦ ground arith
        | inr (t, e) ↦
            let done = (process_response new_bytes msg l.config local t l.results).1 in
            (
              (
                done,
                ground (
                  arith,
                  get_elem?-set_self l.tests l.test_index done,
                  get_elem?-lt l.tests l.test_index t,
                ),
                process_response-completed msg l.config local t l.results (ground arith),
              ),
              ground (arith, get_elem?-set_ne l.tests l.test_index j done other),
              ground arith,
              ground arith,
              ground arith,
            )
      ]

-- `Initialize` refuses an object that is initialised already, and a server address that is zero or
-- has no port, and then changes nothing; otherwise it succeeds, and leaves a list of one test and
-- two more for each pair asked for, none completed, with at least one attempt for each.
pub initialize_lem :
    (c : Config) (l : Logic)
    → let (hr, l') = initialize c l in
      let refused =
        l.initialized || (is_ip_address_zero c.addr_server || get_port c.addr_server == 0) in
      ((refused ≡ true) × (succeeded hr ≡ false) × (l' ≡ l))
      ⊎ ((refused ≡ false)
          × (hr ≡ s_ok)
          × (l'.initialized ≡ true)
          × (l'.test_index ≡ 0)
          × (0 < l'.config.max_attempts)
          × (length l'.tests
              ≡ 1 + (if c.behavior_test then 2 else 0) + (if c.filtering_test then 2 else 0))
          × All (λ t. t.completed ≡ false) l'.tests)
unfolding initialize init_test
initialize_lem c l = ground arith
