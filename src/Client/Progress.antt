-- ===== src/Client/Progress.antt =====
-- all/stunclientlogic.cpp: the loop of `CStunClientLogic::GetNextMessage`.
use nat_tester.Base.{
  ℕ, zero, suc, ◌+◌, ◌-◌, ◌*◌, ◌^◌, ◌≤◌, ◌<◌, ◌≡◌, ◌⊎◌, inl, inr, refl, ◌∙◌, Bool, true, false, not,
  ◌&&◌, ◌||◌, List, [], ◌∷◌, Option, none, some, length, get_elem?, if◌then◌else◌, ltb, leb, ◌==◌,
  arith, Option-cases, length-set, get_elem?-set_self, Bool-cases,
}
use nat_tester.Hresult.{s_ok, e_still_waiting, e_results_ready}
use nat_tester.StunTypes.{TransactionId, max_message_size}
use nat_tester.Stream.{Buffer}
use nat_tester.Address.{Address}
use nat_tester.Builder.{Builder}
use nat_tester.Client.{
  Results, ClientTest, TestClass, basic_binding, behavior, filtering, pre_run_check,
  is_ready_to_run, notify_timeout, pre_run_check_of, notify_timeout_of,
}
use nat_tester.Client.Logic.{
  Logic, Next, elapsed, update_test, send_request, checked_round, pre_checked, round, message_loop,
  enough_rounds, get_next_message,
}

pub get_elem?-lt {ℓ} :
    {A : Type ℓ} (xs : List A) (i : ℕ) (y : A) → get_elem? xs i ≡ some y → i < length xs
get_elem?-lt [] i y e = ground arith
get_elem?-lt (z ∷ zs) zero y e = omega arith
get_elem?-lt (z ∷ zs) (suc i) y e = omega (arith, get_elem?-lt zs i y e)

get_elem?-none {ℓ} : {A : Type ℓ} (xs : List A) (i : ℕ) → get_elem? xs i ≡ none → length xs ≤ i
get_elem?-none [] i e = omega arith
get_elem?-none (z ∷ zs) zero e = ground arith
get_elem?-none (z ∷ zs) (suc i) e = omega (arith, get_elem?-none zs i e)

notify_timeout-completed : (t : ClientTest) (r : Results) → (notify_timeout t r).0.completed ≡ true
unfolding notify_timeout
notify_timeout-completed t r = go t.class
  where
    go : (c : TestClass) → (notify_timeout_of c t r).0.completed ≡ true
    go basic_binding = refl
    go behavior = refl
    go filtering = refl

pre_run_check-completed :
    (t : ClientTest) (r : Results) → t.completed ≡ true → (pre_run_check t r).0.completed ≡ true
unfolding pre_run_check
pre_run_check-completed t r e = go t.class
  where
    go : (c : TestClass) → (pre_run_check_of c t r).0.completed ≡ true
    go basic_binding = e
    go behavior = ground arith
    go filtering = ground arith

-- Is the test that is next completed?
abbrev pub current_completed : Logic → Bool
current_completed l = elim (get_elem? l.tests l.test_index) [ none ↦ true | some t ↦ t.completed ]

-- the rounds that are left at most before the loop ends
abbrev pub rounds_left : Logic → ℕ
rounds_left l = 2 * (length l.tests - l.test_index) + (if current_completed l then 0 else 1)

-- a test that was not completed is put back completed
rounds_left-completed :
    (t : ClientTest) (l : Logic) (r : Results) (t' : ClientTest)
    → get_elem? l.tests l.test_index ≡ some t
    → t.completed ≡ false
    → t'.completed ≡ true
    → rounds_left (update_test l t' r) < rounds_left l
rounds_left-completed t l r t' at undone done =
    let put = get_elem?-set_self l.tests l.test_index t' (get_elem?-lt l.tests l.test_index t at) in
    ground (arith, put, length-set l.tests l.test_index t')

run_open :
    (t : ClientTest) (l : Logic)
    → (t.completed || not (is_ready_to_run t l.results)) ≡ false
    → t.completed ≡ false
run_open t l h = ground arith

-- How the loop ends: past the last test, while an answer may still come, or with a message.
abbrev pub Ended : ℕ → Next × Logic → Type 0
Ended now out =
    let l = out.1 in
    ((out.0 ≡ (e_results_ready, none)) × (length l.tests ≤ l.test_index))
    ⊎ ((out.0 ≡ (e_still_waiting, none))
        × (0 < l.send_count)
        × (elapsed now l < l.config.timeout_seconds))
    ⊎ ((m : Builder × Address) × (out.0 ≡ (s_ok, some m))
        × (0 < l.send_count)
        × (l.send_count ≤ l.config.max_attempts)
        × (l.time_last_message_sent ≡ now))

-- What a round does: it gets on, or it ends the loop.
abbrev Stepped : ℕ → Logic → Option Next × Logic → Type 0
Stepped now l out =
    (out.1.config ≡ l.config)
    × (((out.0 ≡ none) × (rounds_left out.1 < rounds_left l))
        ⊎ ((next : Next) × (out.0 ≡ some next) × Ended now (next, out.1)))

module _ (new_bytes : ℕ → Option (List ℕ)) (rand : ℕ → ℕ) (fresh : TransactionId)
    (msg : Option Buffer) (now : ℕ) where
  checked_round-Stepped :
      (t : ClientTest) (l : Logic)
      → get_elem? l.tests l.test_index ≡ some t
      → l.config.max_attempts < 2 ^ 32
      → Stepped now l (checked_round new_bytes rand fresh msg now t l)
  unfolding checked_round send_request
  checked_round-Stepped t l at few =
      let inside = get_elem?-lt l.tests l.test_index t at in
      let timed_out = (notify_timeout t l.results).0 in
      let put = get_elem?-set_self l.tests l.test_index timed_out inside in
      elim (Bool-cases (t.completed || not (is_ready_to_run t l.results))) [
        | inl skip ↦ rw skip (refl, inl (refl, ground arith))
        | inr run ↦
            elim (Bool-cases
              (ltb (elapsed now l) l.config.timeout_seconds && not (l.send_count == 0))) [
                | inl wait ↦
                    rw (run, wait)
                      (refl, inr (_, refl, inr (inl (refl, ground arith, ground arith))))
                | inr due ↦ elim (Bool-cases (leb l.config.max_attempts l.send_count)) [
                  | inl up ↦
                      rw (run, due, up)
                        (
                          refl,
                          inl (
                            refl,
                            rounds_left-completed t l (notify_timeout t l.results).1 timed_out at
                                (run_open t l run) (notify_timeout-completed t l.results),
                          ),
                        )
                  | inr more ↦
                      rw (run, due, more)
                        (refl, inr (_, refl, inr (inr (_, refl, ground arith, ground arith, refl))))
                ]
              ]
      ]

  -- what the pre-run check leaves: the same list but for the current test
  PreChecked : Logic → ClientTest × Logic → Type 0
  PreChecked l out =
      (out.1.config ≡ l.config)
      × (get_elem? out.1.tests out.1.test_index ≡ some out.0)
      × (rounds_left out.1 ≤ rounds_left l)

  pre_checked-PreChecked :
      (t : ClientTest) (l : Logic)
      → get_elem? l.tests l.test_index ≡ some t
      → PreChecked l (pre_checked new_bytes rand fresh msg now t l)
  unfolding pre_checked PreChecked
  pre_checked-PreChecked t l at = elim (Bool-cases l.pre_check_run) [
    | inl was ↦ rw was (refl, at, omega arith)
    | inr first ↦
        let t' = (pre_run_check t l.results).0 in
        let put =
          get_elem?-set_self l.tests l.test_index t' (get_elem?-lt l.tests l.test_index t at) in
        rw first (
          refl,
          put,
          ground
              (arith, put, length-set l.tests l.test_index t', pre_run_check-completed t l.results),
        )
  ]

  round_past :
      (l : Logic)
      → get_elem? l.tests l.test_index ≡ none
      → round new_bytes rand fresh msg now l ≡ (some (e_results_ready, none), l)
  unfolding round
  round_past l e = rw (round, e) refl

  round_test :
      (t : ClientTest) (l : Logic)
      → get_elem? l.tests l.test_index ≡ some t
      → round new_bytes rand fresh msg now l
        ≡ checked_round new_bytes rand fresh msg now
            (pre_checked new_bytes rand fresh msg now t l).0
            (pre_checked new_bytes rand fresh msg now t l).1
  unfolding round
  round_test t l e = rw (round, e) refl

  round-Stepped :
      (l : Logic)
      → l.config.max_attempts < 2 ^ 32
      → Stepped now l (round new_bytes rand fresh msg now l)
  unfolding PreChecked
  round-Stepped l few = elim (Option-cases (get_elem? l.tests l.test_index)) [
    | inl e ↦
        rw (round_past l e) (refl, inr (_, refl, inl (refl, get_elem?-none l.tests l.test_index e)))
    | inr (t, e) ↦
        let (same, at, left) = pre_checked-PreChecked t l e in
        let (kept, ended) =
          checked_round-Stepped (pre_checked new_bytes rand fresh msg now t l).0
            (pre_checked new_bytes rand fresh msg now t l).1 at (rw same few) in
        rw (round_test t l e) (
          kept ∙ same,
          elim ended [ inl more ↦ inl (more.0, omega (arith, more.1)) | inr out ↦ inr out ],
        )
  ]

  loop_ends :
      (fuel : ℕ) (l : Logic) (next : Next)
      → (round new_bytes rand fresh msg now l).0 ≡ some next
      → message_loop new_bytes rand fresh msg now (suc fuel) l
        ≡ some (next, (round new_bytes rand fresh msg now l).1)
  unfolding message_loop
  loop_ends fuel l next e = rw (message_loop, e) refl

  loop_goes_on :
      (fuel : ℕ) (l : Logic)
      → (round new_bytes rand fresh msg now l).0 ≡ none
      → message_loop new_bytes rand fresh msg now (suc fuel) l
        ≡ message_loop new_bytes rand fresh msg now fuel (round new_bytes rand fresh msg now l).1
  unfolding message_loop
  loop_goes_on fuel l e = rw (message_loop, e) refl

  message_loop-Ended :
      (fuel : ℕ) (l : Logic)
      → rounds_left l < fuel
      → l.config.max_attempts < 2 ^ 32
      → (out : Next × Logic) × (message_loop new_bytes rand fresh msg now fuel l ≡ some out)
        × (out.1.config ≡ l.config)
        × Ended now out
  message_loop-Ended zero l h few = elim h [ ]
  message_loop-Ended (suc fuel) l h few =
      let (same, step) = round-Stepped l few in
      elim step [
        | inl (e, less) ↦
            let (out, ran, kept, ended) =
              message_loop-Ended fuel (round new_bytes rand fresh msg now l).1
                (omega (arith, less, h)) (rw same few) in
            (out, loop_goes_on fuel l e ∙ ran, kept ∙ same, ended)
        | inr (next, e, ended) ↦
            ((next, (round new_bytes rand fresh msg now l).1), loop_ends fuel l next e, same, ended)
      ]

  get_next_message_runs :
      (l : Logic) (b : Buffer)
      → l.initialized ≡ true
      → msg ≡ some b
      → max_message_size ≤ b.allocated
      → get_next_message new_bytes rand fresh msg now l
        ≡ message_loop new_bytes rand fresh msg now (enough_rounds new_bytes rand fresh msg now l) l
  unfolding get_next_message
  get_next_message_runs l b ready buffer large = ground arith

  -- Called on an initialised object with a buffer that is large enough, and with a retry count
  -- of 32 bits, `GetNextMessage` returns, keeps the configuration, and ends in one of three ways:
  -- it reports the results ready, past the last test; it reports that it is still waiting, less
  -- than the timeout after a message that it sent; or it gives a message, no more often than the
  -- configured number of attempts for a test, and notes the time.
  pub get_next_message-Ended :
      (l : Logic) (b : Buffer)
      → l.initialized ≡ true
      → msg ≡ some b
      → max_message_size ≤ b.allocated
      → l.config.max_attempts < 2 ^ 32
      → (out : Next × Logic) × (get_next_message new_bytes rand fresh msg now l ≡ some out)
        × (out.1.config ≡ l.config)
        × Ended now out
  get_next_message-Ended l b ready buffer large few =
      let (out, ran, kept, ended) =
        message_loop-Ended (enough_rounds new_bytes rand fresh msg now l) l (ground arith) few in
      (out, get_next_message_runs l b ready buffer large ∙ ran, kept, ended)
