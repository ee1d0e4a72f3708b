-- ===== src/Client/Logic.antt =====
-- all/stunclientlogic.cpp: `CStunClientLogic`, which runs the tests one after another and sends
-- each one's request again until it is answered or given up.
use nat_tester.Base.{
  ℕ, zero, suc, ◌+◌, ◌-◌, ◌*◌, ◌/◌, ◌%◌, ◌^◌, Bool, true, false, not, ◌&&◌, ◌||◌, List, [], ◌∷◌,
  ◌++◌, Option, none, some, length, get_elem?, set, if◌then◌else◌, ltb, leb, ◌==◌,
}
use nat_tester.Hresult.{
  Hresult, s_ok, e_fail, e_invalidarg, e_unexpected, e_still_waiting, e_results_ready,
}
use nat_tester.Word.{u32}
use nat_tester.StunTypes.{TransactionId, max_message_size}
use nat_tester.Stream.{Buffer}
use nat_tester.Address.{Address, is_ip_address_zero, get_port}
use nat_tester.Builder.{Builder}
use nat_tester.Client.{
  Config, Results, ClientTest, basic_binding, behavior, filtering, init_results, init_test,
  pre_run_check, is_ready_to_run, notify_timeout, get_message, process_response,
}

-- `_testlist` points to the five test members; here it holds them.
pub record Logic : Type 0 where
  pub config : Config
  pub results : Results
  pub initialized : Bool
  pub time_last_message_sent : ℕ
  pub send_count : ℕ
  pub pre_check_run : Bool
  pub tests : List ClientTest
  pub test_index : ℕ

-- `CStunClientLogic()`; the configuration and the flag of the pre-run check are not initialised.
unfoldable pub new_logic : Config → Bool → Logic
unfolding init_results
new_logic config pre_check_run = record {
  config = config;
  results = init_results;
  initialized = false;
  time_last_message_sent = 0;
  send_count = 0;
  pre_check_run = pre_check_run;
  tests = [];
  test_index = 0;
}

-- the defaults that `Initialize` puts in
abbrev pub with_defaults : Config → Config
with_defaults c = record c {
  timeout_seconds =
      if c.timeout_is_instant then 0 else if c.timeout_seconds == 0 then 3 else c.timeout_seconds;
  max_attempts = if c.max_attempts == 0 then 2 else c.max_attempts;
}

-- the list of tests that `Initialize` makes
abbrev pub test_list : Config → List ClientTest
test_list c =
    let behaviors =
      if c.behavior_test then init_test behavior false ∷ init_test behavior true ∷ [] else [] in
    let filterings =
      if c.filtering_test then init_test filtering false ∷ init_test filtering true ∷ [] else [] in
    init_test basic_binding false ∷ (behaviors ++ filterings)

-- `CStunClientLogic::Initialize`
unfoldable pub initialize : Config → Logic → Hresult × Logic
unfolding init_test
initialize config l =
    if l.initialized
    then (e_unexpected, l)
    else if is_ip_address_zero config.addr_server
    then (e_invalidarg, l)
    else if get_port config.addr_server == 0
    then (e_invalidarg, l)
    else (
      s_ok,
      record l {
        config = with_defaults config;
        initialized = true;
        test_index = 0;
        tests = test_list config;
        pre_check_run = false;
        time_last_message_sent = 0;
      },
    )

-- What `GetNextMessage` hands back: the status, and the message with its destination.
abbrev pub Next : Type 0
Next = Hresult × Option (Builder × Address)

-- whole seconds since the last message, in arithmetic of 32 bits
abbrev pub elapsed : ℕ → Logic → ℕ
elapsed now l = (now + 2 ^ 32 - l.time_last_message_sent) % 2 ^ 32 / 1000

-- a test and the results put back
abbrev pub update_test : Logic → ClientTest → Results → Logic
update_test l t r = record l { tests = set l.tests l.test_index t; results = r }

-- on to the next test
abbrev pub advance : Logic → Logic
advance l = record l { test_index = l.test_index + 1; send_count = 0; pre_check_run = false }

module _ (new_bytes : ℕ → Option (List ℕ)) (rand : ℕ → ℕ) (fresh : TransactionId)
    (msg : Option Buffer) (now : ℕ) where
  -- the end of a round: the request of a test that is ready and due
  unfoldable pub send_request : ClientTest → Logic → Next × Logic
  send_request t l =
      let (t', message, dest) = get_message new_bytes rand fresh msg l.config l.results t in
      (
        (s_ok, some (message, dest)),
        record (update_test l t' l.results) {
          send_count = u32 (l.send_count + 1);
          time_last_message_sent = now;
        },
      )

  -- a round after the pre-run check; `none` is `continue`
  unfoldable pub checked_round : ClientTest → Logic → Option Next × Logic
  checked_round t l =
      let (timed_out, results) = notify_timeout t l.results in
      let (next, sent) = send_request t l in
      if t.completed || not (is_ready_to_run t l.results)
      then (none, advance l)
      else if ltb (elapsed now l) l.config.timeout_seconds && not (l.send_count == 0)
      then (some (e_still_waiting, none), l)
      else if leb l.config.max_attempts l.send_count
      then (none, update_test l timed_out results)
      else (some next, sent)

  -- the pre-run check of a round
  unfoldable pub pre_checked : ClientTest → Logic → ClientTest × Logic
  pre_checked t l =
      let (t', results) = pre_run_check t l.results in
      if l.pre_check_run
      then (t, l)
      else (t', record (update_test l t' results) { pre_check_run = true })

  -- a round of the loop of `GetNextMessage`
  unfoldable pub round : Logic → Option Next × Logic
  round l = elim (get_elem? l.tests l.test_index) [
    | none ↦ (some (e_results_ready, none), l)
    | some t ↦ let (t', l') = pre_checked t l in checked_round t' l'
  ]

  -- The loop, one round for each unit of fuel; `none` means that the fuel ran out.
  unfoldable pub message_loop : ℕ → Logic → Option (Next × Logic)
  message_loop zero l = none
  message_loop (suc fuel) l =
      let (out, l') = round l in
      elim out [ none ↦ message_loop fuel l' | some next ↦ some (next, l') ]

  -- each test takes two rounds at most before the loop is past it
  abbrev pub enough_rounds : Logic → ℕ
  enough_rounds l = 2 * length l.tests + 2

  -- `CStunClientLogic::GetNextMessage` with pointers that are not NULL
  unfoldable pub get_next_message : Logic → Option (Next × Logic)
  get_next_message l =
      let allocated : ℕ = elim msg [ none ↦ 0 | some b ↦ b.allocated ] in
      if not l.initialized
      then some ((e_fail, none), l)
      else if ltb allocated max_message_size
      then some ((e_invalidarg, none), l)
      else message_loop (enough_rounds l) l

-- `CStunClientLogic::ProcessResponse`
unfoldable pub process_message : (ℕ → Option (List ℕ)) → Buffer → Address → Logic → Hresult × Logic
process_message new_bytes msg local l =
    if not l.initialized
    then (e_fail, l)
    else if msg.size == 0
    then (e_invalidarg, l)
    else elim (get_elem? l.tests l.test_index) [
      | none ↦ (e_unexpected, l)
      | some t ↦
          if t.completed
          then (e_unexpected, l)
          else let (hr, t', results) = process_response new_bytes msg l.config local t l.results in
            (hr, update_test l t' results)
    ]

-- `CStunClientLogic::GetResults` with a pointer that is not NULL
abbrev pub get_results : Logic → Results
get_results l = l.results
