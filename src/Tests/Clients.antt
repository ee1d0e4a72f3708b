-- ===== src/Tests/Clients.antt =====
-- The theorems on the client, at a run against a server at 192.0.2.9, port 3478.
use nat_tester.Base.{
  ℕ, ◌+◌, ◌<◌, ◌≡◌, ◌⊎◌, refl, true, false, List, [], ◌∷◌, ◌++◌, some, length, get_elem?, replicate,
  arith,
}
use nat_tester.Hresult.{s_ok, succeeded}
use nat_tester.StunTypes.{TransactionId}
use nat_tester.Stream.{Buffer}
use nat_tester.Address.{Address, inet}
use nat_tester.FastHash.Chains.{All}
use nat_tester.Reader.{body_validated, new_reader, add_bytes}
use nat_tester.Address.{same_bytes}
use nat_tester.Client.{
  behavior, Config, ClientTest, address_dependent_filtering, unknown_behavior, unknown_filtering,
  init_results, record_binding, init_test, basic_binding, address_and_port_dependent_mapping,
}
use nat_tester.Client.Logic.{Logic, Next, new_logic, initialize, get_next_message, process_message}
use nat_tester.Client.Verdicts.{
  run_behavior, run_filtering, mapping_verdict_lem, filtering_verdict_lem, no_other_address_unknown,
}
use nat_tester.Client.Progress.{Ended, get_next_message-Ended}
use nat_tester.Client.Responses.{
  process_message-completed, process_message-accepted, process_message-refused, initialize_lem,
}
use nat_tester.Tests.{heap, cookie_id, program}

-- an address of the network 192.0.2.0
abbrev pub host : ℕ → ℕ → Address
host a p = record { family = inet; port = p ∷ 0 ∷ []; ip = 192 ∷ 0 ∷ 2 ∷ a ∷ [] }

abbrev pub full_config : Config
full_config = record {
  addr_server = host 9 13;
  timeout_is_instant = false;
  timeout_seconds = 0;
  max_attempts = 0;
  behavior_test = true;
  filtering_test = true;
}

abbrev pub dice : ℕ → ℕ
dice i = 1000 + i

abbrev pub stack_bytes : TransactionId
stack_bytes = replicate 16 0xcd

abbrev pub message_buffer : Buffer
message_buffer = record { bytes = some (replicate 802 0); size = 0; allocated = 800 }

-- a client that was initialised
abbrev ready_logic : Logic
ready_logic = (initialize full_config (new_logic full_config true)).1

initialize_lem_example :
    ((false ≡ true)
      × (succeeded (initialize full_config (new_logic full_config true)).0 ≡ false)
      × (ready_logic ≡ new_logic full_config true))
    ⊎ ((false ≡ false)
        × ((initialize full_config (new_logic full_config true)).0 ≡ s_ok)
        × (ready_logic.initialized ≡ true)
        × (ready_logic.test_index ≡ 0)
        × (0 < ready_logic.config.max_attempts)
        × (length ready_logic.tests ≡ 5)
        × All (λ t. t.completed ≡ false) ready_logic.tests)
unfolding program
initialize_lem_example = initialize_lem full_config (new_logic full_config true)

get_next_message-Ended_example :
    (out : Next × Logic) × (get_next_message heap dice stack_bytes
        (some message_buffer)
        5000
        ready_logic
      ≡ some out)
    × (out.1.config ≡ ready_logic.config)
    × Ended 5000 out
unfolding program
get_next_message-Ended_example =
    get_next_message-Ended heap dice stack_bytes (some message_buffer) 5000 ready_logic
      message_buffer refl refl (omega arith) (omega arith)

mapping_verdict_lem_example :
    let r = record_binding full_config (host 1 1) (host 7 2) true (host 10 14) init_results in
    let done = run_behavior true (host 7 4) (run_behavior false (host 7 3) r) in
    (done.behavior ≡ address_and_port_dependent_mapping) × (done.behavior_test_success ≡ true)
unfolding program
mapping_verdict_lem_example =
    mapping_verdict_lem full_config (host 1 1) (host 7 2) (host 10 14) (host 7 3) (host 7 4) refl

filtering_verdict_lem_example :
    let r = record_binding full_config (host 1 1) (host 7 2) true (host 10 14) init_results in
    let done = run_filtering true true (run_filtering false false r) in
    (done.filtering ≡ address_dependent_filtering) × (done.filtering_test_success ≡ true)
unfolding program
filtering_verdict_lem_example =
    filtering_verdict_lem full_config (host 1 1) (host 7 2) (host 10 14) false true

no_other_address_unknown_example :
    let r = record_binding full_config (host 1 1) (host 7 2) false (host 10 14) init_results in
    let done =
      run_filtering true true (
        run_filtering false true
          (run_behavior true (host 7 4) (run_behavior false (host 7 3) r))) in
    (done.behavior ≡ unknown_behavior)
    × (done.behavior_test_success ≡ false)
    × (done.filtering ≡ unknown_filtering)
    × (done.filtering_test_success ≡ false)
unfolding program
no_other_address_unknown_example =
    no_other_address_unknown full_config (host 1 1) (host 7 2) (host 10 14) (host 7 3) (host 7 4)
      true true refl

-- the client after it has sent its first message, with a known id
abbrev waiting_logic : Logic
waiting_logic = record ready_logic {
  tests = record (init_test basic_binding false) { transaction_id = cookie_id } ∷ [];
  send_count = 1;
}

-- a success response with a XOR-MAPPED-ADDRESS for 192.0.2.1, port 32853
abbrev response_bytes : List ℕ
response_bytes =
    1 ∷ 1 ∷ 0 ∷ 12 ∷ cookie_id
    ++ (0 ∷ 0x20 ∷ 0 ∷ 8 ∷ 0 ∷ 1 ∷ 0xa1 ∷ 0x47 ∷ 0xe1 ∷ 0x12 ∷ 0xa6 ∷ 0x43 ∷ [])

abbrev response_buffer : Buffer
response_buffer = record { bytes = some response_bytes; size = 32; allocated = 32 }

process_message-accepted_example :
    (t : ClientTest) × (get_elem? waiting_logic.tests 0 ≡ some t)
    × (t.completed ≡ false)
    × ((add_bytes heap response_bytes new_reader).0 ≡ body_validated)
    × (same_bytes (add_bytes heap response_bytes new_reader).1.transaction_id t.transaction_id
        ≡ true)
unfolding program
process_message-accepted_example =
    process_message-accepted heap response_buffer (host 1 1) waiting_logic refl

-- the same response with another id
abbrev foreign_buffer : Buffer
foreign_buffer = record response_buffer { bytes = some (1 ∷ 1 ∷ 0 ∷ 0 ∷ replicate 16 9); size = 20 }

process_message-refused_example :
    (process_message heap foreign_buffer (host 1 1) waiting_logic).1 ≡ waiting_logic
unfolding program
process_message-refused_example =
    process_message-refused heap foreign_buffer (host 1 1) waiting_logic refl

-- a binding test that waits for its answer, and a test behind it
abbrev waiting_pair : Logic
waiting_pair = record waiting_logic {
  tests =
      record (init_test basic_binding false) { transaction_id = cookie_id }
      ∷ init_test behavior false
      ∷ [];
}

process_message-completed_example :
    let l' = (process_message heap response_buffer (host 1 1) waiting_pair).1 in
    ((t : ClientTest) × (get_elem? l'.tests 0 ≡ some t) × (t.completed ≡ true))
    × (get_elem? l'.tests 1 ≡ some (init_test behavior false))
    × (l'.config ≡ waiting_pair.config)
    × (l'.test_index ≡ 0)
    × (l'.send_count ≡ 1)
unfolding program
process_message-completed_example =
    process_message-completed heap response_buffer (host 1 1) waiting_pair 1 refl (ground arith)
