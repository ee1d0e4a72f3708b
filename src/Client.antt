-- ===== src/Client.antt =====
-- all/stunclientlogic.h and all/stunclienttests.cpp: the configuration and the results of a run,
-- and the tests that a run is made of. The tests point to the configuration and the results of
-- their `CStunClientLogic`; here those are passed in and handed back.
pub mod Logic
pub mod Verdicts
pub mod Progress
pub mod Responses
pub mod Requests
use nat_tester.Base.{
  ℕ, Bool, true, false, not, ◌&&◌, ◌||◌, List, [], ◌∷◌, Option, none, some, take, replicate,
  if◌then◌else◌, ltb, ◌==◌,
}
use nat_tester.Hresult.{Hresult, s_ok, e_fail, succeeded, Run}
use nat_tester.StunTypes.{TransactionId, ChangeRequest, transaction_id_length}
use nat_tester.Stream.{Buffer, content}
use nat_tester.Address.{
  Address, zero_address, get_port, set_port, is_same_ip_and_port, is_ip_address_zero, same_bytes,
}
use nat_tester.Builder.{
  Builder, new_builder, attach_stream, add_binding_request_header, add_transaction_id,
  add_random_transaction_id, add_change_request, fix_length_field,
}
use nat_tester.Reader.{Reader, ParseState, body_validated, new_reader, add_bytes}
use nat_tester.Reader.Get.{
  is_transaction_id_valid, get_xor_mapped_address, get_mapped_address, get_other_address,
}

-- `StunClientLogicConfig`
pub record Config : Type 0 where
  pub addr_server : Address
  pub timeout_is_instant : Bool
  pub timeout_seconds : ℕ
  pub max_attempts : ℕ
  pub behavior_test : Bool
  pub filtering_test : Bool

-- `NatBehavior`
pub data NatBehavior : Type 0 where
  unknown_behavior direct_mapping endpoint_independent_mapping : NatBehavior
  address_dependent_mapping address_and_port_dependent_mapping : NatBehavior

-- `NatFiltering`
pub data NatFiltering : Type 0 where
  unknown_filtering direct_connection_filtering endpoint_independent_filtering : NatFiltering
  address_dependent_filtering address_and_port_dependent_filtering : NatFiltering

-- `StunClientResults`
pub record Results : Type 0 where
  pub binding_test_success : Bool
  pub is_direct : Bool
  pub addr_local : Address
  pub addr_mapped : Address
  pub has_other_address : Bool
  pub addr_pa : Address
  pub addr_ap : Address
  pub addr_aa : Address
  pub behavior_test_success : Bool
  pub behavior : NatBehavior
  pub addr_mapping_ap : Address
  pub addr_mapping_aa : Address
  pub filtering_test_success : Bool
  pub filtering : NatFiltering
  pub got_test2_response : Bool
  pub got_test3_response : Bool
  pub error_bitmask : ℕ

-- `StunClientResults::Init`
unfoldable pub init_results : Results
unfolding zero_address
init_results = record {
  binding_test_success = false;
  is_direct = false;
  addr_local = zero_address;
  addr_mapped = zero_address;
  has_other_address = false;
  addr_pa = zero_address;
  addr_ap = zero_address;
  addr_aa = zero_address;
  behavior_test_success = false;
  behavior = unknown_behavior;
  addr_mapping_ap = zero_address;
  addr_mapping_aa = zero_address;
  filtering_test_success = false;
  filtering = unknown_filtering;
  got_test2_response = false;
  got_test3_response = false;
  error_bitmask = 0;
}

-- The classes that derive from `CStunClientTestBase`.
pub data TestClass : Type 0 where
  basic_binding behavior filtering : TestClass

-- a test object; `is_test3` is the flag of `RunAsTest3`, and unused in the binding test
pub record ClientTest : Type 0 where
  pub class : TestClass
  pub is_test3 : Bool
  pub completed : Bool
  pub transaction_id : TransactionId

-- The constructors, followed by `CStunClientTestBase::Init` and, for a third test, `RunAsTest3`.
unfoldable pub init_test : TestClass → Bool → ClientTest
init_test class is_test3 = record {
  class = class;
  is_test3 = is_test3;
  completed = false;
  transaction_id = replicate transaction_id_length 0;
}

-- `PreRunCheck` of the base class, of `CBehaviorTest` and of `CFilteringTest`
abbrev pub pre_run_check_of : TestClass → ClientTest → Results → ClientTest × Results
pre_run_check_of basic_binding t r = (t, r)
pre_run_check_of behavior t r =
    if not t.is_test3 && (r.binding_test_success && r.is_direct)
    then (
      record t { completed = true },
      record r { behavior = direct_mapping; behavior_test_success = true },
    )
    else (t, r)
pre_run_check_of filtering t r =
    if not t.is_test3 && (r.binding_test_success && r.is_direct)
    then (
      record t { completed = true },
      record r { filtering = endpoint_independent_filtering; filtering_test_success = true },
    )
    else (t, r)

unfoldable pub pre_run_check : ClientTest → Results → ClientTest × Results
pre_run_check t r = pre_run_check_of t.class t r

-- `IsReadyToRun` of the three classes
abbrev pub is_ready_to_run_of : TestClass → ClientTest → Results → Bool
is_ready_to_run_of basic_binding t r = not t.completed
is_ready_to_run_of behavior t r =
    let ready =
      not t.completed
      && (r.binding_test_success && (r.has_other_address && not r.behavior_test_success)) in
    if t.is_test3 then ready && not (is_ip_address_zero r.addr_mapping_ap) else ready
is_ready_to_run_of filtering t r =
    not t.completed
    && (r.binding_test_success
        && (r.has_other_address && (not r.filtering_test_success && not r.got_test2_response)))

unfoldable pub is_ready_to_run : ClientTest → Results → Bool
is_ready_to_run t r = is_ready_to_run_of t.class t r

-- `NotifyTimeout` of the three classes
abbrev pub notify_timeout_of : TestClass → ClientTest → Results → ClientTest × Results
notify_timeout_of basic_binding t r =
    (record t { completed = true }, record r { binding_test_success = false })
notify_timeout_of behavior t r =
    (record t { completed = true }, record r { behavior_test_success = false })
notify_timeout_of filtering t r = (
  record t { completed = true },
  (if t.is_test3
      then record r {
        filtering_test_success = true;
        filtering = address_and_port_dependent_filtering;
      }
      else r),
)

unfoldable pub notify_timeout : ClientTest → Results → ClientTest × Results
notify_timeout t r = notify_timeout_of t.class t r

-- the CHANGE-REQUEST that each test sends
abbrev pub change_request_of : TestClass → Bool → ChangeRequest
change_request_of filtering is_test3 = record { change_ip = not is_test3; change_port = true }
change_request_of _ is_test3 = record { change_ip = false; change_port = false }

-- where each test sends its request
abbrev pub destination_of : TestClass → Bool → Config → Results → Address
destination_of behavior false c r = r.addr_ap
destination_of behavior true c r = r.addr_aa
destination_of _ is_test3 c r = c.addr_server

-- What `ProcessResponse` of `CBasicBindingTest` records for a mapped address and, if the server
-- sent one, another address of its own.
unfoldable pub record_binding : Config → Address → Address → Bool → Address → Results → Results
record_binding c local mapped has_other other r =
    let noted = record r {
      binding_test_success = true;
      is_direct = is_same_ip_and_port local mapped;
      addr_local = local;
      addr_mapped = mapped;
      has_other_address = has_other;
    } in
    if has_other
    then record noted {
      addr_aa = other;
      addr_pa = set_port (get_port other) c.addr_server;
      addr_ap = set_port (get_port c.addr_server) other;
    }
    else noted

-- What `ProcessResponse` of `CBehaviorTest` records.
unfoldable pub record_behavior : Bool → Address → Results → Results
record_behavior true mapped r = record r {
  addr_mapping_aa = mapped;
  behavior_test_success = true;
  behavior =
      if is_same_ip_and_port mapped r.addr_mapping_ap
      then address_dependent_mapping
      else address_and_port_dependent_mapping;
}
record_behavior false mapped r =
    let noted = record r { addr_mapping_ap = mapped } in
    if is_same_ip_and_port mapped r.addr_mapped
    then record noted { behavior_test_success = true; behavior = endpoint_independent_mapping }
    else noted

-- What `ProcessResponse` of `CFilteringTest` records.
unfoldable pub record_filtering : Bool → Results → Results
record_filtering true r = record r {
  got_test3_response = true;
  filtering_test_success = true;
  filtering = address_dependent_filtering;
}
record_filtering false r = record r {
  got_test2_response = true;
  filtering_test_success = true;
  filtering = endpoint_independent_filtering;
}

-- the mapped address of a response: the XOR one, or else the plain one
abbrev pub mapped_of : Reader → Hresult × Address
mapped_of reader =
    let (hr, found) = get_xor_mapped_address zero_address reader in
    if succeeded hr then (hr, found) else get_mapped_address found reader

-- What each class makes of a response that passed `BasicReaderValidation`.
unfoldable pub digest_response :
    TestClass → Config → Reader → Address → ClientTest → Results → Hresult × ClientTest × Results
unfolding record_binding record_behavior record_filtering
digest_response basic_binding c reader local t r =
    let (hr, mapped) = mapped_of reader in
    let (other_hr, other) = get_other_address zero_address reader in
    if succeeded hr
    then (
      hr,
      record t { completed = true },
      record_binding c local mapped (succeeded other_hr) other r,
    )
    else (hr, t, r)
digest_response behavior c reader local t r =
    let (hr, mapped) = mapped_of reader in
    if succeeded hr
    then (hr, record t { completed = true }, record_behavior t.is_test3 mapped r)
    else (hr, t, r)
digest_response filtering c reader local t r =
    (s_ok, record t { completed = true }, record_filtering t.is_test3 r)

module _ (new_bytes : ℕ → Option (List ℕ)) where
  -- `CStunClientTestBase::StartBindingRequest`; the calls' results are not looked at.
  unfoldable pub start_binding_request :
      (ℕ → ℕ) → TransactionId → ClientTest → Builder → ClientTest × Builder
  start_binding_request rand fresh t b =
      let headed = (add_binding_request_header new_bytes b).1 in
      let (r, id) = add_random_transaction_id new_bytes rand fresh headed in
      if is_transaction_id_valid t.transaction_id
      then (t, (add_transaction_id new_bytes t.transaction_id headed).1)
      else (record t { transaction_id = id }, r.1)

  -- `GetMessage` of the three classes: the test, the message and its destination. The status is
  -- always S_OK. The buffer that `GetNextMessage` demands has room for the request, so the
  -- builder's stream still holds the caller's buffer at the end.
  unfoldable pub get_message :
      (ℕ → ℕ)
      → TransactionId
      → Option Buffer
      → Config
      → Results
      → ClientTest
      → ClientTest × Builder × Address
  unfolding start_binding_request
  get_message rand fresh msg c r t =
      let (t', started) = start_binding_request rand fresh t (attach_stream msg new_builder) in
      let changed =
        (add_change_request new_bytes (change_request_of t.class t.is_test3) started).1 in
      (t', (fix_length_field new_bytes changed).1, destination_of t.class t.is_test3 c r)

  -- `CStunClientTestBase::BasicReaderValidation` for a message that is in memory
  unfoldable pub basic_reader_validation : Buffer → ClientTest → Hresult × Reader
  basic_reader_validation msg t =
      let (state, reader) = add_bytes new_bytes (take msg.size (content msg)) new_reader in
      let status : Hresult = elim state [
        | body_validated ↦
            if same_bytes reader.transaction_id t.transaction_id then s_ok else e_fail
        | _ ↦ e_fail
      ] in
      (status, reader)

  -- `ProcessResponse` of the three classes
  unfoldable pub process_response :
      Buffer → Config → Address → ClientTest → Results → Hresult × ClientTest × Results
  unfolding basic_reader_validation
  process_response msg c local t r =
      let (hr, reader) = basic_reader_validation msg t in
      if succeeded hr then digest_response t.class c reader local t r else (hr, t, r)
