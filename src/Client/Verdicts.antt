-- ===== src/Client/Verdicts.antt =====
-- The NAT behaviour that the tests report, against the decision tree of RFC 5780, section 4.
use nat_tester.Base.{Bool, true, false, not, ◌||◌, if◌then◌else◌, ◌≡◌, arith}
use nat_tester.Address.{Address, is_same_ip_and_port, is_ip_address_zero}
use nat_tester.Client.{
  Config, Results, NatBehavior, NatFiltering, unknown_behavior, direct_mapping,
  endpoint_independent_mapping, address_dependent_mapping, address_and_port_dependent_mapping,
  unknown_filtering, endpoint_independent_filtering, address_dependent_filtering,
  address_and_port_dependent_filtering, behavior, filtering, init_results, init_test, pre_run_check,
  is_ready_to_run, notify_timeout, record_binding, record_behavior, record_filtering,
}

-- The mapping behaviour of a NAT: `local` is the client's address, `mapped` what the server saw of
-- it, `ap` and `aa` what its other address saw, at the same and at the other port.
abbrev pub mapping_verdict : Address → Address → Address → Address → NatBehavior
mapping_verdict local mapped ap aa =
    if is_same_ip_and_port local mapped
    then direct_mapping
    else if is_same_ip_and_port ap mapped
    then endpoint_independent_mapping
    else if is_same_ip_and_port aa ap
    then address_dependent_mapping
    else address_and_port_dependent_mapping

-- The filtering behaviour: was the reply from the other address and port received, and the one
-- from the other port?
abbrev pub filtering_verdict : Bool → Bool → Bool → NatFiltering
filtering_verdict direct reply2 reply3 =
    if direct
    then endpoint_independent_filtering
    else if reply2
    then endpoint_independent_filtering
    else if reply3
    then address_dependent_filtering
    else address_and_port_dependent_filtering

-- One test of the behaviour pair, answered with the mapped address `seen` if it is run.
abbrev pub run_behavior : Bool → Address → Results → Results
run_behavior is_test3 seen r =
    let (t, r') = pre_run_check (init_test behavior is_test3) r in
    if t.completed || not (is_ready_to_run t r') then r' else record_behavior is_test3 seen r'

-- One test of the filtering pair, answered or timed out if it is run.
abbrev pub run_filtering : Bool → Bool → Results → Results
run_filtering is_test3 reply r =
    let (t, r') = pre_run_check (init_test filtering is_test3) r in
    if t.completed || not (is_ready_to_run t r')
    then r'
    else if reply
    then record_filtering is_test3 r'
    else (notify_timeout t r').1

-- After a binding test whose server offers another address, and with both behaviour tests answered
-- wherever they are run, the reported behaviour is that of the decision tree, and the test counts
-- as a success. (A mapped address of zero would stop the second test from being run.)
pub mapping_verdict_lem :
    (c : Config) (local mapped other ap aa : Address)
    → is_ip_address_zero ap ≡ false
    → let r = record_binding c local mapped true other init_results in
      let done = run_behavior true aa (run_behavior false ap r) in
      (done.behavior ≡ mapping_verdict local mapped ap aa) × (done.behavior_test_success ≡ true)
unfolding record_binding init_results init_test pre_run_check is_ready_to_run record_behavior
mapping_verdict_lem c local mapped other ap aa nonzero = ground arith

-- The same of the filtering pair, where a test that is run is answered or times out.
pub filtering_verdict_lem :
    (c : Config) (local mapped other : Address) (reply2 reply3 : Bool)
    → let r = record_binding c local mapped true other init_results in
      let done = run_filtering true reply3 (run_filtering false reply2 r) in
      (done.filtering ≡ filtering_verdict (is_same_ip_and_port local mapped) reply2 reply3)
      × (done.filtering_test_success ≡ true)
unfolding record_binding init_results init_test pre_run_check is_ready_to_run record_filtering
    notify_timeout
filtering_verdict_lem c local mapped other reply2 reply3 = ground arith

-- A server that offers no other address leaves both behaviours unknown, unless the client is
-- reached directly.
pub no_other_address_unknown :
    (c : Config) (local mapped other ap aa : Address) (reply2 reply3 : Bool)
    → is_same_ip_and_port local mapped ≡ false
    → let r = record_binding c local mapped false other init_results in
      let done =
        run_filtering true reply3
          (run_filtering false reply2 (run_behavior true aa (run_behavior false ap r))) in
      (done.behavior ≡ unknown_behavior)
      × (done.behavior_test_success ≡ false)
      × (done.filtering ≡ unknown_filtering)
      × (done.filtering_test_success ≡ false)
unfolding record_binding init_results init_test pre_run_check is_ready_to_run record_filtering
    record_behavior notify_timeout
no_other_address_unknown c local mapped other ap aa reply2 reply3 apart = ground arith
