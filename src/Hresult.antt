-- ===== src/Hresult.antt =====
-- all/hresult.h and all/chkmacros.h: status codes, and the chains that `Chk` and `ChkIf` make.
use nat_tester.Base.{Bool, true, false, if◌then◌else◌}

-- The codes that the modelled files return. `SetSize` assigns a `bool` to an HRESULT: `true` is
-- the code 1, S_FALSE, and `false` is the code 0, S_OK. The last two are of stunclientlogic.h.
pub data Hresult : Type 0 where
  s_ok s_false e_fail e_invalidarg e_unexpected e_outofmemory : Hresult
  e_still_waiting e_results_ready : Hresult

-- `SUCCEEDED(hr)`: the sign bit is clear. `FAILED(hr)` is its negation.
abbrev pub succeeded : Hresult → Bool
succeeded s_ok = true
succeeded s_false = true
succeeded _ = false

abbrev pub of_bool : Bool → Hresult
of_bool true = s_false
of_bool false = s_ok

-- The variable `hr` of a function, beside the state that the function works on.
abbrev pub Run : Type 0 → Type 0
Run S = Hresult × S

-- `Chk(f)`: once `hr` holds a failure nothing more is done.
infixl 5 ◌▷◌
abbrev pub ◌▷◌ : {S : Type 0} → Run S → (S → Run S) → Run S
r ▷ f = if succeeded r.0 then f r.1 else r

-- `if (test) { Chk(f); }`
abbrev pub chk_when : {S : Type 0} → Bool → (S → Run S) → Run S → Run S
chk_when test f r = if test then r ▷ f else r

-- `ChkIf(test, e)`
abbrev pub chk_if : {S : Type 0} → Bool → Hresult → Run S → Run S
chk_if test e r = if succeeded r.0 then (if test then (e, r.1) else r) else r
