-- ===== src/Reconnect/Grants.antt =====
-- reconnect-state.ts: how many reconnects a run of calls schedules.
use remote_pi.Base.{
  ℕ, ◌+◌, ◌≡◌, refl, Bool, true, false, ◌&&◌, none, List, [], ◌∷◌, arith, ltb, is_some,
  if◌then◌else◌,
}
use remote_pi.Base.Equality.{◌==◌, nat_eq}
use remote_pi.Reconnect.{
  State, Call, begin_connection_call, replacement_bye_call, user_recover_call, begin_connection,
  replacement_bye, terminal_bye, user_recover, cancel, request, run_call, run,
}

-- 1 if the call schedules a reconnect while `token` is the current token.
abbrev grants_one : ℕ → Call → State → ℕ
grants_one token c s = if is_some (run_call c s).1 && (s.connection_token == token) then 1 else 0

-- How many reconnects the calls schedule while `token` is the current token.
abbrev pub grants : ℕ → List Call → State → ℕ
grants token [] s = 0
grants token (c ∷ calls) s = grants_one token c s + grants token calls (run_call c s).0

-- How many grants `token` can still get.
abbrev credit : ℕ → State → ℕ
credit token s =
    if ltb token s.connection_token
    then 0
    else if s.connection_token == token && s.scheduled
    then 0
    else 1

abbrev lifts_terminal : Call → Bool
lifts_terminal replacement_bye_call = true
lifts_terminal user_recover_call = true
lifts_terminal _ = false

abbrev pub NeverLifts : List Call → Type 0
NeverLifts [] = Unit
NeverLifts (c ∷ calls) = (lifts_terminal c ≡ false) × NeverLifts calls

run_call_terminal :
    (c : Call) (s : State)
    → s.terminal ≡ true
    → lifts_terminal c ≡ false
    → ((run_call c s).0.terminal ≡ true) × ((run_call c s).1 ≡ none)
unfolding run_call begin_connection replacement_bye terminal_bye user_recover cancel request
run_call_terminal begin_connection_call s t l = ground arith
run_call_terminal c s t l = ground arith

run_terminal :
    (token : ℕ) (calls : List Call) (s : State)
    → s.terminal ≡ true
    → NeverLifts calls
    → ((run calls s).terminal ≡ true) × (grants token calls s ≡ 0)
unfolding run
run_terminal token [] s t l = (t, refl)
run_terminal token (c ∷ calls) s t l =
    let (t', none_scheduled) = run_call_terminal c s t l.0 in
    let (t'', no_grants) = run_terminal token calls (run_call c s).0 t' l.1 in
    (t'', ground (arith, none_scheduled, no_grants))

-- After a terminal bye, until a replacement bye or a recovery by the user, the state stays terminal
-- and no call schedules a reconnect, whatever the token.
pub terminal-no_grants :
    (token : ℕ) (calls : List Call) (s : State)
    → NeverLifts calls
    → ((run calls (terminal_bye s)).terminal ≡ true) × (grants token calls (terminal_bye s) ≡ 0)
terminal-no_grants token calls s l =
    run_terminal token calls (terminal_bye s) (unfold terminal_bye in refl) l
