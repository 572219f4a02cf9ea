-- ===== src/Tests/ReconnectTests.antt =====
-- reconnect-state.ts: runs of the gate.
use remote_pi.Base.{◌≡◌, refl, true, some, none, List, [], ◌∷◌}
use remote_pi.Reconnect.{
  closed, error, initial, Call, begin_connection_call, cancel_call, request_call, terminal_bye, run,
}
use remote_pi.Reconnect.Grants.{grants, terminal-no_grants}

abbrev closed_twice : List Call
closed_twice =
    begin_connection_call ∷ request_call closed (some 1) ∷ request_call error (some 1) ∷ []

abbrev after_bye : List Call
after_bye = begin_connection_call ∷ request_call closed none ∷ cancel_call ∷ []

terminal-no_grants_example :
    ((run after_bye (terminal_bye initial)).terminal ≡ true)
    × (grants 2 after_bye (terminal_bye initial) ≡ 0)
terminal-no_grants_example = terminal-no_grants 2 after_bye initial (refl, (refl, (refl, tt)))
