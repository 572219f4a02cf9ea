-- ===== src/Tests/BridgeTests.antt =====
-- session_new_bridge.ts: a run of the bridge.
use remote_pi.Base.{◌+◌, ◌≤◌, ◌≡◌, true, List, [], ◌∷◌, length}
use remote_pi.Bridge.{dispatched, throws, initial}
use remote_pi.Bridge.Reply.{
  Call, dispatch_call, run_start_call, run_end_call, run_calls, requests, replies, pendings,
  run_calls_answers_once,
}

-- A request that succeeds, one that comes meanwhile, and one whose dispatch throws.
abbrev two_sessions : List Call
two_sessions =
    dispatch_call true "t1" 7 "f1" dispatched
    ∷ dispatch_call true "t2" 7 "f2" dispatched
    ∷ run_start_call "t1"
    ∷ run_end_call
    ∷ dispatch_call true "t3" 7 "f3" throws
    ∷ []

run_calls_answers_once_example :
    let b = run_calls two_sessions initial in
    (replies 7 "f1" b.log + pendings 7 "f1" b.pending ≡ requests 7 "f1" two_sessions)
    × (length b.pending ≤ 1)
run_calls_answers_once_example = run_calls_answers_once 7 "f1" two_sessions
