-- ===== src/Turn/Lifecycle.antt =====
-- Starting and closing the TURN server.
use mephi_sfu_server_project.Common.{◌+◌, Bool, List, [], ◌∷◌, ◌≡◌, refl, arith, if◌then◌else◌}
use mephi_sfu_server_project.Turn.{TurnServerConfig, Server, new_server, start, close}

pub data Call : Type 0 where
  starts : Bool → Bool → Call
  closes : Bool → Call

unfoldable pub step : Call → Server → Server
unfolding start close
step (starts listens makes) s = (start listens makes s).0
step (closes ok) s = (close ok s).0

unfoldable pub run : List Call → Server → Server
unfolding step
run [] s = s
run (c ∷ rest) s = run rest (step c s)

-- Every socket was closed again or went to a server of pion's, and the servers are closed but for the running one.
pub record Inv (s : Server) : Type 0 where
  pub owned : s.opened ≡ s.dropped + s.made
  pub alive : s.made ≡ s.closed + (if s.running then 1 else 0)

step-Inv : (c : Call) (s : Server) → Inv s → Inv (step c s)
unfolding step start close
step-Inv (starts listens makes) s v = ground (arith, v.owned, v.alive)
step-Inv (closes ok) s v = ground (arith, v.owned, v.alive)

run-Inv : (calls : List Call) (s : Server) → Inv s → Inv (run calls s)
unfolding run
run-Inv [] s v = v
run-Inv (c ∷ rest) s v = run-Inv rest (step c s) (step-Inv c s v)

-- However often the server is started and closed, in whatever order and whatever fails: every socket that was opened
-- was closed again or went to a server of pion's, and all these servers were closed, but for one while it runs.
pub run-new_server-Inv :
    (config : TurnServerConfig) (calls : List Call) → Inv (run calls (new_server config))
unfolding new_server
run-new_server-Inv config calls = run-Inv calls _ (record { owned = refl; alive = refl })
