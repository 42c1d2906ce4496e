-- ===== src/Node/State.antt =====
-- src/node/state/state.go: the states of a node, and the limit on the routines that it launches. A
-- routine that starts is counted, and leaves the count before it runs its function.
use babble.Base.{ℕ, ◌+◌, String, ltb, if◌then◌else◌, Bool, true, false}

pub data State : Type 0 where
  babbling catching_up joining leaving shutdown suspended : State
  unknown : ℕ → State

unfoldable pub to_string : State → String
to_string babbling = "Babbling"
to_string catching_up = "CatchingUp"
to_string joining = "Joining"
to_string leaving = "Leaving"
to_string shutdown = "Shutdown"
to_string suspended = "Suspended"
to_string (unknown n) = "Unknown"

abbrev pub wg_limit : ℕ
wg_limit = 20

-- GoFunc: the count after the call, and whether a routine was launched
unfoldable pub go_func : ℕ → ℕ × Bool
go_func count = if ltb count wg_limit then (count + 1, true) else (count, false)
