-- ===== src/Station/Op.antt =====
-- Operations on the station: a state, what was sent, and whether the caller goes on. An early
-- `return` of the source does not go on.
use my_linux_pbs.Base.{Bool, true, false, List, [], ◌++◌, if◌then◌else◌}
use my_linux_pbs.Station.State.{Station, Action}

pub record Outcome : Type 0 where
  pub state : Station
  pub sent : List Action
  pub go : Bool

abbrev pub Op : Type 0
Op = Station → Outcome

abbrev pub continue : Station → List Action → Outcome
continue s out = record { state = s; sent = out; go = true }

abbrev pub return : Station → List Action → Outcome
return s out = record { state = s; sent = out; go = false }

-- What was sent before stands in front.
unfoldable pub behind : List Action → Outcome → Outcome
behind out o = record o { sent = out ++ o.sent }

infixr 20 ◌then_op◌
unfoldable pub ◌then_op◌ : Op → Op → Op
(f then_op g) s = let first = f s in if first.go then behind first.sent (g first.state) else first

-- A call of a `void` function: the caller goes on, also behind an early `return` of the callee.
unfoldable pub call : Op → Op
call f s = let o = f s in continue o.state o.sent

unfoldable pub finish : Op
finish s = return s []

-- An early `return` under a test.
unfoldable pub stop_if : Bool → Op
stop_if stop s = if stop then return s [] else continue s []

-- An `if` without `else` whose test fails.
unfoldable pub go_on : Op
go_on s = continue s []
