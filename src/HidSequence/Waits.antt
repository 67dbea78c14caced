-- ===== src/HidSequence/Waits.antt =====
-- The wait of a running sequence. Each round of its loop is at a moment: what other tasks did since the
-- one before, what the clock says, and whether the backend holds the authority to be current.
use s3_hidbot.Common.{
  ℕ, ◌+◌, ◌*◌, ◌^◌, ◌%◌, Bool, true, false, not, ◌||◌, List, [], ◌∷◌, Option, some, none,
  if◌then◌else◌,
}
use s3_hidbot.HidSequence.Parse.{wait_decision}
use s3_hidbot.HidSequence.Control.{Controller, Outside, outside_all}

abbrev pub execution_deadline_ms : ℕ
execution_deadline_ms = 4000

pub record Moment : Type 0 where
  pub meanwhile : List Outside
  pub now : ℕ
  pub authority_current : Bool

-- What a loop leaves: the members, the moments that are to come, and its answer.
pub record Waited : Type 0 where
  pub controller : Controller
  pub later : List Moment
  pub complete : Bool

-- The loop, until the moments that are given are over.
unfoldable pub wait_from : ℕ → ℕ → List Moment → Controller → Option Waited
wait_from wait_deadline execution_deadline [] c = none
wait_from wait_deadline execution_deadline (moment ∷ later) c =
    let seen = outside_all moment.meanwhile c in
    let decision = wait_decision moment.now wait_deadline execution_deadline in
    let rest = wait_from wait_deadline execution_deadline later seen in
    if seen.cancel_requested || not moment.authority_current
    then some (record { controller = seen; later = later; complete = false })
    else if decision.execution_expired
    then some (record { controller = seen; later = later; complete = false })
    else if decision.wait_complete
    then some (record { controller = seen; later = later; complete = true })
    else rest

-- The first moment only reads the clock, for the deadline; sums of 64-bit numbers.
unfoldable pub wait_local : ℕ → List Moment → Controller → Option Waited
wait_local milliseconds [] c = none
wait_local milliseconds (moment ∷ later) c =
    let seen = outside_all moment.meanwhile c in
    wait_from ((moment.now + milliseconds * 1000) % 2 ^ 64)
      ((seen.admission_us + execution_deadline_ms * 1000) % 2 ^ 64) later seen
