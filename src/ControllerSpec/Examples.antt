-- ===== src/ControllerSpec/Examples.antt =====
-- The controller's theorems applied to one sequence.
use s3_hidbot.Common.{ℕ, pos, ◌≡◌, ◌≢◌, refl, drop, true, false, List, [], ◌∷◌, ◌++◌, arith}
use s3_hidbot.HidSequence.{
  HidState, accepted, completed, nothing_failed, Controller, ExecutionAuthority, Admission,
  admitted, Outside, aborts, retires, outside_all, start, admit, encode_status, abort_for_release,
  parse, checked_duration, parse_tokens, cut_token, parse_token, parse_number, number_from,
  apply_transition, duration_from, next_roles, abort, abort_generation, retire_owner, take_up,
}
use s3_hidbot.ControllerSpec.Ends.{
  takes_up, claims, calls, handle, handle_all, Releases, LeavesRelease,
}
use s3_hidbot.ControllerSpec.Untaken.{took}
use s3_hidbot.Common.{◌||◌}
use s3_hidbot.HidSequence.{leave_untaken, decode_state, decode_executed}
use s3_hidbot.ControllerSpec.Release.{release_owned_once}
use s3_hidbot.ControllerSpec.Starting.{abort_while_starting}
use s3_hidbot.ControllerSpec.Waiting.{IsEnd, wait_ends}
use s3_hidbot.Common.{some}
use s3_hidbot.HidSequence.{Moment, wait_local, wait_from, wait_decision}

abbrev idle : HidState
idle = record { modifiers = 0; keycodes = 0 ∷ 0 ∷ 0 ∷ 0 ∷ 0 ∷ 0 ∷ []; mouse_buttons = 0 }

abbrev authority : ExecutionAuthority
authority = record {
  generation = 5;
  authority_epoch = 2;
  release_epoch = 1;
  profile_activation_epoch = 1;
  active_roles = 3;
  transport = 0;
  route_generation = 4;
}

abbrev idle_controller : Controller
idle_controller = record {
  plan = record {
    operations = [];
    scheduled_duration_ms = 0;
    initial_state = idle;
    required_roles = 0;
  };
  authority = authority;
  active_local_owner_id = 0;
  admission_us = 0;
  next_generation = 1;
  reserved_generation = 0;
  runnable_generation = 0;
  canceled_generation = 0;
  status_owner_low = 0;
  status_owner_high = 0;
  status_generation = 0;
  status_word = 0;
  initialized = true;
  cancel_requested = false;
  sequence_id = pos 0;
  backend = [];
}

abbrev admission : Admission
admission = record { result = admitted; initial = idle; authority = authority }

-- "w7"
abbrev code : List ℕ
code = b'w' ∷ b'7' ∷ []

abbrev meanwhile : List Outside
meanwhile = (retires 9 ∷ []) ++ aborts ∷ retires 8 ∷ []

started_meanwhile : (start 9 (pos 6) code 1000 admission meanwhile idle_controller).1 ≡ admitted
unfolding start admit outside_all abort abort_generation retire_owner parse checked_duration
    parse_tokens cut_token parse_token parse_number number_from apply_transition duration_from
    next_roles drop
started_meanwhile = refl

abort_while_starting_example :
    (start 9 (pos 6) code 1000 admission meanwhile idle_controller).0.cancel_requested ≡ true
abort_while_starting_example =
    abort_while_starting 9 (pos 6) code 1000 admission (retires 9 ∷ []) (retires 8 ∷ [])
      idle_controller started_meanwhile

abbrev waiting : Controller
waiting = record idle_controller {
  reserved_generation = 1;
  status_generation = 1;
  status_word = encode_status accepted 0 false 0 nothing_failed false;
}

reserved_at_one : (handle_all (takes_up 1 ∷ []) waiting).reserved_generation ≡ 1
unfolding handle_all handle take_up encode_status
reserved_at_one = refl

in_force : (handle_all (takes_up 1 ∷ []) waiting).status_generation ≡ 1
unfolding handle_all handle take_up encode_status
in_force = refl

release_owned_once_example :
    let (next, owned) = abort_for_release (handle_all (takes_up 1 ∷ []) waiting) in
    let last = handle_all (claims 1 completed 1 0 nothing_failed ∷ []) next in
    let taken =
      took (takes_up 1 ∷ []) waiting || took (claims 1 completed 1 0 nothing_failed ∷ []) next in
    (owned ≡ true → LeavesRelease taken 1 last)
    × (owned ≡ false → taken ≡ true → Releases taken 1 last)
    × (owned ≡ false → taken ≡ false → last.status_generation ≡ 1 → Releases taken 1 last)
    × (owned ≡ false → taken ≡ false → last.status_generation ≢ 1 → LeavesRelease taken 1 last)
release_owned_once_example =
    release_owned_once (takes_up 1 ∷ []) (claims 1 completed 1 0 nothing_failed ∷ []) 1 waiting refl
      (λ e. omega (arith, e)) reserved_at_one in_force

-- An untaken sequence is aborted and its owner is retired: the run leaves it.
abbrev withdrawn : Controller
withdrawn =
    handle_all (calls aborts ∷ calls (retires 9) ∷ []) (record waiting { status_owner_low = 9 })

withdrawn_left : LeavesRelease false 1 withdrawn
unfolding handle_all handle abort abort_generation retire_owner leave_untaken encode_status
    decode_state decode_executed
withdrawn_left = refl

abbrev at_clock : ℕ → Moment
at_clock now = record { meanwhile = []; now = now; authority_current = true }

-- Seven milliseconds from 1000: the second round ends the wait.
waited_complete :
    wait_local 7 (at_clock 1000 ∷ at_clock 5000 ∷ at_clock 8000 ∷ at_clock 9000 ∷ []) waiting
    ≡ some (record { controller = waiting; later = at_clock 9000 ∷ []; complete = true })
unfolding wait_local wait_from wait_decision outside_all
waited_complete = refl

wait_ends_example :
    IsEnd 8000 4000000
      (at_clock 5000 ∷ at_clock 8000 ∷ [])
      (outside_all [] waiting)
      (wait_local 7 (at_clock 1000 ∷ at_clock 5000 ∷ at_clock 8000 ∷ []) waiting)
unfolding outside_all
wait_ends_example = wait_ends 7 (at_clock 1000) (at_clock 5000 ∷ at_clock 8000 ∷ []) waiting refl
