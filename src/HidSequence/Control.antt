-- ===== src/HidSequence/Control.antt =====
-- The controller of one sequence at a time: who starts it, ends it, and reports on it. A method is one
-- step; the exception is `start`, during which other tasks may abort (`meanwhile`), while the backend
-- decides. The backend and the clock answer by arguments, and what the backend is told is logged.
use s3_hidbot.Common.{
  ℕ, ℤ, less, ◌+◌, ◌-◌, ◌/◌, ◌^◌, ◌%◌, Bool, true, false, not, ◌&&◌, ◌||◌, ◌==◌, List, [], ◌∷◌,
  Option, some, none, bit_and, if◌then◌else◌,
}
use s3_hidbot.HidSequence.Types.{HidState, Plan}
use s3_hidbot.HidSequence.Parse.{parse}
use s3_hidbot.HidSequence.StatusWord.{
  State, accepted, running, aborted, TerminalCode, nothing_failed, sequence_aborted, encode_status,
  decode_state, decode_executed, decode_failed_token_present, decode_failed_token,
  decode_terminal_code, decode_release_owned, is_running, is_live, is_failure, is_completed,
  is_aborted, terminal_state,
}

pub data AdmissionResult : Type 0 where
  admitted invalid busy not_ready safety_pending unsupported_operation : AdmissionResult

pub record ExecutionAuthority : Type 0 where
  pub generation : ℕ
  pub authority_epoch : ℕ
  pub release_epoch : ℕ
  pub profile_activation_epoch : ℕ
  pub active_roles : ℕ
  pub transport : ℕ
  pub route_generation : ℕ

pub record Status : Type 0 where
  pub sequence_id : ℤ
  pub state : State
  pub started : Bool
  pub executed : ℕ
  pub failed_token_present : Bool
  pub failed_token : ℕ
  pub code : TerminalCode

-- The calls of the backend that change it.
pub data BackendCall : Type 0 where
  begins_sequence revokes_sequence requests_safety_release : BackendCall
  ends_sequence : ExecutionAuthority → BackendCall

-- The members, and the backend's calls so far, the latest first.
pub record Controller : Type 0 where
  pub plan : Plan
  pub authority : ExecutionAuthority
  pub active_local_owner_id : ℕ
  pub admission_us : ℕ
  pub next_generation : ℕ
  pub reserved_generation : ℕ
  pub runnable_generation : ℕ
  pub canceled_generation : ℕ
  pub status_owner_low : ℕ
  pub status_owner_high : ℕ
  pub status_generation : ℕ
  pub status_word : ℕ
  pub initialized : Bool
  pub cancel_requested : Bool
  pub sequence_id : ℤ
  pub backend : List BackendCall

abbrev pub owner_low : ℕ → ℕ
owner_low owner = owner % 2 ^ 32

abbrev pub owner_high : ℕ → ℕ
owner_high owner = owner / 2 ^ 32 % 2 ^ 32

abbrev pub tell : BackendCall → Controller → Controller
tell call c = record c { backend = call ∷ c.backend }

-- The new counter and the generation, if one is left.
abbrev pub allocate_generation : ℕ → ℕ × Option ℕ
allocate_generation next =
    if next == 0 then (next, none) else (if next == 2 ^ 32 - 1 then 0 else next + 1, some next)

-- The word of an abort, which keeps what was executed.
abbrev pub aborted_word : ℕ → Bool → ℕ
aborted_word current release =
    encode_status aborted (decode_executed current) true (decode_executed current) sequence_aborted
      release

unfoldable pub abort_generation : ℕ → Controller → Controller
abort_generation generation c =
    if generation == 0 || not (c.reserved_generation == generation)
    then c
    else (let revoked = tell revokes_sequence (record c { canceled_generation = generation }) in
        record revoked {
          status_word =
              if c.status_generation == generation && is_live (decode_state c.status_word)
              then aborted_word c.status_word false
              else c.status_word;
          cancel_requested = true;
        })

unfoldable pub abort : Controller → Controller
abort c =
    if c.reserved_generation == 0
    then record c { cancel_requested = true }
    else abort_generation c.reserved_generation c

unfoldable pub abort_for_release : Controller → Controller × Bool
abort_for_release c =
    let generation = c.reserved_generation in
    let terminal = decode_state c.status_word in
    if generation == 0
    then (record c { cancel_requested = true }, true)
    else if not (c.status_generation == generation)
    then (c, false)
    else if is_live terminal
    then (
      tell revokes_sequence (record c {
        status_word = aborted_word c.status_word true;
        canceled_generation = generation;
        cancel_requested = true;
      }),
      true,
    )
    else (c, is_completed terminal || (is_aborted terminal && decode_release_owned c.status_word))

unfoldable pub retire_owner : ℕ → Controller → Controller
retire_owner local_owner_id c =
    let generation = c.status_generation in
    if local_owner_id == 0
    then c
    else if generation == 0
        || not (c.status_owner_low == owner_low local_owner_id)
        || not (c.status_owner_high == owner_high local_owner_id)
    then c
    else abort_generation generation (record c { status_generation = 0 })

-- What another task may do at any moment.
pub data Outside : Type 0 where
  aborts aborts_for_release : Outside
  retires : ℕ → Outside

abbrev pub outside : Outside → Controller → Controller
outside aborts c = abort c
outside aborts_for_release c = (abort_for_release c).0
outside (retires owner) c = retire_owner owner c

unfoldable pub outside_all : List Outside → Controller → Controller
outside_all [] c = c
outside_all (call ∷ calls) c = outside_all calls (outside call c)

-- The backend's answer to `begin_sequence`.
pub record Admission : Type 0 where
  pub result : AdmissionResult
  pub initial : HidState
  pub authority : ExecutionAuthority

abbrev pub is_admitted : AdmissionResult → Bool
is_admitted admitted = true
is_admitted _ = false

abbrev pub is_subset : ℕ → ℕ → Bool
is_subset subset superset = bit_and subset superset == subset

-- The members of an admitted sequence, whose generation commits its record.
abbrev pub published : ℕ → ℤ → ℕ → ℕ → Plan → ExecutionAuthority → Controller → Controller
published local_owner_id sequence_id now generation plan authority c = record c {
  plan = plan;
  authority = authority;
  active_local_owner_id = local_owner_id;
  admission_us = now;
  cancel_requested = c.canceled_generation == generation;
  sequence_id = sequence_id;
  status_word = encode_status accepted 0 false 0 nothing_failed false;
  status_owner_low = owner_low local_owner_id;
  status_owner_high = owner_high local_owner_id;
  status_generation = generation;
  runnable_generation = generation;
}

-- `end_sequence`, and the reservation is given back.
abbrev pub refused_with :
    AdmissionResult → ExecutionAuthority → Controller → Controller × AdmissionResult
refused_with result authority c =
    (record (tell (ends_sequence authority) c) { reserved_generation = 0 }, result)

-- The rest of `start`, from the backend's answer on.
unfoldable pub admit :
    ℕ → ℤ → List ℕ → ℕ → ℕ → Admission → Controller → Controller × AdmissionResult
admit local_owner_id sequence_id code now generation admission c =
    if not (is_admitted admission.result)
    then (record c { reserved_generation = 0 }, admission.result)
    else elim (parse code admission.initial) [
      | none ↦ refused_with invalid admission.authority c
      | some plan ↦
          if not (is_subset plan.required_roles admission.authority.active_roles)
          then refused_with unsupported_operation admission.authority c
          else (
            published local_owner_id sequence_id now generation plan admission.authority c,
            admitted,
          )
    ]

unfoldable pub start :
    ℕ → ℤ → List ℕ → ℕ → Admission → List Outside → Controller → Controller × AdmissionResult
start local_owner_id sequence_id code now admission meanwhile c =
    if not c.initialized || local_owner_id == 0
    then (c, not_ready)
    else (let (next, allocated) = allocate_generation c.next_generation in
        let counted = record c { next_generation = next } in
        elim allocated [
          | none ↦ (counted, not_ready)
          | some generation ↦
              if not (c.reserved_generation == 0)
              then (counted, busy)
              else admit local_owner_id sequence_id code now generation admission (
                  outside_all meanwhile
                    (tell begins_sequence (record counted { reserved_generation = generation })))
        ])

unfoldable pub status : ℕ → ℤ → Controller → Option Status
status local_owner_id sequence_id c =
    let state = decode_state c.status_word in
    let terminal = is_failure state in
    if c.status_generation == 0
      || local_owner_id == 0
      || not (c.status_owner_low == owner_low local_owner_id)
      || not (c.status_owner_high == owner_high local_owner_id)
      || (less c.sequence_id sequence_id || less sequence_id c.sequence_id)
    then none
    else some (record {
      sequence_id = sequence_id;
      state = state;
      started = elim state [ accepted ↦ false | _ ↦ true ];
      executed = decode_executed c.status_word;
      failed_token_present = terminal && decode_failed_token_present c.status_word;
      failed_token = if terminal then decode_failed_token c.status_word else 0;
      code = if terminal then decode_terminal_code c.status_word else nothing_failed;
    })

abbrev pub active : Controller → Bool
active c = not (c.reserved_generation == 0)

unfoldable pub claim_terminal : ℕ → State → ℕ → ℕ → TerminalCode → Controller → Controller × Bool
claim_terminal generation state executed failed_token code c =
    if not (c.status_generation == generation) || not (terminal_state state)
    then (c, false)
    else if not (is_running (decode_state c.status_word))
    then (c, false)
    else (
      record c {
        status_word = encode_status state executed (is_failure state) failed_token code false;
      },
      true,
    )

unfoldable pub publish_running_progress : ℕ → ℕ → Controller → Controller × Bool
publish_running_progress generation executed c =
    if not (c.status_generation == generation)
    then (c, false)
    else if not (is_running (decode_state c.status_word))
    then (c, false)
    else (
      record c { status_word = encode_status running executed false 0 nothing_failed false },
      true,
    )

-- The exchange by which a run takes up its sequence, and whether it did.
unfoldable pub take_up : ℕ → Controller → Controller × Bool
take_up generation c =
    if not (c.status_generation == generation)
    then (c, false)
    else if not (c.status_word == encode_status accepted 0 false 0 nothing_failed false)
    then (c, false)
    else (record c { status_word = encode_status running 0 false 0 nothing_failed false }, true)

-- `reserved_generation_` is given back by the run that holds it.
abbrev pub end_reservation : ℕ → Controller → Controller
end_reservation generation c = record (tell (ends_sequence c.authority) c) {
  reserved_generation = if c.reserved_generation == generation then 0 else c.reserved_generation;
}

-- The end of a run that did not take up its sequence.
unfoldable pub leave_untaken : ℕ → Controller → Controller
leave_untaken generation c = end_reservation generation (
    if c.status_generation == generation
      && is_aborted (decode_state c.status_word)
      && not (decode_release_owned c.status_word)
    then tell requests_safety_release c
    else c)

-- The end of a run that did, after its last exchange of the word.
unfoldable pub clean_up : ℕ → Controller → Controller
clean_up generation c = end_reservation generation (
    if not (is_completed (decode_state c.status_word)) && not (decode_release_owned c.status_word)
    then tell requests_safety_release c
    else c)

-- The end of a run, by whether it took up its sequence.
abbrev pub run_end : Bool → ℕ → Controller → Controller
run_end true generation c = clean_up generation c
run_end false generation c = leave_untaken generation c
