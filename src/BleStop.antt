-- ===== src/BleStop.antt =====
-- firmware/components/ble_lifecycle, stop_transaction.hpp: the word that a control owner and a stopping worker share, an identity and a
-- status, and the order of the worker's steps. The methods are exchanges of one word, each one step.
use s3_hidbot.Common.{
  ℕ, ◌+◌, ◌*◌, ◌/◌, ◌^◌, ◌%◌, Bool, true, false, not, ◌&&◌, ◌||◌, ◌==◌, List, [], ◌∷◌, ltb, leb,
  if◌then◌else◌,
}

-- `value & 0xff` can be a number without an enumerator: `other`.
pub data StopStatus : Type 0 where
  idle running stopped consumed task_failure host_stop_failure host_exit_failure deinit_failure
        timer_failure expired wrong_owner :
      StopStatus
  other : ℕ → StopStatus

pub record StopTransaction : Type 0 where
  pub value : ℕ
  pub next_id : ℕ

abbrev pub max_id : ℕ
max_id = 72057594037927935

abbrev pub stop_code : StopStatus → ℕ
stop_code idle = 0
stop_code running = 1
stop_code stopped = 2
stop_code consumed = 3
stop_code task_failure = 4
stop_code host_stop_failure = 5
stop_code host_exit_failure = 6
stop_code deinit_failure = 7
stop_code timer_failure = 8
stop_code expired = 9
stop_code wrong_owner = 10
stop_code (other n) = n

abbrev pub initial_stop : StopTransaction
initial_stop = record { value = 0; next_id = 1 }

-- `(id << 8) | status`, in 64 bits.
unfoldable pub pack : ℕ → StopStatus → ℕ
pack id s = id * 2 ^ 8 % 2 ^ 64 + stop_code s

-- `static_cast<StopStatus>(value & 0xff)`, as its number.
abbrev pub unpack : ℕ → ℕ
unpack value = value % 2 ^ 8

abbrev pub to_status : ℕ → StopStatus
to_status n =
    if n == 0
    then idle
    else if n == 1
    then running
    else if n == 2
    then stopped
    else if n == 3
    then consumed
    else if n == 4
    then task_failure
    else if n == 5
    then host_stop_failure
    else if n == 6
    then host_exit_failure
    else if n == 7
    then deinit_failure
    else if n == 8
    then timer_failure
    else if n == 9
    then expired
    else if n == 10
    then wrong_owner
    else other n

abbrev pub no_id : ℕ → Bool
no_id id = id == 0 || ltb max_id id

-- The new members, and the identity, 0 for none.
unfoldable pub begin_stop : StopTransaction → StopTransaction × ℕ
begin_stop t =
    let phase : ℕ = unpack t.value in
    if (not (phase == stop_code idle) && not (phase == stop_code consumed))
      || t.next_id == 0
      || ltb max_id t.next_id
    then (t, 0)
    else (record { value = pack t.next_id running; next_id = t.next_id + 1 }, t.next_id)

-- `compare_exchange_strong`.
abbrev pub exchange : StopTransaction → ℕ → ℕ → StopTransaction × Bool
exchange t expected desired =
    if t.value == expected then (record t { value = desired }, true) else (t, false)

unfoldable pub complete_stop : StopTransaction → ℕ → StopStatus → StopTransaction × Bool
complete_stop t id result =
    if no_id id
      || ltb (stop_code result) (stop_code stopped)
      || stop_code result == stop_code consumed
      || leb (stop_code expired) (stop_code result)
    then (t, false)
    else exchange t (pack id running) (pack id result)

unfoldable pub expire : StopTransaction → ℕ → StopTransaction × Bool
expire t id =
    if no_id id
    then (t, false)
    else if t.value / 2 ^ 8 == id
        && (unpack t.value == stop_code running || unpack t.value == stop_code stopped)
    then (record t { value = pack id expired }, true)
    else (t, false)

unfoldable pub consume_stop : StopTransaction → ℕ → StopTransaction × Bool
consume_stop t id = if no_id id then (t, false) else exchange t (pack id stopped) (pack id consumed)

unfoldable pub status : StopTransaction → ℕ → StopStatus
status t id =
    if not (id == 0) && leb id max_id && t.value / 2 ^ 8 == id
    then to_status (unpack t.value)
    else wrong_owner

unfoldable pub initialization_allowed : StopTransaction → Bool
initialization_allowed t = unpack t.value == stop_code idle || unpack t.value == stop_code consumed

-- The worker's calls of its platform; those whose answer it looks at are answered by a parameter.
pub data WorkerCall : Type 0 where
  host_stop await_host_exit delete_host_task deinitialize retire_timers : WorkerCall

-- The result, and the calls that are made.
unfoldable pub run_stop_sequence : (WorkerCall → Bool) → StopStatus × List WorkerCall
run_stop_sequence answer =
    if not (answer host_stop)
    then (host_stop_failure, host_stop ∷ [])
    else if not (answer await_host_exit)
    then (host_exit_failure, host_stop ∷ await_host_exit ∷ [])
    else if not (answer deinitialize)
    then (deinit_failure, host_stop ∷ await_host_exit ∷ delete_host_task ∷ deinitialize ∷ [])
    else if not (answer retire_timers)
    then (
      timer_failure,
      host_stop ∷ await_host_exit ∷ delete_host_task ∷ deinitialize ∷ retire_timers ∷ [],
    )
    else (
      stopped,
      host_stop ∷ await_host_exit ∷ delete_host_task ∷ deinitialize ∷ retire_timers ∷ [],
    )
