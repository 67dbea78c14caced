-- ===== src/BleSpec/Stopping.antt =====
-- The stop transaction: what is settled stays so, and the stack may start again after a whole stop only.
use s3_hidbot.Common.{
  ℕ, ◌+◌, ◌≤◌, ◌<◌, ◌≡◌, refl, ◌∙◌, Bool, true, false, List, [], ◌∷◌, arith, ◌||◌, ◌&&◌, ◌==◌, leb,
}
use s3_hidbot.BleStop.{
  StopStatus, running, stopped, consumed, StopTransaction, stop_code, pack, unpack, no_id, exchange,
  begin_stop, complete_stop, expire, consume_stop, initialization_allowed, WorkerCall, host_stop,
  await_host_exit, deinitialize, retire_timers, run_stop_sequence,
}

-- The methods of the owner and of a worker, which may be as late as it likes.
pub data StopCall : Type 0 where
  begins : StopCall
  completes : ℕ → StopStatus → StopCall
  expires consumes : ℕ → StopCall

unfoldable pub stop_step : StopTransaction → StopCall → StopTransaction
stop_step t begins = (begin_stop t).0
stop_step t (completes id result) = (complete_stop t id result).0
stop_step t (expires id) = (expire t id).0
stop_step t (consumes id) = (consume_stop t id).0

unfoldable pub stop_run : StopTransaction → List StopCall → StopTransaction
stop_run t [] = t
stop_run t (c ∷ cs) = stop_run (stop_step t c) cs

-- A status that is neither idle, running, stopped nor consumed.
abbrev pub IsSettled : StopTransaction → Type 0
IsSettled t = 4 ≤ unpack t.value

pack-unpack : (id : ℕ) (s : StopStatus) → stop_code s < 4 → unpack (pack id s) ≡ stop_code s
unfolding pack
pack-unpack id s h = ground arith

exchange-settled :
    (t : StopTransaction) (id : ℕ) (s : StopStatus) (desired : ℕ)
    → stop_code s < 4
    → IsSettled t
    → exchange t (pack id s) desired ≡ (t, false)
exchange-settled t id s desired h w = ground (arith, pack-unpack id s h)

stop_step-settled : (t : StopTransaction) (c : StopCall) → IsSettled t → stop_step t c ≡ t
unfolding stop_step begin_stop complete_stop expire consume_stop
stop_step-settled t begins w = ground arith
stop_step-settled t (completes id result) w =
    ground (arith, exchange-settled t id running (pack id result) (ground arith) w)
stop_step-settled t (expires id) w = ground arith
stop_step-settled t (consumes id) w =
    ground (arith, exchange-settled t id stopped (pack id consumed) (ground arith) w)

settled_refuses : (t : StopTransaction) → IsSettled t → initialization_allowed t ≡ false
unfolding initialization_allowed
settled_refuses t w = ground arith

-- A stop that has failed or expired is settled: no later call of the owner or of a worker changes the
-- transaction, and the stack is never allowed to initialize again.
pub settled_stays :
    (t : StopTransaction) (cs : List StopCall)
    → IsSettled t
    → (stop_run t cs ≡ t) × (initialization_allowed (stop_run t cs) ≡ false)
unfolding stop_run
settled_stays t [] w = (refl, settled_refuses t w)
settled_stays t (c ∷ cs) w = rw (stop_step-settled t c w) (settled_stays t cs w)

abbrev is_result : ℕ → Bool
is_result n = n == 2 || (leb 5 n && leb n 8)

begin_allowed :
    (t : StopTransaction)
    → initialization_allowed t ≡ true
    → no_id t.next_id ≡ false
    → begin_stop t ≡ (record { value = pack t.next_id running; next_id = t.next_id + 1 }, t.next_id)
unfolding begin_stop initialization_allowed
begin_allowed t h n = ground arith

complete_running :
    (id next : ℕ) (s : StopStatus)
    → no_id id ≡ false
    → is_result (stop_code s) ≡ true
    → complete_stop (record { value = pack id running; next_id = next }) id s
      ≡ (record { value = pack id s; next_id = next }, true)
unfolding complete_stop
complete_running id next s n h = ground arith

consume_completed :
    (id next : ℕ) (s : StopStatus)
    → no_id id ≡ false
    → is_result (stop_code s) ≡ true
    → initialization_allowed (consume_stop (record { value = pack id s; next_id = next }) id).0
      ≡ (stop_code s == 2)
unfolding consume_stop initialization_allowed pack
consume_completed id next s n h = ground arith

running_refuses :
    (id next : ℕ)
    → initialization_allowed (record { value = pack id running; next_id = next }) ≡ false
unfolding initialization_allowed pack
running_refuses id next = ground arith

abbrev all_answered : (WorkerCall → Bool) → Bool
all_answered answer =
    answer host_stop && answer await_host_exit && answer deinitialize && answer retire_timers

worker_result :
    (answer : WorkerCall → Bool)
    → (is_result (stop_code (run_stop_sequence answer).0) ≡ true)
      × ((stop_code (run_stop_sequence answer).0 == 2) ≡ all_answered answer)
unfolding run_stop_sequence
worker_result answer = ground arith

-- A stop that is begun, while the stack may initialize and identities are left, takes the next identity,
-- and the stack may not initialize while it runs. When the worker's result is completed and the owner
-- has consumed it, the stack may initialize again exactly if every step of the worker was answered well.
pub stop_round :
    (t : StopTransaction) (answer : WorkerCall → Bool)
    → initialization_allowed t ≡ true
    → no_id t.next_id ≡ false
    → let id = t.next_id in
      let begun = (begin_stop t).0 in
      let completed = (complete_stop begun id (run_stop_sequence answer).0).0 in
      ((begin_stop t).1 ≡ id)
      × (initialization_allowed begun ≡ false)
      × (initialization_allowed (consume_stop completed id).0 ≡ (
          answer host_stop
          && answer await_host_exit
          && answer deinitialize
          && answer retire_timers))
stop_round t answer h n =
    let (r, e) = worker_result answer in
    rw (begin_allowed t h n) (
      refl,
      running_refuses t.next_id (t.next_id + 1),
      rw (complete_running t.next_id (t.next_id + 1) (run_stop_sequence answer).0 n r)
          (consume_completed t.next_id (t.next_id + 1) (run_stop_sequence answer).0 n r ∙ e),
    )
