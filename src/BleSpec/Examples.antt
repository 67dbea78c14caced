-- ===== src/BleSpec/Examples.antt =====
-- The BLE lifecycle's theorems at concrete histories.
use s3_hidbot.Common.{negsuc, ◌≡◌, refl, Bool, true, false, List, [], ◌∷◌, arith, ◌&&◌}
use s3_hidbot.BleLifecycle.{
  StateMachine, initial, snapshot, Method, enables, syncs, advertises, connects, faults, apply,
  apply_all, begin_enable, begin_reset_recovery, refused, runtime, fault, connected, publish,
  advance_generation, clear_error, set_error, complete_sync, complete_advertising, observe_connect,
  complete_fault,
}
use s3_hidbot.BleStop.{
  StopTransaction, initial_stop, WorkerCall, deinitialize, host_stop, await_host_exit,
  retire_timers, begin_stop, complete_stop, expire, consume_stop, initialization_allowed,
  run_stop_sequence, pack, stopped,
}
use s3_hidbot.BleSpec.Safety.{IsConsistent}
use s3_hidbot.BleSpec.Histories.{built-IsConsistent, fault_is_final}
use s3_hidbot.BleSpec.Recovery.{is_stale, apply-stale}
use s3_hidbot.BleSpec.Stopping.{
  begins, completes, expires, consumes, stop_step, stop_run, settled_stays, stop_round,
}

abbrev linking : List Method
linking = enables ∷ syncs 1 ∷ advertises 1 ∷ connects 1 5 ∷ []

-- Opened, it opens what the histories below go through.
linked : StateMachine
unfolding apply_all apply initial snapshot publish advance_generation clear_error set_error
    begin_enable complete_sync complete_advertising observe_connect begin_reset_recovery
    complete_fault
linked = apply_all initial linking

linked_connected :
    ((snapshot linked).observed ≡ connected) × ((snapshot linked).is_connected ≡ true)
unfolding linked
linked_connected = (refl, refl)

built-IsConsistent_example : IsConsistent (snapshot (apply_all initial linking))
built-IsConsistent_example = built-IsConsistent linking

abbrev failing : List Method
failing = enables ∷ faults 1 runtime (negsuc 3) ∷ []

fault_is_final_example :
    (let m = apply_all (apply_all initial failing) (enables ∷ syncs 1 ∷ []) in
      ((snapshot m).observed ≡ fault) × (begin_enable m ≡ (m, refused)))
unfolding linked
fault_is_final_example = fault_is_final failing (enables ∷ syncs 1 ∷ []) refl

apply-stale_example : apply linked (advertises 7) ≡ linked
unfolding linked is_stale
apply-stale_example = apply-stale linked (advertises 7) refl

-- The owner gives up a worker that is still running.
abbrev given_up : StopTransaction
given_up = stop_run initial_stop (begins ∷ expires 1 ∷ [])

settled_stays_example :
    (stop_run given_up (completes 1 stopped ∷ consumes 1 ∷ begins ∷ []) ≡ given_up)
    × (initialization_allowed (stop_run given_up (completes 1 stopped ∷ consumes 1 ∷ begins ∷ []))
        ≡ false)
unfolding stop_run stop_step begin_stop expire pack
settled_stays_example =
    settled_stays given_up (completes 1 stopped ∷ consumes 1 ∷ begins ∷ []) (ground arith)

-- A worker whose deinitialization fails.
abbrev stuck : WorkerCall → Bool
stuck deinitialize = false
stuck _ = true

stop_round_example :
    (let id = initial_stop.next_id in
      let begun = (begin_stop initial_stop).0 in
      let completed = (complete_stop begun id (run_stop_sequence stuck).0).0 in
      ((begin_stop initial_stop).1 ≡ id)
      × (initialization_allowed begun ≡ false)
      × (initialization_allowed (consume_stop completed id).0 ≡ (
          stuck host_stop && stuck await_host_exit && stuck deinitialize && stuck retire_timers)))
unfolding initialization_allowed
stop_round_example = stop_round initial_stop stuck refl refl
