-- ===== src/PairingSpec/Shown.antt =====
-- What a mutation reads of the publication before it.
use s3_hidbot.Common.{◌+◌, ◌%◌, ◌≡◌, refl, ◌∙◌, Bool, true, arith}
use s3_hidbot.BleLifecycle.{flag, has}
use s3_hidbot.BlePairing.{
  Publication, StateMachine, Snapshot, store, store_all, publish, own_snapshot,
}
use s3_hidbot.PairingSpec.Torn.{still, own_snapshot-still, publish-sequence}

abbrev pub shown : Publication → Snapshot
shown p = record {
  coherent = true;
  live_state = p.live_state;
  last_result = p.last_result;
  generation = p.generation;
  connection_handle = p.connection_handle;
  pairing_id = p.pairing_id;
  pairing_active = p.pairing_active;
  input_consumed = p.input_consumed;
  id_exhausted = p.id_exhausted;
}

flags :
    (a c e : Bool)
    → let packed = flag a 0 + flag c 1 + flag e 2 in
      (has packed 0 ≡ a) × (has packed 1 ≡ c) × (has packed 2 ≡ e)
flags a c e = ground arith

still-publish : (p : Publication) (m : StateMachine) → still (publish p m) ≡ shown p
unfolding publish store_all store
still-publish p m =
    let (a, c, e) = flags p.pairing_active p.input_consumed p.id_exhausted in rw (a, c, e) refl

pub publish-even :
    (p : Publication) (m : StateMachine) → m.sequence % 2 ≡ 0 → (publish p m).sequence % 2 ≡ 0
publish-even p m e = rw (publish-sequence p m) (omega arith)

pub snapshot-publish :
    (p : Publication) (m : StateMachine) → m.sequence % 2 ≡ 0 → own_snapshot (publish p m) ≡ shown p
snapshot-publish p m e = own_snapshot-still (publish p m) (publish-even p m e) ∙ still-publish p m
