-- ===== src/BlePairing/Memory.antt =====
-- The publication of a state as stores to the atomic members, and the snapshot as loads of them. The
-- loads of a snapshot may fall between the stores of a publication, so each load sees the members of
-- its own moment: `view n` are the members at the n-th load. Loads and stores are taken to be in one
-- order.
use s3_hidbot.Common.{ℕ, zero, suc, ◌+◌, ◌^◌, ◌%◌, Bool, true, ◌==◌, List, [], ◌∷◌, if◌then◌else◌}
use s3_hidbot.BleLifecycle.{flag, has}
use s3_hidbot.BlePairing.Types.{LiveState, LastResult, Snapshot, StateMachine, incoherent}

-- The arguments of `publish`.
pub record Publication : Type 0 where
  pub live_state : LiveState
  pub last_result : LastResult
  pub generation : ℕ
  pub connection_handle : ℕ
  pub pairing_id : ℕ
  pub pairing_active : Bool
  pub input_consumed : Bool
  pub id_exhausted : Bool

pub data Store : Type 0 where
  adds_to_sequence : Store
  stores_generation stores_connection stores_pairing_id stores_flags : ℕ → Store
  stores_live_state : LiveState → Store
  stores_last_result : LastResult → Store

unfoldable pub store : Store → StateMachine → StateMachine
store adds_to_sequence m = record m { sequence = (m.sequence + 1) % 2 ^ 32 }
store (stores_generation value) m = record m { generation = value }
store (stores_connection value) m = record m { connection_handle = value }
store (stores_pairing_id value) m = record m { pairing_id = value }
store (stores_flags value) m = record m { flags = value }
store (stores_live_state value) m = record m { live_state = value }
store (stores_last_result value) m = record m { last_result = value }

unfoldable pub store_all : List Store → StateMachine → StateMachine
store_all [] m = m
store_all (s ∷ stores) m = store_all stores (store s m)

-- The flags are disjoint bits: `|=` of one adds it.
abbrev pub flags_of : Publication → ℕ
flags_of p = flag p.pairing_active 0 + flag p.input_consumed 1 + flag p.id_exhausted 2

-- The stores of `publish`, in its order.
abbrev pub stores_of : Publication → List Store
stores_of p =
    adds_to_sequence
    ∷ stores_generation p.generation
    ∷ stores_connection p.connection_handle
    ∷ stores_pairing_id p.pairing_id
    ∷ stores_live_state p.live_state
    ∷ stores_last_result p.last_result
    ∷ stores_flags (flags_of p)
    ∷ adds_to_sequence
    ∷ []

unfoldable pub publish : Publication → StateMachine → StateMachine
publish p m = store_all (stores_of p) m

-- The attempts that are left, from the next load on.
unfoldable pub read_attempts : ℕ → ℕ → (ℕ → StateMachine) → Snapshot
read_attempts zero load view = incoherent
read_attempts (suc attempts) load view =
    let before = (view load).sequence in
    let flags = (view (load + 6)).flags in
    let after = (view (load + 7)).sequence in
    let at_once = read_attempts attempts (load + 1) view in
    let again = read_attempts attempts (load + 8) view in
    if before % 2 == 1
    then at_once
    else if before == after
    then record {
      coherent = true;
      live_state = (view (load + 4)).live_state;
      last_result = (view (load + 5)).last_result;
      generation = (view (load + 1)).generation;
      connection_handle = (view (load + 2)).connection_handle;
      pairing_id = (view (load + 3)).pairing_id;
      pairing_active = has flags 0;
      input_consumed = has flags 1;
      id_exhausted = has flags 2;
    }
    else again

unfoldable pub snapshot : (ℕ → StateMachine) → Snapshot
snapshot view = read_attempts 3 0 view

-- The snapshot that a mutation takes: there is no other writer.
abbrev pub own_snapshot : StateMachine → Snapshot
own_snapshot m = snapshot (λ load. m)
