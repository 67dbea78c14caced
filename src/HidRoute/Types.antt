-- ===== src/HidRoute/Types.antt =====
-- hid_route.hpp: the enumerations, the snapshot, the members of `StateMachine`.
use s3_hidbot.Common.{ℕ, ◌+◌, ◌^◌, ◌%◌, Bool, true, false, ◌==◌}

pub data OutputRoute : Type 0 where
  no_route usb ble : OutputRoute

pub data Transition : Type 0 where
  stable releasing : Transition

-- `kDurableNone`, `kDurablePublishing`, `kDurableActive`.
pub data Durable : Type 0 where
  idle publishing active : Durable

pub data InvalidationClaimResult : Type 0 where
  claimed_exact stale pending : InvalidationClaimResult

pub record Snapshot : Type 0 where
  pub desired : OutputRoute
  pub active : OutputRoute
  pub generation : ℕ
  pub transition : Transition
  pub invalidation_pending : Bool
  pub coherent : Bool

pub record Route : Type 0 where
  pub publication_sequence : ℕ
  pub generation : ℕ
  pub desired : OutputRoute
  pub active : OutputRoute
  pub transition : Transition
  pub writer_active : Bool
  pub conditional_token : ℕ
  pub conditional_generation : ℕ
  pub next_conditional_token : ℕ
  pub durable_generation : ℕ
  pub durable_state : Durable
  pub usb_publication_state : ℕ

-- A claim knows whether it has an owner; there is one state machine.
pub record Claim : Type 0 where
  pub owned : Bool
  pub expected : Snapshot
  pub token : ℕ

-- `fetch_add(1)` on a `std::uint32_t`.
abbrev pub next : ℕ → ℕ
next n = (n + 1) % 2 ^ 32

abbrev pub no_conditional_token : ℕ
no_conditional_token = 0

abbrev pub conditional_publishing : ℕ
conditional_publishing = 4294967295

abbrev pub route_code : OutputRoute → ℕ
route_code no_route = 0
route_code usb = 1
route_code ble = 2

abbrev pub same_route : OutputRoute → OutputRoute → Bool
same_route a b = route_code a == route_code b

abbrev pub transition_code : Transition → ℕ
transition_code stable = 0
transition_code releasing = 1

abbrev pub same_transition : Transition → Transition → Bool
same_transition a b = transition_code a == transition_code b

abbrev pub is_idle : Durable → Bool
is_idle idle = true
is_idle _ = false

abbrev pub is_active : Durable → Bool
is_active active = true
is_active _ = false

unfoldable pub initialize_cold_boot : Route
initialize_cold_boot = record {
  publication_sequence = 0;
  generation = 0;
  desired = no_route;
  active = no_route;
  transition = stable;
  writer_active = false;
  conditional_token = no_conditional_token;
  conditional_generation = 0;
  next_conditional_token = 1;
  durable_generation = 0;
  durable_state = idle;
  usb_publication_state = 0;
}
