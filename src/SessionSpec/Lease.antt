-- ===== src/SessionSpec/Lease.antt =====
-- A session lives as long as its lease, and what is left of it then.
use s3_hidbot.Common.{
  ℕ, ℤ, ◌+◌, ◌^◌, ◌%◌, ◌<◌, ◌≡◌, refl, sym, ap, subst, ◌∙◌, Bool, true, false, not, ◌||◌, leb, ltb,
  List, [], ◌∷◌, none, arith, Bool-cases, inl, inr,
}
use s3_hidbot.ControlSession.{
  new_client, session_mismatch, State, clear_authority, clear_normal_cache, refresh_lease,
  service_lease, inspect_hello, inspect_request, inspect_sensitive_request,
}
use s3_hidbot.SessionSpec.Retries.{Identity, plain, sensitive, inspect}

-- The lease is served at these times, one after the other.
unfoldable pub served : List ℕ → State → State
served [] state = state
served (now ∷ times) state = served times (service_lease now state).0

-- One of the times is the deadline or a later one.
abbrev pub reaches : ℕ → List ℕ → Bool
reaches deadline [] = false
reaches deadline (now ∷ times) = leb deadline now || reaches deadline times

-- No session, no owner, and no hello to retry.
pub record IsEnded (state : State) : Type 0 where
  pub inactive : state.active_session ≡ false
  pub unowned : state.local_owner_id ≡ 0
  pub unknown : state.hello_cache.valid ≡ false

clear_authority-inactive : (state : State) → (clear_authority state).active_session ≡ false
unfolding clear_authority clear_normal_cache
clear_authority-inactive state = ground arith

clear_authority-unowned : (state : State) → (clear_authority state).local_owner_id ≡ 0
unfolding clear_authority clear_normal_cache
clear_authority-unowned state = ground arith

clear_authority-unknown : (state : State) → (clear_authority state).hello_cache.valid ≡ false
unfolding clear_authority
clear_authority-unknown state = refl

clear_authority-IsEnded : (state : State) → IsEnded (clear_authority state)
clear_authority-IsEnded state = record {
  inactive = clear_authority-inactive state;
  unowned = clear_authority-unowned state;
  unknown = clear_authority-unknown state;
}

service_waits :
    (now : ℕ) (state : State)
    → (not state.active_session || ltb now state.lease_deadline_us) ≡ true
    → (service_lease now state).0 ≡ state
unfolding service_lease
service_waits now state h = rw h refl

service_ends :
    (now : ℕ) (state : State)
    → (not state.active_session || ltb now state.lease_deadline_us) ≡ false
    → (service_lease now state).0 ≡ clear_authority state
unfolding service_lease
service_ends now state h = rw h refl

served_ended :
    (times : List ℕ) (state : State) → state.active_session ≡ false → served times state ≡ state
unfolding served
served_ended [] state e = refl
served_ended (now ∷ times) state e =
    ap (served times) (service_waits now state (ground arith)) ∙ served_ended times state e

served_early :
    (times : List ℕ) (state : State)
    → reaches state.lease_deadline_us times ≡ false
    → served times state ≡ state
unfolding served
served_early [] state h = refl
served_early (now ∷ times) state h =
    ap (served times) (service_waits now state (ground arith))
    ∙ served_early times state (ground arith)

served_late :
    (times : List ℕ) (state : State)
    → state.active_session ≡ true
    → reaches state.lease_deadline_us times ≡ true
    → IsEnded (served times state)
unfolding served
served_late [] state a h = cc h
served_late (now ∷ times) state a h = elim (Bool-cases (leb state.lease_deadline_us now)) [
  | inl e ↦
      let over = served_ended times (clear_authority state) (clear_authority-inactive state) in
      subst IsEnded (sym (ap (served times) (service_ends now state (ground arith)) ∙ over))
        (clear_authority-IsEnded state)
  | inr e ↦
      subst IsEnded (sym (ap (served times) (service_waits now state (ground arith))))
        (served_late times state a (ground arith))
]

ended-mismatch :
    (session : List ℕ) (id : ℤ) (asked : Identity) (epoch : ℕ) (state : State)
    → IsEnded state
    → inspect session id asked epoch state ≡ (session_mismatch, none)
unfolding inspect_request inspect_sensitive_request
ended-mismatch session id (plain bytes) epoch state ended = rw ended.inactive refl
ended-mismatch session id (sensitive count digest) epoch state ended = rw ended.inactive refl

ended-new_client :
    (nonce request : List ℕ) (epoch : ℕ) (state : State)
    → IsEnded state
    → inspect_hello nonce request epoch state ≡ (new_client, none)
unfolding inspect_hello
ended-new_client nonce request epoch state ended = rw ended.unknown refl

refresh_lease-deadline :
    (now : ℕ) (state : State)
    → state.active_session ≡ true
    → now + 5000000 < 2 ^ 64
    → (refresh_lease now state).0 ≡ record state { lease_deadline_us = now + 5000000 }
unfolding refresh_lease
refresh_lease-deadline now state a h =
    let whole : (now + 5000000) % 2 ^ 64 ≡ now + 5000000 = omega arith in rw (a, whole) refl

-- An active session whose lease is refreshed, where five seconds later is a 64-bit time, stays as it is
-- while the lease is served earlier than that. Once it is served at that time or later, however often
-- it was served before and is after, the session has no owner, every request is a session mismatch, and
-- every hello is from a new client.
pub lease_ends :
    (start : ℕ) (times : List ℕ) (state : State)
    → state.active_session ≡ true
    → start + 5000000 < 2 ^ 64
    → let leased = (refresh_lease start state).0 in
      let after = served times leased in
      (reaches (start + 5000000) times ≡ false → after ≡ leased)
      × (reaches (start + 5000000) times ≡ true
          → (after.local_owner_id ≡ 0)
            × ((session : List ℕ) (id : ℤ) (asked : Identity) (epoch : ℕ)
                → inspect session id asked epoch after ≡ (session_mismatch, none))
            × ((nonce request : List ℕ) (epoch : ℕ)
                → inspect_hello nonce request epoch after ≡ (new_client, none)))
lease_ends start times state a h =
    let leased = refresh_lease-deadline start state a h in
    let later = record state { lease_deadline_us = start + 5000000 } in
    (
      λ r. rw leased (served_early times later r),
      λ r.
          let ended =
            subst (λ (s : State). IsEnded (served times s)) (sym leased)
              (served_late times later a r) in
          let after = served times (refresh_lease start state).0 in
          (
            ended.unowned,
            λ session id asked epoch. ended-mismatch session id asked epoch after ended,
            λ nonce request epoch. ended-new_client nonce request epoch after ended,
          ),
    )
