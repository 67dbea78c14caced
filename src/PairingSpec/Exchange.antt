-- ===== src/PairingSpec/Exchange.antt =====
-- A passkey exchange from the connection to its end.
use s3_hidbot.Common.{
  ℕ, ◌+◌, ◌-◌, ◌^◌, ◌%◌, ◌≤◌, ◌≡◌, refl, ◌∙◌, Bool, true, false, ◌==◌, arith, if◌then◌else◌,
}
use s3_hidbot.BlePairing.{
  idle, securing, waiting_input, LastResult, none_recorded, started, response_accepted, not_pending,
  stale_pairing_id, Publication, StateMachine, publication, publish, own_snapshot, store, store_all,
  begin_connection, begin_passkey_input, validate_response, consume_response, complete,
}
use s3_hidbot.PairingSpec.Shown.{shown, publish-even, snapshot-publish}

==_refl : (n : ℕ) → (n == n) ≡ true
==_refl n = ground arith

module _ (generation connection : ℕ) where
  -- A connection that waits for the response to this id.
  abbrev asked : ℕ → Bool → Publication
  asked id exhausted =
      publication waiting_input none_recorded generation connection id true false exhausted

  -- The same one after the response.
  abbrev answered : Bool → Publication
  answered exhausted =
      publication securing none_recorded generation connection 0 true true exhausted

  -- A connection that is being secured.
  abbrev joined : LastResult → Publication
  joined last_result = publication securing last_result generation connection 0 false false false

  started_asks :
      (m : StateMachine) (last_result : LastResult)
      → own_snapshot m ≡ shown (joined last_result)
      → 1 ≤ m.next_pairing_id
      → begin_passkey_input generation connection m ≡ (
        publish (asked m.next_pairing_id (m.next_pairing_id == 2 ^ 32 - 1)) (record m {
          next_pairing_id = if m.next_pairing_id == 2 ^ 32 - 1 then 0 else m.next_pairing_id + 1;
        }),
        started,
      )
  unfolding begin_passkey_input
  started_asks m last_result s l =
      let none_left : (m.next_pairing_id == 0) ≡ false = ground arith in
      rw (s, ==_refl generation, ==_refl connection, none_left) refl

  asked_validates :
      (m : StateMachine) (id other : ℕ) (exhausted : Bool)
      → own_snapshot m ≡ shown (asked id exhausted)
      → 1 ≤ id
      → validate_response generation connection other m
        ≡ (if id == other then response_accepted else stale_pairing_id)
  unfolding validate_response
  asked_validates m id other exhausted s l =
      let pending : (id == 0) ≡ false = ground arith in
      rw (s, ==_refl generation, ==_refl connection, pending) refl

  answered_validates :
      (m : StateMachine) (other : ℕ) (exhausted : Bool)
      → own_snapshot m ≡ shown (answered exhausted)
      → validate_response generation connection other m ≡ not_pending
  unfolding validate_response
  answered_validates m other exhausted s = rw (s, ==_refl generation, ==_refl connection) refl

  asked_answers :
      (m : StateMachine) (id : ℕ) (exhausted : Bool)
      → own_snapshot m ≡ shown (asked id exhausted)
      → 1 ≤ id
      → consume_response generation connection id m ≡ publish (answered exhausted) m
  unfolding consume_response
  asked_answers m id exhausted s l = rw (asked_validates m id id exhausted s l, ==_refl id, s) refl

  answered_completes :
      (m : StateMachine) (result : LastResult) (exhausted : Bool)
      → own_snapshot m ≡ shown (answered exhausted)
      → complete generation connection result m
        ≡ (publish (publication idle result generation connection 0 false false exhausted) m, true)
  unfolding complete
  answered_completes m result exhausted s = rw (s, ==_refl generation, ==_refl connection) refl

  begun :
      (m : StateMachine)
      → m.sequence % 2 ≡ 0
      → (own_snapshot m).id_exhausted ≡ false
      → own_snapshot (begin_connection generation connection m)
        ≡ shown (joined (own_snapshot m).last_result)
  unfolding begin_connection
  begun m e x = snapshot-publish _ m e ∙ rw x refl

  begun-next :
      (m : StateMachine)
      → (begin_connection generation connection m).next_pairing_id ≡ m.next_pairing_id
  unfolding begin_connection publish store_all store
  begun-next m = refl

  begun-even :
      (m : StateMachine)
      → m.sequence % 2 ≡ 0
      → (begin_connection generation connection m).sequence % 2 ≡ 0
  unfolding begin_connection
  begun-even m e = publish-even _ m e

  -- From the waiting connection on.
  waiting_completes :
      (result : LastResult) (before : StateMachine) (id : ℕ) (exhausted : Bool)
      → before.sequence % 2 ≡ 0
      → 1 ≤ id
      → let waiting = publish (asked id exhausted) before in
        let responded = consume_response generation connection id waiting in
        let (ended, completed) = complete generation connection result responded in
        ((own_snapshot waiting).pairing_id ≡ id)
        × ((other : ℕ)
            → validate_response generation connection other waiting
              ≡ (if id == other then response_accepted else stale_pairing_id))
        × ((other : ℕ) → validate_response generation connection other responded ≡ not_pending)
        × (completed ≡ true)
        × ((own_snapshot ended).live_state ≡ idle)
        × ((own_snapshot ended).last_result ≡ result)
  waiting_completes result before id exhausted e l =
      let waiting = publish (asked id exhausted) before in
      let responded = publish (answered exhausted) waiting in
      let ended = publication idle result generation connection 0 false false exhausted in
      let shows = snapshot-publish (asked id exhausted) before e in
      let even = publish-even (asked id exhausted) before e in
      let answers = asked_answers waiting id exhausted shows l in
      let shows' = snapshot-publish (answered exhausted) waiting even in
      let over = answered_completes responded result exhausted shows' in
      let shows'' =
        snapshot-publish ended responded (publish-even (answered exhausted) waiting even) in
      (
        rw shows refl,
        λ other. asked_validates waiting id other exhausted shows l,
        λ other. rw answers (answered_validates responded other exhausted shows'),
        rw (answers, over) refl,
        rw (answers, over, shows'') refl,
        rw (answers, over, shows'') refl,
      )

-- A passkey exchange that nothing disturbs, where the state machine has ids left and no publication is
-- under way: after the connection begins, the request for input is started with the next id; the
-- response to this id is accepted, and one to another id is for a stale pairing; once it is consumed,
-- no response is pending; and the completion ends the pairing with its result.
pub exchange_completes :
    (generation connection : ℕ) (result : LastResult) (m : StateMachine)
    → m.sequence % 2 ≡ 0
    → (own_snapshot m).id_exhausted ≡ false
    → 1 ≤ m.next_pairing_id
    → let (waiting, answer) =
        begin_passkey_input generation connection (begin_connection generation connection m) in
      let id = (own_snapshot waiting).pairing_id in
      let responded = consume_response generation connection id waiting in
      let (ended, completed) = complete generation connection result responded in
      (answer ≡ started)
      × (id ≡ m.next_pairing_id)
      × ((other : ℕ)
          → validate_response generation connection other waiting
            ≡ (if id == other then response_accepted else stale_pairing_id))
      × ((other : ℕ) → validate_response generation connection other responded ≡ not_pending)
      × (completed ≡ true)
      × ((own_snapshot ended).live_state ≡ idle)
      × ((own_snapshot ended).last_result ≡ result)
exchange_completes generation connection result m e x l =
    let joined_m = begin_connection generation connection m in
    let next = begun-next generation connection m in
    let asks =
      started_asks generation connection joined_m (own_snapshot m).last_result
        (begun generation connection m e x) (rw next l) in
    let id = joined_m.next_pairing_id in
    let exhausted = id == 2 ^ 32 - 1 in
    let before = record joined_m { next_pairing_id = if exhausted then 0 else id + 1 } in
    let (i, v, r, c, s, t) =
      waiting_completes generation connection result before id exhausted
        (begun-even generation connection m e) (rw next l) in
    rw (asks, i) (refl, next, v, r, c, s, t)
