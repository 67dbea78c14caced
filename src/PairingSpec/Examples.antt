-- ===== src/PairingSpec/Examples.antt =====
-- The pairing's theorems applied to one exchange, and to a snapshot between two stores.
use s3_hidbot.Common.{
  ℕ, ◌^◌, ◌≤◌, ◌≡◌, refl, true, false, leb, List, [], ◌∷◌, arith, IsRising, take, ◌==◌,
  if◌then◌else◌,
}
use s3_hidbot.BlePairing.{
  idle, securing, succeeded, none_recorded, started, response_accepted, stale_pairing_id,
  not_pending, Publication, built, publication, publish, store, store_all, read_attempts, snapshot,
  own_snapshot, begin_connection, begin_passkey_input, validate_response, consume_response,
  complete, disconnect,
}
use s3_hidbot.PairingSpec.Torn.{after, IsWhole, coherent-IsWhole}
use s3_hidbot.PairingSpec.Responses.{
  Call, begins, asks, consumes, disconnects, apply, consumed, consumed_all, answered_once,
}
use s3_hidbot.PairingSpec.Exchange.{exchange_completes}

-- The second response to id 1 is refused; the next pairing has id 2.
abbrev calls : List Call
calls =
    begins 3 7
    ∷ asks 3 7
    ∷ consumes 3 7 1
    ∷ consumes 3 7 1
    ∷ disconnects 3 7
    ∷ begins 4 8
    ∷ asks 4 8
    ∷ consumes 4 8 1
    ∷ consumes 4 8 2
    ∷ []

two_consumed : consumed_all calls built ≡ 1 ∷ 2 ∷ []
unfolding consumed_all consumed apply begin_connection begin_passkey_input validate_response
    consume_response disconnect publish store_all store snapshot read_attempts
two_consumed = refl

answered_once_example : IsRising (2 ^ 32) 1 (consumed_all calls built)
answered_once_example = answered_once calls

built_unexhausted : (own_snapshot built).id_exhausted ≡ false
unfolding snapshot read_attempts
built_unexhausted = refl

exchange_completes_example :
    let (waiting, answer) = begin_passkey_input 3 7 (begin_connection 3 7 built) in
    let id = (own_snapshot waiting).pairing_id in
    let responded = consume_response 3 7 id waiting in
    let (ended, completed) = complete 3 7 succeeded responded in
    (answer ≡ started)
    × (id ≡ 1)
    × ((other : ℕ)
        → validate_response 3 7 other waiting
          ≡ (if id == other then response_accepted else stale_pairing_id))
    × ((other : ℕ) → validate_response 3 7 other responded ≡ not_pending)
    × (completed ≡ true)
    × ((own_snapshot ended).live_state ≡ idle)
    × ((own_snapshot ended).last_result ≡ succeeded)
exchange_completes_example =
    exchange_completes 3 7 succeeded built refl built_unexhausted (omega arith)

abbrev first : Publication
first = publication securing none_recorded 3 7 0 false false false

-- The first attempt's last load is in the publication, the second attempt's loads are behind it.
unfoldable done : ℕ → ℕ
done load = if leb load 6 then 0 else 8

done-ordered : (i j : ℕ) → i ≤ j → done i ≤ done j
unfolding done
done-ordered i j h = ground arith

done-within : (i : ℕ) → done i ≤ 8
unfolding done
done-within i = ground arith

second_attempt : (snapshot (λ i. after (done i) (first ∷ []) built)).coherent ≡ true
unfolding done snapshot read_attempts store_all store take
second_attempt = refl

coherent-IsWhole_example :
    IsWhole (first ∷ []) built done 0 (snapshot (λ i. after (done i) (first ∷ []) built))
coherent-IsWhole_example =
    coherent-IsWhole (first ∷ []) built done refl (omega arith) (omega arith) done-ordered
      done-within second_attempt
