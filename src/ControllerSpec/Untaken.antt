-- ===== src/ControllerSpec/Untaken.antt =====
-- A sequence that its run has not taken up is accepted or aborted, and one that is over is never taken up.
use s3_hidbot.Common.{
  ℕ, ◌≡◌, refl, Bool, true, false, not, ◌||◌, ◌==◌, List, [], ◌∷◌, arith, if_holds,
}
use s3_hidbot.HidSequence.{
  State, accepted, aborted, TerminalCode, nothing_failed, sequence_aborted, encode_status,
  decode_state, decode_executed, is_live, is_running, is_aborted, aborted_word, Controller,
  claim_terminal, publish_running_progress, take_up,
}
use s3_hidbot.ControllerSpec.Word.{encode_status-Reads}
use s3_hidbot.ControllerSpec.Ends.{
  Event, calls, takes_up, progresses, claims, handle, handle_all, IsOver, handle-over,
  accepted_live,
}
use s3_hidbot.ControllerSpec.Aborted.{outside-keeps}

-- The event is a run's exchange that takes up the sequence.
unfoldable pub took_by : Event → Controller → Bool
took_by (takes_up generation) c = (take_up generation c).1
took_by _ c = false

unfoldable pub took : List Event → Controller → Bool
took [] c = false
took (event ∷ events) c = took_by event c || took events (handle event c)

abbrev accepted_or_aborted : State → Bool
accepted_or_aborted accepted = true
accepted_or_aborted aborted = true
accepted_or_aborted _ = false

abbrev pub IsUntaken : ℕ → Type 0
IsUntaken status = accepted_or_aborted (decode_state status) ≡ true

pub accepted-IsUntaken : IsUntaken (encode_status accepted 0 false 0 nothing_failed false)
accepted-IsUntaken =
    rw (encode_status-Reads accepted 0 0 false false nothing_failed).state_read refl

pub aborted_word-IsUntaken : (status : ℕ) (release : Bool) → IsUntaken (aborted_word status release)
aborted_word-IsUntaken status release =
    let executed = decode_executed status in
    rw (encode_status-Reads aborted executed executed true release sequence_aborted).state_read refl

untaken_idle : (state : State) → accepted_or_aborted state ≡ true → is_running state ≡ false
untaken_idle state u = ground arith

pub untaken_over :
    (state : State)
    → accepted_or_aborted state ≡ true
    → is_live state ≡ false
    → is_aborted state ≡ true
untaken_over state u o = ground arith

progress-idle :
    (generation executed : ℕ) (c : Controller)
    → is_running (decode_state c.status_word) ≡ false
    → (publish_running_progress generation executed c).0.status_word ≡ c.status_word
unfolding publish_running_progress
progress-idle generation executed c e = rw e (ground arith)

claim-idle :
    (generation executed token : ℕ) (state : State) (code : TerminalCode) (c : Controller)
    → is_running (decode_state c.status_word) ≡ false
    → (claim_terminal generation state executed token code c).0.status_word ≡ c.status_word
unfolding claim_terminal
claim-idle generation executed token state code c e = rw e (ground arith)

take_up-refused :
    (generation : ℕ) (c : Controller)
    → (take_up generation c).1 ≡ false
    → (take_up generation c).0.status_word ≡ c.status_word
unfolding take_up
take_up-refused generation c =
    let Told : Controller × Bool → Type 0 = λ r. r.1 ≡ false → r.0.status_word ≡ c.status_word in
    if_holds Told (not (c.status_generation == generation)) _ _ (λ e h. refl)
      (λ e.
        if_holds Told (not (c.status_word == encode_status accepted 0 false 0 nothing_failed false))
          _ _ (λ e h. refl) (λ e h. cc h))

take_up-over_refused :
    (generation : ℕ) (c : Controller) → IsOver c → (take_up generation c).1 ≡ false
unfolding take_up
take_up-over_refused generation c over =
    let Refused : Controller × Bool → Type 0 = λ r. r.1 ≡ false in
    if_holds Refused (not (c.status_generation == generation)) _ _ (λ e. refl)
      (λ e.
        if_holds Refused
          (not (c.status_word == encode_status accepted 0 false 0 nothing_failed false)) _ _
          (λ e. refl) (λ e. cc (over, accepted_live c.status_word (ground arith))))

took_by-over : (event : Event) (c : Controller) → IsOver c → took_by event c ≡ false
unfolding took_by
took_by-over (calls call) c over = refl
took_by-over (takes_up generation) c over = take_up-over_refused generation c over
took_by-over (progresses generation executed) c over = refl
took_by-over (claims generation state executed token code) c over = refl

pub took-over : (events : List Event) (c : Controller) → IsOver c → took events c ≡ false
unfolding took
took-over [] c over = refl
took-over (event ∷ events) c over =
    let later = took-over events (handle event c) (rw (handle-over event c over) over) in
    rw (took_by-over event c over, later) refl

handle-IsUntaken :
    (event : Event) (c : Controller)
    → took_by event c ≡ false
    → IsUntaken c.status_word
    → IsUntaken (handle event c).status_word
unfolding handle took_by
handle-IsUntaken (calls call) c t u = outside-keeps IsUntaken aborted_word-IsUntaken call c u
handle-IsUntaken (takes_up generation) c t u = rw (take_up-refused generation c t) u
handle-IsUntaken (progresses generation executed) c t u =
    rw (progress-idle generation executed c (untaken_idle (decode_state c.status_word) u)) u
handle-IsUntaken (claims generation state executed token code) c t u =
    rw
      (claim-idle generation executed token state code c
        (untaken_idle (decode_state c.status_word) u))
      u

neither : (a b : Bool) → (a || b) ≡ false → (a ≡ false) × (b ≡ false)
neither a b h = ground arith

pub handle_all-IsUntaken :
    (events : List Event) (c : Controller)
    → took events c ≡ false
    → IsUntaken c.status_word
    → IsUntaken (handle_all events c).status_word
unfolding handle_all took
handle_all-IsUntaken [] c t u = u
handle_all-IsUntaken (event ∷ events) c t u =
    let (now, later) = neither (took_by event c) (took events (handle event c)) t in
    handle_all-IsUntaken events (handle event c) later (handle-IsUntaken event c now u)
