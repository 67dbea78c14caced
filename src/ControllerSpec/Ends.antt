-- ===== src/ControllerSpec/Ends.antt =====
-- Who ends a sequence, and who releases what it pressed.
use s3_hidbot.Common.{
  ℕ, ◌≡◌, ◌≢◌, refl, ◌∙◌, Bool, true, false, not, ◌&&◌, ◌||◌, ◌==◌, List, [], ◌∷◌, arith, if_holds,
}
use s3_hidbot.HidSequence.{
  State, accepted, TerminalCode, nothing_failed, encode_status, decode_state, decode_release_owned,
  is_live, is_running, is_completed, is_aborted, Controller, BackendCall, ends_sequence,
  requests_safety_release, Outside, aborts, aborts_for_release, retires, outside, abort_generation,
  abort, abort_for_release, retire_owner, tell, claim_terminal, publish_running_progress, take_up,
  clean_up, leave_untaken, run_end, owner_low, owner_high,
}
use s3_hidbot.ControllerSpec.Word.{encode_status-Reads}

-- What other tasks and the run do to a sequence that was started.
pub data Event : Type 0 where
  calls : Outside → Event
  takes_up : ℕ → Event
  progresses : (generation executed : ℕ) → Event
  claims : (generation : ℕ) (state : State) (executed token : ℕ) (code : TerminalCode) → Event

unfoldable pub handle : Event → Controller → Controller
handle (calls call) c = outside call c
handle (takes_up generation) c = (take_up generation c).0
handle (progresses generation executed) c = (publish_running_progress generation executed c).0
handle (claims generation state executed token code) c =
    (claim_terminal generation state executed token code c).0

unfoldable pub handle_all : List Event → Controller → Controller
handle_all [] c = c
handle_all (event ∷ events) c = handle_all events (handle event c)

-- The word of a sequence that neither waits nor runs.
abbrev pub IsOver : Controller → Type 0
IsOver c = is_live (decode_state c.status_word) ≡ false

abort_generation-over :
    (generation : ℕ) (c : Controller)
    → IsOver c
    → (abort_generation generation c).status_word ≡ c.status_word
unfolding abort_generation
abort_generation-over generation c over =
    if_holds (λ (x : Controller). x.status_word ≡ c.status_word)
      (generation == 0 || not (c.reserved_generation == generation)) _ _ (λ e. refl)
      (λ e. rw over (
        if_holds (λ w. w ≡ c.status_word) (c.status_generation == generation && false) _ _
          (λ f. ground arith) (λ f. refl)))

abort-over : (c : Controller) → IsOver c → (abort c).status_word ≡ c.status_word
unfolding abort
abort-over c over =
    if_holds (λ (x : Controller). x.status_word ≡ c.status_word) (c.reserved_generation == 0) _ _
      (λ e. refl) (λ e. abort_generation-over c.reserved_generation c over)

abort_for_release-over :
    (c : Controller) → IsOver c → (abort_for_release c).0.status_word ≡ c.status_word
unfolding abort_for_release
abort_for_release-over c over =
    let Kept : Controller × Bool → Type 0 = λ r. r.0.status_word ≡ c.status_word in
    if_holds Kept (c.reserved_generation == 0) _ _ (λ e. refl)
      (λ e.
        if_holds Kept (not (c.status_generation == c.reserved_generation)) _ _ (λ e. refl)
          (λ e. rw over refl))

retire_owner-over :
    (owner : ℕ) (c : Controller) → IsOver c → (retire_owner owner c).status_word ≡ c.status_word
unfolding retire_owner
retire_owner-over owner c over =
    if_holds (λ (x : Controller). x.status_word ≡ c.status_word) (owner == 0) _ _ (λ e. refl)
      (λ e.
        if_holds (λ (x : Controller). x.status_word ≡ c.status_word)
          (c.status_generation == 0
            || not (c.status_owner_low == owner_low owner)
            || not (c.status_owner_high == owner_high owner))
          _ _ (λ e. refl)
          (λ e.
            abort_generation-over c.status_generation (record c { status_generation = 0 }) over))

over_idle : (c : Controller) → IsOver c → is_running (decode_state c.status_word) ≡ false
over_idle c over = ground arith

pub accepted_live :
    (status : ℕ)
    → (status == encode_status accepted 0 false 0 nothing_failed false) ≡ true
    → is_live (decode_state status) ≡ true
accepted_live status e =
    let same : status ≡ encode_status accepted 0 false 0 nothing_failed false = ground arith in
    rw (same, (encode_status-Reads accepted 0 0 false false nothing_failed).state_read) refl

take_up-over :
    (generation : ℕ) (c : Controller)
    → IsOver c
    → (take_up generation c).0.status_word ≡ c.status_word
unfolding take_up
take_up-over generation c over =
    let Kept : Controller × Bool → Type 0 = λ r. r.0.status_word ≡ c.status_word in
    if_holds Kept (not (c.status_generation == generation)) _ _ (λ e. refl)
      (λ e.
        if_holds Kept (not (c.status_word == encode_status accepted 0 false 0 nothing_failed false))
          _ _ (λ e. refl) (λ e. cc (over, accepted_live c.status_word (ground arith))))

progress-over :
    (generation executed : ℕ) (c : Controller)
    → IsOver c
    → (publish_running_progress generation executed c).0.status_word ≡ c.status_word
unfolding publish_running_progress
progress-over generation executed c over = rw (over_idle c over) (ground arith)

claim-over :
    (generation executed token : ℕ) (state : State) (code : TerminalCode) (c : Controller)
    → IsOver c
    → (claim_terminal generation state executed token code c).0.status_word ≡ c.status_word
unfolding claim_terminal
claim-over generation executed token state code c over = rw (over_idle c over) (ground arith)

pub handle-over :
    (event : Event) (c : Controller) → IsOver c → (handle event c).status_word ≡ c.status_word
unfolding handle
handle-over (calls aborts) c over = abort-over c over
handle-over (calls aborts_for_release) c over = abort_for_release-over c over
handle-over (calls (retires owner)) c over = retire_owner-over owner c over
handle-over (takes_up generation) c over = take_up-over generation c over
handle-over (progresses generation executed) c over = progress-over generation executed c over
handle-over (claims generation state executed token code) c over =
    claim-over generation executed token state code c over

pub handle_all-over :
    (events : List Event) (c : Controller)
    → IsOver c
    → (handle_all events c).status_word ≡ c.status_word
unfolding handle_all
handle_all-over [] c over = refl
handle_all-over (event ∷ events) c over =
    let kept = handle-over event c over in
    handle_all-over events (handle event c) (rw kept over) ∙ kept

-- A run's end asks for the safety release.
abbrev pub Releases : Bool → ℕ → Controller → Type 0
Releases taken generation c =
    (run_end taken generation c).backend
    ≡ ends_sequence c.authority ∷ requests_safety_release ∷ c.backend

-- A run's end asks for nothing.
abbrev pub LeavesRelease : Bool → ℕ → Controller → Type 0
LeavesRelease taken generation c =
    (run_end taken generation c).backend ≡ ends_sequence c.authority ∷ c.backend

pub clean_up-Releases :
    (generation : ℕ) (c : Controller)
    → is_completed (decode_state c.status_word) ≡ false
    → decode_release_owned c.status_word ≡ false
    → Releases true generation c
unfolding clean_up
clean_up-Releases generation c s r = rw (s, r) refl

impossible : (a b : Bool) → (a || b) ≡ true → (not a && not b) ≡ true → ⊥
impossible a b h k = ground arith

-- The backend's calls at the end of a reservation.
abbrev ended_calls : Controller → List BackendCall
ended_calls x = (record (tell (ends_sequence x.authority) x) { reserved_generation = 0 }).backend

clean_up-LeavesRelease :
    (generation : ℕ) (c : Controller)
    → (is_completed (decode_state c.status_word) || decode_release_owned c.status_word) ≡ true
    → LeavesRelease true generation c
unfolding clean_up
clean_up-LeavesRelease generation c h =
    if_holds (λ (x : Controller). ended_calls x ≡ ends_sequence c.authority ∷ c.backend)
      (not (is_completed (decode_state c.status_word)) && not (decode_release_owned c.status_word))
      _ _ (λ e. absurd (impossible _ _ h e)) (λ e. refl)

pub leave_untaken-Releases :
    (generation : ℕ) (c : Controller)
    → c.status_generation ≡ generation
    → is_aborted (decode_state c.status_word) ≡ true
    → decode_release_owned c.status_word ≡ false
    → Releases false generation c
unfolding leave_untaken
leave_untaken-Releases generation c g a r =
    let same : (c.status_generation == generation) ≡ true = ground (arith, g) in
    rw (same, a, r) refl

pub leave_untaken-withdrawn :
    (generation : ℕ) (c : Controller)
    → c.status_generation ≢ generation
    → LeavesRelease false generation c
unfolding leave_untaken
leave_untaken-withdrawn generation c n =
    let other : (c.status_generation == generation) ≡ false = ground (arith, n) in rw other refl

completed_or_owned :
    (state : State) (force owned : Bool)
    → (is_completed state || owned) ≡ true
    → (force && is_aborted state && not owned) ≡ true
    → ⊥
completed_or_owned state force owned h k = ground arith

-- Whichever way a run ends, it leaves the release of a word that is completed or owned.
pub run_end-LeavesRelease :
    (taken : Bool) (generation : ℕ) (c : Controller)
    → (is_completed (decode_state c.status_word) || decode_release_owned c.status_word) ≡ true
    → LeavesRelease taken generation c
unfolding leave_untaken
run_end-LeavesRelease true generation c h = clean_up-LeavesRelease generation c h
run_end-LeavesRelease false generation c h =
    if_holds (λ (x : Controller). ended_calls x ≡ ends_sequence c.authority ∷ c.backend)
      (c.status_generation == generation
        && is_aborted (decode_state c.status_word)
        && not (decode_release_owned c.status_word))
      _ _ (λ e. absurd (completed_or_owned (decode_state c.status_word) _ _ h e)) (λ e. refl)
