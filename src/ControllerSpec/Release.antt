-- ===== src/ControllerSpec/Release.antt =====
-- The safety release of a sequence that did not complete has one owner.
use s3_hidbot.Common.{
  ℕ, ◌≡◌, ◌≢◌, refl, sym, ◌∙◌, Bool, true, false, not, ◌&&◌, ◌||◌, ◌==◌, List, [], ◌∷◌, arith,
  if_holds,
}
use s3_hidbot.HidSequence.{
  State, accepted, running, aborted, TerminalCode, nothing_failed, sequence_aborted, encode_status,
  decode_state, decode_executed, decode_release_owned, is_live, is_running, is_completed,
  is_aborted, is_failure, terminal_state, Controller, revokes_sequence, tell, aborted_word,
  aborts_for_release, abort_for_release, claim_terminal, publish_running_progress, take_up,
}
use s3_hidbot.ControllerSpec.Word.{encode_status-Reads}
use s3_hidbot.ControllerSpec.Ends.{
  Event, calls, takes_up, progresses, claims, handle, handle_all, IsOver, handle_all-over, Releases,
  LeavesRelease, clean_up-Releases, run_end-LeavesRelease, leave_untaken-Releases,
  leave_untaken-withdrawn,
}
use s3_hidbot.ControllerSpec.Aborted.{outside-keeps}
use s3_hidbot.ControllerSpec.Untaken.{
  took, IsUntaken, accepted-IsUntaken, aborted_word-IsUntaken, untaken_over, took-over,
  handle_all-IsUntaken,
}

-- Only an aborted word says that its release is owned.
abbrev IsMarked : ℕ → Type 0
IsMarked status = (decode_release_owned status && not (is_aborted (decode_state status))) ≡ false

abbrev Kept : Controller → Type 0
Kept c = IsMarked c.status_word

abbrev KeptWith : Controller × Bool → Type 0
KeptWith r = Kept r.0

encode-IsMarked :
    (state : State) (executed token : ℕ) (present : Bool) (code : TerminalCode)
    → IsMarked (encode_status state executed present token code false)
encode-IsMarked state executed token present code =
    rw (encode_status-Reads state executed token present false code).release_read refl

aborted_word-IsMarked : (status : ℕ) (release : Bool) → IsMarked (aborted_word status release)
aborted_word-IsMarked status release =
    let read =
      encode_status-Reads aborted (decode_executed status) (decode_executed status) true release
        sequence_aborted in
    rw (read.state_read, read.release_read) (ground arith)

take_up-Kept : (generation : ℕ) (c : Controller) → Kept c → Kept (take_up generation c).0
unfolding take_up
take_up-Kept generation c k =
    if_holds KeptWith (not (c.status_generation == generation)) _ _ (λ e. k)
      (λ e.
        if_holds KeptWith
          (not (c.status_word == encode_status accepted 0 false 0 nothing_failed false)) _ _
          (λ e. k) (λ e. encode-IsMarked running 0 0 false nothing_failed))

progress-Kept :
    (generation executed : ℕ) (c : Controller)
    → Kept c
    → Kept (publish_running_progress generation executed c).0
unfolding publish_running_progress
progress-Kept generation executed c k =
    if_holds KeptWith (not (c.status_generation == generation)) _ _ (λ e. k)
      (λ e.
        if_holds KeptWith (not (is_running (decode_state c.status_word))) _ _ (λ e. k)
          (λ e. encode-IsMarked running executed 0 false nothing_failed))

claim-Kept :
    (generation executed token : ℕ) (state : State) (code : TerminalCode) (c : Controller)
    → Kept c
    → Kept (claim_terminal generation state executed token code c).0
unfolding claim_terminal
claim-Kept generation executed token state code c k =
    if_holds KeptWith (not (c.status_generation == generation) || not (terminal_state state)) _ _
      (λ e. k)
      (λ e.
        if_holds KeptWith (not (is_running (decode_state c.status_word))) _ _ (λ e. k)
          (λ e. encode-IsMarked state executed token (is_failure state) code))

handle-Kept : (event : Event) (c : Controller) → Kept c → Kept (handle event c)
unfolding handle
handle-Kept (calls call) c k = outside-keeps IsMarked aborted_word-IsMarked call c k
handle-Kept (takes_up generation) c k = take_up-Kept generation c k
handle-Kept (progresses generation executed) c k = progress-Kept generation executed c k
handle-Kept (claims generation state executed token code) c k =
    claim-Kept generation executed token state code c k

handle_all-Kept : (events : List Event) (c : Controller) → Kept c → Kept (handle_all events c)
unfolding handle_all
handle_all-Kept [] c k = k
handle_all-Kept (event ∷ events) c k =
    handle_all-Kept events (handle event c) (handle-Kept event c k)

-- What an abort for release leaves, where a sequence is reserved: it is over, and the answer says
-- whether its clean-up has nothing to release.
record IsDecided (c : Controller) (r : Controller × Bool) : Type 0 where
  over : IsOver r.0
  owned :
      r.1 ≡ true
      → (is_completed (decode_state r.0.status_word) || decode_release_owned r.0.status_word) ≡ true
  left :
      r.1 ≡ false
      → (is_completed (decode_state r.0.status_word) ≡ false)
        × (decode_release_owned r.0.status_word ≡ false)

or_false : (b : Bool) → (b || false) ≡ b
or_false b = ground arith

not_both : (b : Bool) → not b ≡ true → b ≡ true → ⊥
not_both b h k = ground arith

owned_either : (a b r : Bool) → (a || b && r) ≡ true → (a || r) ≡ true
owned_either a b r h = ground arith

left_neither :
    (a b r : Bool) → (r && not b) ≡ false → (a || b && r) ≡ false → (a ≡ false) × (r ≡ false)
left_neither a b r k h = ground arith

aborted_word-IsDecided :
    (c : Controller)
    → IsDecided c (
      tell revokes_sequence (record c {
        canceled_generation = c.reserved_generation;
        status_word = aborted_word c.status_word true;
        cancel_requested = true;
      }),
      true,
    )
aborted_word-IsDecided c =
    let executed = decode_executed c.status_word in
    let read = encode_status-Reads aborted executed executed true true sequence_aborted in
    record {
      over = rw read.state_read refl;
      owned = λ h. rw (read.state_read, read.release_read) refl;
      left = λ h. cc h;
    }

abort_for_release-IsDecided :
    (c : Controller)
    → c.reserved_generation ≢ 0
    → c.status_generation ≡ c.reserved_generation
    → Kept c
    → IsDecided c (abort_for_release c)
unfolding abort_for_release
abort_for_release-IsDecided c n g k =
    if_holds (IsDecided c) (c.reserved_generation == 0) _ _ (λ e. absurd (n (ground arith)))
      (λ e.
        if_holds (IsDecided c) (not (c.status_generation == c.reserved_generation)) _ _
          (λ e. absurd (not_both _ e (ground (arith, g))))
          (λ e.
            if_holds (IsDecided c) (is_live (decode_state c.status_word)) _ _
              (λ e. aborted_word-IsDecided c)
              (λ e. record {
                over = e;
                owned = λ h.
                    owned_either (is_completed (decode_state c.status_word))
                      (is_aborted (decode_state c.status_word)) (decode_release_owned c.status_word)
                      h;
                left = λ h.
                    left_neither (is_completed (decode_state c.status_word))
                      (is_aborted (decode_state c.status_word)) (decode_release_owned c.status_word)
                      k h;
              })))

-- How a run ends a sequence that is over, left to it, and whose word reads so.
left_to_run :
    (generation : ℕ) (before after : List Event) (accepted_at : Controller)
    → accepted_at.status_word ≡ encode_status accepted 0 false 0 nothing_failed false
    → let c = handle_all before accepted_at in
      let next = (abort_for_release c).0 in
      let last = handle_all after next in
      IsOver next
      → (is_completed (decode_state next.status_word) ≡ false)
        × (decode_release_owned next.status_word ≡ false)
      → let taken = took before accepted_at in
        (taken ≡ true → Releases taken generation last)
        × (taken ≡ false → last.status_generation ≡ generation → Releases taken generation last)
        × (taken ≡ false
            → last.status_generation ≢ generation
            → LeavesRelease taken generation last)
left_to_run generation before after accepted_at w over (s, r) =
    let c = handle_all before accepted_at in
    let next = (abort_for_release c).0 in
    let last = handle_all after next in
    let same = handle_all-over after next over in
    (
      λ t. rw t (clean_up-Releases generation last (rw same s) (rw same r)),
      λ t g.
          let untaken = handle_all-IsUntaken before accepted_at t (rw w accepted-IsUntaken) in
          let kept = outside-keeps IsUntaken aborted_word-IsUntaken aborts_for_release c untaken in
          let ended = untaken_over (decode_state next.status_word) kept over in
          rw t (leave_untaken-Releases generation last g (rw same ended) (rw same r)),
      λ t n. rw t (leave_untaken-withdrawn generation last n),
    )

-- A sequence is published as accepted. Then other tasks, and the run, up to its end, do anything to it, in
-- any order. An abort for release among this, which finds the sequence reserved and its record in force,
-- decides who releases what the sequence pressed. When it answers true, the end of the run asks for no
-- safety release, whether or not the run has taken the sequence up. When it answers false, a run that has
-- taken the sequence up asks for it at its end; a run that has not, and so has pressed nothing, asks for it
-- exactly when the sequence's record is still in force, and leaves it when the record was withdrawn.
pub release_owned_once :
    (before after : List Event) (generation : ℕ) (accepted_at : Controller)
    → accepted_at.status_word ≡ encode_status accepted 0 false 0 nothing_failed false
    → generation ≢ 0
    → (handle_all before accepted_at).reserved_generation ≡ generation
    → (handle_all before accepted_at).status_generation ≡ generation
    → let (next, owned) = abort_for_release (handle_all before accepted_at) in
      let last = handle_all after next in
      let taken = took before accepted_at || took after next in
      (owned ≡ true → LeavesRelease taken generation last)
      × (owned ≡ false → taken ≡ true → Releases taken generation last)
      × (owned ≡ false
          → taken ≡ false
          → last.status_generation ≡ generation
          → Releases taken generation last)
      × (owned ≡ false
          → taken ≡ false
          → last.status_generation ≢ generation
          → LeavesRelease taken generation last)
release_owned_once before after generation accepted_at w n g f =
    let c = handle_all before accepted_at in
    let k =
      handle_all-Kept before accepted_at
        (rw w (encode-IsMarked accepted 0 0 false nothing_failed)) in
    let d = abort_for_release-IsDecided c (rw g n) (f ∙ sym g) k in
    let last = handle_all after (abort_for_release c).0 in
    let same = handle_all-over after (abort_for_release c).0 d.over in
    let late = took-over after (abort_for_release c).0 d.over in
    let first : (took before accepted_at || took after (abort_for_release c).0)
        ≡ took before accepted_at =
      rw late (or_false (took before accepted_at)) in
    rw first (
      λ h. run_end-LeavesRelease (took before accepted_at) generation last (rw same (d.owned h)),
      λ h. (left_to_run generation before after accepted_at w d.over (d.left h)).0,
      λ h. (left_to_run generation before after accepted_at w d.over (d.left h)).1,
      λ h. (left_to_run generation before after accepted_at w d.over (d.left h)).2,
    )
