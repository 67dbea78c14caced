-- ===== src/ControllerSpec/Waiting.antt =====
-- A wait ends, and what its answer says.
use s3_hidbot.Common.{
  ℕ, ◌+◌, ◌*◌, ◌^◌, ◌%◌, ◌≡◌, inl, inr, refl, ap, ◌∙◌, Bool, true, false, not, ◌||◌, ◌&&◌, leb, ltb,
  List, [], ◌∷◌, ◌++◌, Option, some, arith, Bool-cases, if◌then◌else◌,
}
use s3_hidbot.HidSequence.{
  Controller, outside_all, wait_decision, Moment, Waited, wait_from, wait_local,
}

-- What ends a wait at a moment: a cancellation, a lost authority, or a deadline.
abbrev pub stops : ℕ → ℕ → Moment → Controller → Bool
stops wait_deadline execution_deadline moment seen =
    seen.cancel_requested
    || not moment.authority_current
    || leb execution_deadline moment.now
    || leb wait_deadline moment.now

-- Nothing ends the wait at these moments; the members after them.
abbrev pub IsQuiet : ℕ → ℕ → List Moment → Controller → Type 0
IsQuiet wait_deadline execution_deadline [] c = Unit {0}
IsQuiet wait_deadline execution_deadline (moment ∷ later) c =
    let seen = outside_all moment.meanwhile c in
    (stops wait_deadline execution_deadline moment seen ≡ false)
    × IsQuiet wait_deadline execution_deadline later seen

abbrev pub seen_after : List Moment → Controller → Controller
seen_after [] c = c
seen_after (moment ∷ later) c = seen_after later (outside_all moment.meanwhile c)

-- The answer at a moment that ends the wait.
abbrev pub goes_on : ℕ → Moment → Controller → Bool
goes_on execution_deadline moment seen =
    not seen.cancel_requested && moment.authority_current && ltb moment.now execution_deadline

one_round :
    (wait_deadline execution_deadline : ℕ) (moment : Moment) (later : List Moment) (c : Controller)
    → let seen = outside_all moment.meanwhile c in
      wait_from wait_deadline execution_deadline (moment ∷ later) c ≡ (
        if stops wait_deadline execution_deadline moment seen
        then some (record {
          controller = seen;
          later = later;
          complete = goes_on execution_deadline moment seen;
        })
        else wait_from wait_deadline execution_deadline later seen)
unfolding wait_from wait_decision
one_round wait_deadline execution_deadline moment later c = ground arith

-- One of the moments is at a deadline or later.
abbrev pub reaches : ℕ → ℕ → List Moment → Bool
reaches wait_deadline execution_deadline [] = false
reaches wait_deadline execution_deadline (moment ∷ later) =
    (leb execution_deadline moment.now || leb wait_deadline moment.now)
    || reaches wait_deadline execution_deadline later

-- Where the loop ends, and with what answer.
pub record IsEnd (wait_deadline execution_deadline : ℕ) (moments : List Moment) (c : Controller)
    (result : Option Waited) : Type 0 where
  pub quiet : List Moment
  pub moment : Moment
  pub later : List Moment
  pub split : moments ≡ quiet ++ moment ∷ later
  pub still : IsQuiet wait_deadline execution_deadline quiet c
  pub ends :
      stops wait_deadline execution_deadline moment
        (outside_all moment.meanwhile (seen_after quiet c))
      ≡ true
  pub answered :
      let seen = outside_all moment.meanwhile (seen_after quiet c) in
      result
      ≡ some (record {
        controller = seen;
        later = later;
        complete = goes_on execution_deadline moment seen;
      })

ends_here :
    (wait_deadline execution_deadline : ℕ) (moment : Moment) (later : List Moment) (c : Controller)
    → stops wait_deadline execution_deadline moment (outside_all moment.meanwhile c) ≡ true
    → IsEnd wait_deadline execution_deadline
        (moment ∷ later)
        c
        (wait_from wait_deadline execution_deadline (moment ∷ later) c)
ends_here wait_deadline execution_deadline moment later c e = record {
  quiet = [];
  moment = moment;
  later = later;
  split = refl;
  still = tt;
  ends = e;
  answered = one_round wait_deadline execution_deadline moment later c ∙ rw e refl;
}

ends_later :
    (wait_deadline execution_deadline : ℕ) (moment : Moment) (later : List Moment) (c : Controller)
    → stops wait_deadline execution_deadline moment (outside_all moment.meanwhile c) ≡ false
    → IsEnd wait_deadline execution_deadline later
        (outside_all moment.meanwhile c)
        (wait_from wait_deadline execution_deadline later (outside_all moment.meanwhile c))
    → IsEnd wait_deadline execution_deadline
        (moment ∷ later)
        c
        (wait_from wait_deadline execution_deadline (moment ∷ later) c)
ends_later wait_deadline execution_deadline moment later c e w = record {
  quiet = moment ∷ w.quiet;
  moment = w.moment;
  later = w.later;
  split = ap (◌∷◌ moment) w.split;
  still = (e, w.still);
  ends = w.ends;
  answered = one_round wait_deadline execution_deadline moment later c ∙ rw e w.answered;
}

reached_later :
    (wait_deadline execution_deadline : ℕ) (moment : Moment) (later : List Moment)
    (seen : Controller)
    → stops wait_deadline execution_deadline moment seen ≡ false
    → reaches wait_deadline execution_deadline (moment ∷ later) ≡ true
    → reaches wait_deadline execution_deadline later ≡ true
reached_later wait_deadline execution_deadline moment later seen e r = ground arith

wait_from-IsEnd :
    (wait_deadline execution_deadline : ℕ) (moments : List Moment) (c : Controller)
    → reaches wait_deadline execution_deadline moments ≡ true
    → IsEnd wait_deadline execution_deadline moments c
        (wait_from wait_deadline execution_deadline moments c)
wait_from-IsEnd wait_deadline execution_deadline [] c r = cc r
wait_from-IsEnd wait_deadline execution_deadline (moment ∷ later) c r =
    let seen = outside_all moment.meanwhile c in
    elim (Bool-cases (stops wait_deadline execution_deadline moment seen)) [
      | inl e ↦ ends_here wait_deadline execution_deadline moment later c e
      | inr e ↦ ends_later wait_deadline execution_deadline moment later c e (
          wait_from-IsEnd wait_deadline execution_deadline later seen
            (reached_later wait_deadline execution_deadline moment later seen e r))
    ]

-- A wait ends at the first moment at which it is canceled, has lost its authority, or the clock is at its
-- deadline or at that of the whole execution, and such a moment comes when the clock reaches one of the
-- two. It is complete exactly when neither a cancellation, nor a lost authority, nor the deadline of the
-- execution ended it. The two deadlines, in 64 bits, are counted from the first moment's clock and from
-- the admission.
pub wait_ends :
    (milliseconds : ℕ) (first : Moment) (moments : List Moment) (c : Controller)
    → reaches
        ((first.now + milliseconds * 1000) % 2 ^ 64)
        (((outside_all first.meanwhile c).admission_us + 4000000) % 2 ^ 64)
        moments
      ≡ true
    → IsEnd
        ((first.now + milliseconds * 1000) % 2 ^ 64)
        (((outside_all first.meanwhile c).admission_us + 4000000) % 2 ^ 64)
        moments
        (outside_all first.meanwhile c)
        (wait_local milliseconds (first ∷ moments) c)
unfolding wait_local
wait_ends milliseconds first moments c r =
    wait_from-IsEnd ((first.now + milliseconds * 1000) % 2 ^ 64)
      (((outside_all first.meanwhile c).admission_us + 4000000) % 2 ^ 64) moments
      (outside_all first.meanwhile c) r
