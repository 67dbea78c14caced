-- ===== src/RouteSafety/Handoff.antt =====
-- How a writer leaves: what was posted while it was active is carried out first.
use s3_hidbot.Common.{◌%◌, ◌^◌, ◌<◌, ◌≡◌, ◌≢◌, refl, ap, ◌∙◌, ◌⊎◌, false, arith}
use s3_hidbot.HidRoute.{
  Route, OutputRoute, no_route, Transition, stable, releasing, idle, active, commit_none_locked,
  retire_durable_target, process_durable_invalidation_locked, leave_writer,
  clear_superseded_conditional_invalidation_locked, leave_writer_with_handoff, usb_flags,
}

-- The routes agree with the transition; a route that is being released is still active.
abbrev pub IsShaped : OutputRoute → OutputRoute → Transition → Type 0
IsShaped wanted used stable = wanted ≡ used
IsShaped wanted used releasing = (wanted ≡ no_route) × (used ≢ no_route)

-- Between two writers.
pub record AtRest (r : Route) : Type 0 where
  pub free : r.writer_active ≡ false
  pub even : r.publication_sequence % 2 ≡ 0
  pub settled : r.durable_state ≡ idle
  pub unpublished : usb_flags r.usb_publication_state ≡ 0
  pub shaped : IsShaped r.desired r.active r.transition
  pub bounded : r.generation < 2 ^ 32

-- A writer that may leave.
pub record CanLeave (r : Route) : Type 0 where
  pub targeted :
      (r.durable_state ≡ idle)
      ⊎ ((r.durable_state ≡ active)
          × ((r.durable_generation ≡ r.generation) ⊎ (r.active ≡ no_route)))
  pub even : r.publication_sequence % 2 ≡ 0
  pub unpublished : usb_flags r.usb_publication_state ≡ 0
  pub shaped : IsShaped r.desired r.active r.transition
  pub bounded : r.generation < 2 ^ 32

record Processed (r q : Route) : Type 0 where
  even : q.publication_sequence % 2 ≡ 0
  settled : q.durable_state ≡ idle
  word : q.usb_publication_state ≡ r.usb_publication_state
  shaped : IsShaped q.desired q.active q.transition
  bounded : q.generation < 2 ^ 32
  quiet :
      r.durable_state ≡ idle
      → (q.desired ≡ r.desired)
        × (q.active ≡ r.active)
        × (q.transition ≡ r.transition)
        × (q.generation ≡ r.generation)
  closed :
      r.durable_state ≡ active
      → (q.desired ≡ no_route) × (q.active ≡ no_route) × (q.transition ≡ stable)

process-Processed : (r : Route) → CanLeave r → Processed r (process_durable_invalidation_locked r)
unfolding process_durable_invalidation_locked retire_durable_target commit_none_locked
process-Processed r c = ground arith

-- The conditional token is all that the next step changes.
record SameButToken (r q : Route) : Type 0 where
  sequence : q.publication_sequence ≡ r.publication_sequence
  generation : q.generation ≡ r.generation
  desired : q.desired ≡ r.desired
  active : q.active ≡ r.active
  transition : q.transition ≡ r.transition
  durable : q.durable_state ≡ r.durable_state
  word : q.usb_publication_state ≡ r.usb_publication_state

clear-SameButToken :
    (r : Route) → SameButToken r (clear_superseded_conditional_invalidation_locked r)
unfolding clear_superseded_conditional_invalidation_locked
clear-SameButToken r = ground arith

-- What a writer leaves behind: the route at rest, unchanged if nothing was posted, and none if an
-- invalidation was.
pub record Left (r q : Route) : Type 0 where
  pub rest : AtRest q
  pub quiet :
      r.durable_state ≡ idle
      → (q.desired ≡ r.desired)
        × (q.active ≡ r.active)
        × (q.transition ≡ r.transition)
        × (q.generation ≡ r.generation)
  pub closed :
      r.durable_state ≡ active
      → (q.desired ≡ no_route) × (q.active ≡ no_route) × (q.transition ≡ stable)

leave-IsShaped :
    (d d' u u' : OutputRoute) (t t' : Transition)
    → d' ≡ d
    → u' ≡ u
    → t' ≡ t
    → IsShaped d u t
    → IsShaped d' u' t'
leave-IsShaped d d' u u' t t' e f g h = rw (e, f, g) h

pub leave-Left : (r : Route) → CanLeave r → Left r (leave_writer_with_handoff r)
unfolding leave_writer_with_handoff leave_writer
leave-Left r c = record {
  rest = record {
    free = refl;
    even = rw s.sequence p.even;
    settled = s.durable ∙ p.settled;
    unpublished = ap usb_flags (s.word ∙ p.word) ∙ c.unpublished;
    shaped = leave-IsShaped _ _ _ _ _ _ s.desired s.active s.transition p.shaped;
    bounded = rw s.generation p.bounded;
  };
  quiet = λ e.
      let (d, u, t, g) = p.quiet e in
      (s.desired ∙ d, s.active ∙ u, s.transition ∙ t, s.generation ∙ g);
  closed = λ e. let (d, u, t) = p.closed e in (s.desired ∙ d, s.active ∙ u, s.transition ∙ t);
}
  where
    q : Route
    q = process_durable_invalidation_locked r

    p : Processed r q
    p = process-Processed r c

    s : SameButToken q (clear_superseded_conditional_invalidation_locked q)
    s = clear-SameButToken q
