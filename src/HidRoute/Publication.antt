-- ===== src/HidRoute/Publication.antt =====
-- Readers, the publication word of USB, the sequence counter and the writer flag. The word is a serial
-- of 30 bits, the active flag at bit 30 and the veto flag at bit 31; `x & (2^k - 1)` is `x % 2^k`.
use s3_hidbot.Common.{
  ℕ, ◌+◌, ◌*◌, ◌/◌, ◌^◌, ◌%◌, Bool, true, false, not, ◌&&◌, ◌||◌, ◌==◌, Option, some, none,
  if◌then◌else◌,
}
use s3_hidbot.HidRoute.Types.{
  OutputRoute, no_route, stable, Snapshot, Route, next, no_conditional_token, same_route, is_idle,
}

-- `state & (kUsbPublicationActive | kUsbPublicationVeto)`, as the two bits.
abbrev pub usb_flags : ℕ → ℕ
usb_flags state = state / 2 ^ 30 % 4

abbrev pub usb_active : ℕ → ℕ
usb_active state = state / 2 ^ 30 % 2

unfoldable pub invalidation_pending_without_usb_publication : Route → Bool
invalidation_pending_without_usb_publication r =
    not (r.conditional_token == no_conditional_token) || not (is_idle r.durable_state)

unfoldable pub invalidation_pending : Route → Bool
unfolding invalidation_pending_without_usb_publication
invalidation_pending r =
    not (usb_flags r.usb_publication_state == 0) || invalidation_pending_without_usb_publication r

-- Each of the bounded attempts sees the same sequence number, since nothing runs in between.
unfoldable pub snapshot : Route → Snapshot
unfolding invalidation_pending
snapshot r =
    if r.publication_sequence % 2 == 0
    then record {
      desired = r.desired;
      active = r.active;
      generation = r.generation;
      transition = r.transition;
      invalidation_pending = invalidation_pending r;
      coherent = true;
    }
    else record {
      desired = no_route;
      active = no_route;
      generation = r.generation;
      transition = stable;
      invalidation_pending = true;
      coherent = false;
    }

unfoldable pub matches : Route → OutputRoute → ℕ → Bool
unfolding invalidation_pending
matches r route generation =
    not (invalidation_pending r) && same_route r.active route && r.generation == generation

abbrev pub advance_usb_publication_serial : ℕ → ℕ
advance_usb_publication_serial state = (state % 2 ^ 30 + 1) % 2 ^ 30

unfoldable pub publish_usb_lifecycle_veto : Route → Route
publish_usb_lifecycle_veto r =
    let state = r.usb_publication_state in
    record r {
      usb_publication_state =
          advance_usb_publication_serial state
          + (if usb_active state == 0 then usb_flags state * 2 ^ 30 else 3 * 2 ^ 30);
    }

-- `none` is a publication that is not begun; otherwise the identity of the publication.
unfoldable pub begin_usb_publication : Route → ℕ → Option (ℕ × Route)
begin_usb_publication r expected_cut =
    if not (usb_flags expected_cut == 0) || not (r.usb_publication_state == expected_cut)
    then none
    else (let publication : ℕ = advance_usb_publication_serial expected_cut + 2 ^ 30 in
        some (publication, record r { usb_publication_state = publication }))

unfoldable pub finish_usb_publication : Route → ℕ → Route × Bool
finish_usb_publication r identity =
    if r.usb_publication_state == identity
    then (record r { usb_publication_state = advance_usb_publication_serial identity }, true)
    else (r, false)

unfoldable pub clear_usb_publication : Route → Route
clear_usb_publication r =
    if usb_active r.usb_publication_state == 0
    then r
    else record r { usb_publication_state = advance_usb_publication_serial r.usb_publication_state }

unfoldable pub bump_publication : Route → Route
bump_publication r = record r { publication_sequence = next r.publication_sequence }

unfoldable pub try_enter_writer : Route → Option Route
try_enter_writer r = if r.writer_active then none else some (record r { writer_active = true })

unfoldable pub leave_writer : Route → Route
leave_writer r = record r { writer_active = false }
