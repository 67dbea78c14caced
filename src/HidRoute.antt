-- ===== src/HidRoute.antt =====
-- firmware/components/hid_route: which output has the authority to send HID reports, and how it is
-- taken away.
--
-- `Types` and `Publication` are the header's types, the readers and the counters, `Writer` what the
-- sole writer does, `Invalidate` and `Claims` the invalidations, `Commit` taking and releasing a route.
mod Types
mod Publication
mod Writer
mod Invalidate
mod Claims
mod Commit
pub use Types.*
pub use Publication.*
pub use Writer.*
pub use Invalidate.*
pub use Claims.*
pub use Commit.*
unfoldable pub use Types.{initialize_cold_boot}
unfoldable pub use Publication.{
  invalidation_pending_without_usb_publication, invalidation_pending, snapshot, matches,
  publish_usb_lifecycle_veto, begin_usb_publication, finish_usb_publication, clear_usb_publication,
  bump_publication, try_enter_writer, leave_writer,
}
unfoldable pub use Writer.{
  retire, commit_none_locked, retire_durable_target, process_durable_invalidation_locked,
  clear_superseded_conditional_invalidation_locked, leave_writer_with_handoff,
}
unfoldable pub use Invalidate.{
  publish_durable_invalidation, retire_now, publish_and_retire, invalidate, invalidate_if_matches,
  allocate_rounds, allocate_conditional_token, conditional_invalidation_matches,
  publish_conditional_invalidation, cancel_conditional_invalidation,
}
unfoldable pub use Claims.{
  claim_entered, claim_published, claim_invalidation_if_matches, retire_invalidation_claim,
  release_invalidation_claim,
}
unfoldable pub use Commit.{
  call_back, interrupted, committed_exactly, finish_commit, publish_route, publish_epoch,
  commit_entered, commit_if_none, begin_release, complete_release,
}
