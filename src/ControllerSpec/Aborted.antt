-- ===== src/ControllerSpec/Aborted.antt =====
-- What holds of a word and of every aborted word holds whatever other tasks do.
use s3_hidbot.Common.{ℕ, Bool, true, false, not, ◌||◌, ◌&&◌, ◌==◌, if_holds}
use s3_hidbot.HidSequence.{
  Controller, Outside, aborts, aborts_for_release, retires, outside, aborted_word, abort_generation,
  abort, abort_for_release, retire_owner, decode_state, is_live, owner_low, owner_high,
}

module _ (P : ℕ → Type 0)
    (ended : (status : ℕ) (release : Bool) → P (aborted_word status release)) where
  abbrev Kept : Controller → Type 0
  Kept c = P c.status_word

  abbrev KeptWith : Controller × Bool → Type 0
  KeptWith r = P r.0.status_word

  abort_generation-Kept :
      (generation : ℕ) (c : Controller) → Kept c → Kept (abort_generation generation c)
  unfolding abort_generation
  abort_generation-Kept generation c k =
      if_holds Kept (generation == 0 || not (c.reserved_generation == generation)) _ _ (λ e. k)
        (λ e.
          if_holds P (c.status_generation == generation && is_live (decode_state c.status_word)) _ _
            (λ f. ended c.status_word false) (λ f. k))

  abort-Kept : (c : Controller) → Kept c → Kept (abort c)
  unfolding abort
  abort-Kept c k =
      if_holds Kept (c.reserved_generation == 0) _ _ (λ e. k)
        (λ e. abort_generation-Kept c.reserved_generation c k)

  abort_for_release-Kept : (c : Controller) → Kept c → Kept (abort_for_release c).0
  unfolding abort_for_release
  abort_for_release-Kept c k =
      if_holds KeptWith (c.reserved_generation == 0) _ _ (λ e. k)
        (λ e.
          if_holds KeptWith (not (c.status_generation == c.reserved_generation)) _ _ (λ e. k)
            (λ e.
              if_holds KeptWith (is_live (decode_state c.status_word)) _ _
                (λ e. ended c.status_word true) (λ e. k)))

  retire_owner-Kept : (owner : ℕ) (c : Controller) → Kept c → Kept (retire_owner owner c)
  unfolding retire_owner
  retire_owner-Kept owner c k =
      if_holds Kept (owner == 0) _ _ (λ e. k)
        (λ e.
          if_holds Kept
            (c.status_generation == 0
              || not (c.status_owner_low == owner_low owner)
              || not (c.status_owner_high == owner_high owner))
            _ _ (λ e. k)
            (λ e. abort_generation-Kept c.status_generation (record c { status_generation = 0 }) k))

  pub outside-keeps :
      (call : Outside) (c : Controller) → P c.status_word → P (outside call c).status_word
  outside-keeps aborts c k = abort-Kept c k
  outside-keeps aborts_for_release c k = abort_for_release-Kept c k
  outside-keeps (retires owner) c k = retire_owner-Kept owner c k
