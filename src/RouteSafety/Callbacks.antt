-- ===== src/RouteSafety/Callbacks.antt =====
-- What a callback can do while a writer is active: post an invalidation or a veto, nothing else.
use s3_hidbot.Common.{
  ℕ, ◌≡◌, refl, ◌∙◌, ◌⊎◌, Bool, true, false, List, [], ◌∷◌, arith, if_holds, not, if◌then◌else◌,
  ◌||◌,
}
use s3_hidbot.HidRoute.{
  Route, Snapshot, Claim, idle, active, Callback, invalidates, vetoes, invalidates_if, claims,
  cancels, call_back, interrupted, snapshot, try_enter_writer, publish_durable_invalidation,
  retire_now, invalidate, invalidate_if_matches, publish_conditional_invalidation,
  cancel_conditional_invalidation, claim_entered, claim_invalidation_if_matches,
  publish_usb_lifecycle_veto, usb_active, usb_flags, OutputRoute, publish_and_retire, same_epoch,
  same_route, no_route,
}

-- The route itself, its epoch and the writer.
pub record SameAuthority (r q : Route) : Type 0 where
  pub generation : q.generation ≡ r.generation
  pub desired : q.desired ≡ r.desired
  pub active : q.active ≡ r.active
  pub transition : q.transition ≡ r.transition
  pub writer : q.writer_active ≡ r.writer_active
  pub sequence : q.publication_sequence ≡ r.publication_sequence

-- The durable invalidation and the publication word of USB.
pub record SameGate (r q : Route) : Type 0 where
  pub durable : q.durable_state ≡ r.durable_state
  pub target : q.durable_generation ≡ r.durable_generation
  pub word : q.usb_publication_state ≡ r.usb_publication_state

abbrev Unmoved : Route → Route → Type 0
Unmoved r q = SameAuthority r q × SameGate r q

publish_conditional-Unmoved :
    (r : Route) (g t : ℕ) → Unmoved r (publish_conditional_invalidation r g t).0
unfolding publish_conditional_invalidation
publish_conditional-Unmoved r g t = ground arith

cancel_conditional-Unmoved :
    (r : Route) (g t : ℕ) → Unmoved r (cancel_conditional_invalidation r g t).0
unfolding cancel_conditional_invalidation
cancel_conditional-Unmoved r g t = ground arith

claim_entered-held :
    (r : Route) (s : Snapshot) (t : ℕ) (c : Claim)
    → r.writer_active ≡ true
    → (claim_entered r s t c).route ≡ r
unfolding claim_entered try_enter_writer
claim_entered-held r s t c h = rw h

claim-Unmoved :
    (r : Route) (s : Snapshot) (t : ℕ) (c : Claim)
    → r.writer_active ≡ true
    → Unmoved r (claim_invalidation_if_matches r s t c).route
unfolding claim_invalidation_if_matches
claim-Unmoved r s t c h =
    let p = publish_conditional_invalidation r s.generation t in
    ground (
      arith,
      publish_conditional-Unmoved r s.generation t,
      claim_entered-held p.0 s p.1 c,
      cancel_conditional-Unmoved r s.generation t,
    )

-- What a callback may leave of the gate of a route that is being written.
pub record Posts (r q : Route) : Type 0 where
  pub authority : SameAuthority r q
  -- A durable invalidation that is posted stays, with its target.
  pub kept :
      r.durable_state ≡ active
      → (q.durable_state ≡ active) × (q.durable_generation ≡ r.durable_generation)
  -- A new one is for the epoch that was published when it came.
  pub posted :
      r.durable_state ≡ idle
      → (q.durable_state ≡ idle)
        ⊎ ((q.durable_state ≡ active) × (q.durable_generation ≡ r.generation))
  -- A veto does not end a USB publication, and starts none.
  pub publication : usb_active q.usb_publication_state ≡ usb_active r.usb_publication_state
  pub unpublished : usb_flags r.usb_publication_state ≡ 0 → usb_flags q.usb_publication_state ≡ 0
  pub vetoed : usb_flags r.usb_publication_state ≡ 3 → usb_flags q.usb_publication_state ≡ 3

publish_and_retire-Posts :
    (r : Route) (target : ℕ) (route : OutputRoute) (g : ℕ) (exact : Bool)
    → r.writer_active ≡ true
    → target ≡ r.generation
    → Posts r (publish_and_retire r target route g exact).0
unfolding publish_and_retire publish_durable_invalidation retire_now try_enter_writer
publish_and_retire-Posts r target route g exact h e = ground arith

Unmoved-Posts : (r q : Route) → Unmoved r q → Posts r q
Unmoved-Posts r q u = ground arith

-- An observed epoch that is the expected one has the current generation.
observed_generation :
    (r : Route) (s : Snapshot) → same_epoch (snapshot r) s ≡ true → s.generation ≡ r.generation
unfolding snapshot
observed_generation r s h = ground arith

observed_epoch :
    (r : Route) (s : Snapshot)
    → (not (snapshot r).coherent || not (same_epoch (snapshot r) s)) ≡ false
    → s.generation ≡ r.generation
observed_epoch r s h = observed_generation r s (ground arith)

invalidate_if_matches-Posts :
    (r : Route) (s : Snapshot) → r.writer_active ≡ true → Posts r (invalidate_if_matches r s).0
unfolding invalidate_if_matches
invalidate_if_matches-Posts r s h =
    if_holds (λ (p : Route × Bool). Posts r p.0) refused (r, false)
      (if changed then (r, false) else exact) (λ _. still)
      λ _.
        if_holds (λ (p : Route × Bool). Posts r p.0) changed (r, false) exact (λ _. still)
          λ e.
            publish_and_retire-Posts r s.generation s.active s.generation true h
              (observed_epoch r s e)
  where
    refused : Bool
    refused = not s.coherent || same_route s.active no_route

    changed : Bool
    changed = not (snapshot r).coherent || not (same_epoch (snapshot r) s)

    exact : Route × Bool
    exact = publish_and_retire r s.generation s.active s.generation true

    still : Posts r r
    still = Unmoved-Posts r r (ground arith)

veto-Posts : (r : Route) → Posts r (publish_usb_lifecycle_veto r)
unfolding publish_usb_lifecycle_veto
veto-Posts r = ground arith

call_back-Posts : (r : Route) (c : Callback) → r.writer_active ≡ true → Posts r (call_back r c)
unfolding call_back invalidate
call_back-Posts r invalidates h = publish_and_retire-Posts r r.generation _ _ _ h refl
call_back-Posts r vetoes h = veto-Posts r
call_back-Posts r (invalidates_if s) h = invalidate_if_matches-Posts r s h
call_back-Posts r (claims s t c) h = Unmoved-Posts r _ (claim-Unmoved r s t c h)
call_back-Posts r (cancels g t) h = Unmoved-Posts r _ (cancel_conditional-Unmoved r g t)

-- A route that is being written: its epoch is the target of what has been posted.
pub record IsWritten (r : Route) : Type 0 where
  pub held : r.writer_active ≡ true
  pub targeted :
      (r.durable_state ≡ idle)
      ⊎ ((r.durable_state ≡ active) × (r.durable_generation ≡ r.generation))

Posts-IsWritten : (r q : Route) → IsWritten r → Posts r q → IsWritten q
Posts-IsWritten r q w p = ground (arith, p.kept, p.posted)

-- A route that is written keeps its epoch and its authority; a USB publication stays as it is.
pub record Kept (r q : Route) : Type 0 where
  pub written : IsWritten q
  pub authority : SameAuthority r q
  pub publication : usb_active q.usb_publication_state ≡ usb_active r.usb_publication_state
  pub unpublished : usb_flags r.usb_publication_state ≡ 0 → usb_flags q.usb_publication_state ≡ 0
  pub vetoed : usb_flags r.usb_publication_state ≡ 3 → usb_flags q.usb_publication_state ≡ 3
  pub stays : r.durable_state ≡ active → q.durable_state ≡ active

call_back-Kept : (r : Route) (c : Callback) → IsWritten r → Kept r (call_back r c)
call_back-Kept r c w =
    let p = call_back-Posts r c w.held in
    record {
      written = Posts-IsWritten r _ w p;
      authority = p.authority;
      publication = p.publication;
      unpublished = p.unpublished;
      vetoed = p.vetoed;
      stays = λ e. (p.kept e).0;
    }

Kept-trans : (r q z : Route) → Kept r q → Kept q z → Kept r z
Kept-trans r q z f g = record {
  written = g.written;
  authority = ground (arith, f.authority, g.authority);
  publication = g.publication ∙ f.publication;
  unpublished = λ e. g.unpublished (f.unpublished e);
  vetoed = λ e. g.vetoed (f.vetoed e);
  stays = λ e. g.stays (f.stays e);
}

pub interrupted-Kept : (r : Route) (cs : List Callback) → IsWritten r → Kept r (interrupted r cs)
unfolding interrupted
interrupted-Kept r [] w = record {
  written = w;
  authority = ground arith;
  publication = refl;
  unpublished = λ e. e;
  vetoed = λ e. e;
  stays = λ e. e;
}
interrupted-Kept r (c ∷ cs) w =
    let k = call_back-Kept r c w in
    Kept-trans r _ _ k (interrupted-Kept (call_back r c) cs k.written)

invalidate-posts : (r : Route) → IsWritten r → (call_back r invalidates).durable_state ≡ active
unfolding call_back invalidate publish_and_retire publish_durable_invalidation retire_now
    try_enter_writer
invalidate-posts r w = ground arith

-- Whether an invalidation is among the callbacks.
unfoldable pub revokes : List Callback → Bool
revokes [] = false
revokes (invalidates ∷ cs) = true
revokes (_ ∷ cs) = revokes cs

pub interrupted-revoked :
    (r : Route) (cs : List Callback)
    → IsWritten r
    → revokes cs ≡ true
    → (interrupted r cs).durable_state ≡ active
unfolding interrupted revokes
interrupted-revoked r [] w h = ground arith
interrupted-revoked r (invalidates ∷ cs) w h =
    let k = call_back-Kept r invalidates w in
    (interrupted-Kept _ cs k.written).stays (invalidate-posts r w)
interrupted-revoked r (vetoes ∷ cs) w h =
    interrupted-revoked (call_back r vetoes) cs (call_back-Kept r vetoes w).written h
interrupted-revoked r (invalidates_if s ∷ cs) w h =
    interrupted-revoked (call_back r (invalidates_if s)) cs
      (call_back-Kept r (invalidates_if s) w).written h
interrupted-revoked r (claims s t c ∷ cs) w h =
    interrupted-revoked (call_back r (claims s t c)) cs (call_back-Kept r (claims s t c) w).written
      h
interrupted-revoked r (cancels g t ∷ cs) w h =
    interrupted-revoked (call_back r (cancels g t)) cs (call_back-Kept r (cancels g t) w).written h

-- Whether a veto is among the callbacks.
unfoldable pub vetoed_by : List Callback → Bool
vetoed_by [] = false
vetoed_by (vetoes ∷ cs) = true
vetoed_by (_ ∷ cs) = vetoed_by cs

veto_marks :
    (r : Route)
    → usb_active r.usb_publication_state ≡ 1
    → usb_flags (call_back r vetoes).usb_publication_state ≡ 3
unfolding call_back publish_usb_lifecycle_veto
veto_marks r u = ground arith

pub interrupted_vetoed :
    (r : Route) (cs : List Callback)
    → IsWritten r
    → usb_active r.usb_publication_state ≡ 1
    → vetoed_by cs ≡ true
    → usb_flags (interrupted r cs).usb_publication_state ≡ 3
unfolding interrupted vetoed_by
interrupted_vetoed r [] w u h = ground arith
interrupted_vetoed r (vetoes ∷ cs) w u h =
    let k = call_back-Kept r vetoes w in (interrupted-Kept _ cs k.written).vetoed (veto_marks r u)
interrupted_vetoed r (invalidates ∷ cs) w u h =
    let k = call_back-Kept r invalidates w in
    interrupted_vetoed (call_back r invalidates) cs k.written (k.publication ∙ u) h
interrupted_vetoed r (invalidates_if s ∷ cs) w u h =
    let k = call_back-Kept r (invalidates_if s) w in
    interrupted_vetoed (call_back r (invalidates_if s)) cs k.written (k.publication ∙ u) h
interrupted_vetoed r (claims s t c ∷ cs) w u h =
    let k = call_back-Kept r (claims s t c) w in
    interrupted_vetoed (call_back r (claims s t c)) cs k.written (k.publication ∙ u) h
interrupted_vetoed r (cancels g t ∷ cs) w u h =
    let k = call_back-Kept r (cancels g t) w in
    interrupted_vetoed (call_back r (cancels g t)) cs k.written (k.publication ∙ u) h
