-- ===== src/RouteSafety/Published.antt =====
-- The stages of taking a route, and what callbacks leave of them.
use s3_hidbot.Common.{ℕ, ◌%◌, ◌^◌, ◌<◌, ◌≡◌, ◌∙◌, true, false, List, some, arith, if◌then◌else◌}
use s3_hidbot.HidRoute.{
  Route, OutputRoute, no_route, usb, ble, stable, idle, next, same_route, usb_flags, usb_active,
  Callback, interrupted, set_route, bump_publication, finish_usb_publication, clear_usb_publication,
  commit_none_locked, begin_usb_publication, try_enter_writer,
}
use s3_hidbot.RouteSafety.Callbacks.{IsWritten, interrupted-Kept}
use s3_hidbot.RouteSafety.Handoff.{IsShaped, AtRest, CanLeave}

-- A route that is published by its writer, with the USB publication still open for USB.
pub record Published (route : OutputRoute) (g : ℕ) (r : Route) : Type 0 where
  pub written : IsWritten r
  pub even : r.publication_sequence % 2 ≡ 0
  pub desired : r.desired ≡ route
  pub active : r.active ≡ route
  pub transition : r.transition ≡ stable
  pub generation : r.generation ≡ g
  pub bounded : r.generation < 2 ^ 32

-- What a USB publication leaves in the word: open, or vetoed and open; or nothing, without one.
abbrev pub IsOpen : OutputRoute → ℕ → Type 0
IsOpen usb word = usb_active word ≡ 1
IsOpen _ word = usb_flags word ≡ 0

pub interrupted-Published :
    (route : OutputRoute) (g : ℕ) (r : Route) (cs : List Callback)
    → Published route g r
    → Published route g (interrupted r cs)
interrupted-Published route g r cs p =
    let k = interrupted-Kept r cs p.written in ground (arith, k.authority, k.written)

pub Published-CanLeave :
    (route : OutputRoute) (g : ℕ) (r : Route)
    → Published route g r
    → usb_flags r.usb_publication_state ≡ 0
    → CanLeave r
Published-CanLeave route g r p u = ground arith

pub finish-word :
    (r : Route) (identity : ℕ)
    → (finish_usb_publication r identity).1 ≡ true
    → usb_flags (finish_usb_publication r identity).0.usb_publication_state ≡ 0
unfolding finish_usb_publication
finish-word r identity h = ground arith

pub finish-Published :
    (route : OutputRoute) (g : ℕ) (r : Route) (identity : ℕ)
    → Published route g r
    → Published route g (finish_usb_publication r identity).0
unfolding finish_usb_publication
finish-Published route g r identity p = ground arith

pub finish-stays :
    (r : Route) (identity : ℕ)
    → (finish_usb_publication r identity).1 ≡ false
    → (finish_usb_publication r identity).0 ≡ r
unfolding finish_usb_publication
finish-stays r identity h = ground arith

pub abandon-CanLeave :
    (g : ℕ) (r : Route)
    → Published usb g r
    → usb_active r.usb_publication_state ≡ 1
    → CanLeave (clear_usb_publication (commit_none_locked r usb g true).0)
unfolding clear_usb_publication commit_none_locked
abandon-CanLeave g r p u = ground arith

-- A new epoch is published, its route not yet.
pub record Opened (route : OutputRoute) (g : ℕ) (r : Route) : Type 0 where
  pub written : IsWritten r
  pub odd : r.publication_sequence % 2 ≡ 1
  pub generation : r.generation ≡ g
  pub bounded : r.generation < 2 ^ 32
  pub word : IsOpen route r.usb_publication_state

pub interrupted-IsOpen :
    (route : OutputRoute) (r : Route) (cs : List Callback)
    → IsWritten r
    → IsOpen route r.usb_publication_state
    → IsOpen route (interrupted r cs).usb_publication_state
interrupted-IsOpen no_route r cs w u = (interrupted-Kept r cs w).unpublished u
interrupted-IsOpen usb r cs w u = (interrupted-Kept r cs w).publication ∙ u
interrupted-IsOpen ble r cs w u = (interrupted-Kept r cs w).unpublished u

pub interrupted-Opened :
    (route : OutputRoute) (g : ℕ) (r : Route) (cs : List Callback)
    → Opened route g r
    → Opened route g (interrupted r cs)
interrupted-Opened route g r cs o =
    let k = interrupted-Kept r cs o.written in
    let w = interrupted-IsOpen route r cs o.written o.word in
    record {
      written = k.written;
      odd = ground (arith, k.authority);
      generation = k.authority.generation ∙ o.generation;
      bounded = ground (arith, k.authority);
      word = w;
    }

pub close-CanLeave :
    (route : OutputRoute) (g : ℕ) (r : Route)
    → Opened route g r
    → CanLeave (
        if same_route route usb
        then clear_usb_publication (bump_publication (set_route r no_route))
        else bump_publication (set_route r no_route))
unfolding clear_usb_publication bump_publication
close-CanLeave route g r o = ground arith

pub set_route-Published :
    (route : OutputRoute) (g : ℕ) (r : Route)
    → Opened route g r
    → Published route g (bump_publication (set_route r route))
unfolding bump_publication
set_route-Published route g r o = ground arith

-- A writer that has entered, while nothing is pending.
pub record Entered (r : Route) : Type 0 where
  pub held : r.writer_active ≡ true
  pub even : r.publication_sequence % 2 ≡ 0
  pub settled : r.durable_state ≡ idle
  pub shaped : IsShaped r.desired r.active r.transition
  pub bounded : r.generation < 2 ^ 32

pub publish_epoch-Opened :
    (r : Route) (route : OutputRoute)
    → Entered r
    → IsOpen route r.usb_publication_state
    → Opened route
        (next r.generation)
        (record (bump_publication r) { generation = next r.generation })
unfolding bump_publication
publish_epoch-Opened r route e u = ground arith

pub begin-Entered :
    (r q : Route) (cut identity : ℕ)
    → Entered r
    → begin_usb_publication r cut ≡ some (identity, q)
    → Entered q × (usb_active q.usb_publication_state ≡ 1) × (q.generation ≡ r.generation)
unfolding begin_usb_publication
begin-Entered r q cut identity e h = ground arith

pub Entered-CanLeave : (r : Route) → Entered r → usb_flags r.usb_publication_state ≡ 0 → CanLeave r
Entered-CanLeave r e u = ground arith

pub enter-Entered :
    (r q : Route)
    → AtRest r
    → try_enter_writer r ≡ some q
    → Entered q
      × (q.usb_publication_state ≡ r.usb_publication_state)
      × (q.generation ≡ r.generation)
unfolding try_enter_writer
enter-Entered r q a h = ground arith
