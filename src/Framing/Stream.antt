-- ===== src/Framing/Stream.antt =====
-- The byte stream: how it is cut into calls of `consume` does not matter.
use s3_hidbot.Common.{◌≡◌, refl, sym, ap, ◌∙◌, Bool, List, [], ◌∷◌, ◌++◌, append_assoc}
use s3_hidbot.Framing.{Bytes, Event, Transport, consume_byte, consume_bytes}

-- Consuming two pieces one after the other leaves the same transport, and gives the same events in
-- the same order, as consuming them at once.
pub consume_bytes-append :
    (listening : Bool) (t : Transport) (xs ys : Bytes)
    → consume_bytes listening t (xs ++ ys) ≡ (
        let (t1, first) = consume_bytes listening t xs in
        let (t2, second) = consume_bytes listening t1 ys in (t2, first ++ second))
unfolding consume_bytes
consume_bytes-append listening t [] ys = refl
consume_bytes-append listening t (x ∷ xs) ys =
    ap (λ (r : Transport × List Event). (r.0, now ++ r.1)) (consume_bytes-append listening t1 xs ys)
    ∙ ap (λ (e : List Event). ((consume_bytes listening t2 ys).0, e))
        (sym (append_assoc now (consume_bytes listening t1 xs).1 (consume_bytes listening t2 ys).1))
  where
    t1 : Transport
    t1 = (consume_byte listening t x).0

    now : List Event
    now = (consume_byte listening t x).1

    t2 : Transport
    t2 = (consume_bytes listening t1 xs).0
