-- ===== src/Framing/Lines.antt =====
-- What one line of text means to the transport, described without its state machine.
use s3_hidbot.Common.{
  ℕ, ◌≡◌, refl, ap, ◌⊎◌, inl, inr, false, List, [], ◌∷◌, ◌++◌, leb, ◌==◌, Option, none, some,
  if◌then◌else◌, length, arith,
}
use s3_hidbot.Framing.{Bytes, Event, frame, overlong_protocol_frame, frame_prefix}

-- The rest of a line behind a prefix.
unfoldable pub strip_prefix : Bytes → Bytes → Option Bytes
strip_prefix [] line = some line
strip_prefix (p ∷ ps) [] = none
strip_prefix (p ∷ ps) (c ∷ line) = if c == p then strip_prefix ps line else none

-- A line without one final carriage return.
unfoldable pub strip_return : Bytes → Bytes
strip_return [] = []
strip_return (c ∷ []) = if c == b'\r' then [] else c ∷ []
strip_return (c ∷ d ∷ rest) = c ∷ strip_return (d ∷ rest)

unfoldable pub body_events : Bytes → Option Bytes → List Event
body_events line none = []
body_events line (some body) =
    if leb (length line) 512
    then record { kind = frame; payload = strip_return body } ∷ []
    else record { kind = overlong_protocol_frame; payload = [] } ∷ []

-- A line without the prefix is ignored, one of more than 512 bytes is reported, any other is a frame.
unfoldable pub line_events : Bytes → List Event
unfolding body_events
line_events line = body_events line (strip_prefix frame_prefix line)

pub strip_prefix-append : (p rest : Bytes) → strip_prefix p (p ++ rest) ≡ some rest
unfolding strip_prefix
strip_prefix-append [] rest = refl
strip_prefix-append (c ∷ p) rest = ground (arith, strip_prefix-append p rest)

pub strip_prefix_short : (l rest : Bytes) (c : ℕ) → strip_prefix (l ++ c ∷ rest) l ≡ none
unfolding strip_prefix
strip_prefix_short [] rest c = refl
strip_prefix_short (x ∷ l) rest c = ground (arith, strip_prefix_short l rest c)

pub strip_prefix_differs :
    (l rest k : Bytes) (c b : ℕ)
    → (b == c) ≡ false
    → strip_prefix (l ++ c ∷ rest) (l ++ b ∷ k) ≡ none
unfolding strip_prefix
strip_prefix_differs [] rest k c b h = ground arith
strip_prefix_differs (x ∷ l) rest k c b h = ground (arith, strip_prefix_differs l rest k c b h)

pub strip_return-concat :
    (xs : Bytes) (c : ℕ) → strip_return (xs ++ c ∷ []) ≡ (if c == b'\r' then xs else xs ++ c ∷ [])
unfolding strip_return
strip_return-concat [] c = refl
strip_return-concat (x ∷ []) c = ground arith
strip_return-concat (x ∷ y ∷ xs) c = ground (arith, strip_return-concat (y ∷ xs) c)

pub concat_cases : (xs : Bytes) → (xs ≡ []) ⊎ ((ys : Bytes) × (y : ℕ) × (xs ≡ ys ++ y ∷ []))
concat_cases [] = inl refl
concat_cases (x ∷ xs) = elim (concat_cases xs) [
  | inl e ↦ inr ([], x, ap (◌∷◌ x) e)
  | inr (ys, y, e) ↦ inr (x ∷ ys, y, ap (◌∷◌ x) e)
]
