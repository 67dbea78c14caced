-- ===== src/Framing/RoundTrip.antt =====
-- Frames sent by a host are the frames reported, also behind noise that four zeros end.
use s3_hidbot.Common.{
  ℕ, zero, suc, ◌+◌, ◌≤◌, ◌≡◌, ◌≢◌, refl, ap, subst, ◌∙◌, ◌⊎◌, inl, inr, true, false, List, [], ◌∷◌,
  ◌++◌, append-nil, append_assoc, ltb, leb, ◌==◌, if◌then◌else◌, length, replicate, arith,
  length-append,
}
use s3_hidbot.Framing.{Bytes, Event, frame, frame_prefix, Transport, initial, consume_bytes}
use s3_hidbot.Framing.Lines.{strip_prefix, strip_return-concat, line_events, body_events}
use s3_hidbot.Framing.Reader.{
  Reader, start, read_line_byte, read_zero, read_nonzero, read_byte, read,
}
use s3_hidbot.Framing.Refine.{Follows, consume_bytes-Follows, initial-Follows}
use s3_hidbot.Framing.Stream.{consume_bytes-append}

-- Bytes that neither end a line nor count as zeros.
abbrev pub IsText : Bytes → Type 0
IsText [] = Unit {0}
IsText (c ∷ cs) = (c ≢ 0) × (c ≢ b'\n') × IsText cs

IsText-append : (xs ys : Bytes) → IsText xs → IsText ys → IsText (xs ++ ys)
IsText-append [] ys h k = k
IsText-append (x ∷ xs) ys h k = (h.0, h.1, IsText-append xs ys h.2 k)

-- A byte other than zero, at a count of zeros that leaves nothing to the line.
read_byte_plain :
    (line : Bytes) (n c : ℕ)
    → (n ≡ 0) ⊎ (n ≡ 4)
    → c ≢ 0
    → read_byte (record { line = line; zeros = n }) c
      ≡ (record { line = (read_line_byte line c).0; zeros = 0 }, (read_line_byte line c).1)
unfolding read_byte read_nonzero replicate
read_byte_plain line n c h k = rw (other, none, append-nil line)
  where
    other : c == 0 ≡ false
    other = ground arith

    none : (if ltb n 4 then n else 0) ≡ 0
    none = ground arith

read_byte_text :
    (line : Bytes) (n c : ℕ)
    → (n ≡ 0) ⊎ (n ≡ 4)
    → c ≢ 0
    → c ≢ b'\n'
    → read_byte (record { line = line; zeros = n }) c
      ≡ (record { line = line ++ c ∷ []; zeros = 0 }, [])
unfolding read_line_byte
read_byte_text line n c h k other =
    read_byte_plain line n c h k
    ∙ ap (λ (p : Bytes × List Event). (record { line = p.0; zeros = 0 }, p.1)) same
  where
    test : c == b'\n' ≡ false
    test = ground arith

    same : read_line_byte line c ≡ (line ++ c ∷ [], [])
    same = rw test

read-text :
    (line text rest : Bytes)
    → IsText text
    → read (record { line = line; zeros = 0 }) (text ++ rest)
      ≡ read (record { line = line ++ text; zeros = 0 }) rest
unfolding read
read-text line [] rest h = rw (append-nil line)
read-text line (c ∷ text) rest (h, k, ok) = rw (read_byte_text line 0 c (inl refl) h k) (
    read-text (line ++ c ∷ []) text rest ok
    ∙ ap (λ l. read (record { line = l; zeros = 0 }) rest) (append_assoc line (c ∷ []) text))

read-newline :
    (line : Bytes) (n : ℕ)
    → (n ≡ 0) ⊎ (n ≡ 4)
    → read (record { line = line; zeros = n }) (b'\n' ∷ []) ≡ (start, line_events line)
unfolding read read_line_byte start
read-newline line n h =
    rw (read_byte_plain line n b'\n' h (omega arith)) (
      ap (λ (e : List Event). (record { line = []; zeros = 0 }, e)) (append-nil (line_events line)))

-- A line of text is reported as what it means.
read-line :
    (text : Bytes) (n : ℕ)
    → (n ≡ 0) ⊎ (n ≡ 4)
    → IsText text
    → read (record { line = []; zeros = n }) (text ++ b'\n' ∷ []) ≡ (start, line_events text)
unfolding read
read-line [] n h ok = read-newline [] n h
read-line (c ∷ text) n h (k, other, ok) =
    rw (read_byte_text [] n c h k other)
      (read-text (c ∷ []) text (b'\n' ∷ []) ok ∙ read-newline (c ∷ text) 0 (inl refl))

-- A host ends its lines by a carriage return and a newline.
line_events-frame :
    (payload : Bytes)
    → length payload ≤ 503
    → line_events (frame_prefix ++ payload ++ b'\r' ∷ [])
      ≡ record { kind = frame; payload = payload } ∷ []
unfolding line_events body_events strip_prefix
line_events-frame payload h =
    rw (short)
      (ap (λ p. record { kind = frame; payload = p } ∷ []) (strip_return-concat payload b'\r'))
  where
    short : leb (length (frame_prefix ++ payload ++ b'\r' ∷ [])) 512 ≡ true
    short = ground (arith, length-append payload (b'\r' ∷ []))

-- Between two bytes a reader has counted at most four zeros, and after four it holds no line.
record IsSettled (r : Reader) : Type 0 where
  few : r.zeros ≤ 4
  dropped : r.zeros ≡ 4 → r.line ≡ []

read_byte-IsSettled : (r : Reader) (b : ℕ) → IsSettled r → IsSettled (read_byte r b).0
unfolding read_byte read_zero read_nonzero
read_byte-IsSettled r b v = ground arith

read-IsSettled : (r : Reader) (bytes : Bytes) → IsSettled r → IsSettled (read r bytes).0
unfolding read
read-IsSettled r [] v = v
read-IsSettled r (b ∷ rest) v = read-IsSettled (read_byte r b).0 rest (read_byte-IsSettled r b v)

-- Each zero counts, up to four.
read_byte-zero :
    (r : Reader) (k : ℕ) → IsSettled r → 4 ≤ suc k + r.zeros → 4 ≤ k + (read_byte r 0).0.zeros
unfolding read_byte read_zero
read_byte-zero r k v h = ground arith

read-zeros :
    (k : ℕ) (r : Reader)
    → IsSettled r
    → 4 ≤ k + r.zeros
    → (read r (replicate k 0)).0 ≡ record { line = []; zeros = 4 }
unfolding read replicate
read-zeros zero r v h = λ i. record { line = v.dropped four i; zeros = four i }
  where
    four : r.zeros ≡ 4
    four = omega (arith, v.few)
read-zeros (suc k) r v h =
    read-zeros k (read_byte r 0).0 (read_byte-IsSettled r 0 v) (read_byte-zero r k v h)

read-append : (r : Reader) (xs ys : Bytes) → (read r (xs ++ ys)).0 ≡ (read (read r xs).0 ys).0
unfolding read
read-append r [] ys = refl
read-append r (x ∷ xs) ys = read-append (read_byte r x).0 xs ys

start-IsSettled : IsSettled start
unfolding start
start-IsSettled = record { few = omega arith; dropped = λ e. refl }

-- The line that a host sends for a payload.
abbrev pub framed : Bytes → Bytes
framed payload = (frame_prefix ++ payload ++ b'\r' ∷ []) ++ b'\n' ∷ []

framed-IsText : (payload : Bytes) → IsText payload → IsText (frame_prefix ++ payload ++ b'\r' ∷ [])
framed-IsText payload h =
    IsText-append frame_prefix (payload ++ b'\r' ∷ []) (omega arith)
      (IsText-append payload (b'\r' ∷ []) h (omega arith))

read-framed :
    (payload : Bytes) (n : ℕ)
    → (n ≡ 0) ⊎ (n ≡ 4)
    → IsText payload
    → length payload ≤ 503
    → read (record { line = []; zeros = n }) (framed payload)
      ≡ (start, record { kind = frame; payload = payload } ∷ [])
read-framed payload n h ok fits =
    read-line (frame_prefix ++ payload ++ b'\r' ∷ []) n h (framed-IsText payload ok)
    ∙ ap (λ (e : List Event). (start, e)) (line_events-frame payload fits)

-- Between two lines, a payload of at most 503 bytes, none of them a zero or a newline, sent behind
-- the prefix and before a carriage return and a newline, is reported as one frame with that payload,
-- and the transport is between two lines again.
pub consume-framed :
    (t : Transport) (payload : Bytes)
    → Follows t start
    → IsText payload
    → length payload ≤ 503
    → Follows (consume_bytes true t (framed payload)).0 start
      × ((consume_bytes true t (framed payload)).1
          ≡ record { kind = frame; payload = payload } ∷ [])
unfolding start
consume-framed t payload f ok fits =
    let (after, events) = consume_bytes-Follows t start (framed payload) f in
    (
      subst (Follows (consume_bytes true t (framed payload)).0) (ap (λ p. p.0) whole) after,
      events ∙ ap (λ p. p.1) whole,
    )
  where
    whole : read start (framed payload) ≡ (start, record { kind = frame; payload = payload } ∷ [])
    whole = read-framed payload 0 (inl refl) ok fits

-- After any bytes at all, four or more zeros make the next line count: a payload sent behind them is
-- reported as one frame, after whatever events the bytes before it gave.
pub consume-resync :
    (noise payload : Bytes) (k : ℕ)
    → 4 ≤ k
    → IsText payload
    → length payload ≤ 503
    → (let before = noise ++ replicate k 0 in
        (consume_bytes true initial (before ++ framed payload)).1
        ≡ (consume_bytes true initial before).1 ++ record { kind = frame; payload = payload } ∷ [])
consume-resync noise payload k h ok fits =
    ap (λ p. p.1) (consume_bytes-append true initial before (framed payload))
    ∙ ap (◌++◌ (consume_bytes true initial before).1) (
        (consume_bytes-Follows t (record { line = []; zeros = 4 }) (framed payload) settled).1
        ∙ ap (λ p. p.1) (read-framed payload 4 (inr refl) ok fits))
  where
    before : Bytes
    before = noise ++ replicate k 0

    t : Transport
    t = (consume_bytes true initial before).0

    dropped : (read start before).0 ≡ record { line = []; zeros = 4 }
    dropped =
        read-append start noise (replicate k 0)
        ∙ read-zeros k (read start noise).0 (read-IsSettled start noise start-IsSettled)
            (omega (arith, h))

    settled : Follows t (record { line = []; zeros = 4 })
    settled =
        subst (Follows t) dropped (consume_bytes-Follows initial start before initial-Follows).0
