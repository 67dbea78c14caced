-- ===== src/Framing/Refine.antt =====
-- The transport keeps the reader's promise, byte by byte.
use s3_hidbot.Common.{
  ℕ, zero, suc, ◌+◌, ◌≡◌, refl, sym, ap, ap₂, subst, inl, inr, true, false, List, [], ◌∷◌, ◌++◌,
  append-nil, append_assoc, ltb, ◌==◌, Bool-cases, if◌then◌else◌, replicate, arith,
}
use s3_hidbot.Framing.{
  Bytes, Event, LineState, seeking_prefix, collecting_frame, ignoring_line, discarding_frame,
  Transport, blank_storage, initial, reset, reset_line, extend_line, consume_line_byte, flush_zeros,
  consume_zero, pending_zeros, consume_nonzero, consume_byte, consume_bytes,
}
use s3_hidbot.Framing.Reader.{
  Reader, start, read_line_byte, read_zero, read_nonzero, read_byte, read,
}
use s3_hidbot.Framing.LineEnd.{end_of_line-Holds}
use s3_hidbot.Framing.Holds.{filled, Holds, extend_line-Holds}

-- The transport stands for the reader: it has read the reader's line, and as many zeros.
pub record Follows (t : Transport) (r : Reader) : Type 0 where
  pub holds : Holds t.line_state t r.line
  pub zeros : t.consecutive_zeros ≡ r.zeros

module _ (t : Transport) where
  blank-Holds : Holds seeking_prefix (reset_line t) []
  unfolding reset_line blank_storage filled
  blank-Holds = record {
    next = b'@';
    rest = b'H' ∷ b'I' ∷ b'D' ∷ b'B' ∷ b'O' ∷ b'T' ∷ b' ' ∷ [];
    begins = refl;
    matched = refl;
    held = refl;
    stored = refl;
  }

-- The count of zeros is no part of the line.
Holds-zeros :
    (s : LineState) (t : Transport) (l : Bytes) (n : ℕ)
    → Holds s t l
    → Holds s (record t { consecutive_zeros = n }) l
Holds-zeros seeking_prefix t l n h = record {
  next = h.next;
  rest = h.rest;
  begins = h.begins;
  matched = h.matched;
  held = h.held;
  stored = h.stored;
}
Holds-zeros collecting_frame t l n h = record {
  body = h.body;
  begins = h.begins;
  within = h.within;
  held = h.held;
  stored = h.stored;
}
Holds-zeros ignoring_line t l n h = h
Holds-zeros discarding_frame t l n h = h

consume_line_byte-Holds :
    (t : Transport) (l : Bytes) (b : ℕ)
    → Holds t.line_state t l
    → (let u = (consume_line_byte true t b).0 in Holds u.line_state u (read_line_byte l b).0)
      × ((consume_line_byte true t b).1 ≡ (read_line_byte l b).1)
unfolding consume_line_byte read_line_byte
consume_line_byte-Holds t l b h = elim (Bool-cases (b == b'\n')) [
  | inl e ↦ rw e (blank-Holds t, end_of_line-Holds t.line_state t l h)
  | inr e ↦ rw e (extend_line-Holds t.line_state t l b refl h, refl)
]

extend_line-zeros :
    (s : LineState) (t : Transport) (b : ℕ)
    → (extend_line s t b).consecutive_zeros ≡ t.consecutive_zeros
unfolding extend_line
extend_line-zeros seeking_prefix t b = ground arith
extend_line-zeros _ t b = ground arith

consume_line_byte-zeros :
    (t : Transport) (b : ℕ) → (consume_line_byte true t b).0.consecutive_zeros ≡ t.consecutive_zeros
unfolding consume_line_byte reset_line
consume_line_byte-zeros t b = ground (arith, extend_line-zeros t.line_state t b)

flush_zeros-Holds :
    (n : ℕ) (t : Transport) (l : Bytes)
    → Holds t.line_state t l
    → (let u = (flush_zeros true n t).0 in Holds u.line_state u (l ++ replicate n 0))
      × ((flush_zeros true n t).1 ≡ [])
unfolding flush_zeros replicate consume_line_byte
flush_zeros-Holds zero t l h = (subst (Holds t.line_state t) (sym (append-nil l)) h, refl)
flush_zeros-Holds (suc n) t l h =
    let (rest, silent) =
      flush_zeros-Holds n (consume_line_byte true t 0).0 (l ++ 0 ∷ [])
        (extend_line-Holds t.line_state t l 0 refl h) in
    (subst (Holds u.line_state u) (append_assoc l (0 ∷ []) (replicate n 0)) rest, silent)
  where
    u : Transport
    u = (flush_zeros true n (consume_line_byte true t 0).0).0

consume_nonzero-Follows :
    (t : Transport) (r : Reader) (b : ℕ)
    → Follows t r
    → Follows (consume_nonzero true t b).0 (read_nonzero r b).0
      × ((consume_nonzero true t b).1 ≡ (read_nonzero r b).1)
unfolding consume_nonzero read_nonzero pending_zeros
consume_nonzero-Follows t r b f = (
  record { holds = ended.0; zeros = consume_line_byte-zeros u b },
  ap₂ (λ (x y : List Event). x ++ y) flushed.1 ended.1,
)
  where
    run : ℕ
    run = if ltb r.zeros 4 then r.zeros else 0

    same : pending_zeros t ≡ run
    same = ap (λ z. if ltb z 4 then z else 0) f.zeros

    flushed :
        (let u = (flush_zeros true (pending_zeros t) t).0 in
          Holds u.line_state u (r.line ++ replicate run 0))
        × ((flush_zeros true (pending_zeros t) t).1 ≡ [])
    flushed =
        let (holds, silent) = flush_zeros-Holds (pending_zeros t) t r.line f.holds in
        (
          subst
              (λ n.
                Holds (flush_zeros true (pending_zeros t) t).0.line_state
                  (flush_zeros true (pending_zeros t) t).0 (r.line ++ replicate n 0))
              same holds,
          silent,
        )

    u : Transport
    u = record (flush_zeros true (pending_zeros t) t).0 { consecutive_zeros = 0 }

    ended :
        (let v = (consume_line_byte true u b).0 in
          Holds v.line_state v (read_line_byte (r.line ++ replicate run 0) b).0)
        × ((consume_line_byte true u b).1 ≡ (read_line_byte (r.line ++ replicate run 0) b).1)
    ended =
        consume_line_byte-Holds u (r.line ++ replicate run 0) b
          (Holds-zeros u.line_state (flush_zeros true (pending_zeros t) t).0 _ 0 flushed.0)

consume_zero-Follows :
    (t : Transport) (r : Reader)
    → Follows t r
    → Follows (consume_zero true t).0 (read_zero r).0 × ((consume_zero true t).1 ≡ (read_zero r).1)
unfolding consume_zero read_zero
consume_zero-Follows t r f = elim (Bool-cases (ltb r.zeros 4)) [
  | inl e ↦ elim (Bool-cases (r.zeros + 1 == 4)) [
    | inl fourth ↦
        rw (few e, last fourth, e, fourth)
          (
            record {
              holds = Holds-zeros seeking_prefix (reset_line t) [] _ (blank-Holds t);
              zeros = ground arith;
            },
            refl,
          )
    | inr before ↦
        rw (few e, more before, e, before)
          (
            record {
              holds = Holds-zeros t.line_state t r.line _ f.holds;
              zeros = ap (λ z. z + 1) f.zeros;
            },
            refl,
          )
  ]
  | inr e ↦ rw (many e, e) (f, refl)
]
  where
    few : ltb r.zeros 4 ≡ true → ltb t.consecutive_zeros 4 ≡ true
    few e = ground arith

    many : ltb r.zeros 4 ≡ false → ltb t.consecutive_zeros 4 ≡ false
    many e = ground arith

    last : r.zeros + 1 == 4 ≡ true → t.consecutive_zeros + 1 == 4 ≡ true
    last e = ground arith

    more : r.zeros + 1 == 4 ≡ false → t.consecutive_zeros + 1 == 4 ≡ false
    more e = ground arith

consume_byte-Follows :
    (t : Transport) (r : Reader) (b : ℕ)
    → Follows t r
    → Follows (consume_byte true t b).0 (read_byte r b).0
      × ((consume_byte true t b).1 ≡ (read_byte r b).1)
unfolding consume_byte read_byte
consume_byte-Follows t r b f = elim (Bool-cases (b == 0)) [
  | inl e ↦ rw e (consume_zero-Follows t r f)
  | inr e ↦ rw e (consume_nonzero-Follows t r b f)
]

-- A transport that stands for a reader goes on to stand for it over any bytes, and reports exactly
-- the reader's events, in order: with 513 bytes of storage it does what a reader of whole lines does.
pub consume_bytes-Follows :
    (t : Transport) (r : Reader) (bytes : Bytes)
    → Follows t r
    → Follows (consume_bytes true t bytes).0 (read r bytes).0
      × ((consume_bytes true t bytes).1 ≡ (read r bytes).1)
unfolding consume_bytes read
consume_bytes-Follows t r [] f = (f, refl)
consume_bytes-Follows t r (b ∷ rest) f =
    let (next, now) = consume_byte-Follows t r b f in
    let (last, later) =
      consume_bytes-Follows (consume_byte true t b).0 (read_byte r b).0 rest next in
    (last, ap₂ (λ (x y : List Event). x ++ y) now later)

pub initial-Follows : Follows initial start
unfolding initial start reset_line
initial-Follows = record { holds = blank-Holds initial; zeros = refl }

-- After `reset` the transport stands for a reader that has read nothing.
pub reset-Follows : (t : Transport) → Follows (reset t) start
unfolding reset start
reset-Follows t = record {
  holds = Holds-zeros seeking_prefix (reset_line t) [] 0 (blank-Holds t);
  zeros = refl;
}
