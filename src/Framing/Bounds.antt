-- ===== src/Framing/Bounds.antt =====
-- The members of `Transport` stay within their bounds: no byte is written behind `frame_`.
use s3_hidbot.Common.{
  ℕ, zero, suc, ◌≤◌, ◌<◌, ◌≡◌, refl, Bool, [], ◌∷◌, Option, none, some, arith, length, Bool-cases,
  ◌==◌, inl, inr, length-set, length-replicate,
}
use s3_hidbot.Framing.{
  Bytes, LineState, seeking_prefix, collecting_frame, ignoring_line, discarding_frame, Transport,
  blank_storage, initial, reset_line, extend_line, consume_line_byte, flush_zeros, consume_zero,
  pending_zeros, consume_nonzero, consume_byte, consume_bytes, consume,
}

pub record IsValid (t : Transport) : Type 0 where
  pub within : t.frame_length ≤ 512
  pub zeros : t.consecutive_zeros ≤ 4
  pub stored : length t.storage ≡ 513
  pub matching :
      t.line_state ≡ seeking_prefix
      → (t.prefix_match_length < 8) × (t.frame_length ≡ t.prefix_match_length)
  pub framed : t.line_state ≡ collecting_frame → 8 ≤ t.frame_length

length-blank_storage : length blank_storage ≡ 513
unfolding blank_storage
length-blank_storage = length-replicate 513 0

pub initial-IsValid : IsValid initial
unfolding initial
initial-IsValid = ground (arith, length-blank_storage)

pub reset_line-IsValid : (t : Transport) → IsValid t → IsValid (reset_line t)
unfolding reset_line
reset_line-IsValid t v = ground (arith, length-blank_storage)

extend_line-IsValid :
    (s : LineState) (t : Transport) (byte : ℕ)
    → t.line_state ≡ s
    → IsValid t
    → IsValid (extend_line s t byte)
unfolding extend_line
extend_line-IsValid seeking_prefix t byte e v =
    ground (arith, length-set t.storage t.frame_length byte)
extend_line-IsValid collecting_frame t byte e v =
    ground (arith, length-set t.storage t.frame_length byte)
extend_line-IsValid ignoring_line t byte e v = v
extend_line-IsValid discarding_frame t byte e v = v

consume_line_byte-IsValid :
    (listening : Bool) (t : Transport) (byte : ℕ)
    → IsValid t
    → IsValid (consume_line_byte listening t byte).0
unfolding consume_line_byte
consume_line_byte-IsValid listening t byte v =
    ground (arith, reset_line-IsValid t, extend_line-IsValid t.line_state t byte refl)

flush_zeros-IsValid :
    (listening : Bool) (n : ℕ) (t : Transport) → IsValid t → IsValid (flush_zeros listening n t).0
unfolding flush_zeros
flush_zeros-IsValid listening zero t v = v
flush_zeros-IsValid listening (suc n) t v =
    flush_zeros-IsValid listening n (consume_line_byte listening t 0).0
      (consume_line_byte-IsValid listening t 0 v)

consume_zero-IsValid :
    (listening : Bool) (t : Transport) → IsValid t → IsValid (consume_zero listening t).0
unfolding consume_zero
consume_zero-IsValid listening t v = ground (arith, length-blank_storage)

clear_zeros-IsValid : (t : Transport) → IsValid t → IsValid (record t { consecutive_zeros = 0 })
clear_zeros-IsValid t v = ground arith

consume_nonzero-IsValid :
    (listening : Bool) (t : Transport) (byte : ℕ)
    → IsValid t
    → IsValid (consume_nonzero listening t byte).0
unfolding consume_nonzero
consume_nonzero-IsValid listening t byte v =
    consume_line_byte-IsValid listening _ byte
      (clear_zeros-IsValid _ (flush_zeros-IsValid listening (pending_zeros t) t v))

consume_byte-IsValid :
    (listening : Bool) (t : Transport) (byte : ℕ)
    → IsValid t
    → IsValid (consume_byte listening t byte).0
unfolding consume_byte
consume_byte-IsValid listening t byte v = elim (Bool-cases (byte == 0)) [
  | inl e ↦ rw e (consume_zero-IsValid listening t v)
  | inr e ↦ rw e (consume_nonzero-IsValid listening t byte v)
]

consume_bytes-IsValid :
    (listening : Bool) (t : Transport) (bytes : Bytes)
    → IsValid t
    → IsValid (consume_bytes listening t bytes).0
unfolding consume_bytes
consume_bytes-IsValid listening t [] v = v
consume_bytes-IsValid listening t (byte ∷ rest) v =
    consume_bytes-IsValid listening (consume_byte listening t byte).0 rest
      (consume_byte-IsValid listening t byte v)

-- Whatever bytes arrive, in whatever pieces, and whether or not a callback is set, a valid transport
-- stays valid: at most 512 bytes are held in the 513 of `frame_`, so each write falls inside it, the
-- run of zeros is counted up to four, the prefix is indexed below its length, and a frame that is
-- being collected holds the whole prefix, so the payload's length does not wrap.
pub consume-IsValid :
    (listening : Bool) (t : Transport) (input : Option Bytes)
    → IsValid t
    → IsValid (consume listening t input).0
unfolding consume
consume-IsValid listening t none v = v
consume-IsValid listening t (some bytes) v = consume_bytes-IsValid listening t bytes v
