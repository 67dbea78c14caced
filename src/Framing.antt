-- ===== src/Framing.antt =====
-- firmware/components/control_framing: the UART byte stream cut into protocol frames.
--
-- `Transport` holds the members of the class; a method returns the new members and the events that
-- it hands to the callback, in order. A null callback is `listening = false`, null data is `none`.
-- The callback does not call back into the transport.
pub mod Bounds
pub mod Stream
pub mod Lines
pub mod Reader
pub mod Holds
pub mod LineEnd
pub mod Refine
pub mod RoundTrip
mod Examples
use s3_hidbot.Common.{
  ℕ, zero, suc, ◌+◌, ◌-◌, ◌^◌, ◌%◌, Bool, List, [], ◌∷◌, ◌++◌, ltb, ◌==◌, ◌&&◌, Option, none, some,
  if◌then◌else◌, get_or, set, take, drop, replicate,
}

abbrev pub Bytes : Type 0
Bytes = List ℕ

-- The characters of "@HIDBOT ", without the terminating NUL.
abbrev pub frame_prefix : Bytes
frame_prefix = b'@' ∷ b'H' ∷ b'I' ∷ b'D' ∷ b'B' ∷ b'O' ∷ b'T' ∷ b' ' ∷ []

abbrev pub prefix_length : ℕ
prefix_length = 8

abbrev pub max_request_line_bytes : ℕ
max_request_line_bytes = 512

abbrev pub frame_storage_bytes : ℕ
frame_storage_bytes = 513

abbrev pub transport_sync_length : ℕ
transport_sync_length = 4

pub data EventKind : Type 0 where
  frame overlong_protocol_frame transport_sync : EventKind

pub record Event : Type 0 where
  pub kind : EventKind
  pub payload : Bytes

pub data LineState : Type 0 where
  seeking_prefix collecting_frame ignoring_line discarding_frame : LineState

pub record Transport : Type 0 where
  pub line_state : LineState
  pub prefix_match_length : ℕ
  pub frame_length : ℕ
  pub consecutive_zeros : ℕ
  pub storage : Bytes

-- Unsigned subtraction of `std::size_t`, 32 bits wide on the target.
abbrev sub_size : ℕ → ℕ → ℕ
sub_size a b = (a + 2 ^ 32 - b) % 2 ^ 32

unfoldable pub blank_storage : Bytes
blank_storage = replicate frame_storage_bytes 0

-- The default member initialisers.
unfoldable pub initial : Transport
initial = record {
  line_state = seeking_prefix;
  prefix_match_length = 0;
  frame_length = 0;
  consecutive_zeros = 0;
  storage = blank_storage;
}

unfoldable pub reset_line : Transport → Transport
reset_line t = record t {
  line_state = seeking_prefix;
  prefix_match_length = 0;
  frame_length = 0;
  storage = blank_storage;
}

unfoldable pub reset : Transport → Transport
unfolding reset_line
reset t = record (reset_line t) { consecutive_zeros = 0 }

unfoldable pub emit : Bool → EventKind → Bytes → List Event
emit listening kind payload =
    if listening then record { kind = kind; payload = payload } ∷ [] else []

-- The payload of a complete line: behind the prefix, without a final carriage return.
unfoldable pub frame_payload : Transport → Bytes
frame_payload t =
    let payload_length = sub_size t.frame_length prefix_length in
    take
      (if ltb 0 payload_length && (get_or t.storage (sub_size t.frame_length 1) 0 == b'\r')
        then payload_length - 1
        else payload_length)
      (drop prefix_length t.storage)

-- The events at the end of a line.
unfoldable pub end_of_line : Bool → LineState → Transport → List Event
unfolding emit frame_payload
end_of_line listening collecting_frame t = emit listening frame (frame_payload t)
end_of_line listening discarding_frame t = emit listening overlong_protocol_frame []
end_of_line listening _ t = []

-- The `switch` over the line state, for a byte other than the newline.
unfoldable pub extend_line : LineState → Transport → ℕ → Transport
extend_line seeking_prefix t byte =
    if byte == get_or frame_prefix t.prefix_match_length 0
    then record t {
      storage = set t.storage t.frame_length byte;
      frame_length = t.frame_length + 1;
      prefix_match_length = t.prefix_match_length + 1;
      line_state =
          if t.prefix_match_length + 1 == prefix_length then collecting_frame else seeking_prefix;
    }
    else record t { line_state = ignoring_line }
extend_line collecting_frame t byte =
    if ltb t.frame_length max_request_line_bytes
    then record t { storage = set t.storage t.frame_length byte; frame_length = t.frame_length + 1 }
    else record t { line_state = discarding_frame }
extend_line _ t byte = t

unfoldable pub consume_line_byte : Bool → Transport → ℕ → Transport × List Event
unfolding end_of_line reset_line extend_line
consume_line_byte listening t byte =
    if byte == b'\n'
    then (reset_line t, end_of_line listening t.line_state t)
    else (extend_line t.line_state t byte, [])

-- `for (zero = 0; zero < n; ++zero) consume_line_byte(0, …)`.
unfoldable pub flush_zeros : Bool → ℕ → Transport → Transport × List Event
flush_zeros listening zero t = (t, [])
flush_zeros listening (suc n) t =
    let (t1, now) = consume_line_byte listening t 0 in
    let (t2, later) = flush_zeros listening n t1 in (t2, now ++ later)

unfoldable pub consume_zero : Bool → Transport → Transport × List Event
unfolding reset_line emit
consume_zero listening t =
    if ltb t.consecutive_zeros transport_sync_length
    then (if t.consecutive_zeros + 1 == transport_sync_length
        then (
          record (reset_line t) { consecutive_zeros = t.consecutive_zeros + 1 },
          emit listening transport_sync [],
        )
        else (record t { consecutive_zeros = t.consecutive_zeros + 1 }, []))
    else (t, [])

-- A short run of zeros was part of the line after all; a full one was a sync token.
unfoldable pub pending_zeros : Transport → ℕ
pending_zeros t = if ltb t.consecutive_zeros transport_sync_length then t.consecutive_zeros else 0

unfoldable pub consume_nonzero : Bool → Transport → ℕ → Transport × List Event
unfolding pending_zeros
consume_nonzero listening t byte =
    let (t1, flushed) = flush_zeros listening (pending_zeros t) t in
    let (t2, now) = consume_line_byte listening (record t1 { consecutive_zeros = 0 }) byte in
    (t2, flushed ++ now)

-- The body of the loop in `consume`.
unfoldable pub consume_byte : Bool → Transport → ℕ → Transport × List Event
consume_byte listening t byte =
    if byte == 0 then consume_zero listening t else consume_nonzero listening t byte

unfoldable pub consume_bytes : Bool → Transport → Bytes → Transport × List Event
consume_bytes listening t [] = (t, [])
consume_bytes listening t (byte ∷ rest) =
    let (t1, now) = consume_byte listening t byte in
    let (t2, later) = consume_bytes listening t1 rest in (t2, now ++ later)

unfoldable pub consume : Bool → Transport → Option Bytes → Transport × List Event
unfolding consume_bytes
consume listening t none = (t, [])
consume listening t (some bytes) = consume_bytes listening t bytes
