-- ===== src/Framing/Reader.antt =====
-- The promise of the transport: a reader that keeps the whole line, however long, and the number of
-- zeros that it has just seen.
use s3_hidbot.Common.{ℕ, ◌+◌, List, [], ◌∷◌, ◌++◌, ltb, ◌==◌, if◌then◌else◌, replicate}
use s3_hidbot.Framing.{Bytes, Event, transport_sync}
use s3_hidbot.Framing.Lines.{line_events}

pub record Reader : Type 0 where
  pub line : Bytes
  pub zeros : ℕ

unfoldable pub start : Reader
start = record { line = []; zeros = 0 }

unfoldable pub read_line_byte : Bytes → ℕ → Bytes × List Event
read_line_byte line byte = if byte == b'\n' then ([], line_events line) else (line ++ byte ∷ [], [])

-- The fourth zero in a row drops the line; further zeros do nothing.
unfoldable pub read_zero : Reader → Reader × List Event
read_zero r =
    if ltb r.zeros 4
    then (if r.zeros + 1 == 4
        then (record { line = []; zeros = 4 }, record { kind = transport_sync; payload = [] } ∷ [])
        else (record r { zeros = r.zeros + 1 }, []))
    else (r, [])

-- Fewer than four zeros belong to the line.
unfoldable pub read_nonzero : Reader → ℕ → Reader × List Event
unfolding read_line_byte
read_nonzero r byte =
    let run : Bytes = replicate (if ltb r.zeros 4 then r.zeros else 0) 0 in
    let (line, events) = read_line_byte (r.line ++ run) byte in
    (record { line = line; zeros = 0 }, events)

unfoldable pub read_byte : Reader → ℕ → Reader × List Event
read_byte r byte = if byte == 0 then read_zero r else read_nonzero r byte

unfoldable pub read : Reader → Bytes → Reader × List Event
read r [] = (r, [])
read r (byte ∷ rest) =
    let (r1, now) = read_byte r byte in let (r2, later) = read r1 rest in (r2, now ++ later)
