-- ===== src/Framing/Examples.antt =====
-- Runs of the framing, and its theorems at concrete inputs.
use s3_hidbot.Common.{◌≡◌, refl, true, [], ◌∷◌, ◌++◌, some, replicate, set, take, drop, arith}
use s3_hidbot.Framing.{
  Bytes, frame, initial, consume, consume_bytes, consume_byte, consume_nonzero, flush_zeros,
  consume_line_byte, blank_storage,
}
use s3_hidbot.Framing.Bounds.{IsValid, consume-IsValid, initial-IsValid}
use s3_hidbot.Framing.Reader.{start, read}
use s3_hidbot.Framing.Refine.{Follows, initial-Follows, consume_bytes-Follows}
use s3_hidbot.Framing.RoundTrip.{framed, consume-framed, consume-resync}

-- "{}".
abbrev payload : Bytes
payload = b'{' ∷ b'}' ∷ []

-- A line of diagnostics, and a line that begins like a frame and holds two zeros.
abbrev noise : Bytes
noise = b'b' ∷ b'o' ∷ b'\n' ∷ b'@' ∷ 0 ∷ 0 ∷ b'x' ∷ []

framed_run :
    (consume_bytes true initial (framed payload)).1
    ≡ record { kind = frame; payload = payload } ∷ []
unfolding consume_bytes consume_byte consume_nonzero flush_zeros consume_line_byte initial
    blank_storage take drop set replicate
framed_run = refl

consume-IsValid_example : IsValid (consume true initial (some noise)).0
consume-IsValid_example = consume-IsValid true initial (some noise) initial-IsValid

consume_bytes-Follows_example :
    Follows (consume_bytes true initial noise).0 (read start noise).0
    × ((consume_bytes true initial noise).1 ≡ (read start noise).1)
consume_bytes-Follows_example = consume_bytes-Follows initial start noise initial-Follows

consume-framed_example :
    Follows (consume_bytes true initial (framed payload)).0 start
    × ((consume_bytes true initial (framed payload)).1
        ≡ record { kind = frame; payload = payload } ∷ [])
consume-framed_example = consume-framed initial payload initial-Follows (omega arith) (omega arith)

consume-resync_example :
    (consume_bytes true initial ((noise ++ replicate 5 0) ++ framed payload)).1
    ≡ (consume_bytes true initial (noise ++ replicate 5 0)).1
      ++ record { kind = frame; payload = payload } ∷ []
consume-resync_example = consume-resync noise payload 5 (omega arith) (omega arith) (omega arith)
