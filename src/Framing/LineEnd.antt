-- ===== src/Framing/LineEnd.antt =====
-- What the transport reports at the end of a line is what the line means.
use s3_hidbot.Common.{
  ℕ, suc, ◌+◌, ◌-◌, ◌^◌, ◌%◌, ◌≤◌, ◌<◌, ◌≡◌, sym, ap, ap₂, ◌∙◌, inl, inr, true, false, [], ◌∷◌,
  ◌++◌, append-nil, append_assoc, ltb, leb, ◌==◌, Bool-cases, some, length, get_or, take, drop,
  replicate, arith, length-append, get_or-append, take-append,
}
use s3_hidbot.Framing.{
  Bytes, LineState, seeking_prefix, collecting_frame, ignoring_line, discarding_frame, Transport,
  frame_prefix, end_of_line, frame_payload, frame, emit,
}
use s3_hidbot.Framing.Lines.{
  strip_prefix, strip_prefix-append, strip_prefix_short, strip_return, strip_return-concat,
  line_events, body_events, concat_cases,
}
use s3_hidbot.Framing.Holds.{filled, Holds}

frame_payload-concat :
    (t : Transport) (ys pad : Bytes) (y : ℕ)
    → t.frame_length ≡ 9 + length ys
    → length ys < 504
    → t.storage ≡ (frame_prefix ++ ys) ++ y ∷ pad
    → frame_payload t ≡ strip_return (ys ++ y ∷ [])
unfolding frame_payload drop
frame_payload-concat t ys pad y n h s =
    rw (size, nonempty, last, ap (drop 8) s, strip_return-concat ys y)
      (elim (Bool-cases (y == b'\r')) [
        | inl e ↦ rw (e, one_less) (take-append ys (y ∷ pad))
        | inr e ↦ rw e whole
      ])
  where
    size : (t.frame_length + 2 ^ 32 - 8) % 2 ^ 32 ≡ suc (length ys)
    size = omega arith

    before : (t.frame_length + 2 ^ 32 - 1) % 2 ^ 32 ≡ length (frame_prefix ++ ys)
    before = omega (arith, length-append frame_prefix ys)

    last : get_or t.storage ((t.frame_length + 2 ^ 32 - 1) % 2 ^ 32) 0 ≡ y
    last = ap₂ (λ a i. get_or a i 0) s before ∙ get_or-append (frame_prefix ++ ys) pad y 0

    nonempty : ltb 0 (suc (length ys)) ≡ true
    nonempty = ground arith

    one_less : suc (length ys) - 1 ≡ length ys
    one_less = omega arith

    whole : take (suc (length ys)) (ys ++ y ∷ pad) ≡ ys ++ y ∷ []
    whole =
        ap₂ take {x = suc (length ys)} (omega (arith, length-append ys (y ∷ [])))
          (sym (append_assoc ys (y ∷ []) pad))
        ∙ take-append (ys ++ y ∷ []) pad

frame_payload-nil : (t : Transport) → t.frame_length ≡ 8 → frame_payload t ≡ []
unfolding frame_payload take
frame_payload-nil t n = rw size
  where
    size : (t.frame_length + 2 ^ 32 - 8) % 2 ^ 32 ≡ 0
    size = omega arith

frame_payload-body :
    (t : Transport) (body : Bytes)
    → t.frame_length ≡ 8 + length body
    → length body ≤ 504
    → t.storage ≡ filled (frame_prefix ++ body)
    → frame_payload t ≡ strip_return body
unfolding filled strip_return
frame_payload-body t body n h s = elim (concat_cases body) [
  | inl e ↦ frame_payload-nil t (omega (arith, ap {A = Bytes} length e)) ∙ ap strip_return (sym e)
  | inr (ys, y, e) ↦
      let size : length body ≡ suc (length ys) =
        omega (arith, ap {A = Bytes} length e, length-append ys (y ∷ [])) in
      frame_payload-concat t ys pad y (omega arith) (omega arith) (
        s
        ∙ ap (λ b. (frame_prefix ++ b) ++ pad) e
        ∙ ap (◌++◌ frame_prefix) (append_assoc ys (y ∷ []) pad))
      ∙ ap strip_return (sym e)
]
  where
    pad : Bytes
    pad = replicate (513 - length (frame_prefix ++ body)) 0

pub end_of_line-Holds :
    (s : LineState) (t : Transport) (l : Bytes) → Holds s t l → end_of_line true s t ≡ line_events l
unfolding end_of_line line_events emit
end_of_line-Holds seeking_prefix t l h =
    sym (
      ap (body_events l) (ap (λ p. strip_prefix p l) h.begins ∙ strip_prefix_short l h.rest h.next))
end_of_line-Holds collecting_frame t l h =
    rw (found, short)
      (ap (λ p. record { kind = frame; payload = p } ∷ [])
        (frame_payload-body t h.body (omega (arith, h.held, size)) (omega (arith, h.within, size))
          (h.stored ∙ ap filled h.begins)))
  where
    found : strip_prefix frame_prefix l ≡ some h.body
    found = ap (strip_prefix frame_prefix) h.begins ∙ strip_prefix-append frame_prefix h.body

    size : length l ≡ 8 + length h.body
    size = omega (arith, ap length h.begins, length-append frame_prefix h.body)

    short : leb (length l) 512 ≡ true
    short = ground (arith, h.within)
end_of_line-Holds ignoring_line t l h =
    sym (ap (body_events l) (ap (strip_prefix frame_prefix) (sym (append-nil l)) ∙ h []))
end_of_line-Holds discarding_frame t l h = rw (found, long)
  where
    found : strip_prefix frame_prefix l ≡ some h.body
    found = ap (strip_prefix frame_prefix) h.begins ∙ strip_prefix-append frame_prefix h.body

    long : leb (length l) 512 ≡ false
    long = ground (arith, h.beyond)
