-- ===== src/Framing/Holds.antt =====
-- What the members of `Transport` hold when a part of a line has been read.
use s3_hidbot.Common.{
  ℕ, suc, ◌+◌, ◌-◌, ◌≤◌, ◌<◌, ◌≡◌, sym, ap, ap₂, subst, ◌∙◌, inl, inr, true, false, [], ◌∷◌, ◌++◌,
  append-nil, append_assoc, ltb, ◌==◌, ==_iff, Bool-cases, none, if◌then◌else◌, length, get_or, set,
  replicate, arith, length-append, set-append, get_or-append,
}
use s3_hidbot.Framing.{
  Bytes, LineState, seeking_prefix, collecting_frame, ignoring_line, discarding_frame, Transport,
  frame_prefix, extend_line,
}
use s3_hidbot.Framing.Lines.{strip_prefix, strip_prefix_differs}

-- The array after the bytes of a line have been stored.
unfoldable pub filled : Bytes → Bytes
filled l = l ++ replicate (513 - length l) 0

pub record Seeking (t : Transport) (l : Bytes) : Type 0 where
  pub next : ℕ
  pub rest : Bytes
  pub begins : frame_prefix ≡ l ++ next ∷ rest
  pub matched : t.prefix_match_length ≡ length l
  pub held : t.frame_length ≡ length l
  pub stored : t.storage ≡ filled l

pub record Collecting (t : Transport) (l : Bytes) : Type 0 where
  pub body : Bytes
  pub begins : l ≡ frame_prefix ++ body
  pub within : length l ≤ 512
  pub held : t.frame_length ≡ length l
  pub stored : t.storage ≡ filled l

pub record Discarding (l : Bytes) : Type 0 where
  pub body : Bytes
  pub begins : l ≡ frame_prefix ++ body
  pub beyond : 512 < length l

abbrev pub Ignoring : Bytes → Type 0
Ignoring l = (k : Bytes) → strip_prefix frame_prefix (l ++ k) ≡ none

abbrev pub Holds : LineState → Transport → Bytes → Type 0
Holds seeking_prefix t l = Seeking t l
Holds collecting_frame t l = Collecting t l
Holds ignoring_line t l = Ignoring l
Holds discarding_frame t l = Discarding l

length-concat : (l : Bytes) (b : ℕ) → length (l ++ b ∷ []) ≡ suc (length l)
length-concat l b = omega (arith, length-append l (b ∷ []))

-- Writing the next byte of a line into the array.
set-filled :
    (l : Bytes) (b : ℕ) → length l < 513 → set (filled l) (length l) b ≡ filled (l ++ b ∷ [])
unfolding filled replicate
set-filled l b h =
    ap (λ n. set (l ++ replicate n 0) (length l) b) one_less
    ∙ set-append l (replicate left 0) 0 b
    ∙ sym (append_assoc l (b ∷ []) (replicate left 0))
  where
    left : ℕ
    left = 513 - length (l ++ b ∷ [])

    one_less : 513 - length l ≡ suc left
    one_less = omega (arith, length-concat l b)

store :
    (t : Transport) (l : Bytes) (b : ℕ)
    → length l < 513
    → t.frame_length ≡ length l
    → t.storage ≡ filled l
    → (t.frame_length + 1 ≡ length (l ++ b ∷ []))
      × (set t.storage t.frame_length b ≡ filled (l ++ b ∷ []))
store t l b h n s =
    (omega (arith, length-concat l b), ap₂ (λ a i. set a i b) s n ∙ set-filled l b h)

extend-Collecting :
    (t : Transport) (l : Bytes) (b : ℕ)
    → t.line_state ≡ collecting_frame
    → Collecting t l
    → (let u = extend_line collecting_frame t b in Holds u.line_state u (l ++ b ∷ []))
unfolding extend_line
extend-Collecting t l b s h = elim (Bool-cases (ltb t.frame_length 512)) [
  | inl e ↦
      let fits : length l < 512 = ground arith in
      let (held, stored) = store t l b (omega arith) h.held h.stored in
      rw e (
        subst
          (λ u.
            Holds u
              (record t {
                frame_length = t.frame_length + 1;
                storage = set t.storage t.frame_length b;
              })
              (l ++ b ∷ []))
          (sym s)
          (record {
            body = h.body ++ b ∷ [];
            begins = longer;
            within = omega (arith, length-concat l b);
            held = held;
            stored = stored;
          }))
  | inr e ↦
      let full : 512 ≤ length l = ground arith in
      rw e (record {
        body = h.body ++ b ∷ [];
        begins = longer;
        beyond = omega (arith, length-concat l b);
      })
]
  where
    longer : l ++ b ∷ [] ≡ frame_prefix ++ (h.body ++ b ∷ [])
    longer = ap (λ k. k ++ b ∷ []) h.begins ∙ append_assoc frame_prefix h.body (b ∷ [])

length-begins :
    (l rest : Bytes) (c : ℕ) → frame_prefix ≡ l ++ c ∷ rest → length l + 1 + length rest ≡ 8
length-begins l rest c e = omega (arith, ap length e, length-append l (c ∷ rest))

-- The prefix is complete, or its next character is known.
seek_on :
    (t : Transport) (l rest : Bytes) (b : ℕ)
    → frame_prefix ≡ (l ++ b ∷ []) ++ rest
    → t.prefix_match_length ≡ length l
    → (t.frame_length + 1 ≡ length (l ++ b ∷ []))
      × (set t.storage t.frame_length b ≡ filled (l ++ b ∷ []))
    → (let s = if t.prefix_match_length + 1 == 8 then collecting_frame else seeking_prefix in
        Holds s
          (record t {
            storage = set t.storage t.frame_length b;
            frame_length = t.frame_length + 1;
            prefix_match_length = t.prefix_match_length + 1;
            line_state = s;
          })
          (l ++ b ∷ []))
seek_on t l [] b e m (held, stored) = rw done (record {
  body = [];
  begins = sym (append-nil (l ++ b ∷ [])) ∙ sym e;
  within = omega (arith, long);
  held = held;
  stored = stored;
})
  where
    long : length (l ++ b ∷ []) ≡ 8
    long = omega (arith, ap length e, length-append (l ++ b ∷ []) [])

    done : t.prefix_match_length + 1 == 8 ≡ true
    done = ground (arith, long, length-concat l b)
seek_on t l (d ∷ rest) b e m (held, stored) = rw short (record {
  next = d;
  rest = rest;
  begins = e;
  matched = omega (arith, length-concat l b);
  held = held;
  stored = stored;
})
  where
    long : length (l ++ b ∷ []) + length (d ∷ rest) ≡ 8
    long = omega (arith, ap length e, length-append (l ++ b ∷ []) (d ∷ rest))

    short : t.prefix_match_length + 1 == 8 ≡ false
    short = ground (arith, long, length-concat l b)

extend-Seeking :
    (t : Transport) (l : Bytes) (b : ℕ)
    → Seeking t l
    → (let u = extend_line seeking_prefix t b in Holds u.line_state u (l ++ b ∷ []))
unfolding extend_line
extend-Seeking t l b h = elim (Bool-cases (b == get_or frame_prefix t.prefix_match_length 0)) [
  | inl e ↦
      let same : b ≡ h.next = (==_iff b _).0 e ∙ reads in
      rw e (
        seek_on t l h.rest b
          (h.begins ∙ ap (λ x. l ++ x ∷ h.rest) (sym same) ∙ sym (append_assoc l (b ∷ []) h.rest))
          h.matched
          (store t l b (omega (arith, length-begins l h.rest h.next h.begins)) h.held h.stored))
  | inr e ↦ rw e (λ k.
      ap (strip_prefix frame_prefix) (append_assoc l (b ∷ []) k)
      ∙ ap (λ p. strip_prefix p (l ++ b ∷ k)) h.begins
      ∙ strip_prefix_differs l h.rest k h.next b (subst (λ x. b == x ≡ false) reads e))
]
  where
    reads : get_or frame_prefix t.prefix_match_length 0 ≡ h.next
    reads = ap₂ (λ p i. get_or p i 0) h.begins h.matched ∙ get_or-append l h.rest h.next 0

-- Any byte but the newline extends the line.
pub extend_line-Holds :
    (s : LineState) (t : Transport) (l : Bytes) (b : ℕ)
    → t.line_state ≡ s
    → Holds s t l
    → (let u = extend_line s t b in Holds u.line_state u (l ++ b ∷ []))
unfolding extend_line
extend_line-Holds seeking_prefix t l b e h = extend-Seeking t l b h
extend_line-Holds collecting_frame t l b e h = extend-Collecting t l b e h
extend_line-Holds ignoring_line t l b e h =
    subst (λ s. Holds s t (l ++ b ∷ [])) (sym e)
      (λ k. ap (strip_prefix frame_prefix) (append_assoc l (b ∷ []) k) ∙ h (b ∷ k))
extend_line-Holds discarding_frame t l b e h =
    subst (λ s. Holds s t (l ++ b ∷ [])) (sym e)
      (record {
        body = h.body ++ b ∷ [];
        begins = ap (λ k. k ++ b ∷ []) h.begins ∙ append_assoc frame_prefix h.body (b ∷ []);
        beyond = omega (arith, h.beyond, length-concat l b);
      })
