-- ===== src/SequenceSpec/Plan.antt =====
-- The whole parser against its grammar: limits, duration and roles included.
use s3_hidbot.Common.{
  ℕ, ◌+◌, ◌≤◌, ◌<◌, ◌≡◌, ◌≢◌, ◌↔◌, refl, ap, sym, subst, ◌∙◌, false, Option-cases, inl, inr, List,
  [], ◌∷◌, some, none, arith, leb, length, if◌then◌else◌,
}
use s3_hidbot.HidSequence.{
  default_delay, wait, key_press, key_release, mouse_press, mouse_release, Operation, HidState,
  Plan, Draft, is_empty, is_last, delays, parse_tokens, duration_from, checked_duration, parse,
}
use s3_hidbot.SequenceSpec.Text.{print}
use s3_hidbot.SequenceSpec.Grammar.{
  IsPossible, roles_from, drafted, print-is_empty, parse_tokens-print,
}
use s3_hidbot.SequenceSpec.Sound.{Reads, parse_tokens-Reads}

-- The waits, and the default delay that is set when an operation is followed by another.
unfoldable pub scheduled : List Operation → ℕ → ℕ
scheduled [] delay = 0
scheduled (operation ∷ operations) delay = elim operation.kind [
  | default_delay ↦ scheduled operations operation.value
  | wait ↦ operation.value + scheduled operations delay
  | key_press ↦ (if is_last operations then 0 else delay) + scheduled operations delay
  | key_release ↦ (if is_last operations then 0 else delay) + scheduled operations delay
  | mouse_press ↦ (if is_last operations then 0 else delay) + scheduled operations delay
  | mouse_release ↦ (if is_last operations then 0 else delay) + scheduled operations delay
]

scheduled-delays :
    (operation : Operation) (operations : List Operation) (delay : ℕ)
    → let (more, delay') = delays operation (is_last operations) delay in
      scheduled (operation ∷ operations) delay ≡ more + scheduled operations delay'
unfolding scheduled
scheduled-delays operation operations delay = ground arith

-- The check after each operation is a check of the whole.
duration_from-scheduled :
    (operations : List Operation) (delay duration : ℕ)
    → duration ≤ 2500
    → duration_from operations delay duration ≡ (
        if leb (duration + scheduled operations delay) 2500
        then some (duration + scheduled operations delay)
        else none)
unfolding duration_from scheduled
duration_from-scheduled [] delay duration h = ground arith
duration_from-scheduled (operation ∷ operations) delay duration h =
    let (more, delay') = delays operation (is_last operations) delay in
    ground (
      arith,
      scheduled-delays operation operations delay,
      duration_from-scheduled operations delay' (duration + more),
    )

-- The texts of sequences, and the plan of each.
pub record IsSequence (code : List ℕ) (initial : HidState) (plan : Plan) : Type 0 where
  pub spelled : print plan.operations ≡ code
  pub not_empty : 1 ≤ length plan.operations
  pub bounded : length plan.operations ≤ 64
  pub short : length code ≤ 320
  pub possible : IsPossible plan.operations initial
  pub timed : plan.scheduled_duration_ms ≡ scheduled plan.operations 0
  pub in_time : plan.scheduled_duration_ms ≤ 2500
  pub starts : plan.initial_state ≡ initial
  pub roles : plan.required_roles ≡ roles_from plan.operations 0

abbrev empty_draft : Draft
empty_draft = record { operations = []; required_roles = 0 }

checked_duration-some :
    (initial : HidState) (draft : Draft)
    → scheduled draft.operations 0 ≤ 2500
    → checked_duration initial (some draft)
      ≡ some (record {
        operations = draft.operations;
        scheduled_duration_ms = scheduled draft.operations 0;
        initial_state = initial;
        required_roles = draft.required_roles;
      })
unfolding checked_duration
checked_duration-some initial draft h = ground (arith, duration_from-scheduled draft.operations 0 0)

checked_duration-inv :
    (initial : HidState) (draft : Draft) (plan : Plan)
    → checked_duration initial (some draft) ≡ some plan
    → (plan.operations ≡ draft.operations)
      × (plan.scheduled_duration_ms ≡ scheduled draft.operations 0)
      × (plan.scheduled_duration_ms ≤ 2500)
      × (plan.initial_state ≡ initial)
      × (plan.required_roles ≡ draft.required_roles)
unfolding checked_duration
checked_duration-inv initial draft plan h =
    ground (arith, duration_from-scheduled draft.operations 0 0)

code_tested :
    (code : List ℕ) (initial : HidState) (plan : Plan)
    → parse code initial ≡ some plan
    → (length code ≤ 320)
      × (checked_duration initial (parse_tokens 64 code initial empty_draft) ≡ some plan)
unfolding parse
code_tested code initial plan h = ground arith

parse-tested :
    (code : List ℕ) (initial : HidState)
    → is_empty code ≡ false
    → length code ≤ 320
    → parse code initial ≡ checked_duration initial (parse_tokens 64 code initial empty_draft)
unfolding parse
parse-tested code initial e h = ground arith

plan_of-IsSequence :
    (code : List ℕ) (initial : HidState) (plan : Plan) (draft : Draft)
    → length code ≤ 320
    → Reads 64 code initial empty_draft draft
    → checked_duration initial (some draft) ≡ some plan
    → IsSequence code initial plan
plan_of-IsSequence code initial plan draft s r h =
    let (o, d, b, i, k) = checked_duration-inv initial draft plan h in
    let read = ap (λ (x : Draft). x.operations) r.gathered in
    let all = o ∙ read in
    record {
      spelled = ap print all ∙ r.spelled;
      not_empty = rw all (omega arith);
      bounded = rw all (omega (arith, r.bounded));
      short = s;
      possible = rw all r.possible;
      timed = d ∙ ap (λ (l : List Operation). scheduled l 0) (sym o);
      in_time = b;
      starts = i;
      roles =
          k
          ∙ ap (λ (x : Draft). x.required_roles) r.gathered
          ∙ ap (λ (l : List Operation). roles_from l 0) (sym all);
    }

nothing_checked : (initial : HidState) (plan : Plan) → checked_duration initial none ≢ some plan
unfolding checked_duration
nothing_checked initial plan h = cc h

parse-IsSequence :
    (code : List ℕ) (initial : HidState) (plan : Plan)
    → parse code initial ≡ some plan
    → IsSequence code initial plan
parse-IsSequence code initial plan h =
    let (s, c) = code_tested code initial plan h in
    elim (Option-cases (parse_tokens 64 code initial empty_draft)) [
      | inl n ↦ elim (nothing_checked initial plan (rw n at c)) [ ]
      | inr (draft, e) ↦
          plan_of-IsSequence code initial plan draft s
            (parse_tokens-Reads 64 code initial empty_draft draft e) (rw e at c)
    ]

same_plan :
    (code : List ℕ) (initial : HidState) (plan : Plan)
    → IsSequence code initial plan
    → record {
      operations = plan.operations;
      scheduled_duration_ms = scheduled plan.operations 0;
      initial_state = initial;
      required_roles = roles_from plan.operations 0;
    }
      ≡ plan
same_plan code initial plan s = cc (s.timed, s.starts, s.roles)

few :
    (first : Operation) (rest operations : List Operation)
    → operations ≡ first ∷ rest
    → length operations ≤ 64
    → length rest < 64
few first rest operations e h = omega (arith, ap length e)

not_nil :
    (operations : List Operation)
    → 1 ≤ length operations
    → (first : Operation) × (rest : List Operation) × (operations ≡ first ∷ rest)
not_nil [] h = absurd (omega arith)
not_nil (first ∷ rest) h = (first, rest, refl)

IsSequence-parse_of :
    (code : List ℕ) (initial : HidState) (plan : Plan) (first : Operation) (rest : List Operation)
    → IsSequence code initial plan
    → plan.operations ≡ first ∷ rest
    → parse code initial ≡ some plan
IsSequence-parse_of code initial plan first rest s e =
    let written : print (first ∷ rest) ≡ code = ap print (sym e) ∙ s.spelled in
    let filled = subst (λ (l : List ℕ). is_empty l ≡ false) written (print-is_empty first rest) in
    let read =
      parse_tokens-print rest first 64 initial empty_draft
        (few first rest plan.operations e s.bounded)
        (subst (λ (l : List Operation). IsPossible l initial) e s.possible) in
    parse-tested code initial filled s.short
    ∙ ap (checked_duration initial)
        (ap (λ (l : List ℕ). parse_tokens 64 l initial empty_draft) (sym written) ∙ read)
    ∙ ap (λ (l : List Operation). checked_duration initial (some (drafted empty_draft l))) (sym e)
    ∙ checked_duration-some initial (drafted empty_draft plan.operations) (rw (← s.timed) s.in_time)
    ∙ ap some (same_plan code initial plan s)

-- A text is parsed to a plan exactly when it is the print of the plan's operations, which are 1 to 64
-- with at most 320 bytes of text, each with a possible value and possible one after the other from the
-- initial state; the plan's duration is the sum of the waits and of the default delays between the
-- operations, at most 2500 ms, its roles are those that the operations need, and its initial state is
-- the one given.
pub parse_iff :
    (code : List ℕ) (initial : HidState) (plan : Plan)
    → (parse code initial ≡ some plan) ↔ IsSequence code initial plan
parse_iff code initial plan = (
  parse-IsSequence code initial plan,
  λ s.
      let (first, rest, e) = not_nil plan.operations s.not_empty in
      IsSequence-parse_of code initial plan first rest s e,
)

-- Two texts with the same plan are the same text.
pub parse-injective :
    (code code' : List ℕ) (initial : HidState) (plan : Plan)
    → parse code initial ≡ some plan
    → parse code' initial ≡ some plan
    → code ≡ code'
parse-injective code code' initial plan h h' =
    sym (parse-IsSequence code initial plan h).spelled
    ∙ (parse-IsSequence code' initial plan h').spelled
