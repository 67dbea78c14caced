-- ===== src/PairingSpec/Torn.antt =====
-- A snapshot that is taken while another task publishes.
use s3_hidbot.Common.{
  ℕ, zero, suc, ◌+◌, ◌*◌, ◌/◌, ◌^◌, ◌%◌, ◌≤◌, ◌<◌, ◌≡◌, refl, sym, ap, ◌∙◌, true, false, ◌==◌, List,
  [], ◌∷◌, ◌++◌, arith, length, take, if_holds, if◌then◌else◌,
}
use s3_hidbot.BleLifecycle.{has}
use s3_hidbot.BlePairing.{
  Publication, Store, StateMachine, Snapshot, stores_of, store, store_all, publish, read_attempts,
  snapshot, own_snapshot,
}

-- The stores of publications one after the other.
abbrev pub trace : List Publication → List Store
trace [] = []
trace (p ∷ publications) = stores_of p ++ trace publications

unfoldable pub publish_all : List Publication → StateMachine → StateMachine
publish_all [] m = m
publish_all (p ∷ publications) m = publish_all publications (publish p m)

-- The members after this many of the stores.
abbrev pub after : ℕ → List Publication → StateMachine → StateMachine
after count publications m = store_all (take count (trace publications)) m

-- The sequence number after this many stores.
abbrev number_after : ℕ → ℕ → ℕ
number_after count sequence =
    (sequence + 2 * (count / 8) + (if count % 8 == 0 then 0 else 1)) % 2 ^ 32

pub publish-sequence :
    (p : Publication) (m : StateMachine)
    → (publish p m).sequence ≡ ((m.sequence + 1) % 2 ^ 32 + 1) % 2 ^ 32
unfolding publish store_all store
publish-sequence p m = refl

after-publish :
    (p : Publication) (publications : List Publication) (m : StateMachine) (count : ℕ)
    → after (suc (suc (suc (suc (suc (suc (suc (suc count)))))))) (p ∷ publications) m
      ≡ after count publications (publish p m)
unfolding publish store_all take
after-publish p publications m count = refl

publish-bounded : (p : Publication) (m : StateMachine) → (publish p m).sequence < 2 ^ 32
publish-bounded p m = rw (publish-sequence p m) (omega arith)

eight_later :
    (count sequence : ℕ)
    → sequence < 2 ^ 32
    → number_after count (((sequence + 1) % 2 ^ 32 + 1) % 2 ^ 32)
      ≡ number_after (suc (suc (suc (suc (suc (suc (suc (suc count)))))))) sequence
eight_later count sequence b = ground arith

after-sequence :
    (publications : List Publication) (count : ℕ) (m : StateMachine)
    → count ≤ 8 * length publications
    → m.sequence < 2 ^ 32
    → (after count publications m).sequence ≡ number_after count m.sequence
unfolding store_all store take
after-sequence [] zero m h b = omega arith
after-sequence [] (suc count) m h b = absurd (omega arith)
after-sequence (p ∷ publications) zero m h b = omega arith
after-sequence (p ∷ publications) (suc zero) m h b = omega arith
after-sequence (p ∷ publications) (suc (suc zero)) m h b = omega arith
after-sequence (p ∷ publications) (suc (suc (suc zero))) m h b = omega arith
after-sequence (p ∷ publications) (suc (suc (suc (suc zero)))) m h b = omega arith
after-sequence (p ∷ publications) (suc (suc (suc (suc (suc zero))))) m h b = omega arith
after-sequence (p ∷ publications) (suc (suc (suc (suc (suc (suc zero)))))) m h b = omega arith
after-sequence (p ∷ publications) (suc (suc (suc (suc (suc (suc (suc zero))))))) m h b = omega arith
after-sequence (p ∷ publications) (suc (suc (suc (suc (suc (suc (suc (suc count)))))))) m h b =
    let later =
      after-sequence publications count (publish p m) (omega arith) (publish-bounded p m) in
    ap (λ (x : StateMachine). x.sequence) (after-publish p publications m count)
    ∙ later
    ∙ rw (publish-sequence p m) (eight_later count m.sequence b)

after-whole :
    (publications : List Publication) (n : ℕ) (m : StateMachine)
    → n ≤ length publications
    → after (8 * n) publications m ≡ publish_all (take n publications) m
unfolding publish_all take store_all
after-whole publications zero m h = refl
after-whole [] (suc n) m h = absurd (omega arith)
after-whole (p ∷ publications) (suc n) m h =
    let eight : 8 * suc n ≡ suc (suc (suc (suc (suc (suc (suc (suc (8 * n)))))))) = omega arith in
    ap (λ count. after count (p ∷ publications) m) eight
    ∙ after-publish p publications m (8 * n)
    ∙ after-whole publications n (publish p m) (omega arith)

-- Two loads of the same even number are of the same whole publications.
same_moment :
    (first second sequence limit : ℕ)
    → sequence % 2 ≡ 0
    → first ≤ second
    → second ≤ 8 * limit
    → 2 * limit < 2 ^ 32
    → number_after first sequence % 2 ≡ 0
    → number_after first sequence ≡ number_after second sequence
    → (first ≡ second) × (first ≡ 8 * (first / 8))
same_moment first second sequence limit e l m b p q = ground arith

-- The snapshot of members that nobody changes.
abbrev pub still : StateMachine → Snapshot
still m = record {
  coherent = true;
  live_state = m.live_state;
  last_result = m.last_result;
  generation = m.generation;
  connection_handle = m.connection_handle;
  pairing_id = m.pairing_id;
  pairing_active = has m.flags 0;
  input_consumed = has m.flags 1;
  id_exhausted = has m.flags 2;
}

pub own_snapshot-still : (m : StateMachine) → m.sequence % 2 ≡ 0 → own_snapshot m ≡ still m
unfolding snapshot read_attempts
own_snapshot-still m e =
    let even : (m.sequence % 2 == 1) ≡ false = ground arith in
    let same : (m.sequence == m.sequence) ≡ true = ground arith in rw (even, same) refl

-- A snapshot is that of the first `n` publications, all and only whose stores were done at a moment.
pub record IsWhole (publications : List Publication) (m : StateMachine) (done : ℕ → ℕ) (load : ℕ)
    (s : Snapshot) : Type 0 where
  pub moment : ℕ
  pub n : ℕ
  pub later : load ≤ moment
  pub stored : done moment ≡ 8 * n
  pub counted : n ≤ length publications
  pub shown : s ≡ own_snapshot (publish_all (take n publications) m)

-- What the loads see: at each, some number of stores are done, and never fewer than before.
module _ (publications : List Publication) (m : StateMachine) (even : m.sequence % 2 ≡ 0)
    (bounded : m.sequence < 2 ^ 32) (few : 2 * length publications < 2 ^ 32) (done : ℕ → ℕ)
    (ordered : (i j : ℕ) → i ≤ j → done i ≤ done j)
    (within : (i : ℕ) → done i ≤ 8 * length publications) where
  abbrev seen : ℕ → StateMachine
  seen load = after (done load) publications m

  -- A snapshot's attempt whose two loads of the sequence number agree.
  agreed :
      (load : ℕ)
      → (seen load).sequence % 2 ≡ 0
      → (seen load).sequence ≡ (seen (load + 7)).sequence
      → (n : ℕ) × (n ≤ length publications) × (done load ≡ 8 * n) × (done (load + 7) ≡ 8 * n)
  agreed load p q =
      let first = after-sequence publications (done load) m (within load) bounded in
      let second = after-sequence publications (done (load + 7)) m (within (load + 7)) bounded in
      let (same, whole) =
        same_moment (done load) (done (load + 7)) m.sequence (length publications) even
          (ordered load (load + 7) (omega arith)) (within (load + 7)) few (rw (← first) p)
          (sym first ∙ q ∙ second) in
      (done load / 8, omega (arith, within load), whole, sym same ∙ whole)

  between :
      (load i n : ℕ)
      → i ≤ 7
      → done load ≡ 8 * n
      → done (load + 7) ≡ 8 * n
      → n ≤ length publications
      → seen (load + i) ≡ publish_all (take n publications) m
  between load i n h p q b =
      let low = ordered load (load + i) (omega arith) in
      let high = ordered (load + i) (load + 7) (omega arith) in
      let whole : done (load + i) ≡ 8 * n = omega (arith, low, high) in
      ap (λ count. after count publications m) whole ∙ after-whole publications n m b

  published-even :
      (n : ℕ) → n ≤ length publications → (publish_all (take n publications) m).sequence % 2 ≡ 0
  published-even n b =
      let whole = after-whole publications n m b in
      let counted = after-sequence publications (8 * n) m (omega arith) bounded in
      rw (← whole, counted) (ground (arith, even))

  -- The loads of an attempt that agrees.
  taken : ℕ → Snapshot
  taken load = record {
    coherent = true;
    live_state = (seen (load + 4)).live_state;
    last_result = (seen (load + 5)).last_result;
    generation = (seen (load + 1)).generation;
    connection_handle = (seen (load + 2)).connection_handle;
    pairing_id = (seen (load + 3)).pairing_id;
    pairing_active = has (seen (load + 6)).flags 0;
    input_consumed = has (seen (load + 6)).flags 1;
    id_exhausted = has (seen (load + 6)).flags 2;
  }

  taken-still :
      (load n : ℕ)
      → done load ≡ 8 * n
      → done (load + 7) ≡ 8 * n
      → n ≤ length publications
      → taken load ≡ still (publish_all (take n publications) m)
  unfolding taken
  taken-still load n p q b =
      rw
        (
          between load 1 n (omega arith) p q b,
          between load 2 n (omega arith) p q b,
          between load 3 n (omega arith) p q b,
          between load 4 n (omega arith) p q b,
          between load 5 n (omega arith) p q b,
          between load 6 n (omega arith) p q b,
        )
        refl

  taken-IsWhole :
      (load : ℕ)
      → (seen load).sequence % 2 ≡ 0
      → (seen load).sequence ≡ (seen (load + 7)).sequence
      → IsWhole publications m done load (taken load)
  taken-IsWhole load e q =
      let (n, b, p, p') = agreed load e q in
      let quiet = own_snapshot-still (publish_all (take n publications) m) (published-even n b) in
      record {
        moment = load;
        n = n;
        later = omega arith;
        stored = p;
        counted = b;
        shown = taken-still load n p p' b ∙ sym quiet;
      }

  later-IsWhole :
      (load load' : ℕ) (s : Snapshot)
      → load ≤ load'
      → IsWhole publications m done load' s
      → IsWhole publications m done load s
  later-IsWhole load load' s l w = record {
    moment = w.moment;
    n = w.n;
    later = omega (arith, w.later);
    stored = w.stored;
    counted = w.counted;
    shown = w.shown;
  }

  read_attempts-IsWhole :
      (attempts load : ℕ)
      → (read_attempts attempts load seen).coherent ≡ true
      → IsWhole publications m done load (read_attempts attempts load seen)
  unfolding read_attempts taken
  read_attempts-IsWhole zero load = λ h. cc h
  read_attempts-IsWhole (suc attempts) load =
      let Told : Snapshot → Type 0 = λ s. s.coherent ≡ true → IsWhole publications m done load s in
      if_holds Told ((seen load).sequence % 2 == 1) _ _
        (λ odd h.
          later-IsWhole load (load + 1) _ (omega arith)
            (read_attempts-IsWhole attempts (load + 1) h))
        (λ even'.
          if_holds Told ((seen load).sequence == (seen (load + 7)).sequence) _ _
            (λ same h. taken-IsWhole load (ground arith) (ground arith))
            (λ other h.
              later-IsWhole load (load + 8) _ (omega arith)
                (read_attempts-IsWhole attempts (load + 8) h)))

-- While one task publishes, every snapshot of another that is coherent is that of whole publications:
-- of the first `n`, where at a moment of the snapshot exactly their stores were done. The loads of the
-- snapshot fall anywhere between the stores, in order; the sequence number is even before the first
-- publication, and fewer than 2 ^ 31 publications are made.
pub coherent-IsWhole :
    (publications : List Publication) (m : StateMachine) (done : ℕ → ℕ)
    → m.sequence % 2 ≡ 0
    → m.sequence < 2 ^ 32
    → 2 * length publications < 2 ^ 32
    → ((i j : ℕ) → i ≤ j → done i ≤ done j)
    → ((i : ℕ) → done i ≤ 8 * length publications)
    → (snapshot (λ i. after (done i) publications m)).coherent ≡ true
    → IsWhole publications m done 0 (snapshot (λ i. after (done i) publications m))
unfolding snapshot
coherent-IsWhole publications m done even bounded few ordered within h =
    read_attempts-IsWhole publications m even bounded few done ordered within 3 0 h
