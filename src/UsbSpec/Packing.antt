-- ===== src/UsbSpec/Packing.antt =====
-- The state byte holds four flags and an enumerator; each update of the byte changes the parts that
-- it is meant to change.
use s3_hidbot.Common.{ℕ, ◌*◌, ◌+◌, ◌≡◌, Bool, true, false, if◌then◌else◌, arith, bit_and, bit_or}
use s3_hidbot.UsbLifecycle.{
  ObservedState, unnamed, code, has, observed_of, with_observed, set_bits, clear_bits, encode, byte,
}

abbrev pub flag : Bool → ℕ → ℕ
flag b n = if b then n else 0

unfoldable pub pack : Bool → Bool → Bool → Bool → ObservedState → ℕ
pack exposed safety uncertain recovery observed =
    flag exposed 1 + flag safety 2 + flag uncertain 4 + flag recovery 8 + code observed * 16

abbrev low : Bool → Bool → Bool → Bool → ℕ
low exposed safety uncertain recovery =
    flag exposed 1 + flag safety 2 + flag uncertain 4 + flag recovery 8

-- An enumerator of the source.
abbrev pub IsNamed : ObservedState → Type 0
IsNamed (unnamed n) = ⊥
IsNamed _ = Unit {0}

module _ (e s u r : Bool) where
  pub has-desired : (o : ObservedState) → IsNamed o → has (pack e s u r o) 1 ≡ e
  unfolding has pack
  has-desired (unnamed n) h = absurd h
  has-desired _ h = ground arith

  pub has-safety : (o : ObservedState) → IsNamed o → has (pack e s u r o) 2 ≡ s
  unfolding has pack
  has-safety (unnamed n) h = absurd h
  has-safety _ h = ground arith

  pub has-uncertain : (o : ObservedState) → IsNamed o → has (pack e s u r o) 4 ≡ u
  unfolding has pack
  has-uncertain (unnamed n) h = absurd h
  has-uncertain _ h = ground arith

  pub has-recovery : (o : ObservedState) → IsNamed o → has (pack e s u r o) 8 ≡ r
  unfolding has pack
  has-recovery (unnamed n) h = absurd h
  has-recovery _ h = ground arith

  pub observed_of-pack : (o : ObservedState) → IsNamed o → observed_of (pack e s u r o) ≡ o
  unfolding observed_of pack
  observed_of-pack (unnamed n) h = absurd h
  observed_of-pack _ h = ground arith

  low_bits : (o : ObservedState) → IsNamed o → bit_and (pack e s u r o) 15 ≡ low e s u r
  unfolding pack
  low_bits (unnamed n) h = absurd h
  low_bits _ h = ground arith

  or-low : (p : ObservedState) → IsNamed p → byte (bit_or (low e s u r) (encode p)) ≡ pack e s u r p
  unfolding pack encode
  or-low (unnamed n) h = absurd h
  or-low _ h = ground arith

  pub with_observed-pack :
      (o p : ObservedState)
      → IsNamed o
      → IsNamed p
      → with_observed (pack e s u r o) p ≡ pack e s u r p
  unfolding with_observed
  with_observed-pack o p h k = rw (low_bits o h) (or-low p k)

  pub byte-pack : (o : ObservedState) → IsNamed o → byte (pack e s u r o) ≡ pack e s u r o
  unfolding pack
  byte-pack (unnamed n) h = absurd h
  byte-pack _ h = ground arith

  pub set-desired :
      (o : ObservedState) → IsNamed o → set_bits (pack e s u r o) 1 ≡ pack true s u r o
  unfolding set_bits pack
  set-desired (unnamed n) h = absurd h
  set-desired _ h = ground arith

  pub set-safety : (o : ObservedState) → IsNamed o → set_bits (pack e s u r o) 2 ≡ pack e true u r o
  unfolding set_bits pack
  set-safety (unnamed n) h = absurd h
  set-safety _ h = ground arith

  pub set-uncertain :
      (o : ObservedState) → IsNamed o → set_bits (pack e s u r o) 6 ≡ pack e true true r o
  unfolding set_bits pack
  set-uncertain (unnamed n) h = absurd h
  set-uncertain _ h = ground arith

  pub set-recovery :
      (o : ObservedState) → IsNamed o → set_bits (pack e s u r o) 8 ≡ pack e s u true o
  unfolding set_bits pack
  set-recovery (unnamed n) h = absurd h
  set-recovery _ h = ground arith

  pub clear-desired :
      (o : ObservedState) → IsNamed o → clear_bits (pack e s u r o) 1 ≡ pack false s u r o
  unfolding clear_bits pack
  clear-desired (unnamed n) h = absurd h
  clear-desired _ h = ground arith

  pub clear-safety :
      (o : ObservedState) → IsNamed o → clear_bits (pack e s u r o) 2 ≡ pack e false u r o
  unfolding clear_bits pack
  clear-safety (unnamed n) h = absurd h
  clear-safety _ h = ground arith

  pub clear-uncertain :
      (o : ObservedState) → IsNamed o → clear_bits (pack e s u r o) 6 ≡ pack e false false r o
  unfolding clear_bits pack
  clear-uncertain (unnamed n) h = absurd h
  clear-uncertain _ h = ground arith

  pub clear-recovery :
      (o : ObservedState) → IsNamed o → clear_bits (pack e s u r o) 8 ≡ pack e s u false o
  unfolding clear_bits pack
  clear-recovery (unnamed n) h = absurd h
  clear-recovery _ h = ground arith

pub ruleset packing = (
  has-desired, has-safety, has-uncertain, has-recovery, observed_of-pack, with_observed-pack,
  byte-pack, set-desired, set-safety, set-uncertain, set-recovery, clear-desired, clear-safety,
  clear-uncertain, clear-recovery,
)
