-- ===== src/UsbLifecycle/Bits.antt =====
-- The packed state byte of usb_lifecycle: its masks, and the updates that the methods make of it.
use s3_hidbot.Common.{
  ℕ, ◌*◌, ◌/◌, ◌%◌, ◌^◌, ◌-◌, Bool, not, ◌==◌, if◌then◌else◌, bit_and, bit_or, bit_xor,
}
use s3_hidbot.UsbLifecycle.Types.{
  ObservedState, driver_not_installed, disconnected, attaching, mounted, suspended, detaching,
  unnamed,
}

abbrev pub desired_bit : ℕ
desired_bit = 1

abbrev pub safety_pending_bit : ℕ
safety_pending_bit = 2

abbrev pub uncertain_bit : ℕ
uncertain_bit = 4

abbrev pub recovery_required_bit : ℕ
recovery_required_bit = 8

abbrev pub observed_shift : ℕ
observed_shift = 4

-- `static_cast<std::uint8_t>`.
abbrev pub byte : ℕ → ℕ
byte x = x % 256

-- `~mask`, cut to a byte.
abbrev pub complement : ℕ → ℕ
complement mask = bit_xor 255 mask

-- The number of an enumerator.
abbrev pub code : ObservedState → ℕ
code driver_not_installed = 0
code disconnected = 1
code attaching = 2
code mounted = 3
code suspended = 4
code detaching = 5
code (unnamed n) = n

unfoldable pub encode : ObservedState → ℕ
encode state = byte (code state * 2 ^ observed_shift)

-- `static_cast<ObservedState>`.
abbrev pub to_observed : ℕ → ObservedState
to_observed n =
    if n == 0
    then driver_not_installed
    else if n == 1
    then disconnected
    else if n == 2
    then attaching
    else if n == 3
    then mounted
    else if n == 4
    then suspended
    else if n == 5
    then detaching
    else unnamed n

-- `(state & mask) != 0`.
unfoldable pub has : ℕ → ℕ → Bool
has state mask = not (bit_and state mask == 0)

unfoldable pub observed_of : ℕ → ObservedState
observed_of state = to_observed (state / 2 ^ observed_shift)

-- The low flags kept, the observed state replaced.
unfoldable pub with_observed : ℕ → ObservedState → ℕ
unfolding encode
with_observed state observed =
    byte (bit_or (bit_and state (2 ^ observed_shift - 1)) (encode observed))

-- `fetch_or(mask)` and `fetch_and(~mask)` on the byte.
unfoldable pub set_bits : ℕ → ℕ → ℕ
set_bits state mask = bit_or state mask

unfoldable pub clear_bits : ℕ → ℕ → ℕ
clear_bits state mask = bit_and state (complement mask)
