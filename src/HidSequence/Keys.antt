-- ===== src/HidSequence/Keys.antt =====
-- The report state: pressed modifiers, mouse buttons and keys, and what an operation does to it.
use s3_hidbot.Common.{
  ℕ, zero, suc, ◌+◌, ◌-◌, ◌^◌, ◌%◌, Bool, true, false, not, ◌&&◌, ◌||◌, ◌==◌, ltb, leb, List, [],
  ◌∷◌, get_or, set, if◌then◌else◌, bit_and, bit_or, bit_xor,
}
use s3_hidbot.HidSequence.Types.{
  default_delay, wait, key_press, key_release, mouse_press, mouse_release, Operation, HidState,
}

abbrev pub ordinary_usage : ℕ → Bool
ordinary_usage value = (leb 4 value && leb value 164) || (leb 176 value && leb value 221)

abbrev pub modifier_usage : ℕ → Bool
modifier_usage value = leb 224 value && leb value 231

-- The array's size.
abbrev pub key_slots : ℕ
key_slots = 6

-- The first index that holds the value, or the size.
unfoldable pub index_of : List ℕ → ℕ → ℕ
index_of [] value = 0
index_of (key ∷ keys) value =
    let later = index_of keys value in if key == value then 0 else suc later

-- `while (empty > 0 && keycodes[empty - 1] > usage) …`, and the store behind it.
unfoldable pub shift_in : ℕ → List ℕ → ℕ → List ℕ
shift_in zero keys usage = set keys 0 usage
shift_in (suc empty) keys usage =
    let shifted = shift_in empty (set keys (suc empty) (get_or keys empty 0)) usage in
    if ltb usage (get_or keys empty 0) then shifted else set keys (suc empty) usage

-- `for (; index + 1 < size; ++index) keycodes[index] = keycodes[index + 1]`, on the rounds left.
unfoldable pub shift_down : ℕ → ℕ → List ℕ → List ℕ
shift_down zero index keys = keys
shift_down (suc rounds) index keys =
    shift_down rounds (index + 1) (set keys index (get_or keys (index + 1) 0))

-- The new keys, and false when there is no room.
unfoldable pub press_key : List ℕ → ℕ → List ℕ × Bool
press_key keys usage =
    if not (index_of keys usage == key_slots)
    then (keys, true)
    else if index_of keys 0 == key_slots
    then (keys, false)
    else (shift_in (index_of keys 0) keys (usage % 256), true)

unfoldable pub release_key : List ℕ → ℕ → List ℕ
release_key keys usage =
    if index_of keys usage == key_slots
    then keys
    else set (shift_down (key_slots - 1 - index_of keys usage) (index_of keys usage) keys)
        (key_slots - 1) 0

abbrev pub set_mask : ℕ → ℕ → ℕ
set_mask state bit = bit_or state bit

-- `state & static_cast<std::uint8_t>(~bit)`.
abbrev pub clear_mask : ℕ → ℕ → ℕ
clear_mask state bit = bit_and state (bit_xor 255 (bit % 256))

-- The branch of the keyboard, where `press` says which of its two operations it is.
unfoldable pub apply_key : Bool → ℕ → HidState → HidState × Bool
apply_key press usage state =
    if modifier_usage usage
    then (
      record state {
        modifiers =
            (let bit = 2 ^ (usage - 224) in
              if press then set_mask state.modifiers bit else clear_mask state.modifiers bit);
      },
      true,
    )
    else if press
    then (let (keys, room) = press_key state.keycodes usage in
        (record state { keycodes = keys }, room))
    else (record state { keycodes = release_key state.keycodes usage }, true)

unfoldable pub apply_mouse : Bool → ℕ → HidState → HidState × Bool
apply_mouse press value state = (
  record state {
    mouse_buttons =
        if press
        then set_mask state.mouse_buttons (value % 256)
        else clear_mask state.mouse_buttons value;
  },
  true,
)

-- The new state, and whether the transition is possible.
unfoldable pub apply_transition : Operation → HidState → HidState × Bool
apply_transition operation state = elim operation.kind [
  | mouse_press ↦ apply_mouse true operation.value state
  | mouse_release ↦ apply_mouse false operation.value state
  | key_press ↦ apply_key true operation.value state
  | key_release ↦ apply_key false operation.value state
  | default_delay ↦ (state, true)
  | wait ↦ (state, true)
]
