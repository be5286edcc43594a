-- ===== src/Dev/Keyboard.antt =====
-- The keyboard driver of kernel/dev/keyboard.c: a key code read from the port, in the prefix and
-- modifier state, gives an action for the terminal.
use wjos.Common.{
  ℕ, ◌+◌, ◌-◌, ◌%◌, ◌<◌, ◌≡◌, refl, ◌≢◌, Bool, true, false, not, ◌&&◌, ◌||◌, List, [], ◌∷◌, arith,
  ltb, leb, ◌==◌, if◌then◌else◌, check_below, check_below_sound, ap,
}

-- A key's code, what it gives alone and what with shift; `INV` is 0, and so is a key that is missing.
abbrev pub map_table : List (ℕ × ℕ × ℕ)
map_table =
    (0x02, 49, 33)
    ∷ (0x03, 50, 64)
    ∷ (0x04, 51, 35)
    ∷ (0x05, 52, 36)
    ∷ (0x06, 53, 37)
    ∷ (0x07, 54, 94)
    ∷ (0x08, 55, 38)
    ∷ (0x09, 56, 42)
    ∷ (0x0A, 57, 40)
    ∷ (0x0B, 48, 41)
    ∷ (0x0C, 45, 95)
    ∷ (0x0D, 61, 43)
    ∷ (0x0E, 127, 127)
    ∷ (0x0F, 9, 9)
    ∷ (0x10, 113, 81)
    ∷ (0x11, 119, 87)
    ∷ (0x12, 101, 69)
    ∷ (0x13, 114, 82)
    ∷ (0x14, 116, 84)
    ∷ (0x15, 121, 89)
    ∷ (0x16, 117, 85)
    ∷ (0x17, 105, 73)
    ∷ (0x18, 111, 79)
    ∷ (0x19, 112, 80)
    ∷ (0x1A, 91, 123)
    ∷ (0x1B, 93, 125)
    ∷ (0x1C, 10, 10)
    ∷ (0x1E, 97, 65)
    ∷ (0x1F, 115, 66)
    ∷ (0x20, 100, 68)
    ∷ (0x21, 102, 70)
    ∷ (0x22, 103, 71)
    ∷ (0x23, 104, 72)
    ∷ (0x24, 106, 74)
    ∷ (0x25, 107, 75)
    ∷ (0x26, 108, 76)
    ∷ (0x27, 59, 58)
    ∷ (0x28, 39, 34)
    ∷ (0x29, 96, 126)
    ∷ (0x2B, 92, 124)
    ∷ (0x2C, 122, 90)
    ∷ (0x2D, 120, 88)
    ∷ (0x2E, 99, 67)
    ∷ (0x2F, 118, 86)
    ∷ (0x30, 98, 66)
    ∷ (0x31, 110, 78)
    ∷ (0x32, 109, 77)
    ∷ (0x33, 44, 60)
    ∷ (0x34, 46, 62)
    ∷ (0x35, 47, 63)
    ∷ (0x39, 32, 32)
    ∷ (0x47, 55, 0)
    ∷ (0x48, 56, 0)
    ∷ (0x49, 57, 0)
    ∷ (0x4A, 45, 45)
    ∷ (0x4B, 52, 0)
    ∷ (0x4C, 53, 0)
    ∷ (0x4D, 54, 0)
    ∷ (0x4E, 43, 43)
    ∷ (0x4F, 49, 0)
    ∷ (0x50, 50, 0)
    ∷ (0x51, 51, 0)
    ∷ (0x52, 48, 0)
    ∷ (0x53, 46, 127)
    ∷ []

abbrev pub normal_in : List (ℕ × ℕ × ℕ) → ℕ → ℕ
normal_in [] key = 0
normal_in ((code, normal, func) ∷ t) key = if code == key then normal else normal_in t key

abbrev pub func_in : List (ℕ × ℕ × ℕ) → ℕ → ℕ
func_in [] key = 0
func_in ((code, normal, func) ∷ t) key = if code == key then func else func_in t key

-- The modifiers; each is a field of one bit.
pub record Modifiers : Type 0 where
  pub lshift_press : Bool
  pub rshift_press : Bool
  pub caps_lock : Bool
  pub lalt_press : Bool
  pub ralt_press : Bool
  pub lctrl_press : Bool
  pub rctrl_press : Bool

-- What the driver asks of the terminal: `tty_in`, `tty_select`, `tty_handle_key` or nothing.
pub data Action : Type 0 where
  input : ℕ → Action
  select : ℕ → Action
  history : ℕ → Action
  nothing : Action

abbrev pub is_make_code : ℕ → Bool
is_make_code raw = ltb raw 0x80

abbrev pub get_key : ℕ → ℕ
get_key raw = raw % 0x80

-- Upper and lower case exchanged.
unfoldable pub swap_case : ℕ → ℕ
swap_case ch =
    if leb 65 ch && leb ch 90 then ch + 32 else if leb 97 ch && leb ch 122 then ch - 32 else ch

-- The character of a key.
unfoldable pub char_of : Modifiers → ℕ → ℕ
unfolding swap_case
char_of k key =
    let ch =
      if k.rshift_press || k.lshift_press then func_in map_table key else normal_in map_table key in
    if k.caps_lock then swap_case ch else ch

unfoldable pub do_normal_key : Modifiers → ℕ → Action × Modifiers
unfolding char_of
do_normal_key k raw =
    let key = get_key raw in
    let is_make = is_make_code raw in
    if key == 0x36
    then (nothing, record k { lshift_press = is_make })
    else if key == 0x2A
    then (nothing, record k { rshift_press = is_make })
    else if key == 0x3A
    then (nothing, if is_make then record k { caps_lock = not k.caps_lock } else k)
    else if key == 0x38
    then (nothing, record k { lalt_press = is_make })
    else if key == 0x1D
    then (nothing, record k { lctrl_press = is_make })
    else if leb 0x3B key && leb key 0x42
    then (select (key - 0x3B), k)
    else if (key == 0x43) || (key == 0x44) || (key == 0x57) || (key == 0x58)
    then (nothing, k)
    else if is_make
    then (input (char_of k key), k)
    else (nothing, k)

unfoldable pub do_e0_key : Modifiers → ℕ → Action × Modifiers
do_e0_key k raw =
    let key = get_key raw in
    let is_make = is_make_code raw in
    if key == 0x1D
    then (nothing, record k { rctrl_press = is_make })
    else if key == 0x38
    then (nothing, record k { ralt_press = is_make })
    else if (key == 0x48) || (key == 0x50)
    then (history key, k)
    else (nothing, k)

pub data Recv : Type 0 where
  normal begin_e0 begin_e1 : Recv

pub record Keyboard : Type 0 where
  pub recv_state : Recv
  pub keys : Modifiers

unfoldable pub key_in : Recv → Modifiers → ℕ → Action × Modifiers
unfolding do_normal_key do_e0_key
key_in Recv.normal k raw = do_normal_key k raw
key_in Recv.begin_e0 k raw = do_e0_key k raw
key_in Recv.begin_e1 k raw = (nothing, k)

-- `do_handle_keyboard` of a code that the port has.
unfoldable pub do_handle_keyboard : Keyboard → ℕ → Action × Keyboard
unfolding key_in
do_handle_keyboard kb raw =
    if raw == 0xE0
    then (nothing, record kb { recv_state = Recv.begin_e0 })
    else if raw == 0xE1
    then (nothing, record kb { recv_state = Recv.begin_e1 })
    else let (action, keys) = key_in kb.recv_state kb.keys raw in
      (action, record { recv_state = Recv.normal; keys = keys })

abbrev is_lower : ℕ → Bool
is_lower ch = leb 97 ch && leb ch 122

abbrev shift_ok : ℕ → Bool
shift_ok key =
    not (is_lower (normal_in map_table key))
    || (key == 0x1F)
    || (func_in map_table key == normal_in map_table key - 32)

all_shift_ok : check_below 128 shift_ok ≡ true
unfolding check_below
all_shift_ok = refl

-- Every letter key but that of `s`, code 0x1F, gives with shift the capital of its letter.
pub func_in-capital :
    (key : ℕ)
    → key < 128
    → is_lower (normal_in map_table key) ≡ true
    → key ≢ 0x1F
    → func_in map_table key ≡ normal_in map_table key - 32
func_in-capital key lt lower ne =
    ground (arith, check_below_sound 128 shift_ok key all_shift_ok lt, lower, ne)

not-not : (b : Bool) → not (not b) ≡ b
not-not false = refl
not-not true = refl

-- Two presses of caps lock, each with its release behind it, are none: whatever the modifiers are,
-- the keyboard is as before, while it waits for no second code.
pub do_handle_keyboard-caps_twice :
    (k : Modifiers)
    → let press = λ (kb : Keyboard). (do_handle_keyboard (do_handle_keyboard kb 0x3A).1 0xBA).1 in
      press (press (record { recv_state = Recv.normal; keys = k }))
      ≡ record { recv_state = Recv.normal; keys = k }
unfolding do_handle_keyboard key_in do_normal_key
do_handle_keyboard-caps_twice k =
    ap (λ b. (record { recv_state = Recv.normal; keys = record k { caps_lock = b } }))
      (not-not k.caps_lock)
