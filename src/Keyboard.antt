-- ===== src/Keyboard.antt =====
-- Kernel/keyboard.cpp and Kernel/usb/classdriver/keyboard.cpp, with the interrupts of hid.cpp: the
-- keys that change between two reports, and the messages about them.
pub mod Keys
mod Tests
use mikan_os_x.Base.{
  ℕ, zero, suc, bit_and, Bool, true, false, ◌==◌, ltb, not, if◌then◌else◌, List, [], ◌∷◌, ◌++◌, map,
  Option, none, some, get_elem?,
}
use mikan_os_x.Message.{Message, Arg}
use mikan_os_x.Task.{TaskManager}
use mikan_os_x.Task.Switch.{send_message}

-- The buffers of HIDBaseDriver, by index; the driver of keyboards reads the first 8 bytes.
abbrev pub Buffer : Type 0
Buffer = ℕ → ℕ

-- std::bitset<256>
abbrev pub Bitset : Type 0
Bitset = ℕ → Bool

-- The loop of OnDataReceived that sets the keys of a report, from byte i on.
unfoldable pub set_keys : (rounds i : ℕ) → Buffer → Bitset → Bitset
set_keys zero i buf bits = bits
set_keys (suc rounds) i buf bits =
    set_keys rounds (suc i) buf (λ key. if key == buf i then true else bits key)

unfoldable pub keys : Buffer → Bitset
keys buf = set_keys 6 2 buf (λ key. false)

abbrev pub bit_changed : Bool → Bool → Bool
bit_changed prev current = if prev then not current else current

-- A call of NotifyKeyPush.
pub record Push : Type 0 where
  pub modifier : ℕ
  pub keycode : ℕ
  pub press : Bool

-- The calls for the keys that changed, from `key` on. The bit of `pressed` is that of `current`,
-- where the key changed.
unfoldable pub changed_keys : (rounds key modifier : ℕ) (prev current : Bitset) → List Push
changed_keys zero key modifier prev current = []
changed_keys (suc rounds) key modifier prev current =
    let rest = changed_keys rounds (suc key) modifier prev current in
    if bit_changed (prev key) (current key)
    then record { modifier = modifier; keycode = key; press = current key } ∷ rest
    else rest

-- HIDKeyboardDriver::OnDataReceived
unfoldable pub on_data_received : (buf previous_buf : Buffer) → List Push
on_data_received buf previous_buf = changed_keys 255 1 (buf 0) (keys previous_buf) (keys buf)

-- std::copy_n from the first buffer to the start of the second one.
unfoldable pub copy_n : Buffer → ℕ → Buffer → Buffer
copy_n buf len previous_buf i = if ltb i len then buf i else previous_buf i

-- HIDBaseDriver::OnInterruptCompleted for an endpoint that reads, once the device has written
-- `buf`: the calls, and the previous buffer after it. InterruptIn asks for the next report.
unfoldable pub on_interrupt_completed : Buffer → ℕ → Buffer → List Push × Buffer
on_interrupt_completed buf len previous_buf =
    (on_data_received buf previous_buf, copy_n buf len previous_buf)

-- The reports of a keyboard, each with its length.
unfoldable pub interrupts : List (ℕ × Buffer) → Buffer → List Push × Buffer
interrupts [] previous_buf = ([], previous_buf)
interrupts ((len, buf) ∷ more) previous_buf =
    let now = on_interrupt_completed buf len previous_buf in
    let later = interrupts more now.1 in (now.0 ++ later.0, later.1)

-- The entries of keycode_map up to the last one that is not 0, and the rest of their row.
unfoldable pub keycode_map : List ℕ
keycode_map =
    0 ∷ 0 ∷ 0 ∷ 0 ∷ 97 ∷ 98 ∷ 99 ∷ 100 ∷ 101 ∷ 102 ∷ 103 ∷ 104 ∷ 105 ∷ 106 ∷ 107 ∷ 108 ∷ 109 ∷ 110
    ∷ 111 ∷ 112 ∷ 113 ∷ 114 ∷ 115 ∷ 116 ∷ 117 ∷ 118 ∷ 119 ∷ 120 ∷ 121 ∷ 122 ∷ 49 ∷ 50 ∷ 51 ∷ 52 ∷ 53
    ∷ 54 ∷ 55 ∷ 56 ∷ 57 ∷ 48 ∷ 10 ∷ 8 ∷ 8 ∷ 9 ∷ 32 ∷ 45 ∷ 61 ∷ 91 ∷ 93 ∷ 92 ∷ 35 ∷ 59 ∷ 39 ∷ 96 ∷ 44
    ∷ 46 ∷ 47 ∷ 0 ∷ 0 ∷ 0 ∷ 0 ∷ 0 ∷ 0 ∷ 0 ∷ 0 ∷ 0 ∷ 0 ∷ 0 ∷ 0 ∷ 0 ∷ 0 ∷ 0 ∷ 0 ∷ 0 ∷ 0 ∷ 0 ∷ 0 ∷ 0
    ∷ 0 ∷ 0 ∷ 0 ∷ 0 ∷ 0 ∷ 0 ∷ 47 ∷ 42 ∷ 45 ∷ 43 ∷ 10 ∷ 49 ∷ 50 ∷ 51 ∷ 52 ∷ 53 ∷ 54 ∷ 55 ∷ 56 ∷ 57
    ∷ 48 ∷ 46 ∷ 92 ∷ 0 ∷ 0 ∷ 61 ∷ 0 ∷ 0 ∷ 0 ∷ 0 ∷ 0 ∷ 0 ∷ 0 ∷ 0 ∷ 0 ∷ 0 ∷ 0 ∷ 0 ∷ 0 ∷ 0 ∷ 0 ∷ 0 ∷ 0
    ∷ 0 ∷ 0 ∷ 0 ∷ 0 ∷ 0 ∷ 0 ∷ 0 ∷ 0 ∷ 0 ∷ 0 ∷ 0 ∷ 0 ∷ 0 ∷ 0 ∷ 0 ∷ 0 ∷ 92 ∷ 0 ∷ 0 ∷ 0 ∷ 0 ∷ 0 ∷ 0
    ∷ []

unfoldable pub keycode_map_shifted : List ℕ
keycode_map_shifted =
    0 ∷ 0 ∷ 0 ∷ 0 ∷ 65 ∷ 66 ∷ 67 ∷ 68 ∷ 69 ∷ 70 ∷ 71 ∷ 72 ∷ 73 ∷ 74 ∷ 75 ∷ 76 ∷ 77 ∷ 78 ∷ 79 ∷ 80
    ∷ 81 ∷ 82 ∷ 83 ∷ 84 ∷ 85 ∷ 86 ∷ 87 ∷ 88 ∷ 89 ∷ 90 ∷ 33 ∷ 64 ∷ 35 ∷ 36 ∷ 37 ∷ 94 ∷ 38 ∷ 42 ∷ 40
    ∷ 41 ∷ 10 ∷ 8 ∷ 8 ∷ 9 ∷ 32 ∷ 95 ∷ 43 ∷ 123 ∷ 125 ∷ 124 ∷ 126 ∷ 58 ∷ 34 ∷ 126 ∷ 60 ∷ 62 ∷ 63 ∷ 0
    ∷ 0 ∷ 0 ∷ 0 ∷ 0 ∷ 0 ∷ 0 ∷ 0 ∷ 0 ∷ 0 ∷ 0 ∷ 0 ∷ 0 ∷ 0 ∷ 0 ∷ 0 ∷ 0 ∷ 0 ∷ 0 ∷ 0 ∷ 0 ∷ 0 ∷ 0 ∷ 0 ∷ 0
    ∷ 0 ∷ 0 ∷ 47 ∷ 42 ∷ 45 ∷ 43 ∷ 10 ∷ 49 ∷ 50 ∷ 51 ∷ 52 ∷ 53 ∷ 54 ∷ 55 ∷ 56 ∷ 57 ∷ 48 ∷ 46 ∷ 92 ∷ 0
    ∷ 0 ∷ 61 ∷ 0 ∷ 0 ∷ 0 ∷ 0 ∷ 0 ∷ 0 ∷ 0 ∷ 0 ∷ 0 ∷ 0 ∷ 0 ∷ 0 ∷ 0 ∷ 0 ∷ 0 ∷ 0 ∷ 0 ∷ 0 ∷ 0 ∷ 0 ∷ 0 ∷ 0
    ∷ 0 ∷ 0 ∷ 0 ∷ 0 ∷ 0 ∷ 0 ∷ 0 ∷ 0 ∷ 0 ∷ 0 ∷ 0 ∷ 124 ∷ 0 ∷ 0 ∷ 0 ∷ 0 ∷ 0 ∷ 0 ∷ []

-- An entry of one of the two tables of 256 entries; the ones that are not written are 0.
abbrev pub mapped : List ℕ → ℕ → ℕ
mapped table keycode = elim (get_elem? table keycode) [ none ↦ 0 | some c ↦ c ]

-- kLShiftBitMask | kRShiftBitMask
abbrev pub shift_mask : ℕ
shift_mask = 34

-- The character that the observer puts in the message.
unfoldable pub ascii : ℕ → ℕ → ℕ
ascii modifier keycode =
    if not (bit_and modifier shift_mask == 0)
    then mapped keycode_map_shifted keycode
    else mapped keycode_map keycode

-- The message of the observer of InitializeKeyboard.
unfoldable pub key_push : Push → Arg
key_push p = Arg.key_push p.modifier p.keycode (ascii p.modifier p.keycode) p.press

module _ {C : Type 0} where
  -- The observer for each call in turn: the messages go to task 1.
  unfoldable pub notify_all : List Push → TaskManager C → TaskManager C
  notify_all [] tasks = tasks
  notify_all (p ∷ more) tasks =
      notify_all more (send_message 1 (record { src_task = 0; arg = key_push p }) tasks).1
