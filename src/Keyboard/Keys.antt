-- ===== src/Keyboard/Keys.antt =====
-- What the messages of Kernel/keyboard.cpp tell about the keys.
use mikan_os_x.Base.{
  ℕ, zero, suc, ◌+◌, ◌≤◌, ◌<◌, ◌≡◌, refl, sym, ap, ◌∙◌, Bool, true, false, ◌&&◌, leb, ltb, ◌==◌,
  if◌then◌else◌, List, [], ◌∷◌, ◌++◌, map, arith, Bool-cases, inl, inr,
}
use mikan_os_x.Message.{Arg}
use mikan_os_x.Keyboard.{
  Buffer, Bitset, Push, set_keys, keys, bit_changed, changed_keys, on_data_received, copy_n,
  on_interrupt_completed, interrupts, key_push,
}

-- Whether a receiver that follows the messages takes a key to be held, who took it to be `state`
-- before.
abbrev pub followed : ℕ → Bool → List Arg → Bool
followed key state [] = state
followed key state (Arg.key_push modifier keycode ascii press ∷ args) =
    followed key (if keycode == key then press else state) args
followed key state (_ ∷ args) = followed key state args

followed-append :
    (key : ℕ) (state : Bool) (ps qs : List Push)
    → followed key state (map key_push (ps ++ qs))
      ≡ followed key (followed key state (map key_push ps)) (map key_push qs)
unfolding key_push
followed-append key state [] qs = refl
followed-append key state (p ∷ ps) qs =
    followed-append key (if p.keycode == key then p.press else state) ps qs

changed_keys-followed :
    (rounds from modifier key : ℕ) (prev current : Bitset) (state : Bool)
    → followed key state (map key_push (changed_keys rounds from modifier prev current)) ≡ (
        if leb from key && ltb key (from + rounds) && bit_changed (prev key) (current key)
        then current key
        else state)
unfolding changed_keys key_push
changed_keys-followed zero from modifier key prev current state = ground arith
changed_keys-followed (suc rounds) from modifier key prev current state =
    elim (Bool-cases (bit_changed (prev from) (current from))) [
      | inr same ↦
          rw same
            (changed_keys-followed rounds (suc from) modifier key prev current state ∙ ground arith)
      | inl other ↦ rw other (
          changed_keys-followed rounds (suc from) modifier key prev current
            (if from == key then current from else state)
          ∙ ground arith)
    ]

on_data_received-followed :
    (key : ℕ) (buf previous_buf : Buffer)
    → 1 ≤ key
    → key < 256
    → followed key (keys previous_buf key) (map key_push (on_data_received buf previous_buf))
      ≡ keys buf key
unfolding on_data_received
on_data_received-followed key buf previous_buf l h =
    changed_keys-followed 255 1 (buf 0) key (keys previous_buf) (keys buf) (keys previous_buf key)
    ∙ ground (arith, l, h)

set_keys_ext :
    (rounds i : ℕ) (a b : Buffer) (bits : Bitset)
    → ((j : ℕ) → i ≤ j → j < i + rounds → a j ≡ b j)
    → set_keys rounds i a bits ≡ set_keys rounds i b bits
unfolding set_keys
set_keys_ext zero i a b bits same = refl
set_keys_ext (suc rounds) i a b bits same =
    let here = same i (omega arith) (omega arith) in
    let rest = λ (j : ℕ) (l : suc i ≤ j) (h : j < suc i + rounds).
      same j (omega (arith, l)) (omega (arith, h)) in
    rw here (set_keys_ext rounds (suc i) a b (λ key. if key == b i then true else bits key) rest)

-- A copy of a whole report has its keys.
keys-copy_n :
    (buf previous_buf : Buffer) (len : ℕ) → 8 ≤ len → keys (copy_n buf len previous_buf) ≡ keys buf
unfolding keys copy_n
keys-copy_n buf previous_buf len h =
    set_keys_ext 6 2 (copy_n buf len previous_buf) buf (λ key. false)
      (λ j l k. ground (arith, h, k))

-- Every report has the 8 bytes of the boot protocol.
abbrev pub IsWhole : List (ℕ × Buffer) → Type 0
IsWhole [] = Unit
IsWhole ((len, buf) ∷ more) = (8 ≤ len) × IsWhole more

-- The last report, or what was there before.
abbrev pub last_report : Buffer → List (ℕ × Buffer) → Buffer
last_report before [] = before
last_report before ((len, buf) ∷ more) = last_report buf more

-- A receiver that follows the messages about any number of whole reports, from the keys of the
-- report before, knows of each key from 1 to 255 whether it is held in the last report.
pub interrupts-followed :
    (key : ℕ) (before previous_buf : Buffer) (reports : List (ℕ × Buffer))
    → 1 ≤ key
    → key < 256
    → keys previous_buf ≡ keys before
    → IsWhole reports
    → followed key (keys before key) (map key_push (interrupts reports previous_buf).0)
      ≡ keys (last_report before reports) key
unfolding interrupts on_interrupt_completed
interrupts-followed key before previous_buf [] l h same whole = refl
interrupts-followed key before previous_buf ((len, buf) ∷ more) l h same (w, whole) =
    let copied = copy_n buf len previous_buf in
    let later = (interrupts more copied).0 in
    let now = on_data_received-followed key buf previous_buf l h in
    let at : keys before key ≡ keys previous_buf key = ap (λ k. k key) (sym same) in
    rw at (
      followed-append key (keys previous_buf key) (on_data_received buf previous_buf) later
      ∙ rw now
          (interrupts-followed key buf copied more l h (keys-copy_n buf previous_buf len w) whole))
