-- ===== src/Usb/DeviceManager/Slots.antt =====
-- The slots of Kernel/usb/xhci/devmgr.cpp under any calls on the table.
use mikan_os_x.Base.{
  ℕ, zero, suc, ◌+◌, ◌*◌, ◌<◌, ◌≡◌, refl, ◌∙◌, true, false, ◌==◌, ltb, if◌then◌else◌, List, Option,
  none, some, arith, get_or, set, length, replicate, length-set, get_or-set_self, get_or-set_ne,
  length-replicate, inl, inr, ℕ_discrete, dec_lt, subst, Option-cases,
}
use mikan_os_x.Base.Fault.{Code, success}
use mikan_os_x.Usb.Alloc.{alloc_mem}
use mikan_os_x.Usb.DeviceManager.{
  Device, DeviceManager, initialize, alloc_device, load_dcbaa, remove, invalid,
}

abbrev pub context_of : Option Device → Option ℕ
context_of none = none
context_of (some device) = some device.context

-- A device stands in the slot whose number it has, and the controller is given the context of the
-- device in its slot, or null.
pub record IsManager (manager : DeviceManager) : Type 0 where
  pub devices_sized : length manager.devices ≡ manager.max_slots + 1
  pub pointers_sized : length manager.device_context_pointers ≡ manager.max_slots + 1
  pub numbered :
      (slot : ℕ) (device : Device)
      → get_or manager.devices slot none ≡ some device
      → device.slot_id ≡ slot
  pub backed :
      (slot context : ℕ)
      → get_or manager.device_context_pointers slot none ≡ some context
      → context_of (get_or manager.devices slot none) ≡ some context

-- The entries of an array after a write.
get_or-set :
    {A : Type 0} (xs : List (Option A)) (i j : ℕ) (v : Option A)
    → i < length xs
    → get_or (set xs i v) j none ≡ (if i == j then v else get_or xs j none)
get_or-set xs i j v h = elim (ℕ_discrete i j) [
  | yes e ↦
      let t : (i == j) ≡ true = ground arith in
      rw t (subst (λ k. get_or (set xs i v) k none ≡ v) e (get_or-set_self xs i v none h))
  | no ne ↦ let f : (i == j) ≡ false = ground arith in rw f (get_or-set_ne xs i j v none ne)
]

get_or-nulls : {A : Type 0} (n i : ℕ) → get_or (replicate {A = Option A} n none) i none ≡ none
get_or-nulls zero i = refl
get_or-nulls (suc n) zero = refl
get_or-nulls (suc n) (suc i) = get_or-nulls n i

initialize-IsManager :
    (pool pointer slots : ℕ)
    → (initialize pool pointer slots).0.0 ≡ success
    → IsManager (initialize pool pointer slots).0.1
unfolding initialize
initialize-IsManager pool pointer slots fine =
    let r = alloc_mem pool pointer (8 * (slots + 1)) 0 0 in
    elim (Option-cases r.0) [
      | inl e ↦ absurd (ground (arith, e))
      | inr (at, e) ↦ elim (Option-cases (alloc_mem pool r.1 (8 * (slots + 1)) 64 4096).0) [
        | inl e' ↦ absurd (ground (arith, e, e'))
        | inr (at', e') ↦
            rw (e, e')
              record {
                devices_sized = length-replicate (slots + 1) none;
                pointers_sized = length-replicate (slots + 1) none;
                numbered =
                    λ slot device h. ground (arith, get_or-nulls {A = Device} (slots + 1) slot);
                backed = λ slot c h. ground (arith, get_or-nulls {A = ℕ} (slots + 1) slot);
              }
      ]
    ]

alloc_device-IsManager :
    (slot context : ℕ) (manager : DeviceManager)
    → IsManager manager
    → IsManager (alloc_device slot context manager).1
unfolding alloc_device
alloc_device-IsManager slot context manager ok = elim (dec_lt manager.max_slots slot) [
  | yes out ↦ let t : ltb manager.max_slots slot ≡ true = ground arith in rw t ok
  | no inside ↦
      let f : ltb manager.max_slots slot ≡ false = ground arith in
      elim (Option-cases (get_or manager.devices slot none)) [
        | inr (device, e) ↦ rw (f, e) ok
        | inl e ↦
            let fresh : Device = record {
              slot_id = slot;
              state = invalid;
              root_hub_port_num = 0;
              context = context;
            } in
            rw (f, e)
              record {
                devices_sized = length-set manager.devices slot (some fresh) ∙ ok.devices_sized;
                pointers_sized = ok.pointers_sized;
                numbered = λ j device h. ground (
                  arith,
                  get_or-set manager.devices slot j (some fresh) (omega (arith, ok.devices_sized)),
                  ok.numbered j device,
                );
                backed = λ j c h. ground (
                  arith,
                  get_or-set manager.devices slot j (some fresh) (omega (arith, ok.devices_sized)),
                  ok.backed j c h,
                );
              }
      ]
]

load_dcbaa-IsManager :
    (slot : ℕ) (manager : DeviceManager) (code : Code) (manager' : DeviceManager)
    → IsManager manager
    → load_dcbaa slot manager ≡ some (code, manager')
    → IsManager manager'
unfolding load_dcbaa
load_dcbaa-IsManager slot manager code manager' ok e = elim (dec_lt manager.max_slots slot) [
  | yes out ↦
      let t : ltb manager.max_slots slot ≡ true = ground arith in
      subst IsManager (ground (arith, t, e)) ok
  | no inside ↦
      let f : ltb manager.max_slots slot ≡ false = ground arith in
      elim (Option-cases (get_or manager.devices slot none)) [
        | inl e' ↦ absurd (ground (arith, f, e, e'))
        | inr (device, e') ↦
            let loaded : DeviceManager = record manager {
              device_context_pointers =
                  set manager.device_context_pointers slot (some device.context);
            } in
            let same : loaded ≡ manager' = ground (arith, f, e, e') in
            subst IsManager same record {
              devices_sized = ok.devices_sized;
              pointers_sized =
                  length-set manager.device_context_pointers slot (some device.context)
                  ∙ ok.pointers_sized;
              numbered = ok.numbered;
              backed = λ j c h. ground (
                arith,
                get_or-set manager.device_context_pointers slot j (some device.context)
                    (omega (arith, ok.pointers_sized)),
                ok.backed j c,
                e',
              );
            }
      ]
]

remove-IsManager :
    (slot : ℕ) (manager : DeviceManager) (code : Code) (manager' : DeviceManager)
    → IsManager manager
    → remove slot manager ≡ some (code, manager')
    → IsManager manager'
unfolding remove
remove-IsManager slot manager code manager' ok e = elim (dec_lt slot (length manager.devices)) [
  | no out ↦
      let f : ltb slot (length manager.devices) ≡ false = ground arith in
      absurd (ground (arith, f, e))
  | yes inside ↦
      let t : ltb slot (length manager.devices) ≡ true = ground arith in
      let removed : DeviceManager = record manager {
        devices = set manager.devices slot none;
        device_context_pointers = set manager.device_context_pointers slot none;
      } in
      let same : removed ≡ manager' = ground (arith, t, e) in
      subst IsManager same record {
        devices_sized = length-set manager.devices slot none ∙ ok.devices_sized;
        pointers_sized = length-set manager.device_context_pointers slot none ∙ ok.pointers_sized;
        numbered = λ j device h.
            ground (arith, get_or-set manager.devices slot j none inside, ok.numbered j device);
        backed = λ j c h. ground (
          arith,
          get_or-set manager.devices slot j none inside,
          get_or-set manager.device_context_pointers slot j none
              (omega (arith, ok.pointers_sized, ok.devices_sized)),
          ok.backed j c,
        );
      }
]

-- The calls on the manager.
pub data Step (manager : DeviceManager) : DeviceManager → Type 0 where
  allocs : (slot context : ℕ) → Step manager (alloc_device slot context manager).1
  loads :
      (slot : ℕ) {code : Code} {manager' : DeviceManager}
      → load_dcbaa slot manager ≡ some (code, manager')
      → Step manager manager'
  removes :
      (slot : ℕ) {code : Code} {manager' : DeviceManager}
      → remove slot manager ≡ some (code, manager')
      → Step manager manager'

pub data Reaches (manager : DeviceManager) : DeviceManager → Type 0 where
  here : Reaches manager manager
  next : {m m' : DeviceManager} → Reaches manager m → Step m m' → Reaches manager m'

Reaches-IsManager : {m m' : DeviceManager} → IsManager m → Reaches m m' → IsManager m'
Reaches-IsManager ok here = ok
Reaches-IsManager ok (next {m} r (allocs slot context)) =
    alloc_device-IsManager slot context m (Reaches-IsManager ok r)
Reaches-IsManager ok (next {m} {m'} r (loads slot {code} e)) =
    load_dcbaa-IsManager slot m code m' (Reaches-IsManager ok r) e
Reaches-IsManager ok (next {m} {m'} r (removes slot {code} e)) =
    remove-IsManager slot m code m' (Reaches-IsManager ok r) e

-- After an Initialize that succeeds and any calls of AllocDevice, LoadDCBAA and Remove that go
-- through no null pointer and write inside the arrays: each device stands in the slot of its
-- number, and each context pointer that the controller reads is that of the device in its slot.
pub initialize-Reaches :
    (pool pointer slots : ℕ) (manager : DeviceManager)
    → (initialize pool pointer slots).0.0 ≡ success
    → Reaches (initialize pool pointer slots).0.1 manager
    → IsManager manager
initialize-Reaches pool pointer slots manager fine r =
    Reaches-IsManager (initialize-IsManager pool pointer slots fine) r
