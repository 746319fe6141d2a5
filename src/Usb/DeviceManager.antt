-- ===== src/Usb/DeviceManager.antt =====
-- Kernel/usb/xhci/devmgr.hpp and .cpp: the table of devices by slot.
pub mod Slots
use mikan_os_x.Base.{
  ℕ, zero, suc, ◌+◌, ◌*◌, ◌<◌, ◌≡◌, refl, ◌∙◌, Bool, true, false, ◌==◌, ltb, if◌then◌else◌, List,
  [], ◌∷◌, Option, none, some, arith, get_or, set, length, replicate, length-set, get_or-set_self,
  get_or-set_ne, length-replicate, inl, inr, ℕ_discrete, dec_lt, subst, Option-cases, Bool-cases,
}
use mikan_os_x.Base.Fault.{Code, success, no_enough_memory, invalid_slot_id, already_allocated}
use mikan_os_x.Usb.Alloc.{alloc_mem}

-- Device::State
pub data State : Type 0 where
  invalid blank slot_assigning slot_assigned : State

abbrev pub same_state : State → State → Bool
same_state invalid invalid = true
same_state blank blank = true
same_state slot_assigning slot_assigning = true
same_state slot_assigned slot_assigned = true
same_state _ _ = false

-- What the manager reads of a Device: its slot, its state, the port in its slot context, and where
-- its DeviceContext lies.
pub record Device : Type 0 where
  pub slot_id : ℕ
  pub state : State
  pub root_hub_port_num : ℕ
  pub context : ℕ

-- Both arrays have max_slots_ + 1 entries; `none` is a null pointer.
pub record DeviceManager : Type 0 where
  pub max_slots : ℕ
  pub devices : List (Option Device)
  pub device_context_pointers : List (Option ℕ)

-- Initialize, with the pool and alloc_ptr of AllocMem; a pointer has 8 bytes. On an error the
-- arrays are null pointers: no entry can be read.
unfoldable pub initialize : ℕ → ℕ → ℕ → (Code × DeviceManager) × ℕ
initialize pool pointer slots = first (alloc_mem pool pointer (8 * (slots + 1)) 0 0)
  where
    second : Option ℕ × ℕ → (Code × DeviceManager) × ℕ
    second (none, after) = (
      (no_enough_memory, record { max_slots = slots; devices = []; device_context_pointers = [] }),
      after,
    )
    second (some at, after) = (
      (
        success,
        record {
          max_slots = slots;
          devices = replicate (slots + 1) none;
          device_context_pointers = replicate (slots + 1) none;
        },
      ),
      after,
    )

    first : Option ℕ × ℕ → (Code × DeviceManager) × ℕ
    first (none, after) = (
      (no_enough_memory, record { max_slots = slots; devices = []; device_context_pointers = [] }),
      after,
    )
    first (some at, after) = second (alloc_mem pool after (8 * (slots + 1)) 64 4096)

-- for (size_t i = 1; i <= max_slots_; ++i), over the entries from 1 on
abbrev pub scan : (Device → Bool) → List (Option Device) → Option Device
scan wanted [] = none
scan wanted (none ∷ rest) = scan wanted rest
scan wanted (some device ∷ rest) = if wanted device then some device else scan wanted rest

abbrev pub from_one : List (Option Device) → List (Option Device)
from_one [] = []
from_one (first ∷ rest) = rest

unfoldable pub find_by_port : ℕ → DeviceManager → Option Device
find_by_port port manager =
    scan (λ device. device.root_hub_port_num == port) (from_one manager.devices)

unfoldable pub find_by_state : State → DeviceManager → Option Device
find_by_state state manager =
    scan (λ device. same_state device.state state) (from_one manager.devices)

unfoldable pub find_by_slot : ℕ → DeviceManager → Option Device
find_by_slot slot manager =
    if ltb manager.max_slots slot then none else get_or manager.devices slot none

-- A Device as its constructor leaves it: the pool is zero at first and no block of it is used
-- twice, so the fields that the constructor leaves alone are 0. `context` is where AllocArray
-- puts it, and the allocation is not checked.
unfoldable pub alloc_device : ℕ → ℕ → DeviceManager → Code × DeviceManager
alloc_device slot context manager =
    if ltb manager.max_slots slot
    then (invalid_slot_id, manager)
    else place (get_or manager.devices slot none)
  where
    place : Option Device → Code × DeviceManager
    place (some device) = (already_allocated, manager)
    place none = (
      success,
      record manager {
        devices = set manager.devices slot (
            some
              record { slot_id = slot; state = invalid; root_hub_port_num = 0; context = context });
      },
    )

-- LoadDCBAA; `none` where the source goes through a null pointer.
unfoldable pub load_dcbaa : ℕ → DeviceManager → Option (Code × DeviceManager)
load_dcbaa slot manager =
    if ltb manager.max_slots slot
    then some (invalid_slot_id, manager)
    else load (get_or manager.devices slot none)
  where
    load : Option Device → Option (Code × DeviceManager)
    load none = none
    load (some device) = some (
      success,
      record manager {
        device_context_pointers = set manager.device_context_pointers slot (some device.context);
      },
    )

-- Remove does not compare the slot with max_slots_; `none` where it writes outside the arrays.
unfoldable pub remove : ℕ → DeviceManager → Option (Code × DeviceManager)
remove slot manager =
    if ltb slot (length manager.devices)
    then some (
      success,
      record manager {
        devices = set manager.devices slot none;
        device_context_pointers = set manager.device_context_pointers slot none;
      },
    )
    else none
