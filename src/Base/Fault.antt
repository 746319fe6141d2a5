-- ===== src/Base/Fault.antt =====
-- Error codes of Kernel/error.hpp. The file and line that an Error carries are for the log only.
use mathlib.Core.Bool.{Bool, true, false}

pub data Code : Type 0 where
  success full empty no_enough_memory index_out_of_range host_controller_not_halted : Code
  invalid_slot_id port_not_connected invalid_endpoint_number transfer_ring_not_set : Code
  already_allocated not_implemented invalid_descriptor buffer_too_small unknown_device : Code
  no_corresponding_setup_stage transfer_failed invalid_phase unknown_xhci_speed_id : Code
  no_waiter no_pci_msi unknown_pixel_format no_such_task invalid_format : Code
  frame_too_small invalid_file is_directory no_such_entry free_type_error : Code

-- Error::operator bool
abbrev pub is_error : Code → Bool
is_error success = false
is_error _ = true
