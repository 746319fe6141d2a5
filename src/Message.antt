-- ===== src/Message.antt =====
-- Kernel/message.hpp: what tasks send one another.
use mikan_os_x.Base.{ℕ, Bool, List}
use mikan_os_x.Base.Int.{ℤ}

pub data LayerOperation : Type 0 where
  move move_relative draw draw_area : LayerOperation

-- Message::type and the member of `arg` that goes with it.
pub data Arg : Type 0 where
  interrupt_xhci : Arg
  timer_timeout : (timeout : ℕ) → (value : ℤ) → Arg
  key_push : (modifier keycode ascii : ℕ) → (press : Bool) → Arg
  layer : LayerOperation → (layer_id : ℕ) → (x y w h : ℤ) → Arg
  layer_finish : Arg
  mouse_move : (x y dx dy : ℤ) → (buttons : ℕ) → Arg
  mouse_button : (x y press button : ℤ) → Arg
  window_active : (activate : ℤ) → Arg
  pipe : (bytes : List ℕ) → (len : ℕ) → Arg
  window_close : (layer_id : ℕ) → Arg

pub record Message : Type 0 where
  pub src_task : ℕ
  pub arg : Arg
