-- ===== src/Usb/Tests.antt =====
-- A map of two slots, a ring of four entries, a table of one slot, and blocks of a pool at 64 MiB.
use mikan_os_x.Base.{ℕ, ◌≡◌, ◌^◌, ◌*◌, ◌+◌, refl, List, [], ◌∷◌, none, some, true, arith}
use mikan_os_x.Base.Fault.{success}
use mikan_os_x.Usb.ArrayMap.{Slot, get, put, delete}
use mikan_os_x.Usb.Alloc.{alloc_mem, alloc_mem_lem, Outcome, ceil, align, avoid}
use mikan_os_x.Usb.Ring.{Trb, Ring, initialize}
use mikan_os_x.Usb.DeviceManager
use mikan_os_x.Usb.DeviceManager.Slots.{IsManager, here, next, allocs, initialize-Reaches}
use mikan_os_x.Usb.Ring.Cycle.{IsRing, pushes, initialize-pushes}
use mikan_os_x.Usb.DeviceManager.{alloc_device}

abbrev one_entry : List (Slot ℕ)
one_entry = (some 7, 70) ∷ (none, 0) ∷ []

deleted_and_put : get 9 (delete 7 (put 9 90 one_entry)) ≡ some 90
unfolding get put delete
deleted_and_put = refl

abbrev pool : ℕ
pool = 2 ^ 26

alloc_mem_lem_example :
    Outcome pool (pool + 100) 64 6 12 (alloc_mem pool (pool + 100) 64 (2 ^ 6) (2 ^ 12))
alloc_mem_lem_example =
    alloc_mem_lem pool (pool + 100) 64 6 12 (omega arith) (omega arith) (omega arith) (omega arith)
      (omega arith) (omega arith) (omega arith)

granted : alloc_mem pool pool (16 * 4) 64 (64 * 1024) ≡ (some pool, pool + 64)
unfolding alloc_mem ceil align avoid
granted = refl

abbrev trb : Trb
trb = record { data0 = 1; data1 = 2; data2 = 3; data3 = 9 * 2 ^ 10 }

abbrev old_ring : Ring
old_ring = record { address = 0; buf = []; buf_size = 0; cycle_bit = true; write_index = 0 }

initialize-pushes_example :
    IsRing (pushes (trb ∷ trb ∷ trb ∷ trb ∷ []) (initialize pool pool 4 old_ring).0.1)
initialize-pushes_example =
    initialize-pushes pool pool 4 old_ring pool (pool + 64) (trb ∷ trb ∷ trb ∷ trb ∷ [])
      (omega arith) (omega arith) granted

table_made : (DeviceManager.initialize pool pool 1).0.0 ≡ success
unfolding DeviceManager.initialize alloc_mem ceil align avoid
table_made = refl

initialize-Reaches_example :
    IsManager (alloc_device 1 4096 (DeviceManager.initialize pool pool 1).0.1).1
initialize-Reaches_example =
    initialize-Reaches pool pool 1
      (alloc_device 1 4096 (DeviceManager.initialize pool pool 1).0.1).1 table_made
      (next here (allocs 1 4096))
