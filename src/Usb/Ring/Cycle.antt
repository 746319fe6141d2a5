-- ===== src/Usb/Ring/Cycle.antt =====
-- The cycle bits of a ring of Kernel/usb/xhci/ring.cpp, by which the controller tells new entries
-- from old ones.
use mikan_os_x.Base.{
  ℕ, zero, suc, ◌+◌, ◌-◌, ◌*◌, ◌%◌, ◌^◌, ◌<◌, ◌≤◌, ◌≡◌, refl, ap, ◌∙◌, max, some, Bool, true, false,
  not, ltb, ◌==◌, if◌then◌else◌, List, [], ◌∷◌, length, set, get_or, replicate, length-set,
  length-replicate, get_or-set_self, get_or-set_ne, add64, sub64, bit_and, bit_or, arith,
  ℕ_discrete,
}
use mikan_os_x.Base.{◌≢◌}
use mikan_os_x.Base.Bits.{bit_at-low, bit_at, bit_at-bit_or, bit_at-bit_and}
use mikan_os_x.Usb.Alloc.{alloc_mem}
use mikan_os_x.Usb.Ring.{
  Trb, Ring, zero_trb, bit, initialize, with_cycle, copy_to_last, link_trb, close_lap, push,
}

-- The cycle bit of a TRB, as the controller reads it.
pub cycle_of : Trb → ℕ
cycle_of trb = trb.data3 % 2

-- What the controller goes by: the entries of this lap have the producer's cycle bit, all others,
-- the link at the end included, the opposite one.
pub record IsRing (ring : Ring) : Type 0 where
  pub sized : length ring.buf ≡ ring.buf_size
  pub room : 2 ≤ ring.buf_size
  pub word : ring.buf_size < 2 ^ 32
  pub inside : ring.write_index + 1 < ring.buf_size
  pub marked :
      (i : ℕ)
      → i < ring.buf_size
      → cycle_of (get_or ring.buf i zero_trb)
        ≡ (if ltb i ring.write_index then bit ring.cycle_bit else bit (not ring.cycle_bit))

cycle_of-with_cycle : (cycle : Bool) (trb : Trb) → cycle_of (with_cycle cycle trb) ≡ bit cycle
unfolding cycle_of with_cycle
cycle_of-with_cycle cycle trb =
    let masked = bit_and trb.data3 (2 ^ 32 - 2) in
    let marked : bit_at 0 (bit_or masked (bit cycle))
        ≡ max (bit_at 0 masked) (bit_at 0 (bit cycle)) =
      bit_at-bit_or 0 masked (bit cycle) in
    ground (
      arith,
      marked,
      bit_at-bit_and 0 trb.data3 (2 ^ 32 - 2),
      bit_at-low masked,
      bit_at-low (2 ^ 32 - 2),
      bit_at-low (bit cycle),
      bit_at-low (bit_or masked (bit cycle)),
    )

get_or-replicate {ℓ} : {A : Type ℓ} (n i : ℕ) (a : A) → get_or (replicate n a) i a ≡ a
get_or-replicate zero i a = refl
get_or-replicate (suc n) zero a = refl
get_or-replicate (suc n) (suc i) a = get_or-replicate n i a

get_or-set :
    (buf : List Trb) (w i : ℕ) (trb : Trb)
    → w < length buf
    → get_or (set buf w trb) i zero_trb ≡ (if w == i then trb else get_or buf i zero_trb)
get_or-set buf w i trb h =
    ground (arith, get_or-set_self buf w trb zero_trb h, get_or-set_ne buf w i trb zero_trb)

-- The cycle bits after a write at w.
cycle-set :
    (buf : List Trb) (w i : ℕ) (cycle : Bool) (trb : Trb)
    → w < length buf
    → cycle_of (get_or (set buf w (with_cycle cycle trb)) i zero_trb)
      ≡ (if w == i then bit cycle else cycle_of (get_or buf i zero_trb))
cycle-set buf w i cycle trb h =
    rw (get_or-set buf w i (with_cycle cycle trb) h) ground (arith, cycle_of-with_cycle cycle trb)

push-eq_inside :
    (trb : Trb) (ring : Ring)
    → IsRing ring
    → ring.write_index + 2 ≢ ring.buf_size
    → (push trb ring).1 ≡ record ring {
      buf = set ring.buf ring.write_index (with_cycle ring.cycle_bit trb);
      write_index = ring.write_index + 1;
    }
unfolding push close_lap copy_to_last
push-eq_inside trb ring ok more =
    let e : (add64 ring.write_index 1 == sub64 ring.buf_size 1) ≡ false =
      ground (arith, ok.inside, ok.word) in
    let e' : add64 ring.write_index 1 ≡ ring.write_index + 1 = omega (arith, ok.inside, ok.word) in
    rw (e, e')

push-eq_last :
    (trb : Trb) (ring : Ring)
    → IsRing ring
    → ring.write_index + 2 ≡ ring.buf_size
    → (push trb ring).1 ≡ record ring {
      buf =
          set
            (set ring.buf ring.write_index (with_cycle ring.cycle_bit trb))
            (ring.write_index + 1)
            (with_cycle ring.cycle_bit (link_trb ring.address));
      write_index = 0;
      cycle_bit = not ring.cycle_bit;
    }
unfolding push close_lap copy_to_last
push-eq_last trb ring ok last =
    let e : (add64 ring.write_index 1 == sub64 ring.buf_size 1) ≡ true =
      ground (arith, ok.inside, ok.word) in
    let e' : add64 ring.write_index 1 ≡ ring.write_index + 1 = omega (arith, ok.inside, ok.word) in
    rw (e, e')

-- Push keeps the cycle bits as the controller expects them, in the middle of a lap and at its end.
pub push-IsRing : (trb : Trb) (ring : Ring) → IsRing ring → IsRing (push trb ring).1
push-IsRing trb ring ok = elim (ℕ_discrete (ring.write_index + 2) ring.buf_size) [
  | yes last ↦
      let first = set ring.buf ring.write_index (with_cycle ring.cycle_bit trb) in
      let kept : length first ≡ length ring.buf =
        length-set ring.buf ring.write_index (with_cycle ring.cycle_bit trb) in
      rw (push-eq_last trb ring ok last) record {
        sized =
            length-set first (ring.write_index + 1)
              (with_cycle ring.cycle_bit (link_trb ring.address))
            ∙ kept
            ∙ ok.sized;
        room = ok.room;
        word = ok.word;
        inside = omega (arith, ok.room);
        marked = λ i low.
            let upper =
              cycle-set first (ring.write_index + 1) i ring.cycle_bit (link_trb ring.address)
                (omega (arith, ok.sized)) in
            let lower =
              cycle-set ring.buf ring.write_index i ring.cycle_bit trb (omega (arith, ok.sized)) in
            ground (arith, upper, lower, ok.marked i low);
      }
  | no more ↦ rw (push-eq_inside trb ring ok more) record {
    sized = length-set ring.buf ring.write_index (with_cycle ring.cycle_bit trb) ∙ ok.sized;
    room = ok.room;
    word = ok.word;
    inside = omega (arith, ok.inside);
    marked = λ i low.
        let lower =
          cycle-set ring.buf ring.write_index i ring.cycle_bit trb
            (omega (arith, ok.sized, ok.inside)) in
        ground (arith, lower, ok.marked i low);
  }
]

clear : (i : ℕ) → cycle_of zero_trb ≡ (if ltb i 0 then 1 else 0)
unfolding cycle_of
clear i = ground arith

-- The ring that Initialize makes in a block that AllocMem grants.
initialize-IsRing :
    (pool pointer size : ℕ) (ring : Ring) (start after : ℕ)
    → 2 ≤ size
    → size < 2 ^ 32
    → alloc_mem pool pointer (16 * size) 64 (64 * 1024) ≡ (some start, after)
    → IsRing (initialize pool pointer size ring).0.1
unfolding initialize
initialize-IsRing pool pointer size ring start after h low e = rw e record {
  sized = length-replicate size zero_trb;
  room = h;
  word = low;
  inside = omega arith;
  marked = λ i lt. ap cycle_of (get_or-replicate size i zero_trb) ∙ clear i;
}

-- The pushes of a list of TRBs.
pub pushes : List Trb → Ring → Ring
pushes [] ring = ring
pushes (trb ∷ more) ring = pushes more (push trb ring).1

pushes-IsRing : (trbs : List Trb) (ring : Ring) → IsRing ring → IsRing (pushes trbs ring)
unfolding pushes
pushes-IsRing [] ring ok = ok
pushes-IsRing (trb ∷ more) ring ok = pushes-IsRing more (push trb ring).1 (push-IsRing trb ring ok)

-- Initialize with a block from AllocMem and 2 ≤ size < 2 ^ 32 entries, then any pushes: the
-- entries of the present lap have the producer's cycle bit and all others the opposite one, the
-- link at the end included, and the next write is before the link.
pub initialize-pushes :
    (pool pointer size : ℕ) (ring : Ring) (start after : ℕ) (trbs : List Trb)
    → 2 ≤ size
    → size < 2 ^ 32
    → alloc_mem pool pointer (16 * size) 64 (64 * 1024) ≡ (some start, after)
    → IsRing (pushes trbs (initialize pool pointer size ring).0.1)
initialize-pushes pool pointer size ring start after trbs h low e =
    pushes-IsRing trbs (initialize pool pointer size ring).0.1
      (initialize-IsRing pool pointer size ring start after h low e)
