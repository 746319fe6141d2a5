-- ===== src/Queue/Refine.antt =====
-- An ArrayQueue behaves as a FIFO of bounded length.
use mikan_os_x.Base.{
  ℕ, ◌+◌, ◌%◌, ◌^◌, ◌<◌, ◌≤◌, ◌≡◌, refl, List, [], ◌∷◌, ◌++◌, some, arith, length, length-set,
  length-append, ◌==◌, false, ℕ_discrete,
}
use mikan_os_x.Base.Fault.{success, full, empty}
use mikan_os_x.Queue.{ArrayQueue, init, push, pop, front, size, advance}
use mikan_os_x.Queue.Fifo.{Call, pushes, pops, fronts, counts, run, fifo}
use mikan_os_x.Queue.Window.{next, after, Holds, Holds-set}

advance_lem : (n i : ℕ) → n < 2 ^ 64 → i < n → advance n i ≡ next n i
unfolding advance
advance_lem n i h lt = let e : (i + 1) % 2 ^ 64 ≡ i + 1 = omega arith in rw e

module _ {ℓ} {A : Type ℓ} where
  -- The queue holds these values, oldest first, inside its array.
  pub record Represents (q : ArrayQueue A) (xs : List A) : Type ℓ where
    pub values : Holds q.items q.capacity q.read_pos xs
    pub counted : q.count ≡ length xs
    pub bounded : length xs ≤ q.capacity
    pub storage : q.capacity ≤ length q.items
    pub read_in : q.read_pos < q.capacity
    pub write_at : q.write_pos ≡ after q.capacity q.read_pos (length xs)
    pub small : q.capacity < 2 ^ 64

  pub init-Represents :
      (buf : List A) (n : ℕ) → 0 < n → n ≤ length buf → n < 2 ^ 64 → Represents (init buf n) []
  unfolding init
  init-Represents buf n pos fits small = record {
    values = tt;
    counted = refl;
    bounded = omega arith;
    storage = fits;
    read_in = pos;
    write_at = ground arith;
    small = small;
  }

  pub push-Represents :
      (v : A) (q : ArrayQueue A) (xs : List A)
      → Represents q xs
      → length xs < q.capacity
      → ((push v q).0 ≡ success) × Represents (push v q).1 (xs ++ v ∷ [])
  unfolding push
  push-Represents v q xs r lt =
      let e : (q.count == q.capacity) ≡ false = ground arith in
      rw e (
        refl,
        record {
          values =
              Holds-set q.items q.capacity q.read_pos q.write_pos xs v r.storage r.read_in lt
                r.write_at r.values;
          counted = omega (arith, length-append xs (v ∷ []));
          bounded = omega (arith, length-append xs (v ∷ []));
          storage = omega (arith, length-set q.items q.write_pos v);
          read_in = r.read_in;
          write_at = ground (arith, advance_lem q.capacity q.write_pos, length-append xs (v ∷ []));
          small = r.small;
        },
      )

  pub push_full :
      (v : A) (q : ArrayQueue A) (xs : List A)
      → Represents q xs
      → length xs ≡ q.capacity
      → push v q ≡ (full, q)
  unfolding push
  push_full v q xs r e = ground arith

  pub pop-Represents :
      (q : ArrayQueue A) (x : A) (xs : List A)
      → Represents q (x ∷ xs)
      → (front q ≡ some x) × ((pop q).0 ≡ success) × Represents (pop q).1 xs
  unfolding front pop
  pop-Represents q x xs r = (
    r.values.0,
    ground arith,
    let e : (q.count == 0) ≡ false = ground arith in
        rw e (record {
          values = rw (advance_lem q.capacity q.read_pos r.small r.read_in) r.values.1;
          counted = omega arith;
          bounded = omega arith;
          storage = r.storage;
          read_in = ground (arith, advance_lem q.capacity q.read_pos);
          write_at = ground (arith, advance_lem q.capacity q.read_pos);
          small = r.small;
        }),
  )

  pub pop_empty : (q : ArrayQueue A) → Represents q [] → pop q ≡ (empty, q)
  unfolding pop
  pop_empty q r = ground arith

  pub push-capacity : (v : A) (q : ArrayQueue A) → (push v q).1.capacity ≡ q.capacity
  unfolding push
  push-capacity v q = ground arith

  pub pop-capacity : (q : ArrayQueue A) → (pop q).1.capacity ≡ q.capacity
  unfolding pop
  pop-capacity q = ground arith

  -- Any sequence of calls on an ArrayQueue that represents a list of values returns what the
  -- bounded FIFO of those values returns: the codes of Push and Pop, the fronts, the counts.
  pub run-eq-fifo :
      (cs : List (Call A)) (q : ArrayQueue A) (xs : List A)
      → Represents q xs
      → run cs q ≡ fifo q.capacity cs xs
  unfolding run fifo size
  run-eq-fifo [] q xs r = refl
  run-eq-fifo (pushes v ∷ cs) q xs r = elim (ℕ_discrete (length xs) q.capacity) [
    | yes e ↦ ground (arith, push_full v q xs r e, run-eq-fifo cs q xs r)
    | no ne ↦
        let p = push-Represents v q xs r (omega (arith, r.bounded)) in
        ground (arith, p.0, run-eq-fifo cs (push v q).1 (xs ++ v ∷ []) p.1, push-capacity v q)
  ]
  run-eq-fifo (pops ∷ cs) q [] r = ground (arith, pop_empty q r, run-eq-fifo cs q [] r)
  run-eq-fifo (pops ∷ cs) q (x ∷ xs) r =
      let p = pop-Represents q x xs r in
      ground (arith, p.1, run-eq-fifo cs (pop q).1 xs p.2, pop-capacity q)
  run-eq-fifo (fronts ∷ cs) q [] r = ground (arith, run-eq-fifo cs q [] r)
  run-eq-fifo (fronts ∷ cs) q (x ∷ xs) r =
      ground (arith, (pop-Represents q x xs r).0, run-eq-fifo cs q (x ∷ xs) r)
  run-eq-fifo (counts ∷ cs) q xs r = ground (arith, r.counted, run-eq-fifo cs q xs r)
