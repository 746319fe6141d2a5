-- ===== src/Memory/FirstFit.antt =====
-- Allocate ends, and takes the first run of free frames in its range.
use mikan_os_x.Base.{
  ℕ, zero, suc, ◌-◌, ◌+◌, ◌*◌, ◌^◌, ◌<◌, ◌≤◌, ◌≡◌, refl, true, false, arith, length, leb,
  if◌then◌else◌, add64, dec_lt, Option, none, some, Bool-cases, inl, inr, sym, ◌⊎◌, ap,
}
use mikan_os_x.Base.Fault.{success, no_enough_memory}
use mikan_os_x.Memory.{
  BitmapMemoryManager, get_bit, free, Probe, beyond, taken, fits, probe, search_from, search_fuel,
  allocate, Allocation, mark_allocated, conclude, null_frame,
}
use mikan_os_x.Memory.Ranges.{
  IsValid, within, get_bit-set_bits, set_bits-IsValid, set_bits-range_end, set_bits-range_begin,
}

-- The n frames from s on are free and below the range's end.
abbrev pub IsFree : BitmapMemoryManager → ℕ → ℕ → Type 0
IsFree m s n = (i : ℕ) → i < n → (s + i < m.range_end) × (get_bit m (s + i) ≡ false)

-- What the inner loop's result says of the frames from `start + i` on.
abbrev Found : BitmapMemoryManager → ℕ → ℕ → ℕ → Probe → Type 0
Found m start n i fits =
    (j : ℕ) → i ≤ j → j < i + n → (start + j < m.range_end) × (get_bit m (start + j) ≡ false)
Found m start n i beyond = (j : ℕ) × (j < i + n) × (m.range_end ≤ start + j)
Found m start n i (taken j) =
    (j < i + n) × (start + j < m.range_end) × (get_bit m (start + j) ≡ true)

Found-earlier :
    (m : BitmapMemoryManager) (start n i : ℕ) (r : Probe)
    → start + i < m.range_end
    → get_bit m (start + i) ≡ false
    → Found m start n (i + 1) r
    → Found m start (suc n) i r
Found-earlier m start n i beyond lt clear (j, p, q) = (j, omega arith, q)
Found-earlier m start n i (taken j) lt clear f = (omega arith, f.1, f.2)
Found-earlier m start n i fits lt clear f = λ j p q. elim (dec_lt i j) [
  | yes later ↦ f j (omega arith) (omega arith)
  | no same ↦ let e : j ≡ i = omega arith in rw e (lt, clear)
]

probe-Found :
    (m : BitmapMemoryManager) (start n i : ℕ)
    → m.range_end < 2 ^ 64
    → start + i < 2 ^ 64
    → Found m start n i (probe m start n i)
unfolding probe
probe-Found m start zero i hm h = λ j p q. absurd (omega arith)
probe-Found m start (suc n) i hm h =
    let e : add64 start i ≡ start + i = omega arith in
    rw e (elim (dec_lt (start + i) m.range_end) [
      | no past ↦
          let t : leb m.range_end (start + i) ≡ true = ground arith in
          rw t (i, omega arith, omega arith)
      | yes lt ↦
          let t : leb m.range_end (start + i) ≡ false = ground arith in
          rw t (elim (Bool-cases (get_bit m (start + i))) [
            | inl used ↦ rw used (omega arith, lt, used)
            | inr clear ↦ rw clear (
                Found-earlier m start n i (probe m start n (i + 1)) lt clear
                  (probe-Found m start n (i + 1) hm (omega arith)))
          ])
    ])

-- What Allocate is to find among the starts from `s` on: the first run of n free frames, or none.
abbrev pub FirstFit : BitmapMemoryManager → ℕ → ℕ → Option ℕ → Type 0
FirstFit m n s none = (t : ℕ) → s ≤ t → ¬ IsFree m t n
FirstFit m n s (some r) = (s ≤ r) × IsFree m r n × ((t : ℕ) → s ≤ t → t < r → ¬ IsFree m t n)

-- A start in front of a frame that spoils its run can be skipped.
FirstFit-skip :
    (m : BitmapMemoryManager) (n s s' : ℕ) (r : Option ℕ)
    → ((t : ℕ) → s ≤ t → t < s' → ¬ IsFree m t n)
    → s ≤ s'
    → FirstFit m n s' r
    → FirstFit m n s r
FirstFit-skip m n s s' none skip le f =
    λ t p. elim (dec_lt t s') [ yes lt ↦ skip t p lt | no ge ↦ f t (omega arith) ]
FirstFit-skip m n s s' (some r) skip le f = (
  omega arith,
  f.1,
  λ t p q. elim (dec_lt t s') [ yes lt ↦ skip t p lt | no ge ↦ f.2 t (omega arith) q ],
)

not-IsFree_taken :
    (m : BitmapMemoryManager) (n s j t : ℕ)
    → j < n
    → get_bit m (s + j) ≡ true
    → s ≤ t
    → t < s + j + 1
    → ¬ IsFree m t n
not-IsFree_taken m n s j t h used p q f =
    let e : t + (s + j - t) ≡ s + j = omega arith in
    let clear = (f (s + j - t) (omega arith)).1 in cc (used, ap (get_bit m) e)

search_from-FirstFit :
    (fuel : ℕ) (m : BitmapMemoryManager) (s n : ℕ)
    → m.range_end - s < fuel
    → m.range_end < 2 ^ 64 - 1
    → s < 2 ^ 64
    → (r : Option ℕ) × (search_from fuel m s n ≡ some r) × FirstFit m n s r
unfolding search_from
search_from-FirstFit zero m s n h hm hs = absurd (omega arith)
search_from-FirstFit (suc fuel) m s n h hm hs =
    go (λ s'. search_from-FirstFit fuel m s' n) (probe m s n 0) refl
      (probe-Found m s n 0 (omega arith) (omega arith))
  where
    go :
        ((s' : ℕ)
          → m.range_end - s' < fuel
          → m.range_end < 2 ^ 64 - 1
          → s' < 2 ^ 64
          → (r : Option ℕ) × (search_from fuel m s' n ≡ some r) × FirstFit m n s' r)
        → (p : Probe) → probe m s n 0 ≡ p
        → Found m s n 0 p
        → (r : Option ℕ) × (search_from (suc fuel) m s n ≡ some r) × FirstFit m n s r
    go ih fits e f = (
      some s,
      rw (e, search_from),
      (omega arith, (λ i lt. f i (omega arith) (omega arith)), λ t p q. absurd (omega arith)),
    )
    go ih beyond e (j, p, q) =
        (none, rw (e, search_from), λ t le free. absurd (omega (arith, (free j (omega arith)).0)))
    go ih (taken j) e (p, q, used) =
        let s' = add64 s (j + 1) in
        let e' : s' ≡ s + j + 1 = omega arith in
        let (r, found, first) = ih s' (omega arith) hm (omega arith) in
        (
          r,
          rw (e, search_from) found,
          FirstFit-skip m n s s' r
              (λ t le lt. not-IsFree_taken m n s j t (omega arith) used le (omega arith))
              (omega arith) first,
        )

-- Allocate ends in every state whose range lies in the map: the search needs no more rounds than
-- the range has frames. What it finds is the first run of `n` free frames in the range, if there
-- is one, and else none.
pub search-FirstFit :
    (m : BitmapMemoryManager) (n : ℕ)
    → IsValid m
    → m.range_begin < 2 ^ 64
    → (r : Option ℕ) × (search_from (search_fuel m) m m.range_begin n ≡ some r)
      × FirstFit m n m.range_begin r
search-FirstFit m n v h =
    search_from-FirstFit (search_fuel m) m m.range_begin n (omega arith)
      (omega (arith, v.lines, v.in_map)) h

-- A call of Allocate: how it ended, and the bits that it leaves behind.
pub data Allocates (m : BitmapMemoryManager) (n : ℕ) : Allocation → Type 0 where
  granted :
      (s : ℕ) (m' : BitmapMemoryManager)
      → FirstFit m n m.range_begin (some s)
      → ((f : ℕ) → get_bit m' f ≡ (if within s n f then true else get_bit m f))
      → IsValid m'
      → m'.range_end ≡ m.range_end
      → m'.range_begin ≡ m.range_begin
      → Allocates m n ((s, success), m')
  refused :
      ((t : ℕ) → m.range_begin ≤ t → ¬ IsFree m t n)
      → Allocates m n ((null_frame, no_enough_memory), m)

IsFree-bound : (m : BitmapMemoryManager) (s n : ℕ) → IsFree m s n → (n ≡ 0) ⊎ (s + n ≤ m.range_end)
IsFree-bound m s zero f = inl refl
IsFree-bound m s (suc n) f = inr (omega (arith, (f n (omega arith)).0))

-- Allocate of `n` frames, for any `n` but 0, always returns: either it takes the first run of `n`
-- free frames in its range, marks exactly these and leaves every other bit, or it reports
-- kNoEnoughMemory, changes nothing, and no run of `n` free frames stands in the range.
pub allocate-Allocates :
    (m : BitmapMemoryManager) (n : ℕ)
    → IsValid m
    → m.range_begin < 2 ^ 64
    → 0 < n
    → (r : Allocation) × (allocate n m ≡ some r) × Allocates m n r
unfolding allocate conclude mark_allocated
allocate-Allocates m n v h pos = go (search-FirstFit m n v h)
  where
    go :
        (r : Option ℕ) × (search_from (search_fuel m) m m.range_begin n ≡ some r)
          × FirstFit m n m.range_begin r
        → (r : Allocation) × (allocate n m ≡ some r) × Allocates m n r
    go (none, e, first) = (((null_frame, no_enough_memory), m), rw (e, allocate), refused first)
    go (some s, e, first) =
        let bound : s + n ≤ m.range_end = elim (IsFree-bound m s n first.1) [
          | inl z ↦ omega arith
          | inr b ↦ b
        ] in
        (
          ((s, success), mark_allocated s n m),
          rw (e, allocate),
          granted s (mark_allocated s n m) first
              (λ f.
                ground (arith, get_bit-set_bits true s n 0 m f v.lines (omega (arith, v.in_map))))
              (set_bits-IsValid true s n 0 m v) (set_bits-range_end true s n 0 m)
              (set_bits-range_begin true s n 0 m),
        )

-- Free returns kSuccess, clears exactly the `n` frames from `s` on and keeps the manager valid,
-- whenever these frames lie in the map.
pub free_lem :
    (m : BitmapMemoryManager) (s n : ℕ)
    → IsValid m
    → s + n ≤ 64 * length m.alloc_map
    → ((free s n m).0 ≡ success)
      × ((f : ℕ) → get_bit (free s n m).1 f ≡ (if within s n f then false else get_bit m f))
      × IsValid (free s n m).1
unfolding free
free_lem m s n v h = (
  refl,
  (λ f. ground (arith, get_bit-set_bits false s n 0 m f v.lines (omega arith))),
  set_bits-IsValid false s n 0 m v,
)

pub free-range_end : (m : BitmapMemoryManager) (s n : ℕ) → (free s n m).1.range_end ≡ m.range_end
unfolding free
free-range_end m s n = set_bits-range_end false s n 0 m

-- In a run of free frames, marking and clearing change nothing.
unmark :
    (m : BitmapMemoryManager) (s n f : ℕ)
    → IsFree m s n
    → (if within s n f then false else if within s n f then true else get_bit m f) ≡ get_bit m f
unmark m s n f free = elim (Bool-cases (within s n f)) [
  | inr out ↦ rw out
  | inl inside ↦
      let e : s + (f - s) ≡ f = ground arith in
      let lt : f - s < n = ground arith in
      let clear = rw e at (free (f - s) lt).1 in rw inside (sym clear)
]

-- Free undoes Allocate: when Allocate grants `n` frames and they are freed again, every frame
-- reads as before the call.
pub free-allocate :
    (m m' : BitmapMemoryManager) (s n : ℕ)
    → IsValid m
    → m.range_begin < 2 ^ 64
    → 0 < n
    → allocate n m ≡ some ((s, success), m')
    → (f : ℕ) → get_bit (free s n m').1 f ≡ get_bit m f
free-allocate m m' s n v h pos e f =
    let (a, e', w) = allocate-Allocates m n v h pos in
    (let p : a ≡ ((s, success), m') = cc in go a w p)
  where
    go :
        (a : Allocation)
        → Allocates m n a
        → a ≡ ((s, success), m')
        → get_bit (free s n m').1 f ≡ get_bit m f
    go a (refused _) p = cc
    go a (granted s0 m0 first bits v0 same _) p =
        let es : s0 ≡ s = ap (λ (x : Allocation). x.0.0) p in
        let em : m0 ≡ m' = ap (λ (x : Allocation). x.1) p in
        let bound : s0 + n ≤ m.range_end = elim (IsFree-bound m s0 n first.1) [
          | inl z ↦ omega arith
          | inr b ↦ b
        ] in
        let freed = (free_lem m0 s0 n v0 (omega (arith, v0.in_map))).1 f in
        rw (← es, ← em, freed, bits f) (unmark m s0 n f first.1)
