-- ===== src/Fat/Extend.antt =====
-- ExtendCluster of Kernel/fat.cpp: the clusters that it puts behind a chain, and what it leaves
-- alone.
use mikan_os_x.Base.{
  ℕ, zero, suc, ◌+◌, ◌-◌, ◌<◌, ◌≤◌, ◌≡◌, ◌≢◌, refl, ap, sym, ◌∙◌, subst, true, false, ◌==◌, List,
  [], ◌∷◌, ◌++◌, Option, none, some, get_elem?, get_or, set, length, length-set, arith,
  get_or-set_self, get_or-set_ne, Bool-cases, inl, inr, ◌⊎◌,
}
use mikan_os_x.Fat.{is_end, end_of_chain, chain_end, extend_from, extend_cluster}
use mikan_os_x.Fat.Chain.{
  Chain, last, link, Avoids, AllFree, used-Avoids, free_count, free_count-set, still_free,
}

-- The outcome of linking n free clusters behind the current one: only these entries and the
-- current one change.
pub record IsExtended (table : List ℕ) (current n : ℕ) (new : List ℕ) (table' : List ℕ)
    : Type 0 where
  pub sized : length table' ≡ length table
  pub counted : length new ≡ n
  pub free : AllFree table new
  pub chained : Chain table' current (current ∷ new)
  pub framed : (i : ℕ) → i ≢ current → Avoids i new → get_or table' i 1 ≡ get_or table i 1

pub Extends : ℕ → ℕ → List ℕ → ℕ → ℕ → Option (ℕ × List ℕ) → Type 0
Extends fuel candidate table current n none = free_count fuel candidate table < n
Extends fuel candidate table current n (some (end, table')) =
    (new : List ℕ) × IsExtended table current n new table'

finish-IsExtended :
    (table : List ℕ) (current : ℕ)
    → current < length table
    → IsExtended table current 0 [] (set table current end_of_chain)
unfolding AllFree
finish-IsExtended table current inside = record {
  sized = length-set table current end_of_chain;
  counted = refl;
  free = tt;
  chained =
      last (omega (arith, length-set table current end_of_chain))
        (ap is_end (get_or-set_self table current end_of_chain 1 inside));
  framed = λ i ne avoids. get_or-set_ne table current i end_of_chain 1 (λ e. ne (sym e));
}

-- A free candidate goes behind the current cluster.
link-IsExtended :
    (table : List ℕ) (current candidate n : ℕ) (new : List ℕ) (table' : List ℕ)
    → current < length table
    → current ≢ candidate
    → 2 ≤ candidate
    → is_end candidate ≡ false
    → get_or table candidate 1 ≡ 0
    → IsExtended (set table current candidate) candidate n new table'
    → IsExtended table current (suc n) (candidate ∷ new) table'
unfolding AllFree Avoids
link-IsExtended table current candidate n new table' inside differ low not_end free ext =
    let here : get_or (set table current candidate) current 1 ≡ candidate =
      get_or-set_self table current candidate 1 inside in
    let apart : Avoids current new =
      used-Avoids (set table current candidate) current new (λ e. ground (arith, here, e))
        ext.free in
    record {
      sized = ext.sized ∙ length-set table current candidate;
      counted = ap suc ext.counted;
      free = (free, still_free table current candidate new apart ext.free);
      chained =
          link (omega (arith, ext.sized, length-set table current candidate))
            (ext.framed current differ apart ∙ here) not_end (λ e. omega arith) ext.chained;
      framed = λ i ne avoids.
          ext.framed i avoids.0 avoids.1
          ∙ get_or-set_ne table current i candidate 1 (λ e. ne (sym e));
    }

free_apart :
    (table : List ℕ) (current candidate : ℕ)
    → get_or table candidate 1 ≡ 0
    → (get_or table current 1 ≢ 0) ⊎ (current < candidate)
    → current ≢ candidate
free_apart table current candidate free (inl used) e =
    used (subst (λ k. get_or table k 1 ≡ 0) (sym e) free)
free_apart table current candidate free (inr below) e = omega arith

skip-Extends :
    (fuel candidate current n : ℕ) (table : List ℕ)
    → (get_or table candidate 1 == 0) ≡ false
    → (o : Option (ℕ × List ℕ)) → Extends fuel (suc candidate) table current n o
    → Extends (suc fuel) candidate table current n o
unfolding Extends free_count
skip-Extends fuel candidate current n table taken none h = rw taken (omega arith)
skip-Extends fuel candidate current n table taken (some (end, table')) h = h

step-Extends :
    (fuel candidate current n : ℕ) (table : List ℕ)
    → current < length table
    → 2 ≤ candidate
    → is_end candidate ≡ false
    → (get_or table candidate 1 == 0) ≡ true
    → (get_or table current 1 ≢ 0) ⊎ (current < candidate)
    → (o : Option (ℕ × List ℕ))
    → Extends fuel (suc candidate) (set table current candidate) candidate n o
    → Extends (suc fuel) candidate table current (suc n) o
unfolding Extends free_count
step-Extends fuel candidate current n table inside low not_end vacant used none h =
    let later : (get_or table current 1 ≢ 0) ⊎ (current < suc candidate) = elim used [
      | inl a ↦ inl a
      | inr b ↦ inr (omega arith)
    ] in
    rw vacant (
      omega (
        arith,
        free_count-set fuel (suc candidate) current candidate table inside (λ e. omega arith) later,
      ))
step-Extends fuel candidate current n table inside low not_end vacant used (some (end, table'))
      (new, ext) =
    let free : get_or table candidate 1 ≡ 0 = ground arith in
    (
      candidate ∷ new,
      link-IsExtended table current candidate n new table' inside
          (free_apart table current candidate free used) low not_end free ext,
    )

extend_from-Extends :
    (fuel candidate current n : ℕ) (table : List ℕ)
    → current < length table
    → 2 ≤ candidate
    → candidate + fuel ≤ length table
    → length table ≤ 268435448
    → (get_or table current 1 ≢ 0) ⊎ (current < candidate)
    → Extends fuel candidate table current n (extend_from fuel candidate current n table)
unfolding extend_from Extends free_count
extend_from-Extends fuel candidate current zero table inside low high small used =
    ([], finish-IsExtended table current inside)
extend_from-Extends zero candidate current (suc n) table inside low high small used = omega arith
extend_from-Extends (suc fuel) candidate current (suc n) table inside low high small used =
    let later : (get_or table current 1 ≢ 0) ⊎ (current < suc candidate) = elim used [
      | inl a ↦ inl a
      | inr b ↦ inr (omega arith)
    ] in
    elim (Bool-cases (get_or table candidate 1 == 0)) [
      | inr taken ↦ rw taken (
          skip-Extends fuel candidate current (suc n) table taken
            (extend_from fuel (suc candidate) current (suc n) table)
            (extend_from-Extends fuel (suc candidate) current (suc n) table inside (omega arith)
              (omega arith) small later))
      | inl vacant ↦
          let kept = length-set table current candidate in
          rw vacant (
            step-Extends fuel candidate current n table inside low (ground arith) vacant used
              (extend_from fuel (suc candidate) candidate n (set table current candidate))
              (extend_from-Extends fuel (suc candidate) candidate n (set table current candidate)
                (omega (arith, kept)) (omega arith) (omega (arith, kept)) (omega (arith, kept))
                (inr (omega arith))))
    ]

get_elem?-get_or :
    (table : List ℕ) (i : ℕ) → i < length table → get_elem? table i ≡ some (get_or table i 1)
get_elem?-get_or [] i h = absurd (omega arith)
get_elem?-get_or (x ∷ xs) zero h = refl
get_elem?-get_or (x ∷ xs) (suc i) h = get_elem?-get_or xs i (omega arith)

-- The last cluster of a chain, which the first loop finds, and what an extension of it does to
-- the chain.
pub record IsLast (table : List ℕ) (cluster end : ℕ) (cs : List ℕ) : Type 0 where
  pub inside : end < length table
  pub ended : is_end (get_or table end 1) ≡ true
  pub longer :
      (n : ℕ) (new table' : List ℕ)
      → IsExtended table end n new table'
      → Chain table' cluster (cs ++ new)

ends_differ :
    (table : List ℕ) (cluster end next : ℕ)
    → get_or table cluster 1 ≡ next
    → is_end next ≡ false
    → is_end (get_or table end 1) ≡ true
    → cluster ≡ end
    → ⊥
ends_differ table cluster end next e f t s =
    let same : get_or table end 1 ≡ next = subst (λ k. get_or table k 1 ≡ next) s e in
    ground (arith, same, f, t)

chain_end-IsLast :
    (fuel cluster : ℕ) (table cs : List ℕ)
    → length cs ≤ fuel
    → Chain table cluster cs
    → (end : ℕ) × (chain_end fuel cluster table ≡ some end) × IsLast table cluster end cs
unfolding chain_end
chain_end-IsLast zero cluster table _ h (last inside e) = absurd (omega arith)
chain_end-IsLast zero cluster table _ h (link inside e f z more) = absurd (omega arith)
chain_end-IsLast (suc fuel) cluster table _ h (last inside e) = (
  cluster,
  rw (get_elem?-get_or table cluster inside, chain_end, e) refl,
  record { inside = inside; ended = e; longer = λ n new table' ext. ext.chained },
)
chain_end-IsLast (suc fuel) cluster table _ h (link {next = next} {rest = rest} inside e f z more) =
    let (end, found, ok) = chain_end-IsLast fuel next table rest (omega arith) more in
    (
      end,
      rw (get_elem?-get_or table cluster inside, chain_end, e, f) found,
      record {
        inside = ok.inside;
        ended = ok.ended;
        longer = λ n new table' ext.
            let differ : cluster ≢ end = λ s. ends_differ table cluster end next e f ok.ended s in
            let avoids : Avoids cluster new =
              used-Avoids table cluster new (λ u. z (sym e ∙ u)) ext.free in
            link (omega (arith, ext.sized)) (ext.framed cluster differ avoids ∙ e) f z
              (ok.longer n new table' ext);
      },
    )

ends_used :
    (table : List ℕ) (end : ℕ) → is_end (get_or table end 1) ≡ true → get_or table end 1 ≡ 0 → ⊥
ends_used table end h e = ground (arith, h, e)

-- What ExtendCluster answers for a chain.
pub ExtendsChain : List ℕ → ℕ → ℕ → List ℕ → Option (ℕ × List ℕ) → Type 0
ExtendsChain table cluster n cs none = free_count (length table - 2) 2 table < n
ExtendsChain table cluster n cs (some (after, table')) =
    (end : ℕ) × (new : List ℕ) × IsExtended table end n new table'
    × Chain table' cluster (cs ++ new)

behind :
    (table : List ℕ) (cluster n : ℕ) (cs : List ℕ) (end : ℕ)
    → IsLast table cluster end cs
    → (o : Option (ℕ × List ℕ)) → Extends (length table - 2) 2 table end n o
    → ExtendsChain table cluster n cs o
unfolding Extends ExtendsChain
behind table cluster n cs end ok none h = h
behind table cluster n cs end ok (some (after, table')) (new, ext) =
    (end, new, ext, ok.longer n new table' ext)

-- ExtendCluster by n clusters, for a chain no longer than the table and a table of 2 to
-- 0x0ffffff8 entries: it fails only where fewer than n entries are free; else n entries that were
-- free stand in order behind the clusters of the chain, and no other entry but that of the
-- chain's last cluster changes.
pub extend_cluster_lem :
    (cluster n : ℕ) (table cs : List ℕ)
    → 2 ≤ length table
    → length table ≤ 268435448
    → length cs ≤ length table
    → Chain table cluster cs
    → ExtendsChain table cluster n cs (extend_cluster cluster n table)
unfolding extend_cluster
extend_cluster_lem cluster n table cs low small short chain =
    let (end, found, ok) = chain_end-IsLast (length table) cluster table cs short chain in
    let used : get_or table end 1 ≢ 0 = λ e. ends_used table end ok.ended e in
    rw (found, extend_cluster)
      (behind table cluster n cs end ok (extend_from (length table - 2) 2 end n table) (
        extend_from-Extends (length table - 2) 2 end n table ok.inside (omega arith) (omega arith)
          small (inl used)))
