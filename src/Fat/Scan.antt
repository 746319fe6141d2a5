-- ===== src/Fat/Scan.antt =====
-- Findfile of Kernel/fat.cpp: its nested loops against a scan of all entries of a directory.
use mikan_os_x.Base.{
  ℕ, zero, suc, ◌<◌, ◌≡◌, ◌≢◌, refl, false, ◌==◌, if◌then◌else◌, List, [], ◌∷◌, ◌++◌, Option, none,
  some, length, arith, Bool-cases, inl, inr,
}
use mikan_os_x.Fat.{Volume, get_sector, end_of_chain, next_cluster}
use mikan_os_x.Fat.Name.{name_is_equal}
use mikan_os_x.Fat.Directory.{
  entry_at, name_0, per_cluster, look, Slot, after_look, search_dir, entry_of,
}

-- The clusters of a directory, in the order of their chain, to its end.
pub data Directory (v : Volume) : ℕ → List ℕ → Type 0 where
  ends : Directory v end_of_chain []
  goes :
      {cluster next : ℕ} {sec cs : List ℕ}
      → cluster ≢ end_of_chain
      → get_sector cluster v ≡ some sec
      → next_cluster cluster v.table ≡ some next
      → Directory v next cs
      → Directory v cluster (cluster ∷ cs)

-- The entries of a cluster from one on.
abbrev pub row : ℕ → ℕ → ℕ → List Slot
row zero cluster i = []
row (suc n) cluster i = (cluster, i) ∷ row n cluster (suc i)

-- All entries of a directory.
abbrev pub slots : ℕ → List ℕ → List Slot
slots n [] = []
slots n (c ∷ cs) = row n c 0 ++ slots n cs

-- The first entry of a name, before the first one whose name begins with 0.
unfoldable pub first_match : List ℕ → Volume → List Slot → Option Slot
first_match elem v [] = none
first_match elem v (slot ∷ more) =
    let next = first_match elem v more in
    if name_0 (entry_of slot v) == 0
    then none
    else if name_is_equal (entry_of slot v).name elem
    then some slot
    else next

entry_of_lem :
    (i cluster : ℕ) (sec : List ℕ) (v : Volume)
    → get_sector cluster v ≡ some sec
    → entry_of (cluster, i) v ≡ entry_at sec i
unfolding entry_of
entry_of_lem i cluster sec v e = rw (e, entry_of) refl

look_lem :
    (rounds i cluster : ℕ) (sec elem : List ℕ) (more : List Slot) (v : Volume)
    → get_sector cluster v ≡ some sec
    → after_look cluster (look rounds i sec elem) (some (first_match elem v more))
      ≡ some (first_match elem v (row rounds cluster i ++ more))
unfolding look first_match after_look
look_lem zero i cluster sec elem more v e = refl
look_lem (suc rounds) i cluster sec elem more v e =
    let rest = look_lem rounds (suc i) cluster sec elem more v e in
    let here = entry_of_lem i cluster sec v e in
    rw here (elim (Bool-cases (name_0 (entry_at sec i) == 0)) [
      | inl last ↦ rw last refl
      | inr more_entries ↦
          rw more_entries (elim (Bool-cases (name_is_equal (entry_at sec i).name elem)) [
            | inl same ↦ rw same refl
            | inr other ↦ rw other rest
          ])
    ])

-- A search of a directory, for one element of a path, ends, and finds the first entry with this
-- name, if it stands before the first entry whose name begins with 0: the nested loops over
-- clusters and entries, with their jump out of both, are a scan of all entries in the order of the
-- chain.
pub search_dir-first_match :
    (fuel cluster : ℕ) (cs elem : List ℕ) (v : Volume)
    → Directory v cluster cs
    → length cs < fuel
    → search_dir fuel cluster elem v ≡ some (first_match elem v (slots (per_cluster v) cs))
unfolding search_dir first_match
search_dir-first_match zero cluster cs elem v d h = absurd (omega arith)
search_dir-first_match (suc fuel) _ _ elem v ends h = refl
search_dir-first_match (suc fuel) _ _ elem v (goes {cluster} {next} {sec} {cs} more e link d) h =
    let rest = search_dir-first_match fuel next cs elem v d (omega arith) in
    let on : (cluster == end_of_chain) ≡ false = ground (arith, more) in
    rw (on, e, link, rest)
      (look_lem (per_cluster v) 0 cluster sec elem (slots (per_cluster v) cs) v e)
