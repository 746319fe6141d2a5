-- ===== src/Fat/Paths.antt =====
-- Findfile of Kernel/fat.cpp on whole paths.
use mikan_os_x.Base.{
  ℕ, zero, suc, ◌<◌, ◌≤◌, ◌≡◌, ◌≢◌, refl, ◌∙◌, Bool, true, false, ◌==◌, leb, if◌then◌else◌, List,
  [], ◌∷◌, ◌++◌, Option, none, some, length, length-append, arith,
}
use mikan_os_x.Fat.{Volume, first_cluster}
use mikan_os_x.Fat.Name.{next_path_element, split_first}
use mikan_os_x.Fat.Directory.{
  per_cluster, Slot, search_dir, begin_path, descend, find_file, rest_of, entry_of, is_path_last,
}
use mikan_os_x.Fat.Scan.{Directory, slots, first_match, search_dir-first_match}

unfoldable pub NoSlash : List ℕ → Type 0
NoSlash [] = Unit
NoSlash (c ∷ cs) = (c ≢ 47) × NoSlash cs

-- A name that fits into path_elem.
abbrev pub IsElement : List ℕ → Type 0
IsElement [] = ⊥
IsElement (c ∷ cs) = NoSlash (c ∷ cs) × (length (c ∷ cs) ≤ 12)

abbrev pub AreElements : List (List ℕ) → Type 0
AreElements [] = Unit
AreElements (e ∷ es) = IsElement e × AreElements es

-- A path of elements, with a slash at its end or not.
abbrev pub spelled : Bool → List ℕ → List (List ℕ) → List ℕ
spelled slash e [] = if slash then e ++ 47 ∷ [] else e
spelled slash e (e' ∷ es) = e ++ 47 ∷ spelled slash e' es

-- Whether a slash follows the first element.
abbrev pub has_slash : Bool → List (List ℕ) → Bool
has_slash slash [] = slash
has_slash slash (e ∷ es) = true

-- The cluster 0 stands for the root directory.
abbrev pub open_dir : ℕ → Volume → ℕ
open_dir dir v = if dir == 0 then v.bpb.root_cluster else dir

-- The clusters of a directory, whose chain ends.
abbrev pub HasClusters : Volume → ℕ → List ℕ → Type 0
HasClusters v dir cs = Directory v dir cs × (length cs ≤ length v.table)

-- The walk along a path: each element but the last leads to the directory that is the first match
-- in the one before. It ends early where there is no match, or where the match is no directory.
pub data Walk (v : Volume) (slash : Bool)
    : ℕ → List ℕ → List (List ℕ) → Option Slot × Bool → Type 0 where
  missing :
      {dir : ℕ} {cs e : List ℕ} {es : List (List ℕ)}
      → HasClusters v dir cs
      → first_match e v (slots (per_cluster v) cs) ≡ none
      → Walk v slash dir e es (none, has_slash slash es)
  found :
      {dir : ℕ} {cs e : List ℕ} {s : Slot}
      → HasClusters v dir cs
      → first_match e v (slots (per_cluster v) cs) ≡ some s
      → Walk v slash dir e [] (some s, slash)
  inside :
      {dir : ℕ} {cs e e' : List ℕ} {es : List (List ℕ)} {s : Slot} {r : Option Slot × Bool}
      → HasClusters v dir cs
      → first_match e v (slots (per_cluster v) cs) ≡ some s
      → (entry_of s v).attr ≡ 0x10
      → Walk v slash (open_dir (first_cluster (entry_of s v)) v) e' es r
      → Walk v slash dir e (e' ∷ es) r
  blocked :
      {dir : ℕ} {cs e e' : List ℕ} {es : List (List ℕ)} {s : Slot}
      → HasClusters v dir cs
      → first_match e v (slots (per_cluster v) cs) ≡ some s
      → (entry_of s v).attr ≢ 0x10
      → Walk v slash dir e (e' ∷ es) (some s, true)

split_first-none : (e : List ℕ) → NoSlash e → split_first 47 e ≡ none
unfolding split_first NoSlash
split_first-none [] plain = refl
split_first-none (c ∷ cs) (here, plain) =
    let other : (c == 47) ≡ false = ground (arith, here) in
    rw (other, split_first-none cs plain) refl

split_first-append :
    (e rest : List ℕ) → NoSlash e → split_first 47 (e ++ 47 ∷ rest) ≡ some (e, rest)
unfolding split_first NoSlash
split_first-append [] rest plain = refl
split_first-append (c ∷ cs) rest (here, plain) =
    let other : (c == 47) ≡ false = ground (arith, here) in
    rw (other, split_first-append cs rest plain) refl

-- What NextPathElement leaves of a path.
abbrev tail_of : Bool → List (List ℕ) → Option (List ℕ)
tail_of slash [] = if slash then some [] else none
tail_of slash (e ∷ es) = some (spelled slash e es)

next_path_element_lem :
    (slash : Bool) (e : List ℕ) (es : List (List ℕ))
    → NoSlash e
    → next_path_element (spelled slash e es) ≡ (e, tail_of slash es, has_slash slash es)
unfolding next_path_element
next_path_element_lem true e [] plain = rw (split_first-append e [] plain, next_path_element) refl
next_path_element_lem false e [] plain = rw (split_first-none e plain, next_path_element) refl
next_path_element_lem slash e (e' ∷ es) plain =
    rw (split_first-append e (spelled slash e' es) plain, next_path_element) refl

begin_path_lem :
    (slash : Bool) (e : List ℕ) (es : List (List ℕ)) (dir : ℕ) (v : Volume)
    → IsElement e
    → begin_path (spelled slash e es) dir v ≡ (open_dir dir v, spelled slash e es)
unfolding begin_path NoSlash
begin_path_lem slash [] es dir v ok = absurd ok
begin_path_lem true (c ∷ cs) [] dir v ok =
    let other : (c == 47) ≡ false = ground (arith, ok.0.0) in rw other refl
begin_path_lem false (c ∷ cs) [] dir v ok =
    let other : (c == 47) ≡ false = ground (arith, ok.0.0) in rw other refl
begin_path_lem slash (c ∷ cs) (e' ∷ es) dir v ok =
    let other : (c == 47) ≡ false = ground (arith, ok.0.0) in rw other refl

-- There is more of the path where there is another element.
more_lem :
    (slash : Bool) (e : List ℕ) (es : List (List ℕ))
    → IsElement e
    → is_path_last (some (spelled slash e es)) ≡ false
unfolding is_path_last
more_lem slash [] es ok = absurd ok
more_lem true (c ∷ cs) [] ok = refl
more_lem false (c ∷ cs) [] ok = refl
more_lem slash (c ∷ cs) (e' ∷ es) ok = refl

-- A call of Findfile after it has settled where to begin.
abbrev from_dir : ℕ → ℕ → List ℕ → Volume → Option (Option Slot × Bool)
from_dir fuel cluster path v =
    let (elem, next, post_slash) = next_path_element path in
    let found =
      descend (λ path' dir'. find_file fuel path' dir' v) next post_slash v
        (search_dir (suc (length v.table)) cluster elem v) in
    if leb (length elem) 12 then found else none

find_file_lem :
    (fuel : ℕ) (slash : Bool) (e : List ℕ) (es : List (List ℕ)) (dir : ℕ) (v : Volume)
    → IsElement e
    → find_file (suc fuel) (spelled slash e es) dir v
      ≡ from_dir fuel (open_dir dir v) (spelled slash e es) v
unfolding find_file
find_file_lem fuel slash e es dir v ok = rw (begin_path_lem slash e es dir v ok) refl

element-NoSlash : (e : List ℕ) → IsElement e → NoSlash e × (leb (length e) 12 ≡ true)
element-NoSlash [] ok = absurd ok
element-NoSlash (c ∷ cs) (plain, short) = (plain, ground (arith, short))

-- The search for the first element, and what follows it.
first_part :
    (fuel : ℕ) (slash : Bool) (dir : ℕ) (e cs : List ℕ) (es : List (List ℕ)) (v : Volume)
    → IsElement e
    → HasClusters v dir cs
    → from_dir fuel dir (spelled slash e es) v
      ≡ descend
          (λ path' dir'. find_file fuel path' dir' v)
          (tail_of slash es)
          (has_slash slash es)
          v
          (some (first_match e v (slots (per_cluster v) cs)))
first_part fuel slash dir e cs es v ok (d, short) =
    let (plain, fits) = element-NoSlash e ok in
    let found = search_dir-first_match (suc (length v.table)) dir cs e v d (omega (arith, short)) in
    rw (next_path_element_lem slash e es plain, fits, found) refl

last_lem : (slash : Bool) → is_path_last (tail_of slash []) ≡ true
unfolding is_path_last
last_lem true = refl
last_lem false = refl

from_dir-Walk :
    (v : Volume) (slash : Bool) (fuel dir : ℕ) (e : List ℕ) (es : List (List ℕ))
    (r : Option Slot × Bool)
    → AreElements (e ∷ es)
    → Walk v slash dir e es r
    → length (spelled slash e es) ≤ fuel
    → from_dir fuel dir (spelled slash e es) v ≡ some r
unfolding descend rest_of
from_dir-Walk v slash fuel dir e es _ ok (missing {cs = cs} d none_of) h =
    first_part fuel slash dir e cs es v ok.0 d ∙ rw none_of refl
from_dir-Walk v slash fuel dir e _ _ ok (found {cs = cs} {s = s} d here) h =
    first_part fuel slash dir e cs [] v ok.0 d ∙ rw (here, last_lem slash) (ground arith)
from_dir-Walk v slash fuel dir e _ _ ok (blocked {cs = cs} {e' = e'} {es = es} {s = s} d here file)
      h =
    let test : ((entry_of s v).attr == 0x10) ≡ false = ground (arith, file) in
    first_part fuel slash dir e cs (e' ∷ es) v ok.0 d ∙ rw (here, test) refl
from_dir-Walk v slash zero dir e _ r ok (inside {e' = e'} {es = es} d here folder walk) h =
    absurd (omega (arith, h, length-append e (47 ∷ spelled slash e' es)))
from_dir-Walk v slash (suc fuel) dir e _ r ok
      (inside {cs = cs} {e' = e'} {es = es} {s = s} d here folder walk) h =
    let test : ((entry_of s v).attr == 0x10) ≡ true = ground (arith, folder) in
    let next = open_dir (first_cluster (entry_of s v)) v in
    let size = length-append e (47 ∷ spelled slash e' es) in
    first_part (suc fuel) slash dir e cs (e' ∷ es) v ok.0 d
    ∙ rw (here, test, more_lem slash e' es ok.1.0)
        (find_file_lem fuel slash e' es (first_cluster (entry_of s v)) v ok.1.0
          ∙ from_dir-Walk v slash fuel next e' es r ok.1 walk (omega (arith, h, size)))

-- The path with a slash before it or not, and the directory that it begins in.
abbrev pub rooted : Bool → List ℕ → List ℕ
rooted absolute path = if absolute then 47 ∷ path else path

abbrev pub begin_dir : Bool → ℕ → Volume → ℕ
begin_dir absolute dir v = if absolute then v.bpb.root_cluster else open_dir dir v

-- Findfile of a path of elements of 1 to 12 characters, with more fuel than the path has
-- characters, returns what the walk along the path leads to, if the chains of the directories on it
-- end: from the root for an absolute path, and else from the directory, into the first match of
-- each element but the last, if it is a directory. It returns the first match of the last element,
-- null where an element has no match, and the match where it is no directory and the path goes on;
-- and whether a slash follows the element that it ended at.
pub find_file-Walk :
    (fuel : ℕ) (absolute slash : Bool) (dir : ℕ) (e : List ℕ) (es : List (List ℕ)) (v : Volume)
    (r : Option Slot × Bool)
    → AreElements (e ∷ es)
    → Walk v slash (begin_dir absolute dir v) e es r
    → length (spelled slash e es) < fuel
    → find_file fuel (rooted absolute (spelled slash e es)) dir v ≡ some r
unfolding find_file begin_path
find_file-Walk zero absolute slash dir e es v r ok walk h = absurd (omega arith)
find_file-Walk (suc fuel) true slash dir e es v r ok walk h =
    from_dir-Walk v slash fuel v.bpb.root_cluster e es r ok walk (omega (arith, h))
find_file-Walk (suc fuel) false slash dir e es v r ok walk h =
    find_file_lem fuel slash e es dir v ok.0
    ∙ from_dir-Walk v slash fuel (open_dir dir v) e es r ok walk (omega (arith, h))
