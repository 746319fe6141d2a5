-- ===== src/Fat/Directory.antt =====
-- Findfile, AllocateEntry and CreateFile of Kernel/fat.cpp: the entries of directories.
use mikan_os_x.Base.{
  ℕ, zero, suc, ◌+◌, ◌*◌, ◌/◌, ◌^◌, Bool, true, false, ◌==◌, leb, ◌&&◌, not, if◌then◌else◌, List,
  [], ◌∷◌, Option, none, some, get_or, take, drop, length,
}
use mikan_os_x.Fat.{
  bytes_per_cluster, Volume, get_sector, end_of_chain, next_cluster, DirectoryEntry, first_cluster,
}
use mikan_os_x.Fat.Name.{next_path_element, name_is_equal}

-- A word of `n` bytes, the lowest first.
unfoldable pub little_endian : ℕ → List ℕ → ℕ
little_endian zero bytes = 0
little_endian (suc n) [] = 0
little_endian (suc n) (b ∷ bytes) = b + little_endian n bytes * 2 ^ 8

-- dir[i]
unfoldable pub entry_at : List ℕ → ℕ → DirectoryEntry
entry_at sec i =
    let at = λ (field : ℕ). drop (32 * i + field) sec in
    record {
      name = take 11 (at 0);
      attr = little_endian 1 (at 11);
      first_cluster_high = little_endian 2 (at 20);
      first_cluster_low = little_endian 2 (at 26);
      file_size = little_endian 4 (at 28);
    }

abbrev pub name_0 : DirectoryEntry → ℕ
name_0 entry = get_or entry.name 0 0

abbrev pub per_cluster : Volume → ℕ
per_cluster v = bytes_per_cluster v.bpb / 32

-- How the loop over the entries of a cluster ends: at a name that begins with 0, at an entry, or
-- behind the last one.
pub data Look : Type 0 where
  ended : Look
  present : ℕ → Look
  absent : Look

unfoldable pub look : ℕ → ℕ → List ℕ → List ℕ → Look
look zero i sec elem = absent
look (suc rounds) i sec elem =
    let next = look rounds (suc i) sec elem in
    if name_0 (entry_at sec i) == 0
    then ended
    else if name_is_equal (entry_at sec i).name elem
    then present i
    else next

-- A pointer to an entry: its cluster, and its index there.
abbrev pub Slot : Type 0
Slot = ℕ × ℕ

unfoldable pub after_look : ℕ → Look → Option (Option Slot) → Option (Option Slot)
after_look cluster ended next = some none
after_look cluster (present i) next = some (some (cluster, i))
after_look cluster absent next = next

-- The loops of Findfile for one element of a path; `none` where the image has no such cluster, and
-- where the fuel ends. A chain that ends is no longer than the table, which is fuel enough; on a
-- chain that leads back to itself the source may search for ever.
unfoldable pub search_dir : ℕ → ℕ → List ℕ → Volume → Option (Option Slot)
search_dir zero cluster elem v = none
search_dir (suc fuel) cluster elem v =
    let on = λ (next : ℕ). search_dir fuel next elem v in
    if cluster == end_of_chain then some none else elim (get_sector cluster v) [
      | none ↦ none
      | some sec ↦
          after_look cluster (look (per_cluster v) 0 sec elem)
            (elim (next_cluster cluster v.table) [ none ↦ none | some next ↦ on next ])
    ]

-- Where Findfile begins, and the path from there.
unfoldable pub begin_path : List ℕ → ℕ → Volume → ℕ × List ℕ
begin_path [] dir v = (if dir == 0 then v.bpb.root_cluster else dir, [])
begin_path (c ∷ path) dir v =
    if c == 47
    then (v.bpb.root_cluster, path)
    else (if dir == 0 then v.bpb.root_cluster else dir, c ∷ path)

-- next_path == nullptr || next_path[0] == 0
unfoldable pub is_path_last : Option (List ℕ) → Bool
is_path_last none = true
is_path_last (some []) = true
is_path_last (some (c ∷ path)) = false

unfoldable pub rest_of : Option (List ℕ) → List ℕ
rest_of none = []
rest_of (some path) = path

-- The entry that a slot points to.
unfoldable pub entry_of : Slot → Volume → DirectoryEntry
entry_of (cluster, i) v = elim (get_sector cluster v) [
  | none ↦ entry_at [] 0
  | some sec ↦ entry_at sec i
]

unfoldable pub descend :
    (List ℕ → ℕ → Option (Option Slot × Bool))
    → Option (List ℕ)
    → Bool
    → Volume
    → Option (Option Slot)
    → Option (Option Slot × Bool)
descend again next post_slash v none = none
descend again next post_slash v (some none) = some (none, post_slash)
descend again next post_slash v (some (some slot)) =
    if ((entry_of slot v).attr == 0x10) && not (is_path_last next)
    then again (rest_of next) (first_cluster (entry_of slot v))
    else some (some slot, post_slash)

-- Findfile. Each call of itself has a shorter path, so that its length and one more is fuel enough.
-- An element of more than 12 characters does not fit into path_elem: `none`, as for a search that
-- has no result.
unfoldable pub find_file : ℕ → List ℕ → ℕ → Volume → Option (Option Slot × Bool)
find_file zero path dir v = none
find_file (suc fuel) path dir v =
    let (cluster, rel) = begin_path path dir v in
    let (elem, next, post_slash) = next_path_element rel in
    let found =
      descend (λ path' dir'. find_file fuel path' dir' v) next post_slash v
        (search_dir (suc (length v.table)) cluster elem v) in
    if leb (length elem) 12 then found else none
