-- ===== src/Fat/Create.antt =====
-- AllocateEntry and CreateFile of Kernel/fat.cpp.
use mikan_os_x.Base.{
  ℕ, zero, suc, ◌+◌, ◌*◌, Bool, ◌==◌, ◌||◌, if◌then◌else◌, List, [], ◌∷◌, Option, none, some,
  length, replicate,
}
use mikan_os_x.Base.Fault.{Code, success, is_directory, no_such_entry}
use mikan_os_x.Fat.{
  bytes_per_cluster, Volume, get_sector, end_of_chain, next_cluster, extend_cluster, first_cluster,
}
use mikan_os_x.Fat.Name.{split_last, set_file_name}
use mikan_os_x.Fat.Write.{overwrite, put_sector}
use mikan_os_x.Fat.Directory.{entry_at, name_0, per_cluster, Slot, entry_of, find_file}

-- The loop over the entries of a cluster: the first one that is free.
unfoldable pub free_entry : ℕ → ℕ → List ℕ → Option ℕ
free_entry zero i sec = none
free_entry (suc rounds) i sec =
    let next = free_entry rounds (suc i) sec in
    if name_0 (entry_at sec i) == 0 || name_0 (entry_at sec i) == 0xe5 then some i else next

-- A cluster of zeros behind the last one.
unfoldable pub new_cluster : Volume → Option (ℕ × List ℕ) → Option (Slot × Volume)
new_cluster v none = none
new_cluster v (some (cluster, table)) = some (
  (cluster, 0),
  put_sector cluster (replicate (bytes_per_cluster v.bpb) 0) (record v { table = table }),
)

unfoldable pub unless_last :
    (ℕ → Option (Slot × Volume)) → ℕ → Volume → Option ℕ → Option (Slot × Volume)
unless_last again cluster v none = none
unless_last again cluster v (some next) =
    if next == end_of_chain then new_cluster v (extend_cluster cluster 1 v.table) else again next

unfoldable pub take_free :
    (ℕ → Option (Slot × Volume)) → ℕ → Volume → Option ℕ → Option (Slot × Volume)
take_free again cluster v none = unless_last again cluster v (next_cluster cluster v.table)
take_free again cluster v (some i) = some ((cluster, i), v)

-- AllocateEntry; a chain is no longer than the table, which is fuel enough.
unfoldable pub allocate_entry : ℕ → ℕ → Volume → Option (Slot × Volume)
allocate_entry zero dir_cluster v = none
allocate_entry (suc fuel) dir_cluster v =
    let again = λ (next : ℕ). allocate_entry fuel next v in
    elim (get_sector dir_cluster v) [
      | none ↦ none
      | some sec ↦ take_free again dir_cluster v (free_entry (per_cluster v) 0 sec)
    ]

-- The name and the size of a new entry. Its other fields stay as they are.
unfoldable pub name_entry : List ℕ → ℕ → List ℕ → List ℕ
name_entry filename i sec =
    overwrite (32 * i + 28) (replicate 4 0) (overwrite (32 * i) (set_file_name filename) sec)

unfoldable pub store_entry :
    List ℕ → Option (Slot × Volume) → Option ((Option Slot × Code) × Volume)
store_entry filename none = none
store_entry filename (some ((cluster, i), v)) = elim (get_sector cluster v) [
  | none ↦ none
  | some sec ↦ some ((some (cluster, i), success), put_sector cluster (name_entry filename i sec) v)
]

unfoldable pub create_in : List ℕ → ℕ → Volume → Option ((Option Slot × Code) × Volume)
create_in filename cluster v =
    store_entry filename (allocate_entry (suc (length v.table)) cluster v)

-- The directory that Findfile gives.
unfoldable pub create_below :
    List ℕ → Volume → Option (Option Slot × Bool) → Option ((Option Slot × Code) × Volume)
create_below filename v none = none
create_below filename v (some (none, post_slash)) = some ((none, no_such_entry), v)
create_below filename v (some (some slot, post_slash)) =
    create_in filename (first_cluster (entry_of slot v)) v

unfoldable pub create_split : Volume → List ℕ → List ℕ → Option ((Option Slot × Code) × Volume)
create_split v parent [] = some ((none, is_directory), v)
create_split v [] (c ∷ filename) = create_in (c ∷ filename) v.bpb.root_cluster v
create_split v (d ∷ parent) (c ∷ filename) =
    create_below (c ∷ filename) v (find_file (suc (suc (length parent))) (d ∷ parent) 0 v)

-- CreateFile: a pointer to the entry, or an error.
unfoldable pub create_file : List ℕ → Volume → Option ((Option Slot × Code) × Volume)
create_file path v = elim (split_last 47 path) [
  | none ↦ create_in path v.bpb.root_cluster v
  | some parts ↦ create_split v parts.0 parts.1
]
