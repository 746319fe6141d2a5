-- ===== src/Fat/Tests.antt =====
-- A volume with two bytes in a cluster and a file over the clusters 3 and 5.
use mikan_os_x.Base.{ℕ, ◌≡◌, refl, [], ◌∷◌, List, some, true, arith, min, ◌-◌}
use mikan_os_x.Fat.{
  Volume, DirectoryEntry, fresh_descriptor, read, get_sector, next_cluster, settle, extend_cluster,
  extend_from, chain_end, bytes_per_cluster, first_cluster,
}
use mikan_os_x.Fat.Chain.{Chain, last, link}
use mikan_os_x.Fat.Extend.{ExtendsChain, extend_cluster_lem}
use mikan_os_x.Fat.{load, load_file}
use mikan_os_x.Fat.Load.{load_file_lem, load_lem}
use mikan_os_x.Fat.Read.{Tail, ends, goes}
use mikan_os_x.Fat.Read.{Answers, IsReading, ends, goes, start, read-Answers}
use mikan_os_x.Fat.Name.{name_is_equal, set_file_name, name_is_equal-set_file_name, NoDot}
use mikan_os_x.Base.{◌≢◌, ℕ, ◌+◌, ◌<◌, ◌≤◌, take, length, word32, add64}
use mikan_os_x.Fat.{FileDescriptor, end_of_chain}
use mikan_os_x.Fat.Write.{overwrite, put_sector, write}
use mikan_os_x.Fat.Written.{current_cluster, write-inside, read-write}
use mikan_os_x.Fat.Overrun.{write-past, room_of, grown}
use mikan_os_x.Base.{if◌then◌else◌, ltb, none, false, true, ◌++◌}
use mikan_os_x.Fat.Name.{name_is_equal, same_bytes, fill83, toupper, blank}
use mikan_os_x.Fat.Directory.{entry_at, entry_of, little_endian}
use mikan_os_x.Fat.{first_cluster}
use mikan_os_x.Base.{replicate}
use mikan_os_x.Fat.Directory.{per_cluster, search_dir, find_file}
use mikan_os_x.Fat.Scan.{Directory, slots, first_match, search_dir-first_match}
use mikan_os_x.Fat.Paths.{NoSlash, HasClusters, Walk, find_file-Walk}

abbrev table : List ℕ
table = 268435448 ∷ 268435455 ∷ 268435455 ∷ 5 ∷ 0 ∷ 268435455 ∷ 0 ∷ []

abbrev volume : Volume
volume = record {
  bpb = record {
    bytes_per_sector = 2;
    sectors_per_cluster = 1;
    reserved_sector_count = 1;
    num_fats = 1;
    fat_size_32 = 14;
    root_cluster = 2;
  };
  table = table;
  clusters = (0 ∷ 0 ∷ []) ∷ (11 ∷ 12 ∷ []) ∷ (0 ∷ 0 ∷ []) ∷ (13 ∷ 14 ∷ []) ∷ (0 ∷ 0 ∷ []) ∷ [];
}

abbrev entry : DirectoryEntry
entry = record {
  name = [];
  attr = 32;
  first_cluster_high = 0;
  first_cluster_low = 3;
  file_size = 3;
}

entry-IsReading : IsReading volume entry fresh_descriptor (11 ∷ 12 ∷ 13 ∷ 14 ∷ [])
unfolding first_cluster get_sector next_cluster settle bytes_per_cluster
entry-IsReading = record {
  position =
      start
        (goes {sec = 11 ∷ 12 ∷ []} refl refl refl (goes {sec = 13 ∷ 14 ∷ []} refl refl refl ends));
  word = omega arith;
  within = omega arith;
  backed = omega arith;
}

clusters_hold : (n : ℕ) → n ≡ 2 → n ≡ bytes_per_cluster volume.bpb
unfolding bytes_per_cluster
clusters_hold n e = e

read-Answers_example :
    Answers volume entry
      (min 9 (entry.file_size - 0))
      (11 ∷ 12 ∷ 13 ∷ 14 ∷ [])
      (read 9 entry fresh_descriptor volume)
read-Answers_example =
    read-Answers 9 entry fresh_descriptor volume (11 ∷ 12 ∷ 13 ∷ 14 ∷ [])
      (omega (arith, clusters_hold 2 refl)) entry-IsReading

table-Chain : Chain table 3 (3 ∷ 5 ∷ [])
table-Chain = link (omega arith) refl refl (λ e. omega arith) (last (omega arith) refl)

extend_cluster_lem_example : ExtendsChain table 3 2 (3 ∷ 5 ∷ []) (extend_cluster 3 2 table)
extend_cluster_lem_example =
    extend_cluster_lem 3 2 table (3 ∷ 5 ∷ []) (omega arith) (omega arith) (omega arith) table-Chain

extended :
    extend_cluster 3 2 table
    ≡ some (6, 268435448 ∷ 268435455 ∷ 268435455 ∷ 5 ∷ 6 ∷ 4 ∷ 268435455 ∷ [])
unfolding extend_cluster chain_end extend_from
extended = refl

-- "ab.c"
plain : NoDot (97 ∷ 98 ∷ [])
unfolding NoDot
plain = ((λ e. omega arith), ((λ e. omega arith), tt))

plain_extension : NoDot (99 ∷ [])
unfolding NoDot
plain_extension = (λ e. omega arith, tt)

name_is_equal-set_file_name_example :
    name_is_equal (set_file_name (97 ∷ 98 ∷ 46 ∷ 99 ∷ [])) (97 ∷ 98 ∷ 46 ∷ 99 ∷ []) ≡ true
name_is_equal-set_file_name_example =
    name_is_equal-set_file_name (97 ∷ 98 ∷ []) (99 ∷ []) plain plain_extension (omega arith)
      (omega arith)

entry-Tail : Tail volume (first_cluster entry) (11 ∷ 12 ∷ 13 ∷ 14 ∷ [])
unfolding first_cluster get_sector next_cluster settle bytes_per_cluster
entry-Tail =
    goes {sec = 11 ∷ 12 ∷ []} refl refl refl (goes {sec = 13 ∷ 14 ∷ []} refl refl refl ends)

load_file_lem_example : load_file 3 entry volume ≡ some (11 ∷ 12 ∷ 13 ∷ [])
load_file_lem_example =
    load_file_lem 3 entry volume (11 ∷ 12 ∷ 13 ∷ 14 ∷ []) (omega (arith, clusters_hold 2 refl))
      (omega arith) entry-Tail

load_lem_example : load 5 1 entry volume ≡ some (12 ∷ 13 ∷ [])
load_lem_example =
    load_lem 5 1 entry volume (11 ∷ 12 ∷ 13 ∷ 14 ∷ []) (omega (arith, clusters_hold 2 refl))
      entry-Tail (omega arith) (omega arith) (omega arith)

room : (n : ℕ) → n ≤ 2 → n ≤ bytes_per_cluster volume.bpb
unfolding bytes_per_cluster
room n h = h

beyond : (n : ℕ) → 2 < n → bytes_per_cluster volume.bpb < n
unfolding bytes_per_cluster
beyond n h = h

kept : (n : ℕ) → 3 ≤ n → bytes_per_cluster volume.bpb - 1 + 2 ≤ n
unfolding bytes_per_cluster
kept n h = h

-- A descriptor behind the first byte of the file.
abbrev behind_first : FileDescriptor
behind_first = record fresh_descriptor { wr_off = 1; wr_cluster_off = 1 }

sector_3 : get_sector 3 volume ≡ some (11 ∷ 12 ∷ [])
unfolding get_sector
sector_3 = refl

sector_5 : get_sector 5 volume ≡ some (13 ∷ 14 ∷ [])
unfolding get_sector
sector_5 = refl

here : get_sector (current_cluster entry behind_first) volume ≡ some (11 ∷ 12 ∷ [])
unfolding first_cluster
here = sector_3

next_of_3 : next_cluster (current_cluster entry behind_first) volume.table ≡ some 5
unfolding next_cluster settle first_cluster
next_of_3 = refl

not_next : current_cluster entry behind_first ≢ 5
unfolding first_cluster
not_next e = omega arith

write-inside_example :
    write 1 (9 ∷ []) entry behind_first volume
    ≡ some (
      1,
      record entry { file_size = word32 (add64 1 1) },
      record behind_first {
        wr_off = add64 1 1;
        wr_cluster = current_cluster entry behind_first;
        wr_cluster_off = 2;
      },
      put_sector
          (current_cluster entry behind_first)
          (overwrite 1 (take 1 (9 ∷ [])) (11 ∷ 12 ∷ []))
          volume,
    )
write-inside_example =
    write-inside 1 (9 ∷ []) (11 ∷ 12 ∷ []) entry behind_first volume (omega arith) (omega arith)
      here (room 2 (omega arith))

abbrev two_bytes : List ℕ
two_bytes = 1 ∷ 2 ∷ []

-- A buffer of the length that is asked for is too short.
write-past_example :
    (fd' : FileDescriptor) × (v' : Volume) × (write 2 two_bytes entry behind_first volume ≡ (
      if ltb (length two_bytes) (room_of behind_first volume + 2)
      then none
      else grown (room_of behind_first volume + 2) entry behind_first fd' v'))
write-past_example =
    write-past 2 two_bytes (11 ∷ 12 ∷ []) (13 ∷ 14 ∷ []) entry behind_first volume 5
      (room 2 (omega arith)) (beyond 3 (omega arith)) (room 2 (omega arith)) here next_of_3
      (λ e. omega (arith, e)) not_next sector_5

-- The file of one cluster.
abbrev single : DirectoryEntry
single = record entry { first_cluster_low = 5 }

single_sector : get_sector (first_cluster single) volume ≡ some (13 ∷ 14 ∷ [])
unfolding first_cluster
single_sector = sector_5

single_last : next_cluster (first_cluster single) volume.table ≡ some end_of_chain
unfolding next_cluster settle first_cluster
single_last = refl

abbrev nine : List ℕ
nine = 9 ∷ []

read-write_example :
    (entry' : DirectoryEntry) × (fd fd' : FileDescriptor) × (v' : Volume) × (write
        (length nine)
        nine
        single
        fresh_descriptor
        volume
      ≡ some (length nine, entry', fd, v'))
    × (read (length nine) entry' fresh_descriptor v' ≡ some (nine, fd'))
read-write_example =
    read-write nine (13 ∷ 14 ∷ []) single volume (omega arith) (room 1 (omega arith)) (omega arith)
      single_sector (clusters_hold 2 refl) single_last

-- A root directory of one cluster, with the entry A.
abbrev tree : Volume
tree = record volume {
  bpb = record volume.bpb { bytes_per_sector = 64 };
  clusters = (65 ∷ replicate 63 32) ∷ [];
}

tree-Directory : Directory tree 2 (2 ∷ [])
unfolding get_sector next_cluster settle
tree-Directory =
    Directory.goes {sec = 65 ∷ replicate 63 32} (λ e. omega (arith, e)) refl refl Directory.ends

search_dir-first_match_example :
    search_dir 2 2 (97 ∷ []) tree
    ≡ some (first_match (97 ∷ []) tree (slots (per_cluster tree) (2 ∷ [])))
search_dir-first_match_example =
    search_dir-first_match 2 2 (2 ∷ []) (97 ∷ []) tree tree-Directory (omega arith)

one_letter : (c : ℕ) → c ≢ 47 → NoSlash (c ∷ [])
unfolding NoSlash
one_letter c other = (other, tt)

-- The directory A in the root directory, in cluster 3, with the file B.
abbrev nested : Volume
nested = record tree {
  table = 268435448 ∷ 268435455 ∷ 268435455 ∷ 268435455 ∷ [];
  clusters =
      ((65 ∷ replicate 10 32) ++ (0x10 ∷ replicate 14 0) ++ (3 ∷ replicate 37 0))
      ∷ ((66 ∷ replicate 10 32) ++ (0x20 ∷ replicate 52 0))
      ∷ [];
}

root-HasClusters : HasClusters nested 2 (2 ∷ [])
unfolding get_sector next_cluster settle
root-HasClusters = (Directory.goes (λ e. omega (arith, e)) refl refl Directory.ends, omega arith)

a-HasClusters : HasClusters nested 3 (3 ∷ [])
unfolding get_sector next_cluster settle
a-HasClusters = (Directory.goes (λ e. omega (arith, e)) refl refl Directory.ends, omega arith)

ab-Walk : Walk nested false 2 (97 ∷ []) ((98 ∷ []) ∷ []) (some (3, 0), false)
unfolding first_match name_is_equal same_bytes fill83 toupper blank entry_at entry_of get_sector
    little_endian first_cluster bytes_per_cluster
ab-Walk =
    Walk.inside {e = 97 ∷ []} {s = (2, 0)} root-HasClusters refl refl
      (Walk.found {e = 98 ∷ []} {s = (3, 0)} a-HasClusters refl)

-- "/a/b"
find_file-Walk_example : find_file 5 (47 ∷ 97 ∷ 47 ∷ 98 ∷ []) 0 nested ≡ some (some (3, 0), false)
find_file-Walk_example =
    find_file-Walk 5 true false 0 (97 ∷ []) ((98 ∷ []) ∷ []) nested (some (3, 0), false)
      (
        (one_letter 97 (λ e. omega (arith, e)), omega arith),
        ((one_letter 98 (λ e. omega (arith, e)), omega arith), tt),
      )
      ab-Walk (omega arith)
