-- ===== src/Fat.antt =====
-- Kernel/fat.hpp and fat.cpp: the FAT32 volume in memory, the chains of clusters, and the files
-- on them.
pub mod Chain
pub mod Create
pub mod Directory
pub mod Extend
pub mod Name
pub mod Read
pub mod Load
pub mod Scan
pub mod Paths
pub mod Write
pub mod Written
pub mod Overrun
mod Tests
use mikan_os_x.Base.{
  ℕ, zero, suc, ◌+◌, ◌-◌, ◌*◌, ◌/◌, ◌%◌, ◌^◌, ◌≡◌, Bool, true, false, ◌==◌, ltb, leb, if◌then◌else◌,
  not, ◌||◌, List, [], ◌∷◌, ◌++◌, Option, none, some, get_elem?, get_or, set, take, drop, length,
  replicate, map, add64, word32, sub64, min,
}
use mikan_os_x.Base.Fault.{Code, success}

-- The fields of the BIOS parameter block that the code reads.
pub record Bpb : Type 0 where
  pub bytes_per_sector : ℕ
  pub sectors_per_cluster : ℕ
  pub reserved_sector_count : ℕ
  pub num_fats : ℕ
  pub fat_size_32 : ℕ
  pub root_cluster : ℕ

-- bytes_per_cluster, as Initialize sets it
unfoldable pub bytes_per_cluster : Bpb → ℕ
bytes_per_cluster bpb = bpb.bytes_per_sector * bpb.sectors_per_cluster

-- GetClusterAddr, for an image at this address. The product with num_fats and the sum are unsigned
-- ints.
unfoldable pub get_cluster_addr : ℕ → Bpb → ℕ → ℕ
get_cluster_addr image bpb cluster =
    let sector_num =
      add64 (word32 (bpb.reserved_sector_count + bpb.num_fats * bpb.fat_size_32))
        (sub64 cluster 2 * bpb.sectors_per_cluster) in
    add64 image (sector_num * bpb.bytes_per_sector)

-- The image: the table that GetFAT points to, and the bytes of the clusters from number 2 on.
pub record Volume : Type 0 where
  pub bpb : Bpb
  pub table : List ℕ
  pub clusters : List (List ℕ)

-- GetSectorByCluster, for what lies there; `none` outside the data area.
unfoldable pub get_sector : ℕ → Volume → Option (List ℕ)
get_sector cluster v = if ltb cluster 2 then none else get_elem? v.clusters (cluster - 2)

abbrev pub end_of_chain : ℕ
end_of_chain = 268435455

-- cluster >= 0x0ffffff8ul
abbrev pub is_end : ℕ → Bool
is_end cluster = leb 268435448 cluster

unfoldable pub settle : ℕ → ℕ
settle next = if is_end next then end_of_chain else next

-- NextCluster; `none` past the end of the table.
unfoldable pub next_cluster : ℕ → List ℕ → Option ℕ
next_cluster cluster table = elim (get_elem? table cluster) [
  | none ↦ none
  | some next ↦ some (settle next)
]

-- ExtendCluster, first loop: to the last cluster of a chain.
unfoldable pub chain_end : ℕ → ℕ → List ℕ → Option ℕ
chain_end zero cluster table = none
chain_end (suc fuel) cluster table = elim (get_elem? table cluster) [
  | none ↦ none
  | some next ↦ if is_end next then some cluster else chain_end fuel next table
]

-- The second loop, from a candidate on, with the entries still to look at as fuel: it links a free
-- entry behind the current one. `none` past the end of the table.
unfoldable pub extend_from : ℕ → ℕ → ℕ → ℕ → List ℕ → Option (ℕ × List ℕ)
extend_from fuel candidate current zero table = some (current, set table current end_of_chain)
extend_from zero candidate current (suc n) table = none
extend_from (suc fuel) candidate current (suc n) table =
    if get_or table candidate 1 == 0
    then extend_from fuel (suc candidate) candidate n (set table current candidate)
    else extend_from fuel (suc candidate) current (suc n) table

unfoldable pub extend_cluster : ℕ → ℕ → List ℕ → Option (ℕ × List ℕ)
extend_cluster cluster n table = elim (chain_end (length table) cluster table) [
  | none ↦ none
  | some last ↦ extend_from (length table - 2) 2 last n table
]

-- AllocateClusterChain: the first free entry from 2 on, then the others behind it.
unfoldable pub first_free : ℕ → ℕ → List ℕ → Option ℕ
first_free zero candidate table = none
first_free (suc fuel) candidate table =
    if get_or table candidate 1 == 0 then some candidate else first_free fuel (suc candidate) table

unfoldable pub allocate_cluster_chain : ℕ → List ℕ → Option (ℕ × List ℕ)
allocate_cluster_chain n table = elim (first_free (length table - 2) 2 table) [
  | none ↦ none
  | some first ↦ chained first (set table first end_of_chain)
]
  where
    kept : ℕ → Option (ℕ × List ℕ) → Option (ℕ × List ℕ)
    kept first none = none
    kept first (some (last, table)) = some (first, table)

    chained : ℕ → List ℕ → Option (ℕ × List ℕ)
    chained first table =
        if ltb 1 n then kept first (extend_cluster first (n - 1) table) else some (first, table)

-- What the code reads of a directory entry.
pub record DirectoryEntry : Type 0 where
  pub name : List ℕ
  pub attr : ℕ
  pub first_cluster_high : ℕ
  pub first_cluster_low : ℕ
  pub file_size : ℕ

-- The two halves are 16 bits wide, so that `|` of the shifted one is a sum.
unfoldable pub first_cluster : DirectoryEntry → ℕ
first_cluster entry = entry.first_cluster_low + entry.first_cluster_high * 2 ^ 16

-- FileDescriptor, less the entry that it refers to.
pub record FileDescriptor : Type 0 where
  pub rd_off : ℕ
  pub rd_cluster : ℕ
  pub rd_cluster_off : ℕ
  pub wr_off : ℕ
  pub wr_cluster : ℕ
  pub wr_cluster_off : ℕ

abbrev pub fresh_descriptor : FileDescriptor
fresh_descriptor = record {
  rd_off = 0;
  rd_cluster = 0;
  rd_cluster_off = 0;
  wr_off = 0;
  wr_cluster = 0;
  wr_cluster_off = 0;
}

unfoldable pub prepend : List ℕ → Option (List ℕ × ℕ × ℕ) → Option (List ℕ × ℕ × ℕ)
prepend bytes none = none
prepend bytes (some (more, cluster, off)) = some (bytes ++ more, cluster, off)

-- One round of the loop of Read, with the rest of the loop: it copies up to the end of the cluster.
unfoldable pub read_round :
    ℕ → ℕ → ℕ → Volume → (ℕ → ℕ → ℕ → Option (List ℕ × ℕ × ℕ)) → Option (List ℕ × ℕ × ℕ)
read_round left cluster off v again = elim (get_sector cluster v) [
  | none ↦ none
  | some sec ↦
      let n = min left (bytes_per_cluster v.bpb - off) in
      if off + n == bytes_per_cluster v.bpb
      then elim (next_cluster cluster v.table) [
        | none ↦ none
        | some next ↦ prepend (take n (drop off sec)) (again (left - n) next 0)
      ]
      else prepend (take n (drop off sec)) (again (left - n) cluster (off + n))
]

-- The loop: the bytes, the cluster and the offset in it. A round reads at least a byte, so that
-- the number of bytes is fuel enough.
unfoldable pub read_loop : ℕ → ℕ → ℕ → ℕ → Volume → Option (List ℕ × ℕ × ℕ)
read_loop fuel zero cluster off v = some ([], cluster, off)
read_loop zero (suc left) cluster off v = none
read_loop (suc fuel) (suc left) cluster off v =
    read_round (suc left) cluster off v
      (λ left' cluster' off'. read_loop fuel left' cluster' off' v)

unfoldable pub read :
    ℕ → DirectoryEntry → FileDescriptor → Volume → Option (List ℕ × FileDescriptor)
read len entry fd v = done (read_loop count count start fd.rd_cluster_off v)
  where
    start : ℕ
    start = if fd.rd_cluster == 0 then first_cluster entry else fd.rd_cluster

    count : ℕ
    count = min len (sub64 entry.file_size fd.rd_off)

    done : Option (List ℕ × ℕ × ℕ) → Option (List ℕ × FileDescriptor)
    done none = none
    done (some (bytes, cluster, off)) = some (
      bytes,
      record fd {
        rd_off = add64 fd.rd_off (length bytes);
        rd_cluster = cluster;
        rd_cluster_off = off;
      },
    )

-- Load: from an offset, on a descriptor of its own.
unfoldable pub skip_clusters : ℕ → ℕ → ℕ → Volume → Option (ℕ × ℕ)
skip_clusters zero cluster offset v = none
skip_clusters (suc fuel) cluster offset v =
    if leb (bytes_per_cluster v.bpb) offset
    then elim (next_cluster cluster v.table) [
      | none ↦ none
      | some next ↦ skip_clusters fuel next (offset - bytes_per_cluster v.bpb) v
    ]
    else some (cluster, offset)

unfoldable pub load : ℕ → ℕ → DirectoryEntry → Volume → Option (List ℕ)
load len offset entry v = from (skip_clusters (suc offset) (first_cluster entry) offset v)
  where
    bytes : Option (List ℕ × FileDescriptor) → Option (List ℕ)
    bytes none = none
    bytes (some (found, fd)) = some found

    from : Option (ℕ × ℕ) → Option (List ℕ)
    from none = none
    from (some (cluster, off)) = bytes (
        read len entry
          (record fresh_descriptor { rd_off = offset; rd_cluster = cluster; rd_cluster_off = off })
          v)

-- LoadFile: the bytes that it copies. A round copies at least a byte, so that the number of bytes
-- asked for is fuel enough.
unfoldable pub load_file_loop : ℕ → ℕ → ℕ → Volume → Option (List ℕ)
load_file_loop zero left cluster v = none
load_file_loop (suc fuel) left cluster v =
    let rest = λ (next : ℕ). load_file_loop fuel (left - bytes_per_cluster v.bpb) next v in
    if cluster == 0 || cluster == end_of_chain then some [] else elim (get_sector cluster v) [
      | none ↦ none
      | some sec ↦
          if leb left (bytes_per_cluster v.bpb)
          then some (take left sec)
          else elim (next_cluster cluster v.table) [
            | none ↦ none
            | some next ↦ elim (rest next) [ none ↦ none | some more ↦ some (sec ++ more) ]
          ]
    ]

unfoldable pub load_file : ℕ → DirectoryEntry → Volume → Option (List ℕ)
load_file len entry v = load_file_loop (suc len) len (first_cluster entry) v
