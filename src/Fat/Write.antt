-- ===== src/Fat/Write.antt =====
-- FileDescriptor::Write of Kernel/fat.cpp.
use mikan_os_x.Base.{
  ℕ, zero, suc, ◌+◌, ◌-◌, ◌/◌, ◌%◌, ◌^◌, ◌==◌, leb, if◌then◌else◌, List, ◌++◌, Option, none, some,
  set, take, drop, length, add64, word32, min,
}
use mikan_os_x.Fat.{
  Bpb, bytes_per_cluster, Volume, get_sector, end_of_chain, next_cluster, extend_cluster,
  allocate_cluster_chain, DirectoryEntry, first_cluster, FileDescriptor,
}

unfoldable pub num_cluster : Bpb → ℕ → ℕ
num_cluster bpb bytes = (bytes + bytes_per_cluster bpb - 1) / bytes_per_cluster bpb

-- A copy of bytes into a sector, from an offset on.
abbrev pub overwrite : ℕ → List ℕ → List ℕ → List ℕ
overwrite off bytes sec = take off sec ++ bytes ++ drop (off + length bytes) sec

abbrev pub put_sector : ℕ → List ℕ → Volume → Volume
put_sector cluster sec v = record v { clusters = set v.clusters (cluster - 2) sec }

-- What changes in the loop of Write.
pub record Writing : Type 0 where
  pub volume : Volume
  pub cluster : ℕ
  pub off : ℕ
  pub total : ℕ

-- The cluster that ExtendCluster returns is the last one of the new ones.
unfoldable pub extended : Writing → Option (ℕ × List ℕ) → Option Writing
extended w none = none
extended w (some (cluster, table)) =
    some (record w { volume = record w.volume { table = table }; cluster = cluster; off = 0 })

unfoldable pub following : ℕ → Writing → Option ℕ → Option Writing
following len w none = none
following len w (some next) =
    if next == end_of_chain
    then extended w
        (extend_cluster w.cluster (num_cluster w.volume.bpb (len - w.total)) w.volume.table)
    else some (record w { cluster = next; off = 0 })

unfoldable pub next_part : ℕ → Writing → Option Writing
next_part len w =
    if w.off == bytes_per_cluster w.volume.bpb
    then following len w (next_cluster w.cluster w.volume.table)
    else some w

-- The copy: `n` bytes of the buffer have to be there.
unfoldable pub copy_in : ℕ → List ℕ → Writing → Option (List ℕ) → Option Writing
copy_in n bytes w none = none
copy_in n bytes w (some sec) =
    if length bytes == n
    then some (record w {
      volume = put_sector w.cluster (overwrite w.off bytes sec) w.volume;
      off = w.off + n;
      total = w.total + n;
    })
    else none

-- The rest of a round: the count is the whole length, not what is left of it.
unfoldable pub write_part : ℕ → List ℕ → Option Writing → Option Writing
write_part len buf none = none
write_part len buf (some w) =
    let n = min len (bytes_per_cluster w.volume.bpb - w.off) in
    copy_in n (take n (drop w.total buf)) w (get_sector w.cluster w.volume)

unfoldable pub and_then : (Writing → Option Writing) → Option Writing → Option Writing
and_then again none = none
and_then again (some w) = again w

-- The loop. A round writes at least a byte, so that the length and one more is fuel enough. The
-- buffer is the memory from its address on.
unfoldable pub write_loop : ℕ → ℕ → List ℕ → Writing → Option Writing
write_loop zero len buf w = none
write_loop (suc fuel) len buf w =
    let round =
      and_then (λ w'. write_loop fuel len buf w') (write_part len buf (next_part len w)) in
    if leb len w.total then some w else round

unfoldable pub finish_write :
    DirectoryEntry
    → FileDescriptor
    → Option Writing
    → Option (ℕ × DirectoryEntry × FileDescriptor × Volume)
finish_write entry fd none = none
finish_write entry fd (some w) = some (
  w.total,
  record entry { file_size = word32 (add64 fd.wr_off w.total) },
  record fd { wr_off = add64 fd.wr_off w.total; wr_cluster = w.cluster; wr_cluster_off = w.off },
  w.volume,
)

-- The first write of an empty file allocates its clusters.
unfoldable pub begin_file :
    ℕ
    → List ℕ
    → DirectoryEntry
    → FileDescriptor
    → Volume
    → Option (ℕ × List ℕ)
    → Option (ℕ × DirectoryEntry × FileDescriptor × Volume)
begin_file len buf entry fd v none = none
begin_file len buf entry fd v (some (cluster, table)) =
    finish_write
      (record entry {
        first_cluster_low = cluster % 2 ^ 16;
        first_cluster_high = cluster / 2 ^ 16 % 2 ^ 16;
      })
      fd
      (write_loop (suc len) len buf (record {
        volume = record v { table = table };
        cluster = cluster;
        off = fd.wr_cluster_off;
        total = 0;
      }))

unfoldable pub write_from :
    ℕ
    → List ℕ
    → DirectoryEntry
    → FileDescriptor
    → Volume
    → ℕ
    → Option (ℕ × DirectoryEntry × FileDescriptor × Volume)
write_from len buf entry fd v cluster = finish_write entry fd (
    write_loop (suc len) len buf
      (record { volume = v; cluster = cluster; off = fd.wr_cluster_off; total = 0 }))

-- Write: what it returns, and the entry, the descriptor and the volume.
unfoldable pub write :
    ℕ
    → List ℕ
    → DirectoryEntry
    → FileDescriptor
    → Volume
    → Option (ℕ × DirectoryEntry × FileDescriptor × Volume)
write len buf entry fd v =
    if fd.wr_cluster == 0
    then if first_cluster entry == 0
      then begin_file len buf entry fd v (allocate_cluster_chain (num_cluster v.bpb len) v.table)
      else write_from len buf entry fd v (first_cluster entry)
    else write_from len buf entry fd v fd.wr_cluster
