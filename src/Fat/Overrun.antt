-- ===== src/Fat/Overrun.antt =====
-- FileDescriptor::Write of Kernel/fat.cpp across the end of a cluster.
use mikan_os_x.Base.{
  ℕ, zero, suc, ◌+◌, ◌-◌, ◌<◌, ◌≤◌, ◌≡◌, ◌≢◌, refl, ap, sym, ◌∙◌, min, true, false, ◌==◌, leb, ltb,
  if◌then◌else◌, List, Option, none, some, take, drop, length, length-drop, length-take, dec_lt,
  arith, word32, add64,
}
use mikan_os_x.Fat.{
  Volume, DirectoryEntry, FileDescriptor, bytes_per_cluster, get_sector, next_cluster, end_of_chain,
}
use mikan_os_x.Fat.Write.{
  overwrite, Writing, following, next_part, copy_in, write_part, and_then, write_loop, finish_write,
  write_from, write,
}
use mikan_os_x.Fat.Written.{
  wrote, write_step, write_stop, current_cluster, begin_write, get_sector-put_ne,
}

-- A part that reaches past the end of the buffer.
write_fail :
    (fuel len n : ℕ) (buf sec : List ℕ) (w w1 : Writing)
    → w.total < len
    → next_part len w ≡ some w1
    → get_sector w1.cluster w1.volume ≡ some sec
    → n ≡ min len (bytes_per_cluster w1.volume.bpb - w1.off)
    → 0 < n
    → length buf < w1.total + n
    → write_loop (suc fuel) len buf w ≡ none
unfolding write_loop write_part copy_in and_then
write_fail fuel len n buf sec w w1 lt next here e pos short =
    let more : leb len w.total ≡ false = ground arith in
    let size : length (take n (drop w1.total buf)) ≢ n =
      omega (arith, length-take n (drop w1.total buf), length-drop w1.total buf) in
    let part : (length (take n (drop w1.total buf)) == n) ≡ false = ground (arith, size) in
    rw (more, next, sym e, here, part) refl

-- The bytes that fit into the rest of the cluster that a write begins in.
abbrev pub room_of : FileDescriptor → Volume → ℕ
room_of fd v = bytes_per_cluster v.bpb - fd.wr_cluster_off

-- What Write returns and changes for a given number of bytes.
abbrev pub Outcome : Type 0
Outcome = Option (ℕ × DirectoryEntry × FileDescriptor × Volume)

abbrev pub grown : ℕ → DirectoryEntry → FileDescriptor → FileDescriptor → Volume → Outcome
grown n entry fd fd' v' = some (n, record entry { file_size = word32 (add64 fd.wr_off n) }, fd', v')

-- Write across the end of a cluster, of bytes that one cluster could hold, where the chain goes on
-- to another cluster of the data area: the second part has the whole length again. So Write takes
-- as many bytes from the buffer as fit into the rest of the first cluster, and its whole length
-- besides; where the buffer is shorter than that, it reads past its end, and else it returns this
-- sum, and the size of the file becomes the old offset plus this sum.
pub write-past :
    (len : ℕ) (buf sec sec2 : List ℕ) (entry : DirectoryEntry) (fd : FileDescriptor) (v : Volume)
    (next : ℕ)
    → fd.wr_cluster_off < bytes_per_cluster v.bpb
    → bytes_per_cluster v.bpb < fd.wr_cluster_off + len
    → len ≤ bytes_per_cluster v.bpb
    → get_sector (current_cluster entry fd) v ≡ some sec
    → next_cluster (current_cluster entry fd) v.table ≡ some next
    → next ≢ end_of_chain
    → current_cluster entry fd ≢ next
    → get_sector next v ≡ some sec2
    → (fd' : FileDescriptor) × (v' : Volume) × (write len buf entry fd v ≡ (
        if ltb (length buf) (room_of fd v + len)
        then none
        else grown (room_of fd v + len) entry fd fd' v'))
unfolding write_from finish_write next_part following
write-past zero buf sec sec2 entry fd v next low past fits here link more ne there =
    absurd (omega arith)
write-past (suc zero) buf sec sec2 entry fd v next low past fits here link more ne there =
    absurd (omega arith)
write-past (suc (suc l)) buf sec sec2 entry fd v next low past fits here link more ne there =
    let len = suc (suc l) in
    let c = current_cluster entry fd in
    let room = room_of fd v in
    let w : Writing = record { volume = v; cluster = c; off = fd.wr_cluster_off; total = 0 } in
    let w1 = wrote room room buf sec w in
    let w2 : Writing = record w1 { cluster = next; off = 0 } in
    let last = wrote len (room + len) buf sec2 w2 in
    let before : (fd.wr_cluster_off == bytes_per_cluster v.bpb) ≡ false = ground arith in
    let at_end : (fd.wr_cluster_off + room == bytes_per_cluster v.bpb) ≡ true = ground arith in
    let chained : (next == end_of_chain) ≡ false = ground (arith, more) in
    let begin = begin_write len buf sec entry fd v here in
    let first = λ (enough : room ≤ length buf).
      write_step len len room room buf sec w w (omega arith) (rw before refl) here (omega arith)
        (omega (arith, enough)) (omega arith) in
    let second =
      get_sector-put_ne c next v sec sec2 (overwrite fd.wr_cluster_off (take room buf) sec) ne here
        there in
    let follows : next_part len w1 ≡ some w2 = rw (at_end, link, chained) refl in
    (
      record fd {
        wr_off = add64 fd.wr_off last.total;
        wr_cluster = last.cluster;
        wr_cluster_off = last.off;
      },
      last.volume,
      elim (dec_lt (length buf) (room + len)) [
        | no enough ↦
            let test : ltb (length buf) (room + len) ≡ false = ground (arith, enough) in
            let e =
              first (omega (arith, enough))
              ∙ write_step (suc l) len len (room + len) buf sec2 w1 w2 (omega arith) follows second
                  (omega arith) (omega (arith, enough)) (omega arith)
              ∙ write_stop l len buf last (omega arith) in
            rw test (begin ∙ ap (finish_write entry fd) e)
        | yes short ↦
            let test : ltb (length buf) (room + len) ≡ true = ground (arith, short) in
            let e : write_loop (suc len) len buf w ≡ none = elim (dec_lt (length buf) room) [
              | yes none_left ↦
                  write_fail len len room buf sec w w (omega arith) (rw before refl) here
                    (omega arith) (omega arith) (omega (arith, none_left))
              | no enough ↦
                  first (omega (arith, enough))
                  ∙ write_fail (suc l) len len buf sec2 w1 w2 (omega arith) follows second
                      (omega arith) (omega arith) (omega (arith, short))
            ] in
            rw test (begin ∙ ap (finish_write entry fd) e)
      ],
    )
