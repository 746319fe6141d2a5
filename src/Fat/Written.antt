-- ===== src/Fat/Written.antt =====
-- What FileDescriptor::Write of Kernel/fat.cpp leaves behind.
use mikan_os_x.Base.{
  ℕ, zero, suc, ◌+◌, ◌-◌, ◌^◌, ◌<◌, ◌≤◌, ◌≡◌, ◌≢◌, refl, ap, sym, ◌∙◌, subst, min, true, false,
  ◌==◌, leb, ltb, if◌then◌else◌, List, [], ◌∷◌, ◌++◌, Option, none, some, get_elem?, take, drop,
  length, length-drop, length-take, get_elem?-set_self, get_elem?-set_ne, Bool-cases, inl, inr,
  arith, word32, add64, length-append, take-all, append_assoc, append_assoc,
}
use mikan_os_x.Fat.{
  Volume, DirectoryEntry, FileDescriptor, fresh_descriptor, bytes_per_cluster, get_sector,
  next_cluster, end_of_chain, first_cluster, read,
}
use mikan_os_x.Fat.Read.{Tail, ends, goes, start, IsReading, Answers, read-Answers}
use mikan_os_x.Fat.Write.{
  overwrite, put_sector, Writing, next_part, copy_in, write_part, and_then, write_loop,
  finish_write, write_from, write,
}

in_range : (xs : List (List ℕ)) (i : ℕ) (x : List ℕ) → get_elem? xs i ≡ some x → i < length xs
in_range [] i x e = absurd (ground (arith, e))
in_range (y ∷ xs) zero x e = omega arith
in_range (y ∷ xs) (suc i) x e = omega (arith, in_range xs i x e)

sector-low : (c : ℕ) (v : Volume) (sec : List ℕ) → get_sector c v ≡ some sec → 2 ≤ c
unfolding get_sector
sector-low c v sec e = ground (arith, e)

get_sector-put :
    (c : ℕ) (v : Volume) (sec new : List ℕ)
    → get_sector c v ≡ some sec
    → get_sector c (put_sector c new v) ≡ some new
unfolding get_sector
get_sector-put c v sec new e =
    let low = sector-low c v sec e in
    let f : ltb c 2 ≡ false = ground arith in
    let e' : get_elem? v.clusters (c - 2) ≡ some sec = rw f at e in
    rw f (get_elem?-set_self v.clusters (c - 2) new (in_range v.clusters (c - 2) sec e'))

-- The state after a part of `n` bytes, `t` in all.
abbrev pub wrote : ℕ → ℕ → List ℕ → List ℕ → Writing → Writing
wrote n t buf sec w = record w {
  volume = put_sector w.cluster (overwrite w.off (take n (drop w.total buf)) sec) w.volume;
  off = w.off + n;
  total = t;
}

pub write_step :
    (fuel len n t : ℕ) (buf sec : List ℕ) (w w1 : Writing)
    → w.total < len
    → next_part len w ≡ some w1
    → get_sector w1.cluster w1.volume ≡ some sec
    → n ≡ min len (bytes_per_cluster w1.volume.bpb - w1.off)
    → w1.total + n ≤ length buf
    → t ≡ w1.total + n
    → write_loop (suc fuel) len buf w ≡ write_loop fuel len buf (wrote n t buf sec w1)
unfolding write_loop write_part copy_in and_then
write_step fuel len n t buf sec w w1 lt next here e enough sum =
    let more : leb len w.total ≡ false = ground arith in
    let size : length (take n (drop w1.total buf)) ≡ n =
      omega (arith, length-take n (drop w1.total buf), length-drop w1.total buf) in
    let all : (length (take n (drop w1.total buf)) == n) ≡ true = ground (arith, size) in
    rw (more, next, sym e, here, all, sum) refl

pub write_stop :
    (fuel len : ℕ) (buf : List ℕ) (w : Writing)
    → len ≤ w.total
    → write_loop (suc fuel) len buf w ≡ some w
unfolding write_loop
write_stop fuel len buf w le = let done : leb len w.total ≡ true = ground arith in rw done refl

-- The cluster that a write begins in.
abbrev pub current_cluster : DirectoryEntry → FileDescriptor → ℕ
current_cluster entry fd = if fd.wr_cluster == 0 then first_cluster entry else fd.wr_cluster

pub begin_write :
    (len : ℕ) (buf sec : List ℕ) (entry : DirectoryEntry) (fd : FileDescriptor) (v : Volume)
    → get_sector (current_cluster entry fd) v ≡ some sec
    → write len buf entry fd v ≡ write_from len buf entry fd v (current_cluster entry fd)
unfolding write
begin_write len buf sec entry fd v here =
    let low = sector-low (current_cluster entry fd) v sec here in
    elim (Bool-cases (fd.wr_cluster == 0)) [
      | inr set_up ↦ rw set_up refl
      | inl unset ↦
          let first : (first_cluster entry == 0) ≡ false =
            let low' : 2 ≤ first_cluster entry = rw unset at low in ground arith in
          rw (unset, first) refl
    ]

-- Write of some bytes that fit into the rest of the current cluster: it returns their number, they
-- stand in the cluster at the descriptor's offset, every other byte and the table are as before,
-- and the size of the file is the descriptor's new offset.
pub write-inside :
    (len : ℕ) (buf sec : List ℕ) (entry : DirectoryEntry) (fd : FileDescriptor) (v : Volume)
    → 0 < len
    → len ≤ length buf
    → get_sector (current_cluster entry fd) v ≡ some sec
    → fd.wr_cluster_off + len ≤ bytes_per_cluster v.bpb
    → write len buf entry fd v
      ≡ some (
        len,
        record entry { file_size = word32 (add64 fd.wr_off len) },
        record fd {
          wr_off = add64 fd.wr_off len;
          wr_cluster = current_cluster entry fd;
          wr_cluster_off = fd.wr_cluster_off + len;
        },
        put_sector (current_cluster entry fd) (overwrite fd.wr_cluster_off (take len buf) sec) v,
      )
unfolding write_from finish_write next_part
write-inside zero buf sec entry fd v pos enough here fits = absurd (omega arith)
write-inside (suc l) buf sec entry fd v pos enough here fits =
    let len = suc l in
    let w : Writing = record {
      volume = v;
      cluster = current_cluster entry fd;
      off = fd.wr_cluster_off;
      total = 0;
    } in
    let before : (fd.wr_cluster_off == bytes_per_cluster v.bpb) ≡ false = ground arith in
    let e =
      write_step len len len len buf sec w w (omega arith) (rw before refl) here (omega arith)
        (omega arith) (omega arith)
      ∙ write_stop l len buf (wrote len len buf sec w) (omega arith) in
    begin_write len buf sec entry fd v here ∙ ap (finish_write entry fd) e

pub get_sector-put_ne :
    (c d : ℕ) (v : Volume) (sec sec2 new : List ℕ)
    → c ≢ d
    → get_sector c v ≡ some sec
    → get_sector d v ≡ some sec2
    → get_sector d (put_sector c new v) ≡ some sec2
unfolding get_sector
get_sector-put_ne c d v sec sec2 new ne e e2 =
    let low = sector-low c v sec e in
    let low2 = sector-low d v sec2 e2 in
    let f : ltb d 2 ≡ false = ground arith in
    let e2' : get_elem? v.clusters (d - 2) ≡ some sec2 = rw f at e2 in
    rw f (
      get_elem?-set_ne v.clusters {i = c - 2} {j = d - 2} new
        (λ same. ne (omega (arith, same, low, low2)))
      ∙ e2')

take_back : (bs more : List ℕ) → take (length bs) (bs ++ more) ≡ bs
take_back [] more = refl
take_back (b ∷ bs) more = ap (b ∷◌) (take_back bs more)

written-IsReading :
    (bs sec : List ℕ) (entry : DirectoryEntry) (v : Volume) (c : ℕ)
    → first_cluster entry ≡ c
    → get_sector c v ≡ some sec
    → length sec ≡ bytes_per_cluster v.bpb
    → next_cluster c v.table ≡ some end_of_chain
    → length bs ≤ bytes_per_cluster v.bpb
    → length bs < 2 ^ 32
    → entry.file_size ≡ length bs
    → IsReading
        (put_sector c (overwrite 0 bs sec) v)
        entry
        fresh_descriptor
        (overwrite 0 bs sec ++ [])
written-IsReading bs sec entry v c first here sized link fits word size =
    let new = overwrite 0 bs sec in
    let l : length new ≡ bytes_per_cluster v.bpb =
      omega (arith, length-append bs (drop (0 + length bs) sec), length-drop (0 + length bs) sec) in
    record {
      position = start (
          subst (λ k. Tail (put_sector c new v) k (new ++ [])) (sym first)
            (goes (get_sector-put c v sec new here) l link ends));
      word = omega (arith, size);
      within = omega arith;
      backed = omega (arith, size, l, length-append new []);
    }

read_back :
    (bs more : List ℕ) (v : Volume) (entry : DirectoryEntry) (r : Option (List ℕ × FileDescriptor))
    → Answers v entry (min (length bs) (length bs)) (bs ++ more) r
    → (fd : FileDescriptor) × (r ≡ some (bs, fd))
unfolding Answers
read_back bs more v entry none a = absurd a
read_back bs more v entry (some (bytes, fd)) (e, _) =
    let n : min (length bs) (length bs) ≡ length bs = omega arith in
    (fd, ap (λ b. some (b, fd)) (e ∙ rw n (take_back bs more)))

-- What is written to a file of one cluster is read back: Write of some bytes that fit into the
-- cluster, on a new descriptor, succeeds, and Read of as many bytes on another new descriptor, with
-- the entry and the volume that Write leaves, returns the same bytes.
pub read-write :
    (bs sec : List ℕ) (entry : DirectoryEntry) (v : Volume)
    → 0 < length bs
    → length bs ≤ bytes_per_cluster v.bpb
    → length bs < 2 ^ 32
    → get_sector (first_cluster entry) v ≡ some sec
    → length sec ≡ bytes_per_cluster v.bpb
    → next_cluster (first_cluster entry) v.table ≡ some end_of_chain
    → (entry' : DirectoryEntry) × (fd fd' : FileDescriptor) × (v' : Volume) × (write
          (length bs)
          bs
          entry
          fresh_descriptor
          v
        ≡ some (length bs, entry', fd, v'))
      × (read (length bs) entry' fresh_descriptor v' ≡ some (bs, fd'))
unfolding first_cluster
read-write bs sec entry v pos fits word here sized link =
    let n = length bs in
    let c = first_cluster entry in
    let entry' : DirectoryEntry = record entry { file_size = word32 (add64 0 n) } in
    let v' = put_sector c (overwrite 0 bs sec) v in
    let size : word32 (add64 0 n) ≡ n = omega arith in
    let fd : FileDescriptor = record fresh_descriptor {
      wr_off = add64 0 n;
      wr_cluster = c;
      wr_cluster_off = 0 + n;
    } in
    let written : write n bs entry fresh_descriptor v ≡ some (n, entry', fd, v') =
      write-inside n bs sec entry fresh_descriptor v pos (omega arith) here (omega (arith, fits))
      ∙ ap (λ b. some (n, entry', fd, put_sector c (overwrite 0 b sec) v))
          (take-all n bs (omega arith)) in
    let reads =
      read-Answers n entry' fresh_descriptor v' (overwrite 0 bs sec ++ []) (omega arith)
        (written-IsReading bs sec entry' v c refl here sized link fits word size) in
    let split : overwrite 0 bs sec ++ [] ≡ bs ++ (drop (0 + n) sec ++ []) =
      append_assoc bs (drop (0 + n) sec) [] in
    let (fd', back) =
      read_back bs (drop (0 + n) sec ++ []) v' entry' (read n entry' fresh_descriptor v') (
        subst (λ rest. Answers v' entry' (min n n) rest (read n entry' fresh_descriptor v')) split
          (subst
            (λ k.
              Answers v' entry' (min n k) (overwrite 0 bs sec ++ [])
                (read n entry' fresh_descriptor v'))
            (omega (arith, size)) reads)) in
    (entry', fd, fd', v', written, back)
