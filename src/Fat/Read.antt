-- ===== src/Fat/Read.antt =====
-- Reading a file of Kernel/fat.cpp against the bytes of its chain of clusters.
use mikan_os_x.Base.{
  ℕ, zero, suc, ◌+◌, ◌-◌, ◌^◌, ◌<◌, ◌≤◌, ◌≡◌, ◌≢◌, refl, ap, sym, ◌∙◌, subst, min, true, false,
  ◌==◌, if◌then◌else◌, List, [], ◌++◌, Option, none, some, take, drop, length, length-drop,
  length-take, length-append, take-all, take-append-all, drop-append-all, drop-drop, arith,
  append_assoc, take-append-drop, Option-cases, inl, inr, ℕ_discrete, sub64, add64,
}
use mikan_os_x.Fat.{
  Volume, DirectoryEntry, FileDescriptor, bytes_per_cluster, get_sector, next_cluster, end_of_chain,
  read_loop, read_round, prepend, read, first_cluster,
}

-- The bytes from a cluster to the end of its chain.
pub data Tail (v : Volume) : ℕ → List ℕ → Type 0 where
  ends : Tail v end_of_chain []
  goes :
      {cluster next : ℕ} {sec rest : List ℕ}
      → get_sector cluster v ≡ some sec
      → length sec ≡ bytes_per_cluster v.bpb
      → next_cluster cluster v.table ≡ some next
      → Tail v next rest
      → Tail v cluster (sec ++ rest)

-- The bytes from an offset in a cluster on.
pub data At (v : Volume) : ℕ → ℕ → List ℕ → Type 0 where
  start : {cluster : ℕ} {rest : List ℕ} → Tail v cluster rest → At v cluster 0 rest
  inside :
      {cluster next off : ℕ} {sec rest : List ℕ}
      → get_sector cluster v ≡ some sec
      → length sec ≡ bytes_per_cluster v.bpb
      → off < bytes_per_cluster v.bpb
      → next_cluster cluster v.table ≡ some next
      → Tail v next rest
      → At v cluster off (drop off sec ++ rest)

-- What the loop gives for the bytes from its position on.
Reads : Volume → ℕ → List ℕ → Option (List ℕ × ℕ × ℕ) → Type 0
Reads v n rest none = ⊥
Reads v n rest (some (bytes, cluster, off)) = (bytes ≡ take n rest) × At v cluster off (drop n rest)

prepend-Reads :
    (v : Volume) (n : ℕ) (bytes rest : List ℕ) (result : Option (List ℕ × ℕ × ℕ))
    → length bytes ≤ n
    → Reads v (n - length bytes) rest result
    → Reads v n (bytes ++ rest) (prepend bytes result)
unfolding Reads prepend
prepend-Reads v n bytes rest none h r = r
prepend-Reads v n bytes rest (some (more, cluster, off)) h r = (
  ap (bytes ++◌) r.0 ∙ sym (take-append-all n bytes rest h),
  subst (At v cluster off) (sym (drop-append-all n bytes rest h)) r.1,
)

round-Reads :
    (n cluster next off : ℕ) (sec rest : List ℕ) (v : Volume)
    (again : ℕ → ℕ → ℕ → Option (List ℕ × ℕ × ℕ))
    → 0 < n
    → n ≤ length (drop off sec ++ rest)
    → get_sector cluster v ≡ some sec
    → length sec ≡ bytes_per_cluster v.bpb
    → off < bytes_per_cluster v.bpb
    → next_cluster cluster v.table ≡ some next
    → Tail v next rest
    → ((n' c o : ℕ) (r : List ℕ)
        → n' < n
        → n' ≤ length r
        → At v c o r
        → Reads v n' r (again n' c o))
    → Reads v n (drop off sec ++ rest) (read_round n cluster off v again)
unfolding read_round
round-Reads n cluster next off sec rest v again some_left low e sized lt link tail ih =
    let here = drop off sec in
    let l : length here ≡ bytes_per_cluster v.bpb - off = omega (arith, length-drop off sec) in
    let total : length (here ++ rest) ≡ length here + length rest = length-append here rest in
    let k = min n (bytes_per_cluster v.bpb - off) in
    elim (ℕ_discrete (off + k) (bytes_per_cluster v.bpb)) [
      | yes full ↦
          let t : (off + k == bytes_per_cluster v.bpb) ≡ true = ground arith in
          let taken : take k here ≡ here = take-all k here (omega arith) in
          let k_is : k ≡ length here = omega arith in
          rw (e, read_round, t, link, taken, k_is)
            (prepend-Reads v n here rest (again (n - length here) next 0) (omega arith)
              (ih (n - length here) next 0 rest (omega arith) (omega arith) (start tail)))
      | no more ↦
          let f : (off + k == bytes_per_cluster v.bpb) ≡ false = ground arith in
          let k_is : k ≡ n = omega arith in
          let bytes = take n here in
          let m : length bytes ≡ n = omega (arith, length-take n here) in
          let behind = drop (off + n) sec ++ rest in
          let whole : bytes ++ behind ≡ here ++ rest =
            sym (append_assoc bytes (drop (off + n) sec) rest)
            ∙ ap (◌++ rest)
                (ap (bytes ++◌) (sym (drop-drop n off sec)) ∙ take-append-drop n here) in
          rw (e, read_round, f, k_is)
            (subst (λ r. Reads v n r (prepend bytes (again (n - n) cluster (off + n)))) whole
              (prepend-Reads v n bytes behind (again (n - n) cluster (off + n)) (omega arith) (
                subst (λ z. Reads v z behind (again (n - n) cluster (off + n))) (ap (n -◌) (sym m))
                  (ih (n - n) cluster (off + n) behind (omega arith) (omega arith)
                    (inside e sized (omega arith) link tail)))))
    ]

none_left :
    (cluster off : ℕ) (rest : List ℕ) (v : Volume)
    → At v cluster off rest
    → Reads v 0 rest (some ([], cluster, off))
unfolding Reads
none_left cluster off rest v at = (refl, at)

At-Reads :
    (n cluster off : ℕ) (rest : List ℕ) (v : Volume) (again : ℕ → ℕ → ℕ → Option (List ℕ × ℕ × ℕ))
    → 0 < n
    → n ≤ length rest
    → 0 < bytes_per_cluster v.bpb
    → At v cluster off rest
    → ((n' c o : ℕ) (r : List ℕ)
        → n' < n
        → n' ≤ length r
        → At v c o r
        → Reads v n' r (again n' c o))
    → Reads v n rest (read_round n cluster off v again)
At-Reads n cluster off rest v again some_left low pos (start ends) ih = absurd (omega arith)
At-Reads n cluster off _ v again some_left low pos
      (start (goes {next = next} {sec} {rest} e sized link tail)) ih =
    round-Reads n cluster next 0 sec rest v again some_left low e sized pos link tail ih
At-Reads n cluster off _ v again some_left low pos
      (inside {next = next} {sec = sec} {rest = rest} e sized lt link tail) ih =
    round-Reads n cluster next off sec rest v again some_left low e sized lt link tail ih

read_loop-Reads :
    (fuel n cluster off : ℕ) (rest : List ℕ) (v : Volume)
    → n ≤ fuel
    → n ≤ length rest
    → 0 < bytes_per_cluster v.bpb
    → At v cluster off rest
    → Reads v n rest (read_loop fuel n cluster off v)
unfolding read_loop
read_loop-Reads fuel zero cluster off rest v h low pos at = none_left cluster off rest v at
read_loop-Reads zero (suc n) cluster off rest v h low pos at = absurd (omega arith)
read_loop-Reads (suc fuel) (suc n) cluster off rest v h low pos at =
    At-Reads (suc n) cluster off rest v (λ n' c o. read_loop fuel n' c o v) (omega arith) low pos at
      (λ n' c o r lt short at'. read_loop-Reads fuel n' c o r v (omega arith) short pos at')

-- A descriptor of an entry from which these bytes are still to come.
pub record IsReading (v : Volume) (entry : DirectoryEntry) (fd : FileDescriptor) (rest : List ℕ)
    : Type 0 where
  pub position :
      At v
        (if fd.rd_cluster == 0 then first_cluster entry else fd.rd_cluster)
        fd.rd_cluster_off
        rest
  pub word : entry.file_size < 2 ^ 32
  pub within : fd.rd_off ≤ entry.file_size
  pub backed : entry.file_size - fd.rd_off ≤ length rest

-- What Read answers.
unfoldable pub Answers :
    Volume → DirectoryEntry → ℕ → List ℕ → Option (List ℕ × FileDescriptor) → Type 0
Answers v entry n rest none = ⊥
Answers v entry n rest (some (bytes, fd)) =
    (bytes ≡ take n rest) × IsReading v entry fd (drop n rest)

no_sector : (v : Volume) (sec : List ℕ) → get_sector 0 v ≡ some sec → ⊥
unfolding get_sector
no_sector v sec e = ground (arith, e)

no-Tail : (v : Volume) (c : ℕ) (rest : List ℕ) → Tail v c rest → c ≢ 0
no-Tail v _ _ ends z = absurd (omega arith)
no-Tail v c _ (goes {sec = sec} e sized link tail) z =
    no_sector v sec (subst (λ k. get_sector k v ≡ some sec) z e)

pub no-At : (v : Volume) (c off : ℕ) (rest : List ℕ) → At v c off rest → c ≢ 0
no-At v c _ rest (start tail) z = no-Tail v c rest tail z
no-At v c off _ (inside {sec = sec} e sized lt link tail) z =
    no_sector v sec (subst (λ k. get_sector k v ≡ some sec) z e)

finished-Answers :
    (v : Volume) (entry : DirectoryEntry) (fd : FileDescriptor) (n : ℕ) (rest bytes : List ℕ)
    (cluster off : ℕ)
    → IsReading v entry fd rest
    → n ≤ entry.file_size - fd.rd_off
    → bytes ≡ take n rest
    → At v cluster off (drop n rest)
    → IsReading v entry
        (record fd {
          rd_off = add64 fd.rd_off (length bytes);
          rd_cluster = cluster;
          rd_cluster_off = off;
        })
        (drop n rest)
finished-Answers v entry fd n rest bytes cluster off ok h b at =
    let f : (cluster == 0) ≡ false = ground (arith, no-At v cluster off (drop n rest) at) in
    let l : length bytes ≡ n = ap length b ∙ omega (arith, length-take n rest, ok.backed) in
    record {
      position = rw f at;
      word = ok.word;
      within = omega (arith, l, ok.within, ok.word);
      backed = omega (arith, l, ok.within, ok.word, ok.backed, length-drop n rest);
    }

-- Read on a descriptor with bytes still to come, as many as the entry's file_size promises, with
-- clusters of at least a byte: it returns the next min(len, file_size - rd_off) of them, across
-- clusters, and the descriptor is then one for the bytes behind these.
pub read-Answers :
    (len : ℕ) (entry : DirectoryEntry) (fd : FileDescriptor) (v : Volume) (rest : List ℕ)
    → 0 < bytes_per_cluster v.bpb
    → IsReading v entry fd rest
    → Answers v entry (min len (entry.file_size - fd.rd_off)) rest (read len entry fd v)
unfolding read Answers Reads
read-Answers len entry fd v rest pos ok =
    let n = min len (entry.file_size - fd.rd_off) in
    let c = if fd.rd_cluster == 0 then first_cluster entry else fd.rd_cluster in
    let e : min len (sub64 entry.file_size fd.rd_off) ≡ n = omega (arith, ok.within, ok.word) in
    let reads : Reads v n rest (read_loop n n c fd.rd_cluster_off v) =
      read_loop-Reads n n c fd.rd_cluster_off rest v (omega arith) (omega (arith, ok.backed)) pos
        ok.position in
    elim (Option-cases (read_loop n n c fd.rd_cluster_off v)) [
      | inl none_read ↦ absurd (subst (Reads v n rest) none_read reads)
      | inr ((bytes, cluster, off), some_read) ↦
          let (b, at) : (bytes ≡ take n rest) × At v cluster off (drop n rest) =
            subst (Reads v n rest) some_read reads in
          rw (e, some_read)
            (b, finished-Answers v entry fd n rest bytes cluster off ok (omega arith) b at)
    ]
