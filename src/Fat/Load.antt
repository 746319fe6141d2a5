-- ===== src/Fat/Load.antt =====
-- LoadFile of Kernel/fat.cpp against the bytes of the chain of clusters.
use mikan_os_x.Base.{
  ℕ, zero, suc, ◌+◌, ◌-◌, ◌<◌, ◌≤◌, ◌≡◌, refl, ap, sym, ◌∙◌, subst, true, false, ◌==◌, ◌||◌, ltb,
  leb, List, [], ◌∷◌, ◌++◌, Option, none, some, get_elem?, take, drop, length, take-append-all,
  arith, dec_le, dec_lt,
}
use mikan_os_x.Fat.{
  Volume, DirectoryEntry, bytes_per_cluster, get_sector, end_of_chain, first_cluster,
  load_file_loop, load_file,
}
use mikan_os_x.Base.{◌^◌, min, length-append, length-drop, drop-append-all, Option-cases, inl, inr}
use mikan_os_x.Fat.{FileDescriptor, fresh_descriptor, skip_clusters, load, read}
use mikan_os_x.Fat.Read.{
  Tail, ends, goes, At, start, inside, no-At, IsReading, Answers, read-Answers,
}

get_elem?-lt {ℓ} :
    {A : Type ℓ} (xs : List A) (i : ℕ) (a : A) → get_elem? xs i ≡ some a → i < length xs
get_elem?-lt [] i a e = absurd (ground (arith, e))
get_elem?-lt (x ∷ xs) zero a e = omega arith
get_elem?-lt (x ∷ xs) (suc i) a e = omega (arith, get_elem?-lt xs i a e)

abbrev no_bytes : List ℕ
no_bytes = []

-- A cluster that holds bytes is neither 0 nor the end mark.
at :
    (cluster : ℕ) (v : Volume) (sec : List ℕ)
    → ltb cluster 2 ≡ false
    → get_sector cluster v ≡ some sec
    → get_elem? v.clusters (cluster - 2) ≡ some sec
unfolding get_sector
at cluster v sec f e = ground (arith, f, e)

take-none : (n : ℕ) → take n (no_bytes) ≡ []
take-none zero = refl
take-none (suc n) = refl

get_sector-inside :
    (cluster : ℕ) (v : Volume) (sec : List ℕ)
    → length v.clusters ≤ 268435453
    → get_sector cluster v ≡ some sec
    → (cluster == 0 || cluster == end_of_chain) ≡ false
unfolding get_sector
get_sector-inside cluster v sec small e = elim (dec_lt cluster 2) [
  | yes low ↦ absurd (ground (arith, e))
  | no high ↦
      let f : ltb cluster 2 ≡ false = ground arith in
      let inside : cluster - 2 < length v.clusters =
        get_elem?-lt v.clusters (cluster - 2) sec (at cluster v sec f e) in
      ground arith
]

take-first {ℓ} :
    {A : Type ℓ} (n : ℕ) (xs ys : List A) → n ≤ length xs → take n (xs ++ ys) ≡ take n xs
take-first zero xs ys h = refl
take-first (suc n) [] ys h = absurd (omega arith)
take-first (suc n) (x ∷ xs) ys h = ap (x ∷◌) (take-first n xs ys (omega arith))

load_file_loop_lem :
    (fuel left cluster : ℕ) (v : Volume) (rest : List ℕ)
    → left < fuel
    → 0 < bytes_per_cluster v.bpb
    → length v.clusters ≤ 268435453
    → Tail v cluster rest
    → load_file_loop fuel left cluster v ≡ some (take left rest)
unfolding load_file_loop
load_file_loop_lem zero left cluster v rest h pos small tail = absurd (omega arith)
load_file_loop_lem (suc fuel) left cluster v _ h pos small ends = ap some (sym (take-none left))
load_file_loop_lem (suc fuel) left cluster v _ h pos small
      (goes {next = next} {sec} {rest} e sized link tail) =
    let f = get_sector-inside cluster v sec small e in
    elim (dec_le left (bytes_per_cluster v.bpb)) [
      | yes short ↦
          let t : leb left (bytes_per_cluster v.bpb) ≡ true = ground arith in
          rw (f, e, load_file_loop, t) (ap some (sym (take-first left sec rest (omega arith))))
      | no long ↦
          let t : leb left (bytes_per_cluster v.bpb) ≡ false = ground arith in
          let more =
            load_file_loop_lem fuel (left - bytes_per_cluster v.bpb) next v rest (omega arith) pos
              small tail in
          rw (f, e, load_file_loop, t, link, more)
            (ap some (
              ap (λ k. sec ++ take (left - k) rest) (sym sized)
              ∙ sym (take-append-all left sec rest (omega arith))))
    ]

-- LoadFile of a file whose first cluster has these bytes from there to the end of its chain, on a
-- volume with clusters of at least a byte and fewer of them than the end mark: it returns, and
-- copies the first `len` of the bytes, or all if there are fewer.
pub load_file_lem :
    (len : ℕ) (entry : DirectoryEntry) (v : Volume) (rest : List ℕ)
    → 0 < bytes_per_cluster v.bpb
    → length v.clusters ≤ 268435453
    → Tail v (first_cluster entry) rest
    → load_file len entry v ≡ some (take len rest)
unfolding load_file
load_file_lem len entry v rest pos small tail =
    load_file_loop_lem (suc len) len (first_cluster entry) v rest (omega arith) pos small tail

drop-first {ℓ} :
    {A : Type ℓ} (n : ℕ) (xs ys : List A) → n ≤ length xs → drop n (xs ++ ys) ≡ drop n xs ++ ys
drop-first zero xs ys h = refl
drop-first (suc n) [] ys h = absurd (omega arith)
drop-first (suc n) (x ∷ xs) ys h = drop-first n xs ys (omega arith)

-- Where the loop of Load stops.
Stops : Volume → List ℕ → Option (ℕ × ℕ) → Type 0
Stops v rest none = ⊥
Stops v rest (some (cluster, off)) = At v cluster off rest

skip_clusters-Stops :
    (fuel cluster offset : ℕ) (v : Volume) (rest : List ℕ)
    → offset < fuel
    → offset ≤ length rest
    → 0 < bytes_per_cluster v.bpb
    → Tail v cluster rest
    → Stops v (drop offset rest) (skip_clusters fuel cluster offset v)
unfolding skip_clusters Stops
skip_clusters-Stops zero cluster offset v rest h low pos tail = absurd (omega arith)
skip_clusters-Stops (suc fuel) cluster offset v _ h low pos ends =
    let z : offset ≡ 0 = omega arith in
    let f : leb (bytes_per_cluster v.bpb) 0 ≡ false = ground arith in rw (z, f) (start ends)
skip_clusters-Stops (suc fuel) cluster offset v _ h low pos
      (goes {next = next} {sec} {rest} e sized link tail) =
    let total : length (sec ++ rest) ≡ length sec + length rest = length-append sec rest in
    elim (dec_le (bytes_per_cluster v.bpb) offset) [
      | no before ↦
          let f : leb (bytes_per_cluster v.bpb) offset ≡ false = ground arith in
          rw (f, drop-first offset sec rest (omega arith)) (inside e sized (omega arith) link tail)
      | yes past ↦
          let t : leb (bytes_per_cluster v.bpb) offset ≡ true = ground arith in
          let same : drop offset (sec ++ rest) ≡ drop (offset - bytes_per_cluster v.bpb) rest =
            drop-append-all offset sec rest (omega arith)
            ∙ ap (λ k. drop (offset - k) rest) sized in
          rw (t, link, same)
            (skip_clusters-Stops fuel next (offset - bytes_per_cluster v.bpb) v rest (omega arith)
              (omega arith) pos tail)
    ]

-- Load of a file whose first cluster has these bytes to the end of its chain, at least as many as
-- its file_size below 2 ^ 32, from an offset up to file_size and on clusters of at least a byte:
-- it returns the min(len, file_size - offset) bytes from the offset on.
pub load_lem :
    (len offset : ℕ) (entry : DirectoryEntry) (v : Volume) (rest : List ℕ)
    → 0 < bytes_per_cluster v.bpb
    → Tail v (first_cluster entry) rest
    → entry.file_size < 2 ^ 32
    → entry.file_size ≤ length rest
    → offset ≤ entry.file_size
    → load len offset entry v ≡ some (take (min len (entry.file_size - offset)) (drop offset rest))
unfolding load Stops Answers
load_lem len offset entry v rest pos tail word sized low =
    let stops =
      skip_clusters-Stops (suc offset) (first_cluster entry) offset v rest (omega arith)
        (omega arith) pos tail in
    elim (Option-cases (skip_clusters (suc offset) (first_cluster entry) offset v)) [
      | inl e ↦ absurd (subst (Stops v (drop offset rest)) e stops)
      | inr ((cluster, off), e) ↦
          let at_offset : At v cluster off (drop offset rest) =
            subst (Stops v (drop offset rest)) e stops in
          let fd : FileDescriptor = record fresh_descriptor {
            rd_off = offset;
            rd_cluster = cluster;
            rd_cluster_off = off;
          } in
          let f : (cluster == 0) ≡ false =
            ground (arith, no-At v cluster off (drop offset rest) at_offset) in
          let ok : IsReading v entry fd (drop offset rest) = record {
            position = rw f at_offset;
            word = word;
            within = low;
            backed = omega (arith, length-drop offset rest);
          } in
          let answers = read-Answers len entry fd v (drop offset rest) pos ok in
          elim (Option-cases (read len entry fd v)) [
            | inl e' ↦ absurd (
                subst (Answers v entry (min len (entry.file_size - offset)) (drop offset rest)) e'
                  answers)
            | inr ((bytes, fd'), e') ↦
                let same : bytes ≡ take (min len (entry.file_size - offset)) (drop offset rest) =
                  (subst (Answers v entry (min len (entry.file_size - offset)) (drop offset rest))
                    e' answers).0 in
                rw (e, e') (ap some same)
          ]
    ]
