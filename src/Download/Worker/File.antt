-- ===== src/Download/Worker/File.antt =====
-- The file that the writer of source/download/Worker.cpp writes to: `seekp` and `write` on a binary
-- stream, and that the pieces of a byte string, written in any order, make up the string.
use node_link.Base.{
  ℕ, zero, suc, if◌then◌else◌, ◌+◌, ◌-◌, ◌≤◌, ◌<◌, ◌≡◌, ◌≢◌, refl, sym, ap, ◌∙◌, ◌⊎◌, inl, inr,
  Bool, true, false, ℤ, pos, negsuc, pos_part, List, [], ◌∷◌, ◌++◌, map, length, get_or, All,
  replicate, length-append, length-replicate, Slice, IsSlice, Covered, Agrees, Agrees-eq, overwrite,
  overwrite-Agrees, length-overwrite, arith,
}
use node_link.Parsing.Buffer.{Buffer}
use node_link.Download.Worker.{Job, Writer, finished, new_writer}
use node_link.Download.Worker.Steps.{Step, Run}
use node_link.Download.Worker.Fifo.{leaving-all_written}

-- `failed` is the stream's fail bit, which makes every later call do nothing. That the file opens, and that the
-- system takes what is written, is assumed: the bit is clear at first, and only a seek sets it.
pub record File : Type 0 where
  pub bytes : Buffer
  pub failed : Bool

-- Bytes written behind the end leave zeros before them. No bytes leave the file as it is.
unfoldable pub write_at : Buffer → ℕ → Buffer → Buffer
write_at buffer offset [] = buffer
write_at buffer offset (b ∷ block) =
    overwrite (buffer ++ replicate (offset + length (b ∷ block) - length buffer) 0) offset
      (b ∷ block)

-- `out.seekp(j.offset)` sets the fail bit at a negative offset; `out.write(…)`.
unfoldable pub write_from : Buffer → ℤ → Buffer → File
write_from buffer (pos offset) b = record { bytes = write_at buffer offset b; failed = false }
write_from buffer (negsuc n) b = record { bytes = buffer; failed = true }

unfoldable pub write_job : File → Job → File
unfolding write_from
write_job f j = if f.failed then f else write_from f.bytes j.offset j.b

unfoldable pub write_jobs : File → List Job → File
unfolding write_job
write_jobs f [] = f
write_jobs f (j ∷ js) = write_jobs (write_job f j) js

-- What the writes so far, oldest first, have left in the file.
abbrev pub file_of : List Job → File
file_of = write_jobs (record { bytes = []; failed = false })

get_or-zeros :
    (buffer : Buffer) (n k : ℕ) → get_or (buffer ++ replicate n 0) k 0 ≡ get_or buffer k 0
get_or-zeros [] zero k = refl
get_or-zeros [] (suc n) zero = refl
get_or-zeros [] (suc n) (suc k) = get_or-zeros [] n k
get_or-zeros (x ∷ buffer) n zero = refl
get_or-zeros (x ∷ buffer) n (suc k) = get_or-zeros buffer n k

Agrees-zeros :
    (c : Buffer) (ss : List Slice) (buffer : Buffer) (n : ℕ)
    → Agrees c ss buffer
    → Agrees c ss (buffer ++ replicate n 0)
Agrees-zeros c ss buffer n h k covered = (
  omega (arith, length-append buffer (replicate n 0), (h k covered).0),
  get_or-zeros buffer n k ∙ (h k covered).1,
)

length-zeros : (buffer : Buffer) (n : ℕ) → length (buffer ++ replicate n 0) ≡ length buffer + n
length-zeros buffer n =
    omega (arith, length-append buffer (replicate n 0), length-replicate {A = ℕ} n 0)

-- The job as a part of a byte string.
abbrev pub part_of : Job → Slice
part_of j = (pos_part j.offset, j.b)

abbrev pub IsPart : Buffer → Job → Type 0
IsPart c j = (j.offset ≡ pos (pos_part j.offset)) × IsSlice c (part_of j)

write_at-Agrees :
    (c : Buffer) (ss : List Slice) (buffer : Buffer) (s : Slice)
    → IsSlice c s
    → length buffer ≤ length c
    → Agrees c ss buffer
    → (length (write_at buffer s.0 s.1) ≤ length c) × Agrees c (s ∷ ss) (write_at buffer s.0 s.1)
unfolding write_at
write_at-Agrees c ss buffer (offset, []) slice short agrees = (short, skip)
  where
    skip : Agrees c ((offset, []) ∷ ss) buffer
    skip k (inl h) = absurd (omega (arith, h.0, h.1))
    skip k (inr h) = agrees k h
write_at-Agrees c ss buffer (offset, b ∷ block) slice short agrees =
    let n : ℕ = offset + length (b ∷ block) - length buffer in
    let size = length-zeros buffer n in
    let fits : offset + length (b ∷ block) ≤ length (buffer ++ replicate n 0) = omega arith in
    (
      omega (arith, length-overwrite (buffer ++ replicate n 0) offset (b ∷ block) fits, slice.0),
      overwrite-Agrees c ss (buffer ++ replicate n 0) (offset, b ∷ block) slice fits
          (Agrees-zeros c ss buffer n agrees),
    )

abbrev good : Buffer → File
good buffer = record { bytes = buffer; failed = false }

write_job_lem :
    (buffer : Buffer) (j : Job)
    → j.offset ≡ pos (pos_part j.offset)
    → write_job (good buffer) j ≡ good (write_at buffer (pos_part j.offset) j.b)
unfolding write_job write_from
write_job_lem buffer j e = ap (λ z. write_from buffer z j.b) e

write_jobs_lem :
    (c : Buffer) (js : List Job) (done : List Slice) (buffer : Buffer)
    → length buffer ≤ length c
    → Agrees c done buffer
    → All (IsPart c) js
    → (result : Buffer) × (write_jobs (good buffer) js ≡ good result)
      × (length result ≤ length c)
      × ((k : ℕ)
          → Covered (map part_of js) k ⊎ Covered done k
          → (k < length result) × (get_or result k 0 ≡ get_or c k 0))
unfolding write_jobs
write_jobs_lem c [] done buffer short agrees parts =
    (buffer, refl, short, λ k h. agrees k (right k h))
  where
    right : (k : ℕ) → ⊥ ⊎ Covered done k → Covered done k
    right k (inl h) = absurd h
    right k (inr h) = h
write_jobs_lem c (j ∷ js) done buffer short agrees parts =
    let (short', agrees') = write_at-Agrees c done buffer (part_of j) parts.0.1 short agrees in
    let (result, run, size, all) =
      write_jobs_lem c js (part_of j ∷ done) (write_at buffer (pos_part j.offset) j.b) short'
        agrees' parts.1 in
    (
      result,
      ap (λ f. write_jobs f js) (write_job_lem buffer j parts.0.0) ∙ run,
      size,
      λ k h. all k (shift k h),
    )
  where
    shift :
        (k : ℕ)
        → Covered (map part_of (j ∷ js)) k ⊎ Covered done k
        → Covered (map part_of js) k ⊎ Covered (part_of j ∷ done) k
    shift k (inl (inl h)) = inr (inl h)
    shift k (inl (inr h)) = inl h
    shift k (inr h) = inr (inr h)

-- Jobs that are parts of a byte string and leave out none of its bytes make up the string, in whatever
-- order they are written, and the stream does not fail.
pub file_of-parts :
    (c : Buffer) (js : List Job)
    → All (IsPart c) js
    → ((k : ℕ) → k < length c → Covered (map part_of js) k)
    → file_of js ≡ record { bytes = c; failed = false }
file_of-parts c js parts cover =
    let (result, run, size, all) =
      write_jobs_lem c js [] [] (omega arith) (λ k h. absurd h) parts in
    run ∙ ap good (Agrees-eq c (map part_of js) result size cover (λ k h. all k (inl h)))

-- A writer that was given some parts of a byte string, and whose thread leaves its loop, has left a file that
-- has the bytes of these parts.
pub leaving-agrees :
    {w w' : Writer} {js ks : List Job} (c : Buffer)
    → Run new_writer js w
    → Step w ks w'
    → w.thread ≢ finished
    → w'.thread ≡ finished
    → All (IsPart c) js
    → (file : Buffer) × (file_of w'.out ≡ good file)
      × (length file ≤ length c)
      × ((k : ℕ)
          → Covered (map part_of js) k
          → (k < length file) × (get_or file k 0 ≡ get_or c k 0))
leaving-agrees {js = js} c r s before after parts =
    let (file, run, size, all) = write_jobs_lem c js [] [] (omega arith) (λ k h. absurd h) parts in
    (
      file,
      ap file_of (sym (leaving-all_written r s before after).0) ∙ run,
      size,
      λ k h. all k (inl h),
    )

-- A writer that was given the parts of a byte string, in any order and with no byte left out, and whose
-- thread leaves its loop, whatever the interleaving of the threads, has left exactly the string in the
-- file.
pub leaving-file :
    {w w' : Writer} {js ks : List Job} (c : Buffer)
    → Run new_writer js w
    → Step w ks w'
    → w.thread ≢ finished
    → w'.thread ≡ finished
    → All (IsPart c) js
    → ((k : ℕ) → k < length c → Covered (map part_of js) k)
    → file_of w'.out ≡ record { bytes = c; failed = false }
leaving-file {js = js} c r s before after parts cover =
    ap file_of (sym (leaving-all_written r s before after).0) ∙ file_of-parts c js parts cover
