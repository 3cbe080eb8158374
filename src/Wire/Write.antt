-- ===== src/Wire/Write.antt =====
-- `write_all` of print.c over a kernel that takes what it likes of each `write`.
use project_and_training_3_n.Base.{
  ℕ, zero, suc, ◌+◌, ◌≤◌, ◌<◌, ◌≡◌, inl, inr, refl, sym, ap, ◌∙◌, false, Option, none, some, [],
  ◌∷◌, ◌++◌, Bytes, ◌==◌, if◌then◌else◌, Bool-cases, length, take, drop, take-append-drop,
  length-drop, append-nil, append_assoc, arith,
}

-- `write (fd, buf, n)` as the kernel answers the call number `i`: how many bytes it took.
-- 0 stands for every return that is not positive.
abbrev pub Kernel : Type 0
Kernel = ℕ → ℕ → ℕ

-- How `write_all` ends: it returns, or it calls `exit (1)`.
pub data Ending : Type 0 where
  returned exited : Ending

-- The loop. `rest` is `&cbuf[off]`, and `sent` what was written so far.
-- `none` means that the fuel ran out.
unfoldable pub write_from : Kernel → ℕ → ℕ → Bytes → Bytes → Option (Ending × Bytes)
write_from k fuel i [] sent = some (returned, sent)
write_from k zero i (x ∷ rest) sent = none
write_from k (suc fuel) i (x ∷ rest) sent =
    let ret = k i (length (x ∷ rest)) in
    let next = write_from k fuel (i + 1) (drop ret (x ∷ rest)) (sent ++ take ret (x ∷ rest)) in
    if ret == 0 then some (exited, sent) else next

-- Every round writes a byte, so the buffer's size is fuel enough.
unfoldable pub write_all : Kernel → Bytes → Option (Ending × Bytes)
unfolding write_from
write_all k buf = write_from k (length buf) 0 buf []

-- The bytes of `buf` in order, up to some point; all of them if the call returned.
abbrev pub Wrote : Bytes → Ending × Bytes → Type 0
Wrote buf (returned, sent) = sent ≡ buf
Wrote buf (exited, sent) = (rest : Bytes) × (sent ++ rest ≡ buf)

write_from_lem :
    (k : Kernel) (fuel i : ℕ) (rest sent : Bytes)
    → length rest ≤ fuel
    → (r : Ending × Bytes) × (write_from k fuel i rest sent ≡ some r) × Wrote (sent ++ rest) r
unfolding write_from
write_from_lem k fuel i [] sent h = ((returned, sent), refl, sym (append-nil sent))
write_from_lem k zero i (x ∷ rest) sent h = absurd (omega arith)
write_from_lem k (suc fuel) i (x ∷ rest) sent h = elim (Bool-cases (k i (length (x ∷ rest)) == 0)) [
  | inl stop ↦ ((exited, sent), rw stop, (x ∷ rest, refl))
  | inr more ↦
      let ret = k i (length (x ∷ rest)) in
      let (r, e, w) =
        write_from_lem k fuel (i + 1) (drop ret (x ∷ rest)) (sent ++ take ret (x ∷ rest))
          (ground (arith, length-drop ret (x ∷ rest))) in
      (r, rw more e, rw (append_assoc, take-append-drop ret (x ∷ rest)) at w)
]

-- `write_all` ends, whatever the kernel does; what it wrote is the buffer from its start, no byte
-- twice and none left out, and the whole buffer if it returned.
pub write_all_lem :
    (k : Kernel) (buf : Bytes) → (r : Ending × Bytes) × (write_all k buf ≡ some r) × Wrote buf r
unfolding write_all
write_all_lem k buf = write_from_lem k (length buf) 0 buf [] (omega arith)

write_from-returned :
    (k : Kernel) (fuel i : ℕ) (rest sent : Bytes)
    → ((j n : ℕ) → 0 < n → 0 < k j n)
    → length rest ≤ fuel
    → write_from k fuel i rest sent ≡ some (returned, sent ++ rest)
unfolding write_from
write_from-returned k fuel i [] sent live h = rw append-nil
write_from-returned k zero i (x ∷ rest) sent live h = absurd (omega arith)
write_from-returned k (suc fuel) i (x ∷ rest) sent live h =
    let ret = k i (length (x ∷ rest)) in
    let some_taken : 0 < ret = live i (length (x ∷ rest)) (omega arith) in
    let more : (ret == 0) ≡ false = ground arith in
    rw more (
      write_from-returned k fuel (i + 1) (drop ret (x ∷ rest)) (sent ++ take ret (x ∷ rest)) live
        (ground (arith, length-drop ret (x ∷ rest)))
      ∙ ap (λ b. some (returned, b))
          (append_assoc sent (take ret (x ∷ rest)) (drop ret (x ∷ rest))
            ∙ ap (◌++◌ sent) (take-append-drop ret (x ∷ rest))))

-- If every `write` of a byte or more takes at least one, `write_all` returns and wrote the buffer.
pub write_all-returned :
    (k : Kernel) (buf : Bytes)
    → ((j n : ℕ) → 0 < n → 0 < k j n)
    → write_all k buf ≡ some (returned, buf)
unfolding write_all
write_all-returned k buf live = write_from-returned k (length buf) 0 buf [] live (omega arith)
