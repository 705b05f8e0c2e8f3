-- ===== src/KernelModule/Handlers.antt =====
-- The string of the kernel modules under their handlers. What the kernel's copies do is documented: they
-- move at most what is available behind the position, and report how much.
use study_eltex.Prelude.{
  ℕ, zero, suc, ◌+◌, ◌≤◌, ◌<◌, ◌≡◌, inl, inr, refl, ◌∙◌, Bool-cases, Option-cases, false, none,
  List, [], ◌∷◌, ◌++◌, append-nil, Bytes, length, take, drop, length-take, take-append_length,
  drop-append_length, ltb, lt→ltb, leb, arith, ◌==◌,
}
use study_eltex.Tokens.Fields.{Lacks}
use study_eltex.Prelude.Int.{pos}
use study_eltex.KernelModule.{
  Copies, Reply, size, einval, test_read, test_write, test_proc_read, test_proc_write, string_show,
  string_store, strlen,
}

-- A request for a handler.
pub data Request : Type 0 where
  read : (count off : ℕ) → Request
  write : (buff : Bytes) (count off : ℕ) → Request
  proc_read : (count off : ℕ) → Request
  proc_write : (buff : Bytes) (count off : ℕ) → Request

drop_all : (n : ℕ) (s : Bytes) → length s ≤ n → drop n s ≡ []
drop_all zero [] h = refl
drop_all zero (c ∷ s) h = absurd (omega arith)
drop_all (suc n) [] h = refl
drop_all (suc n) (c ∷ s) h = drop_all n s (omega arith)

module _ (k : Copies) where
  abbrev pub handle : Bytes → Request → Reply
  handle s (read count off) = test_read k s count off
  handle s (write buff count off) = test_write k s buff count off
  handle s (proc_read count off) = test_proc_read k s count off
  handle s (proc_write buff count off) = test_proc_write k s buff count off

  abbrev pub handle_all : Bytes → List Request → Bytes
  handle_all s [] = s
  handle_all s (r ∷ rs) = handle_all (handle s r).string rs

  -- A copy into a buffer does not change how long the buffer is.
  abbrev pub KeepsLength : Type 0
  KeepsLength =
      (to : Bytes) (available off : ℕ) (from : Bytes) (count : ℕ)
      → available ≤ length to
      → length (k.simple_write_to_buffer to available off from count).1 ≡ length to

  length-handle :
      KeepsLength → (s : Bytes) (r : Request) → length s ≡ size → length (handle s r).string ≡ size
  unfolding test_read test_write test_proc_read test_proc_write
  length-handle law s (read count off) h = h
  length-handle law s (write buff count off) h = elim (Bool-cases (ltb size count)) [
    | inl e ↦ rw e h
    | inr e ↦ rw e (law s size off buff count (omega arith) ∙ h)
  ]
  length-handle law s (proc_read count off) h = h
  length-handle law s (proc_write buff count off) h = law s size off buff count (omega arith) ∙ h

  -- Where a copy into a buffer does not change how long the buffer is, requests of any length at any position,
  -- on the device and in /proc, leave the string at 15 bytes.
  pub length-handle_all :
      ((to : Bytes) (available off : ℕ) (from : Bytes) (count : ℕ)
        → available ≤ length to
        → length (k.simple_write_to_buffer to available off from count).1 ≡ length to)
      → (rs : List Request) (s : Bytes) → length s ≡ size
      → length (handle_all s rs) ≡ size
  length-handle_all law [] s h = h
  length-handle_all law (r ∷ rs) s h =
      length-handle_all law rs (handle s r).string (length-handle law s r h)

  -- What a request that fits writes to the device is read back from the place where it was written, and the
  -- rest of the string stays; any request for more bytes than the string has gets -EINVAL and changes nothing.
  -- The kernel's copies of a request that fits move all of it and report that.
  pub test_read-test_write :
      ((to from : Bytes) (available off : ℕ)
        → off + length from ≤ available
        → off < available
        → k.simple_write_to_buffer to available off from (length from) ≡ (
          pos (length from),
          take off to ++ (from ++ drop (off + length from) to),
          off + length from,
        ))
      → ((from : Bytes) (count available off : ℕ)
          → off + count ≤ available
          → off < available
          → k.simple_read_from_buffer count off from available
            ≡ (pos count, take count (drop off from), off + count))
      → (s buff : Bytes) (off : ℕ) → length s ≡ size
      → off + length buff ≤ size
      → off < size
      → let w = test_write k s buff (length buff) off in
        let n = length buff in
        (w.rc ≡ pos n)
        × (w.string ≡ take off s ++ (buff ++ drop (off + n) s))
        × (test_read k w.string n off
            ≡ record { rc = pos n; copied = buff; string = w.string; off = off + n })
        × ((long : Bytes)
            → size < length long
            → test_write k s long (length long) off
              ≡ record { rc = einval; copied = []; string = s; off = off })
  unfolding test_read test_write
  test_read-test_write write_law read_law s buff off h fits inside =
      let n = length buff in
      let taken : ltb size n ≡ false = ground arith in
      let after = take off s ++ (buff ++ drop (off + n) s) in
      let front : length (take off s) ≡ off = omega (arith, length-take off s) in
      let back = drop-append_length off (take off s) (buff ++ drop (off + n) s) front in
      let whole = take-append_length n buff (drop (off + n) s) refl in
      rw (write_law s buff size off fits inside) (
        rw taken (
          refl,
          refl,
          rw (read_law after n size off fits inside) (rw back (rw whole refl)),
          λ long q. rw (lt→ltb size (length long) q) refl,
        ))

  -- strlen ends at a NUL; where the string has none it runs off its end.
  strlen-none : (s : Bytes) → Lacks 0 s → strlen s ≡ none
  unfolding strlen
  strlen-none [] h = refl
  strlen-none (c ∷ s) h =
      let other : (c == 0) ≡ false = ground arith in rw other (rw (strlen-none s h.1) refl)

  -- Fifteen bytes with no NUL written to the device at position 0 fill the string, and sysfs then reads it
  -- past its end; string_store with more bytes than the string has writes past its end, whatever the string.
  string_show_overruns :
      ((to from : Bytes) (available off : ℕ)
        → off + length from ≤ available
        → off < available
        → k.simple_write_to_buffer to available off from (length from) ≡ (
          pos (length from),
          take off to ++ (from ++ drop (off + length from) to),
          off + length from,
        ))
      → (s buff : Bytes) → length s ≡ size
      → length buff ≡ size
      → Lacks 0 buff
      → (string_show (test_write k s buff (length buff) 0).string ≡ none)
        × ((buf : Bytes) (count : ℕ) → size < count → string_store s buf count ≡ none)
  unfolding string_show string_store test_write
  string_show_overruns law s buff h l lacks =
      let refused : ltb size (length buff) ≡ false = ground arith in
      let rest : drop (0 + length buff) s ≡ [] = drop_all (0 + length buff) s (omega arith) in
      (
        rw (law s buff size 0 (omega arith) (omega arith))
            (rw refused (rw rest (rw (append-nil buff) (rw (strlen-none buff lacks) refl)))),
        λ buf count long.
            let over : leb count size ≡ false = ground arith in
            elim (Option-cases (strlen buf)) [
              | inl e ↦ rw e refl
              | inr (n, e) ↦ rw e (rw over refl)
            ],
      )
