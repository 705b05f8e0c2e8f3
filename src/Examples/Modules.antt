-- ===== src/Examples/Modules.antt =====
-- Runs of the kernel modules' handlers, with copies that move what fits.
use study_eltex.Prelude.{
  ℕ, ◌+◌, ◌-◌, ◌≤◌, ◌<◌, ◌≡◌, refl, ap, ◌∙◌, sym, true, false, [], ◌++◌, append-nil, Bytes, codes,
  length, take, drop, take-append_length, leb, if◌then◌else◌, arith,
}
use study_eltex.Prelude.Int.{pos}
use study_eltex.KernelModule.Loading.{HasResources, init_module_resources}
use study_eltex.KernelModule.{Answers, init_module, Copies, size, einval, test_read, test_write}
use study_eltex.KernelModule.Handlers.{test_read-test_write}

-- How many of `count` bytes are moved.
abbrev moved : (count off available : ℕ) → ℕ
moved count off available = if leb (off + count) available then count else available - off

abbrev copies : Copies
copies = record {
  simple_read_from_buffer = λ count off from available.
      let n = moved count off available in (pos n, take n (drop off from), off + n);
  simple_write_to_buffer = λ to available off from count.
      let n = moved count off available in
      (pos n, take off to ++ (take n from ++ drop (off + n) to), off + n);
}

moved-fits : (count off available : ℕ) → off + count ≤ available → moved count off available ≡ count
moved-fits count off available h = ground arith

take-length : (s : Bytes) → take (length s) s ≡ s
take-length s = ap (take (length s)) (sym (append-nil s)) ∙ take-append_length (length s) s [] refl

write_law :
    (to from : Bytes) (available off : ℕ)
    → off + length from ≤ available
    → off < available
    → copies.simple_write_to_buffer to available off from (length from)
      ≡ (pos (length from), take off to ++ (from ++ drop (off + length from) to), off + length from)
write_law to from available off h k =
    rw (moved-fits (length from) off available h) (rw (take-length from) refl)

read_law :
    (from : Bytes) (count available off : ℕ)
    → off + count ≤ available
    → off < available
    → copies.simple_read_from_buffer count off from available
      ≡ (pos count, take count (drop off from), off + count)
read_law from count available off h k = rw (moved-fits count off available h) refl

abbrev fifteen : Bytes
fifteen = codes "Hello, world!!!"

test_read-test_write_example :
    let w = test_write copies fifteen (codes "kernel") 6 7 in
    (w.rc ≡ pos 6)
    × (w.string ≡ codes "Hello, kernel!!")
    × (test_read copies w.string 6 7
        ≡ record { rc = pos 6; copied = codes "kernel"; string = w.string; off = 13 })
    × ((long : Bytes)
        → size < length long
        → test_write copies fifteen long (length long) 7
          ≡ record { rc = einval; copied = []; string = fifteen; off = 7 })
test_read-test_write_example =
    test_read-test_write copies write_law read_law fifteen (codes "kernel") 7 refl (omega arith)
      (omega arith)

-- The kernel gives no kobject.
abbrev without_kobject : Answers
without_kobject = record {
  major = pos 240;
  proc_created = true;
  kobject_created = false;
  group_code = pos 0;
}

init_module_resources_example : HasResources without_kobject (init_module without_kobject)
init_module_resources_example = init_module_resources without_kobject
