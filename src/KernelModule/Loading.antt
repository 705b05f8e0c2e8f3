-- ===== src/KernelModule/Loading.antt =====
-- Loading the modules and taking them out.
use study_eltex.Prelude.{◌≡◌, zero, suc, Bool, refl, true, false, not, ◌&&◌}
use study_eltex.Prelude.Int.{ℤ, pos, negsuc}
use study_eltex.KernelModule.{
  Answers, Registered, nothing, init_module, cleanup_module, is_negative, is_zero,
}

-- Whether register_chrdev succeeds, and whether the module is loaded.
abbrev pub is_registered : Answers → Bool
is_registered a = not (is_negative a.major)

abbrev pub is_loaded : Answers → Bool
is_loaded a = is_registered a && (a.kobject_created && is_zero a.group_code)

-- The code says whether the module is loaded; the directory and its group are there just then; the device
-- and the file of /proc are there whenever register_chrdev succeeded.
abbrev pub HasResources : Answers → ℤ × Registered → Type 0
HasResources a (rc, r) =
    (is_zero rc ≡ is_loaded a)
    × (r.kobject ≡ is_loaded a)
    × (r.group ≡ is_loaded a)
    × (r.chrdev ≡ is_registered a)
    × (r.proc ≡ (is_registered a && a.proc_created))
    × (cleanup_module r ≡ nothing)

init_module-cases :
    (major : ℤ) (proc kobject : Bool) (code : ℤ)
    → let a : Answers = record {
      major = major;
      proc_created = proc;
      kobject_created = kobject;
      group_code = code;
    } in
      HasResources a (init_module a)
unfolding init_module cleanup_module is_negative is_zero
init_module-cases (negsuc m) proc kobject code = (refl, refl, refl, refl, refl, refl)
init_module-cases (pos m) proc false code = (refl, refl, refl, refl, refl, refl)
init_module-cases (pos m) proc true (pos zero) = (refl, refl, refl, refl, refl, refl)
init_module-cases (pos m) proc true (pos (suc n)) = (refl, refl, refl, refl, refl, refl)
init_module-cases (pos m) proc true (negsuc n) = (refl, refl, refl, refl, refl, refl)

-- Whatever the kernel answers, init_module returns 0 just when all of its calls but proc_create succeed, the
-- directory of sysfs and its group are there just then, and cleanup_module takes everything back; but the
-- character device, and the file of /proc if there is one, are there whenever register_chrdev succeeded, so
-- also behind a later failure.
pub init_module_resources : (a : Answers) → HasResources a (init_module a)
init_module_resources a = init_module-cases a.major a.proc_created a.kobject_created a.group_code
