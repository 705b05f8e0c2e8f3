-- ===== src/KernelModule.antt =====
-- The kernel modules modules/sys-proc_module/test2.c and modules/read-write_module/test.c: a string of 15
-- bytes that a character device, a file of /proc and a file of sysfs read and write, and what is registered
-- when the module is loaded. A handler runs to its end before the next; `none` is an access out of bounds.
pub mod Handlers
pub mod Loading
use study_eltex.Prelude.{
  ℕ, zero, suc, Bool, true, false, Option, none, some, List, [], ◌∷◌, ◌++◌, Bytes, codes, length,
  take, drop, ltb, leb, ◌==◌, if◌then◌else◌,
}
use study_eltex.Prelude.Int.{ℤ, pos, negsuc}
use study_eltex.Contacts.{◌>>=◌}

-- The size of `test_string` and of `string`.
abbrev pub size : ℕ
size = 15

-- -EINVAL and -ENOMEM
abbrev pub einval : ℤ
einval = negsuc 21

abbrev pub enomem : ℤ
enomem = negsuc 11

-- What a handler returns: its code, the bytes that the caller's buffer is given, the string and the file
-- position afterwards.
pub record Reply : Type 0 where
  pub rc : ℤ
  pub copied : Bytes
  pub string : Bytes
  pub off : ℕ

-- The kernel's copies between a buffer of the module and one of the caller's: for a read the code, the bytes
-- given to the caller and the position; for a write the code, the module's buffer and the position.
pub record Copies : Type 0 where
  pub simple_read_from_buffer : (count off : ℕ) (from : Bytes) (available : ℕ) → ℤ × Bytes × ℕ
  pub simple_write_to_buffer :
      (to : Bytes) (available off : ℕ) (from : Bytes) (count : ℕ) → ℤ × Bytes × ℕ

-- `strlen` on an array: there must be a NUL in it.
unfoldable pub strlen : Bytes → Option ℕ
strlen [] = none
strlen (c ∷ s) = let rest = strlen s in if c == 0 then some 0 else rest >>= λ n. some (suc n)

module _ (k : Copies) where
  -- test_read, and test_proc_read, which takes no lock.
  unfoldable pub test_read : (string : Bytes) (count off : ℕ) → Reply
  test_read string count off =
      let (rc, copied, off') = k.simple_read_from_buffer count off string size in
      record { rc = rc; copied = copied; string = string; off = off' }

  unfoldable pub test_proc_read : (string : Bytes) (count off : ℕ) → Reply
  test_proc_read string count off =
      let (rc, copied, off') = k.simple_read_from_buffer count off string size in
      record { rc = rc; copied = copied; string = string; off = off' }

  unfoldable pub test_proc_write : (string buff : Bytes) (count off : ℕ) → Reply
  test_proc_write string buff count off =
      let (rc, string', off') = k.simple_write_to_buffer string size off buff count in
      record { rc = rc; copied = []; string = string'; off = off' }

  -- test_write: a request longer than the string is refused as a whole.
  unfoldable pub test_write : (string buff : Bytes) (count off : ℕ) → Reply
  test_write string buff count off =
      let (rc, string', off') = k.simple_write_to_buffer string size off buff count in
      if ltb size count
      then record { rc = einval; copied = []; string = string; off = off }
      else record { rc = rc; copied = []; string = string'; off = off' }

  -- The handlers of modules/read-write_module/test.c, whose texts are the same.
  abbrev pub device_read : (string : Bytes) (count off : ℕ) → Reply
  device_read = test_read

  abbrev pub device_write : (string buff : Bytes) (count off : ℕ) → Reply
  device_write = test_write

-- The bytes given to sysfs and the number of them that are shown.
unfoldable pub string_show : (string : Bytes) → Option (Bytes × ℕ)
string_show string = do rc ← strlen string; some (take size string, rc)

-- memcpy of `count` bytes over the front of the string, with no test of `count`.
unfoldable pub string_store : (string buf : Bytes) (count : ℕ) → Option (Bytes × ℕ)
string_store string buf count = do
  let string' = take count buf ++ drop count string
  rc ← strlen buf
  if leb count size then some (string', rc) else none

-- What is registered in the kernel.
pub record Registered : Type 0 where
  pub chrdev : Bool
  pub proc : Bool
  pub kobject : Bool
  pub group : Bool

abbrev pub nothing : Registered
nothing = record { chrdev = false; proc = false; kobject = false; group = false }

-- What the kernel's calls return at loading: `major`, whether proc_create gave an entry, whether there is a
-- kobject, and the code of sysfs_create_group.
pub record Answers : Type 0 where
  pub major : ℤ
  pub proc_created : Bool
  pub kobject_created : Bool
  pub group_code : ℤ

unfoldable pub is_negative : ℤ → Bool
is_negative (pos n) = false
is_negative (negsuc n) = true

unfoldable pub is_zero : ℤ → Bool
is_zero (pos zero) = true
is_zero _ = false

-- init_module of test2.c: the code and what is registered then. kobject_put takes the directory back.
pub init_module : Answers → ℤ × Registered
unfolding is_negative is_zero
init_module a =
    let files = record nothing { chrdev = true; proc = a.proc_created } in
    let object = record files { kobject = true } in
    if is_negative a.major
    then (a.major, nothing)
    else if a.kobject_created
    then if is_zero a.group_code
      then (pos 0, record object { group = true })
      else (a.group_code, files)
    else (enomem, files)

-- cleanup_module of test2.c
pub cleanup_module : Registered → Registered
cleanup_module r = record r { chrdev = false; proc = false; kobject = false; group = false }

-- init_module and cleanup_module of test.c
pub init_device : (major : ℤ) → ℤ × Registered
unfolding is_negative
init_device major =
    if is_negative major then (major, nothing) else (pos 0, record nothing { chrdev = true })

pub cleanup_device : Registered → Registered
cleanup_device r = record r { chrdev = false }
