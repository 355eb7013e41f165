-- ===== src/Loader/Image.antt =====
-- load_prog of loader.c up to the point where the program's registers and process are made. The ELF
-- header comes from the library's elf_load_helper, and `none` is its refusal. `image` is the user
-- memory of the new directory; `pcb_pgd` is the directory of the process that is replaced, `none` for
-- a NULL pcb. A directory's first entries, those of the kernel, are shared by all.
pub mod Failed
use unix_kernel.Base.{
  ℕ, zero, suc, ◌+◌, ◌-◌, ◌*◌, ◌^◌, Bool, true, false, Option, none, some, List, [], ◌∷◌, ℤ, pos,
  ◌==◌, ltb, eq_int, if◌then◌else◌,
}
use unix_kernel.Frame.{HtAllocs}
use unix_kernel.Pgtable.{Flags, Pte, Vm, pgd_alloc}
use unix_kernel.Pgtable.Walks.{pgd_alloc_pages, pgd_free}
use unix_kernel.Loader.{Bytes, user_stack_base, page_size, memcpy, getbytes, main_stack}
use unix_kernel.Loader.Saved.{Heap, save_argvec, free_argvec}

-- A section of `simple_elf_t`.
pub record Section : Type 0 where
  pub start : ℕ
  pub len : ℕ
  pub off : ℕ

pub record Elf : Type 0 where
  pub bss : Section
  pub dat : Section
  pub txt : Section
  pub rodat : Section

pub record Loading : Type 0 where
  pub vm : Vm
  pub heap : Heap
  pub cr3 : ℕ
  pub pcb_pgd : Option ℕ
  pub image : Bytes

-- memcpy(pgd, kern_pgd, PAGE_SIZE).
pub copy_page : Vm → (dest source : ℕ) → Vm
copy_page vm dest source = record vm {
  mem = λ table index. if table == dest then vm.mem source index else vm.mem table index;
}

pub set_pgd : Option ℕ → ℕ → Option ℕ
set_pgd none pgd = none
set_pgd (some old) pgd = some pgd

unfoldable pub orig_pgd : (kern_pgd : ℕ) → Option ℕ → ℕ
orig_pgd kern_pgd none = kern_pgd
orig_pgd kern_pgd (some pgd) = pgd

abbrev pub writable : Flags
writable = record { present = true; writable = true; user = true; global = false }

abbrev pub read_only : Flags
read_only = record { present = true; writable = false; user = true; global = false }

-- The first string of a vector that is never empty, and the others.
abbrev pub first_string : List (List ℕ) → List ℕ
first_string [] = []
first_string (s ∷ ss) = s

abbrev pub other_strings : List (List ℕ) → List (List ℕ)
other_strings [] = []
other_strings (s ∷ ss) = ss

-- A step of load_prog: `none` is no fuel or a bad write, `false` a failure that has been cleaned up.
pub and_then :
    Option (Bool × Loading) → (Loading → Option (Bool × Loading)) → Option (Bool × Loading)
and_then none next = none
and_then (some (true, s)) next = next s
and_then (some (false, s)) next = some (false, s)

module _ (ok : HtAllocs) (orig pgd : ℕ) (args : List (List ℕ)) where
  -- The old directory is in use again, and the new one is freed.
  pub give_up : Loading → Loading
  give_up s = record s {
    pcb_pgd = set_pgd s.pcb_pgd orig;
    cr3 = orig;
    heap = free_argvec s.heap args;
    vm = pgd_free s.vm pgd;
  }

  -- One section: its pages, then its contents.
  pub load_section : Flags → Section → (Bytes → Bytes) → Loading → Option (Bool × Loading)
  load_section flags part fill s =
      if part.len == 0
      then some (true, s)
      else elim (pgd_alloc_pages ok s.vm pgd part.start part.len flags flags) [
        | none ↦ none
        | some (r, vm) ↦
            if eq_int r (pos 0)
            then some (true, record s { vm = vm; image = fill s.image })
            else some (false, give_up (record s { vm = vm }))
      ]

  -- The contents of a section come from the file that the first saved argument names.
  pub from_file : (toc : List (List ℕ × List ℕ)) → Section → Bytes → Bytes
  from_file toc part m = (getbytes toc (first_string args) part.off part.len m part.start).1

  pub load_sections : (toc : List (List ℕ × List ℕ)) → Elf → Loading → Option (Bool × Loading)
  load_sections toc e s =
      and_then
        (load_section writable e.bss
          (λ m j.
            if ltb j e.bss.start then m j else if ltb j (e.bss.start + e.bss.len) then 0 else m j)
          s)
        λ s1. and_then (load_section writable e.dat (from_file toc e.dat) s1) λ s2.
          and_then (load_section read_only e.txt (from_file toc e.txt) s2)
            λ s3. load_section read_only e.rodat (from_file toc e.rodat) s3

  -- The new directory comes into use, and the arguments go to its stack.
  pub enter : Loading → Vm → Option Loading
  enter s vm = elim (main_stack s.image (first_string args) (other_strings args)) [
    | none ↦ none
    | some image ↦
        some (record s { vm = vm; pcb_pgd = set_pgd s.pcb_pgd pgd; cr3 = pgd; image = image })
  ]

  pub forget_args : Loading → Option (Bool × Loading)
  forget_args s = some (true, record s { heap = free_argvec s.heap args })

  -- From the pages of the stack on; the arguments are saved.
  pub load_saved : (toc : List (List ℕ × List ℕ)) → Elf → Loading → Option (Bool × Loading)
  load_saved toc e s =
      elim (pgd_alloc_pages ok s.vm pgd (user_stack_base - page_size) (2 * page_size) writable
        writable) [
          | none ↦ none
          | some (r, vm) ↦
              if eq_int r (pos 0)
              then elim (enter s vm) [
                | none ↦ none
                | some entered ↦ and_then (load_sections toc e entered) forget_args
              ]
              else some (false, record s { vm = pgd_free vm pgd; heap = free_argvec s.heap args })
        ]

-- The answer is the new directory, or 0.
pub load_image :
    HtAllocs
    → (kern_pgd : ℕ) → (toc : List (List ℕ × List ℕ)) → Option Elf
    → (filename : List ℕ) → (argvec : Option (List (List ℕ))) → Loading
    → Option (ℕ × Loading)
load_image ok kern_pgd toc elf filename argvec s =
    let (pgd, vm) = pgd_alloc s.vm in
    let s1 : Loading = record s { vm = copy_page vm pgd kern_pgd } in
    if pgd == 0 then some (0, record s { vm = vm }) else elim elf [
      | none ↦ some (0, s1)
      | some e ↦ elim (save_argvec s.heap filename argvec) [
        | none ↦ none
        | some (none, heap) ↦ some (0, record s1 { vm = pgd_free s1.vm pgd; heap = heap })
        | some (some args, heap) ↦
            elim (load_saved ok (orig_pgd kern_pgd s.pcb_pgd) pgd args toc e
              (record s1 { heap = heap })) [
                | none ↦ none
                | some (loaded, left) ↦ some (if loaded then pgd else 0, left)
              ]
      ]
    ]
