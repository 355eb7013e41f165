-- ===== src/Loader/Image/Failed.antt =====
-- load_prog of loader.c succeeds, or leaves the process as it was.
use unix_kernel.Base.{
  ℕ, suc, ◌+◌, ◌-◌, ◌^◌, ◌<◌, ◌⊎◌, ◌≡◌, Bool, true, false, Option, some, List, length,
}
use unix_kernel.Pgtable.Walks.{last_address}
use unix_kernel.Loader.{Bytes, user_stack_base, page_size, main_args}
use unix_kernel.Loader.Vector.{copied_argv}
use unix_kernel.Loader.Image.{Section, Elf, Loading, set_pgd, first_string, other_strings}

abbrev stack_image : Bytes → List (List ℕ) → Bytes
stack_image m args =
    main_args (suc (length (other_strings args))) (user_stack_base + 20)
      (copied_argv m (user_stack_base + 20) (first_string args) (other_strings args))

-- A section that is empty or ends below the last page of the addresses, and a header of such sections.
abbrev pub IsLow : Section → Type 0
IsLow part = (part.len ≡ 0) ⊎ (last_address part.start part.len < 2 ^ 32 - page_size)

abbrev pub IsLowElf : Elf → Type 0
IsLowElf e = IsLow e.bss × IsLow e.dat × IsLow e.txt × IsLow e.rodat

module _ (orig pgd live : ℕ) (old : Option ℕ) where
  -- In the midst: `more` blocks for the arguments, and the new directory is in use.
  abbrev Underway : (more : ℕ) → Loading → Type 0
  Underway more s = (s.heap.live ≡ live + more) × (s.cr3 ≡ pgd) × (s.pcb_pgd ≡ set_pgd old pgd)

  -- After a failure.
  abbrev Back : Loading → Type 0
  Back s = (s.heap.live ≡ live) × (s.cr3 ≡ orig) × (s.pcb_pgd ≡ set_pgd old orig)

  abbrev Ends : (more : ℕ) → Bool × Loading → Type 0
  Ends more (true, s) = Underway more s
  Ends more (false, s) = Back s

  -- A step ends in one of the two ways.
  abbrev Returns : (more : ℕ) → Option (Bool × Loading) → Type 0
  Returns more m = (r : Bool × Loading) × (m ≡ some r) × Ends more r
