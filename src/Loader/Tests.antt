-- ===== src/Loader/Tests.antt =====
-- A program named "init" with one more argument.
use unix_kernel.Base.{
  ℕ, ◌+◌, ◌-◌, ◌≤◌, ◌<◌, ◌≡◌, refl, true, none, some, List, [], ◌∷◌, pos, minus_one,
}
use unix_kernel.Pgtable.Tests.{used_vm}
use unix_kernel.Loader.{
  Bytes, user_stack_base, page_size, main_stack, getbytes, find_file, same_string, count_argv,
}
use unix_kernel.Loader.Words.{load_word}
use unix_kernel.Loader.Args.{main_stack_lem}
use unix_kernel.Loader.Vector.{IsArgv, args_end}
use unix_kernel.Loader.Image.{Section, Elf, Loading}

abbrev init : List ℕ
init = 105 ∷ 110 ∷ 105 ∷ 116 ∷ []

abbrev option : List ℕ
option = 45 ∷ 118 ∷ []

main_stack_lem_example :
    (args_end init (option ∷ []) ≤ user_stack_base + page_size
      → (r : Bytes) × (main_stack (λ _. 0) init (option ∷ []) ≡ some r)
        × (load_word r (user_stack_base + 4) ≡ 2)
        × (load_word r (user_stack_base + 8) ≡ user_stack_base + 20)
        × (load_word r (user_stack_base + 12) ≡ user_stack_base + page_size)
        × (load_word r (user_stack_base + 16) ≡ user_stack_base - page_size)
        × IsArgv r (user_stack_base + 20) (user_stack_base + 20) (init ∷ option ∷ []))
    × (user_stack_base + page_size < args_end init (option ∷ [])
        → main_stack (λ _. 0) init (option ∷ []) ≡ none)
main_stack_lem_example = main_stack_lem (λ _. 0) init (option ∷ [])

abbrev part : ℕ → Section
part start = record { start = start; len = 0x2000; off = 4 }

abbrev header : Elf
header = record {
  bss = part 0x1400000;
  dat = part 0x1300000;
  txt = part 0x1000000;
  rodat = part 0x1200000;
}

-- fork has given the process the directory 0x3000.
abbrev start : Loading
start = record {
  vm = record used_vm { smem = 0x40000 ∷ 0x50000 ∷ [] };
  heap = record { answers = true ∷ true ∷ true ∷ []; live = 7 };
  cr3 = 0x3000;
  pcb_pgd = some 0x3000;
  image = λ _. 0;
}

-- Four bytes from the second on, of which the file has three.
getbytes_short : (getbytes ((init, init) ∷ []) init 1 4 (λ _. 0) 100).0 ≡ pos 3
unfolding getbytes find_file same_string
getbytes_short = refl

-- A vector without a first string.
count_argv_empty : count_argv (some []) ≡ minus_one
unfolding count_argv
count_argv_empty = refl
