-- ===== src/Loader.antt =====
-- kern/loader.c: how a program's arguments and segments come into its address space. User memory is a
-- byte at each address; an int or a pointer is four bytes, the lowest first. A string is the list of
-- its characters without the NUL, and an argument vector the list of its strings, `none` for NULL.
pub mod Words
pub mod Vector
pub mod Args
pub mod Saved
pub mod Image
mod Tests
use unix_kernel.Base.{
  ℕ, zero, suc, ◌+◌, ◌-◌, ◌*◌, ◌/◌, ◌%◌, ◌^◌, Bool, ◌&&◌, Option, none, some, List, [], ◌∷◌, ℤ, pos,
  minus_one, ◌==◌, ltb, leb, if◌then◌else◌, length, get_or,
}

abbrev pub Bytes : Type 0
Bytes = ℕ → ℕ

abbrev pub user_stack_base : ℕ
user_stack_base = 0xc0000000

abbrev pub page_size : ℕ
page_size = 2 ^ 12

pub store_word : Bytes → (addr value : ℕ) → Bytes
store_word m a v j =
    if j == a
    then v % 2 ^ 8
    else if j == a + 1
    then v / 2 ^ 8 % 2 ^ 8
    else if j == a + 2
    then v / 2 ^ 16 % 2 ^ 8
    else if j == a + 3
    then v / 2 ^ 24 % 2 ^ 8
    else m j

pub strcpy : Bytes → (dest : ℕ) → List ℕ → Bytes
strcpy m dest [] j = if j == dest then 0 else m j
strcpy m dest (c ∷ s) j = if j == dest then c else strcpy m (dest + 1) s j

-- The characters `offset` on of a list, at most `n`, to `dest`.
pub memcpy : Bytes → (dest : ℕ) → List ℕ → (offset n : ℕ) → Bytes
memcpy m dest file offset n j =
    if leb dest j && ltb j (dest + n) then get_or file (offset + (j - dest)) 0 else m j

same_string : List ℕ → List ℕ → Bool
same_string [] [] = Bool.true
same_string [] (d ∷ t) = Bool.false
same_string (c ∷ s) [] = Bool.false
same_string (c ∷ s) (d ∷ t) = (c == d) && same_string s t

-- The file of that name in the table of contents.
pub find_file : (toc : List (List ℕ × List ℕ)) → (filename : List ℕ) → Option (List ℕ)
find_file [] filename = none
find_file ((name, bytes) ∷ toc) filename =
    let rest = find_file toc filename in if same_string filename name then some bytes else rest

-- The offset is taken to lie in the file.
pub getbytes :
    (toc : List (List ℕ × List ℕ))
    → (filename : List ℕ) → (offset size : ℕ) → Bytes
    → (buf : ℕ) → ℤ × Bytes
getbytes toc filename offset size m buf = elim (find_file toc filename) [
  | none ↦ (minus_one, m)
  | some bytes ↦
      let len = length bytes - offset in
      let n = if ltb size len then size else len in (pos n, memcpy m buf bytes offset n)
]

pub count_argv : Option (List (List ℕ)) → ℤ
count_argv none = pos 1
count_argv (some []) = minus_one
count_argv (some (s ∷ ss)) = pos (suc (length ss))

-- The loop of copy_argv over the strings that are left.
pub copy_rest : Bytes → (array_addr content : ℕ) → List (List ℕ) → Bytes
copy_rest m array_addr content [] = store_word m array_addr 0
copy_rest m array_addr content (s ∷ ss) =
    copy_rest (store_word (strcpy m content s) array_addr content) (array_addr + 4)
      (content + length s + 4) ss

-- Does each strcpy of the loop end in the memory that is mapped, below `limit`?
pub rest_fits : (limit content : ℕ) → List (List ℕ) → Bool
rest_fits limit content [] = Bool.true
rest_fits limit content (s ∷ ss) =
    leb (content + length s + 1) limit && rest_fits limit (content + length s + 4) ss

-- `others` are the strings argvec[1], …, argvec[argc - 1]. A strcpy past `limit` is a page fault of the
-- kernel, which `none` stands for; the array lies below the strings.
pub copy_argv :
    (limit : ℕ)
    → Bytes
    → (array_addr_start : ℕ) → (others : List (List ℕ)) → (argc : ℕ) → (filename : List ℕ)
    → Option Bytes
copy_argv limit m array_addr_start others argc filename =
    let content = array_addr_start + 4 * (argc + 1) in
    if rest_fits limit (content + length filename + 1) others
      && leb (content + length filename + 1) limit
    then some (
        copy_rest (store_word (strcpy m content filename) array_addr_start content)
          (array_addr_start + 4) (content + length filename + 1) others)
    else none

-- `_main`'s own arguments.
pub main_args : (argc argvec_start : ℕ) → Bytes → Bytes
main_args argc argvec_start m =
    let m = store_word m (user_stack_base + 4) argc in
    let m = store_word m (user_stack_base + 8) argvec_start in
    let m = store_word m (user_stack_base + 12) (user_stack_base + page_size) in
    store_word m (user_stack_base + 16) (user_stack_base - page_size)

-- The stack of `_main`: the saved arguments, then its own arguments below them. One page is mapped
-- from USER_STACK_BASE on.
pub main_stack : Bytes → (filename : List ℕ) → (others : List (List ℕ)) → Option Bytes
main_stack m filename others =
    let argc = suc (length others) in
    let argvec_start = user_stack_base + 20 in
    elim (copy_argv (user_stack_base + page_size) m argvec_start others argc filename) [
      | none ↦ none
      | some copied ↦ some (main_args argc argvec_start copied)
    ]
