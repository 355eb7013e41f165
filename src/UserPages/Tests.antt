-- ===== src/UserPages/Tests.antt =====
-- A page of a process, allocated and removed.
use unix_kernel.Base.{arith, none, some, [], ◌∷◌}
use unix_kernel.StHash.{set_bucket}
use unix_kernel.Hash.{Ht, hash_get_index}
use unix_kernel.Frame.{all_ok}
use unix_kernel.Pgtable.Tests.{pgd, page, used_vm, used-IsPgd}
use unix_kernel.UserPages.{Process, remove_pages_handler}
use unix_kernel.UserPages.Removed.{KeepsTables, remove_pages_handler_lem}

-- One page is allocated at `page`.
abbrev pages : Ht
pages = record {
  entry_count = 1;
  table =
      set_bucket (λ _. none) (hash_get_index page)
        (some (record { key = page; value = 4096 } ∷ []));
}

abbrev process : Process
process = record { vm = used_vm; new_pages_ht = pages }

remove_pages_handler_lem_example :
    KeepsTables used_vm (remove_pages_handler all_ok 0x1000000 process pgd page).1.vm pgd
remove_pages_handler_lem_example =
    remove_pages_handler_lem all_ok 0x1000000 process pgd page (λ z. ground arith) used-IsPgd
