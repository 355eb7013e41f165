-- ===== src/SpinLock/Tests.antt =====
-- The threads 1 and 2 want one free mutex.
use unix_kernel.Base.{
  ℕ, ◌<◌, ◌≡◌, ◌⊎◌, inl, refl, true, false, none, some, pos, List, [], ◌∷◌, arith,
}
use unix_kernel.Sched.Places.{count}
use unix_kernel.SpinLock.{
  Mutex, System, outside, spinning, inside, at_place, lock_count, lock_try, xchg_available, spin,
  Steps, arrive, try, stay, then_step, mutex_init, mutex_destroy, mutex_idle,
}
use unix_kernel.SpinLock.Inv.{at_mutex, IsSystem}
use unix_kernel.SpinLock.Exclusion.{spin_exclusion}

abbrev both : List ℕ
both = 1 ∷ 2 ∷ []

abbrev start : System
start = record {
  mutex = record { init = true; available = true; threads_count = 0 };
  place = λ _. outside;
}

start-IsSystem : IsSystem both start
unfolding at_mutex count lock_count
start-IsSystem = record {
  init = refl;
  known = λ t ne. absurd (ne refl);
  counted = refl;
  one = λ t u a b. ground arith;
  shut = λ t a. ground arith;
  owned = inl refl;
}

abbrev counted : ℕ → System → System
counted t s = record { mutex = lock_count s.mutex; place = at_place s.place t spinning }

abbrev contended : System
contended = spin (spin (counted 2 (counted 1 start)) 1) 2

to_contended : Steps both start contended
unfolding spin lock_try xchg_available at_place count lock_count
to_contended =
    then_step _ (spin (counted 2 (counted 1 start)) 1) _
      (then_step _ (counted 2 (counted 1 start)) _
        (then_step _ (counted 1 start) _
          (then_step _ start _ (stay start) (arrive start 1 refl refl refl))
          (arrive (counted 1 start) 2 refl refl refl))
        (try (counted 2 (counted 1 start)) 1 refl))
      (try (spin (counted 2 (counted 1 start)) 1) 2 refl)

spin_exclusion_example :
    ((t u : ℕ) → contended.place t ≡ inside → contended.place u ≡ inside → t ≡ u)
    × ((contended.mutex.available ≡ true) ⊎ ((t : ℕ) × (contended.place t ≡ inside)))
    × (contended.mutex.threads_count ≡ at_mutex contended.place both)
    × ((contended.mutex.available ≡ true)
        → at_mutex contended.place both ≡ 0
        → mutex_destroy contended.mutex ≡ some (record contended.mutex { init = false }))
    × ((contended.mutex.available ≡ false) ⊎ (0 < at_mutex contended.place both)
        → mutex_destroy contended.mutex ≡ none)
spin_exclusion_example = spin_exclusion both start contended start-IsSystem to_contended

-- Memory that holds a count of 3, and the mutex that mutex_init makes of it: it is never idle.
abbrev dirty : Mutex
dirty = record { init = false; available = false; threads_count = 3 }

abbrev initialised : Mutex
initialised = record { init = true; available = true; threads_count = 3 }

init-dirty : mutex_init (some dirty) ≡ (pos 0, some initialised)
unfolding mutex_init
init-dirty = refl

not_idle : mutex_idle initialised ≡ false
unfolding mutex_idle
not_idle = refl
