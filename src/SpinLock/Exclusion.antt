-- ===== src/SpinLock/Exclusion.antt =====
-- Any order of the steps of user/libthread/mutex.c.
use unix_kernel.Base.{
  ℕ, ◌+◌, ◌<◌, ◌≡◌, refl, ap, ◌⊎◌, true, false, inl, inr, none, some, List, arith, if◌then◌else◌,
}
use unix_kernel.SpinLock.{
  outside, spinning, inside, leaving, System, at_place, lock_count, lock_try, xchg_available,
  unlock_open, unlock_count, spin, Step, arrive, try, open_up, depart, Steps, stay, then_step,
  mutex_destroy,
}
use unix_kernel.SpinLock.Inv.{busy, at_mutex, at_mutex-set, IsSystem}

module _ (ts : List ℕ) where
  Step-IsSystem : (s s' : System) → IsSystem ts s → Step ts s s' → IsSystem ts s'
  unfolding lock_count lock_try xchg_available unlock_open unlock_count spin at_place
  Step-IsSystem s s' v (arrive _ t mine there at) =
      let init = v.init in
      let sum = at_mutex-set s.place t spinning ts mine in
      let here = ap busy at in
      let counted = v.counted in
      let more : (lock_count s.mutex).threads_count ≡ s.mutex.threads_count + 1 = ground arith in
      record {
        init = ground arith;
        known = λ u ne. let old = v.known u in ground arith;
        counted = omega (arith, more);
        one = λ u w a b. let old = v.one u w in ground arith;
        shut = λ u a. let old = v.shut u in ground arith;
        owned = elim v.owned [ inl free ↦ inl (ground arith) | inr (u, a) ↦ inr (u, ground arith) ];
      }
  Step-IsSystem s s' v (try _ t at) =
      let here = ap busy at in
      let counted = v.counted in
      let got = if s.mutex.available then inside else spinning in
      let mine = v.known t (λ z. ground arith) in
      let sum = at_mutex-set s.place t got ts mine in
      let still : busy got ≡ 1 = ground arith in
      record {
        init = v.init;
        known = λ u ne. let old = v.known u in ground arith;
        counted = omega arith;
        one = λ u w a b.
            let old = v.one u w in let shut_u = v.shut u in let shut_w = v.shut w in ground arith;
        shut = λ u a. refl;
        owned = elim v.owned [
          | inl free ↦ inr (t, ground arith)
          | inr (u, a) ↦ let shut = v.shut u a in inr (u, ground arith)
        ];
      }
  Step-IsSystem s s' v (open_up _ t at) =
      let init = v.init in
      let here = ap busy at in
      let counted = v.counted in
      let sum = at_mutex-set s.place t leaving ts (v.known t (λ z. ground arith)) in
      let same : (unlock_open s.mutex).threads_count ≡ s.mutex.threads_count = ground arith in
      record {
        init = ground arith;
        known = λ u ne. let old = v.known u in ground arith;
        counted = omega (arith, same);
        one = λ u w a b. let old = v.one u w in ground arith;
        shut = λ u a. let old = v.one u t in ground arith;
        owned = inl (ground arith);
      }
  Step-IsSystem s s' v (depart _ t at) =
      let here = ap busy at in
      let counted = v.counted in
      let sum = at_mutex-set s.place t outside ts (v.known t (λ z. ground arith)) in
      record {
        init = v.init;
        known = λ u ne. let old = v.known u in ground arith;
        counted = omega arith;
        one = λ u w a b. let old = v.one u w in ground arith;
        shut = λ u a. let old = v.shut u in ground arith;
        owned = elim v.owned [ inl free ↦ inl free | inr (u, a) ↦ inr (u, ground arith) ];
      }

  pub Steps-IsSystem : (s s' : System) → IsSystem ts s → Steps ts s s' → IsSystem ts s'
  Steps-IsSystem s s' v (stay _) = v
  Steps-IsSystem s s'' v (then_step _ s' _ before step) =
      Step-IsSystem s' s'' (Steps-IsSystem s s' v before) step

  -- From a well-formed system, after any sequence of steps of the threads: at most one thread is past
  -- mutex_lock and has not opened the mutex; a mutex that is not available is held by a thread; the
  -- count is the number of threads between their first step of mutex_lock and their last one of
  -- mutex_unlock; and mutex_destroy does not panic exactly when the mutex is available and no thread
  -- is there.
  pub spin_exclusion :
      (s s' : System)
      → IsSystem ts s
      → Steps ts s s'
      → ((t u : ℕ) → s'.place t ≡ inside → s'.place u ≡ inside → t ≡ u)
        × ((s'.mutex.available ≡ true) ⊎ ((t : ℕ) × (s'.place t ≡ inside)))
        × (s'.mutex.threads_count ≡ at_mutex s'.place ts)
        × ((s'.mutex.available ≡ true)
            → at_mutex s'.place ts ≡ 0
            → mutex_destroy s'.mutex ≡ some (record s'.mutex { init = false }))
        × ((s'.mutex.available ≡ false) ⊎ (0 < at_mutex s'.place ts)
            → mutex_destroy s'.mutex ≡ none)
  unfolding mutex_destroy
  spin_exclusion s s' v steps =
      let w = Steps-IsSystem s s' v steps in
      let init = w.init in
      let counted = w.counted in
      (w.one, w.owned, counted, λ free none_there. ground arith, λ busy. ground arith)
