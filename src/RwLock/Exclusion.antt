-- ===== src/RwLock/Exclusion.antt =====
-- Any order of the steps of user/libthread/rwlock.c.
use unix_kernel.Base.{
  ℕ, ◌+◌, ◌≡◌, ◌≢◌, refl, sym, subst, ap, ◌∙◌, true, false, Bool-cases, inl, inr, ◌⊎◌, Option, none,
  some, List, arith, ◌==◌, eq_of_==, has, if◌then◌else◌,
}
use unix_kernel.RwLock.{
  RwLock, Place, outside, read_wait_enter, read_signal_enter, read_check_empty, read_wait_mutex,
  read_count_up, read_wait_rw, read_signal_mutex, reading, done_wait_mutex, done_count_down,
  done_signal_mutex, write_wait_enter, write_wait_rw, writing, done_signal_rw, done_signal_enter,
  down_signal_enter, down_signal_rw, System, at_place, next, move, is_empty, fresh, rwlock_lock,
  rwlock_unlock, rwlock_downgrade, Step, lock, unlock, downgrade, go, Steps, stay, then_step,
}
use unix_kernel.RwLock.Weights.{
  in_section, first_reader, counted, excludes, writes, later_reader, total, total-set, total-bound,
  total-counted, total-outside, has-insert_key, has-delete_key,
}
use unix_kernel.RwLock.Inv.{IsSystem, Keeps, move-IsSystem}

-- What holds of a result, if there is one.
abbrev OnSome : (RwLock × Place → Type 0) → Option (RwLock × Place) → Type 0
OnSome P none = Unit
OnSome P (some r) = P r

-- The step of a thread inside a call keeps the balance, and the tree of writers.
next-Keeps :
    (l : RwLock) (x : Place)
    → OnSome
        (λ r. Keeps l r.0 x r.1 × (r.0.rw_tids ≡ l.rw_tids) × (writes r.1 ≡ writes x))
        (next l x)
unfolding next
next-Keeps l outside = tt
next-Keeps l read_wait_enter = elim (Bool-cases l.enter_mutex) [
  | inl e ↦ rw e (λ n n' b g. ground arith, refl, refl)
  | inr e ↦ rw e tt
]
next-Keeps l read_signal_enter = (λ n n' b g. ground arith, refl, refl)
next-Keeps l read_check_empty = elim (Bool-cases (is_empty l.rw_tids)) [
  | inl e ↦ rw e (λ n n' b g. ground arith, refl, refl)
  | inr e ↦ rw e (λ n n' b g. ground arith, refl, refl)
]
next-Keeps l read_wait_mutex = elim (Bool-cases l.mutex) [
  | inl e ↦ rw e (λ n n' b g. ground arith, refl, refl)
  | inr e ↦ rw e tt
]
next-Keeps l read_count_up = elim (Bool-cases (l.read_count + 1 == 1)) [
  | inl e ↦ rw e (λ n n' b g. ground arith, refl, refl)
  | inr e ↦ rw e (λ n n' b g. ground arith, refl, refl)
]
next-Keeps l read_wait_rw = elim (Bool-cases l.rw_mutex) [
  | inl e ↦ rw e (λ n n' b g. ground arith, refl, refl)
  | inr e ↦ rw e tt
]
next-Keeps l read_signal_mutex = (λ n n' b g. ground arith, refl, refl)
next-Keeps l reading = tt
next-Keeps l done_wait_mutex = elim (Bool-cases l.mutex) [
  | inl e ↦ rw e (λ n n' b g. ground arith, refl, refl)
  | inr e ↦ rw e tt
]
next-Keeps l done_count_down = (λ n n' b g. ground arith, refl, refl)
next-Keeps l done_signal_mutex = (λ n n' b g. ground arith, refl, refl)
next-Keeps l write_wait_enter = elim (Bool-cases l.enter_mutex) [
  | inl e ↦ rw e (λ n n' b g. ground arith, refl, refl)
  | inr e ↦ rw e tt
]
next-Keeps l write_wait_rw = elim (Bool-cases l.rw_mutex) [
  | inl e ↦ rw e (λ n n' b g. ground arith, refl, refl)
  | inr e ↦ rw e tt
]
next-Keeps l writing = tt
next-Keeps l done_signal_rw = (λ n n' b g. ground arith, refl, refl)
next-Keeps l done_signal_enter = (λ n n' b g. ground arith, refl, refl)
next-Keeps l down_signal_enter = (λ n n' b g. ground arith, refl, refl)
next-Keeps l down_signal_rw = (λ n n' b g. ground arith, refl, refl)

next-inside : (l : RwLock) (x : Place) (r : RwLock × Place) → next l x ≡ some r → x ≢ outside
unfolding next
next-inside l x r e z = ground (arith, ap (next l) z)

module _ (ts : List ℕ) where
  tree-same :
      (s : System) (t : ℕ) (x y : Place) (tids : List ℕ)
      → IsSystem ts s
      → s.place t ≡ x
      → tids ≡ s.lock.rw_tids
      → writes y ≡ writes x
      → (j : ℕ) → has j tids ≡ (if j == t then writes y else has j s.lock.rw_tids)
  tree-same s t x y tids v at same kept j = elim (Bool-cases (j == t)) [
    | inl e ↦
        rw (same, e, kept)
          (ap (λ (k : ℕ). has k s.lock.rw_tids) (eq_of_== j t e) ∙ v.tree t ∙ ap writes at)
    | inr e ↦ rw (same, e) refl
  ]

  unlock-IsSystem :
      (s : System) (t : ℕ) (x : Place)
      → IsSystem ts s
      → s.place t ≡ x
      → (x ≡ reading) ⊎ (x ≡ writing)
      → IsSystem ts (move s t (rwlock_unlock s.lock t))
  unfolding rwlock_unlock
  unlock-IsSystem s t x v at which =
      let there = v.tree t ∙ ap writes at in
      let gone = λ (j : ℕ). has-delete_key j t s.lock.rw_tids in
      elim which [
        | inl e ↦
            let absent = there ∙ ap writes e in
            let at = at ∙ e in
            move-IsSystem ts s t reading _ v (v.known t (λ z. ground arith)) at
              (rw absent (λ n n' b g. ground arith)) (λ j. rw (gone j, absent) (ground arith))
        | inr e ↦
            let present = there ∙ ap writes e in
            let at = at ∙ e in
            move-IsSystem ts s t writing _ v (v.known t (λ z. ground arith)) at
              (rw present (λ n n' b g. ground arith)) (λ j. rw (gone j, present) (ground arith))
      ]

  Step-IsSystem : (s s' : System) → IsSystem ts s → Step ts s s' → IsSystem ts s'
  unfolding rwlock_lock rwlock_downgrade
  Step-IsSystem s s' v (lock _ t true mine at) =
      move-IsSystem ts s t outside (rwlock_lock s.lock t true) v mine at (λ n n' b g. ground arith)
        (λ j. rw (has-insert_key j t s.lock.rw_tids) (ground arith))
  Step-IsSystem s s' v (lock _ t false mine at) =
      move-IsSystem ts s t outside (rwlock_lock s.lock t false) v mine at (λ n n' b g. ground arith)
        (tree-same s t outside read_wait_enter s.lock.rw_tids v at refl refl)
  Step-IsSystem s s' v (unlock _ t (inl at)) = unlock-IsSystem s t reading v at (inl refl)
  Step-IsSystem s s' v (unlock _ t (inr at)) = unlock-IsSystem s t writing v at (inr refl)
  Step-IsSystem s s' v (downgrade _ t at) =
      move-IsSystem ts s t writing (rwlock_downgrade s.lock t) v (v.known t (λ z. ground arith)) at
        (λ n n' b g. ground arith) (λ j. rw (has-delete_key j t s.lock.rw_tids) (ground arith))
  Step-IsSystem s s' v (go _ t r e) =
      let x = s.place t in
      let (keeps, tids, kept) =
        subst
          (OnSome (λ r.
            Keeps s.lock r.0 x r.1 × (r.0.rw_tids ≡ s.lock.rw_tids) × (writes r.1 ≡ writes x)))
          e (next-Keeps s.lock x) in
      move-IsSystem ts s t x r v (v.known t (next-inside s.lock x r e)) refl keeps
        (tree-same s t x r.1 r.0.rw_tids v refl tids kept)

  Steps-IsSystem : (s s' : System) → IsSystem ts s → Steps ts s s' → IsSystem ts s'
  Steps-IsSystem s s' v (stay _) = v
  Steps-IsSystem s s'' v (then_step _ s' _ before step) =
      Step-IsSystem s' s'' (Steps-IsSystem s s' v before) step

  one_writer :
      (s : System) (t u : ℕ) → IsSystem ts s → s.place t ≡ writing → s.place u ≡ writing → t ≡ u
  unfolding at_place
  one_writer s t u v at_t at_u = elim (Bool-cases (u == t)) [
    | inl e ↦ sym (eq_of_== u t e)
    | inr e ↦
        let mine = v.known t (λ z. ground arith) in
        let theirs = v.known u (λ z. ground arith) in
        let without = total-set excludes s.place t outside ts mine in
        let still = total-bound excludes (at_place s.place t outside) u ts theirs in
        let there : at_place s.place t outside u ≡ writing = rw (at_place, e) at_u in
        let taken = v.balanced in
        absurd (omega (arith, without, still, ap excludes there, ap excludes at_t, taken.2))
  ]

  no_reader : (s : System) (t u : ℕ) → IsSystem ts s → s.place t ≡ writing → s.place u ≡ reading → ⊥
  no_reader s t u v at_t at_u =
      let writer = total-bound excludes s.place t ts (v.known t (λ z. ground arith)) in
      let reader = total-bound later_reader s.place u ts (v.known u (λ z. ground arith)) in
      let sum = total-counted s.place ts in
      let here = ap excludes at_t in
      let there = ap later_reader at_u in let balanced = v.balanced in ground arith

  -- Nobody is in a call or has the lock.
  abbrev pub start : System
  start = record { lock = fresh; place = λ _. outside }

  start-IsSystem : IsSystem ts start
  start-IsSystem = record {
    known = λ t ne. absurd (ne refl);
    tree = λ t. refl;
    balanced =
        let a = total-outside in_section ts refl in
        let f = total-outside first_reader ts refl in
        let c = total-outside counted ts refl in
        let o = total-outside excludes ts refl in ground arith;
  }

  -- After any steps of the threads that use a reader-writer lock that rwlock_init made: while one
  -- thread writes, no other writes and none reads; `read_count` is the number of threads that are
  -- counted in it; and rwlock_unlock takes a thread that writes for a writer and one that reads for a
  -- reader.
  pub rw_exclusion :
      (s : System)
      → Steps ts start s
      → ((t u : ℕ) → s.place t ≡ writing → s.place u ≡ writing → t ≡ u)
        × ((t u : ℕ) → s.place t ≡ writing → s.place u ≢ reading)
        × (s.lock.read_count ≡ total counted s.place ts)
        × ((t : ℕ) → s.place t ≡ writing → (rwlock_unlock s.lock t).1 ≡ done_signal_rw)
        × ((t : ℕ) → s.place t ≡ reading → (rwlock_unlock s.lock t).1 ≡ done_wait_mutex)
  unfolding rwlock_unlock
  rw_exclusion s steps =
      let v = Steps-IsSystem start s start-IsSystem steps in
      (
        λ t u a b. one_writer s t u v a b,
        λ t u a b. no_reader s t u v a b,
        sym v.balanced.1,
        λ t a. rw (v.tree t ∙ ap writes a) refl,
        λ t a. rw (v.tree t ∙ ap writes a) refl,
      )
