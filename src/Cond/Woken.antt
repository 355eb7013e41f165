-- ===== src/Cond/Woken.antt =====
-- Who waits in a condition variable of cond.c, and who is woken.
use unix_kernel.Base.{
  ℕ, zero, suc, ◌≤◌, ◌<◌, ◌≡◌, ◌≢◌, refl, sym, ap, ◌∙◌, true, false, inl, inr, none, some, List, [],
  ◌∷◌, ◌++◌, append_assoc, arith, ◌==◌, ==_of_ne, Bool-cases, eq_of_==, ==_of_eq, length,
  last-cases, if◌then◌else◌,
}
use unix_kernel.Sched.Places.{count, count-take_last, places}
use unix_kernel.Sched.Puts.{runnable_put-head}
use unix_kernel.Sched.Turns.{take_last-append}
use unix_kernel.Sched.{Sched, take_last, sched_next}
use unix_kernel.Mutex.{Kernel, set_at}
use unix_kernel.Mutex.Inv.{cs_switch-to}
use unix_kernel.Mutex.Leave.{cond_unlock-somebody, cond_unlock-nobody}
use unix_kernel.Cond.{
  Conds, set_cond, set_queue, wait_in, cond_wait, signal_to, cond_signal, broadcast_from,
  cond_broadcast,
}

module _ (sched_ktcb : ℕ) (tid : ℕ → ℕ) where
  -- When a thread other than the scheduler's own runs, stands in no list of the scheduler and waits
  -- at the head of no queue: the one at the tail of the condition's queue leaves it and runs, the
  -- signalling thread stands at the head of the runnable ones, and nothing else has changed.
  pub cond_signal_lem :
      (wait_cond : ℕ) (s : Conds) (cv : ℕ) (ws : List ℕ) (w : ℕ)
      → cv ≢ 0
      → w ≢ 0
      → s.kernel.running ≢ sched_ktcb
      → places tid s.kernel.lists s.kernel.running ≡ 0
      → (s.cond cv).wait_ktcbs ≡ ws ++ w ∷ []
      → cond_signal sched_ktcb tid wait_cond s cv ≡ record (set_queue s cv ws) {
        kernel = record s.kernel {
          running = w;
          lists = record s.kernel.lists { runnable = s.kernel.running ∷ s.kernel.lists.runnable };
        };
      }
  unfolding cond_signal signal_to set_queue set_cond
  cond_signal_lem wait_cond s cv ws w ne w_ne other free e =
      let last : take_last (s.cond cv).wait_ktcbs ≡ some (w, ws) =
        ap take_last e ∙ take_last-append ws w in
      rw
        (
          ==_of_ne cv 0 ne,
          last,
          runnable_put-head sched_ktcb tid s.kernel.lists s.kernel.running free other,
          ==_of_ne _ sched_ktcb other,
        )
        (rw
          (cs_switch-to
            (record s.kernel {
              lists = record s.kernel.lists {
                runnable = s.kernel.running ∷ s.kernel.lists.runnable;
              };
            })
            w w_ne)
          refl)

  broadcast-stop :
      (fuel : ℕ) (s : Conds) (cv : ℕ)
      → take_last (s.cond cv).wait_ktcbs ≡ none
      → broadcast_from sched_ktcb tid (suc fuel) s cv ≡ s
  unfolding broadcast_from
  broadcast-stop fuel s cv e = rw (broadcast_from, e) refl

  abbrev next_round : Conds → (cv y : ℕ) → List ℕ → Conds
  next_round s cv y ys = record (set_queue s cv ys) {
    kernel = record s.kernel {
      lists = record s.kernel.lists { runnable = y ∷ s.kernel.lists.runnable };
    };
  }

  broadcast-step :
      (fuel : ℕ) (s : Conds) (cv y : ℕ) (ys : List ℕ)
      → take_last (s.cond cv).wait_ktcbs ≡ some (y, ys)
      → places tid s.kernel.lists y ≡ 0
      → y ≢ sched_ktcb
      → broadcast_from sched_ktcb tid (suc fuel) s cv
        ≡ broadcast_from sched_ktcb tid fuel (next_round s cv y ys) cv
  unfolding broadcast_from set_queue set_cond
  broadcast-step fuel s cv y ys e nowhere other =
      rw (broadcast_from, e, runnable_put-head sched_ktcb tid s.kernel.lists y nowhere other) refl

  unchanged :
      (s : Conds) (cv j : ℕ)
      → (s.cond cv).wait_ktcbs ≡ []
      → s.cond j ≡ (if j == cv then record (s.cond cv) { wait_ktcbs = [] } else s.cond j)
  unchanged s cv j e = elim (Bool-cases (j == cv)) [
    | inl f ↦ rw (f, eq_of_== j cv f, sym e) refl
    | inr f ↦ rw f refl
  ]

  -- The broadcast's loop over a queue of waiting threads, each of them in no list of the scheduler.
  broadcast-all :
      (fuel : ℕ) (s : Conds) (cv : ℕ) (ws : List ℕ)
      → length ws < fuel
      → (s.cond cv).wait_ktcbs ≡ ws
      → count sched_ktcb ws ≡ 0
      → ((j : ℕ) → count j ws ≤ 1)
      → ((j : ℕ) → 0 < count j ws → places tid s.kernel.lists j ≡ 0)
      → let r = broadcast_from sched_ktcb tid fuel s cv in
        (r.kernel ≡ record s.kernel {
          lists = record s.kernel.lists { runnable = ws ++ s.kernel.lists.runnable };
        })
        × ((j : ℕ)
            → r.cond j ≡ (if j == cv then record (s.cond cv) { wait_ktcbs = [] } else s.cond j))
  unfolding broadcast_from set_queue set_cond count
  broadcast-all zero s cv ws small e no_sched once free = absurd (omega arith)
  broadcast-all (suc fuel) s cv ws small e no_sched once free = elim (last-cases ws) [
    | inl f ↦
        let none_there : take_last (s.cond cv).wait_ktcbs ≡ none =
          ap take_last (e ∙ f) ∙ unfold take_last in refl in
        rw (broadcast-stop fuel s cv none_there, f) (refl, λ j. unchanged s cv j (e ∙ f))
    | inr (ys, y, f, n) ↦
        let last : take_last (s.cond cv).wait_ktcbs ≡ some (y, ys) =
          ap take_last (e ∙ f) ∙ take_last-append ys y in
        let split = λ (j : ℕ). count-take_last j y (ys ++ y ∷ []) ys (take_last-append ys y) in
        let all = λ (j : ℕ). ap (count j) f in
        let nowhere : places tid s.kernel.lists y ≡ 0 = free y (ground (arith, split y, all y)) in
        let other : y ≢ sched_ktcb = λ z. ground (arith, split sched_ktcb, all sched_ktcb) in
        let (kernel, conds) =
          broadcast-all fuel (next_round s cv y ys) cv ys (omega arith)
            (rw (==_of_eq cv cv refl) refl) (ground (arith, split sched_ktcb, all sched_ktcb))
            (λ j. ground (arith, split j, all j, once j))
            (λ j here. unfold places in ground (arith, split j, all j, once j, free j)) in
        rw (broadcast-step fuel s cv y ys last nowhere other) (
          kernel
              ∙ ap
                  (λ (q : List ℕ). record s.kernel {
                    lists = record s.kernel.lists { runnable = q };
                  })
                  (sym (append_assoc ys (y ∷ []) s.kernel.lists.runnable)
                    ∙ ap (λ (q : List ℕ). q ++ s.kernel.lists.runnable) (sym f)),
          λ j. conds j ∙ elim (Bool-cases (j == cv)) [
            | inl g ↦ rw (g, ==_of_eq cv cv refl) refl
            | inr g ↦ rw g refl
          ],
        )
  ]

  -- Where threads wait in a condition's queue, each once, none of them the scheduler's own or in one
  -- of its lists: cond_broadcast empties the queue and puts all of them at the head of the runnable
  -- threads in the order of the queue, so that the one which has waited longest runs first. Nothing
  -- else changes.
  pub cond_broadcast_lem :
      (s : Conds) (cv : ℕ)
      → count sched_ktcb (s.cond cv).wait_ktcbs ≡ 0
      → ((j : ℕ) → count j (s.cond cv).wait_ktcbs ≤ 1)
      → ((j : ℕ) → 0 < count j (s.cond cv).wait_ktcbs → places tid s.kernel.lists j ≡ 0)
      → let r = cond_broadcast sched_ktcb tid s cv in
        (r.kernel ≡ record s.kernel {
          lists = record s.kernel.lists {
            runnable = (s.cond cv).wait_ktcbs ++ s.kernel.lists.runnable;
          };
        })
        × ((j : ℕ)
            → r.cond j ≡ (if j == cv then record (s.cond cv) { wait_ktcbs = [] } else s.cond j))
  unfolding cond_broadcast
  cond_broadcast_lem s cv no_sched once free =
      broadcast-all _ s cv _ (omega arith) refl no_sched once free

  wait_in-other :
      (s : Conds) (cv : ℕ)
      → s.kernel.running ≢ sched_ktcb
      → wait_in sched_ktcb tid s cv ≡ set_queue s cv (s.kernel.running ∷ (s.cond cv).wait_ktcbs)
  unfolding wait_in
  wait_in-other s cv other = rw (==_of_ne _ sched_ktcb other) refl

  -- When a thread other than the scheduler's own calls cond_wait with an initialised mutex, it stands
  -- at the head of the condition's queue. If others wait for the mutex, the one that has waited
  -- longest holds it, runs and is no longer marked as blocked; else the mutex is free and what
  -- sched_next answers, if it is not NULL, runs. Nothing else changes.
  pub cond_wait_lem :
      (now : ℕ) (s : Conds) (cv : ℕ)
      → cv ≢ 0
      → s.kernel.mutex.init ≡ true
      → s.kernel.running ≢ sched_ktcb
      → ((ls : List ℕ) (l : ℕ)
          → l ≢ 0
          → s.kernel.mutex.queue ≡ ls ++ l ∷ []
          → cond_wait sched_ktcb tid now s cv
            ≡ record (set_queue s cv (s.kernel.running ∷ (s.cond cv).wait_ktcbs)) {
              kernel = record s.kernel {
                running = l;
                blocked = set_at s.kernel.blocked l false;
                mutex = record s.kernel.mutex { queue = ls; holder = l };
              };
            })
        × ((n : ℕ) (left : Sched)
            → n ≢ 0
            → s.kernel.mutex.queue ≡ []
            → sched_next sched_ktcb tid now s.kernel.lists ≡ (n, left)
            → cond_wait sched_ktcb tid now s cv
              ≡ record (set_queue s cv (s.kernel.running ∷ (s.cond cv).wait_ktcbs)) {
                kernel = record s.kernel {
                  running = n;
                  lists = left;
                  mutex = record s.kernel.mutex { available = true; holder = 0 };
                };
              })
  unfolding cond_wait set_queue set_cond
  cond_wait_lem now s cv ne init other = (
    λ ls l l_ne e.
        rw (==_of_ne cv 0 ne, wait_in-other s cv other)
          (ap
            (λ (k : Kernel). record (set_queue s cv (s.kernel.running ∷ (s.cond cv).wait_ktcbs)) {
              kernel = k;
            })
            (cond_unlock-somebody sched_ktcb tid now s.kernel ls l init l_ne e)),
    λ n left n_ne e next.
        rw (==_of_ne cv 0 ne, wait_in-other s cv other)
          (ap
            (λ (k : Kernel). record (set_queue s cv (s.kernel.running ∷ (s.cond cv).wait_ktcbs)) {
              kernel = k;
            })
            (cond_unlock-nobody sched_ktcb tid now s.kernel n left init n_ne e next)),
  )
