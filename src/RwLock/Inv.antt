-- ===== src/RwLock/Inv.antt =====
-- What holds of the reader-writer lock and its threads between any two steps.
use unix_kernel.Base.{
  ℕ, ◌+◌, ◌≤◌, ◌<◌, ◌≡◌, ◌≢◌, refl, ap, ◌∙◌, Bool-cases, inl, inr, List, arith, ◌==◌, eq_of_==, has,
  if◌then◌else◌,
}
use unix_kernel.Sched.Places.{count, one_if}
use unix_kernel.RwLock.{RwLock, Place, outside, System, at_place, move}
use unix_kernel.RwLock.Weights.{
  in_section, first_reader, counted, excludes, writes, total, total-set, total-bound,
}

-- The readers hold `rw_mutex`: some are counted, and the first of them does not wait for it.
abbrev pub readers_hold : (read_count first : ℕ) → ℕ
readers_hold c f = if c == 0 then 0 else if f == 0 then 1 else 0

-- How many threads are in the section, first readers, counted and excluding.
pub record Counts : Type 0 where
  pub section : ℕ
  pub first : ℕ
  pub counted : ℕ
  pub excluding : ℕ

abbrev pub counts : List ℕ → (ℕ → Place) → Counts
counts ts p = record {
  section = total in_section p ts;
  first = total first_reader p ts;
  counted = total counted p ts;
  excluding = total excludes p ts;
}

abbrev pub IsBalanced : RwLock → Counts → Type 0
IsBalanced l n =
    (n.section + n.first + one_if l.mutex ≡ 1)
    × (n.counted ≡ l.read_count)
    × (n.excluding + readers_hold l.read_count n.first + one_if l.rw_mutex ≡ 1)
    × (0 < n.first → l.read_count ≡ 1)

-- The threads are the `ts`, each of them once.
pub record IsSystem (ts : List ℕ) (s : System) : Type 0 where
  pub known : (t : ℕ) → s.place t ≢ outside → count t ts ≡ 1
  pub tree : (t : ℕ) → has t s.lock.rw_tids ≡ writes (s.place t)
  pub balanced : IsBalanced s.lock (counts ts s.place)

abbrev IsMove : (Place → ℕ) → (x y : Place) → (n n' : ℕ) → Type 0
IsMove w x y n n' = (n' + w x ≡ n + w y) × (w x ≤ n)

-- From `n` to `n'` when one thread goes from the place `x` to `y`.
pub record Goes (x y : Place) (n n' : Counts) : Type 0 where
  pub in_section : IsMove in_section x y n.section n'.section
  pub first : IsMove first_reader x y n.first n'.first
  pub counted : IsMove counted x y n.counted n'.counted
  pub excluding : IsMove excludes x y n.excluding n'.excluding

total-IsMove :
    (w : Place → ℕ) (p : ℕ → Place) (t : ℕ) (x y : Place) (ts : List ℕ)
    → count t ts ≡ 1
    → p t ≡ x
    → IsMove w x y (total w p ts) (total w (at_place p t y) ts)
total-IsMove w p t x y ts mine at = (
  let e = total-set w p t y ts mine in omega (arith, e, ap w at),
  let e = total-bound w p t ts mine in omega (arith, e, ap w at),
)

-- A step from `x` to `y` that leaves the lock `l'` keeps the balance.
abbrev pub Keeps : RwLock → RwLock → Place → Place → Type 0
Keeps l l' x y = (n n' : Counts) → IsBalanced l n → Goes x y n n' → IsBalanced l' n'

pub move-IsSystem :
    (ts : List ℕ) (s : System) (t : ℕ) (x : Place) (r : RwLock × Place)
    → IsSystem ts s
    → count t ts ≡ 1
    → s.place t ≡ x
    → Keeps s.lock r.0 x r.1
    → ((j : ℕ) → has j r.0.rw_tids ≡ (if j == t then writes r.1 else has j s.lock.rw_tids))
    → IsSystem ts (move s t r)
unfolding move at_place
move-IsSystem ts s t x r v mine at keeps tree = record {
  known = λ j ne. elim (Bool-cases (j == t)) [
    | inl e ↦ ap (λ (k : ℕ). count k ts) (eq_of_== j t e) ∙ mine
    | inr e ↦ v.known j (λ z. ne (rw (at_place, e) z))
  ];
  tree = λ j. elim (Bool-cases (j == t)) [
    | inl e ↦ rw (at_place, tree j, e) refl
    | inr e ↦ rw (at_place, tree j, e) (v.tree j)
  ];
  balanced = keeps (counts ts s.place) (counts ts (at_place s.place t r.1)) v.balanced (record {
    in_section = total-IsMove in_section s.place t x r.1 ts mine at;
    first = total-IsMove first_reader s.place t x r.1 ts mine at;
    counted = total-IsMove counted s.place t x r.1 ts mine at;
    excluding = total-IsMove excludes s.place t x r.1 ts mine at;
  });
}
