-- ===== src/CircBuf/Refine.antt =====
-- A circular buffer of circ_buf.c beside the bounded queue of the characters that it holds.
use unix_kernel.Base.{
  ℕ, suc, ◌+◌, ◌-◌, ◌%◌, ◌≤◌, ◌<◌, ◌≡◌, refl, sym, ap, ap₂, subst, ◌∙◌, inl, inr, true, false,
  Option, some, List, [], ◌∷◌, ◌++◌, arith, pos, ltb, if◌then◌else◌, length, get_or, set,
  length-set, get_or-set_self, Bool-cases,
}
use unix_kernel.CircBuf.{CircBuf, empty, store, advance, retreat, cb_put, cb_get, cb_delete_end}
use unix_kernel.CircBuf.Slots.{slots, length-slots, wrap_cases, slots-suc, slots-set, next_lt}
use unix_kernel.CircBuf.Fifo
use unix_kernel.CircBuf.Fifo.{
  Op, put, get, delete_end, Reply, status, char, unspecified, drop_newest,
}

pub record IsValid (cb : CircBuf) : Type 0 where
  pub storage : length cb.buf ≡ cb.len
  pub start_in : cb.start < cb.len
  pub end_in : cb.end < cb.len
  pub meets : cb.full ≡ true → cb.start ≡ cb.end

-- How many characters the buffer holds.
unfoldable pub count : CircBuf → ℕ
count cb =
    if cb.full
    then cb.len
    else if ltb cb.end cb.start
    then cb.end + cb.len - cb.start
    else cb.end - cb.start

unfoldable pub contents : CircBuf → List ℕ
unfolding count
contents cb = slots cb.buf cb.len cb.start (count cb)

pub length-contents : (cb : CircBuf) → length (contents cb) ≡ count cb
unfolding contents
length-contents cb = length-slots cb.buf cb.len cb.start (count cb)

-- The next write goes `count` places after the start.
pub end_place : {cb : CircBuf} → IsValid cb → cb.end ≡ (cb.start + count cb) % cb.len
unfolding count
end_place {cb} v = ground (arith, wrap_cases cb.start (count cb) cb.len, v.meets)

module _ {cb : CircBuf} (v : IsValid cb) where
  count-lt-len : cb.full ≡ false → count cb < cb.len
  unfolding count
  count-lt-len f = ground arith

  count-full : cb.full ≡ true → count cb ≡ cb.len
  unfolding count
  count-full f = ground arith

  pub count-le-len : count cb ≤ cb.len
  unfolding count
  count-le-len = ground arith

  store-IsValid : (c : ℕ) → cb.full ≡ false → IsValid (store cb c)
  unfolding store contents
  store-IsValid c f = ground (arith, length-set cb.buf cb.end c, next_lt cb.end cb.len)

  count-store : (c : ℕ) → cb.full ≡ false → count (store cb c) ≡ suc (count cb)
  unfolding store contents
  count-store c f = ground (arith, wrap_cases cb.end 1 cb.len)

  contents-store : (c : ℕ) → cb.full ≡ false → contents (store cb c) ≡ contents cb ++ c ∷ []
  unfolding store contents
  contents-store c f =
      ap (slots (set cb.buf cb.end c) cb.len cb.start) (count-store c f)
      ∙ slots-suc (set cb.buf cb.end c) cb.len cb.start (count cb) v.start_in (count-lt-len f)
      ∙ ap₂ (λ q x. q ++ x ∷ [])
          (slots-set cb.buf cb.len c cb.end cb.start (count cb) v.start_in (count-lt-len f)
            (end_place v))
          (ap (λ k. get_or (set cb.buf cb.end c) k 0) (sym (end_place v))
            ∙ get_or-set_self cb.buf cb.end c 0 (omega arith))

  advance-IsValid : empty cb ≡ false → IsValid (advance cb)
  unfolding advance empty contents
  advance-IsValid f = ground (arith, next_lt cb.start cb.len)

  pub count-advance : empty cb ≡ false → count cb ≡ suc (count (advance cb))
  unfolding advance empty contents
  count-advance f = ground (arith, wrap_cases cb.start 1 cb.len, v.meets)

  retreat-IsValid : empty cb ≡ false → IsValid (retreat cb)
  unfolding retreat empty contents
  retreat-IsValid f = ground (arith, wrap_cases cb.end (cb.len - 1) cb.len)

  count-retreat : empty cb ≡ false → count cb ≡ suc (count (retreat cb))
  unfolding retreat empty contents
  count-retreat f = ground (arith, wrap_cases cb.end (cb.len - 1) cb.len, v.meets)

  pub contents-empty : empty cb ≡ true → contents cb ≡ []
  unfolding empty contents
  contents-empty f = ap (slots cb.buf cb.len cb.start) (let e : count cb ≡ 0 = ground arith in e)

  contents-advance :
      empty cb ≡ false → contents cb ≡ get_or cb.buf cb.start 0 ∷ contents (advance cb)
  unfolding advance contents
  contents-advance f = ap (slots cb.buf cb.len cb.start) (count-advance f)

  contents-retreat :
      empty cb ≡ false
      → contents cb
        ≡ contents (retreat cb) ++ get_or cb.buf ((cb.start + count (retreat cb)) % cb.len) 0 ∷ []
  unfolding retreat contents
  contents-retreat f =
      ap (slots cb.buf cb.len cb.start) (count-retreat f)
      ∙ slots-suc cb.buf cb.len cb.start (count (retreat cb)) v.start_in
          (omega (arith, count-retreat f, count-le-len))

drop_newest-snoc : (x : ℕ) (q : List ℕ) → drop_newest (q ++ x ∷ []) ≡ q
unfolding drop_newest
drop_newest-snoc x [] = refl
drop_newest-snoc x (y ∷ []) = refl
drop_newest-snoc x (y ∷ z ∷ q) = ap (◌∷◌ y) (drop_newest-snoc x (z ∷ q))

char_of : Reply → ℕ
char_of (status r) = 0
char_of (char c) = c
char_of unspecified = 0

-- One call on a buffer that is there, with what the caller sees.
unfoldable pub step : Op → Option CircBuf → Reply × Option CircBuf
step (put c) cb = let (r, cb') = cb_put cb c in (status r, cb')
step get cb = let (r, cb') = cb_get cb in (char r, cb')
step delete_end cb = let (r, cb') = cb_delete_end cb in (unspecified, cb')

unfoldable pub run : List Op → Option CircBuf → List Reply
run [] cb = []
run (op ∷ ops) cb = let (r, cb') = step op cb in r ∷ run ops cb'

-- What the pointer leads to is a valid buffer of capacity `cap` that holds `q`.
pub data Holds (cap : ℕ) (q : List ℕ) : Option CircBuf → Type 0 where
  holds : {cb : CircBuf} → IsValid cb → cb.len ≡ cap → contents cb ≡ q → Holds cap q (some cb)

abbrev Refines : ℕ → Reply × List ℕ → Reply × Option CircBuf → Type 0
Refines cap (r, q) (s, p) = (s ≡ r) × Holds cap q p

module _ {cb : CircBuf} (v : IsValid cb) where
  put-Refines :
      (c : ℕ) → Refines cb.len (Fifo.step cb.len (put c) (contents cb)) (step (put c) (some cb))
  unfolding step cb_put Fifo.step
  put-Refines c = elim (Bool-cases cb.full) [
    | inl f ↦
        let e : ltb (length (contents cb)) cb.len ≡ false =
          ground (arith, length-contents cb, count-full v f) in
        simp (e, f) (refl, holds v refl refl)
    | inr f ↦
        let e : ltb (length (contents cb)) cb.len ≡ true =
          ground (arith, length-contents cb, count-lt-len v f) in
        simp (e, f)
          (refl, holds (store-IsValid v c f) (unfold store in refl) (contents-store v c f))
  ]

  get-Refines : Refines cb.len (Fifo.step cb.len get (contents cb)) (step get (some cb))
  unfolding step cb_get Fifo.step
  get-Refines = elim (Bool-cases (empty cb)) [
    | inl f ↦ rw (f, contents-empty v f) (refl, holds v refl (contents-empty v f))
    | inr f ↦
        rw (f, contents-advance v f)
          (refl, holds (advance-IsValid v f) (unfold advance in refl) refl)
  ]

  delete_end-Refines :
      Refines cb.len (Fifo.step cb.len delete_end (contents cb)) (step delete_end (some cb))
  unfolding step cb_delete_end Fifo.step drop_newest
  delete_end-Refines = elim (Bool-cases (empty cb)) [
    | inl f ↦ rw (f, contents-empty v f) (refl, holds v refl (contents-empty v f))
    | inr f ↦
        rw (f, contents-retreat v f, drop_newest-snoc)
          (refl, holds (retreat-IsValid v f) (unfold retreat in refl) refl)
  ]

step-Refines :
    (op : Op) {cb : CircBuf}
    → IsValid cb
    → Refines cb.len (Fifo.step cb.len op (contents cb)) (step op (some cb))
step-Refines (put c) v = put-Refines v c
step-Refines get v = get-Refines v
step-Refines delete_end v = delete_end-Refines v

run-cons :
    (op : Op) (ops : List Op) (p : Option CircBuf)
    → run (op ∷ ops) p ≡ (step op p).0 ∷ run ops (step op p).1
unfolding run
run-cons op ops p = refl

run-Holds :
    (ops : List Op) {cap : ℕ} {q : List ℕ} {p : Option CircBuf}
    → Holds cap q p
    → run ops p ≡ Fifo.run cap ops q
run-Holds [] h = unfold run Fifo.run in refl
run-Holds (op ∷ ops) (holds v same_len same_q) =
    let (e, h) = step-Refines op v in
    rw (← same_len, ← same_q, run-cons, Fifo.run-cons) (ap₂ ◌∷◌ e (run-Holds ops h))

-- A call on a buffer by what it holds.
pub step-Holds :
    (op : Op) {cap : ℕ} {q : List ℕ} {p : Option CircBuf}
    → Holds cap q p
    → ((step op p).0 ≡ (Fifo.step cap op q).0) × Holds cap (Fifo.step cap op q).1 (step op p).1
step-Holds op (holds v same_len same_q) = rw (← same_len, ← same_q) (step-Refines op v)

pub get-Holds :
    {cap : ℕ} {q : List ℕ} {p : Option CircBuf}
    → Holds cap q p
    → (q ≡ [] → ((cb_get p).0 ≡ 255) × Holds cap [] (cb_get p).1)
      × ((x : ℕ) (rest : List ℕ) → q ≡ x ∷ rest → ((cb_get p).0 ≡ x) × Holds cap rest (cb_get p).1)
unfolding step Fifo.step char_of
get-Holds {cap} {q} {p} h = (
  λ e.
      let (said, left) = step-Holds get (subst (λ (r : List ℕ). Holds cap r p) e h) in
      (ap char_of said, left),
  λ x rest e.
      let (said, left) = step-Holds get (subst (λ (r : List ℕ). Holds cap r p) e h) in
      (ap char_of said, left),
)

pub put-Holds :
    (c : ℕ) {cap : ℕ} {q : List ℕ} {p : Option CircBuf}
    → Holds cap q p
    → length q < cap
    → Holds cap (q ++ c ∷ []) (cb_put p c).1
unfolding step Fifo.step
put-Holds c {cap} {q} {p} h room =
    let fits : ltb (length q) cap ≡ true = ground arith in
    let kept : Fifo.step cap (put c) q ≡ (status (pos 0), q ++ c ∷ []) =
      rw (Fifo.step, fits) refl in
    subst (λ (r : Reply × List ℕ). Holds cap r.1 (cb_put p c).1) kept (step-Holds (put c) h).1

-- On a valid buffer no sequence of cb_put, cb_get and cb_delete_end calls can be told apart from
-- the queue of at most `cb.len` characters that starts with the buffer's contents: every status
-- and every character that cb_put and cb_get return is the queue's.
pub run_refines :
    (ops : List Op) {cb : CircBuf}
    → IsValid cb
    → run ops (some cb) ≡ Fifo.run cb.len ops (contents cb)
run_refines ops v = run-Holds ops (holds v refl refl)

-- The bug: on a full valid buffer cb_delete_end returns the oldest character, while the one that
-- it removes is the newest.
pub cb_delete_end-full :
    {cb : CircBuf} (x : ℕ) (q : List ℕ)
    → IsValid cb
    → cb.full ≡ true
    → contents cb ≡ x ∷ q
    → (cb_delete_end (some cb)).0 ≡ x
unfolding cb_delete_end empty
cb_delete_end-full {cb} x q v f e =
    ground (arith, contents-advance v (unfold empty in ground arith), v.meets)
