-- ===== src/Splay/Keys.antt =====
-- The compare function of a splay tree: what st_insert, st_lookup and st_delete read of its answer,
-- and the two that the thread library passes, compare_tid of user/libthread/thr_internals.c and
-- thr_id_comp of user/libthread/rwlock.c.
use Prim.Native.Nat.{Ordering}
use Prim.Native.Nat.Ordering.{lt, eq, gt}
use unix_kernel.Base.{
  ◌≡◌, ◌⊎◌, inl, inr, refl, zero, suc, ℤ, pos, negsuc, minus_one, arith, if◌then◌else◌, eq_int,
  lt_int,
}

-- Is the answer negative, zero or positive?
abbrev pub sign : ℤ → Ordering
sign (pos zero) = eq
sign (pos (suc _)) = gt
sign (negsuc _) = lt

pub sign-cases : (x : ℤ) → (sign x ≡ lt) ⊎ (sign x ≡ eq) ⊎ (sign x ≡ gt)
sign-cases (pos zero) = inr (inl refl)
sign-cases (pos (suc _)) = inr (inr refl)
sign-cases (negsuc _) = inl refl

pub record IsLawful {ℓ} {Key : Type ℓ} (comp : Key → Key → ℤ) : Type ℓ where
  pub same : (a : Key) → sign (comp a a) ≡ eq
  pub eq_of_same : (a b : Key) → sign (comp a b) ≡ eq → a ≡ b
  pub lt_of_gt : (a b : Key) → sign (comp a b) ≡ gt → sign (comp b a) ≡ lt
  pub gt_of_lt : (a b : Key) → sign (comp a b) ≡ lt → sign (comp b a) ≡ gt
  pub lt_trans : (a b c : Key) → sign (comp a b) ≡ lt → sign (comp b c) ≡ lt → sign (comp a c) ≡ lt

pub record Compare {ℓ} (Key : Type ℓ) : Type ℓ where
  pub comp : Key → Key → ℤ
  pub lawful : IsLawful comp
  pub open lawful use *

-- `a` comes before `b`.
infix 50 ◌≺◌
abbrev pub ◌≺◌ {ℓ} : {Key : Type ℓ} ⦃o : Compare Key⦄ → Key → Key → Type 0
◌≺◌ ⦃o⦄ a b = sign (o.comp a b) ≡ lt

unfoldable pub compare_tid : ℤ → ℤ → ℤ
compare_tid key_1 key_2 =
    if eq_int key_1 key_2 then pos 0 else if lt_int key_2 key_1 then pos 1 else minus_one

unfoldable pub thr_id_comp : ℤ → ℤ → ℤ
thr_id_comp t1 t2 = if lt_int t2 t1 then pos 1 else if lt_int t1 t2 then minus_one else pos 0

-- compare_tid and thr_id_comp agree on every pair of ids.
pub compare_tid-thr_id_comp : (a b : ℤ) → compare_tid a b ≡ thr_id_comp a b
unfolding compare_tid thr_id_comp
compare_tid-thr_id_comp (pos a) (pos b) = ground arith
compare_tid-thr_id_comp (pos a) (negsuc b) = refl
compare_tid-thr_id_comp (negsuc a) (pos b) = refl
compare_tid-thr_id_comp (negsuc a) (negsuc b) = ground arith

-- compare_tid orders the ids.
pub compare_tid-IsLawful : IsLawful compare_tid
unfolding compare_tid
compare_tid-IsLawful = ground arith

instance unfoldable pub tid_order : Compare ℤ
tid_order = record { comp = compare_tid; lawful = compare_tid-IsLawful }
