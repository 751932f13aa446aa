-- ===== src/Signature/Fields.antt =====
-- Which fields an object of src/lib/ZBWorkerSignature.ts has after it was cleaned, changed or spread.
use text.Mathlib.Text.{◌==◌}
use text.Mathlib.TextEquality.{eq_iff}
use zeebe_client_node_js.Base.{
  ◌≡◌, refl, false, not, ◌||◌, String, if◌then◌else◌, arith, Bool-cases, inl, inr, subst,
}
use zeebe_client_node_js.Signature.Values.{
  Value, Fields, end, field, is_nullish, lookup, set, spread, has, lookup-set,
}
use zeebe_client_node_js.Signature.Clean.{clean_empty, clean_value, IsClean, IsObject}

pub lookup-spread :
    (k : String) (fs gs : Fields)
    → IsObject gs
    → lookup k (spread fs gs) ≡ (if has k gs then lookup k gs else lookup k fs)
lookup-spread k fs end h = refl
lookup-spread k fs (field j v gs) (h, i) = elim (Bool-cases (j == k)) [
  | inl e ↦
      rw
        (
          lookup-spread k (set j v fs) gs i,
          e,
          subst (λ z. has z gs ≡ false) ((eq_iff j k).0 e) h,
          lookup-set k j v fs,
          e,
        )
        refl
  | inr e ↦ rw (lookup-spread k (set j v fs) gs i, e, lookup-set k j v fs, e) refl
]

pub has-clean_empty : (k : String) (fs : Fields) → has k fs ≡ false → has k (clean_empty fs) ≡ false
unfolding clean_empty
has-clean_empty k end h = refl
has-clean_empty k (field j v fs) h = ground (arith, has-clean_empty k fs)

pub clean_empty-IsObject : (fs : Fields) → IsObject fs → IsObject (clean_empty fs)
unfolding clean_empty
clean_empty-IsObject end h = tt
clean_empty-IsObject (field j v fs) (h, i) = elim (Bool-cases (is_nullish (clean_value v))) [
  | inl e ↦ rw e (clean_empty-IsObject fs i)
  | inr e ↦ rw e (has-clean_empty j fs h, clean_empty-IsObject fs i)
]

pub has_clean : (k : String) (fs : Fields) → IsClean fs → has k fs ≡ not (is_nullish (lookup k fs))
has_clean k end h = refl
has_clean k (field j v fs) (h, i, p) = ground (arith, has_clean k fs)

pub has-set : (j k : String) (v : Value) (fs : Fields) → has j (set k v fs) ≡ (k == j) || has j fs
has-set j k v end = ground arith
has-set j k v (field i w fs) = ground (arith, eq_iff i k, eq_iff i j, eq_iff k j, has-set j k v fs)

pub set-IsObject : (k : String) (v : Value) (fs : Fields) → IsObject fs → IsObject (set k v fs)
set-IsObject k v end h = (refl, tt)
set-IsObject k v (field j w fs) (h, i) = elim (Bool-cases (j == k)) [
  | inl e ↦ rw e (h, i)
  | inr e ↦ rw e (ground (arith, has-set j k v fs, eq_iff j k, eq_iff k j), set-IsObject k v fs i)
]
