-- ===== src/Signature/Clean.antt =====
-- `cleanEmpty` of src/lib/ZBWorkerSignature.ts.
use text.Mathlib.Text.{◌==◌}
use text.Mathlib.TextEquality.{eq_iff}
use zeebe_client_node_js.Base.{
  ◌≡◌, refl, false, String, if◌then◌else◌, arith, Bool-cases, inl, inr, subst,
}
use zeebe_client_node_js.Signature.Values.{
  Value, undefined, null, boolean, number, string, function, array, object, Fields, end, field,
  is_nullish, lookup, has,
}

-- The object that it gives is a new plain one, whatever prototype the old one had.
unfoldable mutual
  pub clean_empty : Fields → Fields
  clean_empty end = end
  clean_empty (field k v fs) =
      let w = clean_value v in
      let rest = clean_empty fs in if is_nullish w then rest else field k w rest

  pub clean_value : Value → Value
  clean_value (object p fs) = object 0 (clean_empty fs)
  clean_value (array fs) = array fs
  clean_value undefined = undefined
  clean_value null = null
  clean_value (boolean b) = boolean b
  clean_value (number n) = number n
  clean_value (string s) = string s
  clean_value (function f) = function f

-- No key has undefined or null, and no object below has, outside arrays; every object is plain.
abbrev mutual
  pub IsClean : Fields → Type 0
  IsClean end = Unit
  IsClean (field k v fs) = (is_nullish v ≡ false) × IsCleanValue v × IsClean fs

  pub IsCleanValue : Value → Type 0
  IsCleanValue (object p fs) = (p ≡ 0) × IsClean fs
  IsCleanValue _ = Unit

mutual
  unfolding clean_empty

  pub clean_empty-IsClean : (fs : Fields) → IsClean (clean_empty fs)
  clean_empty-IsClean end = tt
  clean_empty-IsClean (field k v fs) = elim (Bool-cases (is_nullish (clean_value v))) [
    | inl e ↦ rw e (clean_empty-IsClean fs)
    | inr e ↦ rw e (e, clean_value-IsCleanValue v, clean_empty-IsClean fs)
  ]

  clean_value-IsCleanValue : (v : Value) → IsCleanValue (clean_value v)
  clean_value-IsCleanValue (object p fs) = (refl, clean_empty-IsClean fs)
  clean_value-IsCleanValue (array fs) = tt
  clean_value-IsCleanValue undefined = tt
  clean_value-IsCleanValue null = tt
  clean_value-IsCleanValue (boolean b) = tt
  clean_value-IsCleanValue (number n) = tt
  clean_value-IsCleanValue (string s) = tt
  clean_value-IsCleanValue (function f) = tt

-- What is clean stays as it is.
mutual
  unfolding clean_empty

  clean_empty_same : (fs : Fields) → IsClean fs → clean_empty fs ≡ fs
  clean_empty_same end h = refl
  clean_empty_same (field k v fs) (h, i, j) =
      rw (clean_value_same v i, h, clean_empty_same fs j) refl

  clean_value_same : (v : Value) → IsCleanValue v → clean_value v ≡ v
  clean_value_same (object p fs) (h, i) = rw (clean_empty_same fs i, h) refl
  clean_value_same (array fs) h = refl
  clean_value_same undefined h = refl
  clean_value_same null h = refl
  clean_value_same (boolean b) h = refl
  clean_value_same (number n) h = refl
  clean_value_same (string s) h = refl
  clean_value_same (function f) h = refl

-- Each key once.
abbrev pub IsObject : Fields → Type 0
IsObject end = Unit
IsObject (field k v fs) = (has k fs ≡ false) × IsObject fs

-- `null` and undefined are both read as undefined afterwards.
abbrev pub kept : Value → Value
kept v = if is_nullish v then undefined else v

lookup_missing : (k : String) (fs : Fields) → has k fs ≡ false → lookup k fs ≡ undefined
lookup_missing k end h = refl
lookup_missing k (field j v fs) h = ground (arith, lookup_missing k fs)

pub lookup-clean_empty :
    (k : String) (fs : Fields)
    → IsObject fs
    → lookup k (clean_empty fs) ≡ kept (clean_value (lookup k fs))
unfolding clean_empty
lookup-clean_empty k end h = refl
lookup-clean_empty k (field j v fs) (h, i) = elim (Bool-cases (is_nullish (clean_value v))) [
  | inl e ↦ elim (Bool-cases (j == k)) [
    | inl f ↦
        rw (e, lookup-clean_empty k fs i, f, e)
          (rw (lookup_missing k fs (subst (λ z. has z fs ≡ false) ((eq_iff j k).0 f) h)) refl)
    | inr f ↦ rw (e, lookup-clean_empty k fs i, f) refl
  ]
  | inr e ↦ elim (Bool-cases (j == k)) [
    | inl f ↦ rw (e, f, e) refl
    | inr f ↦ rw (e, f) (lookup-clean_empty k fs i)
  ]
]

-- cleanEmpty leaves no undefined or null, in no object at any depth outside arrays, and every object
-- that it leaves is plain; each key is read as before, but for the cleaning of its value and for null,
-- which is missing; and cleaning again changes nothing. The object has each key once.
pub clean_empty_lem :
    (fs : Fields)
    → IsObject fs
    → IsClean (clean_empty fs)
      × ((k : String) → lookup k (clean_empty fs) ≡ kept (clean_value (lookup k fs)))
      × (clean_empty (clean_empty fs) ≡ clean_empty fs)
clean_empty_lem fs h = (
  clean_empty-IsClean fs,
  λ k. lookup-clean_empty k fs h,
  clean_empty_same (clean_empty fs) (clean_empty-IsClean fs),
)
