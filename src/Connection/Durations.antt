-- ===== src/Connection/Durations.antt =====
-- The requests of the streaming and the unary calls of src/lib/GrpcClient.ts: the durations in them
-- become numbers of milliseconds. The tests and the conversion of the package typed-duration are
-- parameters.
use text.Mathlib.Text.{◌==◌}
use zeebe_client_node_js.Base.{
  ℕ, ◌≡◌, refl, Bool, false, Option, none, some, String, if◌then◌else◌, Bool-cases, inl, inr, ap,
}
use zeebe_client_node_js.Signature.Values.{
  Value, undefined, null, boolean, number, string, function, array, object, Fields, end, field,
  lookup,
}

module _ (is_typed_duration : Value → Bool) (milliseconds : Value → Value) where
  abbrev pub in_milliseconds : Value → Value
  in_milliseconds v = if is_typed_duration v then milliseconds v else v

  abbrev pub replace_fields : Fields → Fields
  replace_fields end = end
  replace_fields (field k v fs) = field k (in_milliseconds v) (replace_fields fs)

  -- `none`: `Object.entries(null)` throws. An array becomes an object with its indices as keys.
  unfoldable pub replace_time_values_with_millisecond_number : Value → Option Value
  replace_time_values_with_millisecond_number null = none
  replace_time_values_with_millisecond_number (array fs) = some (object 0 (replace_fields fs))
  replace_time_values_with_millisecond_number (object p fs) = some (object 0 (replace_fields fs))
  replace_time_values_with_millisecond_number undefined = some undefined
  replace_time_values_with_millisecond_number (boolean b) = some (boolean b)
  replace_time_values_with_millisecond_number (number n) = some (number n)
  replace_time_values_with_millisecond_number (string s) = some (string s)
  replace_time_values_with_millisecond_number (function f) = some (function f)

  lookup-replace_fields :
      (k : String) (fs : Fields)
      → is_typed_duration undefined ≡ false
      → lookup k (replace_fields fs) ≡ in_milliseconds (lookup k fs)
  lookup-replace_fields k end h = rw h refl
  lookup-replace_fields k (field j v fs) h = elim (Bool-cases (j == k)) [
    | inl e ↦ rw e refl
    | inr e ↦ rw e (lookup-replace_fields k fs h)
  ]

  in_milliseconds_idem :
      (v : Value)
      → ((w : Value) → is_typed_duration (milliseconds w) ≡ false)
      → in_milliseconds (in_milliseconds v) ≡ in_milliseconds v
  in_milliseconds_idem v h = elim (Bool-cases (is_typed_duration v)) [
    | inl e ↦ rw (e, h v) refl
    | inr e ↦ rw (e, e) refl
  ]

  replace_fields_idem :
      (fs : Fields)
      → ((w : Value) → is_typed_duration (milliseconds w) ≡ false)
      → replace_fields (replace_fields fs) ≡ replace_fields fs
  replace_fields_idem end h = refl
  replace_fields_idem (field k v fs) h =
      rw (in_milliseconds_idem v h, replace_fields_idem fs h) refl

  -- An object is sent with the same keys, every duration of its own in milliseconds and every other
  -- value as it is, and a request that was converted before is not changed again.
  pub replace_time_values_lem :
      (p : ℕ) (fs : Fields) (k : String)
      → is_typed_duration undefined ≡ false
      → ((w : Value) → is_typed_duration (milliseconds w) ≡ false)
      → (sent : Fields) × (replace_time_values_with_millisecond_number (object p fs)
          ≡ some (object 0 sent))
        × (lookup k sent ≡ in_milliseconds (lookup k fs))
        × (replace_time_values_with_millisecond_number (object 0 sent) ≡ some (object 0 sent))
  unfolding replace_time_values_with_millisecond_number
  replace_time_values_lem p fs k h i = (
    replace_fields fs,
    refl,
    lookup-replace_fields k fs h,
    ap (λ gs. some (object 0 gs)) (replace_fields_idem fs i),
  )
