-- ===== src/InMemory/Mutation/Typed.antt =====
-- The values from which a field of a task is read (stringFromValue and the functions after it,
-- providers/inmemory/mutation.go).
use kubling_providers.Base.{◌≡◌, refl, ℤ, Bool, some, Bytes, Result, ok, err, arith}
use kubling_providers.InMemory.Values.{
  Value, string_value, boolean_value, integer_value, clob_value, float_value, timestamp_value,
}
use kubling_providers.InMemory.Model.{Task}
use kubling_providers.InMemory.Parse.{
  ParseFault, parsed, string_from_value, boolean_from_value, integer_from_value, clob_from_value,
  float_from_value, timestamp_from_value,
}

pub string_from_value-same :
    (v : Value) (s : Bytes) → string_from_value v ≡ ok s → v ≡ string_value s
unfolding string_from_value
string_from_value-same (string_value r) s h = let e : r ≡ s = ground arith in rw e refl
string_from_value-same v s h = absurd (ground arith)

pub boolean_from_value-same :
    (v : Value) (s : Bool) → boolean_from_value v ≡ ok s → v ≡ boolean_value s
unfolding boolean_from_value
boolean_from_value-same (boolean_value r) s h = let e : r ≡ s = ground arith in rw e refl
boolean_from_value-same v s h = absurd (ground arith)

pub integer_from_value-same :
    (v : Value) (s : ℤ) → integer_from_value v ≡ ok s → v ≡ integer_value s
unfolding integer_from_value
integer_from_value-same (integer_value r) s h = let e : r ≡ s = ground arith in rw e refl
integer_from_value-same v s h = absurd (ground arith)

pub clob_from_value-same :
    (v : Value) (s : Bytes) → clob_from_value v ≡ ok s → v ≡ clob_value (some s)
unfolding clob_from_value
clob_from_value-same (clob_value (some r)) s h = let e : r ≡ s = ground arith in rw e refl
clob_from_value-same v s h = absurd (ground arith)

pub float_from_value-same : (v : Value) (s : Bytes) → float_from_value v ≡ ok s → v ≡ float_value s
unfolding float_from_value
float_from_value-same (float_value r) s h = let e : r ≡ s = ground arith in rw e refl
float_from_value-same v s h = absurd (ground arith)

pub timestamp_from_value-same :
    (v : Value) (s : Bytes) → timestamp_from_value v ≡ ok s → v ≡ timestamp_value s
unfolding timestamp_from_value
timestamp_from_value-same (timestamp_value r) s h = let e : r ≡ s = ground arith in rw e refl
timestamp_from_value-same v s h = absurd (ground arith)

-- What a field is given is what its value was read as.
pub parsed_ok :
    {A : Type 0} (read : Result ParseFault A) (update : A → Task) (after : Task)
    → parsed read update ≡ ok after
    → (a : A) × (read ≡ ok a) × (update a ≡ after)
parsed_ok (ok a) update after h = (a, refl, cc)
parsed_ok (err e) update after h = absurd (cc)
