-- ===== src/InMemory/Examples/Data.antt =====
-- Data for the runs of the in-memory provider (providers/inmemory).
use kubling_providers.Base.{
  ℕ, ◌+◌, ◌-◌, ◌*◌, refl, arith, pos, [], ◌∷◌, Option, none, some, Bytes, codes, bytes_eq,
  bytes_beq, lookup, ltb, if◌then◌else◌,
}
use kubling_providers.Messages.{EntityReference}
use kubling_providers.Server.Features.{FeatureNames}
use kubling_providers.InMemory.Values.{Value, string_value}
use kubling_providers.InMemory.Numbers.{Rat, of_int}
use kubling_providers.InMemory.Evaluate.Aggregates.{Library}
use kubling_providers.InMemory.Sample.{new_store}
use kubling_providers.InMemory.Mutation.Stored.{IsStored}

digits : ℕ → Bytes → Option ℕ
digits n [] = some n
digits n (c ∷ cs) =
    let rest = digits (n * 10 + (c - 48)) cs in
    if ltb c 48 then none else if ltb 57 c then none else rest

-- a library that reads natural numbers and encodes strings
unfoldable pub parse_natural : Bytes → Option Rat
unfolding digits
parse_natural s = elim (digits 0 s) [ none ↦ none | some n ↦ some (of_int (pos n)) ]

unfoldable pub marshal_string : Value → Option Bytes
marshal_string (string_value s) = some (10 ∷ s)
marshal_string _ = none

abbrev pub library : Library
library = record {
  parse_number = parse_natural;
  marshal = marshal_string;
  to_float = λ r. none;
  to_double = λ r. none;
}

abbrev pub features : FeatureNames
features = record {
  array_values = codes "array_values";
  spatial_values = codes "spatial_values";
  lob_read = codes "lob_read";
}

abbrev pub task_entity : Option EntityReference
task_entity = some (record { namespace = []; entity_name = codes "task" })

pub new_store-IsStored : IsStored new_store.tasks
unfolding new_store lookup bytes_beq
new_store-IsStored = record {
  is_map = (refl, (refl, (refl, tt)));
  keyed = ((refl, ground arith), ((refl, ground arith), ((refl, ground arith), tt)));
}
