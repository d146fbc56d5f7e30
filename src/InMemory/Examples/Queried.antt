-- ===== src/InMemory/Examples/Queried.antt =====
-- Queries and the streams of their results (providers/inmemory/query.go, aggregate.go, result_stream.go).
use kubling_providers.Base.{
  ◌<◌, ◌≡◌, refl, arith, List, [], ◌∷◌, ◌++◌, none, some, Bytes, codes, Bool, true, false, length,
  All, lookup, bytes_eq, bytes_beq, bytes_beq_iff, ok, Bool-cases, inl, inr, subst,
}
use kubling_providers.Messages.{string}
use kubling_providers.Server.Structure.Types.{type_beq}
use kubling_providers.InMemory.Values.{Value, string_value}
use kubling_providers.InMemory.Numbers.{compare_bytes, compare_rat}
use kubling_providers.InMemory.Model.{Store, EntityRow, task_row, task_rows}
use kubling_providers.InMemory.Expressions.{Expression, field, nil_expression}
use kubling_providers.InMemory.Evaluate.Aggregates.{big_endian, aggregate_values_key}
use kubling_providers.InMemory.Evaluate.Encoded.{encodings, IsShort, aggregate_values_key-encodings}
use kubling_providers.InMemory.Ordering.{descending, unspecified_nulls}
use kubling_providers.InMemory.Lobs.{opened}
use kubling_providers.InMemory.Query.{
  QueryRequest, Session, ResultStream, new_result_stream, query_batch_size,
}
use kubling_providers.InMemory.Query.Reordered.{query_any_order}
use kubling_providers.InMemory.Mutation.Stored.{IsStored}
use kubling_providers.InMemory.Stream.Drained.{drain, joined, IsBatch, drain-tuples}
use kubling_providers.InMemory.Grouped.{Group, query, group_aggregate_rows}
use kubling_providers.InMemory.Validate.{aggregate_query}
use kubling_providers.InMemory.Grouped.Partition.{IsPartition, group_aggregate_rows-IsPartition}
use kubling_providers.InMemory.Sample.{new_store, task_1, task_2, task_3}
use kubling_providers.InMemory.Examples.Data.{
  library, marshal_string, features, task_entity, new_store-IsStored,
}

abbrev titles : QueryRequest
titles = record {
  entity = task_entity;
  projections = some (record { expression = field (codes "title"); output_name = codes "t" }) ∷ [];
  filter = nil_expression;
  order_by =
      some (record {
        expression = field (codes "priority");
        direction = descending;
        null_ordering = unspecified_nulls;
      })
      ∷ [];
  group_by = [];
  having = nil_expression;
  offset = some 1;
  limit = none;
  accepted_features = [];
  batch_size = some 1;
}

-- the tasks, ranged over in another order
abbrev reordered : Store
reordered = record new_store {
  tasks = (codes "task-3", task_3) ∷ (codes "task-1", task_1) ∷ (codes "task-2", task_2) ∷ [];
}

reordered-IsStored : IsStored reordered.tasks
unfolding lookup bytes_beq
reordered-IsStored = record {
  is_map = (refl, (refl, (refl, tt)));
  keyed = ((refl, ground arith), ((refl, ground arith), ((refl, ground arith), tt)));
}

same_tasks : (k : Bytes) → lookup k new_store.tasks ≡ lookup k reordered.tasks
unfolding new_store lookup bytes_beq
same_tasks k = elim (Bool-cases (bytes_beq (codes "task-3") k)) [
  | inl hit ↦
      subst (λ j. lookup j new_store.tasks ≡ lookup j reordered.tasks)
        ((bytes_beq_iff (codes "task-3") k).0 hit) refl
  | inr miss ↦ rw miss refl
]

abbrev no_equal : Expression → Expression → Bool
no_equal l r = false

abbrev session : Session
session = (opened, [])

abbrev answer : ResultStream
answer =
    new_result_stream
      (record { name = codes "t"; field_type = string; type_descriptor = none } ∷ [])
      ((string_value (codes "Build in-memory provider") ∷ [])
        ∷ (string_value (codes "Review provider SDK") ∷ [])
        ∷ [])
      1

run :
    query library features no_equal (λ n. none) (λ n. none) new_store titles session
    ≡ some (ok answer, session)
unfolding query new_store bytes_beq lookup compare_bytes type_beq compare_rat
run = refl

plain : aggregate_query titles ≡ false
unfolding aggregate_query
plain = refl

query_any_order_example :
    query library features no_equal (λ n. none) (λ n. none) reordered titles session
    ≡ some (ok answer, session)
query_any_order_example =
    query_any_order library features no_equal (λ n. none) new_store reordered titles session session
      answer new_store-IsStored reordered-IsStored same_tasks refl plain run

abbrev three : List (List Value)
three =
    (string_value (codes "a") ∷ [])
    ∷ (string_value (codes "b") ∷ [])
    ∷ (string_value (codes "c") ∷ [])
    ∷ []

enough : length three < 4
enough = ground arith

drain-tuples_example :
    (joined (drain 4 (new_result_stream [] three (query_batch_size (some 2)))).0 ≡ three)
    × All
        (IsBatch [] (query_batch_size (some 2)))
        (drain 4 (new_result_stream [] three (query_batch_size (some 2)))).0
    × ((drain 4 (new_result_stream [] three (query_batch_size (some 2)))).1 ≡ true)
drain-tuples_example = drain-tuples 4 [] three (some 2) enough

abbrev group : Bytes → List EntityRow → Group
group project rows = record { key = big_endian 8 10 ++ (10 ∷ project); rows = rows }

abbrev by_project : Expression
by_project = field (codes "project_id")

abbrev projects : List Group
projects =
    group (codes "project-1") (task_row task_1 ∷ task_row task_2 ∷ [])
    ∷ group (codes "project-2") (task_row task_3 ∷ [])
    ∷ []

grouped : group_aggregate_rows library (by_project ∷ []) (task_rows new_store.tasks) ≡ ok projects
unfolding group_aggregate_rows new_store task_rows bytes_beq lookup compare_bytes marshal_string
grouped = refl

group_aggregate_rows-IsPartition_example :
    IsPartition library (by_project ∷ []) (task_rows new_store.tasks) projects
group_aggregate_rows-IsPartition_example =
    group_aggregate_rows-IsPartition library by_project [] (task_rows new_store.tasks) projects
      grouped

abbrev two_words : List Value
two_words = string_value (codes "ab") ∷ string_value (codes "c") ∷ []

abbrev words_key : Bytes
words_key = big_endian 8 3 ++ (10 ∷ codes "ab") ++ (big_endian 8 2 ++ (10 ∷ codes "c"))

keyed : aggregate_values_key library two_words ≡ ok words_key
unfolding aggregate_values_key marshal_string big_endian
keyed = refl

two_words-IsShort : All (IsShort library) two_words
unfolding marshal_string
two_words-IsShort = (ground arith, (ground arith, tt))

aggregate_values_key-encodings_example : encodings library two_words ≡ encodings library two_words
aggregate_values_key-encodings_example =
    aggregate_values_key-encodings library two_words two_words words_key two_words-IsShort
      two_words-IsShort keyed keyed
