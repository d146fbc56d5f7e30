-- ===== src/InMemory/Examples/Mutated.antt =====
-- Insertions, updates and deletions (providers/inmemory/mutation.go).
use kubling_providers.Base.{
  ◌+◌, ◌<◌, ◌≡◌, ◌≢◌, refl, arith, pos, [], ◌∷◌, Option, none, some, Bytes, codes, true, false,
  length, Result, ok, bytes_beq, lookup,
}
use kubling_providers.Cache.State.{u64_mod}
use kubling_providers.Messages.{Field, string}
use kubling_providers.InMemory.Values.{string_value, boolean_value, integer_value}
use kubling_providers.InMemory.Numbers.{compare_bytes}
use kubling_providers.InMemory.Model.{Refusal, Store, Task}
use kubling_providers.InMemory.Expressions.{Expression, field, literal, comparison, equal}
use kubling_providers.InMemory.Parse.{parse_insert_rows, empty_draft}
use kubling_providers.InMemory.Mutation.{
  InsertRequest, UpdateRequest, DeleteRequest, InsertResponse, insert_rows, put_tasks, update_tasks,
  delete_tasks,
}
use kubling_providers.InMemory.Mutation.Answered.{Inserts, insert_rows-Inserts, insert_rows_returns}
use kubling_providers.InMemory.Mutation.Updated.{Updates, update_tasks-Updates}
use kubling_providers.InMemory.Mutation.Deleted.{Deletes, delete_tasks-Deletes}
use kubling_providers.InMemory.Sample.{new_store}
use kubling_providers.InMemory.Examples.Data.{library, task_entity, new_store-IsStored}

abbrev given : Bytes → Option Field
given name = some (record { name = name; field_type = string; type_descriptor = none })

abbrev insertion : InsertRequest
insertion = record {
  entity = task_entity;
  rows = some (record {
    fields = given (codes "TITLE") ∷ given (codes "priority") ∷ [];
    tuples = some (string_value (codes "Write tests") ∷ integer_value (pos 5) ∷ []) ∷ [];
  });
  returning_fields = [];
}

abbrev draft : Task
draft = record empty_draft { title = codes "Write tests"; priority = pos 5 }

abbrev inserted : Result Refusal InsertResponse × Store
inserted = (
  ok (record { affected_rows = 1; generated_values = none }),
  record new_store {
    tasks = put_tasks (record draft { id = codes "task-4" } ∷ []) new_store.tasks;
    next_id = 5;
  },
)

insertion_run : insert_rows false none new_store insertion ≡ some inserted
unfolding insert_rows new_store put_tasks bytes_beq
insertion_run = refl

read_drafts : parse_insert_rows insertion.rows ≡ ok (draft ∷ [])
unfolding parse_insert_rows bytes_beq
read_drafts = refl

insert_rows-Inserts_example : Inserts insertion new_store inserted
insert_rows-Inserts_example =
    insert_rows-Inserts false none insertion new_store inserted new_store-IsStored insertion_run

counts : new_store.next_id < u64_mod
unfolding new_store
counts = ground arith

room : length new_store.tasks + length (draft ∷ []) < u64_mod
unfolding new_store
room = ground arith

insert_rows_returns_example : insert_rows false none new_store insertion ≢ none
insert_rows_returns_example =
    insert_rows_returns false none insertion new_store (draft ∷ []) new_store-IsStored counts
      read_drafts room

-- the tasks of the first project
abbrev of_project : Expression
of_project =
    comparison equal (field (codes "project_id")) (literal (string_value (codes "project-1")) none)

abbrev change : UpdateRequest
change = record {
  entity = task_entity;
  filter = of_project;
  assignments =
      some (record { field = codes "completed"; value = literal (boolean_value true) none }) ∷ [];
}

changed : (update_tasks library false (λ n. none) new_store change).0 ≡ ok 2
unfolding update_tasks new_store bytes_beq lookup compare_bytes
changed = refl

update_tasks-Updates_example :
    Updates library change new_store (update_tasks library false (λ n. none) new_store change)
update_tasks-Updates_example =
    update_tasks-Updates library false (λ n. none) new_store change new_store-IsStored

abbrev removal : DeleteRequest
removal = record { entity = task_entity; filter = of_project }

removed : (delete_tasks library false (λ n. none) new_store removal).0 ≡ ok 2
unfolding delete_tasks new_store bytes_beq lookup compare_bytes
removed = refl

delete_tasks-Deletes_example :
    Deletes library removal new_store (delete_tasks library false (λ n. none) new_store removal)
delete_tasks-Deletes_example =
    delete_tasks-Deletes library false (λ n. none) new_store removal new_store-IsStored
