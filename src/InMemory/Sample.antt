-- ===== src/InMemory/Sample.antt =====
-- The sample data (newStore and its rows, providers/inmemory/model.go).
use kubling_providers.Base.{pos, true, false, List, [], ◌∷◌, none, some, Bytes, codes}
use kubling_providers.Messages.{integer, plain}
use kubling_providers.InMemory.Values.{
  null_value, string_value, char_value, biginteger_value, bigdecimal_value, date_value, time_value,
  timestamp_value, json_value, xml_value, varbinary_value, geometry_value, geography_value,
  boolean_value, byte_value, short_value, integer_value, long_value, float_value, double_value,
  blob_value, clob_value, array_value, Values, end, item,
}
use kubling_providers.InMemory.Model.{
  Task, EntityRow, Store, project_entity_name, task_entity_name, audit_event_entity_name,
  type_sample_entity_name, new_entity_row,
}

unfoldable pub project_rows : List EntityRow
unfolding new_entity_row
project_rows =
    new_entity_row (codes "project-1") (
      (codes "id", string_value (codes "project-1"))
      ∷ (codes "name", string_value (codes "Provider SDK"))
      ∷ (codes "status", char_value (codes "A"))
      ∷ (codes "active", boolean_value true)
      ∷ (codes "budget", bigdecimal_value (codes "125000.50"))
      ∷ (codes "started_on", date_value (codes "2026-07-01"))
      ∷ (codes "metadata", json_value (codes "{\"owner\":\"platform\",\"region\":\"eu\"}"))
      ∷ [])
    ∷ new_entity_row (codes "project-2") (
        (codes "id", string_value (codes "project-2"))
        ∷ (codes "name", string_value (codes "Engine Integration"))
        ∷ (codes "status", char_value (codes "P"))
        ∷ (codes "active", boolean_value true)
        ∷ (codes "budget", bigdecimal_value (codes "87500.00"))
        ∷ (codes "started_on", date_value (codes "2026-08-01"))
        ∷ (codes "metadata", json_value (codes "{\"owner\":\"federation\",\"region\":\"global\"}"))
        ∷ [])
    ∷ []

unfoldable pub audit_event_rows : List EntityRow
unfolding new_entity_row
audit_event_rows =
    new_entity_row (codes "1001") (
      (codes "id", long_value (pos 1001))
      ∷ (codes "entity_type", string_value task_entity_name)
      ∷ (codes "entity_id", string_value (codes "task-1"))
      ∷ (codes "action", char_value (codes "U"))
      ∷ (codes "sequence", short_value (pos 1))
      ∷ (codes "risk_score", double_value (codes "0.15"))
      ∷ (codes "occurred_at", timestamp_value (codes "2026-08-02T09:15:30.125"))
      ∷ (codes "source_address", varbinary_value (127 ∷ 0 ∷ 0 ∷ 1 ∷ []))
      ∷ (codes "payload", json_value (codes "{\"completed\":true}"))
      ∷ (codes "raw_payload", blob_value (some (codes "completed=true")))
      ∷ [])
    ∷ new_entity_row (codes "1002") (
        (codes "id", long_value (pos 1002))
        ∷ (codes "entity_type", string_value project_entity_name)
        ∷ (codes "entity_id", string_value (codes "project-2"))
        ∷ (codes "action", char_value (codes "C"))
        ∷ (codes "sequence", short_value (pos 2))
        ∷ (codes "risk_score", double_value (codes "0.05"))
        ∷ (codes "occurred_at", timestamp_value (codes "2026-08-03T10:00:00"))
        ∷ (codes "source_address", varbinary_value (10 ∷ 0 ∷ 0 ∷ 42 ∷ []))
        ∷ (codes "payload", json_value (codes "{\"status\":\"P\"}"))
        ∷ (codes "raw_payload", blob_value (some (codes "status=P")))
        ∷ [])
    ∷ []

abbrev point_wkb : Bytes
point_wkb =
    1 ∷ 1 ∷ 0 ∷ 0 ∷ 0 ∷ 0 ∷ 0 ∷ 0 ∷ 0 ∷ 0 ∷ 0 ∷ 240 ∷ 63 ∷ 0 ∷ 0 ∷ 0 ∷ 0 ∷ 0 ∷ 0 ∷ 0 ∷ 64 ∷ []

abbrev sample_array : Values
sample_array = item (integer_value (pos 1)) (item null_value (item (integer_value (pos 3)) end))

unfoldable pub type_sample_rows : List EntityRow
unfolding new_entity_row
type_sample_rows =
    new_entity_row (codes "canonical") (
      (codes "sample_id", string_value (codes "canonical"))
      ∷ (codes "string_value", string_value (codes "Kubling"))
      ∷ (codes "varbinary_value", varbinary_value (75 ∷ 85 ∷ 66 ∷ []))
      ∷ (codes "char_value", char_value (codes "K"))
      ∷ (codes "boolean_value", boolean_value true)
      ∷ (codes "byte_value", byte_value (pos 127))
      ∷ (codes "short_value", short_value (pos 32_767))
      ∷ (codes "integer_value", integer_value (pos 2_147_483_647))
      ∷ (codes "integer_array_value", array_value (some (plain integer none none)) sample_array)
      ∷ (codes "long_value", long_value (pos 9_223_372_036_854_775_000))
      ∷ (codes "biginteger_value", biginteger_value (codes "123456789012345678901234567890"))
      ∷ (codes "float_value", float_value (codes "3.25"))
      ∷ (codes "double_value", double_value (codes "3.141592653589793"))
      ∷ (codes "bigdecimal_value", bigdecimal_value (codes "1234567890.12345678901234567890"))
      ∷ (codes "date_value", date_value (codes "2026-08-03"))
      ∷ (codes "time_value", time_value (codes "14:30:15.125"))
      ∷ (codes "timestamp_value", timestamp_value (codes "2026-08-03T14:30:15.125"))
      ∷ (codes "blob_value", blob_value (some (codes "binary large object")))
      ∷ (codes "clob_value", clob_value (some (codes "character large object")))
      ∷ (codes "geometry_value", geometry_value point_wkb)
      ∷ (codes "geography_value", geography_value point_wkb)
      ∷ (codes "json_value", json_value (codes "{\"engine\":\"kubling\",\"sample\":true}"))
      ∷ (codes "xml_value", xml_value (codes "<sample engine=\"kubling\"/>"))
      ∷ [])
    ∷ []

abbrev pub task_1 : Task
task_1 = record {
  id = codes "task-1";
  project_id = codes "project-1";
  title = codes "Review provider SDK";
  description = some (codes "Validate the public provider lifecycle through the SDK adapter.");
  completed = true;
  priority = pos 1;
  estimate_hours = some (codes "2.5");
  due_at = some (codes "2026-08-04T17:00:00");
}

abbrev pub task_2 : Task
task_2 = record {
  id = codes "task-2";
  project_id = codes "project-1";
  title = codes "Build in-memory provider";
  description = none;
  completed = false;
  priority = pos 2;
  estimate_hours = some (codes "4");
  due_at = some (codes "2026-08-07T12:30:00");
}

abbrev pub task_3 : Task
task_3 = record {
  id = codes "task-3";
  project_id = codes "project-2";
  title = codes "Connect Kubling";
  description = none;
  completed = false;
  priority = pos 3;
  estimate_hours = none;
  due_at = none;
}

unfoldable pub new_store : Store
unfolding project_rows audit_event_rows type_sample_rows
new_store = record {
  tasks = (codes "task-1", task_1) ∷ (codes "task-2", task_2) ∷ (codes "task-3", task_3) ∷ [];
  entities =
      (project_entity_name, project_rows)
      ∷ (audit_event_entity_name, audit_event_rows)
      ∷ (type_sample_entity_name, type_sample_rows)
      ∷ [];
  next_id = 4;
}
