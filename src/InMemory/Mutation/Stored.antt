-- ===== src/InMemory/Mutation/Stored.antt =====
-- The invariant of the store: a task stands once, under its own identifier.
use kubling_providers.Base.{
  ◌≡◌, ◌≢◌, refl, List, [], ◌∷◌, Bytes, bytes_eq, Map, insert, delete, IsMap, insert-IsMap,
  delete-IsMap, All, All-insert, All-delete,
}
use kubling_providers.InMemory.Model.{Task}
use kubling_providers.InMemory.Mutation.{put_all, delete_all}

abbrev pub Keyed : Bytes × Task → Type 0
Keyed (id, t) = (id ≡ t.id) × (t.id ≢ [])

-- Every task stands once, under its own identifier, which is not empty.
pub record IsStored (tasks : Map Bytes Task) : Type 0 where
  pub is_map : IsMap tasks
  pub keyed : All Keyed tasks

pub insert-IsStored :
    (t : Task) (tasks : Map Bytes Task)
    → t.id ≢ []
    → IsStored tasks
    → IsStored (insert t.id t tasks)
insert-IsStored t tasks h s = record {
  is_map = insert-IsMap t.id t tasks s.is_map;
  keyed = All-insert Keyed t.id t tasks (refl, h) s.keyed;
}

pub put_all-IsStored :
    (updated tasks : Map Bytes Task)
    → All Keyed updated
    → IsStored tasks
    → IsStored (put_all updated tasks)
unfolding put_all
put_all-IsStored [] tasks h s = s
put_all-IsStored ((id, row) ∷ updated) tasks h s =
    put_all-IsStored updated (insert id row tasks) h.1 (record {
      is_map = insert-IsMap id row tasks s.is_map;
      keyed = All-insert Keyed id row tasks h.0 s.keyed;
    })

pub delete_all-IsStored :
    (ids : List Bytes) (tasks : Map Bytes Task) → IsStored tasks → IsStored (delete_all ids tasks)
unfolding delete_all
delete_all-IsStored [] tasks s = s
delete_all-IsStored (id ∷ ids) tasks s =
    delete_all-IsStored ids (delete id tasks) (record {
      is_map = delete-IsMap id tasks s.is_map;
      keyed = All-delete Keyed id tasks s.keyed;
    })
