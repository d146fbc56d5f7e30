-- ===== src/Server/Registry.antt =====
-- The registry of logical connections (sdk-go/provider/registry.go). A managed connection is known by
-- its number in `managed`, the pointer of the source: an operation that found it can still hold it
-- after the registry has let it go. `holders` counts the operations that hold its shared lock, and the
-- exclusive lock is taken only while there are none. The random identifiers are arguments.
pub mod Steps
pub mod Entries
use kubling_providers.Base.{
  ℕ, zero, suc, ◌+◌, ◌-◌, List, [], ◌∷◌, ◌++◌, Option, none, some, Bool, true, false, Map, Bytes,
  bytes_eq, lookup, insert, delete, length, get_elem?, if◌then◌else◌,
}

-- `closings` counts the calls of Close on the connection of the provider.
pub record ManagedConnection : Type 0 where
  pub closed : Bool
  pub holders : ℕ
  pub closings : ℕ

pub record Registry : Type 0 where
  pub connections : Map Bytes ℕ
  pub managed : List ManagedConnection

unfoldable pub new_registry : Registry
new_registry = record { connections = []; managed = [] }

abbrev pub fresh_connection : ManagedConnection
fresh_connection = record { closed = false; holders = 0; closings = 0 }

-- One turn of the loop of `add`, with the identifier drawn: none where it is taken.
unfoldable pub add : Registry → Bytes → Option Registry
add r id = elim (lookup id r.connections) [
  | some _ ↦ none
  | none ↦ some (record {
    connections = insert id (length r.managed) r.connections;
    managed = r.managed ++ fresh_connection ∷ [];
  })
]

-- the managed connection of that number, changed
unfoldable pub update : ℕ → ManagedConnection → List ManagedConnection → List ManagedConnection
update n c [] = []
update zero c (x ∷ xs) = c ∷ xs
update (suc n) c (x ∷ xs) = x ∷ update n c xs

-- `r.connections[id]`, under the registry's shared lock
abbrev pub find : Registry → Bytes → Option ℕ
find r id = lookup id r.connections

-- The rest of `acquire`, on what was found: the shared lock is taken, and kept unless the connection is
-- closed.
unfoldable pub hold : Registry → ℕ → Registry × Bool
unfolding update
hold r n = elim (get_elem? r.managed n) [
  | none ↦ (r, false)
  | some c ↦
      if c.closed
      then (r, false)
      else (record r { managed = update n (record c { holders = suc c.holders }) r.managed }, true)
]

-- the release function of `acquire`
unfoldable pub release : Registry → ℕ → Registry
unfolding update
release r n = elim (get_elem? r.managed n) [
  | none ↦ r
  | some c ↦ record r { managed = update n (record c { holders = c.holders - 1 }) r.managed }
]

-- `close` under the registry's lock: the entry is taken out before the connection is closed
unfoldable pub take_out : Registry → Bytes → Registry × Option ℕ
take_out r id = elim (find r id) [
  | none ↦ (r, none)
  | some n ↦ (record r { connections = delete id r.connections }, some n)
]

-- `closeAll` under the registry's lock
unfoldable pub take_all : Registry → Registry × List ℕ
take_all r = (record r { connections = [] }, numbers r.connections)
  where
    numbers : Map Bytes ℕ → List ℕ
    numbers [] = []
    numbers ((id, n) ∷ m) = n ∷ numbers m

-- `managedConnection.close`, once the exclusive lock is taken
unfoldable pub close_managed : Registry → ℕ → Registry
unfolding update
close_managed r n = elim (get_elem? r.managed n) [
  | none ↦ r
  | some c ↦ if c.closed then r else record r {
    managed = update n (record c { closed = true; closings = suc c.closings }) r.managed;
  }
]
