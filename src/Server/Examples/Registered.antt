-- ===== src/Server/Examples/Registered.antt =====
-- A connection is opened, used and closed (sdk-go/provider/registry.go).
use kubling_providers.Base.{
  ◌≡◌, ◌≢◌, refl, [], ◌∷◌, some, false, Bytes, bytes_beq, All, insert, lookup,
}
use kubling_providers.Server.Registry.{Registry, new_registry, add, hold, find, take_out}
use kubling_providers.Server.Registry.Steps.{
  Steps, start, next, adds, holds, IsSound, registry-IsSound,
}
use kubling_providers.Server.Registry.Entries.{taken_out_gone}

abbrev id : Bytes
id = 7 ∷ []

abbrev opened : Registry
opened = record {
  connections = (id, 0) ∷ [];
  managed = record { closed = false; holders = 0; closings = 0 } ∷ [];
}

opening : add new_registry id ≡ some opened
unfolding add new_registry insert lookup
opening = refl

to_opened : Steps new_registry opened
to_opened = next new_registry opened start (adds id opened opening)

to_held : Steps new_registry (hold opened 0).0
to_held = next opened (hold opened 0).0 to_opened (holds 0)

registry-IsSound_example : All IsSound (hold opened 0).0.managed
registry-IsSound_example = registry-IsSound (hold opened 0).0 to_held

out : (take_out opened id).1 ≡ some 0
unfolding take_out lookup bytes_beq
out = refl

taken_out_gone_example : find (hold (take_out opened id).0 0).0 id ≢ some 0
taken_out_gone_example =
    taken_out_gone opened id 0 (hold (take_out opened id).0 0).0 id to_opened out
      (next (take_out opened id).0 (hold (take_out opened id).0 0).0 start (holds 0))
