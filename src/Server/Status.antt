-- ===== src/Server/Status.antt =====
-- The errors that the server returns (sdk-go/provider), and how it takes a connection
-- (sdk-go/provider/server.go). An error is the code of a status of the server's own, or the error of
-- the provider or the transport, a number. Messages are left out.
use kubling_providers.Base.{ℕ, [], ◌∷◌, Option, none, some, Bytes, Result, ok, err}

pub data Fault : Type 0 where
  invalid_argument internal unimplemented failed_precondition missing : Fault
  foreign : ℕ → Fault

-- acquireConnection; `connections` is what the registry finds under an identifier, as far as the
-- caller looks at it.
unfoldable pub acquire_connection : {C : Type 0} → (Bytes → Option C) → Bytes → Result Fault C
acquire_connection connections [] = err invalid_argument
acquire_connection connections (b ∷ bs) = elim (connections (b ∷ bs)) [
  | none ↦ err missing
  | some connection ↦ ok connection
]

-- How a stream stands after some replies: it waits for the next reply, or it has returned, with an error
-- or without one.
pub data Standing : Type 0 where
  waits : Standing
  returned : Option Fault → Standing

-- the deferred Close: its error is returned only where there is no other
abbrev pub with_close : Standing → Option ℕ → Standing
with_close waits closing = waits
with_close (returned (some e)) closing = returned (some e)
with_close (returned none) none = returned none
with_close (returned none) (some e) = returned (some (foreign e))
