-- ===== src/Server/Examples.antt =====
-- Concrete runs of the server (sdk-go/provider).
mod Branched
mod Read
mod Registered
mod Ended
mod Sent
mod Checked
mod Queried
mod Requested
