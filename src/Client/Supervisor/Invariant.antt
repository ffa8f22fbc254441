-- ===== src/Client/Supervisor/Invariant.antt =====
-- The connection of a supervised client, over every run.
use tay.Prelude.Outcome.{Outcome}
use tay.Client.Runs as Runs
