-- ===== src/Http/Worker/Runs/Invariant.antt =====
-- The invariant of the HTTP worker, over every run.
use tay.Text.{Text}
use tay.Http.Worker.{Worker, Execution}
