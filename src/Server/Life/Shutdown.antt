-- ===== src/Server/Life/Shutdown.antt =====
-- What the shutdown saves and what it loses (cmd/server/main.go, batchWorker and Close of
-- internal/store/sqlite.go and internal/store/store.go).
use vahak.Server.Life.{Life}
