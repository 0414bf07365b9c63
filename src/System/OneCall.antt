-- ===== src/System/OneCall.antt =====
-- LoadOrStore and the deferred Delete of processJob keep one call for each job
-- (internal/forwarder/forwarder.go).
use vahak.Prelude.{nat_eq}
use vahak.Store.Storage.{Storage}
use vahak.Store.Engine.{Engine}
use vahak.Forwarder.{Forwarder}
use vahak.System.Locks.{Locks}
use vahak.System.{System}

module _ (engine : Engine) where
  open engine use {storage}

  abbrev pub SystemLocks : System engine → Type 0
  SystemLocks s = Locks s.forwarder.processing s.flights
