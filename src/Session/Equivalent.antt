-- ===== src/Session/Equivalent.antt =====
-- packages/ketjs/src/server/sessionstore.ts: the memory store and the database store.
use ketjs.Common.{ℕ, ◌≡◌, refl, List, []}
use ketjs.Session.MemoryLaws.{memory_store, memory_laws}
use ketjs.Session.DatabaseLaws.{database_store, database_laws}
use ketjs.Session.Agree.{Call, Proceeds, run, run-eq}

-- Whatever calls come, in the order of time and with new ids for new sessions, the memory store and
-- the database store that start empty give the same answers to create, read, touch and
-- updateContext: the same sessions are read, refreshed, moved to a new context with the same revision
-- check, and refused. The answers of the other calls, lists and counts, are not compared.
pub stores-run :
    (calls : List (ℕ × Call))
    → Proceeds memory_store database_store memory_laws database_laws 0 calls [] []
    → run memory_store calls [] ≡ run database_store calls []
stores-run calls p =
    run-eq memory_store database_store memory_laws database_laws 0 calls [] [] p tt tt
      (λ at k le. refl)
