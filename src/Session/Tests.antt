-- ===== src/Session/Tests.antt =====
-- packages/ketjs/src/server/sessionstore.ts: a session that is read, refreshed, moved and ended.
use ketjs.Common.{ℕ, true, ◌≡◌, refl, none, some, List, [], ◌∷◌, arith}
use ketjs.Session.Record.{SessionRecord, SessionContext, same_session_context, in_context}
use ketjs.Session.Memory
use ketjs.Session.Database
use ketjs.Session.MemoryLaws.{memory_store}
use ketjs.Session.DatabaseLaws.{database_store}
use ketjs.Session.Agree.{Call, creates, reads, touches, updates, run, session, expiry, done}
use ketjs.Session.Equivalent.{stores-run}

abbrev alice : SessionRecord
alice = record {
  id = "s1";
  tenant = none;
  user_id = "alice";
  companies = "c1" ∷ [];
  company = some "c1";
  branch = none;
  branches = none;
  security_version = 0;
  revision = 0;
  created_at = 5;
  expires_at = 20;
}

abbrev context : SessionContext
context = record {
  companies = "c1" ∷ "c2" ∷ [];
  company = some "c2";
  branches = none;
  branch = none;
  security_version = 1;
}

unchanged : same_session_context context context ≡ true
unfolding same_session_context
unchanged = refl

abbrev calls : List (ℕ × Call)
calls =
    (5, creates alice)
    ∷ (6, touches "s1" 30)
    ∷ (7, updates "s1" 1 context)
    ∷ (8, updates "s1" 0 context)
    ∷ (40, reads "s1")
    ∷ []

abbrev moved : SessionRecord
moved = in_context context (record alice { expires_at = 30 })

answered :
    run memory_store calls []
    ≡ done ∷ expiry (some 30) ∷ session none ∷ session (some moved) ∷ session none ∷ []
unfolding run Memory.create Memory.read Memory.touch Memory.update_context
answered = refl

stores-run_example :
    done ∷ expiry (some 30) ∷ session none ∷ session (some moved) ∷ session none ∷ []
    ≡ run database_store calls []
unfolding run Memory.create Memory.read Memory.touch Memory.update_context Database.create
    Database.touch Database.update_context
stores-run_example = stores-run calls (
  omega arith,
  (refl, refl),
  (omega arith, tt, (omega arith, tt, (omega arith, tt, (omega arith, tt, tt)))),
)
