-- ===== src/Session/Created.antt =====
-- CreateSession of internal/session/service/session_service.go, and ValidateSession of the session
-- that it stored.
use gosso.Prelude.{String}
use gosso.Redis.{Redis}
use gosso.Oauth2.Client.{Time}
use gosso.Session.{Session}
use gosso.Session.Service.{id_or}

-- The session that CreateSession stores.
abbrev pub stamped : String → Time → Session → Session
stamped random now given = record given {
  id = id_or random given.id;
  created_at = now;
  last_active_at = now;
}
