-- ===== src/Protocol/Refusals.antt =====
-- The host's messages that are answered with an error (src/routes/ws.rs, `handle_teacher_msg`).
use bridge_table_service.Prelude.{Option, String, some, string_eq, ◌≡◌}
use bridge_table_service.Session.{Session}

-- An answer with an error leaves the session as it was.
abbrev pub Unharmed : Session → Session × Option String → Type 0
Unharmed s r = (code : String) → r.1 ≡ some code → r.0 ≡ s
