-- ===== src/Sessions/QuestionTests.antt =====
-- The questions about host keys on small inputs.
use fluxterm.Base.{true, false, refl, some, [], ◌∷◌, ◌≡◌}
use fluxterm.Base.Dict.{get}
use fluxterm.Reconnect.Connections.{disconnected}
use fluxterm.Reconnect.Retries.{IsQuiet}
use fluxterm.Sessions.Tests.{host, props, Small, one}
use fluxterm.Sessions.HostKeys.{handle_host_key_verification_required, cancel_host_key}
use fluxterm.Sessions.Questions.{key_title, cancel_host_key_lem}

-- Session `a` waits for the key of its host, about which the user is asked.
abbrev waiting : Small
waiting = record one {
  pending_host_key_reconnect = ("host", "a") ∷ [];
  pending_host_key_dialog = ("host", true) ∷ [];
}

cancel_host_key_lem_example :
    let cancelled = cancel_host_key waiting "host" in
    let asked = handle_host_key_verification_required props cancelled "host" true in
    IsQuiet cancelled.live "a"
    × (get cancelled.live.session_states "a" ≡ some disconnected)
    × (cancelled.live.sessions ≡ waiting.live.sessions)
    × (cancelled.live.workspace ≡ waiting.live.workspace)
    × (get cancelled.pending_host_key_dialog "other" ≡ get waiting.pending_host_key_dialog "other")
    × (get cancelled.pending_host_key_reconnect "other"
        ≡ get waiting.pending_host_key_reconnect "other")
    × (asked.dialogs ≡ key_title true ∷ waiting.dialogs)
    × (handle_host_key_verification_required props asked "host" false ≡ asked)
unfolding get
cancel_host_key_lem_example =
    cancel_host_key_lem props waiting host "host" "other" "a" true false refl refl refl refl
