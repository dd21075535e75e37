-- ===== src/Reconnect/Runtime.antt =====
-- src/features/session/core/reconnectRuntime.ts. What `createSshSession` answers is an argument of
-- an attempt: the new session, or the error's `code` ("" where it has none).
use fluxterm.Base.{
  List, keep, not, ℕ, ◌+◌, String, ◌||◌, ◌==◌, Option, none, some, List, find, eqb, leb,
  if◌then◌else◌, or_default, includes,
}
use fluxterm.Base.Dict.{get, put, delete}
use fluxterm.Reconnect.Policy.{
  DisconnectReason, get_max_reconnect_attempts, compute_reconnect_delay_ms,
}
use fluxterm.Reconnect.Connections.{
  disconnected, reconnecting, Session, Timer, Connections, clear_timeout, set_timeout,
  set_session_state,
}

-- `createSshSession` returns a session or throws.
pub data Created (D : Type 0) : Type 0 where
  created : Session D → Created D
  failed : String → Created D

-- `if (timer) window.clearTimeout(timer)`
abbrev pub cancel : List Timer → Option ℕ → List Timer
cancel timers none = timers
cancel timers (some timer) =
    if eqb timer 0 then timers else keep (λ t. not (eqb t.handle timer)) timers

module _ {D M W : Type 0} where
  unfoldable pub clear_reconnect_state_by_id : Connections D M W → String → Connections D M W
  clear_reconnect_state_by_id c session_id = record c {
    timers = cancel c.timers (get c.reconnect_timers session_id);
    reconnect_timers = delete c.reconnect_timers session_id;
    reconnect_attempts = delete c.reconnect_attempts session_id;
    reconnect_info = delete c.reconnect_info session_id;
  }

  unfoldable pub schedule_reconnect_attempt :
      Connections D M W → String → DisconnectReason → Connections D M W
  schedule_reconnect_attempt c session_id reason =
      let attempts = or_default (get c.reconnect_attempts session_id) 0 + 1 in
      elim (compute_reconnect_delay_ms reason attempts) [
        | none ↦
            set_session_state
              (record c {
                reconnect_attempts =
                    delete (put c.reconnect_attempts session_id attempts) session_id;
              })
              session_id disconnected
        | some delay_ms ↦
            let informed : Connections D M W = record c {
              reconnect_attempts = put c.reconnect_attempts session_id attempts;
              reconnect_info =
                  put c.reconnect_info session_id
                    (record { attempt = attempts; delay_ms = delay_ms });
            } in
            let waiting =
              set_timeout (set_session_state informed session_id reconnecting) session_id
                delay_ms in
            record waiting {
              reconnect_timers = put waiting.reconnect_timers session_id c.next_handle;
            }
      ]

  -- The timer's callback: the handle is forgotten before the attempt.
  unfoldable pub fire : Connections D M W → Timer → Connections D M W
  fire c timer = record c {
    reconnect_timers = delete c.reconnect_timers timer.session_id;
    timers = (clear_timeout c timer.handle).timers;
  }

-- The two things that an attempt is given: a session's reason, and the change of connection.
module _ {D M W : Type 0} (profiles : List String)
    (get_disconnect_reason : Connections D M W → String → DisconnectReason)
    (replace_session_connection : Connections D M W → String → Session D → Connections D M W) where
  -- After `createSshSession` has answered.
  unfoldable pub settle_attempt : Connections D M W → String → Created D → Connections D M W
  settle_attempt c session_id (created session) = replace_session_connection c session_id session
  settle_attempt c session_id (failed code) =
      if code == "ssh_host_key_unknown" || code == "ssh_host_key_mismatch"
      then set_session_state c session_id disconnected
      else let attempts = or_default (get c.reconnect_attempts session_id) 0 in
        let reason = get_disconnect_reason c session_id in
        if leb (get_max_reconnect_attempts reason) attempts
        then set_session_state (clear_reconnect_state_by_id c session_id) session_id disconnected
        else schedule_reconnect_attempt c session_id reason

  -- `meanwhile` is what other events do to the state before `createSshSession` answers.
  unfoldable pub attempt_session_reconnect :
      (Connections D M W → Connections D M W)
      → Connections D M W
      → String
      → Created D
      → Connections D M W
  attempt_session_reconnect meanwhile c session_id answer =
      elim (find (λ (item : Session D). item.session_id == session_id) c.sessions) [
        | none ↦ clear_reconnect_state_by_id c session_id
        | some session ↦ elim session.profile_id [
          | none ↦ clear_reconnect_state_by_id c session_id
          | some profile_id ↦
              if includes profiles profile_id
              then settle_attempt (meanwhile c) session_id answer
              else clear_reconnect_state_by_id c session_id
        ]
      ]
