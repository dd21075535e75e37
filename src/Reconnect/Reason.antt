-- ===== src/Reconnect/Reason.antt =====
-- src/features/session/core/disconnectReason.ts.
use fluxterm.Base.{
  ◌≡◌, ◌≢◌, ◌↔◌, true, false, refl, arith, eq_iff, words, String, Bool, ◌==◌, Option, none, some,
  [], ◌∷◌, if◌then◌else◌,
}
use fluxterm.Reconnect.Policy.{DisconnectReason, exit, poweroff, reboot, network}

unfoldable pub normalize_command : String → String
normalize_command command = elim (words command) [
  | [] ↦ ""
  | first ∷ rest ↦ elim rest [
    | [] ↦ first
    | second ∷ others ↦ if first == "sudo" then second else first
  ]
]

unfoldable pub infer_disconnect_reason : Option String → Bool → Bool → DisconnectReason
unfolding normalize_command
infer_disconnect_reason last_command local_session terminal_eof_requested =
    let otherwise = if local_session then exit else network in
    if terminal_eof_requested then exit else elim last_command [
      | none ↦ otherwise
      | some text ↦
          if text == ""
          then otherwise
          else let command = normalize_command text in
            if command == "exit"
            then exit
            else if command == "poweroff"
            then poweroff
            else if command == "reboot"
            then reboot
            else otherwise
    ]

infer_poweroff_text :
    (text : String) (local_session : Bool)
    → infer_disconnect_reason (some text) local_session false ≡ poweroff
    → (text ≢ "") × (normalize_command text ≡ "poweroff")
unfolding infer_disconnect_reason
infer_poweroff_text text local_session h = (
  λ e. ground (arith, eq_iff text ""),
  ground (arith, eq_iff (normalize_command text) "poweroff"),
)

infer_poweroff_sound :
    (last : Option String) (local_session eof : Bool)
    → infer_disconnect_reason last local_session eof ≡ poweroff
    → (eof ≡ false)
      × ((text : String) × (last ≡ some text) × (text ≢ "") × (normalize_command text ≡ "poweroff"))
infer_poweroff_sound last local_session true h =
    absurd (unfold infer_disconnect_reason in ground arith)
infer_poweroff_sound none local_session false h =
    absurd (unfold infer_disconnect_reason in ground arith)
infer_poweroff_sound (some text) local_session false h =
    let (filled, runs) = infer_poweroff_text text local_session h in
    (refl, (text, refl, filled, runs))

infer_poweroff_complete :
    (text : String) (local_session : Bool)
    → text ≢ ""
    → normalize_command text ≡ "poweroff"
    → infer_disconnect_reason (some text) local_session false ≡ poweroff
unfolding infer_disconnect_reason
infer_poweroff_complete text local_session filled runs =
    rw runs (ground (arith, eq_iff text "", filled))

-- A disconnect counts as a power-off exactly when no end of input was asked for and the last
-- command, which is not empty, runs `poweroff`, with or without `sudo`.
infer_poweroff_iff :
    (last : Option String) (local_session eof : Bool)
    → (infer_disconnect_reason last local_session eof ≡ poweroff) ↔ (
        (eof ≡ false)
        × ((text : String) × (last ≡ some text)
            × (text ≢ "")
            × (normalize_command text ≡ "poweroff")))
infer_poweroff_iff last local_session eof = (
  infer_poweroff_sound last local_session eof,
  λ h.
      let (eof_not, (text, e, filled, runs)) = h in
      rw (eof_not, e) (infer_poweroff_complete text local_session filled runs),
)
