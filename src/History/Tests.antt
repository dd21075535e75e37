-- ===== src/History/Tests.antt =====
-- Runs of the command history, and each theorem at one of them.
use fluxterm.History.Input.{
  update_command_input_buffer, strip_terminal_control_sequences, remove_all, match_mouse,
  match_escape, match_csi, match_ss3, expect, skip, type_text, type_character, drop_last, join,
}
use fluxterm.History.Typing.{IsPlain, update_command_input_buffer-join}
use fluxterm.Base.{◌++◌, trim, ℕ, ◌≡◌, refl, String, some, [], ◌∷◌, trim, count, arith}
use fluxterm.Base.Dict.{get, get-empty}
use fluxterm.History.Buckets.{
  typed, CommandHistoryItem, CommandHistoryBucket, CommandHistory, global_scope_key, items_of,
  record_command, remove_global_command,
}
use fluxterm.History.Bounds.{IsWellFormed, commands, record_command-IsWellFormed}
use fluxterm.History.Removal.{remove_global_command_lem}

abbrev create_id : String → ℕ → String
create_id command now = command

abbrev empty_history : CommandHistory
empty_history = record { buckets = []; session_buckets = []; live_capture_by_session = [] }

empty-IsWellFormed : IsWellFormed empty_history
empty-IsWellFormed = record {
  global_buckets =
      λ key bucket e. absurd (ground (arith, e, get-empty {V = CommandHistoryBucket} key));
  run_buckets =
      λ key bucket e. absurd (ground (arith, e, get-empty {V = CommandHistoryBucket} key));
}

record_command-IsWellFormed_example :
    IsWellFormed (record_command create_id empty_history (some "s") " ls -l " typed 7)
record_command-IsWellFormed_example =
    record_command-IsWellFormed create_id empty_history (some "s") " ls -l " typed 7
      empty-IsWellFormed

abbrev item : String → CommandHistoryItem
item command = record {
  id = command;
  command = command;
  first_used_at = 1;
  last_used_at = 2;
  use_count = 1;
  source = typed;
}

abbrev two_commands : CommandHistory
two_commands = record empty_history {
  buckets =
      (
        global_scope_key,
        record {
          scope_key = global_scope_key;
          label = "Global";
          updated_at = 2;
          items = item "ls" ∷ item "pwd" ∷ [];
        },
      )
      ∷ [];
}

remove_global_command_lem_example :
    (count "ls" (
        commands
          (items_of (get (remove_global_command two_commands " ls" 9).buckets global_scope_key)))
      ≡ 0)
    × (count "pwd" (
          commands
            (items_of (get (remove_global_command two_commands " ls" 9).buckets global_scope_key)))
        ≡ count "pwd" (commands (items_of (get two_commands.buckets global_scope_key))))
unfolding trim
remove_global_command_lem_example = remove_global_command_lem two_commands " ls" "pwd" 9 refl refl

start-IsPlain : IsPlain "ls -"
start-IsPlain = (refl, (refl, (refl, (refl, tt))))

end-IsPlain : IsPlain "x\u{7f}l\r"
end-IsPlain = (refl, (refl, (refl, (refl, tt))))

update_command_input_buffer-join_example :
    let first = update_command_input_buffer "" "ls -" in
    let second = update_command_input_buffer first.buffer "x\u{7f}l\r" in
    update_command_input_buffer "" (join "ls -" "x\u{7f}l\r")
    ≡ record { buffer = second.buffer; commits = first.commits ++ second.commits }
update_command_input_buffer-join_example =
    update_command_input_buffer-join "" "ls -" "x\u{7f}l\r" start-IsPlain end-IsPlain

typing_runs :
    update_command_input_buffer "" "ls -x\u{7f}l\u{1b}[A\r"
    ≡ record { buffer = ""; commits = record { command = "ls -l"; source = typed } ∷ [] }
unfolding update_command_input_buffer strip_terminal_control_sequences remove_all match_mouse
    match_escape match_csi match_ss3 expect skip type_text type_character drop_last join trim
typing_runs = refl
