-- ===== src/Tests/Commands.antt =====
-- The commands of internal/edgestate on one command that is delivered twice.
use meow_frp_server.Prelude.{false, none, [], ◌∷◌, ◌≡◌, refl, codes, bytes_eq}
use meow_frp_server.EdgeState.Commands.{
  NodeCommand, CommandResult, begin_command, finish_command, begins, command_events, are_final,
  runs, finished_command_not_run,
}

abbrev block_command : NodeCommand
block_command = record { command_id = codes "c1"; command = codes "block_ip"; payload = codes "{}" }

abbrev block_result : CommandResult
block_result = record {
  command_id = codes "c1";
  status = codes "succeeded";
  result = [];
  error = [];
}

finished_command_not_run_example :
    let u =
      command_events
        (λ _. none)
        (begins block_command ∷ [])
        (finish_command block_result (codes "{}") (begin_command (λ _. none) block_command []).0) in
    runs (begin_command (λ _. none) block_command u).1 ≡ false
unfolding are_final bytes_eq
finished_command_not_run_example =
    finished_command_not_run (λ _. none) block_command block_command block_result (codes "{}")
      (begins block_command ∷ []) [] refl refl refl refl
