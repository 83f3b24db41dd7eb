-- ===== src/Commands/Callbacks.antt =====
-- internal/commands/commands.go: what the callbacks of a control run.
use go_hass_agent.Prelude.{
  String, ◌≢◌, ◌↔◌, ◌≡◌, refl, ap, some, List, [], ◌∷◌, inl, inr, true, false, eq_iff, arith,
}
use go_hass_agent.Prelude.Split.{split_spaces, split_spaces-ne-nil}
use go_hass_agent.Commands.{
  Os, cmd_without_state, cmd_with_state, switch_state, number_state, read_switch, read_number,
  without_state, switch_argv, number_argv, ran_without, started, printed, failed_or_not, cmd_failed,
  state_failed, unknown_number_state,
}

module _ (os : Os) where
  switch_argv_runs :
      (argv : List String)
      → argv ≢ []
      → switch_argv os argv
        ≡ record { calls = started os argv; result = read_switch os (printed os argv) }
  unfolding switch_argv
  switch_argv_runs [] ne = elim (ne refl) [ ]
  switch_argv_runs (prog ∷ args) ne = refl

  -- A command that is empty, or begins with a space, starts no process, whatever is pressed or set:
  -- a press is a failed command, and the two states are errors.
  pub empty_command_runs_nothing :
      (command state : String) (args : List String)
      → split_spaces command ≡ "" ∷ args
      → cmd_without_state os command ≡ record { calls = []; result = some cmd_failed }
        × (cmd_with_state os command state).calls ≡ []
        × switch_state os command ≡ record { calls = []; result = inl state_failed }
        × number_state os command ≡ record { calls = []; result = inl unknown_number_state }
  unfolding cmd_without_state cmd_with_state switch_state number_state without_state switch_argv
      number_argv started printed failed_or_not ran_without read_switch read_number
  empty_command_runs_nothing command state args e = rw e (refl, ground arith, refl, refl)

  switch_result :
      (command : String)
      → (switch_state os command).result ≡ read_switch os (printed os (split_spaces command))
  unfolding switch_state
  switch_result command =
      ap (λ r. r.result) (switch_argv_runs (split_spaces command) (split_spaces-ne-nil command))

  -- A switch's state is ON or OFF: it is ON exactly when the output of its command has "ON" in
  -- it, and OFF exactly when it has "OFF" and not "ON"; else, as when the command fails, the
  -- callback gives an error.
  pub switch_state-Reads :
      (command out : String)
      → printed os (split_spaces command) ≡ some out
      → ((switch_state os command).result ≡ inr "ON" ↔ os.contains out "ON" ≡ true)
        × ((switch_state os command).result ≡ inr "OFF"
            ↔ (os.contains out "ON" ≡ false × os.contains out "OFF" ≡ true))
  unfolding read_switch
  switch_state-Reads command out e =
      rw (switch_result command) (rw e ground (arith, eq_iff "ON" "OFF"))
