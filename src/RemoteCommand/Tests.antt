-- ===== src/RemoteCommand/Tests.antt =====
-- Structured commands prepared at work, and the theorems at concrete inputs. The base64 of the runtime
-- is that of one text.
use enhanced_ssh.Prelude.{
  ℕ, List, [], ◌∷◌, ◌++◌, none, some, ◌≡◌, refl, codes, drop, map, length, ◌==◌,
}
use enhanced_ssh.Errors.{gateway_error, text, rpc_code_of}
use enhanced_ssh.Result.{ok, err, is_ok}
use enhanced_ssh.TargetRegistry.Types.{windows, linux}
use enhanced_ssh.TransferPaths.{byte_length}
use enhanced_ssh.RemoteCommand.Validate.{
  Texts, StructuredRemoteCommandInput, powershell, bash, is_environment_name, same_text,
  check_entries, is_before, insert_entry, sort_entries, validate_environment, cwd_fits,
  environment_bytes, payload_bytes, validate_structured_input, invalid_structured_command,
}
use enhanced_ssh.RemoteCommand.Render.{
  PreparedRemoteCommand, utf8, posix_bash_remote_command, join_with, powershell_utf8_expression,
  escape_quotes, quote_posix_literal, windows_variable, windows_cwd, prepare_windows_context,
  powershell_text, powershell_statements, prepare_windows_powershell_script, posix_variable,
  posix_cwd, posix_prelude, prepare_posix_bash_script, render_shell,
  prepare_structured_remote_command,
}
use enhanced_ssh.RemoteCommand.Quoting.{
  outside, shell_word, meaning, is_operator, variable_tail, cwd_tail, prelude_words,
}
use enhanced_ssh.RemoteCommand.Acceptance.{accepts, validate_structured_input-accepts}
use enhanced_ssh.RemoteCommand.Refusal.{Invalid, prepare_structured_remote_command-Invalid}
use enhanced_ssh.RemoteCommand.Wrapper.{OneLine, prepare_structured_remote_command-OneLine}

run_command : Unit {0}
unfolding is_environment_name same_text check_entries is_before insert_entry sort_entries
    validate_environment cwd_fits environment_bytes payload_bytes validate_structured_input
    join_with powershell_utf8_expression escape_quotes quote_posix_literal windows_variable
    windows_cwd prepare_windows_context powershell_text powershell_statements
    prepare_windows_powershell_script posix_variable posix_cwd posix_prelude
    prepare_posix_bash_script render_shell prepare_structured_remote_command byte_length
    gateway_error rpc_code_of
run_command = tt

abbrev texts : Texts
texts = record {
  lower = λ value. value;
  is_blank = λ value. length value == 0;
  to_base64 = λ value. codes "QQ==";
}

abbrev deploy : StructuredRemoteCommandInput
deploy = record {
  shell = bash;
  script = codes "make";
  cwd = some (codes "/srv/it's");
  env = some ((codes "B", codes "2") ∷ (codes "A", codes "it's") ∷ []);
}

abbrev deploy_input : List ℕ
deploy_input =
    codes
      "if ! export A='it'\\''s' 2>/dev/null; then printf '%s\\n' 'Remote environment setup failed.' >&2; exit 1; fi\nif ! export B='2' 2>/dev/null; then printf '%s\\n' 'Remote environment setup failed.' >&2; exit 1; fi\nif ! cd -- '/srv/it'\\''s' 2>/dev/null; then printf '%s\\n' 'Remote working directory is unavailable.' >&2; exit 1; fi\nmake\n"

-- The variables come sorted.
deploy_prepared :
    prepare_structured_remote_command texts linux deploy
    ≡ ok (record { command = codes posix_bash_remote_command; stdin = some (utf8 deploy_input) })
unfolding run_command
deploy_prepared = refl

wrong_platform :
    prepare_structured_remote_command texts windows deploy
    ≡ err (
        invalid_structured_command "Shell is not supported for the target platform"
          (some (("platform", text "windows") ∷ ("shell", text "bash") ∷ [])))
unfolding run_command
wrong_platform = refl

-- Outside quotes the reader refuses what a shell would run, expand or end a statement at.
unquoted_refused :
    (shell_word outside (codes "$(reboot) ") ≡ none)
    × (shell_word outside (codes "a;reboot ") ≡ none)
    × (shell_word outside (codes "a\nreboot ") ≡ none)
unfolding shell_word meaning is_operator
unquoted_refused = (refl, refl, refl)

prelude_words_example :
    (shell_word outside (drop 12 (posix_variable (codes "A", codes "it's; reboot")))
      ≡ some (codes "A" ++ b'=' ∷ codes "it's; reboot", variable_tail))
    × (map (λ statement. shell_word outside (drop 11 statement)) (posix_cwd (some (codes "/srv")))
        ≡ some (codes "/srv", cwd_tail) ∷ [])
unfolding is_environment_name
prelude_words_example = prelude_words (codes "A") (codes "it's; reboot") (codes "/srv") refl

validate_structured_input-accepts_example :
    is_ok (validate_structured_input texts linux deploy) ≡ accepts texts linux deploy
validate_structured_input-accepts_example = validate_structured_input-accepts texts linux deploy

prepare_structured_remote_command-Invalid_example : Invalid (
    invalid_structured_command "Shell is not supported for the target platform"
      (some (("platform", text "windows") ∷ ("shell", text "bash") ∷ [])))
prepare_structured_remote_command-Invalid_example =
    prepare_structured_remote_command-Invalid texts windows deploy _ wrong_platform

abbrev greet : StructuredRemoteCommandInput
greet = record {
  shell = powershell;
  script = codes "Write-Output 'é'\n";
  cwd = none;
  env = some ((codes "A", codes "1") ∷ []);
}

abbrev greeted : PreparedRemoteCommand
unfolding run_command
greeted = render_shell texts powershell greet ((codes "A", codes "1") ∷ [])

greet_prepared : prepare_structured_remote_command texts windows greet ≡ ok greeted
unfolding run_command greeted
greet_prepared = refl

prepare_structured_remote_command-OneLine_example : OneLine greeted
prepare_structured_remote_command-OneLine_example =
    prepare_structured_remote_command-OneLine texts (λ value. refl) greet greeted greet_prepared
