-- ===== src/RemoteCommand/Render.antt =====
-- What src/core/remote-command.ts puts on the command line and on the standard input.
use enhanced_ssh.Prelude.{
  Bool, true, false, String, List, [], ◌∷◌, ◌++◌, Option, none, some, leb, ◌==◌, if◌then◌else◌,
  codes,
}
use enhanced_ssh.Errors.{gateway, gateway_error, invalid_params, number}
use enhanced_ssh.Result.{Result, ok, ◌>>=◌, ◌>>◌, require}
use enhanced_ssh.TargetRegistry.Types.{TargetPlatform, windows, linux, macos}
use enhanced_ssh.TargetRegistry.Authorize.{max_command_bytes}
use enhanced_ssh.TransferPaths.{byte_length}
use enhanced_ssh.RemoteCommand.Validate.{
  Text, Environment, Texts, StructuredRemoteShell, powershell, cmd, bash,
  StructuredRemoteCommandInput, validate_structured_input,
}

-- What is written to the standard input, and as which bytes.
pub data Input : Type 0 where
  ascii utf8 : Text → Input

pub record PreparedRemoteCommand : Type 0 where
  pub command : Text
  pub stdin : Option Input

abbrev pub windows_powershell_remote_command : String
windows_powershell_remote_command = "powershell.exe -NoLogo -NoProfile -NonInteractive -Command -"

abbrev pub posix_bash_remote_command : String
posix_bash_remote_command = "bash --noprofile --norc -s"

-- lines.join(separator)
unfoldable pub join_with : Text → List Text → Text
join_with separator [] = []
join_with separator (line ∷ []) = line
join_with separator (line ∷ next ∷ lines) =
    line ++ (separator ++ join_with separator (next ∷ lines))

abbrev pub windows_completion_lines : List Text
windows_completion_lines =
    codes "$agentSshCommandSucceeded=$?"
    ∷ codes
        "$agentSshNativeExitVariable=Microsoft.PowerShell.Utility\\Get-Variable -Name LASTEXITCODE -Scope Global -ErrorAction SilentlyContinue"
    ∷ codes
        "$agentSshNativeExitCode=if($null -eq $agentSshNativeExitVariable){$null}else{$agentSshNativeExitVariable.Value}"
    ∷ codes "if($agentSshCommandSucceeded){exit 0}"
    ∷ codes
        "if($agentSshNativeExitCode -is [int] -and $agentSshNativeExitCode -ne 0){exit $agentSshNativeExitCode}"
    ∷ codes "exit 1"
    ∷ []

abbrev pub windows_completion : Text
windows_completion = join_with (codes ";") windows_completion_lines

abbrev pub windows_utf8_setup : List Text
windows_utf8_setup =
    codes "$agentSshUtf8=[System.Text.UTF8Encoding]::new($false)"
    ∷ codes "[Console]::InputEncoding=$agentSshUtf8"
    ∷ codes "[Console]::OutputEncoding=$agentSshUtf8"
    ∷ codes "$OutputEncoding=$agentSshUtf8"
    ∷ []

unfoldable pub powershell_utf8_expression : Texts → Text → Text
powershell_utf8_expression texts value =
    codes "[System.Text.Encoding]::UTF8.GetString([Convert]::FromBase64String('"
    ++ (texts.to_base64 value ++ codes "'))")

-- value.replaceAll("'", "'\\''")
unfoldable pub escape_quotes : Text → Text
escape_quotes [] = []
escape_quotes (c ∷ cs) =
    let rest = escape_quotes cs in
    if c == b'\'' then b'\'' ∷ b'\\' ∷ b'\'' ∷ b'\'' ∷ rest else c ∷ rest

unfoldable pub quote_posix_literal : Text → Text
quote_posix_literal value = b'\'' ∷ (escape_quotes value ++ b'\'' ∷ [])

unfoldable pub windows_variable : Texts → Text × Text → Text
windows_variable texts entry =
    codes "try{[System.Environment]::SetEnvironmentVariable("
    ++ (powershell_utf8_expression texts entry.0
        ++ (codes ","
            ++ (powershell_utf8_expression texts entry.1
                ++ codes
                    ",[System.EnvironmentVariableTarget]::Process)}catch{[Console]::Error.WriteLine('Remote environment setup failed.');exit 1}")))

unfoldable pub windows_cwd : Texts → Option Text → List Text
windows_cwd texts none = []
windows_cwd texts (some cwd) =
    (codes "try{Set-Location -LiteralPath ("
      ++ (powershell_utf8_expression texts cwd
          ++ codes
              ") -ErrorAction Stop}catch{[Console]::Error.WriteLine('Remote working directory is unavailable.');exit 1}"))
    ∷ []

unfoldable pub prepare_windows_context : Texts → Option Text → Environment → List Text
prepare_windows_context texts cwd [] = windows_cwd texts cwd
prepare_windows_context texts cwd (entry ∷ rest) =
    windows_variable texts entry ∷ prepare_windows_context texts cwd rest

-- A wrapper of statements, with the line break at its end.
abbrev pub prepared_windows : List Text → PreparedRemoteCommand
prepared_windows statements = record {
  command = codes windows_powershell_remote_command;
  stdin = some (ascii (join_with (codes ";") statements ++ codes "\n"));
}

-- const commandText
unfoldable pub powershell_text : Text → Text
powershell_text script = script ++ (codes "\n\n" ++ windows_completion)

unfoldable pub powershell_statements : Texts → Text → List Text → List Text
powershell_statements texts script context =
    windows_utf8_setup
    ++ (context
        ++ ((codes "$agentSshCommandText="
              ++ powershell_utf8_expression texts (powershell_text script))
            ∷ codes
                "try{$agentSshScript=[ScriptBlock]::Create($agentSshCommandText)}catch{[Console]::Error.WriteLine('PowerShell command parsing failed.');exit 1}"
            ∷ codes
                "try{& $agentSshScript 2>&1|ForEach-Object{if($_ -is [System.Management.Automation.ErrorRecord]){[Console]::Error.WriteLine($_.Exception.Message)}else{$_}}}catch{[Console]::Error.WriteLine($_.Exception.Message);exit 1}"
            ∷ []))

unfoldable pub prepare_windows_powershell_script : Texts → Text → List Text → PreparedRemoteCommand
prepare_windows_powershell_script texts script context =
    prepared_windows (powershell_statements texts script context)

-- const batchText
unfoldable pub batch_text : Text → Text
batch_text script =
    join_with (codes "\r\n") (codes "@echo off" ∷ codes "chcp 65001 >nul" ∷ script ∷ [])

abbrev pub cmd_front : List Text
cmd_front =
    codes "$agentSshCmdExecutable=[System.IO.Path]::Combine($env:SystemRoot,'System32','cmd.exe')"
    ∷ codes "$agentSshTempDirectory=[System.IO.Path]::GetTempPath()"
    ∷ []

abbrev pub cmd_back : List Text
cmd_back =
    codes
      "$agentSshBatchPath=[System.IO.Path]::Combine($agentSshTempDirectory,('agent-ssh-'+[System.Guid]::NewGuid().ToString('N')+'.cmd'))"
    ∷ codes "$agentSshBatchExitCode=1"
    ∷ codes
        "try{$agentSshBatchBytes=$agentSshUtf8.GetBytes($agentSshBatchText);$agentSshBatchStream=[System.IO.File]::Open($agentSshBatchPath,[System.IO.FileMode]::CreateNew,[System.IO.FileAccess]::Write,[System.IO.FileShare]::None);try{$agentSshBatchStream.Write($agentSshBatchBytes,0,$agentSshBatchBytes.Length)}finally{$agentSshBatchStream.Dispose()};& $agentSshCmdExecutable '/d' '/q' '/s' '/c' ('call \"'+$agentSshBatchPath+'\"');if($global:LASTEXITCODE -is [int]){$agentSshBatchExitCode=$global:LASTEXITCODE}}catch{[Console]::Error.WriteLine('Command Prompt execution failed.');$agentSshBatchExitCode=1}finally{try{[System.IO.File]::Delete($agentSshBatchPath)}catch{}}"
    ∷ codes "exit $agentSshBatchExitCode"
    ∷ []

unfoldable pub cmd_statements : Texts → Text → List Text → List Text
cmd_statements texts script context =
    windows_utf8_setup
    ++ (cmd_front
        ++ (context
            ++ ((codes "$agentSshBatchText="
                  ++ powershell_utf8_expression texts (batch_text script))
                ∷ cmd_back)))

unfoldable pub prepare_windows_cmd_script :
    Texts → StructuredRemoteCommandInput → Environment → PreparedRemoteCommand
prepare_windows_cmd_script texts input environment =
    prepared_windows
      (cmd_statements texts input.script (prepare_windows_context texts input.cwd environment))

unfoldable pub posix_variable : Text × Text → Text
posix_variable entry =
    codes "if ! export "
    ++ (entry.0
        ++ (codes "="
            ++ (quote_posix_literal entry.1
                ++ codes
                    " 2>/dev/null; then printf '%s\\n' 'Remote environment setup failed.' >&2; exit 1; fi")))

unfoldable pub posix_cwd : Option Text → List Text
posix_cwd none = []
posix_cwd (some cwd) =
    (codes "if ! cd -- "
      ++ (quote_posix_literal cwd
          ++ codes
              " 2>/dev/null; then printf '%s\\n' 'Remote working directory is unavailable.' >&2; exit 1; fi"))
    ∷ []

-- The prelude.
unfoldable pub posix_prelude : Option Text → Environment → List Text
posix_prelude cwd [] = posix_cwd cwd
posix_prelude cwd (entry ∷ rest) = posix_variable entry ∷ posix_prelude cwd rest

unfoldable pub prepare_posix_bash_script :
    StructuredRemoteCommandInput → Environment → PreparedRemoteCommand
prepare_posix_bash_script input environment = record {
  command = codes posix_bash_remote_command;
  stdin = some (
      utf8
        (join_with (codes "\n") (posix_prelude input.cwd environment ++ input.script ∷ [] ∷ [])));
}

-- switch (input.shell)
unfoldable pub render_shell :
    Texts
    → StructuredRemoteShell
    → StructuredRemoteCommandInput
    → Environment
    → PreparedRemoteCommand
render_shell texts powershell input environment =
    prepare_windows_powershell_script texts input.script
      (prepare_windows_context texts input.cwd environment)
render_shell texts cmd input environment = prepare_windows_cmd_script texts input environment
render_shell texts bash input environment = prepare_posix_bash_script input environment

unfoldable pub prepare_structured_remote_command :
    Texts → TargetPlatform → StructuredRemoteCommandInput → Result PreparedRemoteCommand
prepare_structured_remote_command texts platform input = do
  environment ← validate_structured_input texts platform input
  ok (render_shell texts input.shell input environment)

abbrev pub is_windows : TargetPlatform → Bool
is_windows windows = true
is_windows linux = false
is_windows macos = false

unfoldable pub prepare_remote_command : Texts → TargetPlatform → Text → Result PreparedRemoteCommand
prepare_remote_command texts platform command =
    if is_windows platform
    then (require (leb (byte_length command) max_command_bytes) (
          gateway (
            gateway_error invalid_params "Command is too long for a Windows target"
              (some (("maximumCommandBytes", number max_command_bytes) ∷ []))))
        >> ok (prepare_windows_powershell_script texts command []))
    else ok (record { command = command; stdin = none })
