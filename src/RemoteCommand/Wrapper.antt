-- ===== src/RemoteCommand/Wrapper.antt =====
-- What a Windows target is given to read.
use enhanced_ssh.Prelude.{
  ℕ, Bool, true, false, ◌&&◌, ◌||◌, List, [], ◌∷◌, ◌++◌, Option, none, some, ◌≡◌, refl, sym, subst,
  arith, leb, ◌==◌, all, codes, is_alphanumeric,
}
use enhanced_ssh.Result.{ok, bind-ok, require-ok, ok-injective}
use enhanced_ssh.TargetRegistry.Types.{windows}
use enhanced_ssh.RemoteCommand.Validate.{
  Text, Environment, Texts, StructuredRemoteShell, powershell, cmd, bash,
  StructuredRemoteCommandInput, validate_structured_input, is_bash, is_supported,
}
use enhanced_ssh.RemoteCommand.Render.{
  ascii, PreparedRemoteCommand, windows_powershell_remote_command, join_with, windows_utf8_setup,
  powershell_utf8_expression, windows_variable, windows_cwd, prepare_windows_context,
  powershell_text, powershell_statements, batch_text, cmd_front, cmd_statements,
  prepare_windows_powershell_script, prepare_windows_cmd_script, render_shell,
  prepare_structured_remote_command,
}

-- A printable ASCII character.
abbrev pub is_printable : ℕ → Bool
is_printable c = leb 0x20 c && leb c 0x7e

-- [A-Za-z0-9+/=]
abbrev pub is_base64_character : ℕ → Bool
is_base64_character c = is_alphanumeric c || (c == b'+' || (c == b'/' || c == b'='))

all-append : (p : ℕ → Bool) (xs ys : Text) → all p (xs ++ ys) ≡ (all p xs && all p ys)
all-append p [] ys = refl
all-append p (x ∷ xs) ys = ground (arith, all-append p xs ys)

is_base64-printable : (c : ℕ) → is_base64_character c ≡ true → is_printable c ≡ true
is_base64-printable c h = grind arith

all-base64_printable : (xs : Text) → all is_base64_character xs ≡ true → all is_printable xs ≡ true
all-base64_printable [] h = refl
all-base64_printable (x ∷ xs) h = ground (arith, all-base64_printable xs, is_base64-printable x)

record Printable (value : Text) : Type 0 where
  holds : all is_printable value ≡ true

record PrintableLines (lines : List Text) : Type 0 where
  each : all (λ line. all is_printable line) lines ≡ true

glue : {xs ys : Text} → Printable xs → Printable ys → Printable (xs ++ ys)
glue {xs = xs} {ys = ys} h k = record {
  holds = ground (arith, all-append is_printable xs ys, h.holds, k.holds);
}

front :
    {line : Text} {lines : List Text}
    → Printable line
    → PrintableLines lines
    → PrintableLines (line ∷ lines)
front h k = record { each = ground (arith, h.holds, k.each) }

lines-append :
    (xs : List Text) {ys : List Text}
    → PrintableLines xs
    → PrintableLines ys
    → PrintableLines (xs ++ ys)
lines-append [] h k = k
lines-append (x ∷ xs) h k =
    front (record { holds = ground (arith, h.each) })
      (lines-append xs (record { each = ground (arith, h.each) }) k)

join-Printable :
    (lines : List Text) → PrintableLines lines → Printable (join_with (codes ";") lines)
unfolding join_with
join-Printable [] h = record { holds = refl }
join-Printable (line ∷ []) h = record { holds = ground (arith, h.each) }
join-Printable (line ∷ next ∷ lines) h =
    glue (record { holds = ground (arith, h.each) })
      (glue {xs = codes ";"} (record { holds = refl })
        (join-Printable (next ∷ lines) (record { each = ground (arith, h.each) })))

fixed_text : (text : Text) → all is_printable text ≡ true → Printable text
fixed_text text h = record { holds = h }

-- One line of printable ASCII characters, given to the fixed entry point.
pub record OneLine (prepared : PreparedRemoteCommand) : Type 0 where
  pub fixed : prepared.command ≡ codes windows_powershell_remote_command
  pub line : Text
  pub given : prepared.stdin ≡ some (ascii (line ++ codes "\n"))
  pub printable : all is_printable line ≡ true

windows-supports :
    (texts : Texts) (input : StructuredRemoteCommandInput) (environment : Environment)
    → validate_structured_input texts windows input ≡ ok environment
    → is_bash input.shell ≡ false
unfolding validate_structured_input
windows-supports texts input environment e =
    let (supported, s1) = require-ok (is_supported windows input.shell) _ _ e in
    not_bash input.shell supported
  where
    not_bash :
        (shell : StructuredRemoteShell) → is_supported windows shell ≡ true → is_bash shell ≡ false
    not_bash powershell h = refl
    not_bash cmd h = refl
    not_bash bash h = absurd (ground arith)

module _ (texts : Texts)
    (base64_alphabet : (value : Text)
      → all is_base64_character (texts.to_base64 value) ≡ true) where
  expression-Printable : (value : Text) → Printable (powershell_utf8_expression texts value)
  unfolding powershell_utf8_expression
  expression-Printable value =
      glue
        (fixed_text (codes "[System.Text.Encoding]::UTF8.GetString([Convert]::FromBase64String('")
          refl)
        (glue
          (fixed_text (texts.to_base64 value)
            (all-base64_printable (texts.to_base64 value) (base64_alphabet value)))
          (fixed_text (codes "'))") refl))

  variable-Printable : (entry : Text × Text) → Printable (windows_variable texts entry)
  unfolding windows_variable
  variable-Printable (name, value) =
      glue (fixed_text (codes "try{[System.Environment]::SetEnvironmentVariable(") refl) (
        glue (expression-Printable name) (
          glue (fixed_text (codes ",") refl)
            (glue (expression-Printable value) (fixed_text _ refl))))

  context-PrintableLines :
      (cwd : Option Text) (environment : Environment)
      → PrintableLines (prepare_windows_context texts cwd environment)
  unfolding prepare_windows_context windows_cwd
  context-PrintableLines none [] = record { each = refl }
  context-PrintableLines (some cwd) [] =
      front
        (glue (fixed_text (codes "try{Set-Location -LiteralPath (") refl)
          (glue (expression-Printable cwd) (fixed_text _ refl)))
        (record { each = refl })
  context-PrintableLines cwd (entry ∷ rest) =
      front (variable-Printable entry) (context-PrintableLines cwd rest)

  powershell-PrintableLines :
      (script : Text) (context : List Text)
      → PrintableLines context
      → PrintableLines (powershell_statements texts script context)
  unfolding powershell_statements
  powershell-PrintableLines script context h =
      lines-append windows_utf8_setup (record { each = refl })
        (lines-append context h (
          front
            (glue (fixed_text (codes "$agentSshCommandText=") refl)
              (expression-Printable (powershell_text script)))
            (record { each = refl })))

  cmd-PrintableLines :
      (script : Text) (context : List Text)
      → PrintableLines context
      → PrintableLines (cmd_statements texts script context)
  unfolding cmd_statements
  cmd-PrintableLines script context h =
      lines-append windows_utf8_setup (record { each = refl })
        (lines-append cmd_front (record { each = refl })
          (lines-append context h (
            front
              (glue (fixed_text (codes "$agentSshBatchText=") refl)
                (expression-Printable (batch_text script)))
              (record { each = refl }))))

  -- When base64 uses its alphabet only, a Windows target is given one line of printable ASCII
  -- characters, ended by a line break, on the input of the fixed command: neither the script nor the
  -- working directory nor the environment, whatever they hold, breaks the line or reaches the command.
  pub prepare_structured_remote_command-OneLine :
      (input : StructuredRemoteCommandInput) (prepared : PreparedRemoteCommand)
      → prepare_structured_remote_command texts windows input ≡ ok prepared
      → OneLine prepared
  unfolding prepare_structured_remote_command render_shell prepare_windows_powershell_script
      prepare_windows_cmd_script
  prepare_structured_remote_command-OneLine input prepared e =
      let (environment, valid, s1) =
        bind-ok (validate_structured_input texts windows input) _ (sym e) in
      subst OneLine (ok-injective (sym s1))
        (shell_line input.shell environment (windows-supports texts input environment valid))
    where
      shell_line :
          (shell : StructuredRemoteShell) (environment : Environment)
          → is_bash shell ≡ false
          → OneLine (render_shell texts shell input environment)
      shell_line powershell environment h = record {
        fixed = refl;
        line = join_with (codes ";") (
            powershell_statements texts input.script
              (prepare_windows_context texts input.cwd environment));
        given = refl;
        printable =
            (join-Printable _ (
              powershell-PrintableLines input.script _
                (context-PrintableLines input.cwd environment))).holds;
      }
      shell_line cmd environment h = record {
        fixed = refl;
        line = join_with (codes ";") (
            cmd_statements texts input.script
              (prepare_windows_context texts input.cwd environment));
        given = refl;
        printable =
            (join-Printable _ (
              cmd-PrintableLines input.script _
                (context-PrintableLines input.cwd environment))).holds;
      }
      shell_line bash environment h = absurd (ground arith)
