-- ===== src/RemoteCommand/Refusal.antt =====
-- How a structured command is refused.
use enhanced_ssh.Prelude.{
  Bool, true, false, not, ◌&&◌, String, List, [], ◌∷◌, Option, none, some, ◌≡◌, refl, subst, arith,
  leb,
}
use enhanced_ssh.Errors.{
  Failure, GatewayError, gateway, gateway_error, Detail, text, number, invalid_params, minus,
  rpc_code_of,
}
use enhanced_ssh.Result.{Result, ok, err, require, ◌>>◌, ◌>>=◌}
use enhanced_ssh.TargetRegistry.Types.{TargetPlatform}
use enhanced_ssh.TargetRegistry.Authorize.{max_command_bytes}
use enhanced_ssh.RemoteCommand.Validate.{
  Text, Environment, Texts, is_bash, is_supported, platform_text, shell_text, has_nul, cwd_fits,
  payload_bytes, StructuredRemoteCommandInput, invalid_structured_command, check_entries,
  validate_environment, validate_structured_input,
}
use enhanced_ssh.RemoteCommand.Render.{prepare_structured_remote_command}

-- A gateway error of invalid parameters, with the code -32602 of JSON-RPC.
pub record Invalid (failure : Failure) : Type 0 where
  pub error : GatewayError
  pub is_gateway : failure ≡ gateway error
  pub code_is : error.code ≡ invalid_params
  pub rpc_code_is : error.rpc_code ≡ minus 32602

-- A computation that fails in no other way.
data OnlyInvalid {A : Type 0} : Result A → Type 0 where
  fine : {a : A} → OnlyInvalid (ok a)
  refused : {failure : Failure} → Invalid failure → OnlyInvalid (err failure)

module _ {A : Type 0} where
  only-require :
      (test : Bool) (failure : Failure) (rest : Result A)
      → Invalid failure
      → OnlyInvalid rest
      → OnlyInvalid (require test failure >> rest)
  only-require false failure rest h k = refused h
  only-require true failure rest h k = k

  only-bind :
      {B : Type 0} (step : Result A) (next : A → Result B)
      → OnlyInvalid step
      → ((a : A) → OnlyInvalid (next a))
      → OnlyInvalid (step >>= next)
  only-bind (ok a) next h k = k a
  only-bind (err failure) next (refused h) k = refused h

  only-then :
      (first : Result (Unit {0})) (rest : Result A)
      → OnlyInvalid first
      → OnlyInvalid rest
      → OnlyInvalid (first >> rest)
  only-then (ok tt) rest h k = k
  only-then (err failure) rest (refused h) k = refused h

  only-err : (r : Result A) (failure : Failure) → OnlyInvalid r → r ≡ err failure → Invalid failure
  only-err (ok a) failure h e = absurd (ground arith)
  only-err (err x) failure (refused h) e = subst (λ f. Invalid f) {x = x} (ground arith) h

stated :
    (message : String) (details : Option (List (String × Detail)))
    → Invalid (invalid_structured_command message details)
unfolding gateway_error rpc_code_of
stated message details = record {
  error = gateway_error invalid_params message details;
  is_gateway = refl;
  code_is = refl;
  rpc_code_is = refl;
}

check_entries-OnlyInvalid :
    (texts : Texts) (ignore_case : Bool) (entries : Environment) (names : List Text)
    → OnlyInvalid (check_entries texts ignore_case entries names)
unfolding check_entries
check_entries-OnlyInvalid texts ignore_case [] names = fine
check_entries-OnlyInvalid texts ignore_case ((name, value) ∷ entries) names =
    only-require _ _ _ (stated _ _) (check_entries-OnlyInvalid texts ignore_case entries _)

validate_environment-OnlyInvalid :
    (texts : Texts) (env : Option Environment) (ignore_case : Bool)
    → OnlyInvalid (validate_environment texts env ignore_case)
unfolding validate_environment
validate_environment-OnlyInvalid texts none ignore_case = fine
validate_environment-OnlyInvalid texts (some entries) ignore_case =
    only-require _ _ _ (stated _ _) (
      only-then (check_entries texts ignore_case entries []) _
        (check_entries-OnlyInvalid texts ignore_case entries []) fine)

validate_structured_input-OnlyInvalid :
    (texts : Texts) (platform : TargetPlatform) (input : StructuredRemoteCommandInput)
    → OnlyInvalid (validate_structured_input texts platform input)
unfolding validate_structured_input
validate_structured_input-OnlyInvalid texts platform input =
    only-require (is_supported platform input.shell) _ _
      (stated "Shell is not supported for the target platform" (
        some (
          ("platform", text (platform_text platform))
          ∷ ("shell", text (shell_text input.shell))
          ∷ [])))
      (only-require (not (texts.is_blank input.script) && not (has_nul input.script)) _ _
        (stated "Structured script is invalid" none)
        (only-require (cwd_fits texts input.cwd) _ _
          (stated "Remote working directory is invalid" none)
          (only-bind (validate_environment texts input.env (not (is_bash input.shell))) _
            (validate_environment-OnlyInvalid texts input.env (not (is_bash input.shell)))
            (λ environment.
              only-require (leb (payload_bytes input environment) max_command_bytes) _
                (ok environment)
                (stated "Structured command payload is too large"
                  (some (("maximumPayloadBytes", number max_command_bytes) ∷ [])))
                fine))))

-- A structured command that is refused, for whichever reason, is refused as invalid parameters, with
-- the code -32602, and with no other failure.
pub prepare_structured_remote_command-Invalid :
    (texts : Texts) (platform : TargetPlatform) (input : StructuredRemoteCommandInput)
    (failure : Failure)
    → prepare_structured_remote_command texts platform input ≡ err failure
    → Invalid failure
unfolding prepare_structured_remote_command
prepare_structured_remote_command-Invalid texts platform input failure e =
    only-err _ failure
      (only-bind (validate_structured_input texts platform input) _
        (validate_structured_input-OnlyInvalid texts platform input) (λ environment. fine))
      e
