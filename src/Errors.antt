-- ===== src/Errors.antt =====
-- src/shared/errors.ts: gateway errors, their JSON-RPC codes and what crosses the IPC boundary.
-- A raised value is a `Failure`: a `GatewayError`, or an error of JavaScript's own (`RangeError`,
-- `Error`), of which only the message is kept. All JSON-RPC codes of the program are negative.
use enhanced_ssh.Prelude.{ℕ, Bool, String, List, Option, none}

pub data RpcCode : Type 0 where
  minus : ℕ → RpcCode

pub data GatewayErrorCode : Type 0 where
  invalid_params unauthorized protocol_version_mismatch config_invalid : GatewayErrorCode
  daemon_not_active target_not_found target_disabled command_denied : GatewayErrorCode
  execution_not_found execution_limit_reached transfer_denied transfer_failed : GatewayErrorCode
  checksum_mismatch sftp_unavailable probe_failed output_not_found : GatewayErrorCode
  output_expired audit_unavailable internal_error : GatewayErrorCode

unfoldable pub rpc_code_of : GatewayErrorCode → RpcCode
rpc_code_of invalid_params = minus 32602
rpc_code_of unauthorized = minus 32001
rpc_code_of protocol_version_mismatch = minus 32002
rpc_code_of config_invalid = minus 32010
rpc_code_of daemon_not_active = minus 32011
rpc_code_of target_not_found = minus 32020
rpc_code_of target_disabled = minus 32021
rpc_code_of command_denied = minus 32022
rpc_code_of execution_not_found = minus 32030
rpc_code_of execution_limit_reached = minus 32031
rpc_code_of transfer_denied = minus 32032
rpc_code_of transfer_failed = minus 32033
rpc_code_of checksum_mismatch = minus 32034
rpc_code_of sftp_unavailable = minus 32035
rpc_code_of probe_failed = minus 32036
rpc_code_of output_not_found = minus 32040
rpc_code_of output_expired = minus 32041
rpc_code_of audit_unavailable = minus 32050
rpc_code_of internal_error = minus 32603

-- The values of the `details` record: string, number, boolean or null.
pub data Detail : Type 0 where
  text : String → Detail
  number : ℕ → Detail
  flag : Bool → Detail
  null : Detail

pub record GatewayError : Type 0 where
  pub code : GatewayErrorCode
  pub message : String
  pub rpc_code : RpcCode
  pub details : Option (List (String × Detail))

-- new GatewayError(code, message, { details }), with the default rpcCode.
unfoldable pub gateway_error :
    GatewayErrorCode → String → Option (List (String × Detail)) → GatewayError
unfolding rpc_code_of
gateway_error code message details = record {
  code = code;
  message = message;
  rpc_code = rpc_code_of code;
  details = details;
}

pub data Failure : Type 0 where
  gateway : GatewayError → Failure
  range_error : String → Failure
  other_error : String → Failure

abbrev pub raise_gateway : GatewayErrorCode → String → Failure
raise_gateway code message = gateway (gateway_error code message none)

pub record PublicErrorDescriptor : Type 0 where
  pub code : RpcCode
  pub message : String
  pub gateway_code : GatewayErrorCode
  pub details : Option (List (String × Detail))

abbrev internal_descriptor : PublicErrorDescriptor
internal_descriptor = record {
  code = minus 32603;
  message = "Internal gateway error";
  gateway_code = internal_error;
  details = none;
}

unfoldable pub to_public_error : Failure → PublicErrorDescriptor
to_public_error (gateway e) = record {
  code = e.rpc_code;
  message = e.message;
  gateway_code = e.code;
  details = e.details;
}
to_public_error (range_error m) = internal_descriptor
to_public_error (other_error m) = internal_descriptor
