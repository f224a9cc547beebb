-- ===== src/Mqtt/KitRpc/Client.antt =====
-- astroplant-mqtt/src/kit_rpc.rs: what a caller of `KitsRpc` makes of the answer in its channel,
-- which is none if the sender was dropped.
use astroplant_api.Prelude.{ℕ, Text, Bool, Option, none, some, Result, ok, err}
use astroplant_api.Mqtt.KitRpc.{
  RpcError, PeripheralCommandResponse, version_is, uptime_is, command_gave, lock_is, failed_with,
  Answer,
}

pub data KitRpcResponseError : Type 0 where
  timed_out malformed_response invalid_response : KitRpcResponseError
  rpc_error : RpcError → KitRpcResponseError

abbrev pub Outcome : Type 0 → Type 0
Outcome A = Result KitRpcResponseError A

-- KitsRpc::version
unfoldable pub version_outcome : Option Answer → Outcome Text
version_outcome none = err timed_out
version_outcome (some (err _)) = err malformed_response
version_outcome (some (ok (version_is v))) = ok v
version_outcome (some (ok (failed_with e))) = err (rpc_error e)
version_outcome (some (ok _)) = err invalid_response

-- KitsRpc::uptime
unfoldable pub uptime_outcome : Option Answer → Outcome ℕ
uptime_outcome none = err timed_out
uptime_outcome (some (err _)) = err malformed_response
uptime_outcome (some (ok (uptime_is v))) = ok v
uptime_outcome (some (ok (failed_with e))) = err (rpc_error e)
uptime_outcome (some (ok _)) = err invalid_response

-- KitsRpc::peripheral_command
unfoldable pub command_outcome : Option Answer → Outcome PeripheralCommandResponse
command_outcome none = err timed_out
command_outcome (some (err _)) = err malformed_response
command_outcome (some (ok (command_gave v))) = ok v
command_outcome (some (ok (failed_with e))) = err (rpc_error e)
command_outcome (some (ok _)) = err invalid_response

-- KitsRpc::peripheral_command_lock
unfoldable pub lock_outcome : Option Answer → Outcome Bool
lock_outcome none = err timed_out
lock_outcome (some (err _)) = err malformed_response
lock_outcome (some (ok (lock_is v))) = ok v
lock_outcome (some (ok (failed_with e))) = err (rpc_error e)
lock_outcome (some (ok _)) = err invalid_response
