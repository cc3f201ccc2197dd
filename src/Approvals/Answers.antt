-- ===== src/Approvals/Answers.antt =====
-- src/codex_agent_sdk/client.py: a decision of the approval handler, sent once.
use codex_python_sdk_unoffic.Common.Dict
use codex_python_sdk_unoffic.Json.{Json}
use codex_python_sdk_unoffic.Rpc.Envelope.{JsonRpcId, id_eq}
use codex_python_sdk_unoffic.Rpc.Requests.{JsonRpcResponse, success}
use codex_python_sdk_unoffic.Approvals.{ApprovalDecision, as_wire_result}

abbrev pub wire_answer : JsonRpcId → ApprovalDecision → JsonRpcResponse
wire_answer i d = success (record { id = i; result = as_wire_result d })
