-- ===== src/Tests/Approvals.antt =====
-- Approval decisions of src/codex_agent_sdk/approvals.py and client.py at concrete requests.
use codex_python_sdk_unoffic.Common.{
  String, some, List, [], ◌∷◌, ◌≡◌, refl, mem, string_eq, IsDistinct,
}
use codex_python_sdk_unoffic.Common.Dict
use codex_python_sdk_unoffic.Json.{Json, fields}
use codex_python_sdk_unoffic.Rpc.Envelope.{id_eq}
use codex_python_sdk_unoffic.Rpc.Connection.{JsonRpcConnection, new_connection}
use codex_python_sdk_unoffic.Approvals.{normalize_available_decisions, or_default}
use codex_python_sdk_unoffic.Approvals.Names.{names, dedup, normalize_available_decisions_lem}
use codex_python_sdk_unoffic.Tests.Requests.{busy}
use codex_python_sdk_unoffic.Tests.Notifications.{watched}
use codex_python_sdk_unoffic.Tests.ServerRequests.{waiting}

abbrev offered : List Json
offered =
    Json.text "accept"
    ∷ Json.object (fields (("acceptWithExecpolicyAmendment", Json.null) ∷ []))
    ∷ Json.null
    ∷ Json.text "accept"
    ∷ []

offers :
    normalize_available_decisions (some offered) []
    ≡ "accept" ∷ "acceptWithExecpolicyAmendment" ∷ []
unfolding normalize_available_decisions mem
offers = refl

normalize_available_decisions_lem_example :
    (normalize_available_decisions (some offered) ("cancel" ∷ [])
      ≡ or_default (dedup (names offered)) ("cancel" ∷ []))
    × ((x : String) → mem x (dedup (names offered)) ≡ mem x (names offered))
    × IsDistinct (dedup (names offered))
normalize_available_decisions_lem_example =
    normalize_available_decisions_lem offered ("cancel" ∷ [])

abbrev asking : JsonRpcConnection
asking = new_connection busy watched waiting
