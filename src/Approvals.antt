-- ===== src/Approvals.antt =====
-- src/codex_agent_sdk/approvals.py: approval decisions and what a request offers; and of
-- src/codex_agent_sdk/client.py what `AppServerClient` does with them.
--
-- The pydantic models of the requests enter as what the code asks of them. A decision on the wire is
-- a text or an object, so it is a JSON value here.
pub mod Names
pub mod Answers
use codex_python_sdk_unoffic.Common.{
  String, Bool, true, false, Option, none, some, List, [], ◌∷◌, ◌++◌, string_eq, mem, if◌then◌else◌,
}
use codex_python_sdk_unoffic.Json.{Json, Items, Fields, as_text, field_or_null, fields}
use codex_python_sdk_unoffic.Rpc.Envelope.{JsonRpcId}
use codex_python_sdk_unoffic.Rpc.Requests.{
  RpcException, server_request_already_responded, unknown_server_request_id, Outcome, returned,
  raised, JsonRpcResponse,
}
use codex_python_sdk_unoffic.Rpc.ServerRequests.{HandlerOutcome, not_handled}
use codex_python_sdk_unoffic.Rpc.Connection.{JsonRpcConnection, respond_server_request}
use codex_python_sdk_unoffic.Client.Handshake.{AppServerClient, ClientError, require_initialized}

-- `_normalize_available_decision_name`; the keys of a JSON object are texts
unfoldable pub normalize_available_decision_name : Json → Option String
normalize_available_decision_name (Json.text s) = some s
normalize_available_decision_name (Json.object (Fields.field k v Fields.end)) = some k
normalize_available_decision_name _ = none

-- the loop of `_normalize_available_decisions`, from the names that were seen
unfoldable pub normalize_from : List String → List Json → List String
unfolding normalize_available_decision_name
normalize_from seen [] = []
normalize_from seen (v ∷ vs) = elim (normalize_available_decision_name v) [
  | none ↦ normalize_from seen vs
  | some name ↦
      let skipped = normalize_from seen vs in
      let added = normalize_from (name ∷ seen) vs in if mem name seen then skipped else name ∷ added
]

abbrev pub or_default : List String → List String → List String
or_default [] default = default
or_default (name ∷ names) default = name ∷ names

unfoldable pub normalize_available_decisions : Option (List Json) → List String → List String
unfolding normalize_from
normalize_available_decisions none default = default
normalize_available_decisions (some raw_values) default =
    or_default (normalize_from [] raw_values) default

-- whether the request proposes amendments
unfoldable pub default_command_available_decisions : Bool → Bool → List String
default_command_available_decisions execpolicy network_policy =
    ("accept" ∷ "acceptForSession" ∷ [])
    ++ (if execpolicy then "acceptWithExecpolicyAmendment" ∷ [] else [])
    ++ (if network_policy then "applyNetworkPolicyAmendment" ∷ [] else [])
    ++ "decline" ∷ "cancel" ∷ []

-- `permissions` is the payload of the `ApprovalPermissions`
pub record ApprovalDecision : Type 0 where
  pub decision : Option Json
  pub permissions : Option Fields
  pub scope : Option String
  pub reason : Option String

-- `__post_init__`: the text of the `ValueError` it raises
unfoldable pub post_init : ApprovalDecision → Option String
post_init d = elim d.permissions [
  | none ↦ elim d.decision [
    | none ↦ some "approval decisions must include either decision or permissions"
    | some _ ↦ elim d.scope [
      | none ↦ none
      | some _ ↦ some "approval decision scope requires permissions to be present"
    ]
  ]
  | some _ ↦ elim d.decision [
    | none ↦ none
    | some _ ↦ some "approval decisions cannot include both decision and permissions"
  ]
]

abbrev pub or_none : Option Json → Json
or_none none = Json.null
or_none (some v) = v

abbrev pub text_field : String → Option String → List (String × Json)
text_field key none = []
text_field key (some s) = (key, Json.text s) ∷ []

unfoldable pub as_wire_result : ApprovalDecision → Json
as_wire_result d = elim d.permissions [
  | some payload ↦
      Json.object (fields (("permissions", Json.object payload) ∷ text_field "scope" d.scope))
  | none ↦ Json.object (fields (("decision", or_none d.decision) ∷ text_field "reason" d.reason))
]

abbrev pub of_name : String → ApprovalDecision
of_name name = record {
  decision = some (Json.text name);
  permissions = none;
  scope = none;
  reason = none;
}

abbrev pub accept : ApprovalDecision
accept = of_name "accept"

abbrev pub accept_for_session : ApprovalDecision
accept_for_session = of_name "acceptForSession"

abbrev pub decline : ApprovalDecision
decline = of_name "decline"

abbrev pub cancel : ApprovalDecision
cancel = of_name "cancel"

unfoldable pub grant_permissions : Fields → Option String → ApprovalDecision
grant_permissions payload scope = record {
  decision = none;
  permissions = some payload;
  scope = scope;
  reason = none;
}

pub record ApprovalCommandAction : Type 0 where
  pub kind : String
  pub command : String
  pub name : Option String
  pub path : Option String
  pub query : Option String
  pub payload : Fields

infixl 5 ◌>>=◌
abbrev ◌>>=◌ : {A B : Type 0} → Option A → (A → Option B) → Option B
none >>= f = none
some a >>= f = f a

-- the dumped action; `none` for a `TypeError`
unfoldable pub adapt_command_action : Json → Option ApprovalCommandAction
adapt_command_action (Json.object payload) = do
  kind ← as_text (field_or_null "type" payload)
  command ← as_text (field_or_null "command" payload)
  some (record {
    kind = kind;
    command = command;
    name = as_text (field_or_null "name" payload);
    path = as_text (field_or_null "path" payload);
    query = as_text (field_or_null "query" payload);
    payload = payload;
  })
adapt_command_action _ = none

pub record ApprovalFileChange : Type 0 where
  pub path : String
  pub kind : String
  pub diff : String
  pub payload : Fields

unfoldable pub adapt_file_change : Json → Option ApprovalFileChange
adapt_file_change (Json.object payload) = do
  path ← as_text (field_or_null "path" payload)
  kind ← as_text (field_or_null "kind" payload)
  diff ← as_text (field_or_null "diff" payload)
  some (record { path = path; kind = kind; diff = diff; payload = payload })
adapt_file_change _ = none

abbrev pub consider : Option ApprovalFileChange → List ApprovalFileChange → List ApprovalFileChange
consider none changes = changes
consider (some change) changes = change ∷ changes

unfoldable pub adapt_file_changes : Items → List ApprovalFileChange
unfolding adapt_file_change
adapt_file_changes Items.nil = []
adapt_file_changes (Items.cons v vs) = consider (adapt_file_change v) (adapt_file_changes vs)

-- `payload.get("changes")`, if it is a list
unfoldable pub changes_of : Fields → List ApprovalFileChange
unfolding adapt_file_changes
changes_of payload = elim (field_or_null "changes" payload) [
  | Json.array items ↦ adapt_file_changes items
  | _ ↦ []
]

-- how the application's approval handler ends
pub data CallbackOutcome : Type 0 where
  decides : ApprovalDecision → CallbackOutcome
  decides_nothing : CallbackOutcome
  returns_other : CallbackOutcome
  raises : CallbackOutcome
  task_cancelled : CallbackOutcome

unfoldable pub after_callback : CallbackOutcome → HandlerOutcome
after_callback (decides d) = HandlerOutcome.result (as_wire_result d)
after_callback decides_nothing = not_handled
after_callback returns_other = not_handled
after_callback raises = not_handled
after_callback task_cancelled = HandlerOutcome.task_cancelled

-- `_handle_approval_request`: whether the request is for an approval, and what the handler does,
-- if one is set
unfoldable pub handle_approval_request : Bool → Option CallbackOutcome → HandlerOutcome
unfolding after_callback
handle_approval_request is_approval none = not_handled
handle_approval_request is_approval (some outcome) =
    if is_approval then after_callback outcome else not_handled

pub data ApprovalAnswer : Type 0 where
  answered : ApprovalAnswer
  refused : ClientError → ApprovalAnswer
  expired : JsonRpcId → ApprovalAnswer
  failed : RpcException → ApprovalAnswer

-- `except (UnknownServerRequestIdError, ServerRequestAlreadyRespondedError)`
unfoldable pub expire : JsonRpcId → Outcome (Unit {0}) → ApprovalAnswer
expire i (returned u) = answered
expire i (raised (server_request_already_responded j m)) = expired i
expire i (raised (unknown_server_request_id j)) = expired i
expire i (raised exc) = failed exc

module _ (write : JsonRpcResponse → Option RpcException) where
  -- `respond_approval_request`, for a decision
  unfoldable pub respond_approval_request :
      AppServerClient
      → JsonRpcConnection
      → JsonRpcId
      → ApprovalDecision
      → JsonRpcConnection × ApprovalAnswer
  unfolding expire
  respond_approval_request client c i d =
      elim (require_initialized client c.terminal_error "approval response") [
        | some e ↦ (c, refused e)
        | none ↦
            let (c', outcome) = respond_server_request write c i (as_wire_result d) in
            (c', expire i outcome)
      ]
