-- ===== src/LabOverlay/Query.antt =====
-- `queryPredictions` of demo/lab_overlay.js: the request that it sends and what it reads of the reply, with
-- `JSON.parse` and the text of a value as parameters. Its client stands beside `mcpCall` of demo/app.js.
pub mod Clients
use mobydb_render_engine.Base.{
  Bool, true, false, not, ◌||◌, Option, none, some, is_empty, ◌++◌, Result, ok, throw, ◌>>=◌, Text,
  codes, if◌then◌else◌,
}
use mobydb_render_engine.LabVerify.Json.{
  Json, bool, num, non_finite, str, obj, Fields, end, field, prop, is_truthy,
}
use mobydb_render_engine.App.Mcp.{Script, HttpReply, first_item, tool_error}

-- `window.mobydbConfig`.
pub record Config : Type 0 where
  pub api_base : Text
  pub api_key : Text

abbrev pub model_version_filter : Text
model_version_filter = codes "sen1floods11@918b9f140bb1"

-- `typeof epoch === 'number'`.
abbrev pub is_number : Json → Bool
is_number (num t) = true
is_number non_finite = true
is_number v = false

abbrev pub model_fields : Text → Fields
model_fields version =
    if is_empty version then end else field (codes "model_version") (str version) end

-- The arguments of the tool.
unfoldable pub query_args : Text → Json → Json
query_args h3_cell epoch =
    let rest = model_fields model_version_filter in
    obj (
      field (codes "h3_cell") (str h3_cell) (
        field (codes "include_chain") (bool true) (
          field (codes "limit") (num (codes "10"))
            (if is_number epoch then field (codes "epoch") epoch rest else rest))))

-- What is sent: the address, the key and the body.
pub record Request : Type 0 where
  pub url : Text
  pub key : Text
  pub body : Json

abbrev pub rpc_body : Json → Json
rpc_body args = obj (
    field (codes "jsonrpc") (str (codes "2.0")) (
      field (codes "id") (num (codes "1")) (
        field (codes "method") (str (codes "tools/call")) (
          field (codes "params")
            (obj (
              field (codes "name") (str (codes "query_predictions"))
                (field (codes "arguments") args end)))
            end))))

abbrev config_missing : Text
config_missing = codes "mobydb config missing (apiBase or apiKey)"

unfoldable pub request_of : Option Config → Text → Json → Result Request
request_of none h3_cell epoch = throw config_missing
request_of (some cfg) h3_cell epoch =
    if is_empty cfg.api_base || is_empty cfg.api_key
    then throw config_missing
    else ok (record {
      url = cfg.api_base ++ codes "/mcp";
      key = cfg.api_key;
      body = rpc_body (query_args h3_cell epoch);
    })

module _ (script : Script) where
  open script use {json_parse, to_text}

  abbrev mcp_error : Json → Result Text
  mcp_error e = do
    code ← prop e (codes "code")
    message ← prop e (codes "message")
    ok (codes "MCP " ++ to_text code ++ codes ": " ++ to_text message)

  -- From `rpc.result` on.
  unfoldable pub read_tool : Json → Result Json
  read_tool result = do
    is_error ← prop result (codes "isError")
    (if is_truthy is_error then throw (tool_error script result) else (do
      content ← prop result (codes "content")
      first ← first_item content
      text ← prop first (codes "text")
      json_parse text))

  unfoldable pub read_predictions : HttpReply → Result Json
  unfolding read_tool
  read_predictions reply = if not reply.is_ok then throw (codes "HTTP " ++ reply.status) else (do
    rpc ← json_parse (str reply.text)
    error ← prop rpc (codes "error")
    result ← prop rpc (codes "result")
    (if is_truthy error then mcp_error error >>= (λ message. throw message) else read_tool result))
