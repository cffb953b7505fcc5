-- ===== src/App/Mcp.antt =====
-- `mcpCall` of demo/app.js, from the reply of `fetch` on. `JSON.parse` and the text of a value in a
-- template are parameters.
use mobydb_render_engine.Base.{
  ℕ, Bool, not, [], ◌∷◌, ◌++◌, Result, ok, throw, ◌>>=◌, ◌>>◌, Text, codes, length, if◌then◌else◌,
}
use mobydb_render_engine.LabVerify.Json.{
  Json, undefined, null, str, num, arr, cons, obj, get, prop, is_truthy, to_primitive,
}
use mobydb_render_engine.LabVerify.Jcs.{utf8}

pub record HttpReply : Type 0 where
  pub is_ok : Bool
  pub status : Text
  pub text : Text

-- What a call reports besides the tool's own result.
pub record Answer : Type 0 where
  pub inner : Json
  pub server_ms : Json

pub record Script : Type 0 where
  pub json_parse : Json → Result Json
  pub to_text : Json → Text
  -- `0 < v`, for a value that has a primitive.
  pub above_zero : Json → Bool

-- `v?.k`.
abbrev pub optional : Json → Text → Json
optional v k = elim (prop v k) [ ok w ↦ w | throw e ↦ undefined ]

-- `v[0]`, and `v?.[0]`.
abbrev pub first_item : Json → Result Json
first_item undefined = throw (codes "TypeError")
first_item null = throw (codes "TypeError")
first_item (arr (cons v vs)) = ok v
first_item (obj fs) = ok (get (codes "0") fs)
first_item (str (c ∷ s)) = ok (str (c ∷ []))
first_item _ = ok undefined

abbrev optional_first : Json → Json
optional_first v = elim (first_item v) [ ok w ↦ w | throw e ↦ undefined ]

abbrev pub or_default : Json → Json → Json
or_default undefined d = d
or_default null d = d
or_default v d = v

-- `result._meta?.render_ms ?? 0`.
abbrev pub render_ms : Json → Json
render_ms result =
    or_default (optional (optional result (codes "_meta")) (codes "render_ms")) (num (codes "0"))

module _ (script : Script) where
  open script use {json_parse, to_text}

  abbrev pub tool_error : Json → Text
  tool_error result =
      let text = optional (optional_first (optional result (codes "content"))) (codes "text") in
      to_text (if is_truthy text then text else str (codes "tool error"))

  abbrev rpc_error : Json → Result Text
  rpc_error e = do
    code ← prop e (codes "code")
    message ← prop e (codes "message")
    ok (to_text code ++ codes ": " ++ to_text message)

  -- From `rpc.result` on. The time that is added to `state.server_ms_sum` is
  -- converted; the sum itself is not part of the model.
  unfoldable pub read_result : Json → Result Answer
  read_result result = do
    is_error ← prop result (codes "isError")
    (if is_truthy is_error then throw (tool_error result) else (do
      let ms = render_ms result
      to_primitive ms
      content ← prop result (codes "content")
      first ← first_item content
      text ← prop first (codes "text")
      inner ← json_parse text
      ok (record { inner = inner; server_ms = ms })))

  unfoldable pub read_reply : HttpReply → Result Answer
  unfolding read_result
  read_reply reply =
      if not reply.is_ok
      then throw (codes "HTTP " ++ reply.status ++ codes ": " ++ reply.text)
      else (do
        rpc ← json_parse (str reply.text)
        error ← prop rpc (codes "error")
        result ← prop rpc (codes "result")
        (if is_truthy error
            then rpc_error error >>= (λ message. throw message)
            else read_result result))

-- The bytes that the call adds to the counter.
abbrev pub reply_bytes : HttpReply → ℕ
reply_bytes reply = length (utf8 reply.text)
