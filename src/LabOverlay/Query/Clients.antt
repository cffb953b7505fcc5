-- ===== src/LabOverlay/Query/Clients.antt =====
-- The two clients of the MCP endpoint, `queryPredictions` of demo/lab_overlay.js and `mcpCall` of
-- demo/app.js, on the same reply.
use mobydb_render_engine.Base.{
  ◌≡◌, refl, Bool, true, false, not, Option, none, some, map_option, Result, ok, throw, ◌>>=◌, ◌>>◌,
  arith, Text, codes, if◌then◌else◌,
}
use mobydb_render_engine.LabVerify.Json.{
  Json, undefined, str, prop, is_truthy, has_primitive, to_primitive,
}
use mobydb_render_engine.App.Mcp.{
  Script, HttpReply, Answer, render_ms, optional, first_item, read_result, read_reply,
}
use mobydb_render_engine.LabOverlay.Query.{read_tool, read_predictions}

-- What the promise resolves to, if it does.
abbrev pub value {ℓ} : {A : Type ℓ} → Result A → Option A
value (ok a) = some a
value (throw e) = none

abbrev pub inner_value : Result Answer → Option Json
inner_value r = map_option (λ (a : Answer). a.inner) (value r)

-- What the page's client resolves to, if the time can be converted: the second resolves to the value of the
-- first, or does not resolve.
data Agrees (can_add : Bool) (x : Result Json) (y : Result Answer) : Type 0 where
  agrees : inner_value y ≡ (if can_add then value x else none) → Agrees can_add x y

agreed :
    (b : Bool) (x : Result Json) (y : Result Answer)
    → Agrees b x y
    → inner_value y ≡ (if b then value x else none)
agreed b x y (agrees h) = h

nothing : (b : Bool) {e e' : Text} → Agrees b (throw e) (throw e')
nothing true = agrees refl
nothing false = agrees refl

Agrees->>= :
    {A : Type 0} (b : Bool) (m : Result A) {f : A → Result Json} {g : A → Result Answer}
    → ((a : A) → Agrees b (f a) (g a))
    → Agrees b (m >>= f) (m >>= g)
Agrees->>= b (ok a) h = h a
Agrees->>= b (throw e) h = nothing b

Agrees-throw :
    (b : Bool) (m n : Result Text)
    → Agrees b (m >>= (λ message. throw message)) (n >>= (λ message. throw message))
Agrees-throw b (ok s) (ok t) = nothing b
Agrees-throw b (ok s) (throw e) = nothing b
Agrees-throw b (throw e) (ok t) = nothing b
Agrees-throw b (throw e) (throw e') = nothing b

Agrees-if :
    (b c : Bool) {x x' : Result Json} {y y' : Result Answer}
    → Agrees b x y
    → Agrees b x' y'
    → Agrees b (if c then x else x') (if c then y else y')
Agrees-if b true h k = h
Agrees-if b false h k = k

-- The page's client converts the time first.
Agrees-added :
    (v : Json) (x : Result Json) (y : Result Answer)
    → ((b : Bool) → b ≡ true → Agrees b x y)
    → Agrees (has_primitive v) x (to_primitive v >> y)
Agrees-added v x y h = added (has_primitive v) (h (has_primitive v))
  where
    added :
        (b : Bool)
        → (b ≡ true → Agrees b x y)
        → Agrees b x ((if b then ok tt else throw (codes "TypeError")) >> y)
    added true k = k refl
    added false k = agrees refl

module _ (script : Script) where
  open script use {json_parse}

  read_tool-Agrees :
      (result : Json)
      → Agrees
          (has_primitive (render_ms result))
          (read_tool script result)
          (read_result script result)
  unfolding read_tool read_result
  read_tool-Agrees result =
      let b = has_primitive (render_ms result) in
      Agrees->>= b (prop result (codes "isError")) (λ is_error.
        Agrees-if b (is_truthy is_error) (nothing b) (
          Agrees-added (render_ms result) _ _ (λ c e.
            Agrees->>= c (prop result (codes "content")) (λ content.
              Agrees->>= c (first_item content) (λ first.
                Agrees->>= c (prop first (codes "text"))
                  (λ text. parsed c e _ (json_parse text)))))))
    where
      parsed :
          (c : Bool)
          → c ≡ true
          → (ms : Json) (r : Result Json)
          → Agrees c r (r >>= (λ v. ok (record { inner = v; server_ms = ms })))
      parsed true e ms (ok v) = agrees refl
      parsed true e ms (throw m) = agrees refl
      parsed false e ms r = ground arith

  -- The time in a parsed reply can be converted to a number.
  abbrev pub can_add : Result Json → Bool
  can_add (ok rpc) = has_primitive (render_ms (optional rpc (codes "result")))
  can_add (throw e) = true

  result_agrees :
      (is_error : Bool) (m n : Result Text) (q : Result Json)
      → Agrees
          (has_primitive (render_ms (elim q [ ok w ↦ w | throw e ↦ undefined ])))
          (q >>= (λ result.
            if is_error then m >>= (λ message. throw message) else read_tool script result))
          (q >>= (λ result.
            if is_error then n >>= (λ message. throw message) else read_result script result))
  result_agrees is_error m n (ok result) =
      Agrees-if (has_primitive (render_ms result)) is_error (Agrees-throw _ m n)
        (read_tool-Agrees result)
  result_agrees is_error m n (throw e) = nothing _

  reply_agrees :
      (r : HttpReply)
      → Agrees (can_add (json_parse (str r.text))) (read_predictions script r) (read_reply script r)
  unfolding read_predictions read_reply
  reply_agrees r = Agrees-if (can_add (json_parse (str r.text))) (not r.is_ok) (nothing _) (
      parsed_agrees (json_parse (str r.text)) (λ rpc.
        Agrees->>= (can_add (ok rpc)) (prop rpc (codes "error"))
          (λ error. result_agrees (is_truthy error) _ _ (prop rpc (codes "result")))))
    where
      parsed_agrees :
          (m : Result Json) {f : Json → Result Json} {g : Json → Result Answer}
          → ((rpc : Json) → Agrees (can_add (ok rpc)) (f rpc) (g rpc))
          → Agrees (can_add m) (m >>= f) (m >>= g)
      parsed_agrees (ok rpc) h = h rpc
      parsed_agrees (throw e) h = nothing true

  -- Whatever the parser does: on every reply of the endpoint, the client of the page resolves to what the
  -- client of the overlay resolves to, or to nothing if that does not resolve; except that it resolves to
  -- nothing where the time of the reply, which it alone reads, cannot be converted to a number.
  pub clients_agree :
      (r : HttpReply)
      → inner_value (read_reply script r)
        ≡ (if can_add (json_parse (str r.text)) then value (read_predictions script r) else none)
  clients_agree r = agreed _ _ _ (reply_agrees r)
