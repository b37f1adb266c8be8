-- ===== src/Sdk.antt =====
-- sdk: the client of the control plane and of the agents. A call of `http.Client.Do` is answered by a
-- `Transport`; what is coded by JSON and tar is coded by `Codes`.
pub mod Events
pub mod Planes
pub mod Boxes
pub mod Wired
pub mod Transfers
pub mod Contents
pub mod Toy
mod Samples
use lean_sandbox.Common.{
  ℕ, Bool, true, false, Option, none, some, List, [], ◌∷◌, ◌++◌, leb, if◌then◌else◌,
}
use lean_sandbox.Common.Text.{Bytes, text, is_empty}
use lean_sandbox.Common.Decimal.{decimal}
use lean_sandbox.Common.Dict.{Dict}
use lean_sandbox.Api.{SandboxId, SandboxRequest, SandboxView, RunRequest, RunResponse, StreamEvent}
use lean_sandbox.Http.{Request, Response, Coder}
use lean_sandbox.Tarx.{Next}

pub record Codes : Type 0 where
  pub sandbox_request : Coder SandboxRequest
  pub view : Coder SandboxView
  pub list : Coder (List SandboxView)
  pub error : Coder Bytes
  pub run_request : Coder RunRequest
  pub run_response : Coder RunResponse
  pub event : Coder StreamEvent
  pub tar : List Next → Bool → Bytes
  pub untar : Bytes → List Next
  -- `SandboxID.String`
  pub id_string : SandboxId → Bytes
  -- `resp.Status`, for a response of this status, and `http.StatusText`
  pub status_line : ℕ → Bytes
  pub status_text : ℕ → Bytes

-- What `http.Client.Do` returns.
pub data Sent : Type 0 where
  unsent : Bytes → Sent
  answered : Response → Sent

-- A request goes to a base URL; `body_error` is the error that its body ends with, if it has one.
pub record Transport : Type 1 where
  pub World : Type 0
  pub send : Bytes → Request → Option Bytes → World → Sent × World

-- `ErrHTTP`
pub record ErrHttp : Type 0 where
  pub status : ℕ
  pub body : Bytes

-- `func (e *ErrHTTP) Error() string`
unfoldable pub error_text : Codes → ErrHttp → Bytes
error_text c e =
    let line = decimal e.status ++ (text " " ++ c.status_text e.status) in
    if is_empty e.body then line else line ++ (text ": " ++ e.body)

pub data Failure : Type 0 where
  marshal_failed : Failure
  send_failed unmarshal_failed : Bytes → Failure
  http_failed : ErrHttp → Failure

-- What a call returns.
pub data Reply (A : Type 0) : Type 0 where
  returned : A → Reply A
  failed : Failure → Reply A

-- `func httpError(ctx, resp) error`
unfoldable pub http_error : Codes → Response → ErrHttp
http_error c r =
    let e = (c.error.unmarshal r.body).0 in
    record { status = r.status; body = if is_empty e then c.status_line r.status else e }

-- the check of the status
abbrev pub accepted : Codes → Sent → Reply Response
accepted c (unsent e) = failed (send_failed e)
accepted c (answered r) =
    if leb 400 r.status then failed (http_failed (http_error c r)) else returned r

-- `json.UnmarshalRead(resp.Body, &out)`
abbrev pub read_json : {A : Type 0} → Coder A → Reply Response → Reply A
read_json c (failed f) = failed f
read_json c (returned r) = elim (c.unmarshal r.body).1 [
  | some e ↦ failed (unmarshal_failed e)
  | none ↦ returned (c.unmarshal r.body).0
]

-- `if out == nil { return nil }`
abbrev pub ignore : Reply Response → Reply (Unit {0})
ignore (failed f) = failed f
ignore (returned r) = returned tt

abbrev pub map_reply : {A B : Type 0} → (A → B) → Reply A → Reply B
map_reply f (failed e) = failed e
map_reply f (returned a) = returned (f a)

abbrev pub json_type : Bytes × Bytes
json_type = (text "Content-Type", text "application/json")

-- a header that is set where its value is not empty
abbrev pub unless_empty : Bytes → Bytes → Dict Bytes Bytes
unless_empty name value = if is_empty value then [] else (name, value) ∷ []

-- A call with a body that is marshalled first: nothing is sent if that fails.
abbrev pub with_body :
    (t : Transport)
    → Option Bytes
    → (Bytes → t.World → Reply Response × t.World)
    → t.World
    → Reply Response × t.World
with_body t none f w = (failed marshal_failed, w)
with_body t (some b) f w = f b w
