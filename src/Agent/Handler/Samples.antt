-- ===== src/Agent/Handler/Samples.antt =====
-- Requests with a token to the agents of two sandboxes.
use lean_sandbox.Common.{◌≡◌, none, [], ◌∷◌, arith, ◌&&◌, if◌then◌else◌}
use lean_sandbox.Common.Int.{pos}
use lean_sandbox.Common.Text.{text, str_eq}
use lean_sandbox.Common.Dict.{get, bytes_eq}
use lean_sandbox.Common.Paths.{split_slash}
use lean_sandbox.Http.{Request, access_token_header, header_value, is_get}
use lean_sandbox.Jwt.Toy.{toy-Lawful, token, sign-token}
use lean_sandbox.ControlPlane.Server.Tokens.{SignedFor}
use lean_sandbox.ControlPlane.Server.Toy.{office}
use lean_sandbox.Agent.Handler.{State, healthz, route, serve, handle}
use lean_sandbox.Agent.Handler.Guarded.{Denied, agent_of, handle_own_token, handle_other_token}
use lean_sandbox.Agent.Handler.Toy.{agent}

-- a file to write, with the token of the sandbox 7
abbrev upload : Request
upload = record {
  method = text "PUT";
  path = text "/v1/file";
  query = (text "path", text "/a") ∷ [];
  header = (access_token_header, token) ∷ [];
  body = text "x";
}

abbrev idle : State agent
idle = (none, [])

unfoldable signed_for :
    SignedFor office (pos 900000000000) (text "7") (header_value access_token_header upload)
unfolding get str_eq
signed_for = record { signed_at = pos 100000000000; signed = sign-token }

handle_own_token_example :
    (let a = agent_of office (text "7") agent in
      handle a upload idle ≡ (
        if str_eq upload.path (text "/healthz") && is_get upload.method
        then serve a healthz upload idle
        else serve a (route upload.method (split_slash upload.path)) upload idle))
unfolding signed_for
handle_own_token_example =
    handle_own_token office agent (pos 900000000000) (text "7") upload idle signed_for toy-Lawful
      (omega arith) (omega arith)

handle_other_token_example :
    Denied
      (agent_of office (text "77") agent)
      idle
      (handle (agent_of office (text "77") agent) upload idle)
handle_other_token_example =
    handle_other_token office agent (pos 900000000000) (text "77") (text "7") upload idle signed_for
      toy-Lawful (λ e. cc e)
