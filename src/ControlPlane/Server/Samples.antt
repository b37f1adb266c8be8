-- ===== src/ControlPlane/Server/Samples.antt =====
-- Requests to a small control plane.
use lean_sandbox.Common.{◌≡◌, refl, [], ◌∷◌}
use lean_sandbox.Common.Text.{Bytes, text, str_eq}
use lean_sandbox.Common.Dict.{get, put, bytes_eq}
use lean_sandbox.Common.Paths.{split_slash}
use lean_sandbox.Api.{SandboxView}
use lean_sandbox.Http.{Request, api_key_header}
use lean_sandbox.ControlPlane.{find, register, get_sandbox}
use lean_sandbox.ControlPlane.Interleaving.{start-Inv}
use lean_sandbox.ControlPlane.Town.{settings, quiet, morning, served}
use lean_sandbox.ControlPlane.Server.{
  shown, mint, view, route, serve, handle_get, get_found, show, admits, handle,
}
use lean_sandbox.ControlPlane.Server.Guarded.{Ignored, handle_without_key}
use lean_sandbox.ControlPlane.Server.Tokens.{TokenOf, handle-TokenOf}
use lean_sandbox.ControlPlane.Server.Steps.{AtMostOne, handle-AtMostOne}
use lean_sandbox.ControlPlane.Server.Toy.{office, open_day}

abbrev secret : Bytes
secret = text "s3cret"

-- a deletion with another key
abbrev stray : Request
stray = record {
  method = text "DELETE";
  path = text "/v1/sandboxes/7";
  query = [];
  header = (api_key_header, text "guess") ∷ [];
  body = [];
}

handle_without_key_example : Ignored office open_day (handle office secret stray open_day)
unfolding get str_eq
handle_without_key_example = handle_without_key office secret stray open_day (λ e. cc e) (λ e. cc e)

-- a look-up with the key
abbrev look : Request
look = record stray { method = text "GET"; header = (api_key_header, secret) ∷ [] }

abbrev seen : SandboxView
seen = view served (mint office open_day.0 7 open_day.1).0

look-seen : (handle office secret look open_day).answer ≡ shown seen
unfolding handle admits route serve split_slash str_eq get handle_get get_found show get_sandbox
    find register put
look-seen = refl

handle-TokenOf_example : TokenOf office (handle office secret look open_day).state seen
handle-TokenOf_example = handle-TokenOf office secret look open_day seen look-seen

-- a creation with the key
abbrev asked : Request
asked = record look { method = text "POST"; path = text "/v1/sandboxes"; body = text "ubuntu" }

handle-AtMostOne_example : AtMostOne quiet (handle office secret asked (quiet.cp, morning)).state.0
handle-AtMostOne_example =
    handle-AtMostOne office secret asked quiet morning (start-Inv settings []) (λ a x e p. cc e)
