-- ===== src/Sdk/Contents.antt =====
-- Writing a file and reading it back, by the client, at the API of an agent.
use lean_sandbox.Common.{◌≡◌, ◌≢◌, refl, sym, ap, ◌∙◌, Option, none, some, List, [], ◌∷◌}
use mathlib.Core.List.{append-nil}
use lean_sandbox.Common.Text.{Bytes, text, str_eq}
use lean_sandbox.Common.Paths.{split_slash}
use lean_sandbox.Common.Dict.{get, bytes_eq}
use lean_sandbox.Http.{Request, query_value}
use lean_sandbox.Files.{Source, file, FileSystem}
use lean_sandbox.Agent.Server.{Answer, wrote_content}
use lean_sandbox.Agent.Transfer.{
  written, created, made_dir, handle_write_file, answer_opened, handle_read_file,
}
use lean_sandbox.Agent.Handler.{
  Machine, State, Served, read_file, write_file, v1_route, route, serve, check_token, authed,
  handle, render, answered,
}
use lean_sandbox.Sdk
use lean_sandbox.Sdk.{Codes, Reply, returned, failed, accepted, ignore, map_reply}
use lean_sandbox.Sdk.Planes.{Sandbox}
use lean_sandbox.Sdk.Boxes
use lean_sandbox.Sdk.Boxes.{raw_request, raw_response}
use lean_sandbox.Sdk.Transfers.{wire, codes_of}

-- What is relied on: a body that has arrived is copied as it is, and a file that was created and
-- written without an error is found with what was written to it.
pub record Stores (m : Machine) : Type 0 where
  pub arrives : (b : Bytes) → m.source b ≡ record { bytes = b; read_error = none }
  pub stored :
      (path content : Bytes) (w : m.fs.World)
      → (let source : Source = record { bytes = content; read_error = none } in
          let made = m.fs.create path w in
          let done = m.fs.write path source made.1 in
          made.0 ≡ none → done.0 ≡ none → m.fs.open_stat path done.1 ≡ file content)

module _ (m : Machine) (c : Codes) (r : Request) (path content : Bytes) (law : Stores m) where
  abbrev source : Source
  source = record { bytes = content; read_error = none }

  -- If the client takes the answer for a success, the file is there.
  abbrev Written : Answer × m.fs.World → Type 0
  Written done =
      ignore (accepted (codes_of m c) (Sdk.answered (render m r (done.0 ∷ [])))) ≡ returned tt
      → (path ≢ []) × (m.fs.open_stat path done.1 ≡ file content)

  written-Written :
      (o : Option Bytes × m.fs.World)
      → path ≢ []
      → (o.0 ≡ none → m.fs.open_stat path o.1 ≡ file content)
      → Written (written m.fs path o)
  unfolding render
  written-Written (some e, w) n h p = absurd (cc p)
  written-Written (none, w) n h p = (n, h refl)

  created-Written :
      (o : Option Bytes × m.fs.World)
      → (o.0 ≡ none → Written (written m.fs path (m.fs.write path source o.1)))
      → Written (created m.fs path source o)
  unfolding render
  created-Written (some e, w) h p = absurd (cc p)
  created-Written (none, w) h p = h refl p

  made_dir-Written :
      (o : Option Bytes × m.fs.World)
      → Written (created m.fs path source (m.fs.create path o.1))
      → Written (made_dir m.fs path source o)
  unfolding render
  made_dir-Written (some e, w) h p = absurd (cc p)
  made_dir-Written (none, w) h p = h p

  found_Written :
      (w : m.fs.World) → path ≢ [] → Written (made_dir m.fs path source (m.fs.mkdir_dir path w))
  found_Written w n =
      let dir = m.fs.mkdir_dir path w in
      made_dir-Written dir (
        created-Written (m.fs.create path dir.1)
          (λ made. written-Written _ n (λ done. law.stored path content dir.1 made done)))

handle_write_file-Written :
    (m : Machine) (c : Codes) (r : Request) (path content : Bytes) (law : Stores m) (w : m.fs.World)
    → Written m c r path content law (handle_write_file m.fs path (source m c r path content law) w)
unfolding handle_write_file render
handle_write_file-Written m c r [] content law w p = absurd (cc p)
handle_write_file-Written m c r (ch ∷ path) content law w p =
    found_Written m c r (ch ∷ path) content law w (λ e. cc e) p

file_routes :
    (route (text "PUT") (split_slash (text "/v1/file")) ≡ write_file)
    × (route (text "GET") (split_slash (text "/v1/file")) ≡ read_file)
unfolding route split_slash str_eq v1_route
file_routes = (refl, refl)

module _ (m : Machine) (sb : Sandbox) where
  abbrev pub putting : Bytes → Bytes → Request
  putting path content =
      raw_request sb (text "PUT") (text "/v1/file") (text "path") path (some content)

  abbrev pub getting : Bytes → Request
  getting path = raw_request sb (text "GET") (text "/v1/file") (text "path") path none

  path_query :
      (path content : Bytes)
      → (query_value (text "path") (putting path content) ≡ path)
        × (query_value (text "path") (getting path) ≡ path)
  unfolding raw_request get str_eq
  path_query path content = (refl, refl)

  served_put :
      (path content : Bytes) (s : State m)
      → Stores m
      → check_token m (putting path content) s.1 ≡ none
      → handle m (putting path content) s
        ≡ answered m s.0
            (handle_write_file m.fs path (record { bytes = content; read_error = none }) s.1)
  unfolding handle serve raw_request
  served_put path content (session, w) law ok =
      let r = putting path content in
      ap (λ o. authed m o r (session, w)) ok
      ∙ ap (λ t. serve m t r (session, w)) file_routes.0
      ∙ ap (λ p. answered m session (handle_write_file m.fs p (m.source r.body) w))
          (path_query path content).0
      ∙ ap (λ b. answered m session (handle_write_file m.fs path b w)) (law.arrives content)

  served_get :
      (path : Bytes) (s : State m)
      → check_token m (getting path) s.1 ≡ none
      → handle m (getting path) s ≡ answered m s.0 (handle_read_file m.fs path s.1, s.1)
  unfolding handle serve raw_request
  served_get path (session, w) ok =
      let r = getting path in
      ap (λ o. authed m o r (session, w)) ok
      ∙ ap (λ t. serve m t r (session, w)) file_routes.1
      ∙ ap (λ p. answered m session (handle_read_file m.fs p w, w)) (path_query path []).1

read_found :
    (fs : FileSystem) (path content : Bytes) (w : fs.World)
    → path ≢ []
    → fs.open_stat path w ≡ file content
    → handle_read_file fs path w ≡ wrote_content content
unfolding handle_read_file
read_found fs [] content w n e = absurd (n refl)
read_found fs (ch ∷ path) content w n e = ap answer_opened e

-- What `ReadFile` makes of what the agent has answered.
abbrev heard : (m : Machine) → Codes → Request → List Answer → Reply Bytes
heard m c r answers =
    map_reply (λ x. x.body) (accepted (codes_of m c) (Sdk.answered (render m r answers)))

heard_content :
    (m : Machine) (c : Codes) (r : Request) (content : Bytes)
    → heard m c r (wrote_content content ∷ []) ≡ returned content
unfolding render
heard_content m c r content = ap returned (append-nil content)

-- `WriteFile` of the client, at the API of the agent
abbrev pub wrote :
    (m : Machine) → Codes → Sandbox → Bytes → Bytes → State m → Reply (Unit {0}) × State m
wrote m c sb path content s = Boxes.write_file (wire m) (codes_of m c) sb path content s

-- Where a body arrives as it was sent, a file that was created and written without an error is found
-- with what was written to it, and the agent accepts the tokens of both requests: if `WriteFile` of
-- the client returns no error, `ReadFile` of the same path, right behind it, returns the content
-- that was written.
pub read_file-write_file :
    (m : Machine) (c : Codes) (sb : Sandbox) (path content : Bytes) (s : State m)
    → Stores m
    → check_token m (putting m sb path content) s.1 ≡ none
    → check_token m (getting m sb path) (wrote m c sb path content s).1.1 ≡ none
    → (wrote m c sb path content s).0 ≡ returned tt
    → (Boxes.read_file (wire m) (codes_of m c) sb path (wrote m c sb path content s).1).0
      ≡ returned content
unfolding Boxes.write_file Boxes.read_file raw_response
read_file-write_file m c sb path content s law ok ok2 e =
    let put = putting m sb path content in
    let done = handle_write_file m.fs path (record { bytes = content; read_error = none }) s.1 in
    let state = (handle m put s).state in
    let at = served_put m sb path content s law ok in
    let (n, found) = handle_write_file-Written m c put path content law s.1 (
      sym (
        ap
          (λ (sv : Served m).
            ignore (accepted (codes_of m c) (Sdk.answered (render m put sv.answers))))
          at)
      ∙ e) in
    let there : handle_read_file m.fs path state.1 ≡ wrote_content content =
      ap (λ (sv : Served m). handle_read_file m.fs path sv.state.1) at
      ∙ read_found m.fs path content done.1 n found in
    ap (λ (sv : Served m). heard m c (getting m sb path) sv.answers)
      (served_get m sb path state ok2)
    ∙ ap (λ a. heard m c (getting m sb path) (a ∷ [])) there
    ∙ heard_content m c (getting m sb path) content
