-- ===== src/Sdk/Boxes.antt =====
-- sdk/sandbox.go: the handle of a sandbox. A call that succeeds starts a renewal of the lease in the
-- background; it is returned as the id to renew.
use lean_sandbox.Common.{
  Bool, true, false, Option, none, some, List, [], ◌∷◌, ◌++◌, ◌==◌, if◌then◌else◌,
}
use lean_sandbox.Common.Int.{pos}
use lean_sandbox.Common.Text.{Bytes, text}
use lean_sandbox.Common.Paths.{clean_path, base_name}
use lean_sandbox.Api.{SandboxId, RunRequest, RunResponse, StreamEvent}
use lean_sandbox.Http.{Request, Response, access_token_header}
use lean_sandbox.Files.{FileSystem}
use lean_sandbox.Tarx.{Fault, pack, unpack}
use lean_sandbox.Sdk.{
  Codes, Transport, Sent, unsent, answered, Failure, http_failed, send_failed, Reply, returned,
  failed, http_error, accepted, read_json, ignore, map_reply, json_type, unless_empty, with_body,
}
use lean_sandbox.Sdk.Events.{raw_lines, read_events}
use lean_sandbox.Sdk.Planes.{Sandbox}

-- the request of `do`
unfoldable pub box_request : Sandbox → Bytes → Bytes → Bytes → Request
box_request sb method path body = record {
  method = method;
  path = path;
  query = [];
  header = json_type ∷ unless_empty access_token_header sb.view.access_token;
  body = body;
}

-- `do` up to the check of the status
unfoldable pub call :
    (t : Transport) → Codes → Sandbox → Bytes → Bytes → Bytes → t.World → Reply Response × t.World
unfolding box_request
call t c sb method path body w =
    let sent = t.send sb.view.endpoint (box_request sb method path body) none w in
    (accepted c sent.0, sent.1)

-- the renewal that a call starts, if it succeeds
abbrev pub renewal : {A : Type 0} → Sandbox → Reply A → Option SandboxId
renewal sb (returned a) = some sb.view.id
renewal sb (failed f) = none

-- `func (sb *Sandbox) RunRequest(ctx, req)`
unfoldable pub run_request :
    (t : Transport)
    → Codes
    → Sandbox
    → RunRequest
    → t.World
    → (Reply RunResponse × Option SandboxId) × t.World
unfolding call
run_request t c sb req w =
    let done =
      with_body t (c.run_request.marshal req)
        (λ b v. call t c sb (text "POST") (text "/v1/run") b v) w in
    let out = read_json c.run_response done.0 in ((out, renewal sb out), done.1)

-- `func (sb *Sandbox) Run(ctx, command)`
abbrev pub run :
    (t : Transport)
    → Codes
    → Sandbox
    → Bytes
    → t.World
    → (Reply RunResponse × Option SandboxId) × t.World
run t c sb command w =
    run_request t c sb (record { command = command; max_stdout = pos 0; max_stderr = pos 0 }) w

-- the check of `Stream`, which takes no status but 200
abbrev pub accepted_stream : Codes → Sent → Reply Response
accepted_stream c (unsent e) = failed (send_failed e)
accepted_stream c (answered r) =
    if r.status == 200 then returned r else failed (http_failed (http_error c r))

-- `func (sb *Sandbox) Stream(ctx, command)`: the events of the channel, for a body without error
unfoldable pub stream :
    (t : Transport)
    → Codes
    → Sandbox
    → Bytes
    → t.World
    → (Reply (List StreamEvent) × Option SandboxId) × t.World
unfolding box_request raw_lines read_events
stream t c sb command w =
    elim (c.run_request.marshal
      (record { command = command; max_stdout = pos 0; max_stderr = pos 0 })) [
        | none ↦ ((failed Failure.marshal_failed, none), w)
        | some b ↦
            let sent =
              t.send sb.view.endpoint (box_request sb (text "POST") (text "/v1/run-stream") b) none
                w in
            let ok = accepted_stream c sent.0 in
            (
              (map_reply (λ r. read_events c.event none (raw_lines r.body)) ok, renewal sb ok),
              sent.1,
            )
      ]

-- `func (sb *Sandbox) Close(ctx)`
unfoldable pub close : (t : Transport) → Codes → Sandbox → t.World → Reply (Unit {0}) × t.World
unfolding call
close t c sb w =
    let done = call t c sb (text "DELETE") (text "/v1/session") [] w in (ignore done.0, done.1)

-- the request of `doRawResponse`; its query is escaped by `url.QueryEscape`, which the server undoes
unfoldable pub raw_request : Sandbox → Bytes → Bytes → Bytes → Bytes → Option Bytes → Request
raw_request sb method path name value body = record {
  method = method;
  path = path;
  query = (name, value) ∷ [];
  header =
      elim body [ none ↦ [] | some b ↦ (text "Content-Type", text "application/octet-stream") ∷ [] ]
      ++ unless_empty access_token_header sb.view.access_token;
  body = elim body [ none ↦ [] | some b ↦ b ];
}

-- `doRawResponse`
unfoldable pub raw_response :
    (t : Transport) → Codes → Sandbox → Request → Option Bytes → t.World → Reply Response × t.World
raw_response t c sb r body_error w =
    let sent = t.send sb.view.endpoint r body_error w in (accepted c sent.0, sent.1)

-- `doRaw`, where `out` makes of the response what is copied to the writer
abbrev pub do_raw :
    {A : Type 0}
    → (Reply Response → Reply A)
    → (t : Transport) → Codes
    → Sandbox
    → Request
    → Option Bytes
    → t.World
    → Reply A × t.World
do_raw out t c sb r body_error w =
    let done = raw_response t c sb r body_error w in (out done.0, done.1)

-- `func (sb *Sandbox) WriteFile(ctx, path, content)`
unfoldable pub write_file :
    (t : Transport) → Codes → Sandbox → Bytes → Bytes → t.World → Reply (Unit {0}) × t.World
unfolding raw_request raw_response
write_file t c sb path content w =
    let r = raw_request sb (text "PUT") (text "/v1/file") (text "path") path (some content) in
    do_raw ignore t c sb r none w

-- `func (sb *Sandbox) ReadFile(ctx, path)`
unfoldable pub read_file :
    (t : Transport) → Codes → Sandbox → Bytes → t.World → Reply Bytes × t.World
unfolding raw_request raw_response
read_file t c sb path w =
    let r = raw_request sb (text "GET") (text "/v1/file") (text "path") path none in
    do_raw (map_reply (λ x. x.body)) t c sb r none w

-- `func (sb *Sandbox) UploadDir(ctx, from, to)`: the directory `to` of the client's files goes under
-- the root `from` of the sandbox.
unfoldable pub upload_dir :
    (t : Transport)
    → Codes
    → (fs : FileSystem) → Sandbox
    → Bytes
    → Bytes
    → fs.World
    → t.World
    → Reply (Unit {0}) × t.World
unfolding raw_request raw_response
upload_dir t c fs sb from to files w =
    let path = clean_path to in
    let packed = pack fs path (base_name path) files in
    let closed : Bool = elim packed.1 [ none ↦ true | some e ↦ false ] in
    let r =
      raw_request sb (text "PUT") (text "/v1/files") (text "root") from
        (some (c.tar packed.0 closed)) in
    do_raw ignore t c sb r packed.1 w

-- What `DownloadDir` returns: an error of the call, or what `Unpack` returns.
pub data Downloaded : Type 0 where
  not_sent : Failure → Downloaded
  unpacked : Option Fault → Downloaded

abbrev pub unpack_reply :
    (fs : FileSystem) → Codes → Bytes → Reply Response → fs.World → Downloaded × fs.World
unpack_reply fs c to (failed f) files = (not_sent f, files)
unpack_reply fs c to (returned r) files =
    let done = unpack fs to (c.untar r.body) files in (unpacked done.0, done.1)

-- `func (sb *Sandbox) DownloadDir(ctx, from, to)`
unfoldable pub download_dir :
    (t : Transport)
    → Codes
    → (fs : FileSystem) → Sandbox
    → Bytes
    → Bytes
    → fs.World
    → t.World
    → (Downloaded × fs.World) × t.World
unfolding raw_request raw_response
download_dir t c fs sb from to files w =
    let r = raw_request sb (text "GET") (text "/v1/files") (text "root") from none in
    let done = raw_response t c sb r none w in (unpack_reply fs c to done.0 files, done.1)
