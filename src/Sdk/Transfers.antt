-- ===== src/Sdk/Transfers.antt =====
-- The client's transfers, at the API of an agent.
use lean_sandbox.Common.{
  ◌≡◌, ◌≢◌, refl, ap, ◌∙◌, Bool, true, false, Option, none, some, List, [], ◌∷◌, ◌++◌, All,
  All-append,
}
use mathlib.Core.List.{append-nil}
use lean_sandbox.Common.Text.{Bytes, text, str_eq}
use lean_sandbox.Common.Paths.{split_slash}
use lean_sandbox.Common.Dict.{get, bytes_eq}
use lean_sandbox.Http.{Request, query_value}
use lean_sandbox.Files.{
  Found, walk_failed, info_failed, found_dir, found_file, found_link, found_other, FileSystem,
}
use lean_sandbox.Tarx.{
  Next, entry, bad, Outcome, wrap, and_then, root_failed, unpack, pack_named, pack_visit,
  pack_visits, pack, go_on, pack_name,
}
use lean_sandbox.Tarx.Copy.{
  copy_tree, IsFine, and_then_ext, unpack_all-pack_visits, pack_visits_failed,
}
use lean_sandbox.Agent.Server.{Answer}
use lean_sandbox.Agent.Transfer.{packed, pack_answer, handle_read_files}
use lean_sandbox.Agent.Handler.{
  Machine, State, Served, read_files, v1_route, route, serve, check_token, authed, handle, render,
}
use lean_sandbox.Sdk.{Codes, Transport, answered, accepted}
use lean_sandbox.Sdk.Planes.{Sandbox}
use lean_sandbox.Sdk.Boxes.{
  raw_request, raw_response, Downloaded, unpacked, unpack_reply, download_dir,
}

-- The API of an agent, as what answers a client whose body has no error.
abbrev pub wire : Machine → Transport
wire m = record {
  World = State m;
  send =
      λ base r body_error s. let sv = handle m r s in (answered (render m r sv.answers), sv.state);
}

-- Both sides code a stream alike.
abbrev pub codes_of : Machine → Codes → Codes
codes_of m c = record c { tar = m.tar; untar = m.untar }

-- The entry's content does not end with an error.
abbrev pub IsWhole : Next → Type 0
IsWhole (entry h source) = source.read_error ≡ none
IsWhole (bad e) = ⊥

-- Whole entries are read back, closed or not: behind the last of them the reader finds the end.
abbrev pub Readable : Machine → Type 0
Readable m =
    (entries : List Next) (closed : Bool)
    → All IsWhole entries
    → m.untar (m.tar entries closed) ≡ entries

pack_named-IsWhole :
    (name : List Bytes) (found : Found)
    → (pack_named name found).1 ≡ none
    → All IsWhole (pack_named name found).0
pack_named-IsWhole [] found e = tt
pack_named-IsWhole (p ∷ ps) (walk_failed t) e = tt
pack_named-IsWhole (p ∷ ps) (info_failed t) e = tt
pack_named-IsWhole (p ∷ ps) (found_dir m) e = (refl, tt)
pack_named-IsWhole (p ∷ ps) (found_file m s) e = (e, tt)
pack_named-IsWhole (p ∷ ps) (found_link m l) e = (refl, tt)
pack_named-IsWhole (p ∷ ps) (found_other t m) e = (refl, tt)

pack_visit-IsWhole :
    (prefix : Bytes) (rel : List Bytes) (found : Found)
    → (pack_visit prefix rel found).1 ≡ none
    → All IsWhole (pack_visit prefix rel found).0
pack_visit-IsWhole prefix rel (walk_failed t) e = tt
pack_visit-IsWhole prefix rel (info_failed t) e = pack_named-IsWhole (pack_name prefix rel) _ e
pack_visit-IsWhole prefix rel (found_dir m) e = pack_named-IsWhole (pack_name prefix rel) _ e
pack_visit-IsWhole prefix rel (found_file m s) e = pack_named-IsWhole (pack_name prefix rel) _ e
pack_visit-IsWhole prefix rel (found_link m l) e = pack_named-IsWhole (pack_name prefix rel) _ e
pack_visit-IsWhole prefix rel (found_other t m) e = pack_named-IsWhole (pack_name prefix rel) _ e

go_on-IsWhole :
    (now rest : List Next × Option Bytes)
    → All IsWhole now.0
    → All IsWhole rest.0
    → All IsWhole (go_on now rest).0
go_on-IsWhole (now, none) rest a r = All-append IsWhole now rest.0 a r
go_on-IsWhole (now, some e) rest a r = a

pack_visits-IsWhole :
    (prefix : Bytes) (visits : List (List Bytes × Found))
    → All (IsFine prefix) visits
    → All IsWhole (pack_visits prefix visits).0
unfolding pack_visits
pack_visits-IsWhole prefix [] h = tt
pack_visits-IsWhole prefix ((rel, found) ∷ visits) h =
    go_on-IsWhole (pack_visit prefix rel found) _ (pack_visit-IsWhole prefix rel found h.0.no_error)
      (pack_visits-IsWhole prefix visits h.1)

-- The visits that follow fine ones: none, or an error of the walk and what it does not come to.
abbrev pub tail :
    Option (List Bytes × Bytes) → List (List Bytes × Found) → List (List Bytes × Found)
tail none rest = []
tail (some (rel, e)) rest = (rel, walk_failed e) ∷ rest

abbrev error_of : Option (List Bytes × Bytes) → Option Bytes
error_of none = none
error_of (some (rel, e)) = some e

pack-tail :
    (visits : List (List Bytes × Found)) (failure : Option (List Bytes × Bytes))
    (rest : List (List Bytes × Found))
    → All (IsFine []) visits
    → (pack_visits [] visits).1 ≡ none
    → pack_visits [] (visits ++ tail failure rest) ≡ ((pack_visits [] visits).0, error_of failure)
pack-tail visits none rest h e =
    ap (pack_visits []) (append-nil visits) ∙ ap (λ t. ((pack_visits [] visits).0, t)) e
pack-tail visits (some (rel, e)) rest h _ = pack_visits_failed [] visits rel e rest h

-- Making the client's directory, and copying the visits into it.
abbrev pub copied : (fs : FileSystem) → Bytes → List (List Bytes × Found) → fs.World → Outcome fs
copied fs to visits files = and_then fs (wrap fs root_failed (fs.mkdir_all to files)) (λ v.
    and_then fs (wrap fs root_failed (fs.open_root to v)) (λ u. copy_tree fs to [] visits [] u))

read_route : route (text "GET") (split_slash (text "/v1/files")) ≡ read_files
unfolding route split_slash str_eq v1_route
read_route = refl

packed_files :
    (fs : FileSystem) (path : Bytes) (w : fs.World)
    → path ≢ []
    → fs.stat path w ≡ none
    → handle_read_files fs path w ≡ packed fs (pack fs path [] w)
unfolding handle_read_files
packed_files fs [] w n e = absurd (n refl)
packed_files fs (ch ∷ path) w n e = ap (λ o. pack_answer fs (ch ∷ path) o w) e

module _ (m : Machine) (c : Codes) (sb : Sandbox) where
  abbrev pub request : Bytes → Request
  request from = raw_request sb (text "GET") (text "/v1/files") (text "root") from none

  root_query : (from : Bytes) → query_value (text "root") (request from) ≡ from
  unfolding raw_request get str_eq
  root_query from = refl

  served_files :
      (from : Bytes) (s : State m)
      → from ≢ []
      → check_token m (request from) s.1 ≡ none
      → m.fs.stat from s.1 ≡ none
      → handle m (request from) s
        ≡ record { answers = packed m.fs (pack m.fs from [] s.1) ∷ []; state = s }
  unfolding handle serve raw_request
  served_files from (session, w) n ok stat =
      ap (λ o. authed m o (request from) (session, w)) ok
      ∙ ap (λ t. serve m t (request from) (session, w)) read_route
      ∙ ap (λ a. record { answers = a ∷ []; state = (session, w) })
          (ap (λ path. handle_read_files m.fs path w) (root_query from)
            ∙ packed_files m.fs from w n stat)

-- the end of a download, for an answer of the agent
abbrev received :
    (m : Machine)
    → Codes
    → (fs : FileSystem) → Bytes
    → fs.World
    → Request
    → Answer
    → Downloaded × fs.World
received m c fs to files r a =
    unpack_reply fs (codes_of m c) to (accepted (codes_of m c) (answered (render m r (a ∷ []))))
      files

received-packed :
    (m : Machine) (c : Codes) (fs : FileSystem) (to : Bytes) (files : fs.World) (r : Request)
    (stream : List Next) (error : Option Bytes)
    → Readable m
    → All IsWhole stream
    → received m c fs to files r (packed m.fs (stream, error))
      ≡ (let o = unpack fs to stream files in (unpacked o.0, o.1))
unfolding render
received-packed m c fs to files r stream error law h = go error
  where
    unpacked_body : Bytes → Downloaded × fs.World
    unpacked_body body = let o = unpack fs to (m.untar body) files in (unpacked o.0, o.1)

    read_back :
        (closed : Bool)
        → unpacked_body (m.tar stream closed ++ [])
          ≡ (let o = unpack fs to stream files in (unpacked o.0, o.1))
    read_back closed =
        ap unpacked_body (append-nil (m.tar stream closed))
        ∙ ap (λ t. let o = unpack fs to t files in (unpacked o.0, o.1)) (law stream closed h)

    go :
        (error : Option Bytes)
        → received m c fs to files r (packed m.fs (stream, error))
          ≡ (let o = unpack fs to stream files in (unpacked o.0, o.1))
    go none = read_back true
    go (some e) = read_back false

unpack-copied :
    (fs : FileSystem) (to : Bytes) (visits : List (List Bytes × Found)) (files : fs.World)
    → All (IsFine []) visits
    → unpack fs to (pack_visits [] visits).0 files ≡ copied fs to visits files
unfolding unpack
unpack-copied fs to visits files h =
    and_then_ext fs to (wrap fs root_failed (fs.mkdir_all to files)) _ _ (λ v.
      and_then_ext fs to (wrap fs root_failed (fs.open_root to v)) _ _
        (λ u. (unpack_all-pack_visits fs to [] visits [] u h).0))

-- `DownloadDir`, of a directory that can be looked up, from an agent that serves the request: where
-- a stream of whole entries is read back, the client makes its directory and copies the files into
-- it that the walk visits, up to the first error of the walk, if there is one. What it returns is
-- what this copying returns: the error of the walk is not reported.
pub download_dir-copied :
    (m : Machine) (c : Codes) (fs : FileSystem) (sb : Sandbox) (from to : Bytes) (files : fs.World)
    (s : State m) (visits : List (List Bytes × Found)) (failure : Option (List Bytes × Bytes))
    (rest : List (List Bytes × Found))
    → Readable m
    → from ≢ []
    → check_token m (request m c sb from) s.1 ≡ none
    → m.fs.stat from s.1 ≡ none
    → m.fs.walk from s.1 ≡ visits ++ tail failure rest
    → All (IsFine []) visits
    → download_dir (wire m) (codes_of m c) fs sb from to files s
      ≡ (let o = copied fs to visits files in ((unpacked o.0, o.1), s))
unfolding download_dir
download_dir-copied m c fs sb from to files s visits failure rest law n ok stat walked h =
    let r = request m c sb from in
    let stream = (pack_visits [] visits).0 in
    let whole = pack_visits-IsWhole [] visits h in
    let no_error = (unpack_all-pack_visits fs to [] visits [] files h).1 in
    let made : pack m.fs from [] s.1 ≡ (stream, error_of failure) =
      unfold pack in (ap (pack_visits []) walked ∙ pack-tail visits failure rest h no_error) in
    ap
      (λ (sv : Served m). (
        unpack_reply fs (codes_of m c) to
            (accepted (codes_of m c) (answered (render m r sv.answers))) files,
        sv.state,
      ))
      (unfold raw_response in served_files m c sb from s n ok stat)
    ∙ ap (λ p. (received m c fs to files r (packed m.fs p), s)) made
    ∙ ap (λ o. (o, s)) (received-packed m c fs to files r stream (error_of failure) law whole)
    ∙ ap (λ o. ((unpacked o.0, o.1), s)) (unpack-copied fs to visits files h)
