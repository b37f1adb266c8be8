-- ===== src/Agent/Server/Answers.antt =====
-- What the handler of a run answers, and what it leaves.
use lean_sandbox.Common.{◌≡◌, refl, Bool, Option, none, some, List, [], ◌∷◌, ◌++◌, ◌⊎◌, inl, inr}
use lean_sandbox.Common.Text.{Bytes, text}
use lean_sandbox.Agent.Session.{Session, Os, RunResult, ran, new_session, run_request}
use lean_sandbox.Agent.Server.{wrote_error, wrote_response, Decoded, get_or_create, handle_run}

get_or_create_first :
    (environ : List Bytes) (session : Option Session) (first : Session)
    → (session ≡ some first) ⊎ ((session ≡ none) × (first ≡ new_session environ))
    → get_or_create environ session ≡ first
unfolding get_or_create
get_or_create_first environ session first (inl e) = rw e refl
get_or_create_first environ session first (inr (e, f)) = rw (e, f) refl

-- A run whose body is not JSON, and of which the decoder has read a request that runs without an
-- error, in the session or, where there is none, in a new one: the handler answers twice, first with
-- the status 400 and the decoder's error, and then with the status 200 and the result of the run; and
-- the session is the one that the run has left.
pub handle_run_invalid :
    (environ : List Bytes) (cancelled : Bool) (os : Os) (d : Decoded) (session : Option Session)
    (first after : Session) (e : Bytes) (r : RunResult)
    → d.error ≡ some e
    → (session ≡ some first) ⊎ ((session ≡ none) × (first ≡ new_session environ))
    → run_request first d.request os ≡ (after, ran r none)
    → handle_run environ cancelled os d session ≡ (
      wrote_error 400 (text "invalid json: " ++ e)
          ∷ wrote_response 200 (record {
            stdout = r.stdout;
            stderr = r.stderr;
            exit_code = r.exit_code;
            stdout_path = r.stdout_path;
            stderr_path = r.stderr_path;
          })
          ∷ [],
      some after,
    )
unfolding handle_run
handle_run_invalid environ cancelled os d session first after e r p q run =
    let same : get_or_create environ session ≡ first =
      get_or_create_first environ session first q in
    rw (p, same, run) refl
