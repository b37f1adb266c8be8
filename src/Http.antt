-- ===== src/Http.antt =====
-- What the servers and the clients use of Go's `net/http` and `encoding/json`: a request with its
-- decoded query, a response, and the coding of a wire type. The requests are those that a client
-- sends whole; a header that is absent is the empty text, as `Header.Get` returns it. The body of an
-- answer to HEAD is not cut off.
pub mod Toy
use lean_sandbox.Common.{ℕ, ◌≡◌, Bool, ◌||◌, Option, none, some, List, [], take}
use lean_sandbox.Common.Text.{Bytes, text, str_eq}
use lean_sandbox.Common.Dict.{Dict, bytes_eq, get}

pub record Request : Type 0 where
  pub method : Bytes
  pub path : Bytes
  pub query : Dict Bytes Bytes
  pub header : Dict Bytes Bytes
  pub body : Bytes

pub record Response : Type 0 where
  pub status : ℕ
  pub body : Bytes

-- `json.Marshal` and `json.Unmarshal` for one type. What `Unmarshal` has filled in stands beside
-- its error.
pub record Coder (A : Type 0) : Type 0 where
  pub marshal : A → Option Bytes
  pub unmarshal : Bytes → A × Option Bytes

-- What was written is read back.
pub record IsLawful {A : Type 0} (c : Coder A) : Type 0 where
  pub unmarshal_marshal : (a : A) (b : Bytes) → c.marshal a ≡ some b → c.unmarshal b ≡ (a, none)

abbrev pub or_empty : Option Bytes → Bytes
or_empty none = []
or_empty (some b) = b

-- `r.Header.Get(name)` and `r.URL.Query().Get(name)`
abbrev pub header_value : Bytes → Request → Bytes
header_value name r = or_empty (get name r.header)

abbrev pub query_value : Bytes → Request → Bytes
query_value name r = or_empty (get name r.query)

-- `api.AccessTokenHeader` and `api.APIKeyHeader`
abbrev pub access_token_header : Bytes
access_token_header = text "X-Access-Token"

abbrev pub api_key_header : Bytes
api_key_header = text "X-Api-Key"

-- a pattern of the method GET serves HEAD too
abbrev pub is_get : Bytes → Bool
is_get m = str_eq m (text "GET") || str_eq m (text "HEAD")

abbrev pub is_post : Bytes → Bool
is_post m = str_eq m (text "POST")

abbrev pub is_put : Bytes → Bool
is_put m = str_eq m (text "PUT")

abbrev pub is_delete : Bytes → Bool
is_delete m = str_eq m (text "DELETE")

-- `io.LimitReader(r.Body, 1<<20)`
abbrev pub limited : Bytes → Bytes
limited b = take 1048576 b
