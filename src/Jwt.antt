-- ===== src/Jwt.antt =====
-- internal/jwt/jwt.go: the tokens that the control plane signs and the agents verify. What Go's
-- packages for base64, JSON, SHA-256 and RSA answer comes through a `Crypto`.
pub mod Accepted
pub mod RoundTrip
pub mod Keys
pub mod Toy
mod Samples
use lean_sandbox.Common.{
  ℕ, Bool, true, false, Option, none, some, List, [], ◌∷◌, ◌++◌, ◌==◌, ◌/◌, if◌then◌else◌,
}
use lean_sandbox.Common.Int.{ℤ, pos, negsuc, ◌+ℤ◌, leb_ℤ, ltb_ℤ}
use lean_sandbox.Common.Text.{Bytes, text, str_eq}

pub record Claims : Type 0 where
  pub sub : Bytes
  pub iat : ℤ
  pub exp : ℤ

pub record Crypto : Type 1 where
  pub PrivateKey : Type 0
  pub PublicKey : Type 0
  pub public_key : PrivateKey → PublicKey
  -- `base64.RawURLEncoding`
  pub encode : Bytes → Bytes
  pub decode : Bytes → Option Bytes
  -- `json.Marshal` and `json.Unmarshal` of claims, and `json.Unmarshal` of the field `alg`
  pub marshal : Claims → Option Bytes
  pub unmarshal : Bytes → Option Claims
  pub alg : Bytes → Option Bytes
  pub sha256 : Bytes → Bytes
  -- `rsa.SignPKCS1v15` and `rsa.VerifyPKCS1v15`
  pub sign_digest : PrivateKey → Bytes → Option Bytes
  pub verify_digest : PublicKey → Bytes → Bytes → Bool

-- the errors of `Verify`
pub data Refusal : Type 0 where
  malformed : Refusal
  bad_header : Refusal
  alg_not_allowed : Bytes → Refusal
  bad_claims : Refusal
  sub_mismatch : Refusal
  expired : Refusal
  issued_in_future : Refusal
  bad_encoding : Refusal
  bad_signature : Refusal

-- `t.Unix()`, of a time in nanoseconds: the second that it lies in
abbrev pub unix : ℤ → ℤ
unix (pos n) = pos (n / 1000000000)
unix (negsuc n) = negsuc (n / 1000000000)

abbrev pub five_minutes : ℤ
five_minutes = pos 300000000000

abbrev pub rs256 : Bytes
rs256 = text "RS256"

abbrev pub header_json : Bytes
header_json = text "{\"alg\":\"RS256\",\"typ\":\"JWT\"}"

-- a byte in front of the first part
abbrev pub push : ℕ → List Bytes → List Bytes
push c [] = (c ∷ []) ∷ []
push c (p ∷ ps) = (c ∷ p) ∷ ps

-- `strings.Split(token, ".")`
unfoldable pub split : Bytes → List Bytes
split [] = [] ∷ []
split (c ∷ s) = let rest = split s in if c == b'.' then [] ∷ rest else push c rest

abbrev pub join : Bytes → Bytes → Bytes
join a b = a ++ b'.' ∷ b

-- The checks of `Verify`, each with the ones behind it as `rest`, where `none` is success.
abbrev pub check_alg : Option Bytes → Option Refusal → Option Refusal
check_alg none rest = some bad_header
check_alg (some a) rest = if str_eq a rs256 then rest else some (alg_not_allowed a)

abbrev pub check_header : Crypto → Option Bytes → Option Refusal → Option Refusal
check_header k none rest = some bad_header
check_header k (some hb) rest = check_alg (k.alg hb) rest

abbrev pub check_fields : Bytes → ℤ → Option Claims → Option Refusal → Option Refusal
check_fields id now none rest = some bad_claims
check_fields id now (some c) rest =
    if str_eq c.sub id
    then (if leb_ℤ c.exp (unix now)
        then some expired
        else if ltb_ℤ (unix (now +ℤ five_minutes)) c.iat
        then some issued_in_future
        else rest)
    else some sub_mismatch

abbrev pub check_claims : Crypto → Bytes → ℤ → Option Bytes → Option Refusal → Option Refusal
check_claims k id now none rest = some bad_claims
check_claims k id now (some pb) rest = check_fields id now (k.unmarshal pb) rest

abbrev pub check_signature : (k : Crypto) → k.PublicKey → Bytes → Option Bytes → Option Refusal
check_signature k key signed none = some bad_encoding
check_signature k key signed (some sig) =
    if k.verify_digest key (k.sha256 signed) sig then none else some bad_signature

abbrev pub verify_parts : (k : Crypto) → List Bytes → k.PublicKey → Bytes → ℤ → Option Refusal
verify_parts k [] key id now = some malformed
verify_parts k (h ∷ []) key id now = some malformed
verify_parts k (h ∷ p ∷ []) key id now = some malformed
verify_parts k (h ∷ p ∷ s ∷ []) key id now =
    check_header k (k.decode h)
      (check_claims k id now (k.decode p) (check_signature k key (join h p) (k.decode s)))
verify_parts k (h ∷ p ∷ s ∷ t ∷ ts) key id now = some malformed

-- `func Verify(token, pub, sandboxID, now) error`
unfoldable pub verify : (k : Crypto) → Bytes → k.PublicKey → Bytes → ℤ → Option Refusal
unfolding split
verify k token key id now = verify_parts k (split token) key id now

-- the end of `Sign`, behind the signature
abbrev pub with_signature : Crypto → Bytes → Option Bytes → Option Bytes
with_signature k signed none = none
with_signature k signed (some sig) = some (signed ++ b'.' ∷ k.encode sig)

-- the end of `Sign`, behind `json.Marshal`
abbrev pub sign_claims : (k : Crypto) → k.PrivateKey → Option Bytes → Option Bytes
sign_claims k key none = none
sign_claims k key (some cl) =
    let signed = join (k.encode header_json) (k.encode cl) in
    with_signature k signed (k.sign_digest key (k.sha256 signed))

-- `func Sign(key, sub, ttl) (string, error)`, at the time `now`
unfoldable pub sign : (k : Crypto) → k.PrivateKey → Bytes → ℤ → ℤ → Option Bytes
sign k key sub ttl now =
    sign_claims k key (k.marshal (record { sub = sub; iat = unix now; exp = unix (now +ℤ ttl) }))
