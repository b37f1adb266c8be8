-- ===== src/Jwt/Accepted.antt =====
-- Which tokens `Verify` accepts.
use lean_sandbox.Common.{
  ◌≡◌, refl, ap, ◌∙◌, ◌↔◌, Bool, true, false, inl, inr, Option, none, some, List, [], ◌∷◌, arith,
  if◌then◌else◌, Bool-cases,
}
use lean_sandbox.Common.Int.{ℤ, ◌+ℤ◌, ◌≤ℤ◌, ◌<ℤ◌, leb_ℤ, ltb_ℤ}
use lean_sandbox.Common.Text.{Bytes, str_eq}
use lean_sandbox.Common.Text.Laws.{str_eq_iff, str_eq_refl}
use lean_sandbox.Jwt.{
  Claims, Crypto, Refusal, unix, five_minutes, rs256, split, join, check_alg, check_header,
  check_fields, check_claims, check_signature, verify_parts, verify,
}

-- The three parts of a token, and what they say.
pub record Accepts (k : Crypto) (parts : List Bytes) (key : k.PublicKey) (id : Bytes) (now : ℤ)
    : Type 0 where
  pub h : Bytes
  pub p : Bytes
  pub s : Bytes
  pub header : Bytes
  pub payload : Bytes
  pub claims : Claims
  pub signature : Bytes
  pub three : parts ≡ h ∷ p ∷ s ∷ []
  pub its_header : k.decode h ≡ some header
  pub its_alg : k.alg header ≡ some rs256
  pub its_payload : k.decode p ≡ some payload
  pub its_claims : k.unmarshal payload ≡ some claims
  pub its_sub : claims.sub ≡ id
  pub not_expired : unix now <ℤ claims.exp
  pub issued : claims.iat ≤ℤ unix (now +ℤ five_minutes)
  pub its_signature : k.decode s ≡ some signature
  pub verified : k.verify_digest key (k.sha256 (join h p)) signature ≡ true

check_alg-none :
    (o : Option Bytes) (rest : Option Refusal)
    → check_alg o rest ≡ none
    → (o ≡ some rs256) × (rest ≡ none)
check_alg-none none rest e = absurd (cc e)
check_alg-none (some a) rest e = elim (Bool-cases (str_eq a rs256)) [
  | inl h ↦ (ap some ((str_eq_iff a rs256).0 h), rw h at e)
  | inr h ↦ absurd (cc (rw h at e))
]

check_header-none :
    (k : Crypto) (o : Option Bytes) (rest : Option Refusal)
    → check_header k o rest ≡ none
    → (hb : Bytes) × (o ≡ some hb) × (k.alg hb ≡ some rs256) × (rest ≡ none)
check_header-none k none rest e = absurd (cc e)
check_header-none k (some hb) rest e =
    let (a, r) = check_alg-none (k.alg hb) rest e in (hb, refl, a, r)

check_fields-none :
    (id : Bytes) (now : ℤ) (o : Option Claims) (rest : Option Refusal)
    → check_fields id now o rest ≡ none
    → (c : Claims) × (o ≡ some c)
      × (c.sub ≡ id)
      × (unix now <ℤ c.exp)
      × (c.iat ≤ℤ unix (now +ℤ five_minutes))
      × (rest ≡ none)
check_fields-none id now none rest e = absurd (cc e)
check_fields-none id now (some c) rest e = elim (Bool-cases (str_eq c.sub id)) [
  | inr h ↦ absurd (cc (rw h at e))
  | inl h ↦ elim (Bool-cases (leb_ℤ c.exp (unix now))) [
    | inl i ↦ absurd (cc (rw (h, i) at e))
    | inr i ↦ elim (Bool-cases (ltb_ℤ (unix (now +ℤ five_minutes)) c.iat)) [
      | inl j ↦ absurd (cc (rw (h, i, j) at e))
      | inr j ↦ (c, refl, (str_eq_iff c.sub id).0 h, ground arith, ground arith, rw (h, i, j) at e)
    ]
  ]
]

check_claims-none :
    (k : Crypto) (id : Bytes) (now : ℤ) (o : Option Bytes) (rest : Option Refusal)
    → check_claims k id now o rest ≡ none
    → (pb : Bytes) × (o ≡ some pb) × (check_fields id now (k.unmarshal pb) rest ≡ none)
check_claims-none k id now none rest e = absurd (cc e)
check_claims-none k id now (some pb) rest e = (pb, refl, e)

check_signature-none :
    (k : Crypto) (key : k.PublicKey) (signed : Bytes) (o : Option Bytes)
    → check_signature k key signed o ≡ none
    → (sig : Bytes) × (o ≡ some sig) × (k.verify_digest key (k.sha256 signed) sig ≡ true)
check_signature-none k key signed none e = absurd (cc e)
check_signature-none k key signed (some sig) e =
    elim (Bool-cases (k.verify_digest key (k.sha256 signed) sig)) [
      | inl h ↦ (sig, refl, h)
      | inr h ↦ absurd (cc (rw h at e))
    ]

verify_parts-Accepts :
    (k : Crypto) (parts : List Bytes) (key : k.PublicKey) (id : Bytes) (now : ℤ)
    → verify_parts k parts key id now ≡ none
    → Accepts k parts key id now
verify_parts-Accepts k [] key id now e = absurd (cc e)
verify_parts-Accepts k (h ∷ []) key id now e = absurd (cc e)
verify_parts-Accepts k (h ∷ p ∷ []) key id now e = absurd (cc e)
verify_parts-Accepts k (h ∷ p ∷ s ∷ t ∷ ts) key id now e = absurd (cc e)
verify_parts-Accepts k (h ∷ p ∷ s ∷ []) key id now e =
    let (hb, a, b, e1) = check_header-none k (k.decode h) _ e in
    let (pb, c, e2) = check_claims-none k id now (k.decode p) _ e1 in
    let (cl, f, g, i, j, e3) = check_fields-none id now (k.unmarshal pb) _ e2 in
    let (sig, m, v) = check_signature-none k key (join h p) (k.decode s) e3 in
    record {
      h = h;
      p = p;
      s = s;
      header = hb;
      payload = pb;
      claims = cl;
      signature = sig;
      three = refl;
      its_header = a;
      its_alg = b;
      its_payload = c;
      its_claims = f;
      its_sub = g;
      not_expired = i;
      issued = j;
      its_signature = m;
      verified = v;
    }

check_header_pass :
    (k : Crypto) (o : Option Bytes) (hb : Bytes) (rest : Option Refusal)
    → o ≡ some hb
    → k.alg hb ≡ some rs256
    → check_header k o rest ≡ rest
check_header_pass k o hb rest e f =
    ap (λ x. check_header k x rest) e
    ∙ ap (λ x. check_alg x rest) f
    ∙ ground (arith, str_eq_refl rs256)

check_fields_pass :
    (id : Bytes) (now : ℤ) (o : Option Claims) (c : Claims) (rest : Option Refusal)
    → o ≡ some c
    → c.sub ≡ id
    → unix now <ℤ c.exp
    → c.iat ≤ℤ unix (now +ℤ five_minutes)
    → check_fields id now o rest ≡ rest
check_fields_pass id now o c rest e f g h =
    ap (λ x. check_fields id now x rest) e
    ∙ go (leb_ℤ c.exp (unix now)) (ltb_ℤ (unix (now +ℤ five_minutes)) c.iat) (ground arith)
        (ground arith)
  where
    go :
        (late early : Bool)
        → late ≡ false
        → early ≡ false
        → (if str_eq c.sub id
            then (if late
                then some Refusal.expired
                else if early
                then some Refusal.issued_in_future
                else rest)
            else some Refusal.sub_mismatch)
          ≡ rest
    go late early p q = rw (p, q, (str_eq_iff c.sub id).1 f) refl

check_signature_pass :
    (k : Crypto) (key : k.PublicKey) (signed : Bytes) (o : Option Bytes) (sig : Bytes)
    → o ≡ some sig
    → k.verify_digest key (k.sha256 signed) sig ≡ true
    → check_signature k key signed o ≡ none
check_signature_pass k key signed o sig e f = ap (check_signature k key signed) e ∙ rw f refl

Accepts-verify_parts :
    (k : Crypto) (parts : List Bytes) (key : k.PublicKey) (id : Bytes) (now : ℤ)
    → Accepts k parts key id now
    → verify_parts k parts key id now ≡ none
Accepts-verify_parts k parts key id now a =
    let last = check_signature k key (join a.h a.p) (k.decode a.s) in
    let middle = check_claims k id now (k.decode a.p) last in
    ap (λ x. verify_parts k x key id now) a.three
    ∙ check_header_pass k (k.decode a.h) a.header middle a.its_header a.its_alg
    ∙ ap (λ x. check_claims k id now x last) a.its_payload
    ∙ check_fields_pass id now (k.unmarshal a.payload) a.claims last a.its_claims a.its_sub
        a.not_expired a.issued
    ∙ check_signature_pass k key (join a.h a.p) (k.decode a.s) a.signature a.its_signature
        a.verified

-- A token is accepted exactly if it has three parts; its header says RS256; its claims are of this
-- sandbox, not expired, and issued at most five minutes ahead; and its signature verifies over the
-- first two parts.
pub verify_iff :
    (k : Crypto) (token : Bytes) (key : k.PublicKey) (id : Bytes) (now : ℤ)
    → (verify k token key id now ≡ none) ↔ Accepts k (split token) key id now
unfolding verify
verify_iff k token key id now = (
  verify_parts-Accepts k (split token) key id now,
  Accepts-verify_parts k (split token) key id now,
)
