-- ===== src/Jwt/RoundTrip.antt =====
-- A token that `Sign` makes is one that `Verify` accepts.
use lean_sandbox.Common.{sym}
use lean_sandbox.Common.{
  ◌≡◌, ◌≢◌, refl, ap, ◌∙◌, true, inl, inr, Option, none, some, [], ◌∷◌, ◌==◌, arith, Bool-cases,
  Option-cases, All,
}
use mathlib.Core.Path.{subst}
use mathlib.Core.List.{append_assoc}
use lean_sandbox.Common.Int.{ℤ, ◌+ℤ◌, ◌≤ℤ◌, ◌<ℤ◌}
use lean_sandbox.Common.Text.{Bytes}
use lean_sandbox.Jwt.{
  Claims, Crypto, unix, five_minutes, rs256, header_json, split, join, verify, sign_claims, sign,
}
use lean_sandbox.Jwt.Accepted.{verify_iff}

-- What the packages promise: decoding undoes encoding, the encoding has no full stop, JSON reads
-- back what it wrote, the header is read as RS256, and a signature verifies with the key's own
-- public key.
pub record Lawful (k : Crypto) : Type 0 where
  pub decode_encode : (b : Bytes) → k.decode (k.encode b) ≡ some b
  pub no_stop : (b : Bytes) → All (λ c. c ≢ b'.') (k.encode b)
  pub unmarshal_marshal : (c : Claims) (b : Bytes) → k.marshal c ≡ some b → k.unmarshal b ≡ some c
  pub alg_header : k.alg header_json ≡ some rs256
  pub verify_sign :
      (key : k.PrivateKey) (d s : Bytes)
      → k.sign_digest key d ≡ some s
      → k.verify_digest (k.public_key key) d s ≡ true

split_plain : (s : Bytes) → All (λ c. c ≢ b'.') s → split s ≡ s ∷ []
unfolding split
split_plain [] a = refl
split_plain (c ∷ s) a = elim (Bool-cases (c == b'.')) [
  | inl e ↦ absurd (a.0 (ground arith))
  | inr e ↦ rw (e, split_plain s a.1) refl
]

split-join : (s rest : Bytes) → All (λ c. c ≢ b'.') s → split (join s rest) ≡ s ∷ split rest
unfolding split
split-join [] rest a = refl
split-join (c ∷ s) rest a = elim (Bool-cases (c == b'.')) [
  | inl e ↦ absurd (a.0 (ground arith))
  | inr e ↦ rw (e, split-join s rest a.1) refl
]

split_three :
    (h p s : Bytes)
    → All (λ c. c ≢ b'.') h
    → All (λ c. c ≢ b'.') p
    → All (λ c. c ≢ b'.') s
    → split (join (join h p) s) ≡ h ∷ p ∷ s ∷ []
split_three h p s a b c =
    ap split (append_assoc h (b'.' ∷ p) (b'.' ∷ s))
    ∙ split-join h (join p s) a
    ∙ ap (◌∷◌ h) (split-join p s b ∙ ap (◌∷◌ p) (split_plain s c))

sign_claims-some :
    (k : Crypto) (key : k.PrivateKey) (o : Option Bytes) (token : Bytes)
    → sign_claims k key o ≡ some token
    → (cl sig : Bytes) × (o ≡ some cl)
      × (k.sign_digest key (k.sha256 (join (k.encode header_json) (k.encode cl))) ≡ some sig)
      × (token ≡ join (join (k.encode header_json) (k.encode cl)) (k.encode sig))
sign_claims-some k key none token e = absurd (cc e)
sign_claims-some k key (some cl) token e =
    let signed = join (k.encode header_json) (k.encode cl) in
    elim (Option-cases (k.sign_digest key (k.sha256 signed))) [
      | inl n ↦ absurd (cc (rw n at e))
      | inr (sig, f) ↦ (cl, sig, refl, f, cc (rw f at e))
    ]

-- Where the packages keep their promises, a token that is signed for a sandbox is accepted for it,
-- by the public key of the key that signed it, until its time to live has passed, by a clock that
-- is at most five minutes behind the signer's.
pub verify-sign :
    (k : Crypto) (key : k.PrivateKey) (sub token : Bytes) (ttl now later : ℤ)
    → Lawful k
    → sign k key sub ttl now ≡ some token
    → unix later <ℤ unix (now +ℤ ttl)
    → unix now ≤ℤ unix (later +ℤ five_minutes)
    → verify k token (k.public_key key) sub later ≡ none
verify-sign k key sub token ttl now later law e live behind =
    let claims : Claims = record { sub = sub; iat = unix now; exp = unix (now +ℤ ttl) } in
    let (cl, sig, f, g, q) = sign_claims-some k key (k.marshal claims) token (unfold sign in e) in
    let h = k.encode header_json in
    let p = k.encode cl in
    let s = k.encode sig in
    (verify_iff k token (k.public_key key) sub later).1 (record {
      h = h;
      p = p;
      s = s;
      header = header_json;
      payload = cl;
      claims = claims;
      signature = sig;
      three =
          ap split q
          ∙ split_three h p s (law.no_stop header_json) (law.no_stop cl) (law.no_stop sig);
      its_header = law.decode_encode header_json;
      its_alg = law.alg_header;
      its_payload = law.decode_encode cl;
      its_claims = law.unmarshal_marshal claims cl f;
      its_sub = refl;
      not_expired = live;
      issued = behind;
      its_signature = law.decode_encode sig;
      verified = law.verify_sign key (k.sha256 (join h p)) sig g;
    })

-- A signed token is accepted for no other sandbox, and by no other time.
pub verify-sign_sub :
    (k : Crypto) (key : k.PrivateKey) (pub_key : k.PublicKey) (sub token id : Bytes)
    (ttl now later : ℤ)
    → Lawful k
    → sign k key sub ttl now ≡ some token
    → verify k token pub_key id later ≡ none
    → (id ≡ sub) × (unix later <ℤ unix (now +ℤ ttl))
verify-sign_sub k key pub_key sub token id ttl now later law e v =
    let claims : Claims = record { sub = sub; iat = unix now; exp = unix (now +ℤ ttl) } in
    let (cl, sig, f, g, q) = sign_claims-some k key (k.marshal claims) token (unfold sign in e) in
    let a = (verify_iff k token pub_key id later).0 v in
    let three =
      ap split q
      ∙ split_three (k.encode header_json) (k.encode cl) (k.encode sig) (law.no_stop header_json)
          (law.no_stop cl) (law.no_stop sig) in
    let same_p : k.encode cl ≡ a.p = cc (three, a.three) in
    let same_cl : some cl ≡ some a.payload =
      sym (law.decode_encode cl) ∙ ap k.decode same_p ∙ a.its_payload in
    let same : some claims ≡ some a.claims =
      sym (law.unmarshal_marshal claims cl f) ∙ ap k.unmarshal (cc same_cl) ∙ a.its_claims in
    let eq : claims ≡ a.claims = cc same in
    (
      sym a.its_sub ∙ sym (ap (λ c. c.sub) eq),
      subst (λ c. unix later <ℤ c.exp) (sym eq) a.not_expired,
    )
