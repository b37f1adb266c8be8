-- ===== src/Jwt/Keys.antt =====
-- internal/jwt/jwt.go, `GenerateKey` and `ParsePublicKey`: the key pair of the control plane, and the
-- text by which its public half reaches the agents. An error is its text.
use lean_sandbox.Common.{◌≡◌, refl, sym, ap, ◌∙◌, [], ◌++◌, ◌⊎◌, inl, inr, ◌≢◌}
use lean_sandbox.Common.Text.{Bytes, text}
use lean_sandbox.Jwt.{Crypto}

-- What `x509.ParsePKIXPublicKey` finds in the bytes of a key.
pub data Spki (K : Type 0) : Type 0 where
  no_key : Bytes → Spki K
  rsa_key : K → Spki K
  other_key : Spki K

-- `base64.StdEncoding`, `x509.MarshalPKIXPublicKey` and `x509.ParsePKIXPublicKey`
pub record KeyCoder (c : Crypto) : Type 0 where
  pub encode : Bytes → Bytes
  pub decode : Bytes → Bytes ⊎ Bytes
  pub marshal : c.PublicKey → Bytes ⊎ Bytes
  pub parse : Bytes → Spki c.PublicKey

module _ {c : Crypto} (k : KeyCoder c) where
  abbrev pub encoded_key : c.PrivateKey → Bytes ⊎ Bytes → Bytes ⊎ (c.PrivateKey × Bytes)
  encoded_key key (inl e) = inl e
  encoded_key key (inr der) = inr (key, k.encode der)

  -- `func GenerateKey() (*rsa.PrivateKey, string, error)`, for what `rsa.GenerateKey` returns
  unfoldable pub generate_key : Bytes ⊎ c.PrivateKey → Bytes ⊎ (c.PrivateKey × Bytes)
  generate_key (inl e) = inl e
  generate_key (inr key) = encoded_key key (k.marshal (c.public_key key))

  abbrev pub parsed_key : Spki c.PublicKey → Bytes ⊎ c.PublicKey
  parsed_key (no_key e) = inl (text "parse public key: " ++ e)
  parsed_key (rsa_key key) = inr key
  parsed_key other_key = inl (text "public key is not RSA")

  abbrev pub decoded_key : Bytes ⊎ Bytes → Bytes ⊎ c.PublicKey
  decoded_key (inl e) = inl (text "decode public key: " ++ e)
  decoded_key (inr der) = parsed_key (k.parse der)

  -- `func ParsePublicKey(b64 string) (*rsa.PublicKey, error)`
  unfoldable pub parse_public_key : Bytes → Bytes ⊎ c.PublicKey
  parse_public_key b64 = decoded_key (k.decode b64)

  -- What the packages promise: decoding undoes encoding, a key that was marshalled is parsed as
  -- itself, and no bytes are no key.
  pub record LawfulKeys : Type 0 where
    pub decode_encode : (b : Bytes) → k.decode (k.encode b) ≡ inr b
    pub decode_nothing : k.decode [] ≡ inr []
    pub parse_marshal :
        (key : c.PublicKey) (der : Bytes) → k.marshal key ≡ inr der → k.parse der ≡ rsa_key key
    pub parse_nothing : (key : c.PublicKey) → k.parse [] ≢ rsa_key key

  module _ (law : LawfulKeys) where
    encoded_key-parse :
        (key : c.PrivateKey) (o : Bytes ⊎ Bytes) (made : c.PrivateKey) (b64 : Bytes)
        → k.marshal (c.public_key key) ≡ o
        → encoded_key key o ≡ inr (made, b64)
        → (parse_public_key b64 ≡ inr (c.public_key made)) × (b64 ≢ [])
    unfolding parse_public_key
    encoded_key-parse key (inl e) made b64 m h = absurd (cc h)
    encoded_key-parse key (inr der) made b64 m h =
        let same : key ≡ made = cc h in
        let coded : k.encode der ≡ b64 = cc h in
        let parsed : parse_public_key (k.encode der) ≡ inr (c.public_key key) =
          ap decoded_key (law.decode_encode der)
          ∙ ap parsed_key (law.parse_marshal (c.public_key key) der m) in
        (
          ap parse_public_key (sym coded) ∙ parsed ∙ ap (λ x. inr (c.public_key x)) same,
          λ n. absurd (
              let nothing : k.decode (k.encode der) ≡ inr [] =
                ap k.decode (coded ∙ n) ∙ law.decode_nothing in
              let empty : der ≡ [] = cc (nothing, law.decode_encode der) in
              law.parse_nothing (c.public_key key)
                (sym (ap k.parse empty) ∙ law.parse_marshal (c.public_key key) der m)),
        )

    -- A key that was generated is parsed as its public key, from a text that is not empty.
    pub parse_public_key-generate_key :
        (o : Bytes ⊎ c.PrivateKey) (key : c.PrivateKey) (b64 : Bytes)
        → generate_key o ≡ inr (key, b64)
        → (parse_public_key b64 ≡ inr (c.public_key key)) × (b64 ≢ [])
    unfolding generate_key
    parse_public_key-generate_key (inl e) key b64 h = absurd (cc h)
    parse_public_key-generate_key (inr made) key b64 h =
        encoded_key-parse made (k.marshal (c.public_key made)) key b64 refl h
