-- ===== src/Jwt/Toy.antt =====
-- A small instance of what the packages for base64, JSON, SHA-256 and RSA promise.
use lean_sandbox.Common.{
  ℕ, zero, suc, sym, ◌+◌, ◌-◌, ◌≡◌, ◌≢◌, refl, ap, ◌∙◌, none, some, [], ◌∷◌, Option, arith, All,
  if◌then◌else◌,
}
use lean_sandbox.Common.Int.{ℤ, pos, negsuc}
use lean_sandbox.Common.Text.{Bytes, text, str_eq}
use lean_sandbox.Common.Text.Laws.{str_eq_refl}
use lean_sandbox.Jwt.{Claims, Crypto, rs256, header_json, join, sign}
use lean_sandbox.Jwt.RoundTrip.{Lawful}

abbrev pub shift : Bytes → Bytes
shift [] = []
shift (c ∷ s) = (c + 47) ∷ shift s

abbrev pub shift_back : Bytes → Bytes
shift_back [] = []
shift_back (c ∷ s) = (c - 47) ∷ shift_back s

abbrev pub tag : ℤ → ℕ
tag (pos n) = 0
tag (negsuc n) = 1

abbrev pub size : ℤ → ℕ
size (pos n) = n
size (negsuc n) = n

abbrev pub number : ℕ → ℕ → ℤ
number zero n = pos n
number (suc t) n = negsuc n

abbrev pub read : Bytes → Option Claims
read (a ∷ b ∷ c ∷ d ∷ sub) = some (record { sub = sub; iat = number a b; exp = number c d })
read _ = none

-- Bytes are shifted past the full stop, and a signature is the digest behind the key.
abbrev pub toy : Crypto
toy = record {
  PrivateKey = ℕ;
  PublicKey = ℕ;
  public_key = λ k. k;
  encode = shift;
  decode = λ b. some (shift_back b);
  marshal = λ c. some (tag c.iat ∷ size c.iat ∷ tag c.exp ∷ size c.exp ∷ c.sub);
  unmarshal = read;
  alg = λ b. if str_eq b header_json then some rs256 else none;
  sha256 = λ b. b;
  sign_digest = λ k d. some (k ∷ d);
  verify_digest = λ k d s. str_eq s (k ∷ d);
}

shift_back-shift : (b : Bytes) → shift_back (shift b) ≡ b
shift_back-shift [] = refl
shift_back-shift (c ∷ s) = ground (arith, shift_back-shift s)

shift_no_stop : (b : Bytes) → All (λ c. c ≢ b'.') (shift b)
shift_no_stop [] = tt
shift_no_stop (c ∷ s) = ((λ p. absurd (omega arith)), shift_no_stop s)

pub number-tag : (n : ℤ) → number (tag n) (size n) ≡ n
number-tag (pos n) = refl
number-tag (negsuc n) = refl

abbrev value : Option Bytes → Bytes
value none = []
value (some b) = b

read_marshal :
    (c : Claims) → read (tag c.iat ∷ size c.iat ∷ tag c.exp ∷ size c.exp ∷ c.sub) ≡ some c
read_marshal c = rw (number-tag c.iat, number-tag c.exp) refl

read_back : (c : Claims) (b : Bytes) → toy.marshal c ≡ some b → toy.unmarshal b ≡ some c
read_back c b e = sym (ap read (ap value e)) ∙ read_marshal c

pub toy-Lawful : Lawful toy
toy-Lawful = record {
  decode_encode = λ b. ap some (shift_back-shift b);
  no_stop = shift_no_stop;
  unmarshal_marshal = read_back;
  alg_header = unfold str_eq in refl;
  verify_sign = λ key d s e. ground (arith, str_eq_refl (key ∷ d));
}

-- what `sign` makes for the sandbox 7 at second 100, for 900 seconds
abbrev pub signed : Bytes
signed = join (shift header_json) (shift (0 ∷ 100 ∷ 0 ∷ 1000 ∷ text "7"))

abbrev pub token : Bytes
token = join signed (shift (5 ∷ signed))

pub sign-token : sign toy 5 (text "7") (pos 900000000000) (pos 100000000000) ≡ some token
unfolding sign
sign-token = refl
