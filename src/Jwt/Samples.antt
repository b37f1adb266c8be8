-- ===== src/Jwt/Samples.antt =====
-- The theorems about tokens in a small instance of the packages.
use lean_sandbox.Common.{◌≡◌, ◌↔◌, none, arith}
use lean_sandbox.Common.Int.{pos}
use lean_sandbox.Common.Text.{text}
use lean_sandbox.Jwt.{split, verify}
use lean_sandbox.Jwt.Toy.{toy, toy-Lawful, token, sign-token}
use lean_sandbox.Jwt.Accepted.{Accepts, verify_iff}
use lean_sandbox.Jwt.RoundTrip.{verify-sign}

verify-sign_example : verify toy token 5 (text "7") (pos 999000000000) ≡ none
verify-sign_example =
    verify-sign toy 5 (text "7") token (pos 900000000000) (pos 100000000000) (pos 999000000000)
      toy-Lawful sign-token (omega arith) (omega arith)

verify_iff_example :
    (verify toy token 5 (text "7") (pos 999000000000) ≡ none)
    ↔ Accepts toy (split token) 5 (text "7") (pos 999000000000)
verify_iff_example = verify_iff toy token 5 (text "7") (pos 999000000000)
