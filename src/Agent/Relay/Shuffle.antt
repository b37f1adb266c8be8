-- ===== src/Agent/Relay/Shuffle.antt =====
-- Two lists mixed into one.
use lean_sandbox.Common.{List, [], ◌∷◌, ◌++◌}

-- The third list has the elements of the first two, those of each in its order.
pub data Shuffle {A : Type 0} : List A → List A → List A → Type 0 where
  neither : Shuffle [] [] []
  left : {xs ys zs : List A} (a : A) → Shuffle xs ys zs → Shuffle (a ∷ xs) ys (a ∷ zs)
  right : {xs ys zs : List A} (a : A) → Shuffle xs ys zs → Shuffle xs (a ∷ ys) (a ∷ zs)

module _ {A : Type 0} where
  all_left : (sent : List A) → Shuffle sent [] sent
  all_left [] = neither
  all_left (a ∷ sent) = left a (all_left sent)

  all_right : (sent : List A) → Shuffle [] sent sent
  all_right [] = neither
  all_right (a ∷ sent) = right a (all_right sent)

  pub Shuffle-left :
      {xs ys zs : List A} (sent : List A) → Shuffle xs ys zs → Shuffle (xs ++ sent) ys (zs ++ sent)
  Shuffle-left sent neither = all_left sent
  Shuffle-left sent (left a m) = left a (Shuffle-left sent m)
  Shuffle-left sent (right a m) = right a (Shuffle-left sent m)

  pub Shuffle-right :
      {xs ys zs : List A} (sent : List A) → Shuffle xs ys zs → Shuffle xs (ys ++ sent) (zs ++ sent)
  Shuffle-right sent neither = all_right sent
  Shuffle-right sent (left a m) = left a (Shuffle-right sent m)
  Shuffle-right sent (right a m) = right a (Shuffle-right sent m)
