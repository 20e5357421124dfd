-- ===== src/Control/Uploads.antt =====
-- What the upload of logs delivers, and what it costs.
use ai_kodu_runner.Base.{List, [], ◌∷◌}

-- The order of the first list, with some of its items left out.
pub data IsSublist {ℓ} {A : Type ℓ} : List A → List A → Type ℓ where
  none_left : IsSublist [] []
  kept : {x : A} {xs ys : List A} → IsSublist xs ys → IsSublist (x ∷ xs) (x ∷ ys)
  left_out : {x : A} {xs ys : List A} → IsSublist xs ys → IsSublist xs (x ∷ ys)
