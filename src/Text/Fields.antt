-- ===== src/Text/Fields.antt =====
-- Fields with their length in front, for the encodings that the tests run in place of JSON.
use rightsizer.Prelude.{◌≡◌, refl, Option, none, some, [], ◌∷◌, ◌++◌, arith, length, take, drop}
use rightsizer.Text.{Text}

infixl 5 ◌>>=◌
abbrev pub ◌>>=◌ {ℓ κ} : {A : Type ℓ} {B : Type κ} → Option A → (A → Option B) → Option B
none >>= f = none
some a >>= f = f a

abbrev pub encode_text : Text → Text
encode_text t = length t ∷ t

unfoldable pub decode_text : Text → Option (Text × Text)
decode_text [] = none
decode_text (n ∷ r) = some (take n r, drop n r)

take-drop : (t r : Text) → (take (length t) (t ++ r) ≡ t) × (drop (length t) (t ++ r) ≡ r)
take-drop [] r = (refl, refl)
take-drop (c ∷ t) r = ground (arith, take-drop t r)

pub decode_text-encode : (t r : Text) → decode_text (encode_text t ++ r) ≡ some (t, r)
unfolding decode_text
decode_text-encode t r = ground (arith, take-drop t r)
