-- ===== src/Prelude/Text.antt =====
-- Native strings as lists of code points, and tests on code points.
use Prim.Native.Nat.{ℕ}
use Prim.Native.Char.{code}
use Prim.Native.String.{String, ◌∷◌}
use mathlib.Core.Bool.{Bool, ◌&&◌, ◌||◌}
use mathlib.Core.List.{List, []}
use text.Mathlib.Text.{◌==◌ as str_eq}
use enhanced_ssh.Prelude.Tests.{leb, ◌==◌}

-- The code points of a text.
abbrev pub codes : String → List ℕ
codes String.[] = []
codes (c ∷ s) = List.◌∷◌ (code c) (codes s)

abbrev pub all {ℓ} : {A : Type ℓ} → (A → Bool) → List A → Bool
all p [] = Bool.true
all p (List.◌∷◌ x xs) = p x && all p xs

abbrev pub any {ℓ} : {A : Type ℓ} → (A → Bool) → List A → Bool
any p [] = Bool.false
any p (List.◌∷◌ x xs) = p x || any p xs

-- [A-Za-z0-9]
abbrev pub is_alphanumeric : ℕ → Bool
is_alphanumeric c =
    (leb b'A' c && leb c b'Z') || (leb b'a' c && leb c b'z') || (leb b'0' c && leb c b'9')

-- [A-Za-z0-9_-]
abbrev pub is_base64url : ℕ → Bool
is_base64url c = is_alphanumeric c || c == b'_' || c == b'-'

-- Whether a text is in a list: `Set.has` and `Array.includes`.
abbrev pub includes : String → List String → Bool
includes x xs = any (λ y. str_eq y x) xs
