-- ===== src/Prelude/Text/Split.antt =====
-- `s.split(sep)` for a separator of one character, and its round trip with `sep.join`.
use Prim.Native.Char.{Char, code}
use Prim.Native.String.{String}
use mathlib.Core.Path.{◌≡◌, refl, ap}
use mathlib.Core.Bool.{Bool, true, not, ◌&&◌}
use mathlib.Core.List.{List, [], ◌∷◌}
use native.Mathlib.Omega.{arith}
use text.Mathlib.TextLemmas.{cons-append, nil-append}
use auditable_scientific_age.Prelude.Tests.{nat_eq, if◌then◌else◌}
use auditable_scientific_age.Prelude.Lists.{all}
use auditable_scientific_age.Prelude.Text.{◌<>◌, join}

-- A character before the first part.
abbrev push_front : Char → List String → List String
push_front c [] = String.◌∷◌ c "" ∷ []
push_front c (s ∷ parts) = String.◌∷◌ c s ∷ parts

unfoldable pub split : Char → String → List String
split sep String.[] = "" ∷ []
split sep (String.◌∷◌ c s) =
    let rest = split sep s in if nat_eq (code c) (code sep) then "" ∷ rest else push_front c rest

-- The separator does not occur.
abbrev pub lacks : Char → String → Bool
lacks sep String.[] = true
lacks sep (String.◌∷◌ c s) = not (nat_eq (code c) (code sep)) && lacks sep s

split_alone : (sep : Char) (s : String) → lacks sep s ≡ true → split sep s ≡ s ∷ []
unfolding split
split_alone sep String.[] h = refl
split_alone sep (String.◌∷◌ c s) h = ground (arith, split_alone sep s)

split-append :
    (sep : Char) (s t : String)
    → lacks sep s ≡ true
    → split sep (s <> String.◌∷◌ sep t) ≡ s ∷ split sep t
unfolding split
split-append sep String.[] t h = rw (nil-append (String.◌∷◌ sep t)) (ground arith)
split-append sep (String.◌∷◌ c s) t h =
    rw (cons-append c s (String.◌∷◌ sep t)) (ground (arith, h, split-append sep s t))

-- Parts without the separator come back from their join; there is at least one, since an empty text
-- splits into one empty part.
pub split-join :
    (sep : Char) (s : String) (parts : List String)
    → all (lacks sep) (s ∷ parts) ≡ true
    → split sep (join (String.◌∷◌ sep "") (s ∷ parts)) ≡ s ∷ parts
split-join sep s [] h = split_alone sep s (ground (arith, h))
split-join sep s (t ∷ parts) h = rw (cons-append sep "" (join (String.◌∷◌ sep "") (t ∷ parts))) (
    rw (nil-append (join (String.◌∷◌ sep "") (t ∷ parts))) (
      rw (split-append sep s (join (String.◌∷◌ sep "") (t ∷ parts)) (ground (arith, h)))
        (ap (λ r. s ∷ r) (split-join sep t parts (ground (arith, h))))))
