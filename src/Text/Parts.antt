-- ===== src/Text/Parts.antt =====
-- strings.Split at one character, and strings.Join.
use Prim.Native.Char.{Char, code}
use layeros.Base.{ℕ, String, eqb, if◌then◌else◌, List, [], ◌∷◌}
use layeros.Text.{◌<>◌}

-- a character in front of the first part
abbrev pub grow : Char → List String → List String
grow c [] = String.◌∷◌ c String.[] ∷ []
grow c (p ∷ ps) = String.◌∷◌ c p ∷ ps

unfoldable pub split : ℕ → String → List String
split sep String.[] = "" ∷ []
split sep (String.◌∷◌ c s) =
    let rest = split sep s in if eqb (code c) sep then "" ∷ rest else grow c rest

unfoldable pub join : String → List String → String
join sep [] = ""
join sep (p ∷ []) = p
join sep (p ∷ q ∷ ps) = p <> sep <> join sep (q ∷ ps)
