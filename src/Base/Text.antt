-- ===== src/Base/Text.antt =====
-- Literals of the source as bytes.
use mathlib.Core.Bool.{Bool, true, false, ◌&&◌}
use iocp_engine.Base.Tests.{◌==◌}
use mathlib.Core.List.{List, [], ◌∷◌}
use Prim.Native.Nat.{ℕ}
use Prim.Native.Char.{code}
use Prim.Native.String.{String, [] as []ₛ, ◌∷◌ as ◌∷ₛ◌}

-- The bytes of a text in ASCII.
abbrev pub ascii : String → List ℕ
ascii []ₛ = []
ascii (c ∷ₛ s) = code c ∷ ascii s

-- `starts_with`
unfoldable pub starts_with : List ℕ → List ℕ → Bool
starts_with text [] = true
starts_with [] (p ∷ prefix) = false
starts_with (c ∷ text) (p ∷ prefix) = c == p && starts_with text prefix
