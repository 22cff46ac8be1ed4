-- ===== src/Prelude/Text.antt =====
-- The bytes of a text, for code that walks it; exact for ASCII.
use Prim.Native.Char.{code}
use protocol_gateway.Prelude.{ℕ, String, List, [], ◌∷◌}

abbrev pub bytes : String → List ℕ
bytes String.[] = []
bytes (String.◌∷◌ c s) = code c ∷ bytes s
