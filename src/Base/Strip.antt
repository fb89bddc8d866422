-- ===== src/Base/Strip.antt =====
-- `str.strip` for the white space of ASCII.
use Prim.Native.Nat.{ℕ}
use mathlib.Core.Bool.{Bool, ◌&&◌, ◌||◌}
use mathlib.Core.List.{[], ◌∷◌}
use remote_connect_backend.Base.Tests.{leb, ◌==◌, if◌then◌else◌}
use remote_connect_backend.Base.Text.{Text}

abbrev is_space : ℕ → Bool
is_space c = (c == 32) || (leb 9 c && leb c 13) || (leb 28 c && leb c 31)

unfoldable pub strip_start : Text → Text
strip_start [] = []
strip_start (c ∷ cs) = let rest = strip_start cs in if is_space c then rest else c ∷ cs

abbrev end_kept : ℕ → Text → Text
end_kept c [] = if is_space c then [] else c ∷ []
end_kept c (d ∷ ds) = c ∷ d ∷ ds

unfoldable pub strip_end : Text → Text
strip_end [] = []
strip_end (c ∷ cs) = end_kept c (strip_end cs)
