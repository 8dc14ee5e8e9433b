-- ===== src/Prelude/Bytes.antt =====
-- Byte strings: the standard library's prefix test and indexing on `[u8]`.
use Prim.Native.Nat.{ℕ}
use mathlib.Core.Bool.{Bool, true, false, ◌&&◌}
use mathlib.Core.List.{List, [], ◌∷◌}
use vcp_media_server.Prelude.Tests.{◌==◌}

-- `starts_with`
unfoldable pub starts_with : List ℕ → List ℕ → Bool
starts_with bytes [] = true
starts_with [] (p ∷ ps) = false
starts_with (b ∷ bs) (p ∷ ps) = b == p && starts_with bs ps
