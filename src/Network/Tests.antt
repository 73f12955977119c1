-- ===== src/Network/Tests.antt =====
-- The theorems on addresses and packets at concrete inputs.
use ptun.Base.{[], ◌∷◌}
use ptun.Network.{skip_extension_headers}
use ptun.Network.Laws.{Walk, skip_extension_headers-Walk}

skip_extension_headers-Walk_example :
    Walk (6 ∷ 0 ∷ []) 0 43 (skip_extension_headers (6 ∷ 0 ∷ []) 43)
skip_extension_headers-Walk_example = skip_extension_headers-Walk (6 ∷ 0 ∷ []) 43
