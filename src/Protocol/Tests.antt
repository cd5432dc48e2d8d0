-- ===== src/Protocol/Tests.antt =====
-- `pr_encapsulate` at three bytes, the second of them an edge, and room for three.
use os_unixvr4_labs.Common.{ℕ, suc, ◌≤◌, ◌<◌, ◌≡◌, refl, List, [], ◌∷◌, length, take}
use os_unixvr4_labs.Protocol.{pr_encapsulate, need_escape}
use os_unixvr4_labs.Protocol.Escape.{escape}
use os_unixvr4_labs.Protocol.Encapsulate.{pr_encapsulate_lem}

abbrev text : List ℕ
text = 65 ∷ 126 ∷ 66 ∷ []

pr_encapsulate-text : pr_encapsulate text 3 ≡ (2, 65 ∷ 125 ∷ 126 ∷ [])
unfolding pr_encapsulate need_escape
pr_encapsulate-text = refl

pr_encapsulate_lem_example :
    let (k, stored) = pr_encapsulate text 3 in
    (k ≤ 3)
    × (stored ≡ escape (take k text))
    × (length stored ≤ 3)
    × (k < 3 → 3 < length (escape (take (suc k) text)))
pr_encapsulate_lem_example = pr_encapsulate_lem text 3
