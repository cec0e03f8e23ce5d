-- ===== src/Auth/Tests.antt =====
-- Authentication at two keys.
use sovereign_rag.Base.{◌≡◌, refl, Option, none, some, List, [], ◌∷◌, true}
use sovereign_rag.Text.{Text, codes, same_text}
use sovereign_rag.Auth.{
  User, partition, match_keys, authenticate, Gate, refused, passed, get_current_user, require_admin,
}
use sovereign_rag.Auth.Keys.{IsAdmitted, require_admin-IsAdmitted}

abbrev two_keys : List (Text × Text)
two_keys = (codes "k-alice", codes "alice") ∷ (codes "k-bob", codes "bob") ∷ []

abbrev alice_only : List Text
alice_only = codes "alice" ∷ []

abbrev alice : User
alice = record { id = codes "alice"; is_admin = true }

abbrev gate : Option Text → Gate
gate header = require_admin (get_current_user (authenticate two_keys alice_only header))

require_admin-IsAdmitted_example :
    IsAdmitted two_keys alice_only (some (codes "Bearer k-alice")) alice
unfolding authenticate partition match_keys same_text get_current_user require_admin
require_admin-IsAdmitted_example =
    require_admin-IsAdmitted two_keys alice_only (some (codes "Bearer k-alice")) alice refl

gates :
    (gate (some (codes "bEARER k-alice")) ≡ passed alice)
    × (gate (some (codes "Bearer k-bob")) ≡ refused 403)
    × (gate (some (codes "Bearer k-carol")) ≡ refused 401)
    × (gate (some (codes "Basic k-alice")) ≡ refused 401)
    × (gate none ≡ refused 401)
unfolding authenticate partition match_keys same_text get_current_user require_admin
gates = (refl, refl, refl, refl, refl)
