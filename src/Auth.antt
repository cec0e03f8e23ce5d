-- ===== src/Auth.antt =====
-- Authentication by API key, and the admin gate (backend/src/sovereign_rag/auth.py).
pub mod Keys
mod Tests
use sovereign_rag.Base.{
  ℕ, ◌+◌, Option, none, some, List, [], ◌∷◌, Bool, true, false, not, ◌&&◌, ◌||◌, leb, ◌==◌,
  if◌then◌else◌, is_empty, map, exists_in,
}
use sovereign_rag.Text.{Text, codes, same_text}

pub record User : Type 0 where
  pub id : Text
  -- the role `admin`, the only one there is
  pub is_admin : Bool

-- `header.partition(" ")`: what stands before and behind the first space
unfoldable pub partition : Text → Text × Text
partition [] = ([], [])
partition (c ∷ s) = if c == b' ' then ([], s) else (c ∷ (partition s).0, (partition s).1)

-- `str.lower` of ASCII; no other character becomes a letter of `bearer`
abbrev pub lower : Text → Text
lower s = map (λ c. if leb 65 c && leb c 90 then c + 32 else c) s

-- the loop over every key, without an early exit
unfoldable pub match_keys : List (Text × Text) → Text → Option Text → Option Text
match_keys [] candidate matched = matched
match_keys ((key, user_id) ∷ keys) candidate matched =
    match_keys keys candidate (if same_text candidate key then some user_id else matched)

abbrev pub user_of : List Text → Option Text → Option User
user_of admins none = none
user_of admins (some id) = some (record { id = id; is_admin = exists_in (same_text id) admins })

-- `ApiKeyAuth.authenticate`, of the `Authorization` header; `keys` is a dict
unfoldable pub authenticate : List (Text × Text) → List Text → Option Text → Option User
unfolding partition match_keys
authenticate keys admins none = none
authenticate keys admins (some header) =
    let (scheme, candidate) = partition header in
    if not (same_text (lower scheme) (codes "bearer")) || is_empty candidate
    then none
    else user_of admins (match_keys keys candidate none)

-- the status of a response that is refused, or the user
pub data Gate : Type 0 where
  refused : ℕ → Gate
  passed : User → Gate

-- `get_current_user`
unfoldable pub get_current_user : Option User → Gate
get_current_user none = refused 401
get_current_user (some user) = passed user

-- `require_admin`, behind `get_current_user`
unfoldable pub require_admin : Gate → Gate
require_admin (refused status) = refused status
require_admin (passed user) = if user.is_admin then passed user else refused 403
