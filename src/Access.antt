-- ===== src/Access.antt =====
-- app/api/deps.py: who asks, and with which role; and the answers that the routes give. sha256 of
-- the raw key is a parameter.
use knowledgebase.Prelude.{ℕ, Bool, true, false, ◌&&◌, some, List, [], ◌∷◌, ◌==◌}
use knowledgebase.Prelude.Text.{Text}
use knowledgebase.Prelude.Table.{select, update}
use knowledgebase.Models.{Uuid, Time, Digest, ApiKey, Db}
use knowledgebase.Models.Status.{Role}

-- An answer of a route: a value, an HTTP error, or an exception that nothing catches (500).
pub data Answer (A : Type 0) : Type 0 where
  answered : A → Answer A
  http_error : ℕ → Answer A
  multiple_results integrity_error storage_error : Answer A

-- What `scalar_one_or_none` makes of the rows.
pub data Lookup (A : Type 0) : Type 0 where
  nothing : Lookup A
  one : A → Lookup A
  many : Lookup A

abbrev pub one_or_none : {A : Type 0} → List A → Lookup A
one_or_none [] = nothing
one_or_none (x ∷ []) = one x
one_or_none (x ∷ y ∷ xs) = many

pub record AuthContext : Type 0 where
  pub key_id : Uuid
  pub tenant_id : Uuid
  pub role : Role

abbrev touch : Time → ApiKey → ApiKey
touch now k = record k { last_used = some now }

unfoldable pub get_auth : (Text → Digest) → Time → Text → Db → Answer AuthContext × Db
unfolding select update
get_auth sha256 now raw_key db =
    elim (one_or_none (select (λ k. (k.key_hash == sha256 raw_key) && k.is_active) db.api_keys)) [
      | nothing ↦ (http_error 401, db)
      | one k ↦ (
        answered (record { key_id = k.id; tenant_id = k.tenant_id; role = k.role }),
        record db { api_keys = update (λ r. r.id == k.id) (touch now) db.api_keys },
      )
      | many ↦ (multiple_results, db)
    ]

abbrev pub may_edit : Role → Bool
may_edit Role.admin = true
may_edit Role.editor = true
may_edit Role.viewer = false

abbrev pub is_admin : Role → Bool
is_admin Role.admin = true
is_admin _ = false

-- A dependency that refuses a role.
abbrev guarded : (Role → Bool) → Answer AuthContext → Answer AuthContext
guarded allowed (answered auth) = elim (allowed auth.role) [
  | true ↦ answered auth
  | false ↦ http_error 403
]
guarded allowed refused = refused

unfoldable pub require_editor : (Text → Digest) → Time → Text → Db → Answer AuthContext × Db
unfolding get_auth
require_editor sha256 now raw_key db =
    let auth = get_auth sha256 now raw_key db in (guarded may_edit auth.0, auth.1)

unfoldable pub require_admin : (Text → Digest) → Time → Text → Db → Answer AuthContext × Db
unfolding get_auth
require_admin sha256 now raw_key db =
    let auth = get_auth sha256 now raw_key db in (guarded is_admin auth.0, auth.1)
