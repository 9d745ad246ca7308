-- ===== src/Admin.antt =====
-- app/api/routes/admin.py and app/api/routes/bootstrap.py: tenants and API keys. The new ids and the
-- new raw key of a request, which secrets.token_urlsafe makes, are arguments, and so are sha256 and
-- the secret of the settings.
pub mod Keys
mod Examples
use knowledgebase.Prelude.{
  ℕ, Bool, true, false, not, ◌&&◌, ◌||◌, Option, none, some, List, [], ◌∷◌, ◌++◌, map, ◌==◌,
  if◌then◌else◌,
}
use knowledgebase.Prelude.Text.{Text, codes, same_text}
use knowledgebase.Prelude.Table.{select, update, count, exists, order_desc}
use knowledgebase.Models.{Uuid, Time, Digest, Tenant, ApiKey, Db}
use knowledgebase.Models.Status.{Role}
use knowledgebase.Access.{Answer, answered, http_error, integrity_error, AuthContext}

pub record KeyResponse : Type 0 where
  pub key_id : Uuid
  pub raw_key : Text
  pub label : Text
  pub role : Role
  pub tenant_id : Uuid

-- f"cortex_{token}"
abbrev pub raw_key_of : Text → Text
raw_key_of token = codes "cortex_" ++ token

-- A clock reading, new ids and a new token.
pub record NewKey : Type 0 where
  pub now : Time
  pub key_id : Uuid
  pub token : Text

module _ (sha256 : Text → Digest) where
  abbrev pub key_row : NewKey → Uuid → Text → Role → ApiKey
  key_row new tenant_id label role = record {
    id = new.key_id;
    tenant_id = tenant_id;
    key_hash = sha256 (raw_key_of new.token);
    label = label;
    role = role;
    is_active = true;
    last_used = none;
    created_at = new.now;
  }

  -- INSERT INTO api_keys; the tenant must exist, and id and hash are unique.
  unfoldable pub add_key : ApiKey → Db → Option Db
  unfolding exists
  add_key key db =
      if exists (λ t. t.id == key.tenant_id) db.tenants
        && not (exists (λ k. (k.id == key.id) || (k.key_hash == key.key_hash)) db.api_keys)
      then some (record db { api_keys = db.api_keys ++ key ∷ [] })
      else none

  abbrev added : KeyResponse → Db → Option Db → Answer KeyResponse × Db
  added response db none = (integrity_error, db)
  added response db (some after) = (answered response, after)

  -- The key is stored as its hash, and the answer shows it once.
  unfoldable pub make_key : NewKey → Uuid → Text → Role → Db → Answer KeyResponse × Db
  unfolding add_key
  make_key new tenant_id label role db =
      added
        (record {
          key_id = new.key_id;
          raw_key = raw_key_of new.token;
          label = label;
          role = role;
          tenant_id = tenant_id;
        })
        db (add_key (key_row new tenant_id label role) db)

  abbrev role_named : Text → Option Role
  role_named s =
      if same_text s (codes "admin")
      then some Role.admin
      else if same_text s (codes "editor")
      then some Role.editor
      else if same_text s (codes "viewer")
      then some Role.viewer
      else none

  abbrev target : Option Uuid → Uuid → Uuid
  target none own = own
  target (some id) own = id

  -- The key may be for any tenant.
  unfoldable pub create_api_key :
      NewKey → AuthContext → Text → Text → Option Uuid → Db → Answer KeyResponse × Db
  unfolding make_key same_text
  create_api_key new auth label role tenant_id db = elim (role_named role) [
    | none ↦ (http_error 400, db)
    | some r ↦ make_key new (target tenant_id auth.tenant_id) label r db
  ]

  abbrev is_default_secret : Text → Bool
  is_default_secret s =
      same_text s (codes "change-me-32-chars-minimum")
      || same_text s (codes "change-me-insecure-default")

  -- Without an order, the first tenant is the one that was inserted first.
  abbrev for_first_tenant : NewKey → Text → List Tenant → Db → Answer KeyResponse × Db
  for_first_tenant new label [] db = (http_error 404, db)
  for_first_tenant new label (t ∷ ts) db = make_key new t.id label Role.admin db

  unfoldable pub recover_admin_key : NewKey → Text → Text → Text → Db → Answer KeyResponse × Db
  unfolding same_text make_key
  recover_admin_key new app_secret_key x_secret label db =
      if not (same_text x_secret app_secret_key)
      then (http_error 403, db)
      else if is_default_secret app_secret_key
      then (http_error 403, db)
      else for_first_tenant new label db.tenants db

  -- The first tenant and its admin key.
  unfoldable pub bootstrap : Uuid → NewKey → Db → Answer KeyResponse × Db
  unfolding add_key exists
  bootstrap tenant_id new db = elim db.api_keys [
    | ◌∷◌ k ks ↦ (http_error 409, db)
    | [] ↦
        if exists (λ t. t.id == tenant_id) db.tenants
        then (integrity_error, db)
        else added
            (record {
              key_id = new.key_id;
              raw_key = raw_key_of new.token;
              label = codes "admin-key";
              role = Role.admin;
              tenant_id = tenant_id;
            })
            db
            (add_key (key_row new tenant_id (codes "admin-key") Role.admin) (record db {
              tenants = db.tenants ++ record { id = tenant_id; name = codes "Default" } ∷ [];
            }))
  ]

unfoldable pub create_tenant : Uuid → Text → Db → Answer Uuid × Db
unfolding exists
create_tenant id name db =
    if exists (λ t. t.id == id) db.tenants
    then (integrity_error, db)
    else (answered id, record db { tenants = db.tenants ++ record { id = id; name = name } ∷ [] })

abbrev revoke : ApiKey → ApiKey
revoke k = record k { is_active = false }

abbrev pub is_tenant_key : Uuid → Uuid → ApiKey → Bool
is_tenant_key key_id tenant_id k = (k.id == key_id) && (k.tenant_id == tenant_id)

unfoldable pub revoke_api_key : Uuid → AuthContext → Db → Answer Uuid × Db
unfolding update count
revoke_api_key key_id auth db =
    let after = record db {
      api_keys = update (is_tenant_key key_id auth.tenant_id) revoke db.api_keys;
    } in
    if count (is_tenant_key key_id auth.tenant_id) db.api_keys == 0
    then (http_error 404, after)
    else (answered key_id, after)

-- The rows that the listing shows; it leaves out their hashes.
unfoldable pub list_api_keys : AuthContext → Db → List ApiKey
unfolding select order_desc
list_api_keys auth db =
    order_desc (λ k. k.created_at) (select (λ k. k.tenant_id == auth.tenant_id) db.api_keys)
