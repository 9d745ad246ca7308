-- ===== src/Admin/Keys.antt =====
-- A new API key of app/api/routes/admin.py, when it is used (`get_auth` of app/api/deps.py).
use knowledgebase.Prelude.{
  ◌≡◌, inl, inr, refl, sym, false, ◌&&◌, ◌||◌, Option, List, [], ◌∷◌, ◌++◌, arith, ◌==◌, ==_refl,
  Bool-cases, Option-cases,
}
use knowledgebase.Prelude.Text.{Text}
use knowledgebase.Prelude.Table.{select, exists}
use knowledgebase.Prelude.Counts.{select-append}
use knowledgebase.Models.{Uuid, Time, Digest, ApiKey, Db}
use knowledgebase.Models.Status.{Role}
use knowledgebase.Access.{answered, http_error, integrity_error, AuthContext, get_auth}
use knowledgebase.Admin.{
  KeyResponse, NewKey, raw_key_of, key_row, add_key, make_key, role_named, target, create_api_key,
}

abbrev of_response : KeyResponse → AuthContext
of_response r = record { key_id = r.key_id; tenant_id = r.tenant_id; role = r.role }

-- No active key has a hash that no key has.
unused :
    (key : ApiKey) (keys : List ApiKey)
    → exists (λ k. (k.id == key.id) || (k.key_hash == key.key_hash)) keys ≡ false
    → select (λ k. (k.key_hash == key.key_hash) && k.is_active) keys ≡ []
unfolding exists select
unused key [] h = refl
unused key (k ∷ keys) h =
    let parts : ((k.key_hash == key.key_hash) ≡ false)
        × (exists (λ k. (k.id == key.id) || (k.key_hash == key.key_hash)) keys ≡ false) =
      ground arith in
    rw parts.0 (unused key keys parts.1)

module _ (sha256 : Text → Digest) where
  -- A key that was just inserted opens the door.
  login_row :
      (now : Time) (new : NewKey) (tenant : Uuid) (label : Text) (role : Role) (db : Db)
      → exists
          (λ k. (k.id == new.key_id) || (k.key_hash == sha256 (raw_key_of new.token)))
          db.api_keys
        ≡ false
      → (get_auth sha256 now
          (raw_key_of new.token)
          (record db { api_keys = db.api_keys ++ key_row sha256 new tenant label role ∷ [] })).0
        ≡ answered (record { key_id = new.key_id; tenant_id = tenant; role = role })
  unfolding get_auth
  login_row now new tenant label role db free =
      rw
        (
          select-append (λ k. (k.key_hash == sha256 (raw_key_of new.token)) && k.is_active)
              db.api_keys (key_row sha256 new tenant label role),
          unused (key_row sha256 new tenant label role) db.api_keys free,
          ==_refl (sha256 (raw_key_of new.token)),
          get_auth,
        )
        refl

  login :
      (now : Time) (new : NewKey) (tenant : Uuid) (label : Text) (role : Role) (db : Db)
      (r : KeyResponse)
      → (make_key sha256 new tenant label role db).0 ≡ answered r
      → (get_auth sha256 now r.raw_key (make_key sha256 new tenant label role db).1).0
        ≡ answered (of_response r)
  unfolding make_key add_key
  login now new tenant label role db r h =
      elim (Bool-cases (exists (λ t. t.id == tenant) db.tenants)) [
        | inr e ↦ absurd (refused db (rw e at h))
        | inl e ↦
            elim (Bool-cases (
              exists (λ k. (k.id == new.key_id) || (k.key_hash == sha256 (raw_key_of new.token)))
                db.api_keys)) [
                  | inl f ↦ absurd (refused db (rw (e, f) at h))
                  | inr f ↦
                      let same : first_answer ≡ r = ground (arith, (rw (e, f) at h)) in
                      rw (e, f, sym same) (login_row now new tenant label role db f)
                ]
      ]
    where
      refused : (d : Db) → integrity_error ≡ answered r → ⊥
      refused d k = cc

      first_answer : KeyResponse
      first_answer = record {
        key_id = new.key_id;
        raw_key = raw_key_of new.token;
        label = label;
        role = role;
        tenant_id = tenant;
      }

  -- A key that the route has created lets its owner in, as the key's tenant and with the key's role.
  pub create_api_key-get_auth :
      (now : Time) (new : NewKey) (auth : AuthContext) (label role : Text) (tenant : Option Uuid)
      (db : Db) (r : KeyResponse)
      → (create_api_key sha256 new auth label role tenant db).0 ≡ answered r
      → (get_auth sha256 now r.raw_key (create_api_key sha256 new auth label role tenant db).1).0
        ≡ answered (of_response r)
  unfolding create_api_key
  create_api_key-get_auth now new auth label role tenant db r h =
      elim (Option-cases (role_named sha256 role)) [
        | inl e ↦ absurd (unknown (rw (e, create_api_key) at h))
        | inr (known, e) ↦
            rw (e, create_api_key)
              (login now new (target sha256 tenant auth.tenant_id) label known db r
                (rw (e, create_api_key) at h))
      ]
    where
      unknown : http_error 400 ≡ answered r → ⊥
      unknown k = cc
