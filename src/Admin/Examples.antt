-- ===== src/Admin/Examples.antt =====
-- A new editor key in a database with one tenant.
use knowledgebase.Prelude.{◌≡◌, refl, none, [], ◌∷◌, length}
use knowledgebase.Prelude.Text.{codes, same_text}
use knowledgebase.Prelude.Table.{exists}
use knowledgebase.Models.{Db, empty_db}
use knowledgebase.Models.Status.{Role}
use knowledgebase.Access.{answered, AuthContext, get_auth}
use knowledgebase.Admin.{KeyResponse, NewKey, raw_key_of, create_api_key}
use knowledgebase.Admin.Keys.{create_api_key-get_auth}

abbrev team : Db
team = record empty_db { tenants = record { id = 9; name = codes "team" } ∷ [] }

abbrev new_key : NewKey
new_key = record { now = 100; key_id = 6; token = codes "abc" }

abbrev admin : AuthContext
admin = record { key_id = 5; tenant_id = 9; role = Role.admin }

abbrev response : KeyResponse
response = record {
  key_id = 6;
  raw_key = raw_key_of (codes "abc");
  label = codes "ci";
  role = Role.editor;
  tenant_id = 9;
}

created :
    (create_api_key (λ s. length s) new_key admin (codes "ci") (codes "editor") none team).0
    ≡ answered response
unfolding create_api_key same_text exists
created = refl

create_api_key-get_auth_example :
    (get_auth
      (λ s. length s)
      200
      (raw_key_of (codes "abc"))
      (create_api_key (λ s. length s) new_key admin (codes "ci") (codes "editor") none team).1).0
    ≡ answered (record { key_id = 6; tenant_id = 9; role = Role.editor })
create_api_key-get_auth_example =
    create_api_key-get_auth (λ s. length s) 200 new_key admin (codes "ci") (codes "editor") none
      team response created
