-- ===== src/Vault/Tests.antt =====
-- The laws of the credential store at a concrete client.
use n8n_gw.Vault.{Credential, ok}
use n8n_gw.Vault.Kv.{
  VaultClient, Secret, no_secret, fields, Reply, done, with_retry, Formats, KvStore,
  decode_credential, encode_credential, renewal_interval,
}
use n8n_gw.Vault.Laws.{as_any, decode_credential-encode_credential, renewal_interval_bounds}
use n8n_gw.Vault.Paths.{data_path, metadata_path, path_for}
use n8n_gw.Vault.Separate.{IsComponent, paths_separate}
use n8n_gw.Vault.Start.{started, refused, not_configured, new_store}
use n8n_gw.Vault.Start.Auth.{auth_of, new_store_lem}
use n8n_gw.Config.Complete.{load-IsComplete}
use n8n_gw.Config.Tests.{parsers, env, cfg, loaded}
use n8n_gw.Base.{
  true, ◌≢◌, Lacks, ℕ, ◌*◌, ◌≤◌, ◌≡◌, ◌⊎◌, refl, Text, codes, nat_eq, if◌then◌else◌, Option, none,
  some, [], ◌∷◌, Dict, lookup, insert, remove, arith,
}

-- Times as one byte.
abbrev read_time : Text → Option ℕ
read_time (t ∷ []) = some t
read_time _ = none

abbrev formats : Formats
formats = record { format_time = λ t. t ∷ []; parse_rfc3339 = read_time; hash_component = λ s. s }

abbrev found : Option (Dict Text) → Secret
found none = no_secret
found (some m) = fields (as_any m)

abbrev engine : VaultClient (Dict (Dict Text))
engine = record {
  read = λ path w. (done (found (lookup path w)), w);
  write = λ path payload w. (done tt, insert path payload w);
  delete = λ path w. (done tt, remove path w);
  lookup_self = λ w. (done tt, w);
  renew_self = λ w. (true, w);
  app_role_login = λ role secret w. (done none, w);
  set_token = λ token w. w;
  now = λ w. 9;
}

abbrev kv : KvStore
kv = record {
  mount = codes "secret";
  prefix = codes "n8n";
  role_id = codes "role";
  secret_id = codes "id";
}

abbrev alice : Credential
alice = record {
  issuer = codes "idp";
  subject = codes "alice";
  email = [];
  n8n_email_or_login_id = codes "alice@example.org";
  n8n_password = codes "pw";
  linked_at = 3;
  updated_at = 4;
}

decode_credential-encode_credential_example :
    decode_credential formats (as_any (encode_credential formats alice)) ≡ ok alice
decode_credential-encode_credential_example =
    decode_credential-encode_credential formats alice (ground arith) (ground arith) (ground arith)
      (ground arith) (ground arith, refl) (ground arith, refl)

renewal_interval_bounds_example :
    (300 ≤ renewal_interval 7200)
    × ((renewal_interval 7200 ≡ 300)
        ⊎ (renewal_interval 7200 * 3 ≤ (if nat_eq 7200 0 then 3600 else 7200) * 2))
renewal_interval_bounds_example = renewal_interval_bounds 7200

-- A hash without slashes.
plain : Text → Text
plain [] = []
plain (c ∷ s) = (if nat_eq c b'/' then b'-' else c) ∷ plain s

abbrev hash : Text → Text
hash s = b'h' ∷ (b'h' ∷ (b'h' ∷ plain s))

plain-Lacks : (s : Text) → Lacks b'/' (plain s)
unfolding plain
plain-Lacks [] = tt
plain-Lacks (c ∷ s) = (ground arith, plain-Lacks s)

hash-IsComponent : (s : Text) → IsComponent (hash s)
hash-IsComponent s = (cc, cc, cc, (omega arith, (omega arith, (omega arith, plain-Lacks s))))

paths_separate_example :
    let Same =
      (hash (codes "idp") ≡ hash (codes "idp")) × (hash (codes "a/..") ≡ hash (codes "bob")) in
    (data_path hash (codes "secret") (codes "n8n") (codes "idp") (codes "a/..")
        ≡ data_path hash (codes "secret") (codes "n8n") (codes "idp") (codes "bob")
      → Same)
    × (metadata_path hash (codes "secret") (codes "n8n") (codes "idp") (codes "a/..")
          ≡ metadata_path hash (codes "secret") (codes "n8n") (codes "idp") (codes "bob")
        → Same)
    × (path_for hash (codes "n8n") (codes "idp") (codes "a/..")
          ≡ path_for hash (codes "n8n") (codes "idp") (codes "bob")
        → Same)
paths_separate_example =
    paths_separate hash (codes "secret") (codes "n8n") (codes "idp") (codes "a/..") (codes "idp")
      (codes "bob") hash-IsComponent

new_store_lem_example :
    let start = new_store engine true (auth_of cfg) cfg.vault_kv_mount cfg.vault_kv_prefix [] in
    (start.0 ≢ refused not_configured)
    × ((s : KvStore) (renewal : Option ℕ)
        → cfg.vault_token ≢ []
        → start.0 ≡ started s renewal
        → (renewal ≡ none)
          × ((formats : Formats) (A : Type 0) (call : Dict (Dict Text) → Reply A × Dict (Dict Text))
                (v : Dict (Dict Text))
              → with_retry engine formats s call v ≡ call v))
    × ((s : KvStore) (renewal : Option ℕ)
        → cfg.vault_token ≡ []
        → start.0 ≡ started s renewal
        → (renewal ≢ none) × (s.role_id ≡ cfg.vault_role_id) × (s.secret_id ≡ cfg.vault_secret_id))
new_store_lem_example = new_store_lem engine cfg [] (load-IsComplete parsers env cfg loaded)
