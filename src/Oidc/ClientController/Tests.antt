-- ===== src/Oidc/ClientController/Tests.antt =====
-- A client of the cluster that is reconciled to the end.
use kubauth.Base.{String, false, none, some, [], ◌∷◌, ◌<>◌}
use kubauth.Base.Int.{pos}
use kubauth.Proto.{ok}
use kubauth.Ucrd.Authenticator.{found}
use kubauth.Oidc.Storage.{new_memory_store}
use kubauth.Oidc.ClientController.{OidcClient, no_phase, Settings, Calls, World}

abbrev settings : Settings
settings = record { client_privileged_namespace = "kubauth"; default_style = "plain" }

-- The calls of a run whose hashes start with this salt.
abbrev calls : String → Calls
calls salt = record {
  get_secret = λ name. found (λ key. some "s3cret");
  hash = λ i value. ok (salt <> value);
  patch = ok tt;
  update_status = ok tt;
}

abbrev shop : OidcClient
shop = record {
  namespace = "team";
  name = "shop";
  deleting = false;
  has_finalizer = false;
  spec = record {
    enabled = none;
    secrets = some (record { name = "shop-secret"; key = "password"; hashed = false } ∷ []);
    public = false;
    redirect_uris = "https://shop/callback" ∷ [];
    grant_types = "authorization_code" ∷ [];
    response_types = "code" ∷ [];
    scopes = "openid" ∷ [];
    audiences = [];
    force_open_id_scope = none;
    access_token_lifespan = pos 0;
    refresh_token_lifespan = pos 0;
    id_token_lifespan = pos 0;
    style = "";
    post_logout_url = "";
    display_name = "";
    entry_url = "";
    client_id = "";
    upstream_providers = [];
  };
  status = record { phase = no_phase; client_id = ""; message = "" };
}

abbrev world : World (Unit {0}) (Unit {0}) (Unit {0})
world = record { resource = found shop; store = new_memory_store; status_errors = 0 }
