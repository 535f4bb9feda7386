-- ===== src/Oidc/Index/Tests.antt =====
-- An index page of three clients, of which one has no URL.
use kubauth.Base.{String, true, none, [], ◌∷◌, ◌<>◌}
use kubauth.Base.Int.{pos}
use kubauth.Oidc.Client.{KubauthClient}
use kubauth.Oidc.LoginPage.{PageSettings}
use kubauth.Oidc.Storage.{MemoryStore, new_memory_store}
use kubauth.Oidc.Upstream.Provider.{Upstream}

abbrev client : String → String → String → KubauthClient
client id display_name entry_url = record {
  client_id = id;
  spec = record {
    enabled = none;
    secrets = none;
    public = true;
    redirect_uris = [];
    grant_types = [];
    response_types = [];
    scopes = [];
    audiences = [];
    force_open_id_scope = none;
    access_token_lifespan = pos 0;
    refresh_token_lifespan = pos 0;
    id_token_lifespan = pos 0;
    style = "plain";
    post_logout_url = "";
    display_name = display_name;
    entry_url = entry_url;
    client_id = id;
    upstream_providers = [];
  };
  hashed_secrets = [];
  k8s_id = "apps:" <> id;
}

abbrev store : MemoryStore (Unit {0}) Upstream (Unit {0})
store = record new_memory_store {
  clients =
      ("shop", client "shop" "Shop" "https://shop")
      ∷ ("api", client "api" "Api" "")
      ∷ ("blog", client "blog" "Blog" "https://blog")
      ∷ [];
}

abbrev settings : PageSettings
settings = record {
  default_style = "plain";
  default_login_label = "Login";
  on_demand = true;
  encode_query = λ name. name;
}
