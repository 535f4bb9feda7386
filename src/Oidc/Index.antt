-- ===== src/Oidc/Index.antt =====
-- cmd/oidc/oidcserver/handle-index.go: the applications on the index page. The description of a client,
-- which is only shown, is left out.
pub mod Laws
mod Tests
use Prim.Native.Nat.{Ordering}
use Prim.Native.String.{compare, then as and_then}
use kubauth.Base.{
  String, Bool, true, false, Option, none, some, List, [], ◌∷◌, ◌||◌, ◌==◌, if◌then◌else◌, Dict,
  lookup,
}
use kubauth.Oidc.Client.{KubauthClient}
use kubauth.Oidc.LoginPage.{PageSettings, style_of}
use kubauth.Oidc.Storage.{MemoryStore}
use kubauth.Oidc.Upstream.Provider.{Upstream}

pub record IndexEntry : Type 0 where
  pub display_name : String
  pub entry_url : String

pub record IndexPage : Type 0 where
  pub entries : List IndexEntry
  pub style : String

abbrev pub entry_of : KubauthClient → IndexEntry
entry_of k = record { display_name = k.spec.display_name; entry_url = k.spec.entry_url }

abbrev pub is_hidden : KubauthClient → Bool
is_hidden k = k.spec.display_name == "" || k.spec.entry_url == ""

-- The loop over the clients of the store.
unfoldable pub collect : Dict KubauthClient → List IndexEntry
collect [] = []
collect ((_, k) ∷ clients) =
    let rest = collect clients in if is_hidden k then rest else entry_of k ∷ rest

-- By display name, and then by URL.
unfoldable pub entry_order : IndexEntry → IndexEntry → Ordering
entry_order e x = and_then (compare e.display_name x.display_name) (compare e.entry_url x.entry_url)

-- An entry before the first of a list, or behind it, where `rest` is the list with it put in.
abbrev pub placed :
    Ordering → IndexEntry → IndexEntry → List IndexEntry → List IndexEntry → List IndexEntry
placed Ordering.gt e x xs rest = x ∷ rest
placed _ e x xs rest = e ∷ x ∷ xs

unfoldable pub insert_entry : IndexEntry → List IndexEntry → List IndexEntry
insert_entry e [] = e ∷ []
insert_entry e (x ∷ xs) = placed (entry_order e x) e x xs (insert_entry e xs)

unfoldable pub sort_entries : List IndexEntry → List IndexEntry
unfolding insert_entry
sort_entries [] = []
sort_entries (e ∷ es) = insert_entry e (sort_entries es)

-- The page, for the client that the login session names.
module _ {R K : Type 0} where
  unfoldable pub handle_index : MemoryStore R Upstream K → PageSettings → String → IndexPage
  unfolding collect sort_entries
  handle_index store s client_id = record {
    entries = sort_entries (collect store.clients);
    style = style_of s (if client_id == "" then none else lookup client_id store.clients);
  }
