-- ===== src/Oidc/Index/Laws.antt =====
-- What cmd/oidc/oidcserver/handle-index.go shows, and in which order.
use Prim.Native.Nat.{Ordering}
use Prim.Native.String.{then as and_then}
use mathlib.Core.List.{Perm}
use mathlib.Core.List.Perm
use kubauth.Base.{◌≢◌, String, Bool, not, map, List, [], ◌∷◌, if◌then◌else◌, Dict}
use kubauth.Oidc.Client.{KubauthClient}
use kubauth.Oidc.Upstream.Provider.{Upstream}
use kubauth.Oidc.Index.{IndexEntry, is_hidden, entry_order}

-- The entries are in order: none is behind one that comes after it.
abbrev pub InOrder : IndexEntry → IndexEntry → Type 0
InOrder e x = entry_order e x ≢ Ordering.gt

pub data Sorted : List IndexEntry → Type 0 where
  sorted_nil : Sorted []
  sorted_one : (e : IndexEntry) → Sorted (e ∷ [])
  sorted_cons :
      (e x : IndexEntry) (xs : List IndexEntry)
      → InOrder e x
      → Sorted (x ∷ xs)
      → Sorted (e ∷ x ∷ xs)

-- What may stand in front of a list may stand in front of it with an entry put in.
data Leads (y : IndexEntry) : List IndexEntry → Type 0 where
  leads_nil : Leads y []
  leads_cons : (x : IndexEntry) (xs : List IndexEntry) → InOrder y x → Leads y (x ∷ xs)

abbrev pub select {ℓ} : {A : Type ℓ} → (A → Bool) → List A → List A
select p [] = []
select p (a ∷ rest) = if p a then a ∷ select p rest else select p rest

-- The clients that are shown.
abbrev pub shown : Dict KubauthClient → List KubauthClient
shown clients =
    select (λ (k : KubauthClient). not (is_hidden k))
      (map (λ (p : String × KubauthClient). p.1) clients)
