-- ===== src/Oidc/LoginPage/Order.antt =====
-- `sort.Slice` by name of cmd/oidc/oidcserver/display-login.go gives the same upstreams, in order.
use kubauth.Base.{◌≡◌, ◌≢◌, ap, refl, sym, ◌∙◌, String, List, [], ◌∷◌}
use Prim.Native.Nat.{Ordering}
use Prim.Native.String.{compare}
use mathlib.Core.List.{Perm}
use mathlib.Core.List.Perm
use text.Mathlib.TextEquality.{path_by_compare}
use kubauth.Base.TextOrder.{flip, compare-flip, Before-trans}
use kubauth.Oidc.Upstream.Provider.{Upstream}
use kubauth.Oidc.LoginPage.{put_by, insert_upstream, sort_upstreams}

-- The name of an upstream is behind none of these names.
abbrev pub InFront : Upstream → List Upstream → Type 0
InFront u [] = Unit
InFront u (x ∷ xs) = (compare u.name x.name ≢ Ordering.gt) × InFront u xs

abbrev pub ByName : List Upstream → Type 0
ByName [] = Unit
ByName (u ∷ us) = InFront u us × ByName us

not_behind_trans :
    (r s t : String)
    → compare r s ≢ Ordering.gt
    → compare s t ≢ Ordering.gt
    → compare r t ≢ Ordering.gt
not_behind_trans r s t h k e = cases (compare r s) refl
  where
    cases : (o : Ordering) → compare r s ≡ o → ⊥
    cases Ordering.gt d = h d
    cases Ordering.eq d = k (ap (λ (x : String). compare x t) (sym (path_by_compare r s d)) ∙ e)
    cases Ordering.lt d =
        k (compare-flip t s ∙ ap flip (Before-trans t r s (compare-flip r t ∙ ap flip e) d))

InFront-trans :
    (u x : Upstream) (xs : List Upstream)
    → compare u.name x.name ≢ Ordering.gt
    → InFront x xs
    → InFront u xs
InFront-trans u x [] h k = tt
InFront-trans u x (y ∷ ys) h k =
    (not_behind_trans u.name x.name y.name h k.0, InFront-trans u x ys h k.1)

put_by-InFront :
    (o : Ordering) (y u x : Upstream) (xs rest : List Upstream)
    → compare y.name u.name ≢ Ordering.gt
    → InFront y (x ∷ xs)
    → InFront y rest
    → InFront y (put_by o u x xs rest)
put_by-InFront Ordering.gt y u x xs rest h k r = (k.0, r)
put_by-InFront Ordering.lt y u x xs rest h k r = (h, k)
put_by-InFront Ordering.eq y u x xs rest h k r = (h, k)

insert_upstream-InFront :
    (y u : Upstream) (xs : List Upstream)
    → compare y.name u.name ≢ Ordering.gt
    → InFront y xs
    → InFront y (insert_upstream u xs)
unfolding insert_upstream
insert_upstream-InFront y u [] h k = (h, tt)
insert_upstream-InFront y u (x ∷ xs) h k =
    put_by-InFront (compare u.name x.name) y u x xs (insert_upstream u xs) h k
      (insert_upstream-InFront y u xs h k.1)

put_by-ByName :
    (o : Ordering) (u x : Upstream) (xs : List Upstream)
    → compare u.name x.name ≡ o
    → ByName (x ∷ xs)
    → ByName (insert_upstream u xs)
    → ByName (put_by o u x xs (insert_upstream u xs))
put_by-ByName Ordering.lt u x xs h b r =
    let first : compare u.name x.name ≢ Ordering.gt = λ e. cc in
    ((first, InFront-trans u x xs first b.0), b)
put_by-ByName Ordering.eq u x xs h b r =
    let first : compare u.name x.name ≢ Ordering.gt = λ e. cc in
    ((first, InFront-trans u x xs first b.0), b)
put_by-ByName Ordering.gt u x xs h b r =
    let first : compare x.name u.name ≢ Ordering.gt = λ e.
      let no : ◌≡◌ {A = Ordering} Ordering.lt Ordering.gt =
        sym (compare-flip u.name x.name ∙ ap flip h) ∙ e in
      cc in
    (insert_upstream-InFront x u xs first b.0, r)

insert_upstream-ByName :
    (u : Upstream) (xs : List Upstream) → ByName xs → ByName (insert_upstream u xs)
unfolding insert_upstream
insert_upstream-ByName u [] b = (tt, tt)
insert_upstream-ByName u (x ∷ xs) b =
    put_by-ByName (compare u.name x.name) u x xs refl b (insert_upstream-ByName u xs b.1)

pub sort_upstreams-ByName : (us : List Upstream) → ByName (sort_upstreams us)
unfolding sort_upstreams
sort_upstreams-ByName [] = tt
sort_upstreams-ByName (u ∷ us) =
    insert_upstream-ByName u (sort_upstreams us) (sort_upstreams-ByName us)

put_by-Perm :
    (o : Ordering) (u x : Upstream) (xs rest : List Upstream)
    → Perm rest (u ∷ xs)
    → Perm (put_by o u x xs rest) (u ∷ x ∷ xs)
put_by-Perm Ordering.lt u x xs rest p = Perm.refl _
put_by-Perm Ordering.eq u x xs rest p = Perm.refl _
put_by-Perm Ordering.gt u x xs rest p = Perm.trans (Perm.cons x p) (Perm.swap u x xs)

insert_upstream-Perm : (u : Upstream) (xs : List Upstream) → Perm (insert_upstream u xs) (u ∷ xs)
unfolding insert_upstream
insert_upstream-Perm u [] = Perm.refl _
insert_upstream-Perm u (x ∷ xs) =
    put_by-Perm (compare u.name x.name) u x xs (insert_upstream u xs) (insert_upstream-Perm u xs)

pub sort_upstreams-Perm : (us : List Upstream) → Perm (sort_upstreams us) us
unfolding sort_upstreams
sort_upstreams-Perm [] = Perm.refl _
sort_upstreams-Perm (u ∷ us) =
    Perm.trans (insert_upstream-Perm u (sort_upstreams us)) (Perm.cons u (sort_upstreams-Perm us))
