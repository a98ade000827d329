-- ===== src/Biz/Resource/Active.antt =====
-- The check that a service resource is active only reads, and passes only an active one.
use Prim.Native.String.{String}
use permission_center_go.Common.{
  ◌≡◌, ◌≢◌, refl, ap, ◌∙◌, true, Option, none, some, Result, ok, err, panic, arith,
}
use permission_center_go.Biz.Call.{Reads, lift, continue}
use permission_center_go.Biz.Call.Attempt.{Reads-bind}
use permission_center_go.Biz.Audit.{Context}
use permission_center_go.Biz.Resource.{
  ServiceResource, ServiceResourceCatalog, check_active, ensure,
}

-- The catalog, where there is one, does not write the store when it is asked for an entry.
abbrev pub CatalogReads : {S : Type 0} → Option (ServiceResourceCatalog S) → Type 0
CatalogReads none = Unit
CatalogReads (some catalog) = (ctx : Context) (key : String) → Reads (catalog.get ctx key)

-- Without a catalog every service resource passes; with one, those that it has and that are active.
abbrev pub IsActiveIn :
    {S : Type 0} → Option (ServiceResourceCatalog S) → Context → String → S → Type 0
IsActiveIn none ctx key s = Unit
IsActiveIn (some catalog) ctx key s =
    (resource : ServiceResource) × (catalog.get ctx key s ≡ (ok (some resource), s))
    × (resource.is_active ≡ true)

module _ {S : Type 0} (nil_result : Result (Unit {0})) where
  pub ensure-Reads :
      (catalog : Option (ServiceResourceCatalog S)) (ctx : Context) (key : String)
      → CatalogReads catalog
      → Reads (ensure nil_result catalog ctx key)
  unfolding ensure
  ensure-Reads none ctx key reads = λ s. refl
  ensure-Reads (some catalog) ctx key reads =
      Reads-bind (catalog.get ctx key) _ (reads ctx key) (λ found s. refl)

  active_step :
      (catalog : ServiceResourceCatalog S) (ctx : Context) (key : String) (s u : S)
      (r : Result (Option ServiceResource))
      → nil_result ≢ ok tt
      → catalog.get ctx key s ≡ (r, u)
      → continue r (λ found. lift (check_active nil_result found)) u ≡ (ok tt, s)
      → IsActiveIn (some catalog) ctx key s
  active_step catalog ctx key s u (ok (some resource)) n e h =
      (resource, e ∙ ap (λ t. (ok (some resource), t)) (ap (λ p. p.1) h), ground arith)
  active_step catalog ctx key s u (ok none) n e h = absurd (n (ap (λ p. p.0) h))
  active_step catalog ctx key s u (err x) n e h = cc
  active_step catalog ctx key s u panic n e h = cc

  pub ensure-IsActiveIn :
      (catalog : Option (ServiceResourceCatalog S)) (ctx : Context) (key : String) (s : S)
      → nil_result ≢ ok tt
      → ensure nil_result catalog ctx key s ≡ (ok tt, s)
      → IsActiveIn catalog ctx key s
  unfolding ensure
  ensure-IsActiveIn none ctx key s n h = tt
  ensure-IsActiveIn (some catalog) ctx key s n h =
      active_step catalog ctx key s (catalog.get ctx key s).1 (catalog.get ctx key s).0 n refl h

  pub ensure_active :
      (catalog : Option (ServiceResourceCatalog S)) (ctx : Context) (key : String) (s : S)
      → IsActiveIn catalog ctx key s
      → ensure nil_result catalog ctx key s ≡ (ok tt, s)
  unfolding ensure
  ensure_active none ctx key s h = refl
  ensure_active (some catalog) ctx key s (resource, found, active) = rw (found, active)
