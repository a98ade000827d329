-- ===== src/Biz/Resource/Catalog/Laws.antt =====
-- Only the service's own resources are changed.
use Prim.Native.String.{String}
use text.Mathlib.TextEquality.{eq_iff}
use package.text.Mathlib.Text.{◌==◌ as str_eq}
use permission_center_go.Common.{
  ◌≡◌, ◌≢◌, Option, none, some, ok, arith, Bool-cases, inl, inr, ◌∙◌, ap, sym, subst, failure,
}
use permission_center_go.Text.{trim_space}
use permission_center_go.Biz.Call.{Reads, pure, fail, ◌>>=◌}
use permission_center_go.Biz.Call.Attempt.{
  Attempt, Attempt-lift, Attempt-read, Attempt-write, Attempt-fail, Attempt-if, written, refused,
  crashed,
}
use permission_center_go.Biz.Audit.{Context}
use permission_center_go.Biz.Resource.{
  ServiceResource, ServiceResourceRepository, validate_service_resource,
}
use permission_center_go.Biz.Permission.Normal.{IsScope, validate_service_resource-IsScope}
use permission_center_go.Biz.Resource.Catalog.{
  ServiceResourceService, local, nexus_auth, check_local, delete_in, delete,
}

module _ {S : Type 0} (service : ServiceResourceService S) (ready : ServiceResourceRepository S)
    (ctx : Context) (s : S) where
  -- The trimmed key of a stored entry of the local source, in a service that is not remote.
  pub record IsOwn (given key : String) : Type 0 where
    pub not_remote : service.source ≢ nexus_auth
    pub key_given : key ≡ trim_space given
    pub key_normal : IsScope key
    pub existing : ServiceResource
    pub found : ready.get ctx key s ≡ (ok (some existing), s)
    pub is_local : existing.source ≡ local

  local_entry :
      (refusal : String) (found : Option ServiceResource) (existing : ServiceResource)
      → check_local service refusal found ≡ ok existing
      → (found ≡ some existing) × (existing.source ≡ local)
  unfolding check_local
  local_entry refusal none existing h = cc
  local_entry refusal (some value) existing h = elim (Bool-cases (str_eq value.source local)) [
    | inl own ↦
        let same : value ≡ existing = cc (rw own at h) in
        (ap (λ x. some x) same, ap (λ x. x.source) (sym same) ∙ (eq_iff value.source local).0 own)
    | inr other ↦ absurd (cc (rw other at h))
  ]

  delete_in-Attempt :
      (given : String)
      → ((key : String) → Reads (ready.get ctx key))
      → Attempt (IsOwn given) (ready.soft_delete ctx) (delete_in service ready ctx given) s
  unfolding delete_in
  delete_in-Attempt given reads =
      Attempt-if (str_eq service.source nexus_auth) _ _ s (λ _. Attempt-fail _ s)
        λ not_remote. Attempt-lift (validate_service_resource given) _ s λ key valid.
          let (key_given, key_normal) = validate_service_resource-IsScope given valid in
          Attempt-read (ready.get ctx key) _ s (reads key) λ found got.
            Attempt-lift (check_local service _ found) _ s λ existing checked.
              let (stored, is_local) = local_entry _ found existing checked in
              Attempt-write key s (record {
                not_remote = ground (arith, eq_iff service.source nexus_auth);
                key_given = key_given;
                key_normal = key_normal;
                existing = existing;
                found = got ∙ ap (λ o. (ok o, s)) stored;
                is_local = is_local;
              })

  as_configured :
      (given : String)
      → Attempt (IsOwn given) (ready.soft_delete ctx) (delete_in service ready ctx given) s
      → Attempt
          (IsOwn given)
          (ready.soft_delete ctx)
          (pure ready >>= λ repository. delete_in service repository ctx given)
          s
  as_configured given (written key own e) = written key own e
  as_configured given (refused x e) = refused x e
  as_configured given (crashed e) = crashed e

  -- Where the repository is configured and its Get only reads: Delete either calls the repository's SoftDelete once, with
  -- the trimmed key, within its limits, of a stored entry of the local source, in a service that is
  -- not remote, and returns what that call returns; or it fails or panics and the store is as it was.
  pub delete-Attempt :
      (given : String)
      → service.repository ≡ some ready
      → ((key : String) → Reads (ready.get ctx key))
      → Attempt (IsOwn given) (ready.soft_delete ctx) (delete service ctx given) s
  unfolding delete
  delete-Attempt given configured reads =
      subst
        (λ r.
          Attempt (IsOwn given) (ready.soft_delete ctx)
            (elim r [
              | none ↦ fail (failure "service resource repository is not configured")
              | some repository ↦ pure repository
            ]
              >>= λ repository. delete_in service repository ctx given)
            s)
        (sym configured) (as_configured given (delete_in-Attempt given reads))
