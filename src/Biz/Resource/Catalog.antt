-- ===== src/Biz/Resource/Catalog.antt =====
-- internal/biz/service_resource.go: ServiceResourceService, which keeps service resources of its
-- own or reads those of a remote directory. `by_source` says whether the repository is also a
-- ServiceResourceSourceRepository.
pub mod Laws
mod Tests
use Prim.Native.String.{String}
use package.text.Mathlib.Text.{◌==◌ as str_eq}
use permission_center_go.Common.{◌>>=◌ as then_result}
use permission_center_go.Common.{
  Bool, true, false, not, ◌||◌, ◌&&◌, Option, none, some, List, [], ◌∷◌, is_none, if◌then◌else◌,
  Result, ok, err, invalid_argument, not_found, conflict, failure,
}
use permission_center_go.Text.{trim_space, is_blank, to_lower}
use permission_center_go.Biz.Call.{Call, pure, fail, lift, ◌>>=◌, ◌>>◌}
use permission_center_go.Biz.Audit.{Context}
use permission_center_go.Biz.Resource.{
  ServiceResource, ServiceResourceCatalog, ServiceResourceRepository, validate_service_resource,
}

abbrev pub local : String
local = "local"

abbrev pub nexus_auth : String
nexus_auth = "nexusauth"

pub record ServiceResourceSourceRepository (S : Type 0) : Type 0 where
  pub get_by_source : Context → String → String → Call S (Option ServiceResource)
  pub list_by_source : Context → String → Call S (List (Option ServiceResource))

pub record ServiceResourceService (S : Type 0) : Type 0 where
  pub repository : Option (ServiceResourceRepository S)
  pub by_source : Option (ServiceResourceSourceRepository S)
  pub remote : Option (ServiceResourceCatalog S)
  pub source : String

-- normalizeServiceResourceSource
pub normalize_source : String → Result String
normalize_source source =
    let lowered = to_lower (trim_space source) in
    let chosen = if is_blank lowered then nexus_auth else lowered in
    if not (str_eq chosen local) && not (str_eq chosen nexus_auth)
    then err (invalid_argument "service_resource.source must be local or nexusauth")
    else ok chosen

-- A source given by a client that is not the local one.
pub names_other_source : String → Bool
names_other_source source =
    not (is_blank (trim_space source)) && not (str_eq (to_lower (trim_space source)) local)

-- A stored entry is of the source.
pub is_of_source : String → ServiceResource → Bool
is_of_source source value = str_eq (to_lower (trim_space value.source)) source

-- normalizeRemoteServiceResource
pub normalize_remote : ServiceResource → Result ServiceResource
normalize_remote resource = then_result (validate_service_resource resource.key) λ key.
    let name = trim_space resource.name in
    let display_name = trim_space resource.display_name in
    ok (record resource {
      key = key;
      source = nexus_auth;
      id = trim_space resource.id;
      name = if is_blank name then display_name else name;
      display_name = display_name;
      audience = trim_space resource.audience;
      description = trim_space resource.description;
    })

-- The loop of listRemote.
pub normalize_all : List (Option ServiceResource) → Result (List (Option ServiceResource))
normalize_all [] = ok []
normalize_all (none ∷ rest) = normalize_all rest
normalize_all (some resource ∷ rest) =
    then_result (normalize_remote resource)
      λ value. then_result (normalize_all rest) λ values. ok (some value ∷ values)

-- The loop of listBySource.
pub filter_source : String → List (Option ServiceResource) → List (Option ServiceResource)
filter_source source [] = []
filter_source source (none ∷ rest) = filter_source source rest
filter_source source (some value ∷ rest) =
    let others = filter_source source rest in
    if is_of_source source value then some value ∷ others else others

-- A nil entry is an error.
pub found_or_missing : Option ServiceResource → Result (Option ServiceResource)
found_or_missing none = err (not_found "")
found_or_missing (some value) = ok (some value)

pub of_source_or_missing : String → Option ServiceResource → Result (Option ServiceResource)
of_source_or_missing source none = err (not_found "")
of_source_or_missing source (some value) =
    if not (is_of_source source value) then err (not_found "") else ok (some value)

pub remote_entry : Option ServiceResource → Result (Option ServiceResource)
remote_entry none = err (not_found "")
remote_entry (some resource) = then_result (normalize_remote resource) λ value. ok (some value)

-- NewServiceResourceCatalog
pub new_service_resource_catalog :
    {S : Type 0}
    → Option (ServiceResourceRepository S)
    → Option (ServiceResourceSourceRepository S)
    → Option (ServiceResourceCatalog S)
    → String
    → Result (ServiceResourceService S)
new_service_resource_catalog none by_source remote source =
    err (failure "service resource repository is required")
new_service_resource_catalog (some repository) by_source remote source =
    then_result (normalize_source source) λ chosen.
      if str_eq chosen nexus_auth && is_none remote
      then err (failure "nexusauth service resource client is required")
      else ok (record {
        repository = some repository;
        by_source = by_source;
        remote = remote;
        source = chosen;
      })

module _ {S : Type 0} (service : ServiceResourceService S) where
  open service use {repository, by_source, remote, source}

  pub writable : Bool
  writable = str_eq source local

  -- The repository, where it is configured.
  abbrev pub configured : Call S (ServiceResourceRepository S)
  configured = elim repository [
    | none ↦ fail (failure "service resource repository is not configured")
    | some ready ↦ pure ready
  ]

  -- The guards that Create and Update share: `refusal` is what a service of the remote source answers,
  -- and `foreign` what a resource that names another source is answered with.
  pub check_writable : String → String → Option ServiceResource → Result (String × ServiceResource)
  check_writable refusal foreign none =
      if str_eq source nexus_auth
      then err (conflict refusal)
      else err (invalid_argument "service resource is required")
  check_writable refusal foreign (some resource) =
      if str_eq source nexus_auth
      then err (conflict refusal)
      else then_result (validate_service_resource resource.key) λ key.
        if names_other_source resource.source then err (conflict foreign) else ok (key, resource)

  -- A stored entry that may be changed: one of the local source.
  pub check_local : String → Option ServiceResource → Result ServiceResource
  check_local refusal none = err (not_found "")
  check_local refusal (some existing) =
      if not (str_eq existing.source local) then err (conflict refusal) else ok existing

  pub create : Context → Option ServiceResource → Call S (Option ServiceResource)
  create ctx resource = do
    ready ← configured
    given ← lift (
        check_writable "NexusAuth service resources cannot be created"
          "NexusAuth service resources cannot be created locally" resource)
    ready.create ctx (record (given.1) { key = given.0; source = local; id = "" })

  pub update : Context → Option ServiceResource → Call S (Option ServiceResource)
  update ctx resource = do
    ready ← configured
    given ← lift (
        check_writable "NexusAuth service resources cannot be updated"
          "NexusAuth service resources cannot be updated" resource)
    found ← ready.get ctx given.0
    existing ← lift (check_local "NexusAuth service resources cannot be updated" found)
    ready.update ctx (record existing {
      display_name = trim_space given.1.display_name;
      audience = trim_space given.1.audience;
      description = trim_space given.1.description;
      is_active = given.1.is_active;
    })

  -- Delete in the repository that is configured.
  pub delete_in : ServiceResourceRepository S → Context → String → Call S (Unit {0})
  delete_in ready ctx resource_key =
      if str_eq source nexus_auth
      then fail (conflict "NexusAuth service resources cannot be deleted")
      else do
        key ← lift (validate_service_resource resource_key)
        found ← ready.get ctx key
        lift (check_local "NexusAuth service resources cannot be deleted" found)
        ready.soft_delete ctx key

  pub delete : Context → String → Call S (Unit {0})
  delete ctx resource_key = do ready ← configured; delete_in ready ctx resource_key

  pub list_remote : Context → Call S (List (Option ServiceResource))
  list_remote ctx = elim remote [
    | none ↦ fail (failure "nexusauth service resource client is not configured")
    | some directory ↦ directory.list ctx >>= λ resources. lift (normalize_all resources)
  ]

  pub get_remote : Context → String → Call S (Option ServiceResource)
  get_remote ctx key = elim remote [
    | none ↦ fail (failure "nexusauth service resource client is not configured")
    | some directory ↦ directory.get ctx key >>= λ resource. lift (remote_entry resource)
  ]

  pub list_by_source :
      ServiceResourceRepository S → Context → Call S (List (Option ServiceResource))
  list_by_source ready ctx = elim by_source [
    | some sourced ↦ sourced.list_by_source ctx source
    | none ↦ ready.list ctx >>= λ values. pure (filter_source source values)
  ]

  pub get_by_source :
      ServiceResourceRepository S → Context → String → Call S (Option ServiceResource)
  get_by_source ready ctx key = elim by_source [
    | some sourced ↦ sourced.get_by_source ctx key source >>= λ value. lift (found_or_missing value)
    | none ↦ ready.get ctx key >>= λ value. lift (of_source_or_missing source value)
  ]

  pub list : Context → Call S (List (Option ServiceResource))
  list ctx = do
    ready ← configured
    if str_eq source nexus_auth then list_remote ctx else list_by_source ready ctx

  pub get : Context → String → Call S (Option ServiceResource)
  get ctx resource_key = do
    ready ← configured
    key ← lift (validate_service_resource resource_key)
    if str_eq source nexus_auth then get_remote ctx key else get_by_source ready ctx key
