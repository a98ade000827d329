-- ===== src/Biz/Resource/Catalog/Tests.antt =====
-- A service of its own resources, with one entry in the store.
use package.text.Mathlib.Text.{◌==◌ as str_eq}
use permission_center_go.Common.{◌≡◌, refl, true, Option, none, some, [], ◌∷◌, ok, if◌then◌else◌}
use permission_center_go.Text.{trim_space}
use permission_center_go.Biz.Call.Attempt.{Attempt}
use permission_center_go.Biz.Resource.{
  ServiceResource, ServiceResourceRepository, validate_service_resource,
}
use permission_center_go.Biz.Resource.Catalog.{
  ServiceResourceService, local, delete, delete_in, check_local,
}
use permission_center_go.Biz.Resource.Catalog.Laws.{IsOwn, delete-Attempt}

abbrev orders : ServiceResource
orders = record {
  id = "";
  key = "orders";
  name = "orders";
  display_name = "Orders";
  audience = "";
  description = "";
  is_active = true;
  source = local;
  created_at = 0;
}

abbrev Store : Type 0
Store = Option ServiceResource

abbrev repository : ServiceResourceRepository Store
repository = record {
  create = λ ctx value s. (ok (some value), some value);
  get = λ ctx key s. (ok (if str_eq key "orders" then s else none), s);
  list = λ ctx s. (ok (s ∷ []), s);
  update = λ ctx value s. (ok (some value), some value);
  soft_delete = λ ctx key s. (ok tt, none);
}

abbrev service : ServiceResourceService Store
service = record { repository = some repository; by_source = none; remote = none; source = local }

deletes : delete service none " orders" (some orders) ≡ (ok tt, none)
unfolding delete delete_in check_local validate_service_resource trim_space
deletes = refl

delete-Attempt_example :
    Attempt
      (IsOwn service repository none (some orders) " orders")
      (repository.soft_delete none)
      (delete service none " orders")
      (some orders)
delete-Attempt_example =
    delete-Attempt service repository none (some orders) " orders" refl (λ key s. refl)
