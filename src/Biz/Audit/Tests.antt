-- ===== src/Biz/Audit/Tests.antt =====
-- The actor that a context gives.
use permission_center_go.Common.{◌≡◌, refl, some}
use permission_center_go.Text.{trim_space}
use permission_center_go.Biz.Audit.{Context, named, audit_actor_from_context}
use permission_center_go.Biz.Audit.Laws.{IsNamed, audit_actor_from_context-IsNamed}

abbrev padded : Context
padded = some (record { id = " u-1 "; name = "" })

takes_id_for_name : audit_actor_from_context padded ≡ record { id = "u-1"; name = "u-1" }
unfolding audit_actor_from_context named trim_space
takes_id_for_name = refl

audit_actor_from_context-IsNamed_example : IsNamed (audit_actor_from_context padded)
audit_actor_from_context-IsNamed_example = audit_actor_from_context-IsNamed padded
