-- ===== src/Biz/Policy/Publish/Laws.antt =====
-- What a publication rests on and what it writes.
use Prim.Native.String.{String}
use permission_center_go.Common.{
  deref-some, ℕ, ◌+◌, ◌≡◌, ◌≢◌, refl, sym, ap, ◌∙◌, true, false, Option, some, Result, ok, err,
  panic, arith, Bool-cases, ◌⊎◌, inl, inr, deref, ◌==◌,
}
use permission_center_go.Policy.Model.{Uuid, nil_uuid, Status, Snapshot, authorization_type_valid}
use permission_center_go.Policy.Validate.Shape.{IsPolicyCondition}
use permission_center_go.Policy.Compile.{compile_snapshot, sort_endpoints}
use permission_center_go.Policy.Compile.Sealed.{
  IsCompiled, sealed, compile_snapshot-IsCompiled, compile_snapshot-sealed, compile_snapshot_of,
}
use permission_center_go.Biz.Call.Attempt.{read_passed, two_passed, lift_passed}
use permission_center_go.Biz.Audit.{Context, audit_actor_from_context}
use permission_center_go.Biz.Policy.{AuthorizationPolicy, AuthorizationPolicyService, ReadsOnly}
use permission_center_go.Biz.Policy.Draft.{as_invalid, get}
use permission_center_go.Biz.Policy.Publish.{
  may_publish, next_snapshot, sorted_in_place, version_of, published_at_version, publish_existing,
  publish,
}

as_invalid_ok : {A : Type 0} (r : Result A) {a : A} → as_invalid r ≡ ok a → r ≡ ok a
as_invalid_ok (ok x) h = h
as_invalid_ok (err e) h = absurd (cc)
as_invalid_ok panic h = absurd (cc)

unequal : (a b : Uuid) → (a == b) ≡ false → a ≢ b
unequal a b h = ground arith

draft_or_disabled :
    (status : Status)
    → may_publish status ≡ true
    → (status ≡ Status.draft) ⊎ (status ≡ Status.disabled)
draft_or_disabled Status.draft h = inl refl
draft_or_disabled Status.disabled h = inr refl
draft_or_disabled Status.published h = absurd cc
draft_or_disabled Status.archived h = absurd cc
draft_or_disabled (Status.unknown other) h = absurd cc

allowed_status :
    (status : Status)
    → (status ≡ Status.draft) ⊎ (status ≡ Status.disabled)
    → may_publish status ≡ true
allowed_status status (inl draft) = ap may_publish draft
allowed_status status (inr disabled) = ap may_publish disabled

distinct : (a b : Uuid) → a ≢ b → (a == b) ≡ false
distinct a b h = ground arith

module _ {S : Type 0} (uuid_string : Uuid → String) (checksum : Snapshot → String) (now : ℕ)
    (service : AuthorizationPolicyService S) (ctx : Context) (s : S) where
  -- A publication: a stored policy that may be published is compiled under the next version, the
  -- version is saved, and then the policy is stored as published at that version, with its endpoints
  -- sorted.
  pub record IsPublication (id : Uuid) (r : Option AuthorizationPolicy) (t : S) : Type 0 where
    pub id_present : id ≢ nil_uuid
    pub value : AuthorizationPolicy
    pub found : service.repository.get ctx id s ≡ (ok (some value), s)
    pub may : (value.status ≡ Status.draft) ⊎ (value.status ≡ Status.disabled)
    pub snapshot : Snapshot
    pub compiled : compile_snapshot uuid_string (next_snapshot value) ≡ ok snapshot
    pub frozen : IsCompiled (next_snapshot value) snapshot
    pub between : S
    pub saved :
        service.repository.save_version ctx
          (version_of uuid_string checksum now service
            (audit_actor_from_context ctx)
            value
            snapshot)
          s
        ≡ (ok tt, between)
    pub stored :
        service.repository.update ctx
          (published_at_version
            (audit_actor_from_context ctx)
            (value.current_version + 1)
            (record value { endpoint_ids = sort_endpoints uuid_string value.endpoint_ids }))
          between
        ≡ (ok r, t)

  -- What the compiled snapshot makes of the policy.
  as_published :
      (value : AuthorizationPolicy) (snapshot : Snapshot)
      → compile_snapshot uuid_string (next_snapshot value) ≡ ok snapshot
      → published_at_version
          (audit_actor_from_context ctx)
          snapshot.version
          (sorted_in_place snapshot value)
        ≡ published_at_version
            (audit_actor_from_context ctx)
            (value.current_version + 1)
            (record value { endpoint_ids = sort_endpoints uuid_string value.endpoint_ids })
  as_published value snapshot compiled =
      ap
        (λ (x : Snapshot).
          published_at_version (audit_actor_from_context ctx) x.version (sorted_in_place x value))
        (compile_snapshot-sealed uuid_string (next_snapshot value) snapshot compiled)

  publication :
      (id : Uuid) (value : AuthorizationPolicy) (r : Option AuthorizationPolicy) (t : S)
      → id ≢ nil_uuid
      → service.repository.get ctx id s ≡ (ok (some value), s)
      → publish_existing uuid_string checksum now service ctx value s ≡ (ok r, t)
      → IsPublication id r t
  unfolding publish_existing
  publication id value r t present found h = elim (Bool-cases (may_publish value.status)) [
    | inr refused ↦ absurd (cc (rw refused at h))
    | inl may ↦
        let (snapshot, wrapped, h₁) =
          lift_passed (as_invalid (compile_snapshot uuid_string (next_snapshot value))) _ s
            (rw may at h) in
        let compiled = as_invalid_ok (compile_snapshot uuid_string (next_snapshot value)) wrapped in
        let frozen =
          compile_snapshot-IsCompiled uuid_string (next_snapshot value) snapshot compiled in
        let (_, between, saved, stored) =
          two_passed
            (service.repository.save_version ctx (
              version_of uuid_string checksum now service (audit_actor_from_context ctx) value
                snapshot))
            _ s h₁ in
        record {
          id_present = present;
          value = value;
          found = found;
          may = draft_or_disabled value.status may;
          snapshot = snapshot;
          compiled = compiled;
          frozen = frozen;
          between = between;
          saved = saved;
          stored =
              ap (λ p. service.repository.update ctx p between)
                (sym (as_published value snapshot compiled))
              ∙ stored;
        }
  ]

  -- Where the reads only read: if Publish returns without an error, then the policy was stored as a
  -- draft or disabled, it was compiled under the version after its current one, with a known
  -- authorization type and a condition that the validator lets through, that version was saved with
  -- the actor and the time, and then the policy, unchanged but for its state, its version, its last
  -- actor and the order of its endpoints, which is that of their texts, was given to the repository's Update, whose result is returned.
  pub publish-IsPublication :
      (id : Uuid) (r : Option AuthorizationPolicy) (t : S)
      → ReadsOnly service
      → publish uuid_string checksum now service ctx id s ≡ (ok r, t)
      → IsPublication id r t
  unfolding publish get
  publish-IsPublication id r t reads h = elim (Bool-cases (id == nil_uuid)) [
    | inl nil ↦ absurd (cc (rw nil at h))
    | inr present ↦
        let (found, got, h₁) =
          read_passed (service.repository.get ctx id) _ s (reads.policy_get ctx id)
            (rw present at h) in
        let (value, there, h₂) = lift_passed (deref found) _ s h₁ in
        publication id value r t (unequal id nil_uuid present)
          (got ∙ ap (λ o. (ok o, s)) (deref-some found there)) h₂
  ]

  published_existing :
      (value : AuthorizationPolicy) (between : S)
      → may_publish value.status ≡ true
      → compile_snapshot uuid_string (next_snapshot value)
        ≡ ok (sealed uuid_string (next_snapshot value))
      → service.repository.save_version ctx
          (version_of uuid_string checksum now service
            (audit_actor_from_context ctx)
            value
            (sealed uuid_string (next_snapshot value)))
          s
        ≡ (ok tt, between)
      → publish_existing uuid_string checksum now service ctx value s
        ≡ service.repository.update ctx
            (published_at_version
              (audit_actor_from_context ctx)
              (value.current_version + 1)
              (record value { endpoint_ids = sort_endpoints uuid_string value.endpoint_ids }))
            between
  unfolding publish_existing
  published_existing value between may compiled saved = rw may (rw (ap as_invalid compiled, saved))

  -- Where the identifier is that of a stored draft or disabled policy, of a known authorization type
  -- and with a condition that the validator lets through, and the version after its current one is
  -- saved with the snapshot of its trimmed scope, its roles without repetition and sorted, its sorted
  -- endpoints and the rest as it is: Publish returns what the repository's Update does with the
  -- policy, published at that version by the actor, with its endpoints sorted.
  pub publish_succeeds :
      (id : Uuid) (value : AuthorizationPolicy) (between : S)
      → id ≢ nil_uuid
      → service.repository.get ctx id s ≡ (ok (some value), s)
      → (value.status ≡ Status.draft) ⊎ (value.status ≡ Status.disabled)
      → authorization_type_valid value.authorization_type ≡ true
      → IsPolicyCondition value.condition
      → service.repository.save_version ctx
          (version_of uuid_string checksum now service
            (audit_actor_from_context ctx)
            value
            (sealed uuid_string (next_snapshot value)))
          s
        ≡ (ok tt, between)
      → publish uuid_string checksum now service ctx id s
        ≡ service.repository.update ctx
            (published_at_version
              (audit_actor_from_context ctx)
              (value.current_version + 1)
              (record value { endpoint_ids = sort_endpoints uuid_string value.endpoint_ids }))
            between
  unfolding publish get
  publish_succeeds id value between present found may known valid saved =
      let present' : (id == nil_uuid) ≡ false = distinct id nil_uuid present in
      rw (present', found)
        (published_existing value between (allowed_status value.status may)
          (compile_snapshot_of uuid_string (next_snapshot value) known valid) saved)
