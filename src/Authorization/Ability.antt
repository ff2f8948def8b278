-- ===== src/Authorization/Ability.antt =====
-- factory/casl-ability.factory.ts and guards/casl-ability.guard.ts, with constants/actions.enum.ts
-- and constants/subjects.enum.ts of libs/common.
use multi_tenant_subscriptio.Base.{
  Bool, List, Option, [], if◌then◌else◌, none, some, true, ℕ, ◌++◌, ◌||◌, ◌∷◌,
}
use multi_tenant_subscriptio.Common.{
  Role, TenantContextPayload, forbidden, includes, internal_server_error, no_tenant_context,
  org_admin, org_member, platform_admin,
}
use multi_tenant_subscriptio.Database.{Context, Outcome, returned, thrown}

pub data CaslAction : Type 0 where
  create read update delete manage : CaslAction

pub data CaslSubject : Type 0 where
  organization user subscription plan resource audit_event all : CaslSubject

pub data Condition : Type 0 where
  organization_id_is id_is created_by_is : ℕ → Condition

-- What `can` and `cannot` of an AbilityBuilder add. No `cannot` of the factory has conditions.
pub data Rule : Type 0 where
  can_rule : CaslAction → CaslSubject → List Condition → Rule
  cannot_rule : CaslAction → CaslSubject → Rule

abbrev pub platform_rules : List Rule
platform_rules =
    can_rule read organization []
    ∷ can_rule read subscription []
    ∷ can_rule read plan []
    ∷ can_rule manage plan []
    ∷ can_rule read audit_event []
    ∷ cannot_rule read resource
    ∷ cannot_rule read user
    ∷ []

abbrev pub admin_rules : (organization_id : ℕ) → List Rule
admin_rules o =
    can_rule manage user (organization_id_is o ∷ [])
    ∷ can_rule manage resource (organization_id_is o ∷ [])
    ∷ can_rule read organization (id_is o ∷ [])
    ∷ can_rule read subscription (organization_id_is o ∷ [])
    ∷ can_rule update subscription (organization_id_is o ∷ [])
    ∷ can_rule read audit_event (organization_id_is o ∷ [])
    ∷ can_rule read plan []
    ∷ []

abbrev pub member_rules : (organization_id user_id : ℕ) → List Rule
member_rules o u =
    can_rule read resource (organization_id_is o ∷ [])
    ∷ can_rule create resource []
    ∷ can_rule update resource (organization_id_is o ∷ created_by_is u ∷ [])
    ∷ can_rule delete resource (organization_id_is o ∷ created_by_is u ∷ [])
    ∷ can_rule read user (organization_id_is o ∷ [])
    ∷ can_rule read organization (id_is o ∷ [])
    ∷ can_rule read subscription (organization_id_is o ∷ [])
    ∷ cannot_rule create user
    ∷ cannot_rule update user
    ∷ cannot_rule delete user
    ∷ []

abbrev pub when : Bool → List Rule → List Rule
when b rules = if b then rules else []

abbrev pub tenant_rules : List Role → (organization_id user_id : ℕ) → List Rule
tenant_rules roles o u =
    when (includes roles org_admin) (admin_rules o)
    ++ when (includes roles org_member) (member_rules o u)

abbrev pub scoped_rules : List Role → (organization_id user_id : Option ℕ) → Outcome (List Rule)
scoped_rules roles (some o) (some u) = returned (tenant_rules roles o u)
scoped_rules roles _ _ = thrown internal_server_error

abbrev pub after_platform : List Role → Outcome (List Rule) → Outcome (List Rule)
after_platform roles (returned rules) =
    returned (when (includes roles platform_admin) platform_rules ++ rules)
after_platform roles (thrown e) = thrown e

unfoldable pub create_for_context : TenantContextPayload → Outcome (List Rule)
create_for_context ctx = after_platform ctx.roles (
    if includes ctx.roles org_admin || includes ctx.roles org_member
    then scoped_rules ctx.roles ctx.organization_id ctx.user_id
    else returned [])

-- `ability.can(action, subject)` of CASL, for an ability with these rules and a subject's type.
abbrev pub Can : Type 0
Can = List Rule → CaslAction → CaslSubject → Bool

unfoldable pub decide : Can → CaslAction → CaslSubject → Outcome (List Rule) → Outcome Bool
decide can a s (returned rules) = if can rules a s then returned true else thrown forbidden
decide can a s (thrown e) = thrown e

-- `canActivate`, for the ability that the route requires, if any.
unfoldable pub authorize : Can → Option (CaslAction × CaslSubject) → Context → Outcome Bool
unfolding create_for_context decide
authorize can none ctx = returned true
authorize can (some (a, s)) none = thrown no_tenant_context
authorize can (some (a, s)) (some payload) = decide can a s (create_for_context payload)
