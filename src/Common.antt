-- ===== src/Common.antt =====
-- backend/libs/common/src: roles, actions and subjects, the tenant context, the errors a request
-- ends with, and the events. Ids, e-mail addresses, names, tokens and hashes are only compared in
-- the code, so each is a number; e-mail columns are citext, so a number stands for a class of
-- spellings. Times are milliseconds.
use multi_tenant_subscriptio.Base.{ℕ, Bool, true, false, Option, List, [], ◌∷◌, ◌||◌}

pub data Role : Type 0 where
  platform_admin org_admin org_member : Role

abbrev pub role_eq : Role → Role → Bool
role_eq platform_admin platform_admin = true
role_eq org_admin org_admin = true
role_eq org_member org_member = true
role_eq _ _ = false

-- `roles.includes(role)`
abbrev pub includes : List Role → Role → Bool
includes [] r = false
includes (x ∷ xs) r = role_eq x r || includes xs r

pub data UserRole : Type 0 where
  org_admin org_member : UserRole

pub record TenantContextPayload : Type 0 where
  pub user_id : Option ℕ
  pub organization_id : Option ℕ
  pub roles : List Role
  pub correlation_id : ℕ
  pub iat : ℕ
  pub exp : ℕ

pub data LimitType : Type 0 where
  seats storage : LimitType

pub record PlanLimitExceededDetails : Type 0 where
  pub limit_type : LimitType
  pub limit : ℕ
  pub current : ℕ
  pub plan_code : Option ℕ  -- `none` is the text 'unknown'
  pub active_users : Option ℕ
  pub pending_invitations : Option ℕ

-- What a promise is rejected with. The messages for people are left out.
pub data Error : Type 0 where
  not_found forbidden unauthorized gone conflict last_admin : Error
  internal_server_error service_unavailable onboarding_incomplete : Error
  plan_limit_exceeded : PlanLimitExceededDetails → Error
  -- a QueryFailedError: a unique index, a CHECK, or a row-level security policy refused the write
  unique_violation check_violation rls_violation : Error
  invitation_already_pending organization_slug_taken email_taken : Error
  -- `TenantContextStore.getOrThrow` outside a scope; `TenantRepository` for a platform admin
  no_tenant_context platform_admin_context : Error
  type_error : Error  -- a field of `null`
  -- what a call of another service was rejected with
  remote_failure : ℕ → Error

pub data EventType : Type 0 where
  organization_created organization_provisioned onboarding_failed : EventType
  organization_suspended : EventType
  user_credentials_created user_invited user_created user_removed user_role_changed : EventType
  invitation_accepted invitation_revoked invitation_expired : EventType
  subscription_assigned subscription_changed usage_updated plan_limit_exceeded_event : EventType
  resource_created resource_deleted : EventType
  cross_tenant_access_attempted authentication_failed : EventType

pub data KafkaTopic : Type 0 where
  organization_events user_events subscription_events resource_events security_events : KafkaTopic

-- The subject of an attempt on another tenant's data.
pub data SubjectType : Type 0 where
  resource_subject user_subject : SubjectType

-- The payloads: the fields of the object literals, in the order in which the code writes them.
pub data Payload : Type 0 where
  invited : (invitation_id email : ℕ) → UserRole → Payload
  created : (user_id email : ℕ) → Payload
  invitation : (invitation_id : ℕ) → Payload
  user : (user_id : ℕ) → Payload
  role_changed : (user_id : ℕ) → UserRole → Payload
  resource_added : (resource_id name size_delta : ℕ) → Payload
  resource_removed : (resource_id size_delta : ℕ) → Payload
  cross_tenant :
      SubjectType → (subject_id : ℕ) (actor_organization_id actor_user_id : Option ℕ) → Payload
  assigned : (subscription_id plan_code plan_id max_seats max_storage_bytes : ℕ) → Payload
  plan_changed : (from_plan_id to_plan_id to_plan_code max_seats max_storage_bytes : ℕ) → Payload
  organization : (organization_id name : ℕ) → Payload
  provisioned :
      (organization_id admin_user_id admin_email admin_first_name admin_last_name : ℕ) → Payload
  onboarding_failure : (saga_id : ℕ) (organization_id : Option ℕ) → Error → Payload
  auth_failure : (email : Option ℕ) (reason : ℕ) → Payload

-- `DomainEvent`, with the topic that it is published on.
pub record DomainEvent : Type 0 where
  pub topic : KafkaTopic
  pub event_type : EventType
  pub organization_id : Option ℕ
  pub actor_user_id : Option ℕ
  pub payload : Payload
