-- ===== src/UserService/Provisioning.antt =====
-- events/organization-provisioned.consumer.ts: the first admin of a new organisation.
use multi_tenant_subscriptio.Base.{ℕ}
use multi_tenant_subscriptio.Common.{UserRole, EventType, organization_provisioned}
use multi_tenant_subscriptio.Database.{Request, Context, transaction, pure, ◌>>◌}
use multi_tenant_subscriptio.UserService.Tables.{UserDb}
use multi_tenant_subscriptio.UserService.Repositories.{NewUser, create_user}

pub record OrganizationProvisionedPayload : Type 0 where
  pub organization_id : ℕ
  pub admin_user_id : ℕ
  pub admin_email : ℕ
  pub admin_first_name : ℕ
  pub admin_last_name : ℕ

abbrev pub first_admin : OrganizationProvisionedPayload → NewUser
first_admin payload = record {
  id = payload.admin_user_id;
  organization_id = payload.organization_id;
  email = payload.admin_email;
  first_name = payload.admin_first_name;
  last_name = payload.admin_last_name;
  role = UserRole.org_admin;
}

-- `handle`; the scope of the base class is `ctx`, the event's type and payload come decoded.
unfoldable pub handle_provisioned :
    Context → ℕ → EventType → OrganizationProvisionedPayload → Request UserDb (Unit {0})
unfolding transaction create_user
handle_provisioned ctx now organization_provisioned payload =
    transaction ctx (create_user (first_admin payload) now) >> pure tt
handle_provisioned ctx now _ payload = pure tt
