-- ===== src/UserService/Repositories.antt =====
-- users/user.repository.ts, invitations/invitation.repository.ts and
-- subscriptions/subscription-seat.repository.ts.
use multi_tenant_subscriptio.Base.{
  Bool, List, Option, [], add_delta, eq_nullable, false, first, get_or, if◌then◌else◌, leb, ltb,
  map, member, none, not, some, ℕ, ℤ, ◌&&◌, ◌==◌, ◌||◌, ◌∷◌,
}
use multi_tenant_subscriptio.Common.{
  Error, UserRole, internal_server_error, invitation_already_pending, rls_violation,
  unique_violation,
}
use multi_tenant_subscriptio.Database.{
  Context, Tx, catch, count_rows, find_one, find_rows, insert_row, pure, returned, sees, tenant_id,
  throw, update_checked, update_rows, ◌>>=◌, ◌>>◌,
}
use multi_tenant_subscriptio.UserService.Tables.{
  Invitation, SubscriptionSeatView, User, UserDb, active, invitations_table, is_active, is_admin,
  is_pending, removed, subscriptions_table, users_table,
}

-- UserRepository

unfoldable pub find_user_by_id : Context → ℕ → Tx UserDb (Option User)
unfolding tenant_id find_one
find_user_by_id ctx id = do
  organization_id ← tenant_id ctx
  find_one users_table (λ u. u.id == id && u.organization_id == organization_id)

unfoldable pub count_active : Option ℕ → Tx UserDb ℕ
unfolding count_rows
count_active organization_id =
    count_rows users_table (λ u. eq_nullable u.organization_id organization_id && is_active u)

unfoldable pub count_active_admins : Option ℕ → Tx UserDb ℕ
unfolding count_rows
count_active_admins organization_id =
    count_rows users_table
      λ u. eq_nullable u.organization_id organization_id && is_active u && is_admin u.role

-- The columns that `create` gives.
pub record NewUser : Type 0 where
  pub id : ℕ
  pub organization_id : ℕ
  pub email : ℕ
  pub first_name : ℕ
  pub last_name : ℕ
  pub role : UserRole

abbrev pub user_of : NewUser → ℕ → User
user_of n now = record {
  id = n.id;
  organization_id = n.organization_id;
  email = n.email;
  first_name = n.first_name;
  last_name = n.last_name;
  role = n.role;
  status = active;
  created_at = now;
}

-- The primary key, and uq_users_org_email.
abbrev pub same_address : NewUser → User → Bool
same_address n u = u.organization_id == n.organization_id && u.email == n.email

abbrev pub user_clashes : NewUser → User → Bool
user_clashes n u = u.id == n.id || same_address n u

abbrev pub overwritten : NewUser → User → User
overwritten n old = record (user_of n old.created_at) { status = old.status }

-- `save` of an entity with an id: an UPDATE if a row with that id is seen, else an INSERT. The
-- UPDATE gives the columns that `create` names: WITH CHECK refuses another organisation, and
-- uq_users_org_email an address that another row of the organisation has.
unfoldable pub overwrite_user : NewUser → User → Tx UserDb User
unfolding update_rows
overwrite_user n old c =
    if sees c.current_org n.organization_id
    then (elim (first (λ u. not (u.id == n.id) && same_address n u) c.tables.users) [
      | some _ ↦ throw unique_violation c
      | none ↦
          (update_rows users_table (λ u. u.id == n.id) (λ _. overwritten n old)
              >> pure (overwritten n old))
            c
    ])
    else throw rls_violation c

unfoldable pub create_user : NewUser → ℕ → Tx UserDb User
unfolding find_one insert_row overwrite_user
create_user n now = do
  existing ← find_one users_table (λ u. u.id == n.id)
  elim existing [
    | some old ↦ overwrite_user n old
    | none ↦ insert_row users_table (user_clashes n) (user_of n now)
  ]

unfoldable pub mark_removed : Context → ℕ → Tx UserDb (Unit {0})
unfolding tenant_id update_rows
mark_removed ctx id = do
  organization_id ← tenant_id ctx
  update_rows users_table (λ u. u.id == id && u.organization_id == organization_id)
      (λ u. record u { status = removed })

unfoldable pub update_user_role : Context → ℕ → UserRole → Tx UserDb (Unit {0})
unfolding tenant_id update_rows
update_user_role ctx id role = do
  organization_id ← tenant_id ctx
  update_rows users_table (λ u. u.id == id && u.organization_id == organization_id)
      (λ u. record u { role = role })

-- InvitationRepository

-- Pending and not expired: what the rejection message counts.
unfoldable pub count_pending : ℕ → Option ℕ → Tx UserDb ℕ
unfolding count_rows
count_pending now organization_id =
    count_rows invitations_table
      λ i. eq_nullable i.organization_id organization_id && is_pending i && ltb now i.expires_at

pub record NewInvitation : Type 0 where
  pub email : ℕ
  pub role : UserRole
  pub token_hash : ℕ
  pub expires_at : ℕ

-- uq_invitations_token_hash, uq_invitations_org_email_pending, and the primary key.
abbrev pub invitation_clashes : ℕ → ℕ → NewInvitation → Invitation → Bool
invitation_clashes id organization_id n i =
    i.id == id
    || (i.token_hash == n.token_hash
        || (i.organization_id == organization_id && i.email == n.email && is_pending i))

abbrev pub translate_unique : Error → Error
translate_unique unique_violation = invitation_already_pending
translate_unique e = e

-- `id` and `now` are the database's gen_random_uuid() and now().
unfoldable pub create_invitation : Context → ℕ → ℕ → NewInvitation → Tx UserDb Invitation
unfolding tenant_id insert_row
create_invitation ctx id now n = do
  organization_id ← tenant_id ctx
  catch
      (insert_row invitations_table (invitation_clashes id organization_id n) (record {
        id = id;
        organization_id = organization_id;
        email = n.email;
        role = n.role;
        token_hash = n.token_hash;
        expires_at = n.expires_at;
        accepted_at = none;
        revoked_at = none;
        created_at = now;
      }))
      (λ e. throw (translate_unique e))

unfoldable pub find_pending_by_token_hash : ℕ → Tx UserDb (Option Invitation)
unfolding find_one
find_pending_by_token_hash token_hash =
    find_one invitations_table (λ i. i.token_hash == token_hash && is_pending i)

unfoldable pub mark_accepted : ℕ → ℕ → Tx UserDb (Unit {0})
unfolding update_rows
mark_accepted now id =
    update_rows invitations_table (λ i. i.id == id) (λ i. record i { accepted_at = some now })

unfoldable pub find_invitation_by_id : Context → ℕ → Tx UserDb (Option Invitation)
unfolding tenant_id find_one
find_invitation_by_id ctx id = do
  organization_id ← tenant_id ctx
  find_one invitations_table (λ i. i.id == id && i.organization_id == organization_id)

unfoldable pub mark_revoked : Context → ℕ → ℕ → Tx UserDb (Unit {0})
unfolding tenant_id update_rows
mark_revoked ctx now id = do
  organization_id ← tenant_id ctx
  update_rows invitations_table (λ i. i.id == id && i.organization_id == organization_id)
      (λ i. record i { revoked_at = some now })

abbrev pub is_expired : ℕ → Invitation → Bool
is_expired now i = is_pending i && leb i.expires_at now

unfoldable pub find_expired_ids : ℕ → ℕ → Tx UserDb (List ℕ)
unfolding find_rows
find_expired_ids now organization_id = do
  rows ← find_rows invitations_table (λ i. i.organization_id == organization_id && is_expired now i)
  pure (map (λ i. i.id) rows)

unfoldable pub mark_many_expired : ℕ → List ℕ → Tx UserDb (Unit {0})
unfolding update_rows
mark_many_expired now [] = pure tt
mark_many_expired now (x ∷ xs) =
    update_rows invitations_table (λ i. member i.id (x ∷ xs))
      (λ i. record i { revoked_at = some now })

-- users.get_invitation_organization_id of migration 1700000000005. It is SECURITY DEFINER and its
-- owner has BYPASSRLS, so it reads every row. The scope of the connection plays no part.
unfoldable pub organization_of_token : ℕ → ℕ → Tx UserDb (Option ℕ)
organization_of_token now token_hash c = (
  returned
      (elim (first (λ i. i.token_hash == token_hash && is_pending i && ltb now i.expires_at)
        c.tables.invitations) [ none ↦ none | some i ↦ some i.organization_id ]),
  c,
)

-- SubscriptionSeatRepository

pub record SeatSnapshot : Type 0 where
  pub used_seats : ℕ
  pub max_seats_snapshot : ℕ

abbrev pub seat_snapshot : Option SubscriptionSeatView → Tx UserDb SeatSnapshot
seat_snapshot none = throw internal_server_error
seat_snapshot (some row) =
    pure (record { used_seats = row.used_seats; max_seats_snapshot = row.max_seats_snapshot })

-- A row lock orders transactions and changes nothing that one of them reads.
unfoldable pub lock_seats : Option ℕ → Tx UserDb SeatSnapshot
unfolding find_one
lock_seats organization_id = do
  row ← find_one subscriptions_table (λ s. eq_nullable s.organization_id organization_id)
  seat_snapshot row

-- ck_subscriptions_seats_nonneg and ck_subscriptions_seats, of the counter's new value.
abbrev pub seats_allowed : Option ℕ → ℕ → Bool
seats_allowed none limit = false
seats_allowed (some n) limit = leb n limit

unfoldable pub adjust_used_seats : Option ℕ → ℤ → Tx UserDb (Unit {0})
unfolding update_checked
adjust_used_seats organization_id delta =
    update_checked subscriptions_table (λ s. eq_nullable s.organization_id organization_id)
      (λ s. seats_allowed (add_delta s.used_seats delta) s.max_seats_snapshot)
      (λ s. record s { used_seats = get_or (add_delta s.used_seats delta) s.used_seats })
