-- ===== src/UserService/Preservation/Queries.antt =====
-- The queries of the three repositories.
use multi_tenant_subscriptio.Base.{List, Option, [], map, none, refl, some, ℕ, ℤ, ◌&&◌, ◌==◌, ◌∷◌}
use multi_tenant_subscriptio.Common.{UserRole, internal_server_error}
use multi_tenant_subscriptio.Database.{Connection, Context, insert_row}
use multi_tenant_subscriptio.Database.Preservation.{
  Preserves, Preserves-bind, Preserves-catch, Preserves-count_rows, Preserves-find_one,
  Preserves-find_rows, Preserves-pure, Preserves-tenant_id, Preserves-throw,
}
use multi_tenant_subscriptio.UserService.Preservation.{Rules}
use multi_tenant_subscriptio.UserService.Repositories.{
  NewInvitation, NewUser, adjust_used_seats, count_active, count_active_admins, count_pending,
  create_invitation, create_user, find_expired_ids, find_invitation_by_id,
  find_pending_by_token_hash, find_user_by_id, is_expired, lock_seats, mark_accepted,
  mark_many_expired, mark_removed, mark_revoked, overwrite_user, seat_snapshot, translate_unique,
  update_user_role, user_clashes, user_of,
}
use multi_tenant_subscriptio.UserService.Tables.{
  User, UserDb, invitations_table, subscriptions_table, users_table,
}

module _ {P : Connection UserDb → Type 0} (rules : Rules P) where
  module _ (ctx : Context) where
    pub find_user_by_id-Preserves : (id : ℕ) → Preserves P (find_user_by_id ctx id)
    unfolding find_user_by_id
    find_user_by_id-Preserves id =
        Preserves-bind (Preserves-tenant_id ctx) (λ o. Preserves-find_one users_table _)

    pub mark_removed-Preserves : (id : ℕ) → Preserves P (mark_removed ctx id)
    unfolding mark_removed
    mark_removed-Preserves id =
        Preserves-bind (Preserves-tenant_id ctx)
          (λ o. rules.update_users _ _ (λ u. refl) (λ u. refl))

    pub update_user_role-Preserves :
        (id : ℕ) (role : UserRole) → Preserves P (update_user_role ctx id role)
    unfolding update_user_role
    update_user_role-Preserves id role =
        Preserves-bind (Preserves-tenant_id ctx)
          (λ o. rules.update_users _ _ (λ u. refl) (λ u. refl))

    pub create_invitation-Preserves :
        (id now : ℕ) (n : NewInvitation) → Preserves P (create_invitation ctx id now n)
    unfolding create_invitation
    create_invitation-Preserves id now n = Preserves-bind (Preserves-tenant_id ctx) (λ o.
        Preserves-catch (rules.insert_invitation id o n _ refl)
          (λ e. Preserves-throw (translate_unique e)))

    pub find_invitation_by_id-Preserves : (id : ℕ) → Preserves P (find_invitation_by_id ctx id)
    unfolding find_invitation_by_id
    find_invitation_by_id-Preserves id =
        Preserves-bind (Preserves-tenant_id ctx) (λ o. Preserves-find_one invitations_table _)

    pub mark_revoked-Preserves : (now id : ℕ) → Preserves P (mark_revoked ctx now id)
    unfolding mark_revoked
    mark_revoked-Preserves now id =
        Preserves-bind (Preserves-tenant_id ctx)
          (λ o. rules.update_invitations _ _ (λ i. refl) (λ i. refl))

  pub count_active-Preserves : (o : Option ℕ) → Preserves P (count_active o)
  unfolding count_active
  count_active-Preserves o = Preserves-count_rows users_table _

  pub count_active_admins-Preserves : (o : Option ℕ) → Preserves P (count_active_admins o)
  unfolding count_active_admins
  count_active_admins-Preserves o = Preserves-count_rows users_table _

  pub count_pending-Preserves : (now : ℕ) (o : Option ℕ) → Preserves P (count_pending now o)
  unfolding count_pending
  count_pending-Preserves now o = Preserves-count_rows invitations_table _

  pub find_pending_by_token_hash-Preserves :
      (token : ℕ) → Preserves P (find_pending_by_token_hash token)
  unfolding find_pending_by_token_hash
  find_pending_by_token_hash-Preserves token = Preserves-find_one invitations_table _

  pub mark_accepted-Preserves : (now id : ℕ) → Preserves P (mark_accepted now id)
  unfolding mark_accepted
  mark_accepted-Preserves now id = rules.update_invitations _ _ (λ i. refl) (λ i. refl)

  pub find_expired_ids-Preserves : (now o : ℕ) → Preserves P (find_expired_ids now o)
  unfolding find_expired_ids
  find_expired_ids-Preserves now o =
      Preserves-bind
        (Preserves-find_rows invitations_table (λ i. i.organization_id == o && is_expired now i))
        (λ rows. Preserves-pure (map (λ i. i.id) rows))

  pub mark_many_expired-Preserves :
      (now : ℕ) (ids : List ℕ) → Preserves P (mark_many_expired now ids)
  unfolding mark_many_expired
  mark_many_expired-Preserves now [] = Preserves-pure tt
  mark_many_expired-Preserves now (id ∷ ids) = rules.update_invitations _ _ (λ i. refl) (λ i. refl)

  pub lock_seats-Preserves : (o : Option ℕ) → Preserves P (lock_seats o)
  unfolding lock_seats
  lock_seats-Preserves o = Preserves-bind (Preserves-find_one subscriptions_table _) snapshot
    where
      snapshot : (s : Option _) → Preserves P (seat_snapshot s)
      snapshot none = Preserves-throw internal_server_error
      snapshot (some s) = Preserves-pure _

  pub adjust_used_seats-Preserves :
      (o : Option ℕ) (delta : ℤ) → Preserves P (adjust_used_seats o delta)
  unfolding adjust_used_seats
  adjust_used_seats-Preserves o delta = rules.update_subscriptions _ _ _ (λ s. refl)

  pub create_user-Preserves : (n : NewUser) (now : ℕ) → Preserves P (create_user n now)
  unfolding create_user
  create_user-Preserves n now =
      Preserves-bind (Preserves-find_one users_table (λ u. u.id == n.id)) saved
    where
      saved :
          (existing : Option User)
          → Preserves P (elim existing [
            | some old ↦ overwrite_user n old
            | none ↦ insert_row users_table (user_clashes n) (user_of n now)
          ])
      saved none = rules.insert_user n now
      saved (some old) = rules.overwrite n old
