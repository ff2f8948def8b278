-- ===== src/UserService/Isolation.antt =====
-- user-service under the tenant_isolation policy.
pub mod Requests
use multi_tenant_subscriptio.Base.{
  Bool-cases, Option-cases, ap, arith, first, inl, inr, not, select-update_where, ℕ, ◌&&◌, ◌==◌,
  ◌∙◌,
}
use multi_tenant_subscriptio.Database.{sees}
use multi_tenant_subscriptio.Database.Isolation.{
  Kept, Separates, insert_row-Kept, others, update_checked-Kept, update_rows-Kept,
}
use multi_tenant_subscriptio.Database.Preservation.{Preserves}
use multi_tenant_subscriptio.UserService.Preservation.{Rules}
use multi_tenant_subscriptio.UserService.Repositories.{
  NewUser, invitation_clashes, overwrite_user, overwritten, same_address, user_clashes, user_of,
}
use multi_tenant_subscriptio.UserService.Tables.{
  User, UserDb, invitations_table, subscriptions_table, users_table,
}

-- What the tables hold for the organisations other than `o`.
abbrev pub foreign : ℕ → UserDb → UserDb
foreign o d = record {
  users = others (λ u. u.organization_id) o d.users;
  invitations = others (λ i. i.organization_id) o d.invitations;
  subscriptions = others (λ s. s.organization_id) o d.subscriptions;
}

users-Separates : Separates foreign users_table
users-Separates = record {
  put_back = λ o d rows e. ap (λ rest. record (foreign o d) { users = rest }) e;
}

invitations-Separates : Separates foreign invitations_table
invitations-Separates = record {
  put_back = λ o d rows e. ap (λ rest. record (foreign o d) { invitations = rest }) e;
}

subscriptions-Separates : Separates foreign subscriptions_table
subscriptions-Separates = record {
  put_back = λ o d rows e. ap (λ rest. record (foreign o d) { subscriptions = rest }) e;
}

module _ (o : ℕ) (before : UserDb) where
  overwrite-Kept :
      (n : NewUser) (old : User) → Preserves (Kept foreign o before) (overwrite_user n old)
  unfolding overwrite_user
  overwrite-Kept n old = record {
    keeps = λ c (e, same). elim (Bool-cases (sees c.current_org n.organization_id)) [
      | inr denied ↦ rw denied (e, same)
      | inl own ↦
          elim (Option-cases (first (λ u. not (u.id == n.id) && same_address n u) c.tables.users)) [
            | inr (u, taken) ↦ rw (own, taken) (e, same)
            | inl free ↦
                rw (own, free)
                  (
                    e,
                    users-Separates.put_back o c.tables _ (
                          select-update_where (λ u. not (u.organization_id == o))
                            (λ u. sees c.current_org u.organization_id && (u.id == n.id))
                            (λ _. overwritten n old) c.tables.users (λ x h. ground arith)
                            (λ x h. ground arith))
                        ∙ same,
                  )
          ]
    ];
  }

  pub Kept-Rules : Rules (Kept foreign o before)
  Kept-Rules = record {
    update_users = λ p f id owner. update_rows-Kept users_table users-Separates o before p f owner;
    insert_user = λ n now.
        insert_row-Kept users_table users-Separates o before (user_clashes n) (user_of n now);
    overwrite = overwrite-Kept;
    update_invitations =
        λ p f id owner. update_rows-Kept invitations_table invitations-Separates o before p f owner;
    insert_invitation = λ id org n i e.
        insert_row-Kept invitations_table invitations-Separates o before
          (invitation_clashes id org n) i;
    update_subscriptions = λ p allowed f owner.
        update_checked-Kept subscriptions_table subscriptions-Separates o before p allowed f owner;
  }
