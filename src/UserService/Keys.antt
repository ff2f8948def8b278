-- ===== src/UserService/Keys.antt =====
-- The primary keys of users.users and users.invitations stay keys.
use multi_tenant_subscriptio.Base.{
  Bool, Bool-cases, Option-cases, [], all_where, arith, count, count-append,
  count-update_where_same, count_mono, first, first-eq-none, inl, inr, not, ℕ, ◌&&◌, ◌==◌, ◌∷◌, ◌≡◌,
  ◌≤◌,
}
use multi_tenant_subscriptio.Database.{Connection, insert_row, sees, update_checked, update_rows}
use multi_tenant_subscriptio.Database.Preservation.{Preserves}
use multi_tenant_subscriptio.UserService.Preservation.{Rules}
use multi_tenant_subscriptio.UserService.Repositories.{
  NewInvitation, NewUser, invitation_clashes, overwrite_user, overwritten, same_address,
  user_clashes, user_of,
}
use multi_tenant_subscriptio.UserService.Tables.{
  Invitation, SubscriptionSeatView, User, UserDb, invitations_table, subscriptions_table,
  users_table,
}

-- No two rows have the same id.
pub record HasKeys (db : UserDb) : Type 0 where
  pub user_keys : (id : ℕ) → count (λ u. u.id == id) db.users ≤ 1
  pub invitation_keys : (id : ℕ) → count (λ i. i.id == id) db.invitations ≤ 1

abbrev pub KeysOf : Connection UserDb → Type 0
KeysOf c = HasKeys c.tables

update_users-KeysOf :
    (p : User → Bool) (f : User → User)
    → ((u : User) → (f u).id ≡ u.id)
    → Preserves KeysOf (update_rows users_table p f)
unfolding update_rows
update_users-KeysOf p f same = record {
  keeps = λ c keys. record {
    user_keys = λ id. ground (
      arith,
      keys.user_keys id,
      count-update_where_same (λ u. u.id == id) (λ r. sees c.current_org r.organization_id && p r) f
          c.tables.users (λ x h. ground (arith, same x)),
    );
    invitation_keys = keys.invitation_keys;
  };
}

update_invitations-KeysOf :
    (p : Invitation → Bool) (f : Invitation → Invitation)
    → ((i : Invitation) → (f i).id ≡ i.id)
    → Preserves KeysOf (update_rows invitations_table p f)
unfolding update_rows
update_invitations-KeysOf p f same = record {
  keeps = λ c keys. record {
    user_keys = keys.user_keys;
    invitation_keys = λ id. ground (
      arith,
      keys.invitation_keys id,
      count-update_where_same (λ i. i.id == id) (λ r. sees c.current_org r.organization_id && p r) f
          c.tables.invitations (λ x h. ground (arith, same x)),
    );
  };
}

insert_user-KeysOf :
    (n : NewUser) (now : ℕ)
    → Preserves KeysOf (insert_row users_table (user_clashes n) (user_of n now))
unfolding insert_row
insert_user-KeysOf n now = record {
  keeps = λ c keys. elim (Bool-cases (sees c.current_org n.organization_id)) [
    | inr denied ↦ rw denied keys
    | inl own ↦ elim (Option-cases (first (user_clashes n) c.tables.users)) [
      | inr (x, taken) ↦ rw (own, taken) keys
      | inl free ↦
          rw (own, free)
            (record {
              user_keys = λ id. ground (
                arith,
                keys.user_keys id,
                count-append (λ u. u.id == id) c.tables.users (user_of n now ∷ []),
                first-eq-none (user_clashes n) c.tables.users free,
                count_mono (λ (u : User). u.id == n.id) (user_clashes n) c.tables.users
                    (λ x h. ground arith),
              );
              invitation_keys = keys.invitation_keys;
            })
    ]
  ];
}

insert_invitation-KeysOf :
    (id o : ℕ) (n : NewInvitation) (i : Invitation)
    → i.id ≡ id
    → Preserves KeysOf (insert_row invitations_table (invitation_clashes id o n) i)
unfolding insert_row
insert_invitation-KeysOf id o n i same = record {
  keeps = λ c keys. elim (Bool-cases (sees c.current_org i.organization_id)) [
    | inr denied ↦ rw denied keys
    | inl own ↦ elim (Option-cases (first (invitation_clashes id o n) c.tables.invitations)) [
      | inr (x, taken) ↦ rw (own, taken) keys
      | inl free ↦
          rw (own, free)
            (record {
              user_keys = keys.user_keys;
              invitation_keys = λ k. ground (
                arith,
                keys.invitation_keys k,
                count-append (λ j. j.id == k) c.tables.invitations (i ∷ []),
                first-eq-none (invitation_clashes id o n) c.tables.invitations free,
                count_mono (λ (j : Invitation). j.id == id) (invitation_clashes id o n)
                    c.tables.invitations (λ x h. ground arith),
              );
            })
    ]
  ];
}

overwrite-KeysOf : (n : NewUser) (old : User) → Preserves KeysOf (overwrite_user n old)
unfolding overwrite_user update_rows
overwrite-KeysOf n old = record {
  keeps = λ c keys. elim (Bool-cases (sees c.current_org n.organization_id)) [
    | inr denied ↦ rw denied keys
    | inl own ↦
        elim (Option-cases (first (λ u. not (u.id == n.id) && same_address n u) c.tables.users)) [
          | inr (u, taken) ↦ rw (own, taken) keys
          | inl free ↦
              rw (own, free)
                (record {
                  user_keys = λ id. ground (
                    arith,
                    keys.user_keys id,
                    count-update_where_same (λ u. u.id == id)
                        (λ r. sees c.current_org r.organization_id && (r.id == n.id))
                        (λ _. overwritten n old) c.tables.users (λ x h. ground arith),
                  );
                  invitation_keys = keys.invitation_keys;
                })
        ]
  ];
}

update_subscriptions-KeysOf :
    (p allowed : SubscriptionSeatView → Bool) (f : SubscriptionSeatView → SubscriptionSeatView)
    → Preserves KeysOf (update_checked subscriptions_table p allowed f)
unfolding update_checked update_rows
update_subscriptions-KeysOf p allowed f = record {
  keeps = λ c keys.
      elim (Bool-cases (
        all_where (λ r. sees c.current_org r.organization_id && p r) allowed
          c.tables.subscriptions)) [
            | inl fits ↦
                rw fits
                  (record { user_keys = keys.user_keys; invitation_keys = keys.invitation_keys })
            | inr refused ↦ rw refused keys
          ];
}

pub KeysOf-Rules : Rules KeysOf
KeysOf-Rules = record {
  update_users = λ p f id owner. update_users-KeysOf p f id;
  insert_user = insert_user-KeysOf;
  overwrite = overwrite-KeysOf;
  update_invitations = λ p f id owner. update_invitations-KeysOf p f id;
  insert_invitation = insert_invitation-KeysOf;
  update_subscriptions = λ p allowed f owner. update_subscriptions-KeysOf p allowed f;
}
