-- ===== src/UserService/Preservation/Operations.antt =====
-- The work of each operation, in the transaction that it opens.
use multi_tenant_subscriptio.Base.{
  Bool, List, Option, [], leb, length, neg, negsuc, not, pos, some, ℕ, ◌&&◌, ◌∷◌,
}
use multi_tenant_subscriptio.Common.{UserRole, gone, last_admin, not_found}
use multi_tenant_subscriptio.Database.{Connection, Context}
use multi_tenant_subscriptio.Database.Preservation.{
  Preserves, Preserves-bind, Preserves-catch, Preserves-if, Preserves-or_throw, Preserves-pure,
  Preserves-throw,
}
use multi_tenant_subscriptio.UserService.Preservation.{Rules}
use multi_tenant_subscriptio.UserService.Preservation.Queries.{
  adjust_used_seats-Preserves, count_active-Preserves, count_active_admins-Preserves,
  count_pending-Preserves, create_invitation-Preserves, create_user-Preserves,
  find_expired_ids-Preserves, find_invitation_by_id-Preserves, find_pending_by_token_hash-Preserves,
  find_user_by_id-Preserves, lock_seats-Preserves, mark_accepted-Preserves,
  mark_many_expired-Preserves, mark_removed-Preserves, mark_revoked-Preserves,
  update_user_role-Preserves,
}
use multi_tenant_subscriptio.UserService.Repositories.{NewInvitation, SeatSnapshot}
use multi_tenant_subscriptio.UserService.Sweep.{release_expired, sweep_work}
use multi_tenant_subscriptio.UserService.Tables.{UserDb, is_admin}
use multi_tenant_subscriptio.UserService.Users.{
  AcceptInvitationDto, Runtime, accept_work, guard_last_admin, invite_work, invited_user,
  not_removed, pending_to_conflict, reject_seats, remove_work, revoke_work, seats_rejected,
  still_pending, take_seat, unexpired, update_role_work,
}

module _ {P : Connection UserDb → Type 0} (rules : Rules P) where
  reject_seats-Preserves :
      (now : ℕ) (o : Option ℕ) (seat : SeatSnapshot) → Preserves P (reject_seats now o seat)
  unfolding reject_seats
  reject_seats-Preserves now o seat = Preserves-bind (count_active-Preserves rules o) (λ users.
      Preserves-bind (count_pending-Preserves rules now o)
        (λ pending. Preserves-throw (seats_rejected seat users pending)))

  take_seat-Preserves :
      (ctx : Context) (rt : Runtime) (o : Option ℕ) (new : NewInvitation)
      → Preserves P (take_seat ctx rt o new)
  unfolding take_seat
  take_seat-Preserves ctx rt o new =
      Preserves-bind
        (Preserves-catch (create_invitation-Preserves rules ctx rt.next_id rt.now new)
          (λ e. Preserves-throw (pending_to_conflict e)))
        (λ i.
          Preserves-bind (adjust_used_seats-Preserves rules o (pos 1)) (λ u. Preserves-pure i.id))

  pub invite_work-Preserves :
      (ctx : Context) (rt : Runtime) (o : Option ℕ) (new : NewInvitation)
      → Preserves P (invite_work ctx rt o new)
  unfolding invite_work
  invite_work-Preserves ctx rt o new = Preserves-bind (lock_seats-Preserves rules o) (λ seat.
      Preserves-if (leb seat.max_seats_snapshot seat.used_seats)
        (reject_seats-Preserves rt.now o seat) (take_seat-Preserves ctx rt o new))

  pub accept_work-Preserves :
      (now token o user_id : ℕ) (dto : AcceptInvitationDto)
      → Preserves P (accept_work now token o user_id dto)
  unfolding accept_work
  accept_work-Preserves now token o user_id dto =
      Preserves-bind (find_pending_by_token_hash-Preserves rules token) (λ found.
        Preserves-bind (Preserves-or_throw (unexpired now found) gone) (λ i.
          Preserves-bind (lock_seats-Preserves rules (some o)) (λ seat.
            Preserves-bind (create_user-Preserves rules (invited_user user_id o i dto) now) (λ u.
              Preserves-bind (mark_accepted-Preserves rules now i.id)
                (λ done. Preserves-pure (record { user = u; invitation_id = i.id }))))))

  pub revoke_work-Preserves :
      (ctx : Context) (now : ℕ) (o : Option ℕ) (id : ℕ) → Preserves P (revoke_work ctx now o id)
  unfolding revoke_work
  revoke_work-Preserves ctx now o id =
      Preserves-bind (find_invitation_by_id-Preserves rules ctx id) (λ found.
        Preserves-bind (Preserves-or_throw (still_pending found) not_found) (λ i.
          Preserves-bind (lock_seats-Preserves rules o) (λ seat.
            Preserves-bind (mark_revoked-Preserves rules ctx now id)
              (λ done. adjust_used_seats-Preserves rules o (negsuc 0)))))

  guard_last_admin-Preserves :
      (protects : Bool) (o : Option ℕ) → Preserves P (guard_last_admin protects o)
  unfolding guard_last_admin
  guard_last_admin-Preserves protects o =
      Preserves-if protects
        (Preserves-bind (count_active_admins-Preserves rules o)
          (λ admins. Preserves-if (leb admins 1) (Preserves-throw last_admin) (Preserves-pure tt)))
        (Preserves-pure tt)

  pub update_role_work-Preserves :
      (ctx : Context) (o : Option ℕ) (user_id : ℕ) (role : UserRole)
      → Preserves P (update_role_work ctx o user_id role)
  unfolding update_role_work
  update_role_work-Preserves ctx o user_id role =
      Preserves-bind (find_user_by_id-Preserves rules ctx user_id) (λ found.
        Preserves-bind (Preserves-or_throw found not_found) (λ u.
          Preserves-bind (guard_last_admin-Preserves (is_admin u.role && not (is_admin role)) o)
            (λ ok.
              Preserves-bind (update_user_role-Preserves rules ctx user_id role)
                (λ done. find_user_by_id-Preserves rules ctx user_id))))

  pub remove_work-Preserves :
      (ctx : Context) (o : Option ℕ) (user_id : ℕ) → Preserves P (remove_work ctx o user_id)
  unfolding remove_work
  remove_work-Preserves ctx o user_id =
      Preserves-bind (find_user_by_id-Preserves rules ctx user_id) (λ found.
        Preserves-bind (Preserves-or_throw (not_removed found) not_found) (λ u.
          Preserves-bind (guard_last_admin-Preserves (is_admin u.role) o) (λ ok.
            Preserves-bind (lock_seats-Preserves rules o) (λ seat.
              Preserves-bind (mark_removed-Preserves rules ctx user_id)
                (λ done. adjust_used_seats-Preserves rules o (negsuc 0))))))

  release_expired-Preserves : (now o : ℕ) (ids : List ℕ) → Preserves P (release_expired now o ids)
  unfolding release_expired
  release_expired-Preserves now o [] = Preserves-pure _
  release_expired-Preserves now o (id ∷ ids) =
      Preserves-bind (mark_many_expired-Preserves rules now (id ∷ ids)) (λ done.
        Preserves-bind (adjust_used_seats-Preserves rules (some o) (neg (length (id ∷ ids))))
          (λ u. Preserves-pure (id ∷ ids)))

  pub sweep_work-Preserves : (now o : ℕ) → Preserves P (sweep_work now o)
  unfolding sweep_work
  sweep_work-Preserves now o = Preserves-bind (lock_seats-Preserves rules (some o)) (λ seat.
      Preserves-bind (find_expired_ids-Preserves rules now o)
        (λ ids. release_expired-Preserves now o ids))
