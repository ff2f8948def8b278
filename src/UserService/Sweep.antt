-- ===== src/UserService/Sweep.antt =====
-- sweep/invitation-expiry-sweep.service.ts: the hourly job that gives the seats of expired
-- invitations back.
use multi_tenant_subscriptio.Base.{List, [], length, map, neg, none, some, true, ℕ, ◌∷◌}
use multi_tenant_subscriptio.Common.{DomainEvent, invitation, invitation_expired, user_events}
use multi_tenant_subscriptio.Database.{
  Request, Tx, catch, find_rows, publish, pure, run_global, transaction_for_organization, ◌>>=◌,
  ◌>>◌,
}
use multi_tenant_subscriptio.UserService.Repositories.{
  adjust_used_seats, find_expired_ids, lock_seats, mark_many_expired,
}
use multi_tenant_subscriptio.UserService.Tables.{UserDb, subscriptions_table}

-- `if (ids.length === 0) return [];` and the rest of the transaction.
unfoldable pub release_expired : ℕ → ℕ → List ℕ → Tx UserDb (List ℕ)
unfolding mark_many_expired adjust_used_seats
release_expired now organization_id [] = pure []
release_expired now organization_id (id ∷ ids) = do
  mark_many_expired now (id ∷ ids)
  adjust_used_seats (some organization_id) (neg (length (id ∷ ids)))
  pure (id ∷ ids)

unfoldable pub sweep_work : ℕ → ℕ → Tx UserDb (List ℕ)
unfolding lock_seats find_expired_ids release_expired
sweep_work now organization_id = do
  lock_seats (some organization_id)
  ids ← find_expired_ids now organization_id
  release_expired now organization_id ids

abbrev expired_event : ℕ → ℕ → DomainEvent
expired_event organization_id id = record {
  topic = user_events;
  event_type = invitation_expired;
  organization_id = some organization_id;
  actor_user_id = none;
  payload = invitation id;
}

unfoldable pub publish_expired : ℕ → List ℕ → Request UserDb (Unit {0})
unfolding publish
publish_expired organization_id [] = pure tt
publish_expired organization_id (id ∷ ids) =
    publish (expired_event organization_id id) >> publish_expired organization_id ids

-- A failed transaction is logged, and the organisation is left for the next run.
unfoldable pub sweep_organization : ℕ → ℕ → Request UserDb (Unit {0})
unfolding transaction_for_organization sweep_work publish_expired
sweep_organization now organization_id = do
  ids ←
      catch (transaction_for_organization organization_id (sweep_work now organization_id))
        (λ _. pure [])
  publish_expired organization_id ids

unfoldable pub sweep_all : ℕ → List ℕ → Request UserDb (Unit {0})
unfolding sweep_organization
sweep_all now [] = pure tt
sweep_all now (organization_id ∷ rest) =
    sweep_organization now organization_id >> sweep_all now rest

-- The list of organisations is read through `runGlobal`, from subs.subscriptions.
unfoldable pub run_sweep : ℕ → Request UserDb (Unit {0})
unfolding run_global find_rows sweep_all
run_sweep now = do
  rows ← run_global (find_rows subscriptions_table (λ _. true))
  sweep_all now (map (λ s. s.organization_id) rows)
