-- ===== src/UserService/SweepEffect.antt =====
-- What the hourly job does when it runs.
use multi_tenant_subscriptio.Base.{none, refl, select-eq-nil, true, ℕ, ◌&&◌, ◌≡◌}
use multi_tenant_subscriptio.Database.{World, returned, sees}
use multi_tenant_subscriptio.UserService.Sweep.{run_sweep}
use multi_tenant_subscriptio.UserService.Tables.{SubscriptionSeatView, UserDb}

-- The hourly sweep changes nothing, whatever invitations have expired: it reads the list of
-- organisations from a table under row-level security on a connection without a scope.
pub run_sweep-idle : (now : ℕ) (w : World UserDb) → run_sweep now w ≡ (returned tt, w)
unfolding run_sweep
run_sweep-idle now w =
    rw
      (select-eq-nil (λ (s : SubscriptionSeatView). sees none s.organization_id && true)
        w.db.subscriptions (λ s. refl))
      refl
