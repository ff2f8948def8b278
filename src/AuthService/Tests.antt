-- ===== src/AuthService/Tests.antt =====
-- One account with one session, and the theorems at them.
use multi_tenant_subscriptio.Base.{[], length, none, refl, some, ◌+◌, ◌==◌, ◌∷◌, ◌≡◌}
use multi_tenant_subscriptio.Common.{Role, forbidden, unauthorized}
use multi_tenant_subscriptio.AuthService.Auth.{login, refresh, resolve_roles}
use multi_tenant_subscriptio.AuthService.Interleaving.{
  Run, Sessions, answered, asked, checked, next, proceed, proceeds, start,
}
use multi_tenant_subscriptio.AuthService.Interleaving.Race.{
  Meets, Run-twice, both_rotated, new_pair,
}
use multi_tenant_subscriptio.AuthService.Interleaving.Revoked.{Run-refused, run_owner}
use multi_tenant_subscriptio.AuthService.Login.{login-refused}
use multi_tenant_subscriptio.AuthService.Rotation.{live_tokens, refresh-single_use}
use multi_tenant_subscriptio.AuthService.Tables.{AuthDb, Credential, RefreshToken, active}
use multi_tenant_subscriptio.AuthService.Tokens.{Runtime}
use multi_tenant_subscriptio.Database.{World, returned, thrown}

abbrev runtime : Runtime
runtime = record {
  now = 1000;
  random_uuid = 3;
  next_id = 41;
  random_token = 77;
  refresh_lifetime = 500;
  sha256 = λ token. token + 100;
  argon2_hash = λ password. password + 1;
  argon2_verify = λ hash password. returned (hash == (password + 1));
  sign = λ principal. principal.user_id;
  get_role = λ user_id. returned (some Role.org_member);
}

abbrev credential : Credential
credential = record {
  id = 1;
  user_id = 2;
  organization_id = some 9;
  email = 5;
  password_hash = 12;
  status = active;
}

abbrev token : RefreshToken
token = record {
  id = 40;
  credential_id = 1;
  token_hash = 150;
  expires_at = 1200;
  revoked_at = none;
  replaced_by = none;
}

abbrev world : World AuthDb
world = record {
  db = record { credentials = credential ∷ []; refresh_tokens = token ∷ [] };
  published = [];
}

login-refused_example :
    ((login runtime 5 99 world).0 ≡ thrown unauthorized)
    × ((login runtime 5 99 world).1.db ≡ world.db)
    × (length (login runtime 5 99 world).1.published ≡ 1)
login-refused_example = login-refused runtime 5 99 world refl

abbrev spent_world : World AuthDb
spent_world = record world {
  db = record world.db { refresh_tokens = record token { revoked_at = some 900 } ∷ [] };
}

refresh-single_use_example :
    ((refresh runtime 50 (refresh runtime 50 world).1).0 ≡ thrown forbidden)
    × (live_tokens 1 (refresh runtime 50 (refresh runtime 50 world).1).1.db ≡ 0)
unfolding resolve_roles
refresh-single_use_example =
    refresh-single_use runtime world token credential (Role.org_member ∷ []) refl refl refl 50 refl
      refl refl runtime refl

abbrev other_runtime : Runtime
other_runtime = record runtime { next_id = 42; random_token = 78 }

-- Two sessions, one of them past its check, at the moment when the token is revoked.
abbrev two_sessions : Sessions
two_sessions = record { phases = asked 50 ∷ checked token ∷ []; world = spent_world }

abbrev one_rotated : Sessions
one_rotated = record {
  phases = asked 50 ∷ (proceed runtime (checked token) spent_world).0 ∷ [];
  world = (proceed runtime (checked token) spent_world).1;
}

one_rotation : Run two_sessions one_rotated
one_rotation = next start (proceeds runtime (asked 50 ∷ []) [] (checked token) refl)

Run-refused_example :
    ((refresh other_runtime 50 one_rotated.world).0 ≡ thrown forbidden)
    × (live_tokens
          (run_owner other_runtime 50 one_rotated)
          (refresh other_runtime 50 one_rotated.world).1.db
        ≡ 0)
Run-refused_example =
    Run-refused other_runtime 50 two_sessions one_rotated
      (record token { revoked_at = some 900 }, refl, refl) one_rotation

first_answers : Meets world token credential (Role.org_member ∷ []) 50 runtime
unfolding resolve_roles
first_answers = record { found = refl; unexpired = refl; resolved = λ u. refl }

second_answers : Meets world token credential (Role.org_member ∷ []) 50 other_runtime
unfolding resolve_roles
second_answers = record { found = refl; unexpired = refl; resolved = λ u. refl }

Run-twice_example :
    Run
      (record { phases = asked 50 ∷ asked 50 ∷ []; world = world })
      (record {
        phases =
            answered (new_pair world token credential (Role.org_member ∷ []) 50 runtime)
            ∷ answered (new_pair world token credential (Role.org_member ∷ []) 50 other_runtime)
            ∷ [];
        world = both_rotated world token credential (Role.org_member ∷ []) 50 runtime other_runtime;
      })
Run-twice_example =
    Run-twice world token credential (Role.org_member ∷ []) 50 runtime other_runtime first_answers
      second_answers refl refl refl refl
