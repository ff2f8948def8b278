-- ===== src/UserService/Reading.antt =====
-- What the reading requests answer.
use mathlib.Core.Option
use multi_tenant_subscriptio.Base.{
  Bool, List, Option, Option-cases, [], ap, arith, count, every, every-map, false, first,
  first-eq-none, first_of_count_zero, inl, inr, not, refl, select, select-and, select_ext, some,
  true, ℕ, ◌&&◌, ◌==◌, ◌∙◌, ◌∷◌, ◌≡◌, ◌≤◌,
}
use multi_tenant_subscriptio.Common.{TenantContextPayload}
use multi_tenant_subscriptio.Database.{Outcome, World, caller, returned, thrown}
use multi_tenant_subscriptio.Pagination.{
  CursorPage, CursorQuery, after_cursor, encode_cursor, fetched, map_page, page,
}
use multi_tenant_subscriptio.Pagination.Precision.{TimeOf, page-skips, within_ms}
use multi_tenant_subscriptio.UserService.Lists.{users_listing}
use multi_tenant_subscriptio.UserService.Tables.{User, UserDb, is_active}
use multi_tenant_subscriptio.UserService.Users.{UserResponseDto, to_user_dto}
use multi_tenant_subscriptio.UserService.UsersRead.{get_role_for_auth_service, list_page}

-- The members of an organisation that are listed.
abbrev pub members : ℕ → UserDb → List User
members o d = select (λ u. u.organization_id == o && is_active u) d.users

abbrev answered :
    CursorQuery → World UserDb → List User → Outcome (CursorPage UserResponseDto) × World UserDb
answered query w rows = (returned (map_page to_user_dto (fetched users_listing query rows)), w)

-- The list of members is the page of the caller's own members, and reading changes nothing.
pub list_page-page :
    (o : ℕ) (p : TenantContextPayload) (query : CursorQuery) (w : World UserDb)
    → list_page (caller o p) query w
      ≡ (returned (map_page to_user_dto (page users_listing (members o w.db) query)), w)
unfolding list_page
list_page-page o p query w = ap (answered query w) (
    select_ext _ _ w.db.users (λ u. ground arith)
    ∙ select-and (λ u. u.organization_id == o && is_active u)
        (after_cursor users_listing query.cursor) w.db.users)

-- The answer is a page, and all its items pass the test.
abbrev pub every_item : {A : Type 0} → (A → Bool) → Outcome (CursorPage A) → Bool
every_item q (returned p) = every q p.items
every_item q (thrown e) = false

-- The request for the page after a member `x` answers no page that has a member `r` who was created
-- in the same millisecond and not at its start, also where `r` comes after `x` in the order.
pub list_page-skips :
    (o : ℕ) (p : TenantContextPayload) (limit : Option ℕ) (w : World UserDb) (x r : User)
    → TimeOf (λ u. u.created_at) (λ u. u.id) r (members o w.db)
    → within_ms x.created_at r.created_at ≡ true
    → every_item
        (λ dto. not (dto.id == r.id))
        (list_page
          (caller o p)
          (record { cursor = some (encode_cursor users_listing x); limit = limit })
          w).0
      ≡ true
list_page-skips o p limit w x r timed near =
    let query : CursorQuery = record {
      cursor = some (encode_cursor users_listing x);
      limit = limit;
    } in
    ap
      (λ (a : Outcome (CursorPage UserResponseDto) × World UserDb).
        every_item (λ dto. not (dto.id == r.id)) a.0)
      (list_page-page o p query w)
    ∙ every-map (λ dto. not (dto.id == r.id)) to_user_dto
        (page users_listing (members o w.db) query).items
    ∙ page-skips (λ u. u.created_at) (λ u. u.id) (members o w.db) x r limit timed near

abbrev pub role_test : ℕ → User → Bool
role_test id u = u.id == id && is_active u

first-own :
    (id o : ℕ) (us : List User) {u : User}
    → count (λ (u : User). u.id == id) us ≤ 1
    → first (λ (u : User). u.id == id) us ≡ some u
    → u.organization_id ≡ o
    → first (λ x. x.organization_id == o && role_test id x) us ≡ first (role_test id) us
first-own id o [] once found own = cc
first-own id o (x ∷ us) {u} once found own = ground (
  arith,
  first-own id o us {u = u},
  first_of_count_zero (λ x. x.organization_id == o && role_test id x) (λ (u : User). u.id == id) us
      (λ x h. ground arith),
  first_of_count_zero (role_test id) (λ (u : User). u.id == id) us (λ x h. ground arith),
)

-- auth-service is answered the role of the member with the id, in whichever organisation, and nothing
-- for a removed user or an unknown id, where no two users have the same id.
pub get_role_for_auth_service-role :
    (id : ℕ) (w : World UserDb)
    → count (λ u. u.id == id) w.db.users ≤ 1
    → get_role_for_auth_service id w
      ≡ (returned (Option.map (λ u. u.role) (first (role_test id) w.db.users)), w)
unfolding get_role_for_auth_service
get_role_for_auth_service-role id w once =
    elim (Option-cases (first (λ u. u.id == id) w.db.users)) [
      | inl unknown ↦
          let nobody =
            first_of_count_zero (role_test id) (λ u. u.id == id) w.db.users (λ x h. ground arith)
              (first-eq-none (λ u. u.id == id) w.db.users unknown) in
          ground arith
      | inr (u, found) ↦
          let same = first-own id u.organization_id w.db.users once found refl in ground arith
    ]
