-- ===== src/ResourceService/Listing.antt =====
-- What a client reads who pages through the resources.
use multi_tenant_subscriptio.Base.{
  List, Option, [], ap, arith, every, false, fun_ext, length, map, none, select, select-and,
  select_ext, some, true, ℕ, ◌&&◌, ◌<◌, ◌==◌, ◌∙◌, ◌≡◌, ◌≤◌,
}
use multi_tenant_subscriptio.Common.{TenantContextPayload}
use multi_tenant_subscriptio.Database.{Outcome, World, caller, returned, thrown}
use multi_tenant_subscriptio.Pagination.{
  CursorPage, CursorQuery, after_cursor, fetched, map_page, order_desc, page, page_limit,
}
use multi_tenant_subscriptio.Pagination.Following.{follow, follow-map_page, follow-page}
use multi_tenant_subscriptio.Pagination.Order.{Distinct}
use multi_tenant_subscriptio.ResourceService.Lists.{
  BooleanText, ListResourcesQueryDto, ResourceSort, by_created_at, by_size_bytes,
  description_filter, list_page, paging, sort_column,
}
use multi_tenant_subscriptio.ResourceService.Resources.{ResourceResponseDto, to_dto}
use multi_tenant_subscriptio.ResourceService.Tables.{Resource, ResourceDb, is_live}

-- The live resources of an organisation that the filter lets through.
abbrev pub listed : ℕ → Option BooleanText → ResourceDb → List Resource
listed o has_description d =
    select (λ r. r.organization_id == o && (is_live r && description_filter has_description r))
      d.resources

abbrev answered :
    ListResourcesQueryDto
    → World ResourceDb
    → List Resource
    → Outcome (CursorPage ResourceResponseDto) × World ResourceDb
answered query w rows =
    (returned (map_page to_dto (fetched (sort_column query.sort) (paging query) rows)), w)

-- A list request answers the page of the caller's own resources, and changes nothing.
list_page-page :
    (o : ℕ) (p : TenantContextPayload) (query : ListResourcesQueryDto) (w : World ResourceDb)
    → list_page (caller o p) query w ≡ (
      returned (
          map_page to_dto
            (page (sort_column query.sort) (listed o query.has_description w.db) (paging query))),
      w,
    )
unfolding list_page
list_page-page o p query w = ap (answered query w) (
    select_ext _ _ w.db.resources (λ r. ground arith)
    ∙ select-and
        (λ r. r.organization_id == o && (is_live r && description_filter query.has_description r))
        (after_cursor (sort_column query.sort) query.cursor) w.db.resources)

abbrev page_or_empty : {A : Type 0} → Outcome (CursorPage A) → CursorPage A
page_or_empty (returned p) = p
page_or_empty (thrown e) = record { items = []; next_cursor = none; has_more = false }

-- The request for the page at a cursor, in a world that stands still.
abbrev pub fetch :
    ℕ
    → TenantContextPayload
    → World ResourceDb
    → (sort : Option ResourceSort) (has_description : Option BooleanText) → CursorQuery
    → CursorPage ResourceResponseDto
fetch o p w sort has_description q =
    page_or_empty
      (list_page (caller o p)
        (record {
          cursor = q.cursor;
          limit = q.limit;
          sort = sort;
          has_description = has_description;
        })
        w).0

fetch-eq :
    (o : ℕ) (p : TenantContextPayload) (w : World ResourceDb)
    → (sort : Option ResourceSort) (has_description : Option BooleanText) (q : CursorQuery)
    → fetch o p w sort has_description q
      ≡ map_page to_dto (page (sort_column sort) (listed o has_description w.db) q)
fetch-eq o p w sort has_description q =
    ap (λ (a : Outcome (CursorPage ResourceResponseDto) × World ResourceDb). page_or_empty a.0)
      (list_page-page o p
        (record {
          cursor = q.cursor;
          limit = q.limit;
          sort = sort;
          has_description = has_description;
        })
        w)

-- Every order breaks ties by the id.
by_id :
    (sort : Option ResourceSort) (rows : List Resource)
    → Distinct (λ r. r.id) rows
    → Distinct (sort_column sort).id rows
by_id none rows distinct = distinct
by_id (some by_created_at) rows distinct = distinct
by_id (some by_size_bytes) rows distinct = distinct

-- Whoever follows the cursors of the list, with one order, filter and limit of at least 1, reads each
-- live resource of the own organisation that the filter lets through, once, in the order asked for,
-- and no others, in at most one request more than there are such resources. The ids differ, and the
-- values of the ordered column reach the cursor as they are: all sizes do, and of the times those in
-- whole milliseconds.
pub follow-list_page :
    (o : ℕ) (p : TenantContextPayload) (w : World ResourceDb)
    → (sort : Option ResourceSort) (has_description : Option BooleanText) (limit : Option ℕ)
    → Distinct (λ r. r.id) (listed o has_description w.db)
    → every
        (λ r.
          (sort_column sort).shown ((sort_column sort).sort_value r)
          == (sort_column sort).sort_value r)
        (listed o has_description w.db)
      ≡ true
    → 1 ≤ page_limit (record { cursor = none; limit = limit })
    → (fuel : ℕ) → length (listed o has_description w.db) < fuel
    → follow fuel (fetch o p w sort has_description) (record { cursor = none; limit = limit })
      ≡ map to_dto (order_desc (sort_column sort) (listed o has_description w.db))
follow-list_page o p w sort has_description limit distinct exact positive fuel enough =
    let start : CursorQuery = record { cursor = none; limit = limit } in
    let rows : List Resource = listed o has_description w.db in
    ap (λ (g : CursorQuery → CursorPage ResourceResponseDto). follow fuel g start)
      (fun_ext (fetch-eq o p w sort has_description))
    ∙ follow-map_page to_dto fuel (page (sort_column sort) rows) start
    ∙ ap (map to_dto) (
        follow-page (sort_column sort) rows limit (by_id sort rows distinct) exact positive fuel
          enough)
