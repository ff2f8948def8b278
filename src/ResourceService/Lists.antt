-- ===== src/ResourceService/Lists.antt =====
-- The list of resources: listPage of resources/resource.repository.ts and of
-- resources/resources.service.ts, with dto/list-resources-query.dto.ts.
use multi_tenant_subscriptio.Base.{Bool, Option, false, none, not, some, true, ℕ, ◌&&◌, ◌==◌}
use multi_tenant_subscriptio.Database.{
  Context, Request, Tx, find_rows, pure, tenant_id, transaction, ◌>>=◌,
}
use multi_tenant_subscriptio.Pagination.{
  Cursor, CursorPage, CursorQuery, Listing, after_cursor, by_time, fetched, map_page,
}
use multi_tenant_subscriptio.ResourceService.Resources.{ResourceResponseDto, to_dto}
use multi_tenant_subscriptio.ResourceService.Tables.{Resource, ResourceDb, is_live, resources_table}

pub data ResourceSort : Type 0 where
  by_created_at by_size_bytes : ResourceSort

-- What @IsBooleanString lets through: 'true', 'false', and '1' or '0', which select nothing.
pub data BooleanText : Type 0 where
  text_true text_false text_digit : BooleanText

pub record ListResourcesQueryDto : Type 0 where
  pub cursor : Option Cursor
  pub limit : Option ℕ
  pub sort : Option ResourceSort
  pub has_description : Option BooleanText

-- The text '' as a description.
abbrev pub empty_text : ℕ
empty_text = 0

abbrev pub is_described : Resource → Bool
is_described r = elim r.description [ none ↦ false | some text ↦ not (text == empty_text) ]

abbrev pub description_filter : Option BooleanText → Resource → Bool
description_filter (some text_false) r = not (is_described r)
description_filter (some text_true) r = is_described r
description_filter (some text_digit) r = true
description_filter none r = true

-- The column of the order. A time counts microseconds; a size reaches the cursor as it is.
abbrev pub sort_column : Option ResourceSort → Listing Resource
sort_column (some by_size_bytes) = record {
  sort_value = λ r. r.size_bytes;
  id = λ r. r.id;
  shown = λ v. v;
}
sort_column (some by_created_at) = by_time (λ r. r.created_at) (λ r. r.id)
sort_column none = by_time (λ r. r.created_at) (λ r. r.id)

abbrev pub paging : ListResourcesQueryDto → CursorQuery
paging query = record { cursor = query.cursor; limit = query.limit }

unfoldable pub list_resources :
    Context → ListResourcesQueryDto → Tx ResourceDb (CursorPage Resource)
unfolding tenant_id find_rows
list_resources ctx query = do
  organization_id ← tenant_id ctx
  rows ← find_rows resources_table (λ r.
      (r.organization_id == organization_id
        && (is_live r && description_filter query.has_description r))
      && after_cursor (sort_column query.sort) query.cursor r)
  pure (fetched (sort_column query.sort) (paging query) rows)

unfoldable pub list_page :
    Context → ListResourcesQueryDto → Request ResourceDb (CursorPage ResourceResponseDto)
unfolding transaction list_resources
list_page ctx query = do
  found ← transaction ctx (list_resources ctx query)
  pure (map_page to_dto found)
