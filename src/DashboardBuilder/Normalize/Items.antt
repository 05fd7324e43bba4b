-- ===== src/DashboardBuilder/Normalize/Items.antt =====
-- A second pass over the filter items of queries changes nothing.
use signoz_mcp_server.Base.{◌≡◌, refl, ap, List, [], ◌∷◌}
use signoz_mcp_server.Base.Any.{
  Any, Anys, Fields, nil, bool, integer, float, number, string, array, object, end, item, get,
  get-set_self, set-set,
}
use signoz_mcp_server.DashboardBuilder.Normalize.{
  map_items, with_items, with_filters, each_filter_item, normalize_filter_item,
  normalize_filter_items_in_query_maps,
}
use signoz_mcp_server.DashboardBuilder.Normalize.Item.{normalize_filter_item-again}

module _ (f : Fields → Fields) (again : (m : Fields) → f (f m) ≡ f m) where
  map_items-again : (items : Anys) → map_items f (map_items f items) ≡ map_items f items
  unfolding map_items
  map_items-again end = refl
  map_items-again (item (object m) items) = rw (again m, map_items-again items)
  map_items-again (item nil items) = ap (item nil) (map_items-again items)
  map_items-again (item (bool b) items) = ap (item (bool b)) (map_items-again items)
  map_items-again (item (integer t i) items) = ap (item (integer t i)) (map_items-again items)
  map_items-again (item (float x) items) = ap (item (float x)) (map_items-again items)
  map_items-again (item (number s) items) = ap (item (number s)) (map_items-again items)
  map_items-again (item (string s) items) = ap (item (string s)) (map_items-again items)
  map_items-again (item (array vs) items) = ap (item (array vs)) (map_items-again items)

  with_items-again :
      (filters : Fields) (v : Any)
      → get filters "items" ≡ v
      → with_items f (with_items f filters v) (get (with_items f filters v) "items")
        ≡ with_items f filters v
  unfolding with_items
  with_items-again filters (array items) h =
      rw
        (
          get-set_self filters "items" (array (map_items f items)),
          with_items,
          map_items-again items,
        )
        (set-set filters "items" (array (map_items f items)) (array (map_items f items)))
  with_items-again filters nil h = rw h
  with_items-again filters (bool b) h = rw h
  with_items-again filters (integer t i) h = rw h
  with_items-again filters (float x) h = rw h
  with_items-again filters (number s) h = rw h
  with_items-again filters (string s) h = rw h
  with_items-again filters (object m) h = rw h

  with_filters-again :
      (entry : Fields) (v : Any)
      → get entry "filters" ≡ v
      → with_filters f (with_filters f entry v) (get (with_filters f entry v) "filters")
        ≡ with_filters f entry v
  unfolding with_filters
  with_filters-again entry (object filters) h =
      let healed = object (with_items f filters (get filters "items")) in
      rw
        (
          get-set_self entry "filters" healed,
          with_filters,
          with_items-again filters (get filters "items") refl,
        )
        (set-set entry "filters" healed healed)
  with_filters-again entry nil h = rw h
  with_filters-again entry (bool b) h = rw h
  with_filters-again entry (integer t i) h = rw h
  with_filters-again entry (float x) h = rw h
  with_filters-again entry (number s) h = rw h
  with_filters-again entry (string s) h = rw h
  with_filters-again entry (array items) h = rw h

  each_filter_item-again :
      (entries : List Fields)
      → each_filter_item f (each_filter_item f entries) ≡ each_filter_item f entries
  unfolding each_filter_item
  each_filter_item-again [] = refl
  each_filter_item-again (entry ∷ entries) =
      rw (with_filters-again entry (get entry "filters") refl, each_filter_item-again entries)

-- A second pass over the filter items of queries or formulas changes nothing: the data type and the
-- id that the first one fills in, and the variable that it takes out of its array, stay as they are.
pub normalize_filter_items_in_query_maps-again :
    (entries : List Fields)
    → normalize_filter_items_in_query_maps (normalize_filter_items_in_query_maps entries)
      ≡ normalize_filter_items_in_query_maps entries
unfolding normalize_filter_items_in_query_maps
normalize_filter_items_in_query_maps-again entries =
    each_filter_item-again normalize_filter_item normalize_filter_item-again entries
