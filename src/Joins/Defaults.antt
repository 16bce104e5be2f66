-- ===== src/Joins/Defaults.antt =====
-- DefaultTableJoins of workitem/expression_compiler.go, in the order of its text.
pub mod Handling
pub mod Ordered
use almighty_core.Prelude.{Bool, false, Option, some, List, [], ◌∷◌, ◌++◌}
use almighty_core.Prelude.Texts.{Text, codes}
use almighty_core.Joins.{TableJoin, TableJoinMap, column, work_items, join_on_json_field}

-- the fields of a literal that it leaves out
abbrev no_join : TableJoin
no_join = record {
  active = false;
  table_name = [];
  table_alias = [];
  on_clause = [];
  where_clause = [];
  prefix_activators = [];
  allowed_columns = [];
  disallowed_columns = [];
  handled_fields = [];
  activate_other_joins = [];
  delegate_to = [];
}

abbrev one : Text → List Text
one t = t ∷ []

-- Column(a, x) + "=" + Column(b, y)
abbrev equal_columns : Text → Text → Text → Text → Text
equal_columns a x b y = column a x ++ codes "=" ++ column b y

abbrev same_space : Text → Text
same_space alias =
    codes " AND " ++ equal_columns alias (codes "space_id") work_items (codes "space_id")

unfoldable pub iteration_join : TableJoin
unfolding join_on_json_field column
iteration_join = record no_join {
  table_name = codes "iterations";
  table_alias = codes "iter";
  on_clause =
      join_on_json_field (codes "system.iteration") (codes "iter.id") ++ same_space (codes "iter");
  prefix_activators = one (codes "iteration.");
  allowed_columns = codes "name" ∷ codes "created_at" ∷ codes "number" ∷ [];
}

area_join : TableJoin
unfolding join_on_json_field column
area_join = record no_join {
  table_name = codes "areas";
  table_alias = codes "ar";
  on_clause = join_on_json_field (codes "system.area") (codes "ar.id") ++ same_space (codes "ar");
  prefix_activators = one (codes "area.");
  allowed_columns = codes "name" ∷ codes "number" ∷ [];
}

codebase_join : TableJoin
unfolding join_on_json_field column
codebase_join = record no_join {
  table_name = codes "codebases";
  table_alias = codes "cb";
  on_clause =
      join_on_json_field (codes "system.codebase") (codes "cb.id") ++ same_space (codes "cb");
  prefix_activators = one (codes "codebase.");
  allowed_columns = one (codes "url");
}

work_item_type_join : TableJoin
work_item_type_join = record no_join {
  table_name = codes "work_item_types";
  table_alias = codes "wit";
  on_clause = codes "wit.id = work_items.type";
  prefix_activators =
      codes "wit." ∷ codes "workitemtype." ∷ codes "work_item_type." ∷ codes "type." ∷ [];
  allowed_columns = one (codes "name");
}

creator_join : TableJoin
unfolding join_on_json_field column
creator_join = record no_join {
  table_name = codes "users";
  table_alias = codes "creator";
  on_clause = join_on_json_field (codes "system.creator") (codes "creator.id");
  prefix_activators = codes "creator." ∷ codes "author." ∷ [];
  allowed_columns = one (codes "full_name");
}

space_join : TableJoin
unfolding column
space_join = record no_join {
  table_name = codes "spaces";
  table_alias = codes "space";
  on_clause = equal_columns (codes "space") (codes "id") work_items (codes "space_id");
  prefix_activators = one (codes "space.");
  allowed_columns = one (codes "name");
}

boardcolumns_join : TableJoin
unfolding column
boardcolumns_join = record no_join {
  table_name =
      codes
        "(SELECT id colid, board_id id, jsonb_agg(id::text) AS colids FROM work_item_board_columns GROUP BY 1,2)";
  table_alias = codes "boardcolumns";
  on_clause =
      column (codes "boardcolumns") (codes "colid")
      ++ codes "::text IN (\n\t\t\t\tSELECT jsonb_array_elements_text(jsonb_strip_nulls("
      ++ column work_items (codes "fields")
      ++ codes ")->'system.boardcolumns')\n\t\t\t)";
  prefix_activators = one (codes "board.");
  allowed_columns = one (codes "id");
}

typegroup_join : TableJoin
unfolding column
typegroup_join = record no_join {
  table_name = codes "work_item_type_groups";
  table_alias = codes "witg";
  on_clause =
      equal_columns (codes "witg") (codes "space_template_id") (codes "space")
        (codes "space_template_id");
  where_clause =
      equal_columns (codes "witg_members") (codes "type_group_id") (codes "witg") (codes "id")
      ++ codes " AND "
      ++ equal_columns work_items (codes "type") (codes "witg_members") (codes "work_item_type_id");
  allowed_columns = one (codes "name");
  activate_other_joins = one (codes "space");
}

label_join : TableJoin
unfolding column
label_join = record no_join {
  table_name = codes "labels";
  table_alias = codes "lbl";
  on_clause =
      equal_columns (codes "lbl") (codes "space_id") work_items (codes "space_id")
      ++ codes
          "\n\t\t                    AND lbl.id::text IN (\n\t\t                        SELECT\n\t\t\t\t\t\tjsonb_array_elements_text("
      ++ column work_items (codes "fields")
      ++ codes "->'system.labels')\n\t\t\t\t\tFROM labels)";
  prefix_activators = one (codes "label.");
  allowed_columns = one (codes "name");
}

trackerquery_join : TableJoin
unfolding join_on_json_field column
trackerquery_join = record no_join {
  table_name = codes "tracker_queries";
  table_alias = codes "tq";
  on_clause =
      join_on_json_field (codes "system_remote_tracker_id") (codes "tq.id")
      ++ same_space (codes "tq");
  prefix_activators = one (codes "trackerquery.");
  allowed_columns = one (codes "id");
}

typegroup_members_join : TableJoin
unfolding column
typegroup_members_join = record no_join {
  table_name = codes "work_item_type_group_members";
  table_alias = codes "witg_members";
  on_clause =
      equal_columns (codes "witg_members") (codes "type_group_id") (codes "witg") (codes "id");
  prefix_activators = codes "typegroup_members." ∷ codes "typegroup." ∷ [];
  allowed_columns = one (codes "work_item_type_id");
  activate_other_joins = one (codes "typegroup");
  delegate_to = (codes "typegroup.", some (codes "typegroup")) ∷ [];
}

parent_link_join : TableJoin
unfolding column
parent_link_join = record no_join {
  table_name = codes "work_item_links";
  table_alias = codes "parent_link";
  on_clause =
      column (codes "parent_link") (codes "link_type_id")
      ++ codes "= '25C326A7-6D03-4F5A-B23B-86A9EE4171E9' AND "
      ++ equal_columns (codes "parent_link") (codes "target_id") work_items (codes "id");
}

parent_join : TableJoin
unfolding column
parent_join = record no_join {
  table_name = work_items;
  table_alias = codes "parent";
  on_clause = equal_columns (codes "parent_link") (codes "source_id") (codes "parent") (codes "id");
  prefix_activators = one (codes "parent.");
  allowed_columns = codes "id" ∷ codes "number" ∷ [];
  activate_other_joins = one (codes "parent_link");
}

unfoldable pub default_table_joins : TableJoinMap
unfolding iteration_join area_join codebase_join work_item_type_join creator_join space_join
    boardcolumns_join typegroup_join label_join trackerquery_join typegroup_members_join
    parent_link_join parent_join
default_table_joins =
    (codes "iteration", iteration_join)
    ∷ (codes "area", area_join)
    ∷ (codes "codebase", codebase_join)
    ∷ (codes "work_item_type", work_item_type_join)
    ∷ (codes "creator", creator_join)
    ∷ (codes "space", space_join)
    ∷ (codes "boardcolumns", boardcolumns_join)
    ∷ (codes "typegroup", typegroup_join)
    ∷ (codes "label", label_join)
    ∷ (codes "trackerquery", trackerquery_join)
    ∷ (codes "typegroup_members", typegroup_members_join)
    ∷ (codes "parent_link", parent_link_join)
    ∷ (codes "parent", parent_join)
    ∷ []
