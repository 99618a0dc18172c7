-- ===== src/Tests/Router.antt =====
-- A router with one rule, which is kept in a file.
use rdws_us.Prelude.{ℕ, String, true, none, some, ◌≡◌, ◌≢◌, ◌⊎◌, refl, All}
use rdws_us.Prelude.Int.{pos}
use rdws_us.Prelude.Table.{Table, text_key, lookup}
use rdws_us.Json.{obj, end}
use rdws_us.Router.{
  EventRouter, resolve, add_rule, make_router, persist_if_configured, load_from_file,
}
use rdws_us.Router.Codec.{RoutingRule}
use rdws_us.Router.Path.{match_path_pattern, split_path, Fits, captured, match_path_pattern_cases}
use rdws_us.Router.Resolve.{Answers, resolve-Answers}
use rdws_us.Router.Rules.{Edit, Edited}
use rdws_us.Router.Persistence.{InRange, make_router-persist}
use rdws_us.Tests.Data.{naturals}

abbrev rule : RoutingRule
rule = record {
  id = "";
  name = "to v2";
  input_capability = "echo";
  output_capability = "echo.v2";
  condition = none;
  fallback_capability = none;
  priority = pos 10;
  enabled = true;
  created_at = "";
  updated_at = "";
  http_method = some "GET";
  http_path = some "/echo/{id}";
}

abbrev bare : EventRouter ℕ
bare = make_router "rules.json" none

abbrev edited : EventRouter ℕ
edited = (add_rule true "r1" "now" rule bare).1

edited-Edited : Edited edited
edited-Edited = Edited.edit (Edited.made "rules.json" none) (Edit.adds true "r1" "now" rule refl)

resolve-Answers_example :
    Answers naturals "echo" (obj end) edited.rules (resolve naturals "echo" (obj end) edited)
resolve-Answers_example = resolve-Answers naturals "echo" (obj end) edited-Edited

path_set : edited.persist_path ≢ ""
unfolding add_rule persist_if_configured make_router load_from_file
path_set e = cc

in_range : All InRange edited.rules
unfolding add_rule persist_if_configured make_router load_from_file
in_range = (refl, tt)

make_router-persist_example :
    (make_router edited.persist_path (persist_if_configured true edited).file).rules ≡ edited.rules
make_router-persist_example = make_router-persist edited-Edited path_set in_range

match_path_pattern_cases_example :
    ((match_path_pattern "/echo/{id}" "/echo/7" ≡ none)
      × ¬ Fits (split_path "/echo/{id}") (split_path "/echo/7"))
    ⊎ ((ps : Table String String) × (match_path_pattern "/echo/{id}" "/echo/7" ≡ some ps)
        × Fits (split_path "/echo/{id}") (split_path "/echo/7")
        × ((name : String)
            → lookup name ps ≡ captured name (split_path "/echo/{id}") (split_path "/echo/7") none))
match_path_pattern_cases_example = match_path_pattern_cases "/echo/{id}" "/echo/7"
