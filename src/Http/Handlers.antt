-- ===== src/Http/Handlers.antt =====
-- The handlers of http_server.rs and what they answer. The template of askama, the writers of JSON and
-- YAML, the clock and the version of the build are the parameter `Web`; the router of axum hands a
-- path that is registered to its handler.
use metalbond_rs.Http.Collections.{BTreeMap}
use metalbond_rs.Http.{ShowAddr, get_route_data}
use metalbond_rs.Command.Readers.{Text, codes, same_text}
use metalbond_rs.RouteTable.{RouteTable}
use metalbond_rs.Types.{Vni, Ipnet, Destination, NextHop}
use metalbond_rs.Common.{ℕ, Option, none, some, List, ◌++◌, Result, ok, err, if◌then◌else◌}

pub record JsonRoutes (Net : Type 0) : Type 0 where
  pub date : Text
  pub vnet : BTreeMap Vni (BTreeMap (Destination Net) (List NextHop))
  pub metalbond_version : Text

pub record IndexTemplate (Net : Type 0) : Type 0 where
  pub date : Text
  pub vnet : BTreeMap Vni (BTreeMap (Destination Net) (List NextHop))
  pub metalbond_version : Text

pub record Response : Type 0 where
  pub status : ℕ
  pub content_type : Text
  pub body : Text

-- `Error` is the type of anyhow, with its `Display`; `html` and `json` are the responses of axum.
pub record Web (Net Error : Type 0) : Type 0 where
  pub now_string : Text
  pub version : Text
  pub render : IndexTemplate Net → Result Error Text
  pub yaml_to_string : JsonRoutes Net → Result Error Text
  pub html : Text → Response
  pub json : JsonRoutes Net → Response
  pub show_error : Error → Text

-- The type of a response that is a tuple of a status and a text.
abbrev plain : Text
plain = codes "text/plain; charset=utf-8"

abbrev internal_server_error : ℕ
internal_server_error = 500

module _ {Net Error : Type 0} (web : Web Net Error) where
  -- `AppError::into_response`
  unfoldable pub error_response : Error → Response
  error_response e = record {
    status = internal_server_error;
    content_type = plain;
    body = codes "Internal server error: " ++ web.show_error e;
  }

  -- `Yaml::into_response`
  unfoldable pub yaml_response : JsonRoutes Net → Response
  yaml_response routes = elim (web.yaml_to_string routes) [
    | ok yaml ↦ record { status = 200; content_type = codes "text/yaml"; body = yaml }
    | err e ↦ record {
      status = internal_server_error;
      content_type = plain;
      body = codes "Failed to serialize YAML: " ++ web.show_error e;
    }
  ]

  -- What axum makes of the result of a handler.
  abbrev into_response : {A : Type 0} → (A → Response) → Result Error A → Response
  into_response f (ok a) = f a
  into_response f (err e) = error_response e

  module _ ⦃i : Ipnet Net⦄ ⦃text : ShowAddr⦄ (t : RouteTable Net) where
    unfoldable pub json_routes : JsonRoutes Net
    unfolding get_route_data
    json_routes = record {
      date = web.now_string;
      vnet = get_route_data t;
      metalbond_version = web.version;
    }

    unfoldable pub main_handler : Result Error Text
    unfolding json_routes
    main_handler = web.render (record {
      date = json_routes.date;
      vnet = json_routes.vnet;
      metalbond_version = json_routes.metalbond_version;
    })

    unfoldable pub json_handler : Result Error (JsonRoutes Net)
    unfolding json_routes
    json_handler = ok json_routes

    unfoldable pub yaml_handler : Result Error (JsonRoutes Net)
    unfolding json_routes
    yaml_handler = ok json_routes

    -- The router of `run_http_server`.
    unfoldable pub answer : Text → Option Response
    unfolding main_handler json_handler yaml_handler yaml_response error_response
    answer path =
        if same_text path (codes "/")
        then some (into_response web.html main_handler)
        else if same_text path (codes "/routes.json")
        then some (into_response web.json json_handler)
        else if same_text path (codes "/routes.yaml")
        then some (into_response yaml_response yaml_handler)
        else none
