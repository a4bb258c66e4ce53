-- ===== src/Examples/Http.antt =====
-- Runs of the HTTP server. The state of the handlers is a number of calls.
use ai_solo_coder_task_a.Examples.AlertWs.{silent_values}
use ai_solo_coder_task_a.Http.{
  Handler, HttpLibraries, HttpServer, Request, error_response, first_route, fits, get,
  json_response, post, route_request, serve_file,
}
use ai_solo_coder_task_a.Http.Routing.{Answered, route_request-Answered}
use ai_solo_coder_task_a.Outcome.{returned}
use ai_solo_coder_task_a.Prelude.{
  List, String, [], if◌then◌else◌, none, refl, some, ℕ, ◌+◌, ◌∷◌, ◌≡◌,
}
use ai_solo_coder_task_a.Text.{same_text}

-- A pattern fits the path that it spells; one file outside the root can be read.
abbrev two_files : HttpLibraries
two_files = record {
  Json = List ℕ;
  values = silent_values;
  dump = λ j. some "{}";
  regex_match = λ pattern path. if same_text pattern path then some [] else none;
  read_file = λ name. if same_text name "../frontend/../secret.js" then some "key" else none;
}

abbrev answer_of : String → Handler ℕ
answer_of body req matches calls = returned (
    some (
      record { status = 200; content_type = "text/plain"; allow_origin = none; body = body },
      calls + 1,
    ))

abbrev some_server : HttpServer ℕ
some_server = record {
  doc_root = "../frontend";
  routes =
      record { pattern = "/api/alerts"; method = post; handler = answer_of "posted" }
      ∷ record { pattern = "/api/alerts"; method = get; handler = answer_of "first" }
      ∷ record { pattern = "/api/alerts"; method = get; handler = answer_of "second" }
      ∷ [];
}

abbrev get_of : String → Request
get_of target = record { method = get; target = target; content = "" }

route_request-Answered_example :
    Answered ℕ two_files some_server
      (get_of "/api/alerts")
      0
      (route_request ℕ two_files some_server (get_of "/api/alerts") 0)
route_request-Answered_example =
    route_request-Answered ℕ two_files some_server (get_of "/api/alerts") 0

route_request_runs :
    (route_request ℕ two_files some_server (get_of "/api/alerts") 0
      ≡ answer_of "first" (get_of "/api/alerts") [] 0)
    × (route_request ℕ two_files some_server (get_of "/api/none") 0
        ≡ returned (
            some (
              record {
                status = 404;
                content_type = "application/json";
                allow_origin = some "*";
                body = "{}";
              },
              0,
            )))
    × (route_request ℕ two_files some_server (get_of "/../secret.js") 0
        ≡ returned (
            some (
              record {
                status = 200;
                content_type = "application/javascript";
                allow_origin = none;
                body = "key";
              },
              0,
            )))
unfolding route_request first_route fits serve_file error_response json_response same_text
route_request_runs = (refl, refl, refl)
