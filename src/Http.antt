-- ===== src/Http.antt =====
-- backend/include/http_server.h and backend/src/http_server.cpp: the routes and the files. Handlers work on
-- the state `World` of the rest of the program; in the answer of one, `none` is to wait for ever. The
-- header `Server`, the same in every response, is left out.
pub mod Routing
use Prim.Native.String.{◌++◌ as str_append, len, slice}
use ai_solo_coder_task_a.Database.Statements.{text}
use ai_solo_coder_task_a.Json.{JsonValues}
use ai_solo_coder_task_a.Outcome.{Outcome, json_error, returned, thrown, ◌>>=◌}
use ai_solo_coder_task_a.Pipeline.Router.{route}
use ai_solo_coder_task_a.Prelude.{
  Bool, List, Option, String, [], false, if◌then◌else◌, none, some, true, ℕ, ◌++◌, ◌-◌, ◌==◌, ◌||◌,
  ◌∷◌,
}
use ai_solo_coder_task_a.Text.{same_text}

pub data Verb : Type 0 where
  get post : Verb
  another : ℕ → Verb

pub record Request : Type 0 where
  pub method : Verb
  pub target : String
  pub content : String

pub record Response : Type 0 where
  pub status : ℕ
  pub content_type : String
  pub allow_origin : Option String
  pub body : String

-- `std::regex_match`, with the text of the pattern; the contents of a file that can be opened; and the
-- JSON library, whose `dump` throws where a text is not UTF-8.
pub record HttpLibraries : Type 1 where
  pub Json : Type 0
  pub values : JsonValues Json
  pub dump : Json → Option String
  pub regex_match : String → String → Option (List String)
  pub read_file : String → Option String

unfoldable pub same_verb : Verb → Verb → Bool
same_verb get get = true
same_verb post post = true
same_verb (another a) (another b) = a == b
same_verb get post = false
same_verb get (another b) = false
same_verb post get = false
same_verb post (another b) = false
same_verb (another a) get = false
same_verb (another a) post = false

unfoldable pub ends_with : String → String → Bool
ends_with path suffix = same_text (slice path (len path - len suffix) (len path)) suffix

-- `path.rfind("/api/", 0) == 0`
unfoldable pub is_api : String → Bool
is_api path = same_text (slice path 0 5) "/api/"

-- `path == "/" || path == "/index.html"`
unfoldable pub is_index : String → Bool
is_index path = same_text path "/" || same_text path "/index.html"

module _ (World : Type 0) where
  abbrev pub Handler : Type 0
  Handler = Request → List String → World → Outcome (Option (Response × World))

  pub record Route : Type 0 where
    pub pattern : String
    pub method : Verb
    pub handler : Handler

  pub record HttpServer : Type 0 where
    pub doc_root : String
    pub routes : List Route

  unfoldable pub add_route : String → Verb → Handler → HttpServer → HttpServer
  add_route pattern method handler server = record server {
    routes = server.routes ++ record { pattern = pattern; method = method; handler = handler } ∷ [];
  }

  module _ (lib : HttpLibraries) where
    unfoldable pub not_found : String → Response
    not_found target = record {
      status = 404;
      content_type = "text/plain";
      allow_origin = none;
      body = text ("The resource '" ∷ target ∷ "' was not found." ∷ []);
    }

    content_type_of : String → String
    unfolding ends_with
    content_type_of path =
        if ends_with path ".html"
        then "text/html"
        else if ends_with path ".css"
        then "text/css"
        else if ends_with path ".js"
        then "application/javascript"
        else "application/octet-stream"

    unfoldable pub serve_file : String → HttpServer → Response
    unfolding not_found content_type_of
    serve_file path server = elim (lib.read_file (str_append server.doc_root path)) [
      | none ↦ not_found path
      | some content ↦ record {
        status = 200;
        content_type = content_type_of path;
        allow_origin = none;
        body = content;
      }
    ]

    unfoldable pub json_response : lib.Json → ℕ → Outcome Response
    json_response j status = elim (lib.dump j) [
      | none ↦ thrown json_error
      | some shown ↦ returned (record {
        status = status;
        content_type = "application/json";
        allow_origin = some "*";
        body = shown;
      })
    ]

    unfoldable pub error_response : ℕ → String → Outcome Response
    unfolding json_response
    error_response status message =
        json_response (lib.values.object (("error", lib.values.text message) ∷ [])) status

    -- The captures, where pattern and method fit.
    unfoldable pub fits : Request → Route → Option (List String)
    unfolding same_verb
    fits req route = elim (lib.regex_match route.pattern req.target) [
      | none ↦ none
      | some matches ↦ if same_verb req.method route.method then some matches else none
    ]

    -- The loop over the routes.
    unfoldable pub first_route : Request → List Route → World → Outcome (Option (Response × World))
    unfolding fits error_response
    first_route req [] world = error_response 404 "API endpoint not found" >>= λ response.
        returned (some (response, world))
    first_route req (route ∷ routes) world =
        let rest = first_route req routes world in
        elim (fits req route) [ none ↦ rest | some matches ↦ route.handler req matches world ]

    unfoldable pub route_request :
        HttpServer → Request → World → Outcome (Option (Response × World))
    unfolding is_index is_api serve_file first_route
    route_request server req world =
        let path = req.target in
        let routed = first_route req server.routes world in
        if is_index path
        then returned (some (serve_file "/index.html" server, world))
        else if is_api path
        then routed
        else returned (some (serve_file path server, world))
