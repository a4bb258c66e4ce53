-- ===== src/Http/Routing.antt =====
-- Which handler answers a request.
use Prim.Native.String.{◌++◌ as str_append, slice}
use ai_solo_coder_task_a.Http.{
  Handler, HttpLibraries, HttpServer, Request, Response, Route, Verb, add_route, another,
  error_response, first_route, fits, get, is_api, is_index, json_response, not_found, post,
  route_request, same_verb, serve_file,
}
use ai_solo_coder_task_a.Outcome.{Outcome, json_error, returned, thrown, ◌>>=◌}
use ai_solo_coder_task_a.Prelude.{
  ==_iff, All, Bool-cases, List, Option, Option-cases, String, [], ap, false, false≢true,
  if◌then◌else◌, inl, inr, none, refl, some, sym, true, ℕ, ◌++◌, ◌==◌, ◌||◌, ◌∙◌, ◌∷◌, ◌≡◌, ◌≢◌,
  ◌⊎◌,
}
use ai_solo_coder_task_a.Text.{same_text}

module _ (World : Type 0) (lib : HttpLibraries) where
  -- The pattern matches the target with these captures, and the method is that of the route.
  abbrev pub Fits : Request → Route World → List String → Type 0
  Fits req r matches =
      (lib.regex_match r.pattern req.target ≡ some matches) × (req.method ≡ r.method)

  abbrev pub FitsNot : Request → Route World → Type 0
  FitsNot req r = (lib.regex_match r.pattern req.target ≡ none) ⊎ (req.method ≢ r.method)

  -- The handler of the first route that fits.
  abbrev pub Routed :
      List (Route World) → Request → World → Outcome (Option (Response × World)) → Type 0
  Routed routes req world answer =
      (before after : List (Route World)) × (taken : Route World) × (matches : List String)
      × (routes ≡ before ++ taken ∷ after)
      × All (FitsNot req) before
      × Fits req taken matches
      × (answer ≡ taken.handler req matches world)

  -- The error 404 as JSON, or the exception of `dump`.
  abbrev pub api_not_found : World → Outcome (Option (Response × World))
  api_not_found world =
      elim (lib.dump
        (lib.values.object (("error", lib.values.text "API endpoint not found") ∷ []))) [
          | none ↦ thrown json_error
          | some shown ↦ returned (
              some (
                record {
                  status = 404;
                  content_type = "application/json";
                  allow_origin = some "*";
                  body = shown;
                },
                world,
              ))
        ]

  -- The contents of the file, or the error 404 as text.
  abbrev pub IsFile :
      String → HttpServer World → World → Outcome (Option (Response × World)) → Type 0
  IsFile path server world answer =
      (response : Response) × (answer ≡ returned (some (response, world)))
      × (response.allow_origin ≡ none)
      × elim (lib.read_file (str_append server.doc_root path)) [
        | none ↦ response.status ≡ 404
        | some content ↦ (response.status ≡ 200) × (response.body ≡ content)
      ]

  verb_number : Verb → ℕ
  verb_number get = 0
  verb_number post = 0
  verb_number (another n) = n

  same_verb-cases :
      (a b : Verb) → (same_verb a b ≡ true) × (a ≡ b) ⊎ (same_verb a b ≡ false) × (a ≢ b)
  unfolding same_verb verb_number
  same_verb-cases get get = inl (refl, refl)
  same_verb-cases post post = inl (refl, refl)
  same_verb-cases (another a) (another b) = elim (Bool-cases (a == b)) [
    | inl e ↦ inl (e, ap another ((==_iff a b).0 e))
    | inr e ↦ inr (e, λ h. false≢true (sym e ∙ (==_iff a b).1 (ap verb_number h)))
  ]
  same_verb-cases get post = inr (refl, λ h. cc)
  same_verb-cases get (another b) = inr (refl, λ h. cc)
  same_verb-cases post get = inr (refl, λ h. cc)
  same_verb-cases post (another b) = inr (refl, λ h. cc)
  same_verb-cases (another a) get = inr (refl, λ h. cc)
  same_verb-cases (another a) post = inr (refl, λ h. cc)

  fits-cases :
      (req : Request) (r : Route World)
      → ((matches : List String) × (fits World lib req r ≡ some matches) × Fits req r matches)
        ⊎ (fits World lib req r ≡ none) × FitsNot req r
  unfolding fits
  fits-cases req r = elim (Option-cases (lib.regex_match r.pattern req.target)) [
    | inl e ↦ inr (rw (fits, e) refl, inl e)
    | inr (matches, e) ↦ elim (same_verb-cases req.method r.method) [
      | inl (t, m) ↦ inl (matches, rw (fits, e, t) refl, (e, m))
      | inr (t, m) ↦ inr (rw (fits, e, t) refl, inr m)
    ]
  ]

  first_route-skips :
      (r : Route World) (routes : List (Route World)) (req : Request) (world : World)
      → fits World lib req r ≡ none
      → first_route World lib req (r ∷ routes) world ≡ first_route World lib req routes world
  unfolding first_route
  first_route-skips r routes req world e = rw (first_route, e)

  error_response_lem :
      (world : World)
      → (error_response World lib 404 "API endpoint not found" >>= λ response.
          returned (some (response, world)))
        ≡ api_not_found world
  unfolding error_response json_response
  error_response_lem world =
      elim (Option-cases
        (lib.dump (lib.values.object (("error", lib.values.text "API endpoint not found") ∷ [])))) [
          | inl e ↦ rw (error_response, json_response, api_not_found, e) refl
          | inr (shown, e) ↦ rw (error_response, json_response, api_not_found, e) refl
        ]

  abbrev pub RoutedOrNot :
      List (Route World) → Request → World → Outcome (Option (Response × World)) → Type 0
  RoutedOrNot routes req world answer =
      Routed routes req world answer ⊎ All (FitsNot req) routes × (answer ≡ api_not_found world)

  first_route-RoutedOrNot :
      (routes : List (Route World)) (req : Request) (world : World)
      → RoutedOrNot routes req world (first_route World lib req routes world)
  unfolding first_route
  first_route-RoutedOrNot [] req world = inr (tt, error_response_lem world)
  first_route-RoutedOrNot (r ∷ routes) req world = elim (fits-cases req r) [
    | inl (matches, e, f) ↦ inl ([], routes, r, matches, refl, tt, f, rw (first_route, e))
    | inr (e, f) ↦ elim (first_route-RoutedOrNot routes req world) [
      | inl (before, after, taken, matches, h, hs, g, k) ↦ inl (
        r ∷ before,
        after,
        taken,
        matches,
        ap (λ rs. r ∷ rs) h,
        (f, hs),
        g,
        first_route-skips r routes req world e ∙ k,
      )
      | inr (hs, k) ↦ inr ((f, hs), first_route-skips r routes req world e ∙ k)
    ]
  ]

  serve_file-IsFile :
      (path : String) (server : HttpServer World) (world : World)
      → IsFile path server world (returned (some (serve_file World lib path server, world)))
  unfolding serve_file not_found
  serve_file-IsFile path server world =
      elim (Option-cases (lib.read_file (str_append server.doc_root path))) [
        | inl e ↦ rw (serve_file, e) (_, refl, refl, refl)
        | inr (content, e) ↦ rw (serve_file, e) (_, refl, refl, (refl, refl))
      ]

  -- How a request is answered: index, API or file.
  abbrev pub Answered :
      HttpServer World → Request → World → Outcome (Option (Response × World)) → Type 0
  Answered server req world answer =
      if same_text req.target "/" || same_text req.target "/index.html"
      then IsFile "/index.html" server world answer
      else if same_text (slice req.target 0 5) "/api/"
      then RoutedOrNot server.routes req world answer
      else IsFile req.target server world answer

  -- A request for / or /index.html is answered with the file /index.html. Any other whose path begins
  -- with /api/ is answered by the handler of the first route whose pattern matches the path and whose
  -- method is that of the request, with the captures of the pattern, and by the error 404 as JSON, or the
  -- exception of its `dump`, where there is no such route. Any other request is answered with the file
  -- of its path below the document root and the status 200, or with 404 where there is none, whatever
  -- the routes are.
  pub route_request-Answered :
      (server : HttpServer World) (req : Request) (world : World)
      → Answered server req world (route_request World lib server req world)
  unfolding route_request is_index is_api
  route_request-Answered server req world =
      elim (Bool-cases (same_text req.target "/" || same_text req.target "/index.html")) [
        | inl e ↦ rw e (serve_file-IsFile "/index.html" server world)
        | inr e ↦ elim (Bool-cases (same_text (slice req.target 0 5) "/api/")) [
          | inl f ↦ rw (e, f) (first_route-RoutedOrNot server.routes req world)
          | inr f ↦ rw (e, f) (serve_file-IsFile req.target server world)
        ]
      ]

  -- A route that is added answers no request for a path that does not begin with /api/: the file of that
  -- name is served, or the path is not found.
  pub route_request-add_route :
      (pattern : String) (method : Verb) (handler : Handler World) (server : HttpServer World)
      (req : Request) (world : World)
      → is_api req.target ≡ false
      → is_index req.target ≡ false
      → route_request World lib (add_route World pattern method handler server) req world
        ≡ returned (some (serve_file World lib req.target server, world))
  unfolding route_request add_route serve_file
  route_request-add_route pattern method handler server req world e f = rw (e, f)
