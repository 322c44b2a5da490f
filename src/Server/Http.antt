-- ===== src/Server/Http.antt =====
-- server_http.go: `ServeHTTP`. `execute` is `template.Execute`: what it writes, and the text of its
-- error. `itoa` prints a number, as `%d` does; the texts of times are given. Logging is left out.
use ekanite.Prelude.{
  ℕ, Bool, true, false, List, [], ◌∷◌, ◌++◌, Option, none, some, Bytes, codes, equal, ◌==◌, ◌||◌,
  length, if◌then◌else◌, inl, inr,
}
use ekanite.Server.{Searcher}

-- The data of the template.
pub record Page : Type 0 where
  pub title : Bytes
  pub headline : Bytes
  pub return_results : Bool
  pub log_messages : List Bytes

-- `form` is `none` where `ParseForm` fails, or else what `FormValue("query")` gives.
pub record Request : Type 0 where
  pub method : Bytes
  pub form : Option Bytes

-- What a handler does with its `ResponseWriter`; `error` is `http.Error`.
pub data Effect : Type 0 where
  set_header : (key value : Bytes) → Effect
  write : Bytes → Effect
  error : (text : Bytes) (code : ℕ) → Effect

abbrev pub index_page : Page
index_page = record {
  title = codes "Ekanite query interface";
  headline = codes "Ekanite query interface";
  return_results = false;
  log_messages = [];
}

-- `dontCache`, with the texts of the times.
abbrev pub dont_cache : (epoch now : Bytes) → List Effect
dont_cache epoch now =
    set_header (codes "Expires") epoch
    ∷ set_header (codes "Last-Modified") now
    ∷ set_header (codes "Cache-Control")
        (codes "private, no-store, max-age=0, no-cache, must-revalidate, post-check=0, pre-check=0")
    ∷ []

-- The data for a result set, with the text of the duration of the search.
abbrev pub results_page : (ℕ → Bytes) → (dur query : Bytes) → List Bytes → Page
results_page itoa dur query results = record {
  title = codes "Ekanite query interface";
  headline =
      codes "Ekanite - Listing "
      ++ itoa (length results)
      ++ codes " results for \""
      ++ query
      ++ codes "\" ("
      ++ dur
      ++ codes ")";
  return_results = true;
  log_messages = results;
}

module _ (execute : Page → Bytes × Option Bytes) where
  -- `serveIndex`
  abbrev pub serve_index : List Effect × Option Bytes
  serve_index = let (out, e) = execute index_page in (write out ∷ [], e)

  -- The GET and HEAD branch.
  abbrev pub reply_index : List Effect × Option Bytes → List Effect
  reply_index (out, none) = out
  reply_index (out, some e) = out ++ error (codes "Error executing template: " ++ e) 500 ∷ []

  module _ (itoa : ℕ → Bytes) (epoch now dur : Bytes) (search : Searcher) where
    abbrev pub reply_query : Bytes → List Effect
    reply_query query = elim (search query) [
      | inl e ↦ error (codes "Error executing query: " ++ e) 500 ∷ []
      | inr results ↦ write (execute (results_page itoa dur query results)).0 ∷ []
    ]

    -- The POST branch.
    abbrev pub reply_post : Option Bytes → List Effect
    reply_post none = error (codes "Error parsing form") 400 ∷ []
    reply_post (some query) = if length query == 0 then serve_index.0 else reply_query query

    -- `ServeHTTP`
    unfoldable pub serve_http : Request → List Effect
    unfolding equal
    serve_http r =
        dont_cache epoch now
        ++ (if equal r.method (codes "GET") || equal r.method (codes "HEAD")
            then reply_index serve_index
            else if equal r.method (codes "POST")
            then reply_post r.form
            else error (codes "Unsupported method") 405 ∷ [])
