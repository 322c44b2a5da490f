-- ===== src/Server/Agreement.antt =====
-- What the query server of server.go and the page of server_http.go say of one query.
use ekanite.Prelude.{
  ℕ, ◌≡◌, ◌≢◌, refl, sym, ap, ◌∙◌, subst, true, false, List, [], ◌∷◌, ◌++◌, append-nil, Option,
  some, Bytes, codes, equal, ◌==◌, length, if◌then◌else◌, arith, ◌⊎◌, inl, inr,
}
use ekanite.Strings.{is_crlf, trim}
use ekanite.Server.{Searcher, respond, write_results, handle_connection}
use ekanite.Server.Lines.{IsLine, handle_connection-answers}
use ekanite.Server.Http.{
  Page, Effect, write, error, index_page, reply_query, dont_cache, serve_http,
}

module _ (execute : Page → Bytes × Option Bytes) (itoa : ℕ → Bytes) (epoch now dur : Bytes) where
  -- A result set is what the template shows and what the connection gets, in one order; an error is
  -- an error of both.
  abbrev pub Agree : Bytes → List Effect → Option Bytes → Bytes ⊎ List Bytes → Type 0
  Agree query replies out (inl e) =
      (out ≡ some (e ++ codes "\n\n"))
      × (replies ≡ dont_cache epoch now ++ error (codes "Error executing query: " ++ e) 500 ∷ [])
  Agree query replies out (inr results) =
      (out ≡ some (write_results results ++ codes "\n\n"))
      × (replies
          ≡ dont_cache epoch now
            ++ write
                (execute (record {
                  title = codes "Ekanite query interface";
                  headline =
                      codes "Ekanite - Listing "
                      ++ itoa (length results)
                      ++ codes " results for \""
                      ++ query
                      ++ codes "\" ("
                      ++ dur
                      ++ codes ")";
                  return_results = true;
                  log_messages = results;
                })).0
              ∷ [])

  module _ (search : Searcher) where
    posted :
        (x : ℕ) (query : Bytes)
        → serve_http execute itoa epoch now dur search
            (record { method = codes "POST"; form = some (x ∷ query) })
          ≡ dont_cache epoch now ++ reply_query execute itoa epoch now dur search (x ∷ query)
    unfolding serve_http
    posted x query =
        let e : (length (x ∷ query) == 0) ≡ false = ground arith in
        ap
          (λ b.
            dont_cache epoch now
            ++ (if b
                then write (execute index_page).0 ∷ []
                else reply_query execute itoa epoch now dur search (x ∷ query)))
          e

    answered :
        (x : ℕ) (query : Bytes)
        → IsLine (x ∷ query)
        → trim is_crlf (x ∷ query) ≡ x ∷ query
        → handle_connection search (x ∷ query ++ b'\n' ∷ []) ≡ some (respond search (x ∷ query))
    unfolding equal
    answered x query line trimmed =
        handle_connection-answers search ((x ∷ query) ∷ []) [] (line, tt) tt
        ∙ ap (λ q. some (if equal q [] then [] else respond search q ++ [])) trimmed
        ∙ ap some (append-nil (respond search (x ∷ query)))

    agree :
        (x : ℕ) (query : Bytes) (o : Bytes ⊎ List Bytes)
        → search (x ∷ query) ≡ o
        → Agree
            (x ∷ query)
            (dont_cache epoch now ++ reply_query execute itoa epoch now dur search (x ∷ query))
            (some (respond search (x ∷ query)))
            o
    agree x query (inl e) h = (rw (h) refl, rw (h, reply_query) refl)
    agree x query (inr results) h = (rw (h) refl, rw (h, reply_query) refl)

    -- A query without a newline, of which nothing is trimmed and which is not empty, is answered on a
    -- connection and by the page with the same results in the same order, or with the same error.
    pub serve_http-handle_connection :
        (query : Bytes)
        → IsLine query
        → trim is_crlf query ≡ query
        → query ≢ []
        → Agree query
            (serve_http execute itoa epoch now dur search
              (record { method = codes "POST"; form = some query }))
            (handle_connection search (query ++ b'\n' ∷ []))
            (search query)
    serve_http-handle_connection [] line trimmed some_query = absurd (some_query refl)
    serve_http-handle_connection (x ∷ query) line trimmed some_query =
        subst
          (λ r.
            Agree (x ∷ query) r (handle_connection search (x ∷ query ++ b'\n' ∷ []))
              (search (x ∷ query)))
          (sym (posted x query))
          (subst
            (λ out.
              Agree (x ∷ query)
                (dont_cache epoch now ++ reply_query execute itoa epoch now dur search (x ∷ query))
                out (search (x ∷ query)))
            (sym (answered x query line trimmed)) (agree x query (search (x ∷ query)) refl))
