-- ===== src/Engine/Search/Completeness.antt =====
-- What a search sends where nothing fails.
use mathlib.Core.List.{
  Mem, Perm, mem-cons_self, mem-cons_of_mem, reverse, reverse-cons, reverse_perm, perm_append_comm,
}
use mathlib.Core.List.Perm
use ekanite.Prelude.{
  ◌≡◌, refl, sym, ap, ◌∙◌, subst, List, [], ◌∷◌, ◌++◌, map, Option, some, Bytes, append-nil,
  append_assoc,
}
use ekanite.Index.{Index}
use ekanite.Engine.{Engine}
use ekanite.Engine.Search.{index_search, send_documents, search_indexes, search}

module _ {Db : Type 0} (ids : Index Db → List Bytes) (text : Index Db → Bytes → Bytes) where
  -- The texts of all that is found in indexes.
  unfoldable pub all_texts : List (Index Db) → List Bytes
  all_texts [] = []
  all_texts (i ∷ is) = map (text i) (ids i) ++ all_texts is

  all_texts-snoc :
      (is : List (Index Db)) (i : Index Db)
      → all_texts (is ++ i ∷ []) ≡ all_texts is ++ map (text i) (ids i)
  unfolding all_texts
  all_texts-snoc [] i = append-nil (map (text i) (ids i))
  all_texts-snoc (j ∷ is) i =
      ap (λ l. map (text j) (ids j) ++ l) (all_texts-snoc is i)
      ∙ sym (append_assoc (map (text j) (ids j)) (all_texts is) (map (text i) (ids i)))

  all_texts-reverse : (is : List (Index Db)) → Perm (all_texts (reverse is)) (all_texts is)
  unfolding all_texts
  all_texts-reverse [] = Perm.rfl
  all_texts-reverse (i ∷ is) =
      let eq = ap all_texts (reverse-cons i is) ∙ all_texts-snoc (reverse is) i in
      subst (λ l. Perm l (all_texts (i ∷ is))) (sym eq)
        (Perm.trans (perm_append_comm (all_texts (reverse is)) (map (text i) (ids i)))
          (Perm.append_left (map (text i) (ids i)) (all_texts-reverse is)))

  module _ (hits : Index Db → Option (List Bytes)) (sort_ids : List Bytes → List Bytes)
      (document : Index Db → Bytes → Option Bytes)
      (sorts : (l : List Bytes) → Perm (sort_ids l) l) where
    -- The search of the index finds its identifiers, and each has its text.
    abbrev pub Succeeds : Index Db → Type 0
    Succeeds i =
        (hits i ≡ some (ids i)) × ((id : Bytes) → Mem id (ids i) → document i id ≡ some (text i id))

    documents-all :
        (i : Index Db) (l : List Bytes)
        → ((id : Bytes) → Mem id l → document i id ≡ some (text i id))
        → send_documents hits sort_ids document i l ≡ map (text i) l
    unfolding send_documents
    documents-all i [] h = refl
    documents-all i (id ∷ l) h =
        rw (h id mem-cons_self, send_documents)
          (ap (◌∷◌ (text i id)) (documents-all i l (λ x m. h x (mem-cons_of_mem id m))))

    indexes-all :
        (is : List (Index Db))
        → ((i : Index Db) → Mem i is → Succeeds i)
        → Perm (search_indexes hits sort_ids document is) (all_texts is)
    unfolding search_indexes index_search all_texts
    indexes-all [] h = Perm.rfl
    indexes-all (i ∷ is) h =
        let (found, documents) = h i mem-cons_self in
        let p = sorts (ids i) in
        let eq = documents-all i (sort_ids (ids i)) (λ id m. documents id ((Perm.mem_iff p).0 m)) in
        rw (found, search_indexes, index_search, eq)
          (Perm.trans
            (Perm.append_right (search_indexes hits sort_ids document is) (Perm.map (text i) p))
            (Perm.append_left (map (text i) (ids i))
              (indexes-all is (λ j m. h j (mem-cons_of_mem i m)))))

    -- Where the search of every index and the reading of every document found succeeds, and sorting
    -- keeps the identifiers, a search sends the text of every identifier that was found in any of the
    -- engine's indexes, each as often as it was found, and nothing else.
    pub search-all :
        (e : Engine Db)
        → ((i : Index Db) → Mem i e.indexes → Succeeds i)
        → Perm (search hits sort_ids document e) (all_texts e.indexes)
    unfolding search
    search-all e h =
        Perm.trans
          (indexes-all (reverse e.indexes)
            (λ i m. h i ((Perm.mem_iff (reverse_perm e.indexes)).0 m)))
          (all_texts-reverse e.indexes)
