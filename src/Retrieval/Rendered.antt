-- ===== src/Retrieval/Rendered.antt =====
-- The text of a retrieved context, against one that reads the edges of each chunk from the database.
use Prim.Native.String.{◌++◌ as append}
use synthy.Prelude.{
  String, ℕ, suc, ◌≡◌, refl, sym, ap, false, List, [], ◌∷◌, none, inl, inr, keep, map, Option-cases,
  contains, exists, ◌==◌,
}
use synthy.Exec.{ok, returned, pure, ◌>>=◌}
use synthy.Model.{CodeChunk}
use synthy.Db.{Db}
use synthy.Db.Rows.{embedding_among, get_chunks_by_embedding_ids}
use synthy.World.{
  World, Env, ticked, Embedding, query, generate_embeddings, query_input, query_similar_vectors,
  default_namespace,
}
use synthy.Retrieval.Rpc.{RetrieveRequest, responded, retrieved_chunk, serve_retrieve}
use synthy.Retrieval.Cached.{
  direct_texts, empty-Faithful, gather-Ready, texts-Ready, Faithful, calls_of, imports_of,
}
use synthy.Retrieval.{
  ℤ, no_edges, write_all, title, build_context, chunks_by_embedding_ids, retrieve, chosen_top_k,
}

no_embedding_among : (chunks : List CodeChunk) → keep (embedding_among []) chunks ≡ []
unfolding keep contains exists
no_embedding_among [] = refl
no_embedding_among (c ∷ chunks) = elim (Option-cases c.embedding_id) [
  | inl nothing ↦ rw nothing (no_embedding_among chunks)
  | inr (id, given) ↦ rw given (no_embedding_among chunks)
]

module _ (db : Db) (env : Env) (fine : (t : ℕ) → env.db_fault t ≡ none) where
  build_context-direct :
      (chunks : List CodeChunk) (w : World)
      → w.db ≡ db
      → (build_context env chunks w).0
        ≡ ok (record {
          formatted = append title (write_all (direct_texts db 1 chunks));
          chunks = chunks;
        })
  unfolding build_context pure ◌>>=◌
  build_context-direct chunks w start =
      let empty_calls : Faithful calls_of db no_edges.0 = empty-Faithful calls_of db in
      let empty_imports : Faithful imports_of db no_edges.1 = empty-Faithful imports_of db in
      let (after, done, ready, _, _) =
        gather-Ready db env fine chunks no_edges.0 no_edges.1 w start empty_calls empty_imports in
      rw (done, texts-Ready db env fine after 1 chunks ready) refl

  fetch :
      (ids : List String) (v : World)
      → v.db ≡ db
      → ((chunks_by_embedding_ids env ids v).0 ≡ ok (get_chunks_by_embedding_ids ids db))
        × ((chunks_by_embedding_ids env ids v).1.db ≡ db)
  unfolding chunks_by_embedding_ids query pure get_chunks_by_embedding_ids
  fetch [] v start = (ap ok (sym (no_embedding_among db.chunks)), start)
  fetch (id ∷ ids) v start = rw (fine v.tick, start) (refl, refl)

  retrieve_from :
      (text : String) (top_k : ℤ) (e : Embedding) (ids : List String) (w : World)
      → w.db ≡ db
      → env.generate_embeddings w.tick text query_input ≡ returned e
      → env.similar_vectors (suc w.tick) e (chosen_top_k top_k) default_namespace ≡ returned ids
      → (retrieve env text top_k w).0
        ≡ ok (record {
          formatted =
              append title (write_all (direct_texts db 1 (get_chunks_by_embedding_ids ids db)));
          chunks = get_chunks_by_embedding_ids ids db;
        })
  unfolding retrieve generate_embeddings query_similar_vectors ◌>>=◌
  retrieve_from text top_k e ids w start embedded found =
      rw (embedded, found)
        (let (fetched, kept) = fetch ids (ticked env (ticked env w)) start in
          rw fetched (build_context-direct (get_chunks_by_embedding_ids ids db) _ kept))

-- If the query is not empty, the database answers, the query has an embedding and the index finds
-- vectors, then the service responds with the chunks with these embedding ids, and with the text in
-- which each of them stands with the call edges of its symbol and the import edges of its file as
-- the database has them.
pub serve_retrieve-direct :
    (env : Env) (req : RetrieveRequest) (e : Embedding) (ids : List String) (w : World)
    → ((t : ℕ) → env.db_fault t ≡ none)
    → (req.query == "") ≡ false
    → env.generate_embeddings w.tick req.query query_input ≡ returned e
    → env.similar_vectors (suc w.tick) e (chosen_top_k req.top_k) default_namespace ≡ returned ids
    → (serve_retrieve env req w).0
      ≡ responded (record {
        formatted_context =
            append title (write_all (direct_texts w.db 1 (get_chunks_by_embedding_ids ids w.db)));
        chunks = map retrieved_chunk (get_chunks_by_embedding_ids ids w.db);
      })
unfolding serve_retrieve
serve_retrieve-direct env req e ids w fine asked embedded found =
    rw (asked, retrieve_from w.db env fine req.query req.top_k e ids w refl embedded found) refl
