-- ===== src/Tests/Retrieved.antt =====
-- Retrieval over the repository of two indexed files.
use Prim.Native.String.{◌++◌ as append}
use synthy.Prelude.{◌≡◌, ◌≢◌, refl, [], ◌∷◌, map, String_discrete, false, ◌==◌}
use synthy.Db.Rows.{get_chunks_by_embedding_ids}
use synthy.Retrieval.{negsuc, title, write_all}
use synthy.Retrieval.Rpc.{RetrieveRequest, RpcReply, responded, retrieved_chunk, serve_retrieve}
use synthy.Retrieval.Cached.{direct_texts}
use synthy.Retrieval.Rendered.{serve_retrieve-direct}
use synthy.Retrieval.Silent.{serve_retrieve_keeps}
use synthy.Github.Client.Silent.{kept}
use synthy.Tests.Fixtures.{quiet, no_index, indexed}

-- A query without a usable limit.
abbrev ask : RetrieveRequest
ask = record { query = "who keeps"; top_k = negsuc 0 }

asked : (ask.query == "") ≡ false
unfolding String_discrete
asked = refl

serve_retrieve-direct_example :
    (serve_retrieve quiet ask indexed).0
    ≡ responded (record {
      formatted_context = append title (
          write_all
            (direct_texts indexed.db 1 (get_chunks_by_embedding_ids ("v1" ∷ []) indexed.db)));
      chunks = map retrieved_chunk (get_chunks_by_embedding_ids ("v1" ∷ []) indexed.db);
    })
serve_retrieve-direct_example =
    serve_retrieve-direct quiet ask (1 ∷ 2 ∷ []) ("v1" ∷ []) indexed (λ t. refl) asked refl refl

serve_retrieve_keeps_example :
    ((serve_retrieve no_index ask indexed).0 ≢ RpcReply.crashed)
    × (kept (serve_retrieve no_index ask indexed).1 ≡ kept indexed)
serve_retrieve_keeps_example = serve_retrieve_keeps no_index ask indexed
