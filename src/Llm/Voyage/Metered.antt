-- ===== src/Llm/Voyage/Metered.antt =====
-- What one call of GenerateEmbeddings of internal/infra/llm/voyage/embeddingClient.go asks of Voyage AI,
-- and what it returns.
use Prim.Native.String.{◌++◌ as append}
use synthy.Prelude.{
  String, ℕ, ◌≡◌, refl, true, false, nat_eq, List, [], ◌∷◌, ◌++◌, ◌⊎◌, inl, inr, Option, none, some,
  if◌then◌else◌, Bool-cases, Option-cases,
}
use synthy.Exec.{
  Error, Result, ok, err, Reply, returned, failed, of_reply, wrapping, lift, raise, ◌>>=◌,
}
use synthy.Exec.Rules.{Reply-cases}
use synthy.World.{Embedding, InputType}
use synthy.Text.{is_blank}
use synthy.Llm.{Provider, Call, HttpResponse, waited, posted, empty_input, first_embedding}
use synthy.Llm.Voyage.{
  EmbeddingClient, Json, embed_request, http_request, read_response, generate_embeddings,
}

abbrev pub first_good : Reply (List Embedding) → Option Embedding
first_good (returned (e ∷ more)) = some e
first_good (returned []) = none
first_good (failed f) = none

-- The embedding that is wanted, where there is one, and else some error.
abbrev pub Agrees : Option Embedding → Result Embedding → Type 0
Agrees (some e) result = result ≡ ok e
Agrees none result = (f : Error) × (result ≡ err f)

module _ (json : Json) where
  -- The first embedding of a response with status 200.
  abbrev pub wanted : Reply HttpResponse → Option Embedding
  wanted (failed f) = none
  wanted (returned r) = if nat_eq r.status 200 then first_good (json.decode r.body) else none

module _ (out : Provider) (json : Json) (c : EmbeddingClient) (input : String) (kind : InputType)
    (calls : List Call) where
  abbrev tokens : ℕ
  tokens = out.estimate_tokens input

  abbrev pub paid : List Call
  paid = calls ++ waited tokens ∷ []

  abbrev pub Unsent : Type 0
  Unsent =
      ((e : Error) × (out.wait_fault calls tokens ≡ some e))
      ⊎ ((e : Error) × (json.marshal (embed_request out json c input kind) ≡ failed e))
      ⊎ ((e : Error) × (out.request_fault (append c.base_url "/embeddings") ≡ some e))

  -- Nothing is asked, only the limiter is asked, or the limiter grants the tokens and one request goes
  -- out.
  abbrev pub Metered : Result Embedding × List Call → Type 0
  Metered r =
      ((is_blank input ≡ true) × (r.0 ≡ err empty_input) × (r.1 ≡ calls))
      ⊎ ((is_blank input ≡ false) × Unsent × ((e : Error) × (r.0 ≡ err e)) × (r.1 ≡ paid))
      ⊎ ((is_blank input ≡ false)
          × (out.wait_fault calls tokens ≡ none)
          × ((body : String) × (json.marshal (embed_request out json c input kind) ≡ returned body)
              × (r.1 ≡ paid ++ posted (http_request out json c body) ∷ [])
              × Agrees (wanted json (out.respond paid (http_request out json c body))) r.0))

  decoded-Agrees :
      (d : Reply (List Embedding)) (after : List Call)
      → Agrees (first_good d) ((lift (of_reply d) >>= first_embedding) after).0
        × (((lift (of_reply d) >>= first_embedding) after).1 ≡ after)
  unfolding ◌>>=◌
  decoded-Agrees (returned (e ∷ more)) after = (refl, refl)
  decoded-Agrees (returned []) after = ((_, refl), refl)
  decoded-Agrees (failed f) after = ((f, refl), refl)

  read-Agrees :
      (r : HttpResponse) (after : List Call)
      → Agrees (wanted json (returned r)) (read_response out json r after).0
        × ((read_response out json r after).1 ≡ after)
  unfolding raise
  read-Agrees r after = elim (Bool-cases (nat_eq r.status 200)) [
    | inl good ↦ rw good (decoded-Agrees (json.decode r.body) after)
    | inr bad ↦ rw bad ((_, refl), refl)
  ]

  -- On a blank input GenerateEmbeddings fails and asks nobody. Otherwise it waits at the limiter for
  -- the tokens of the input, and either fails without a request, because the limiter refuses, the
  -- body cannot be marshalled or the URL is bad, or it sends one request: then it returns the first
  -- embedding of the response if its status is 200 and it has one, and fails if not.
  pub generate_embeddings-Metered : Metered (generate_embeddings out json c input kind calls)
  unfolding generate_embeddings wrapping raise lift ◌>>=◌
  generate_embeddings-Metered = elim (Bool-cases (is_blank input)) [
    | inl blank ↦ rw blank (inl (refl, refl, refl))
    | inr solid ↦ elim (Option-cases (out.wait_fault calls tokens)) [
      | inr (e, refused) ↦ rw (solid, refused) (inr (inl (refl, inl (e, refl), (_, refl), refl)))
      | inl granted ↦ elim (Reply-cases (json.marshal (embed_request out json c input kind))) [
        | inr (e, no_body) ↦
            rw (solid, granted, no_body) (inr (inl (refl, inr (inl (e, refl)), (_, refl), refl)))
        | inl (body, text) ↦
            elim (Option-cases (out.request_fault (append c.base_url "/embeddings"))) [
              | inr (e, bad) ↦
                  rw (solid, granted, text, bad)
                    (inr (inl (refl, inr (inr (e, refl)), (_, refl), refl)))
              | inl fine ↦ elim (Reply-cases (out.respond paid (http_request out json c body))) [
                | inr (e, no_answer) ↦
                    rw (solid, granted, text, fine, no_answer)
                      (inr (inr (refl, refl, (body, refl, refl, rw no_answer (e, refl)))))
                | inl (r, answer) ↦
                    let (agrees, same) =
                      read-Agrees r (paid ++ posted (http_request out json c body) ∷ []) in
                    rw (solid, granted, text, fine, answer)
                      (inr (inr (refl, refl, (body, refl, same, rw answer agrees))))
              ]
            ]
      ]
    ]
  ]
