-- ===== src/Github/Client/Listed.antt =====
-- The loops over the pages of an answer of the GitHub API.
use synthy.Prelude.{
  ℕ, zero, suc, ◌≡◌, refl, sym, ◌∙◌, ap, arith, true, List, [], ◌∷◌, ◌++◌, map, take, Option, none,
  some, append_assoc, append-nil, length, ltb, if◌then◌else◌,
}
use synthy.Exec.{Result, ok, err, pure, ◌>>=◌}
use synthy.World.{World, Env, ApiReply, returned_api, failed_api, ApiFailure, ApiRepository}
use mathlib.Core.Path.{ap₂}
use mathlib.Core.List.{map-append}
use synthy.Github.Client.{
  collect, call_page, to_api_error, Client, list_repositories, to_repo, installation_client,
}

module _ {A : Type 0} (ask : ℕ → ℕ → ApiReply (List A × ℕ)) where
  -- The pages that are answered from a tick and a page number on, and the failure that ends them.
  pub data Listing : ℕ → ℕ → List (List A) → Option ApiFailure → Type 0 where
    last :
        (t page : ℕ) (items : List A)
        → ask t page ≡ returned_api (items, 0)
        → Listing t page (items ∷ []) none
    next :
        (t page : ℕ) (items : List A) (n : ℕ) (pages : List (List A)) (end : Option ApiFailure)
        → ask t page ≡ returned_api (items, suc n)
        → Listing (suc t) (suc n) pages end
        → Listing t page (items ∷ pages) end
    broken : (t page : ℕ) (f : ApiFailure) → ask t page ≡ failed_api f → Listing t page [] (some f)

abbrev concat : {A : Type 0} → List (List A) → List A
concat [] = []
concat (xs ∷ xss) = xs ++ concat xss

-- What a loop over at most so many of the pages returns: the failure, where it comes to it.
abbrev pub within : {B : Type 0} → Option ApiFailure → List B → Result (List B)
within none all = ok all
within (some f) all = err (to_api_error f)

abbrev pub reached : {A : Type 0} → ℕ → List (List A) → Option ApiFailure → Option ApiFailure
reached fuel pages end = if ltb (length pages) fuel then end else none

module _ {A B : Type 0} (env : Env) (ask : ℕ → ℕ → ApiReply (List A × ℕ)) (convert : A → B) where
  reached_next :
      (fuel : ℕ) (items : List A) (pages : List (List A)) (end : Option ApiFailure)
      → reached (suc fuel) (items ∷ pages) end ≡ reached fuel pages end
  reached_next fuel items pages end = ground arith

  reached-none : (pages : List (List A)) (end : Option ApiFailure) → reached 0 pages end ≡ none
  reached-none pages end = ground arith

  reached_never : (fuel : ℕ) (pages : List (List A)) → reached fuel pages none ≡ none
  reached_never fuel pages = ground arith

  reached_start : (fuel : ℕ) (end : Option ApiFailure) → reached {A = A} (suc fuel) [] end ≡ end
  reached_start fuel end = ground arith

  take-nil : {C : Type 0} (fuel : ℕ) → take {A = C} fuel [] ≡ []
  take-nil zero = refl
  take-nil (suc fuel) = refl

  collect-Listing :
      (fuel : ℕ) {t page : ℕ} {pages : List (List A)} {end : Option ApiFailure}
      → Listing ask t page pages end
      → (out : List B) (w : World) → w.tick ≡ t
      → (collect env ask convert fuel page out w).0
        ≡ within (reached fuel pages end) (out ++ map convert (concat (take fuel pages)))
  unfolding collect call_page pure ◌>>=◌
  collect-Listing zero {pages} {end} l out w now =
      rw (append-nil out) (ap (λ end. within end out) (sym (reached-none pages end)))
  collect-Listing (suc fuel) (Listing.last t page items e) out w now =
      rw (now, e, take-nil fuel, append-nil items, reached_never (suc fuel) (items ∷ [])) refl
  collect-Listing (suc fuel) (Listing.next t page items n pages end e l) out w now =
      rw (now, e)
        (collect-Listing fuel l (out ++ map convert items) (record w { tick = suc t }) refl
          ∙ ap₂ within (sym (reached_next fuel items pages end)) (
              append_assoc out (map convert items) (map convert (concat (take fuel pages)))
              ∙ ap (λ xs. out ++ xs) (sym (map-append convert items (concat (take fuel pages))))))
  collect-Listing (suc fuel) (Listing.broken t page f e) out w now =
      rw (now, e) (ap (λ end. within end (out ++ [])) (sym (reached_start fuel (some f))))

-- If the App is set up and the installation has a client, listing its repositories returns the
-- repositories of the first 20 pages in order, whatever the number of pages, so all of them if there
-- are no more pages; and where the API fails before that, the API's error.
pub list_repositories-Listing :
    (env : Env) (client : Client) (id : ℕ) (w : World) {pages : List (List ApiRepository)}
    {end : Option ApiFailure}
    → client.ok ≡ true
    → (installation_client env client id w).0 ≡ ok tt
    → Listing
        (λ t page. env.api_repositories t id page)
        (installation_client env client id w).1.tick
        0
        pages
        end
    → (list_repositories env client id w).0
      ≡ within (reached 20 pages end) (map to_repo (concat (take 20 pages)))
unfolding list_repositories ◌>>=◌
list_repositories-Listing env client id w set known l =
    rw (set, known) (collect-Listing env _ to_repo 20 l [] _ refl)
