-- ===== src/Github/Api/Steps.antt =====
-- What every request to internal/interface/api/githubController.go keeps, if the writes of the
-- caller's organizations do.
use synthy.Prelude.{
  String, ◌≡◌, refl, ◌⊎◌, inl, inr, Option, none, some, ◌==◌, nat_eq, not, ◌&&◌, Bool-cases,
}
use synthy.Exec.{Exec, Result, ok, err, panic, Reply, returned, failed}
use synthy.World.{World, Env}
use synthy.World.Safe.{Safe}
use synthy.Text.{trim_space}
use synthy.Github.Client.{Client}
use synthy.Github.Client.Silent.{kept}
use synthy.Github.Api.{
  Caller, Request, ConnectRequest, HttpReply, Handler, respond, authorised, bound, connect_checked,
  branches_checked, serve, handle_connection, handle_install_url, handle_connect, handle_disconnect,
  handle_repositories, handle_indexed_repositories, handle_branches, handle_index,
}
use synthy.Github.Service.Steps.{
  Allows, connection-Safe, repositories-Safe, branches-Safe, indexed-Safe, index-Safe, connect-Safe,
}

module _ (P : World → Type 0) where
  respond-holds :
      {A : Type 0} (f : A → HttpReply) (out : Result A × World) → P out.1 → P (respond f out).1
  respond-holds f (ok a, v) h = h
  respond-holds f (err e, v) h = h
  respond-holds f (panic, v) h = h

  authorised-holds :
      (r : Reply String) (f : String → Handler) (w : World)
      → ((o : String) → r ≡ returned o → P (f o w).1)
      → P w
      → P (authorised r f w).1
  authorised-holds (returned o) f w each h = each o refl
  authorised-holds (failed e) f w each h = h

  module _ (only : (v w : World) → kept v ≡ kept w → P w → P v) (env : Env) (client : Client)
      (caller : Caller) (w : World) (h : P w)
      (allows : (o : String)
        → (caller.member ≡ returned o) ⊎ (caller.manager ≡ returned o)
        → Allows env client P o) where
    replied : {A : Type 0} (f : A → HttpReply) (m : Exec World A) → Safe P m → P (respond f (m w)).1
    replied f m safe = respond-holds f (m w) (safe.holds w h).1

    connect_checked-holds :
        (o : String) (req : ConnectRequest)
        → caller.manager ≡ returned o
        → P (connect_checked env client caller o req w).1
    connect_checked-holds o req named = elim (Bool-cases (nat_eq req.installation_id 0)) [
      | inl zero_id ↦ rw zero_id h
      | inr some_id ↦ elim (Bool-cases (not (req.state == "") && not (req.state == o))) [
        | inl foreign ↦ rw (some_id, foreign) h
        | inr own ↦
            rw (some_id, own)
              (replied _ _
                (connect-Safe env client P only o (allows o (inr named)) req.installation_id))
      ]
    ]

    bound-holds :
        (o : String) (req : Option ConnectRequest)
        → caller.manager ≡ returned o
        → P (bound env client caller o req w).1
    bound-holds o none named = h
    bound-holds o (some req) named = connect_checked-holds o req named

    branches_checked-holds : (o repo : String) → P (branches_checked env client caller o repo w).1
    branches_checked-holds o repo = elim (Bool-cases (repo == "")) [
      | inl empty ↦ rw empty h
      | inr given ↦ rw given (replied _ _ (branches-Safe env client P only o repo))
    ]

    pub serve-holds : (request : Request) → P (serve env client caller request w).1
    unfolding serve handle_connection handle_install_url handle_connect handle_disconnect
        handle_repositories handle_indexed_repositories handle_branches handle_index
    serve-holds Request.get_connection =
        authorised-holds caller.member _ w
          (λ o named. replied _ _ (connection-Safe env client P only o)) h
    serve-holds Request.get_install_url =
        authorised-holds caller.manager _ w (λ o named. respond-holds _ _ h) h
    serve-holds (Request.post_connect req) =
        authorised-holds caller.manager _ w (λ o named. bound-holds o req named) h
    serve-holds Request.delete_connection =
        authorised-holds caller.manager _ w
          (λ o named. replied _ _ ((allows o (inr named)).deletes)) h
    serve-holds Request.get_repositories =
        authorised-holds caller.member _ w
          (λ o named. replied _ _ (repositories-Safe env client P only o)) h
    serve-holds Request.get_indexed =
        authorised-holds caller.member _ w
          (λ o named. replied _ _ (indexed-Safe env client P only o)) h
    serve-holds (Request.get_branches param) =
        authorised-holds caller.member _ w (λ o named. branches_checked-holds o (trim_space param))
          h
    serve-holds Request.post_index =
        authorised-holds caller.manager _ w
          (λ o named. replied _ _ (index-Safe env client P only o (allows o (inr named)))) h
