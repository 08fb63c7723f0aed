-- ===== src/Startup/Migrated.antt =====
-- What NewConnection of internal/infra/psql/newConn.go asks of the database.
use synthy.Text.{byte_length, byte_slice}
use Prim.Native.String.{◌++◌ as append}
use synthy.Prelude.{
  String, ◌≡◌, refl, Bool, true, false, leb, List, [], ◌∷◌, ◌++◌, append_assoc, ◌⊎◌, inl, inr,
  Option, none, some, Bool-cases, Option-cases,
}
use synthy.Exec.{Error, Result, ok, err, panic, pure, raise, crash, ◌>>=◌}
use synthy.Startup.{Request, migrated, connected, Servers, up_checked, new_connection}

module _ (servers : Servers) (asked : List Request) where
  abbrev pub dsn_of : String → String
  dsn_of s = append "pgx5://" (byte_slice s (byte_length "postgres://") (byte_length s))

  -- The migrations are done, or there were none to do.
  abbrev pub UpToDate : Option (Error × Bool) → Type 0
  UpToDate none = Unit
  UpToDate (some (e, no_change)) = no_change ≡ true

  abbrev pub Connects : String → Result (Unit {0}) × List Request → Type 0
  Connects s r =
      ((r.0 ≡ panic) × (leb (byte_length "postgres://") (byte_length s) ≡ false) × (r.1 ≡ asked))
      ⊎ ((e : Error) × (r.0 ≡ err e) × ((r.1 ≡ asked) ⊎ (r.1 ≡ asked ++ migrated (dsn_of s) ∷ [])))
      ⊎ ((r.0 ≡ ok tt)
          × (leb (byte_length "postgres://") (byte_length s) ≡ true)
          × UpToDate (servers.up_fault (dsn_of s))
          × (servers.version_fault (dsn_of s) ≡ none)
          × (r.1 ≡ asked ++ migrated (dsn_of s) ∷ connected s ∷ []))

  up_cases :
      (up : Option (Error × Bool))
      → (UpToDate up × (up_checked up ≡ pure tt)) ⊎ ((e : Error) × (up_checked up ≡ raise e))
  up_cases none = inl (tt, refl)
  up_cases (some (e, true)) = inl (refl, refl)
  up_cases (some (e, false)) = inr (e, refl)

  -- Opening the database panics if POSTGRES_CONNECTION_STRING has fewer than 11 bytes. If not, it
  -- either fails, without a connection, or it migrates the database at the address with the scheme
  -- pgx5, and connects if that has succeeded, or was not needed, and the version could be read.
  pub new_connection-Connects :
      Connects (servers.getenv "POSTGRES_CONNECTION_STRING") (new_connection servers asked)
  unfolding new_connection pure raise crash ◌>>=◌
  new_connection-Connects =
      let s = servers.getenv "POSTGRES_CONNECTION_STRING" in
      elim (Option-cases servers.source_fault) [
        | inr (e, no_source) ↦ rw no_source (inr (inl (e, refl, inl refl)))
        | inl source ↦ elim (Bool-cases (leb (byte_length "postgres://") (byte_length s))) [
          | inr short ↦ rw (source, short) (inl (refl, refl, refl))
          | inl long ↦ elim (Option-cases (servers.instance_fault (dsn_of s))) [
            | inr (e, no_instance) ↦ rw (source, long, no_instance) (inr (inl (e, refl, inl refl)))
            | inl instance_made ↦ elim (up_cases (servers.up_fault (dsn_of s))) [
              | inr (e, not_up) ↦
                  rw (source, long, instance_made, not_up) (inr (inl (e, refl, inr refl)))
              | inl (current, up) ↦ elim (Option-cases (servers.version_fault (dsn_of s))) [
                | inr (e, unread) ↦
                    rw (source, long, instance_made, up, unread) (inr (inl (e, refl, inr refl)))
                | inl read ↦ elim (Option-cases (servers.pool_fault s)) [
                  | inr (e, no_pool) ↦
                      rw (source, long, instance_made, up, read, no_pool)
                        (inr (inl (e, refl, inr refl)))
                  | inl pool ↦
                      rw (source, long, instance_made, up, read, pool)
                        (inr (
                          inr (
                            refl,
                            refl,
                            current,
                            refl,
                            append_assoc asked (migrated (dsn_of s) ∷ []) (connected s ∷ []),
                          )))
                ]
              ]
            ]
          ]
        ]
      ]
