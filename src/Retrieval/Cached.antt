-- ===== src/Retrieval/Cached.antt =====
-- The edges that are cached, against those that are read from the database for each chunk.
use synthy.Prelude.{
  String, ℕ, suc, ◌≡◌, refl, sym, arith, true, false, ◌||◌, List, [], ◌∷◌, none, inl, inr, All,
  lookup, insert, lookup-insert, contains, exists, ◌==◌, ==_iff, Bool-cases, if◌then◌else◌,
}
use synthy.Exec.{Result, ok, pure, wrapping, ◌>>=◌}
use synthy.Model.{CodeChunk, CallEdge, ImportEdge}
use synthy.Db.{Db}
use synthy.Db.Rows.{get_call_edges_by_caller_symbol_id, get_import_edges_by_from_file_id}
use synthy.World.{World, Env, query}
use synthy.Retrieval.{Cache, Caches, edges_of, chunk_text, chunk_texts, look_up_once, gather}

-- the edges of an id, straight from the database; an empty id has none
abbrev pub edges_in : {E : Type 0} → (String → Db → List E) → Db → String → List E
edges_in f db id = if id == "" then [] else f id db

-- the texts of chunks, numbered from a number on, straight from the database
abbrev pub direct_texts : Db → ℕ → List CodeChunk → List String
direct_texts db i [] = []
direct_texts db i (c ∷ chunks) =
    chunk_text i c (edges_in get_call_edges_by_caller_symbol_id db c.symbol_id)
      (edges_in get_import_edges_by_from_file_id db c.file_id)
    ∷ direct_texts db (suc i) chunks

abbrev pub Known : {E : Type 0} → Cache E → String → Type 0
Known cache id = ((id == "") || contains id cache.seen) ≡ true

module _ {E : Type 0} (f : String → Db → List E) (db : Db) where
  -- What is known was read from the database.
  pub record Faithful (cache : Cache E) : Type 0 where
    pub same : (id : String) → Known cache id → edges_of cache id ≡ edges_in f db id

  pub empty-Faithful : Faithful (record { seen = []; edges = [] })
  unfolding contains exists edges_of lookup
  empty-Faithful = record {
    same = λ id known. let blank : (id == "") ≡ true = ground (arith, known) in rw blank refl;
  }

  edges_of-insert :
      (cache : Cache E) (id other : String) (found : List E)
      → edges_of (record { seen = id ∷ cache.seen; edges = insert id found cache.edges }) other
        ≡ (if id == other then found else edges_of cache other)
  unfolding edges_of
  edges_of-insert cache id other found = ground (arith, lookup-insert id other found cache.edges)

  abbrev add : Cache E → String → Cache E
  add cache id = record { seen = id ∷ cache.seen; edges = insert id (f id db) cache.edges }

  only_old :
      (cache : Cache E) (id other : String)
      → (id == other) ≡ false
      → Known (add cache id) other
      → Known cache other
  unfolding contains exists
  only_old cache id other miss known =
      let swapped : (other == id) ≡ false = ground (arith, miss) in rw swapped at known

  add-Faithful :
      (cache : Cache E) (id : String)
      → (id == "") ≡ false
      → Faithful cache
      → Faithful (add cache id)
  unfolding contains exists
  add-Faithful cache id full h = record {
    same = λ other known. elim (Bool-cases (id == other)) [
      | inl hit ↦
          rw (edges_of-insert cache id other (f id db), hit)
            (rw (sym ((==_iff id other).0 hit), full) refl)
      | inr miss ↦
          rw (edges_of-insert cache id other (f id db), miss)
            (h.same other (only_old cache id other miss known))
    ];
  }

  add-Known : (cache : Cache E) (id other : String) → Known cache other → Known (add cache id) other
  unfolding contains exists
  add-Known cache id other known = ground arith

  add-Known_self : (cache : Cache E) (id : String) → Known (add cache id) id
  unfolding contains exists
  add-Known_self cache id = ground arith

  -- A lookup returns a cache in which the id is known too, and leaves the database as it was.
  abbrev Looks : String → Cache E → Result (Cache E) × World → Type 0
  Looks id cache out =
      (after : Cache E) × (out.0 ≡ ok after)
      × (out.1.db ≡ db)
      × Faithful after
      × Known after id
      × ((other : String) → Known cache other → Known after other)

  module _ (env : Env) (fine : (t : ℕ) → env.db_fault t ≡ none) where
    look_up_once-Looks :
        (context id : String) (cache : Cache E) (w : World)
        → w.db ≡ db
        → Faithful cache
        → Looks id cache (look_up_once env context f id cache w)
    unfolding look_up_once query wrapping pure ◌>>=◌
    look_up_once-Looks context id cache w start h = elim (Bool-cases (id == "")) [
      | inl empty ↦ rw empty (cache, refl, start, h, refl, λ other known. known)
      | inr full ↦ elim (Bool-cases (contains id cache.seen)) [
        | inl seen ↦ rw (full, seen) (cache, refl, start, h, seen, λ other known. known)
        | inr new ↦
            rw (full, new, fine w.tick, start)
              (
                add cache id,
                refl,
                refl,
                add-Faithful cache id full h,
                rw full at (add-Known_self cache id),
                add-Known cache id,
              )
      ]
    ]

abbrev pub calls_of : String → Db → List CallEdge
calls_of = get_call_edges_by_caller_symbol_id

abbrev pub imports_of : String → Db → List ImportEdge
imports_of = get_import_edges_by_from_file_id

-- Both caches hold what was read, also for each of the chunks.
abbrev pub Ready : Db → List CodeChunk → Caches → Type 0
Ready db chunks (calls, imports) =
    Faithful calls_of db calls
    × Faithful imports_of db imports
    × All (λ c. Known calls c.symbol_id × Known imports c.file_id) chunks

module _ (db : Db) (env : Env) (fine : (t : ℕ) → env.db_fault t ≡ none) where
  pub gather-Ready :
      (chunks : List CodeChunk) (calls : Cache CallEdge) (imports : Cache ImportEdge) (w : World)
      → w.db ≡ db
      → Faithful calls_of db calls
      → Faithful imports_of db imports
      → (after : Caches) × ((gather env chunks (calls, imports) w).0 ≡ ok after)
        × Ready db chunks after
        × ((id : String) → Known calls id → Known after.0 id)
        × ((id : String) → Known imports id → Known after.1 id)
  unfolding gather pure ◌>>=◌
  gather-Ready [] calls imports w start h g =
      ((calls, imports), refl, (h, g, tt), λ id known. known, λ id known. known)
  gather-Ready (c ∷ chunks) calls imports w start h g =
      let first = look_up_once env "fetch call edges for symbol" calls_of c.symbol_id calls w in
      let second =
        look_up_once env "fetch import edges for file" imports_of c.file_id imports first.1 in
      let (calls_after, called, start_imports, h_after, symbol_known, more_calls) =
        look_up_once-Looks calls_of db env fine "fetch call edges for symbol" c.symbol_id calls w
          start h in
      let (imports_after, imported, start_rest, g_after, file_known, more_imports) =
        look_up_once-Looks imports_of db env fine "fetch import edges for file" c.file_id imports
          first.1 start_imports g in
      let (after, done, (faithful_calls, faithful_imports, rest), calls_stay, imports_stay) =
        gather-Ready chunks calls_after imports_after second.1 start_rest h_after g_after in
      rw (called, imported)
        (
          after,
          done,
          (
            faithful_calls,
            faithful_imports,
            ((calls_stay c.symbol_id symbol_known, imports_stay c.file_id file_known), rest),
          ),
          λ id known. calls_stay id (more_calls id known),
          λ id known. imports_stay id (more_imports id known),
        )

  pub texts-Ready :
      (caches : Caches) (i : ℕ) (chunks : List CodeChunk)
      → Ready db chunks caches
      → chunk_texts caches i chunks ≡ direct_texts db i chunks
  unfolding chunk_texts
  texts-Ready caches i [] ready = refl
  texts-Ready caches i (c ∷ chunks) (h, g, ((known, known_file), rest)) =
      rw
        (
          h.same c.symbol_id known,
          g.same c.file_id known_file,
          texts-Ready caches (suc i) chunks (h, g, rest),
        )
        refl
