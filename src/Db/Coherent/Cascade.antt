-- ===== src/Db/Coherent/Cascade.antt =====
-- ON DELETE CASCADE, and the chunks' symbols.
use synthy.Prelude.{
  String, ◌≡◌, sym, ap, ◌∙◌, inl, inr, arith, Bool, true, false, not, List, map, Member,
  Member-keep, Member-map, Member-map_on, contains-map, Member-of-contains, keep, Bool-cases,
}
use synthy.Model.{File, Symbol, CodeChunk}
use synthy.Db.{Db, delete_cascade, gone_file, gone_symbol, gone_chunk, orphan}
use synthy.Db.Coherent.{symbol_key, Owns, IsCoherent}

module _ (repos : List String) (p : File → Bool) (db : Db) (coherent : IsCoherent db) where
  lost_files : List String
  lost_files = map (λ f. f.id) (keep (gone_file repos p) db.files)

  lost_symbols : List String
  unfolding lost_files
  lost_symbols = map symbol_key (keep (gone_symbol repos lost_files) db.symbols)

  -- A symbol that a chunk which stays points at stays too.
  stays :
      (c : CodeChunk) (s : Symbol)
      → gone_chunk repos lost_files lost_symbols c ≡ false
      → s.id ≡ c.symbol_id
      → Member s db.symbols
      → gone_symbol repos lost_files s ≡ false
  unfolding lost_symbols
  stays c s kept e m = elim (Bool-cases (gone_symbol repos lost_files s)) [
    | inl gone ↦
        let lost =
          contains-map symbol_key s _
            ((Member-keep (gone_symbol repos lost_files) s db.symbols).1 (m, gone)) in
        absurd (ground (arith, lost, kept, e))
    | inr fine ↦ fine
  ]

  Owns-kept :
      (c : CodeChunk)
      → gone_chunk repos lost_files lost_symbols c ≡ false
      → Owns c.symbol_id c.file_id c.repository_id db.symbols
      → Owns c.symbol_id c.file_id c.repository_id
          (map (orphan lost_symbols) (keep (λ s. not (gone_symbol repos lost_files s)) db.symbols))
  Owns-kept c kept o = record {
    known =
        let (s, m, e) = Member-of-contains symbol_key c.symbol_id db.symbols o.known in
        let there =
          (Member-keep (λ x. not (gone_symbol repos lost_files x)) s db.symbols).1
            (m, ap not (stays c s kept e m)) in
        rw (← e) (
          contains-map symbol_key (orphan lost_symbols s) _
            (Member-map_on (orphan lost_symbols) s _ there));
    same = λ t m e.
        let (s, n, f) = Member-map (orphan lost_symbols) t _ m in
        let was = (Member-keep (λ x. not (gone_symbol repos lost_files x)) s db.symbols).0 n in
        let (file, repository) = o.same s was.0 (ap symbol_key f ∙ e) in
        (
          ap (λ (x : Symbol). x.file_id) (sym f) ∙ file,
          ap (λ (x : Symbol). x.repository_id) (sym f) ∙ repository,
        );
  }

  not-true : (b : Bool) → not b ≡ true → b ≡ false
  not-true b h = ground arith

  pub delete_cascade-IsCoherent : IsCoherent (delete_cascade repos p db)
  unfolding delete_cascade lost_files lost_symbols
  delete_cascade-IsCoherent = λ c m.
      let (was, kept) =
        (Member-keep (λ x. not (gone_chunk repos lost_files lost_symbols x)) c db.chunks).0 m in
      Owns-kept c (not-true _ kept) (coherent c was)
