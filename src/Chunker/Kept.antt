-- ===== src/Chunker/Kept.antt =====
-- What happens to each chunk that was cut, in internal/core/chunker/service.go.
use synthy.Text.{is_blank}
use synthy.Prelude.{
  String, ℕ, suc, ◌+◌, ◌≤◌, ◌≡◌, refl, inl, inr, arith, false, List, [], ◌∷◌, ◌++◌, Option, none,
  some, All, Member, length, length-append, find, Bool-cases,
}
use synthy.Exec.{ok, pure}
use mathlib.Core.Path.{subst}
use synthy.Exec.Rules.{>>=-eq-ok, ok_injective}
use synthy.Model.{Symbol, CodeChunk}
use synthy.World.{World, Env, generate_id, time_now}
use synthy.Chunker.{
  RawChunk, Sorted, spans, match_symbol, match_chunk, chunk_row, sort_chunk, sort_chunks,
}

-- `matchSymbol` returns a listed symbol whose lines contain the given ones, or there is none.
abbrev pub Matched : List Symbol → ℕ → ℕ → Option Symbol → Type 0
Matched symbols start_line end_line none =
    (sym : Symbol) → Member sym symbols → spans start_line end_line sym ≡ false
Matched symbols start_line end_line (some sym) =
    Member sym symbols × (sym.start_line ≤ start_line) × (end_line ≤ sym.end_line)

later :
    (start_line end_line : ℕ) (s : Symbol) (symbols : List Symbol) (found : Option Symbol)
    → spans start_line end_line s ≡ false
    → Matched symbols start_line end_line found
    → Matched (s ∷ symbols) start_line end_line found
later a b s symbols none miss m = λ sym where_in. ground (arith, m sym)
later a b s symbols (some sym) miss m = (inr (m.0), m.1, m.2)

-- The symbol that is matched to some lines is one of the given symbols and its lines contain them;
-- if none is matched, then no given symbol contains them.
pub match_symbol-Matched :
    (symbols : List Symbol) (start_line end_line : ℕ)
    → Matched symbols start_line end_line (match_symbol symbols start_line end_line)
unfolding match_symbol find
match_symbol-Matched [] a b = λ sym m. elim m [ ]
match_symbol-Matched (s ∷ symbols) a b = elim (Bool-cases (spans a b s)) [
  | inl hit ↦ rw hit (inl refl, ground arith, ground arith)
  | inr miss ↦ rw miss (later a b s symbols _ miss (match_symbol-Matched symbols a b))
]

module _ (env : Env) (repository_id file_id path : String) (symbols : List Symbol) where
  -- A chunk that may be stored: of this file, not blank, not embedded yet, and within the lines of
  -- one of the symbols, to which it points.
  pub record IsKept (c : CodeChunk) : Type 0 where
    pub repository : c.repository_id ≡ repository_id
    pub file : c.file_id ≡ file_id
    pub not_blank : is_blank c.content ≡ false
    pub not_embedded : c.embedding_id ≡ none
    pub symbol : Symbol
    pub known : Member symbol symbols
    pub points : c.symbol_id ≡ symbol.id
    pub starts : symbol.start_line ≤ c.start_line
    pub ends : c.end_line ≤ symbol.end_line

  abbrev pub total : Sorted → ℕ
  total s = length s.chunks + s.unmatched + s.blank

  All-snoc :
      (cs : List CodeChunk) (c : CodeChunk) → All IsKept cs → IsKept c → All IsKept (cs ++ c ∷ [])
  All-snoc [] c a k = (k, tt)
  All-snoc (d ∷ cs) c a k = (a.0, All-snoc cs c a.1 k)

  -- One more chunk is accounted for.
  abbrev Step : Sorted → Sorted → Type 0
  Step s t = (total t ≡ suc (total s)) × (All IsKept s.chunks → All IsKept t.chunks)

  match_chunk-Step :
      (c : RawChunk) (found : Option Symbol) (s t : Sorted) (w : World)
      → is_blank c.content ≡ false
      → Matched symbols c.start_line c.end_line found
      → (match_chunk env repository_id file_id path symbols c found s w).0 ≡ ok t
      → Step s t
  unfolding pure
  match_chunk-Step c none s t w b m e = subst (Step s) (ok_injective e) (omega arith, λ kept. kept)
  match_chunk-Step c (some sym) s t w b m e =
      let (id, got_id, e1) = >>=-eq-ok (generate_id env) _ w e in
      let (now, got_time, e2) = >>=-eq-ok (time_now env) _ (generate_id env w).1 e1 in
      let row = chunk_row env repository_id file_id path symbols c sym id now in
      subst (Step s) (ok_injective e2) (
        omega (arith, length-append s.chunks (row ∷ [])),
        λ kept. All-snoc s.chunks row kept (record {
          repository = refl;
          file = refl;
          not_blank = b;
          not_embedded = refl;
          symbol = sym;
          known = m.0;
          points = refl;
          starts = m.1;
          ends = m.2;
        }),
      )

  sort_chunk-Step :
      (c : RawChunk) (s t : Sorted) (w : World)
      → (sort_chunk env repository_id file_id path symbols c s w).0 ≡ ok t
      → Step s t
  unfolding sort_chunk pure
  sort_chunk-Step c s t w e = elim (Bool-cases (is_blank c.content)) [
    | inl blank ↦ subst (Step s) (ok_injective (rw blank at e)) (omega arith, λ kept. kept)
    | inr solid ↦
        match_chunk-Step c (match_symbol symbols c.start_line c.end_line) s t w solid
          (match_symbol-Matched symbols c.start_line c.end_line) (rw solid at e)
  ]

  sort_chunks-total :
      (raw : List RawChunk) (s t : Sorted) (w : World)
      → (sort_chunks env repository_id file_id path symbols raw s w).0 ≡ ok t
      → (total t ≡ total s + length raw) × (All IsKept s.chunks → All IsKept t.chunks)
  unfolding sort_chunks pure
  sort_chunks-total [] s t w e =
      subst (λ u. (total u ≡ total s + 0) × (All IsKept s.chunks → All IsKept u.chunks))
        (ok_injective e) (omega arith, λ kept. kept)
  sort_chunks-total (c ∷ raw) s t w e =
      let (next, first, rest) =
        >>=-eq-ok (sort_chunk env repository_id file_id path symbols c s) _ w e in
      let one = sort_chunk-Step c s next w first in
      let others = sort_chunks-total raw next t _ rest in
      (omega (arith, one.0, others.0), λ kept. others.1 (one.1 kept))

  -- If the loop over a file's chunks returns, then each chunk that was cut is kept, unmatched or
  -- blank: the three counts add up to the number of chunks. Each chunk kept belongs to the file, is
  -- not blank, has no embedding yet and points at one of the symbols, whose lines contain its own.
  pub sort_chunks_accounts :
      (raw : List RawChunk) (t : Sorted) (w : World)
      → (sort_chunks env repository_id file_id path symbols raw
          (record { chunks = []; unmatched = 0; blank = 0 })
          w).0
        ≡ ok t
      → (length t.chunks + t.unmatched + t.blank ≡ length raw) × All IsKept t.chunks
  sort_chunks_accounts raw t w e =
      let r = sort_chunks-total raw (record { chunks = []; unmatched = 0; blank = 0 }) t w e in
      (omega (arith, r.0), r.1 tt)
