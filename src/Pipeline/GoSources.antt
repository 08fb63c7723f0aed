-- ===== src/Pipeline/GoSources.antt =====
-- Which paths of a push are analysed: goFiles of internal/usecase/analysis/analysisPipeline.go.
use Prim.Native.String.{◌++◌ as append}
use synthy.Prelude.{String, ◌≡◌, ◌↔◌, List, Member, Member-keep, ◌==◌, ==_iff}
use synthy.Paths.{ext}
use synthy.Paths.Extension.{ext_go_iff}
use synthy.Pipeline.{go_files}

-- The analysed paths are exactly the given ones that are some text followed by ".go".
Member-go_files :
    (path : String) (paths : List String)
    → Member path (go_files paths)
      ↔ (Member path paths × ((stem : String) × (path ≡ append stem ".go")))
unfolding go_files
Member-go_files path paths =
    let kept = Member-keep (λ p. ext p == ".go") path paths in
    (
      λ m. ((kept.0 m).0, (ext_go_iff path).0 ((==_iff (ext path) ".go").0 (kept.0 m).1)),
      λ (m, stem). kept.1 (m, (==_iff (ext path) ".go").1 ((ext_go_iff path).1 stem)),
    )
