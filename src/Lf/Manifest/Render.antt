-- ===== src/Lf/Manifest/Render.antt =====
-- The text of a manifest, `render` of daml-lf/src/manifest.rs, as its bytes.
use rust_daml_bindings.Base.{ℕ, String, List, [], ◌∷◌, ◌++◌}
use rust_daml_bindings.Lf.Manifest.{DarManifest, entries}
use rust_daml_bindings.Lf.Manifest.Lossy.{utf8}
use rust_daml_bindings.Lf.Manifest.Wrap.{split_manifest_string}

-- `make_manifest_entry`.
unfoldable pub make_manifest_entry : String → String → List ℕ
unfolding split_manifest_string utf8
make_manifest_entry key value = split_manifest_string (utf8 key ++ b':' ∷ b' ' ∷ utf8 value)

-- `join("\n")` of the entries.
abbrev lines_of : List (String × String) → List ℕ
lines_of [] = []
lines_of ((k, v) ∷ []) = make_manifest_entry k v
lines_of ((k, v) ∷ e ∷ es) = make_manifest_entry k v ++ 10 ∷ lines_of (e ∷ es)

unfoldable pub render : DarManifest → List ℕ
unfolding entries make_manifest_entry
render m = lines_of (entries m)
